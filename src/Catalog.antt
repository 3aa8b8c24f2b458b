-- ===== src/Catalog.antt =====
-- internal/catalog/policy.go, requests.go and service.go: who may see a node's Catalog.
-- A map to Booleans that are only ever set to `true` is the list of its keys. Callbacks, the text of
-- a title's metadata (`toMeta`) and its folder are not modelled: a browse answers with the titles.
pub mod Access
use p2p_hls.Prelude.{
  ℕ, GoString, bytes, Bool, true, false, not, if◌then◌else◌, List, [], ◌∷◌, ◌++◌, map, select, has,
  Map, keys, lookup, insert, delete, Option, none, some, string_eq, ◌==◌,
}
use p2p_hls.Party.Types.{NodeId}

-- `Visibility` is a string; only "public" is told apart.
abbrev pub visibility_public : GoString
visibility_public = bytes "public"

pub record Policy : Type 0 where
  pub def : GoString
  pub allow : List NodeId
  pub block : List NodeId

unfoldable pub new_policy : GoString → Policy
new_policy def = record { def = def; allow = []; block = [] }

unfoldable pub allowed : Policy → NodeId → Bool
allowed p node =
    if has node p.block
    then false
    else if p.def == visibility_public
    then true
    else has node p.allow

unfoldable pub add_allow : Policy → NodeId → Policy
add_allow p node = record p { allow = node ∷ p.allow }

unfoldable pub add_block : Policy → NodeId → Policy
add_block p node = record p { block = node ∷ p.block }

abbrev pub Requests : Type 0
Requests = Map NodeId GoString

unfoldable pub add_request : Requests → NodeId → GoString → Requests
add_request r node message = insert node message r

unfoldable pub pending : Requests → List (NodeId × GoString)
pending r = r

unfoldable pub list : Requests → List NodeId
list r = keys r

unfoldable pub take_request : Requests → NodeId → Option GoString × Requests
take_request r node = (lookup node r, delete node r)

-- The service; `titles` are the store's, by their content ids.
pub record Service : Type 0 where
  pub policy : Policy
  pub reqs : Requests

unfoldable pub request_access : Service → NodeId → GoString → Service
request_access s remote message = record s { reqs = add_request s.reqs remote message }

unfoldable pub approve : Service → NodeId → Service
approve s node = record s { reqs = (take_request s.reqs node).1; policy = add_allow s.policy node }

unfoldable pub reject : Service → NodeId → Service
reject s node = record s { reqs = (take_request s.reqs node).1 }

unfoldable pub block_node : Service → NodeId → Service
block_node s node = record s { policy = add_block s.policy node }

-- An answer to a Viewer: `ErrDenied`, `ErrNotFound`, another error of the store, or a value.
pub data Reply (A : Type 0) : Type 0 where
  denied : Reply A
  missing : Reply A
  broken : Reply A
  replies : A → Reply A

-- The store's answers are none for an error. `T` is the type of a title, with its content id.
module _ {T : Type 0} (content_id : T → GoString) where
  unfoldable pub browse : Service → Option (List T) → NodeId → Reply (List T)
  browse s all remote =
      if not (allowed s.policy remote)
      then denied
      else (elim all [ none ↦ broken | some ts ↦ replies ts ])

  unfoldable pub get_metadata :
      Service → (GoString → Option (Option T)) → NodeId → GoString → Reply T
  get_metadata s get remote id = if not (allowed s.policy remote) then denied else (elim (get id) [
    | none ↦ broken
    | some o ↦ elim o [ none ↦ missing | some t ↦ replies t ]
  ])

  -- `live` says whether a title has a party and with how many viewers; none without a provider.
  unfoldable pub live_parties :
      Service
      → Option (GoString → Bool × ℕ)
      → Option (List T)
      → NodeId
      → Reply (List (GoString × ℕ))
  live_parties s provider all remote =
      if not (allowed s.policy remote) then denied else (elim provider [
        | none ↦ replies []
        | some live ↦ elim all [
          | none ↦ broken
          | some ts ↦ replies (
              map (λ t. (content_id t, (live (content_id t)).1))
                (select (λ t. (live (content_id t)).0) ts))
        ]
      ])
