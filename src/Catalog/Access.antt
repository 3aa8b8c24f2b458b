-- ===== src/Catalog/Access.antt =====
-- Who may see a Catalog after a history of requests and decisions.
use p2p_hls.Prelude.{
  ◌≡◌, refl, ap, ◌∙◌, GoString, Bool, false, not, ◌&&◌, ◌||◌, if◌then◌else◌, List, [], ◌∷◌, has,
  Option, none, some, lookup, lookup-insert, lookup-delete, string_eq, ◌==◌, arith,
}
use p2p_hls.Party.Types.{NodeId}
use p2p_hls.Catalog.{
  Service, allowed, add_allow, add_block, new_policy, visibility_public, add_request, take_request,
  request_access, approve, reject, block_node,
}

pub data Decision : Type 0 where
  asks : NodeId → GoString → Decision
  approves rejects blocks : NodeId → Decision

unfoldable pub decide : Service → Decision → Service
decide s (asks n message) = request_access s n message
decide s (approves n) = approve s n
decide s (rejects n) = reject s n
decide s (blocks n) = block_node s n

unfoldable pub decide_all : Service → List Decision → Service
decide_all s [] = s
decide_all s (d ∷ ds) = decide_all (decide s d) ds

-- What a history says of a node: whether it was ever blocked, whether it was ever approved, and its
-- request that is still open, `o` before the history.
abbrev pub ever_blocked : NodeId → List Decision → Bool
ever_blocked n [] = false
ever_blocked n (asks m message ∷ ds) = ever_blocked n ds
ever_blocked n (approves m ∷ ds) = ever_blocked n ds
ever_blocked n (rejects m ∷ ds) = ever_blocked n ds
ever_blocked n (blocks m ∷ ds) = (m == n) || ever_blocked n ds

abbrev pub ever_approved : NodeId → List Decision → Bool
ever_approved n [] = false
ever_approved n (asks m message ∷ ds) = ever_approved n ds
ever_approved n (approves m ∷ ds) = (m == n) || ever_approved n ds
ever_approved n (rejects m ∷ ds) = ever_approved n ds
ever_approved n (blocks m ∷ ds) = ever_approved n ds

abbrev pub open_request : NodeId → Option GoString → List Decision → Option GoString
open_request n o [] = o
open_request n o (asks m message ∷ ds) = open_request n (if m == n then some message else o) ds
open_request n o (approves m ∷ ds) = open_request n (if m == n then none else o) ds
open_request n o (rejects m ∷ ds) = open_request n (if m == n then none else o) ds
open_request n o (blocks m ∷ ds) = open_request n o ds

has-block-run :
    (n : NodeId) (s : Service) (ds : List Decision)
    → has n (decide_all s ds).policy.block ≡ (has n s.policy.block || ever_blocked n ds)
unfolding decide_all decide request_access approve reject block_node add_block add_allow
    take_request has
has-block-run n s [] = ground arith
has-block-run n s (asks m message ∷ ds) = has-block-run n (decide s (asks m message)) ds
has-block-run n s (approves m ∷ ds) = has-block-run n (decide s (approves m)) ds
has-block-run n s (rejects m ∷ ds) = has-block-run n (decide s (rejects m)) ds
has-block-run n s (blocks m ∷ ds) = ground (arith, has-block-run n (decide s (blocks m)) ds)

has-allow-run :
    (n : NodeId) (s : Service) (ds : List Decision)
    → has n (decide_all s ds).policy.allow ≡ (has n s.policy.allow || ever_approved n ds)
unfolding decide_all decide request_access approve reject block_node add_block add_allow
    take_request has
has-allow-run n s [] = ground arith
has-allow-run n s (asks m message ∷ ds) = has-allow-run n (decide s (asks m message)) ds
has-allow-run n s (approves m ∷ ds) = ground (arith, has-allow-run n (decide s (approves m)) ds)
has-allow-run n s (rejects m ∷ ds) = has-allow-run n (decide s (rejects m)) ds
has-allow-run n s (blocks m ∷ ds) = has-allow-run n (decide s (blocks m)) ds

def-run : (s : Service) (ds : List Decision) → (decide_all s ds).policy.def ≡ s.policy.def
unfolding decide_all decide request_access approve reject block_node add_block add_allow
    take_request
def-run s [] = refl
def-run s (asks m message ∷ ds) = def-run (decide s (asks m message)) ds
def-run s (approves m ∷ ds) = def-run (decide s (approves m)) ds
def-run s (rejects m ∷ ds) = def-run (decide s (rejects m)) ds
def-run s (blocks m ∷ ds) = def-run (decide s (blocks m)) ds

lookup-reqs-run :
    (n : NodeId) (s : Service) (ds : List Decision)
    → lookup n (decide_all s ds).reqs ≡ open_request n (lookup n s.reqs) ds
unfolding decide_all decide request_access approve reject block_node add_request take_request
lookup-reqs-run n s [] = refl
lookup-reqs-run n s (asks m message ∷ ds) =
    lookup-reqs-run n (decide s (asks m message)) ds
    ∙ ap (λ o. open_request n o ds) (lookup-insert m n message s.reqs)
lookup-reqs-run n s (approves m ∷ ds) =
    lookup-reqs-run n (decide s (approves m)) ds
    ∙ ap (λ o. open_request n o ds) (lookup-delete m n s.reqs)
lookup-reqs-run n s (rejects m ∷ ds) =
    lookup-reqs-run n (decide s (rejects m)) ds
    ∙ ap (λ o. open_request n o ds) (lookup-delete m n s.reqs)
lookup-reqs-run n s (blocks m ∷ ds) = lookup-reqs-run n (decide s (blocks m)) ds

-- The access rule over a whole history: a node may see the Catalog exactly if it was never blocked
-- and either the Library is public or the node was approved at some time, in whatever order; and its
-- request is open exactly if it asked since the last approval or rejection.
pub allowed-decide_all :
    (def : GoString) (ds : List Decision) (n : NodeId)
    → let s = decide_all (record { policy = new_policy def; reqs = [] }) ds in
      (allowed s.policy n
        ≡ (not (ever_blocked n ds) && ((def == visibility_public) || ever_approved n ds)))
      × (lookup n s.reqs ≡ open_request n none ds)
unfolding allowed new_policy has lookup
allowed-decide_all def ds n =
    let s : Service = record { policy = new_policy def; reqs = [] } in
    (
      ground (
        arith,
        has-block-run n s ds,
        has-allow-run n s ds,
        ap (λ d. d == visibility_public) (def-run s ds),
      ),
      lookup-reqs-run n s ds,
    )
