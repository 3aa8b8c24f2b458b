-- ===== src/Signal/Presence.antt =====
-- Which connection a node id stands for, whatever the order in which connections come and go.
use p2p_hls.Prelude.{
  ℕ, ◌≡◌, refl, sym, ap, ◌∙◌, GoString, Bool, true, false, if◌then◌else◌, Bool-cases, Option-cases,
  inl, inr, eqb, List, [], ◌∷◌, lookup, lookup-insert, lookup-delete, insert, delete, map_some,
  Option, none, some, string_eq, ◌==◌, ==_iff, arith,
}
use p2p_hls.Signal.{
  Server, Client, Message, presence_join, presence_leave, relay, add, remove, offer,
  broadcast_except, route_relay, connect, disconnect, relay_from,
}

-- The connection that a node id is registered with.
unfoldable pub online : Server → GoString → Option ℕ
online s id = map_some (λ c. c.conn) (lookup id s)

-- Whether the connection is the given one.
abbrev pub is_at : ℕ → Option ℕ → Bool
is_at conn none = false
is_at conn (some k) = eqb k conn

offer-conn : (m : Message) (c : Client) → (offer m c).conn ≡ c.conn
unfolding offer
offer-conn m c = ground arith

online-insert :
    (s : Server) (k id : GoString) (c : Client)
    → online (insert k c s) id ≡ (if k == id then some c.conn else online s id)
unfolding online
online-insert s k id c = ground (arith, lookup-insert k id c s)

online-delete :
    (s : Server) (k id : GoString)
    → online (delete k s) id ≡ (if k == id then none else online s id)
unfolding online
online-delete s k id = ground (arith, lookup-delete k id s)

online-broadcast_except :
    (s : Server) (except : GoString) (m : Message) (id : GoString)
    → online (broadcast_except s except m) id ≡ online s id
unfolding online broadcast_except lookup
online-broadcast_except [] except m id = refl
online-broadcast_except ((k, c) ∷ r) except m id = elim (Bool-cases (k == id)) [
  | inl e ↦ rw e (ap some (kept (k == except)))
  | inr e ↦ rw e (online-broadcast_except r except m id)
]
  where
    kept : (b : Bool) → (if b then c else offer m c).conn ≡ c.conn
    kept true = refl
    kept false = offer-conn m c

online-relay :
    (s : Server) (c : Client) (claimed to id : GoString) (payload : List ℕ)
    → online (relay_from s c claimed to payload) id ≡ online s id
unfolding relay_from route_relay online
online-relay s c claimed to id payload = elim (Option-cases (lookup to s)) [
  | inl e ↦ rw (e, route_relay) refl
  | inr (d, e) ↦
      rw (e, route_relay)
        (online-insert s to id (offer (relay c.info.node_id to payload) d)
          ∙ same d e (to == id) refl)
]
  where
    same :
        (d : Client)
        → lookup to s ≡ some d
        → (b : Bool) → (to == id) ≡ b
        → (if b then some (offer (relay c.info.node_id to payload) d).conn else online s id)
          ≡ online s id
    same d e false q = refl
    same d e true q =
        ap some (offer-conn (relay c.info.node_id to payload) d)
        ∙ sym (ap (map_some (λ x. x.conn)) (ap (λ k. lookup k s) (sym ((==_iff to id).0 q)) ∙ e))

-- What happens at a server.
pub data Happening : Type 0 where
  connects disconnects : Client → Happening
  relays : Client → GoString → GoString → List ℕ → Happening

unfoldable pub happen : Server → Happening → Server
happen s (connects c) = (connect s c).0
happen s (disconnects c) = disconnect s c
happen s (relays c claimed to payload) = relay_from s c claimed to payload

unfoldable pub happen_all : Server → List Happening → Server
happen_all s [] = s
happen_all s (h ∷ hs) = happen_all (happen s h) hs

-- The connection that a history leaves a node id with: the one that registered last, unless it is
-- this very connection that went away since.
abbrev pub latest : GoString → Option ℕ → List Happening → Option ℕ
latest id o [] = o
latest id o (connects c ∷ hs) = latest id (if c.info.node_id == id then some c.conn else o) hs
latest id o (disconnects c ∷ hs) =
    latest id (if c.info.node_id == id then (if is_at c.conn o then none else o) else o) hs
latest id o (relays c claimed to payload ∷ hs) = latest id o hs

online-connect :
    (s : Server) (c : Client) (id : GoString)
    → online (connect s c).0 id ≡ (if c.info.node_id == id then some c.conn else online s id)
unfolding connect add
online-connect s c id =
    online-broadcast_except (insert c.info.node_id c s) c.info.node_id (presence_join c.info) id
    ∙ online-insert s c.info.node_id id c

online-disconnect :
    (s : Server) (c : Client) (id : GoString)
    → online (disconnect s c) id ≡ (
        if c.info.node_id == id
        then (if is_at c.conn (online s id) then none else online s id)
        else online s id)
unfolding disconnect remove online
online-disconnect s c id = elim (Option-cases (lookup c.info.node_id s)) [
  | inl e ↦
      rw (e, remove)
        (idle (c.info.node_id == id)
          (λ q. ap (is_at c.conn) (at_node q ∙ ap (map_some (λ x. x.conn)) e)))
  | inr (d, e) ↦ elim (Bool-cases (eqb d.conn c.conn)) [
    | inl q ↦
        rw (e, q, remove)
          (online-broadcast_except (delete c.info.node_id s) c.info.node_id
              (presence_leave c.info.node_id) id
            ∙ online-delete s c.info.node_id id
            ∙ gone (c.info.node_id == id)
                (λ x. ap (is_at c.conn) (at_node x ∙ ap (map_some (λ x. x.conn)) e) ∙ q))
    | inr q ↦
        rw (e, q, remove)
          (idle (c.info.node_id == id)
            (λ x. ap (is_at c.conn) (at_node x ∙ ap (map_some (λ x. x.conn)) e) ∙ q))
  ]
]
  where
    at_node :
        (c.info.node_id == id) ≡ true
        → online s id ≡ map_some (λ x. x.conn) (lookup c.info.node_id s)
    at_node q = ap (λ k. online s k) (sym ((==_iff c.info.node_id id).0 q))

    idle :
        (b : Bool)
        → (b ≡ true → is_at c.conn (online s id) ≡ false)
        → online s id
          ≡ (if b then (if is_at c.conn (online s id) then none else online s id) else online s id)
    idle true h = rw (h refl) refl
    idle false h = refl

    gone :
        (b : Bool)
        → (b ≡ true → is_at c.conn (online s id) ≡ true)
        → (if b then none else online s id)
          ≡ (if b then (if is_at c.conn (online s id) then none else online s id) else online s id)
    gone true h = rw (h refl) refl
    gone false h = refl

-- However connections come, supersede one another, relay and go, a node id stands for the connection
-- that registered it last, until that connection itself goes: the late clean-up of a superseded
-- connection takes nobody offline.
pub online-happen_all :
    (s : Server) (hs : List Happening) (id : GoString)
    → online (happen_all s hs) id ≡ latest id (online s id) hs
unfolding happen_all happen
online-happen_all s [] id = refl
online-happen_all s (connects c ∷ hs) id =
    online-happen_all (connect s c).0 hs id ∙ ap (λ o. latest id o hs) (online-connect s c id)
online-happen_all s (disconnects c ∷ hs) id =
    online-happen_all (disconnect s c) hs id ∙ ap (λ o. latest id o hs) (online-disconnect s c id)
online-happen_all s (relays c claimed to payload ∷ hs) id =
    online-happen_all (relay_from s c claimed to payload) hs id
    ∙ ap (λ o. latest id o hs) (online-relay s c claimed to id payload)
