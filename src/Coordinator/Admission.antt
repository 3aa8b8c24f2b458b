-- ===== src/Coordinator/Admission.antt =====
-- Who gets into a hosted party.
use p2p_hls.Prelude.{
  ◌≡◌, refl, sym, subst, GoString, Bool, true, false, not, if◌then◌else◌, Bool-cases, inl, inr, ◌∷◌,
  List, [], map, In, Map, insert, some, string_eq, ◌==◌, ==_iff,
}
use p2p_hls.Party.Types.{NodeId, Time, State, Member}
use p2p_hls.Party.Host.{Host, join, snapshot, members}
use p2p_hls.Coordinator.{Coordinator, Effect, broadcast_audience}
use p2p_hls.Coordinator.Join.{Admission, no_such_party, denied, welcomes, is_allowed, on_join_party}

-- The newcomer is listed.
listed :
    (n name : GoString) (m : Map NodeId GoString)
    → In {A = Member}
        (record { node_id = n; display_name = name })
        (map (λ e. record { node_id = e.0; display_name = e.1 }) (insert n name m))
unfolding insert
listed n name [] = inl refl
listed n name ((k, v) ∷ m) = elim (Bool-cases (k == n)) [
  | inl e ↦ rw e (inl refl)
  | inr e ↦ rw e (inr (listed n name m))
]

-- What is true of an answer with a welcome.
pub record Welcomed (c : Coordinator) (h : Host) (remote : NodeId) (content_id : GoString)
    (now : Time) (pid : GoString) (st : State) (ms : List Member) : Type 0 where
  pub title : h.content_id ≡ content_id
  pub permitted : is_allowed c remote ≡ true
  pub party : pid ≡ h.party_id
  pub playback : st ≡ snapshot h now
  pub audience : In {A = Member} (record { node_id = remote; display_name = remote }) ms

snapshot-join :
    (h : Host) (n : NodeId) (name : GoString) (now : Time)
    → snapshot (join h n name) now ≡ snapshot h now
unfolding snapshot join
snapshot-join h n name now = refl

-- A Host welcomes a node only to the title that its party is on, and only if the access policy lets
-- the node in; the welcome is to the Host's party, with its playback state at that time and an
-- Audience that lists the node.
pub on_join_party-Welcomed :
    (c : Coordinator) (h : Host) (remote : NodeId) (content_id : GoString) (now : Time)
    (pid : GoString) (st : State) (ms : List Member)
    → c.host ≡ some h
    → (on_join_party c remote content_id now).1 ≡ welcomes pid st ms
    → Welcomed c h remote content_id now pid st ms
unfolding on_join_party members join
on_join_party-Welcomed c h remote content_id now pid st ms e a =
    choose (h.content_id == content_id) (is_allowed c remote) refl refl (rw (e, on_join_party) at a)
  where
    agreed :
        welcomes
            (join h remote remote).party_id
            (snapshot (join h remote remote) now)
            (members (join h remote remote))
          ≡ welcomes pid st ms
        → (pid ≡ h.party_id) × (st ≡ snapshot h now) × (ms ≡ members (join h remote remote))
    agreed q = (cc q, cc (q, snapshot-join h remote remote now), cc q)

    newcomer :
        (h : Host)
        → In {A = Member}
            (record { node_id = remote; display_name = remote })
            (members (join h remote remote))
    newcomer h = listed remote remote h.audience

    choose :
        (same ok : Bool)
        → (h.content_id == content_id) ≡ same
        → is_allowed c remote ≡ ok
        → (if◌then◌else◌ {A = Coordinator × Admission × List Effect}
            (not same)
            (c, no_such_party, [])
            (if not ok then (c, denied, []) else (
              record c { host = some (join h remote remote) },
              welcomes
                  (join h remote remote).party_id
                  (snapshot (join h remote remote) now)
                  (members (join h remote remote)),
              broadcast_audience c (join h remote remote),
            ))).1
          ≡ welcomes pid st ms
        → Welcomed c h remote content_id now pid st ms
    choose false ok x y q = absurd (cc q)
    choose true false x y q = absurd (cc q)
    choose true true x y q =
        let (p, t, m) = agreed q in
        record {
          title = (==_iff h.content_id content_id).0 x;
          permitted = y;
          party = p;
          playback = t;
          audience =
              subst (In {A = Member} (record { node_id = remote; display_name = remote })) (sym m)
                (newcomer h);
        }
