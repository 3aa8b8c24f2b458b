-- ===== src/Coordinator/Strangers.antt =====
-- Whose messages a coordinator acts on.
use p2p_hls.Prelude.{
  ◌≤◌, ◌≡◌, ◌≢◌, refl, GoString, Bool, true, false, if◌then◌else◌, Bool-cases, Option-cases, inl,
  inr, List, [], ◌∷◌, ◌++◌, map, has, length, In, All, Map, keys, lookup, none, some, string_eq,
  ◌==◌, ==_iff, arith,
}
use p2p_hls.Party.Types.{NodeId, Time, Member}
use p2p_hls.Party.Host.{Host, member, members}
use p2p_hls.Party.Danmaku.{Runes, cap_text, allow}
use p2p_hls.Party.Danmaku.Cap.{length-cap_text}
use p2p_hls.Swarm.Peers.Reconcile.{lookup-set_peers}
use p2p_hls.Session.{Session, set_session_peers}
use p2p_hls.Coordinator.{
  Coordinator, Effect, sends, pushes, audience_changed, party_over, connects, stops, party_danmaku,
  to_all, on_party_audience,
}
use p2p_hls.Coordinator.Chat.{push_danmaku, broadcast_danmaku, host_danmaku, on_party_danmaku}

-- An Audience is taken from anybody: where there is a mesh session, after an Audience message of
-- a node that is not its Host, the mesh has no record of a peer that the message does not list.
pub on_party_audience_stranger :
    (c : Coordinator) (remote : NodeId) (ms : List Member) (ss : Session) (n : NodeId)
    → remote ≢ c.viewer_host
    → c.swarm ≡ some ss
    → has n (map (λ m. m.node_id) ms) ≡ false
    → (ss' : Session) × ((on_party_audience c remote ms).0.swarm ≡ some ss')
      × (lookup n ss'.eng.peers ≡ none)
unfolding on_party_audience set_session_peers
on_party_audience_stranger c remote ms ss n ne e gone = (
  (set_session_peers ss (map (λ m. m.node_id) ms)).0,
  rw (e, on_party_audience) refl,
  ground (arith, gone, lookup-set_peers ss.eng (map (λ m. m.node_id) ms) n),
)

-- A text that is fit to be shown.
abbrev pub Fit : Runes → Type 0
Fit text = (text ≢ []) × (length text ≤ 100)

-- What a Host does with a Danmaku of `remote`: it goes under its sender's id and the name that the
-- Audience has for it, to members of the Audience and to the Host's own watch page.
abbrev pub Relayed : Host → NodeId → Effect → Type 0
Relayed h remote (sends n env) =
    (name : GoString) × (text : Runes) × In n (keys h.audience)
    × (lookup remote h.audience ≡ some name)
    × Fit text
    × (env ≡ party_danmaku h.party_id remote name text)
Relayed h remote (pushes text name) = (lookup remote h.audience ≡ some name) × Fit text
Relayed h remote audience_changed = ⊥
Relayed h remote party_over = ⊥
Relayed h remote (connects n) = ⊥
Relayed h remote (stops ss) = ⊥

module _ (h : Host) (remote : NodeId) (name : GoString) (text : Runes)
    (known : lookup remote h.audience ≡ some name) (fit : Fit text) where
  to_members :
      (m : Map NodeId GoString)
      → ((n : NodeId) → In n (keys m) → In n (keys h.audience))
      → All (Relayed h remote) (
          map
            (λ (x : Member). sends x.node_id (party_danmaku h.party_id remote name text))
            (map (λ e. record { node_id = e.0; display_name = e.1 }) m))
  to_members [] inside = tt
  to_members ((n, v) ∷ m) inside =
      ((name, text, inside n (inl refl), known, fit, refl), to_members m (λ k i. inside k (inr i)))

  All-append :
      (es fs : List Effect)
      → All (Relayed h remote) es
      → All (Relayed h remote) fs
      → All (Relayed h remote) (es ++ fs)
  All-append [] fs a b = b
  All-append (e ∷ es) fs a b = (a.0, All-append es fs a.1 b)

  to_all-Relayed : All (Relayed h remote) (to_all h (party_danmaku h.party_id remote name text))
  unfolding to_all members
  to_all-Relayed = to_members h.audience (λ n i. i)

  push-Relayed : (c : Coordinator) → All (Relayed h remote) (push_danmaku c text name)
  unfolding push_danmaku
  push-Relayed c = shown c.page
    where
      shown : (b : Bool) → All (Relayed h remote) (if b then pushes text name ∷ [] else [])
      shown true = ((known, fit), tt)
      shown false = tt

  fan_out :
      (c : Coordinator)
      → All (Relayed h remote) (
          (if c.connected then to_all h (party_danmaku h.party_id remote name text) else [])
          ++ push_danmaku c text name)
  fan_out c = out c.connected
    where
      out :
          (b : Bool)
          → All (Relayed h remote) (
              (if b then to_all h (party_danmaku h.party_id remote name text) else [])
              ++ push_danmaku c text name)
      out true = All-append _ (push_danmaku c text name) to_all-Relayed (push-Relayed c)
      out false = push-Relayed c

broadcast-Relayed :
    (graphemes : Runes → List Runes) (c : Coordinator) (h : Host) (remote : NodeId)
    (name : GoString) (body : Runes)
    → lookup remote h.audience ≡ some name
    → All (Relayed h remote) (broadcast_danmaku graphemes c h remote name body)
unfolding broadcast_danmaku
broadcast-Relayed graphemes c h remote name body known =
    elim (Bool-cases (cap_text graphemes body == [])) [
      | inl e ↦ rw (e, broadcast_danmaku) tt
      | inr e ↦
          rw (e, broadcast_danmaku)
            (fan_out h remote name (cap_text graphemes body) known
              ((λ q. some_text q e), length-cap_text graphemes body) c)
    ]
  where
    some_text : cap_text graphemes body ≡ [] → (cap_text graphemes body == []) ≡ false → ⊥
    some_text q e = ground (arith, ==_iff (cap_text graphemes body) [])

-- What a Host sends and shows when a node posts a Danmaku: nothing unless the node is in its
-- Audience and the rate limit lets it through, and then only a fit text, under the node's own id and
-- the Audience's name for it, whatever sender the message claims.
pub on_party_danmaku-Relayed :
    (graphemes : Runes → List Runes) (c : Coordinator) (h : Host) (remote : NodeId)
    (display : GoString) (body : Runes) (now : Time)
    → c.host ≡ some h
    → let es = (on_party_danmaku graphemes c remote display body now).1 in
      All (Relayed h remote) es
      × (lookup remote h.audience ≡ none → es ≡ [])
      × ((allow c.gate remote now).1 ≡ false → es ≡ [])
unfolding on_party_danmaku host_danmaku member
on_party_danmaku-Relayed graphemes c h remote display body now e =
    elim (Option-cases (lookup remote h.audience)) [
      | inl q ↦ rw (e, q, on_party_danmaku, host_danmaku, member) (tt, (λ x. refl), (λ x. refl))
      | inr (name, q) ↦
          rw (e, q, on_party_danmaku, host_danmaku, member)
            (choose name q (cap_text graphemes body == []) (allow c.gate remote now).1)
    ]
  where
    allowed : Coordinator
    allowed = record c { gate = (allow c.gate remote now).0 }

    choose :
        (name : GoString)
        → lookup remote h.audience ≡ some name
        → (empty ok : Bool)
        → let es =
            (if◌then◌else◌ {A = Coordinator × List Effect} empty
              (c, [])
              (if ok
                then (
                  allowed,
                  broadcast_danmaku graphemes allowed h remote name (cap_text graphemes body),
                )
                else (allowed, []))).1 in
          All (Relayed h remote) es × (some name ≡ none → es ≡ []) × (ok ≡ false → es ≡ [])
    choose name q true ok = (tt, (λ x. refl), (λ x. refl))
    choose name q false false = (tt, (λ x. refl), (λ x. refl))
    choose name q false true = (
      broadcast-Relayed graphemes allowed h remote name (cap_text graphemes body) q,
      (λ x. absurd (cc x)),
      (λ x. absurd (cc x)),
    )
