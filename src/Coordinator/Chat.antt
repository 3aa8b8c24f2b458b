-- ===== src/Coordinator/Chat.antt =====
-- The Danmaku of internal/app/party.go: the Host validates, limits and fans them out, a Viewer shows
-- those of its Host. `graphemes` segments a text into grapheme clusters.
use p2p_hls.Prelude.{if◌then◌else◌, GoString, List, [], ◌∷◌, ◌++◌, none, some, string_eq, ◌==◌}
use p2p_hls.Party.Types.{NodeId, Time}
use p2p_hls.Party.Host.{Host, member}
use p2p_hls.Party.Danmaku.{Runes, cap_text, allow}
use p2p_hls.Coordinator.{Coordinator, Effect, sends, pushes, party_danmaku, to_all, party_id_of}

-- Nothing without an open watch page.
unfoldable pub push_danmaku : Coordinator → Runes → GoString → List Effect
push_danmaku c text sender = if c.page then pushes text sender ∷ [] else []

unfoldable pub broadcast_danmaku :
    (Runes → List Runes) → Coordinator → Host → NodeId → GoString → Runes → List Effect
broadcast_danmaku graphemes c h sender display body =
    let text = cap_text graphemes body in
    if text == []
    then []
    else (if c.connected then to_all h (party_danmaku h.party_id sender display text) else [])
      ++ push_danmaku c text display

-- The Host's side: not from the Audience, nothing left of the text, over the rate limit, or sent on.
unfoldable pub host_danmaku :
    (Runes → List Runes) → Coordinator → Host → NodeId → Runes → Time → Coordinator × List Effect
host_danmaku graphemes c h remote body now =
    let (name, known) = member h remote in
    let text = cap_text graphemes body in
    let (gate', ok) = allow c.gate remote now in
    if known
    then if text == []
      then (c, [])
      else if ok
      then (
        record c { gate = gate' },
        broadcast_danmaku graphemes (record c { gate = gate' }) h remote name text,
      )
      else (record c { gate = gate' }, [])
    else (c, [])

unfoldable pub on_party_danmaku :
    (Runes → List Runes)
    → Coordinator
    → NodeId
    → GoString
    → Runes
    → Time
    → Coordinator × List Effect
on_party_danmaku graphemes c remote display body now = elim c.host [
  | some h ↦ host_danmaku graphemes c h remote body now
  | none ↦ elim c.viewer [
    | none ↦ (c, [])
    | some v ↦
        let text = cap_text graphemes body in
        if remote == c.viewer_host
        then (c, if text == [] then [] else push_danmaku c text display)
        else (c, [])
  ]
]

-- A Danmaku from the browser.
unfoldable pub handle_player_danmaku : (Runes → List Runes) → Coordinator → Runes → List Effect
handle_player_danmaku graphemes c body = elim c.host [
  | some h ↦ broadcast_danmaku graphemes c h c.self c.self body
  | none ↦ elim c.viewer [
    | none ↦ []
    | some v ↦
        let text = cap_text graphemes body in
        if c.viewer_host == []
        then []
        else if c.connected
        then (if text == []
            then []
            else sends c.viewer_host (party_danmaku (party_id_of c.swarm) [] [] text) ∷ [])
        else []
  ]
]
