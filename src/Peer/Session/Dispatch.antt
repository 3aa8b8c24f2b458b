-- ===== src/Peer/Session/Dispatch.antt =====
-- The control channel's `OnMessage` in internal/peer/session.go: what a message does to the session
-- and to the app, and what goes out.
use p2p_hls.Prelude.{ℕ, List, [], ◌∷◌, ◌++◌, Option, none, some}
use p2p_hls.Peer.Envelope.{
  Envelope, Body, unset, handshake, ping, pong, browse, get_live_parties, access_granted, ack,
  catalog, live_parties, get_metadata, request_access, download, join_party, leave_party,
  title_meta, party_welcome, party_invite, failure, get_playlist, get_segment, playlist,
  party_state, party_audience, party_ended, party_danmaku, swarm_have, get_swarm_segment,
}
use p2p_hls.Peer.Session.{Conn, Handlers, SwarmHandler, MediaHandler, on_handshake}
use p2p_hls.Peer.Session.Calls.{on_reply}
use p2p_hls.Peer.Session.Serve.{
  Out, sends, frames, spawns_media, spawns_swarm, MediaJob, segment_job, download_job, SwarmJob,
  put, handle_browse, handle_get_metadata, handle_get_live_parties, handle_request_access,
  handle_get_playlist, handle_join_party, handle_media_job, handle_swarm_job, run_media_job,
  run_swarm_job,
}

module _ {W : Type 0} where
  abbrev pub pass : Conn → W × List Out → Conn × W × List Out
  pass c (w, out) = (c, w, out)

  -- A message for a handler that may not be installed.
  unfoldable pub tell : {H : Type 0} → Option H → (H → W → W) → W → W
  tell none f w = w
  tell (some h) f w = f h w

  unfoldable pub dispatch : Handlers W → Conn → W → ℕ → Body → Conn × W × List Out
  dispatch h c w id (handshake version caps) = (on_handshake c version caps, w, [])
  dispatch h c w id (ping nonce) = (c, w, put c record { request_id = id; body = pong nonce })
  dispatch h c w id browse = pass c (handle_browse c h.handler id w)
  dispatch h c w id (get_metadata content_id) =
      pass c (handle_get_metadata c h.handler id content_id w)
  dispatch h c w id get_live_parties = pass c (handle_get_live_parties c h.handler id w)
  dispatch h c w id (request_access message) =
      pass c (handle_request_access c h.handler id message w)
  dispatch h c w id access_granted = (c, tell h.on_access_granted (λ f. f c.remote) w, [])
  dispatch h c w id (get_playlist content_id name) =
      pass c (handle_get_playlist c h.media_handler id content_id name w)
  dispatch h c w id (get_segment content_id name) =
      (c, w, handle_media_job c h.media_handler id (segment_job content_id name))
  dispatch h c w id (download content_id) =
      (c, w, handle_media_job c h.media_handler id (download_job content_id))
  dispatch h c w id (join_party content_id) =
      pass c (handle_join_party c h.party_handler id content_id w)
  dispatch h c w id (leave_party party_id) =
      (c, tell h.party_handler (λ p. p.on_leave_party c.remote party_id) w, [])
  dispatch h c w id (party_state s) =
      (c, tell h.party_handler (λ p. p.on_party_state c.remote s) w, [])
  dispatch h c w id (party_audience members) =
      (c, tell h.party_handler (λ p. p.on_party_audience c.remote members) w, [])
  dispatch h c w id (party_invite invitation) =
      (c, tell h.party_handler (λ p. p.on_party_invite c.remote invitation) w, [])
  dispatch h c w id (party_ended party_id reason) =
      (c, tell h.party_handler (λ p. p.on_party_ended c.remote party_id reason) w, [])
  dispatch h c w id (party_danmaku party_id sender display text) = (
    c,
    tell h.party_handler (λ p. p.on_party_danmaku c.remote party_id sender display text) w,
    [],
  )
  dispatch h c w id (swarm_have party_id rendition base bitmap epoch) = (
    c,
    tell h.swarm_handler (λ s. s.on_swarm_have c.remote party_id rendition base bitmap epoch) w,
    [],
  )
  dispatch h c w id (get_swarm_segment party_id rendition name) = (
    c,
    w,
    handle_swarm_job c h.swarm_handler id
        record { party_id = party_id; rendition = rendition; segment_name = name },
  )
  dispatch h c w id unset = (c, w, [])
  dispatch h c w id (failure status detail) =
      (on_reply c record { request_id = id; body = failure status detail }, w, [])
  dispatch h c w id (pong nonce) = (on_reply c record { request_id = id; body = pong nonce }, w, [])
  dispatch h c w id (catalog titles) =
      (on_reply c record { request_id = id; body = catalog titles }, w, [])
  dispatch h c w id (title_meta meta) =
      (on_reply c record { request_id = id; body = title_meta meta }, w, [])
  dispatch h c w id ack = (on_reply c record { request_id = id; body = ack }, w, [])
  dispatch h c w id (playlist content content_type complete) =
      (on_reply c record { request_id = id; body = playlist content content_type complete }, w, [])
  dispatch h c w id (party_welcome welcome) =
      (on_reply c record { request_id = id; body = party_welcome welcome }, w, [])
  dispatch h c w id (live_parties parties) =
      (on_reply c record { request_id = id; body = live_parties parties }, w, [])

  unfoldable pub on_envelope : Handlers W → Conn → W → Envelope → Conn × W × List Out
  on_envelope h c w env = dispatch h c w env.request_id env.body

  -- With the bytes of the message; `decode` is `proto.Unmarshal`.
  unfoldable pub on_control_message :
      (List ℕ → Option Envelope) → Handlers W → Conn → W → List ℕ → Conn × W × List Out
  on_control_message decode h c w raw = elim (decode raw) [
    | none ↦ (c, w, [])
    | some env ↦ on_envelope h c w env
  ]

  -- What goes out, with the goroutines run to their end.
  unfoldable pub run_media : Option (MediaHandler W) → Conn → ℕ → MediaJob → W → W × List Out
  run_media none c id job w = (w, [])
  run_media (some h) c id job w = run_media_job c h id job w

  unfoldable pub run_swarm : Option (SwarmHandler W) → Conn → ℕ → SwarmJob → W → W × List Out
  run_swarm none c id job w = (w, [])
  run_swarm (some h) c id job w = run_swarm_job c h id job w

  unfoldable pub run_out : Handlers W → Conn → W → Out → W × List Out
  run_out h c w (sends env) = (w, sends env ∷ [])
  run_out h c w (frames out) = (w, frames out ∷ [])
  run_out h c w (spawns_media id job) = run_media h.media_handler c id job w
  run_out h c w (spawns_swarm id job) = run_swarm h.swarm_handler c id job w

  unfoldable pub run_outs : Handlers W → Conn → W → List Out → W × List Out
  run_outs h c w [] = (w, [])
  run_outs h c w (o ∷ r) =
      let (w', out) = run_out h c w o in let (w'', rest) = run_outs h c w' r in (w'', out ++ rest)
