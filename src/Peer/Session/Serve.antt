-- ===== src/Peer/Session/Serve.antt =====
-- Requests of the remote node, in internal/peer/session.go, party.go and swarm.go: the `handle`
-- methods. Each works on the app's state and says what goes out. The goroutine that a bulk request
-- starts is a job, which `run_media_job` or `run_swarm_job` runs.
use p2p_hls.Prelude.{ℕ, GoString, Bool, List, [], ◌∷◌, Option, none, some}
use p2p_hls.Peer.Errors.{PeerError, unavailable, sentinel}
use p2p_hls.Peer.Envelope.{
  Envelope, Body, err_envelope, catalog, title_meta, live_parties, ack, playlist, party_welcome,
}
use p2p_hls.Peer.Bulk.Send.{Read, Sent, send_reader, send_bulk}
use p2p_hls.Peer.Session.{
  Conn, Result, ok, err, RequestHandler, MediaHandler, PartyHandler, SwarmHandler, send, bulk_flow,
}

-- What a node puts on a channel, and what it leaves to a goroutine.
pub data MediaJob : Type 0 where
  segment_job : GoString → GoString → MediaJob
  download_job : GoString → MediaJob

pub record SwarmJob : Type 0 where
  pub party_id : GoString
  pub rendition : GoString
  pub segment_name : GoString

pub data Out : Type 0 where
  sends : Envelope → Out
  frames : List (List ℕ) → Out
  spawns_media : ℕ → MediaJob → Out
  spawns_swarm : ℕ → SwarmJob → Out

-- `_ = s.send(env)`: nothing goes out if it fails.
unfoldable pub put : Conn → Envelope → List Out
put c env = elim (send c env) [ none ↦ sends env ∷ [] | some e ↦ [] ]

-- An error to the request, or the reply with what its handler gave.
unfoldable pub answer_with : {A : Type 0} → Conn → ℕ → (A → Body) → Result A → List Out
answer_with c id body (err e) = put c (err_envelope id e)
answer_with c id body (ok a) = put c record { request_id = id; body = body a }

unfoldable pub answer_done : Conn → ℕ → Option PeerError → List Out
answer_done c id (some e) = put c (err_envelope id e)
answer_done c id none = put c record { request_id = id; body = ack }

unfoldable pub refuse : Conn → ℕ → List Out
refuse c id = put c (err_envelope id (sentinel unavailable))

unfoldable pub playlist_body : List ℕ × GoString × Bool → Body
playlist_body (content, content_type, complete) = playlist content content_type complete

module _ {W : Type 0} where
  unfoldable pub handle_browse : Conn → Option (RequestHandler W) → ℕ → W → W × List Out
  handle_browse c none id w = (w, refuse c id)
  handle_browse c (some h) id w =
      let (w', r) = h.on_browse c.remote w in (w', answer_with c id catalog r)

  unfoldable pub handle_get_metadata :
      Conn → Option (RequestHandler W) → ℕ → GoString → W → W × List Out
  handle_get_metadata c none id content_id w = (w, refuse c id)
  handle_get_metadata c (some h) id content_id w =
      let (w', r) = h.on_metadata c.remote content_id w in (w', answer_with c id title_meta r)

  unfoldable pub handle_get_live_parties : Conn → Option (RequestHandler W) → ℕ → W → W × List Out
  handle_get_live_parties c none id w = (w, refuse c id)
  handle_get_live_parties c (some h) id w =
      let (w', r) = h.on_live_parties c.remote w in (w', answer_with c id live_parties r)

  unfoldable pub handle_request_access :
      Conn → Option (RequestHandler W) → ℕ → GoString → W → W × List Out
  handle_request_access c none id message w = (w, refuse c id)
  handle_request_access c (some h) id message w =
      let (w', r) = h.on_request_access c.remote message w in (w', answer_done c id r)

  unfoldable pub handle_get_playlist :
      Conn → Option (MediaHandler W) → ℕ → GoString → GoString → W → W × List Out
  handle_get_playlist c none id content_id name w = (w, refuse c id)
  handle_get_playlist c (some h) id content_id name w =
      let (w', r) = h.on_playlist c.remote content_id name w in
      (w', answer_with c id playlist_body r)

  unfoldable pub handle_join_party :
      Conn → Option (PartyHandler W) → ℕ → GoString → W → W × List Out
  handle_join_party c none id content_id w = (w, refuse c id)
  handle_join_party c (some h) id content_id w =
      let (w', r) = h.on_join_party c.remote content_id w in (w', answer_with c id party_welcome r)

  -- `handleGetSegment`, `handleDownload` and `handleGetSwarmSegment` up to their `go`.
  unfoldable pub handle_media_job : Conn → Option (MediaHandler W) → ℕ → MediaJob → List Out
  handle_media_job c none id job = refuse c id
  handle_media_job c (some h) id job = spawns_media id job ∷ []

  unfoldable pub handle_swarm_job : Conn → Option (SwarmHandler W) → ℕ → SwarmJob → List Out
  handle_swarm_job c none id job = refuse c id
  handle_swarm_job c (some h) id job = spawns_swarm id job ∷ []

-- The frames of a transfer, and an error envelope if it broke off.
unfoldable pub transfer : Conn → ℕ → Sent → List Out
transfer c id (out, none) = frames out ∷ []
transfer c id (out, some e) = frames out ∷ put c (err_envelope id e)

unfoldable pub transfer_bytes : Conn → ℕ → Result (List ℕ) → List Out
transfer_bytes c id (err e) = put c (err_envelope id e)
transfer_bytes c id (ok bs) = transfer c id (send_bulk (bulk_flow c) id bs)

unfoldable pub transfer_file : Conn → ℕ → Result (List Read) → List Out
transfer_file c id (err e) = put c (err_envelope id e)
transfer_file c id (ok r) = transfer c id (send_reader (bulk_flow c) id 0 r)

module _ {W : Type 0} where
  -- With the release of the segment at the end.
  unfoldable pub transfer_swarm : Conn → ℕ → W × Result (List ℕ × (W → W)) → W × List Out
  transfer_swarm c id (w, err e) = (w, put c (err_envelope id e))
  transfer_swarm c id (w, ok (bs, release)) =
      (release w, transfer c id (send_bulk (bulk_flow c) id bs))

  -- The goroutines, with the handler that they were started with.
  unfoldable pub run_media_job : Conn → MediaHandler W → ℕ → MediaJob → W → W × List Out
  run_media_job c h id (segment_job content_id name) w =
      let (w', r) = h.on_segment c.remote content_id name w in (w', transfer_bytes c id r)
  run_media_job c h id (download_job content_id) w =
      let (w', r) = h.on_open_file c.remote content_id w in (w', transfer_file c id r)

  unfoldable pub run_swarm_job : Conn → SwarmHandler W → ℕ → SwarmJob → W → W × List Out
  run_swarm_job c h id job w =
      transfer_swarm c id
        (h.on_swarm_segment c.remote job.party_id job.rendition job.segment_name w)
