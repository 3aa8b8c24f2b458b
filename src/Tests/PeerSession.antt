-- ===== src/Tests/PeerSession.antt =====
-- Runs of internal/peer as in its session_test.go, rpc_test.go and stream_test.go, and the theorems on
-- sessions at inputs.
use p2p_hls.Prelude.{
  ℕ, ◌+◌, ◌≡◌, refl, bytes, true, false, ltb, List, [], ◌∷◌, has, Option, none, some, lookup,
  insert, delete, nat_eq, arith,
}
use p2p_hls.Peer.Errors.{PeerError, denied, sentinel, status_of, status_err}
use p2p_hls.Peer.Envelope.{Envelope, failure, browse, ping, pong, download}
use p2p_hls.Peer.Bulk.{
  encode_bulk_frame, decode_bulk_frame, put_big_endian, big_endian, flags_and_payload,
}
use p2p_hls.Peer.Bulk.Send.{ends, send_bulk, send_reader, send_payload, send_frame, reader_of}
use p2p_hls.Peer.Bulk.Receive.{
  BulkSink, new_sink, on_bulks, on_bulk, deliver_frame, settle_sink, accept, signal_sink,
}
use p2p_hls.Peer.Bulk.Transfer.{is_for, on_bulks-send_bulk}
use p2p_hls.Peer.Session.{
  Conn, new_session, ok, err, Handlers, RequestHandler, MediaHandler, PartyHandler, send,
}
use p2p_hls.Peer.Session.Calls.{
  transfer_failed, begin_fetch, next_id, register_fetch, on_reply, failure_of, deliver_error,
  on_frame, settle, collect, outcome, fetch_outcome, sink_outcome, return_with,
}
use p2p_hls.Peer.Session.Clients.{
  browse_result, get_metadata_result, live_parties_result, get_playlist_result, join_party_result,
}
use p2p_hls.Peer.Session.Serve.{
  handle_browse, handle_get_metadata, handle_get_live_parties, handle_get_playlist,
  handle_request_access, handle_join_party,
}
use p2p_hls.Peer.Session.Dispatch.{on_envelope, run_outs}
use p2p_hls.Peer.Session.Answers.{answers, on_envelope-answers}
use p2p_hls.Peer.Session.RoundTrip.{Reaches, ReachesDone, client-handle}
use p2p_hls.Peer.Session.Fates.{
  idle, Event, calls, fetches, receives, receives_frame, collects, Ledger, run, step, ledger_run,
}
use p2p_hls.Peer.Session.Fates.Moves.{Implements}
use p2p_hls.Peer.Session.Fates.Simulation.{run-ledger_run}

open_flow : ℕ → Option PeerError
open_flow k = none

abbrev sinks_of_two : List (ℕ × BulkSink)
sinks_of_two = (3, new_sink none) ∷ (4, new_sink none) ∷ []

-- The frames of transfer 3 with one of transfer 4 between them, and a message that is no frame.
abbrev mixed : List (List ℕ)
mixed =
    encode_bulk_frame 3 0 false (7 ∷ 8 ∷ [])
    ∷ encode_bulk_frame 4 0 false (9 ∷ [])
    ∷ (1 ∷ [])
    ∷ encode_bulk_frame 3 1 true []
    ∷ []

on_bulks-send_bulk_example :
    (s : BulkSink) × (lookup 3 (on_bulks sinks_of_two mixed) ≡ some s)
    × (s.done ≡ (elim (send_bulk open_flow 3 (7 ∷ 8 ∷ [])).1 [ none ↦ some none | some e ↦ none ]))
    × ((send_bulk open_flow 3 (7 ∷ 8 ∷ [])).1 ≡ none → s.written ≡ 7 ∷ 8 ∷ [])
unfolding lookup is_for decode_bulk_frame encode_bulk_frame put_big_endian big_endian
    flags_and_payload send_bulk send_reader send_payload send_frame reader_of open_flow
on_bulks-send_bulk_example =
    on_bulks-send_bulk open_flow 3 (7 ∷ 8 ∷ []) sinks_of_two mixed (omega arith) refl refl

-- A node whose state is a count of the requests, and whose channel takes everything.
unfoldable accepting : Envelope → Option PeerError
accepting env = none

abbrev connected : Conn
connected = record (new_session (bytes "b")) { control = some accepting; bulk = some open_flow }

abbrev requests : RequestHandler ℕ
requests = record {
  on_browse = λ remote w. (w + 1, ok ((1 ∷ []) ∷ []));
  on_metadata = λ remote id w. (w + 1, err (sentinel denied));
  on_live_parties = λ remote w. (w, ok []);
  on_request_access = λ remote message w. (w, none);
}

abbrev media : MediaHandler ℕ
media = record {
  on_playlist = λ remote id name w. (w, ok (5 ∷ [], bytes "application/vnd.apple.mpegurl", true));
  on_segment = λ remote id name w. (w, ok (1 ∷ 2 ∷ []));
  on_open_file = λ remote id w. (w, ok (ends (1 ∷ []) ∷ []));
}

abbrev party : PartyHandler ℕ
party = record {
  on_join_party = λ remote id w. (w, err (sentinel denied));
  on_leave_party = λ remote id w. w;
  on_party_state = λ remote s w. w;
  on_party_audience = λ remote m w. w;
  on_party_invite = λ remote i w. w;
  on_party_ended = λ remote id reason w. w;
  on_party_danmaku = λ remote id sender display text w. w;
}

abbrev handlers : Handlers ℕ
handlers = record {
  handler = some requests;
  on_access_granted = none;
  media_handler = some media;
  party_handler = some party;
  swarm_handler = none;
}

abbrev download_request : Envelope
download_request = record { request_id = 6; body = download (bytes "c1") }

on_envelope-answers_example :
    (let (c', w', out) = on_envelope handlers connected 0 download_request in
      answers (λ id. ltb 5 id) (run_outs handlers c' w' out).1)
    ≡ 1
unfolding new_session send accepting
on_envelope-answers_example =
    on_envelope-answers handlers connected 0 download_request (λ id. ltb 5 id) (λ e. refl)
      (omega arith)

client-handle_example :
    Reaches 6 browse_result
      (λ t. t)
      (requests.on_browse (bytes "b") 0).1
      (handle_browse connected (some requests) 6 0).1
    × Reaches 6 get_metadata_result some
        (requests.on_metadata (bytes "b") (bytes "c1") 0).1
        (handle_get_metadata connected (some requests) 6 (bytes "c1") 0).1
    × Reaches 6 live_parties_result
        (λ t. t)
        (requests.on_live_parties (bytes "b") 0).1
        (handle_get_live_parties connected (some requests) 6 0).1
    × Reaches 6 get_playlist_result
        (λ t. t)
        (media.on_playlist (bytes "b") (bytes "c1") (bytes "x") 0).1
        (handle_get_playlist connected (some media) 6 (bytes "c1") (bytes "x") 0).1
    × ReachesDone 6
        (requests.on_request_access (bytes "b") (bytes "hi") 0).1
        (handle_request_access connected (some requests) 6 (bytes "hi") 0).1
    × Reaches 6 join_party_result
        (λ t. t)
        (party.on_join_party (bytes "b") (bytes "c1") 0).1
        (handle_join_party connected (some party) 6 (bytes "c1") 0).1
unfolding new_session send accepting
client-handle_example =
    client-handle connected requests media party 6 (bytes "c1") (bytes "x") (bytes "hi") 0
      (λ e. refl)

-- Two calls and a fetch; the replies come the other way round, and one for no request.
abbrev late_reply : ℕ → Envelope
late_reply id = record { request_id = id; body = pong (bytes "x") }

abbrev history : List Event
history =
    calls (ping (bytes "x"))
    ∷ calls browse
    ∷ fetches (download (bytes "c1")) none
    ∷ receives (late_reply 2)
    ∷ receives (late_reply 9)
    ∷ collects 1
    ∷ receives (late_reply 1)
    ∷ receives_frame (encode_bulk_frame 3 0 true (7 ∷ []))
    ∷ collects 1
    ∷ collects 2
    ∷ collects 3
    ∷ []

abbrev no_requests : Ledger
no_requests = record { count = 0; fate = λ n. idle }

run-ledger_run_example :
    ((run connected history).1 ≡ (ledger_run accepting no_requests history).1)
    × Implements accepting (run connected history).0 (ledger_run accepting no_requests history).0
unfolding new_session send lookup has
run-ledger_run_example =
    run-ledger_run accepting connected no_requests history
      record { same_count = refl; same = λ n. refl; fresh = λ n h. refl; channel = λ env. refl }
      (omega arith)

-- An error ends a fetch; a frame for it whose write then fails does not change what its caller gets.
abbrev out_of_space : PeerError
out_of_space = record { is = none; text = bytes "no space" }

first_result_wins :
    (run connected (
      fetches (download (bytes "c1")) (some out_of_space)
      ∷ receives
          (record { request_id = 1; body = failure (status_of (sentinel denied)) (bytes "x") })
      ∷ receives_frame (encode_bulk_frame 1 0 false (7 ∷ []))
      ∷ collects 1
      ∷ [])).1
    ≡ none
      ∷ none
      ∷ none
      ∷ some (transfer_failed (status_err (status_of (sentinel denied)) (bytes "x")))
      ∷ []
unfolding new_session send lookup run step begin_fetch next_id register_fetch on_reply failure_of
    deliver_error on_frame settle collect outcome fetch_outcome sink_outcome return_with on_bulk
    deliver_frame settle_sink accept signal_sink new_sink decode_bulk_frame encode_bulk_frame
    put_big_endian big_endian flags_and_payload insert delete accepting
first_result_wins = refl
