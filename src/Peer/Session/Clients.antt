-- ===== src/Peer/Session/Clients.antt =====
-- The methods of a session that ask the remote node, in internal/peer/session.go and party.go: what
-- each asks with, and what it makes of the envelope or the error that `call` returns.
use p2p_hls.Prelude.{ℕ, GoString, Bool, false, List, [], Option, none, some}
use p2p_hls.Peer.Errors.{PeerError, unavailable, sentinel}
use p2p_hls.Peer.Envelope.{
  Envelope, Body, Wire, pong, catalog, title_meta, live_parties, playlist, party_welcome,
}
use p2p_hls.Peer.Session.{Result, ok, err}
use p2p_hls.Peer.Session.Calls.{failure_of}

-- The getters of the generated code: the zero value for another kind of message.
unfoldable pub get_pong_nonce : Body → GoString
get_pong_nonce (pong nonce) = nonce
get_pong_nonce other = []

unfoldable pub get_catalog_titles : Body → List Wire
get_catalog_titles (catalog titles) = titles
get_catalog_titles other = []

unfoldable pub get_title_meta : Body → Option Wire
get_title_meta (title_meta meta) = some meta
get_title_meta other = none

unfoldable pub get_parties : Body → List Wire
get_parties (live_parties parties) = parties
get_parties other = []

unfoldable pub get_playlist_parts : Body → List ℕ × GoString × Bool
get_playlist_parts (playlist content content_type complete) = (content, content_type, complete)
get_playlist_parts other = ([], [], false)

unfoldable pub get_welcome : Body → Option Wire
get_welcome (party_welcome welcome) = some welcome
get_welcome other = none

-- An error envelope as an error, and any other by its getter.
unfoldable pub reply_result : {A : Type 0} → (Body → A) → Body → Result A
reply_result get body = elim (failure_of body) [ some e ↦ err e | none ↦ ok (get body) ]

-- With the error of `call` itself.
unfoldable pub call_result : {A : Type 0} → (Body → Result A) → Result Envelope → Result A
call_result f (err e) = err e
call_result f (ok env) = f env.body

unfoldable pub ping_result : Result Envelope → Result GoString
ping_result = call_result (reply_result get_pong_nonce)

unfoldable pub browse_result : Result Envelope → Result (List Wire)
browse_result = call_result (reply_result get_catalog_titles)

unfoldable pub get_metadata_result : Result Envelope → Result (Option Wire)
get_metadata_result = call_result (reply_result get_title_meta)

unfoldable pub live_parties_result : Result Envelope → Result (List Wire)
live_parties_result = call_result (reply_result get_parties)

unfoldable pub get_playlist_result : Result Envelope → Result (List ℕ × GoString × Bool)
get_playlist_result = call_result (reply_result get_playlist_parts)

-- Any envelope without an error is taken for the acknowledgement.
unfoldable pub request_access_body : Body → Option PeerError
request_access_body body = failure_of body

unfoldable pub request_access_result : Result Envelope → Option PeerError
request_access_result (err e) = some e
request_access_result (ok env) = request_access_body env.body

-- An envelope that is no welcome is an error too.
unfoldable pub welcomed : Result (Option Wire) → Result Wire
welcomed (err e) = err e
welcomed (ok none) = err (sentinel unavailable)
welcomed (ok (some w)) = ok w

unfoldable pub join_party_result : Result Envelope → Result Wire
join_party_result r = welcomed (call_result (reply_result get_welcome) r)
