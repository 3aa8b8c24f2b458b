-- ===== src/Peer/Session/RoundTrip.antt =====
-- A request from one node's client method to the other's handler and back.
use p2p_hls.Prelude.{ℕ, ◌≡◌, refl, ap, GoString, List, [], ◌∷◌, Option, none, some}
use p2p_hls.Peer.Errors.{PeerError, is-status_err}
use p2p_hls.Peer.Envelope.{
  Envelope, Body, Wire, err_envelope, catalog, title_meta, live_parties, party_welcome, ack,
}
use p2p_hls.Peer.Session.{Conn, Result, ok, err, send, RequestHandler, MediaHandler, PartyHandler}
use p2p_hls.Peer.Session.Calls.{failure_of}
use p2p_hls.Peer.Session.Serve.{
  Out, sends, put, answer_with, answer_done, handle_browse, handle_get_metadata,
  handle_get_live_parties, handle_request_access, handle_get_playlist, handle_join_party,
  playlist_body,
}
use p2p_hls.Peer.Session.Clients.{
  get_catalog_titles, get_title_meta, get_parties, get_playlist_parts, get_welcome, reply_result,
  call_result, browse_result, get_metadata_result, live_parties_result, get_playlist_result,
  request_access_result, request_access_body, welcomed, join_party_result,
}

-- The client has what the handler gave: its value, changed by `f`, or an error of the same kind.
abbrev pub Agrees : {A B : Type 0} → (A → B) → Result A → Result B → Type 0
Agrees f (ok a) r = r ≡ ok (f a)
Agrees f (err e) (ok b) = ⊥
Agrees f (err e) (err e') = e'.is ≡ e.is

abbrev pub AgreesDone : Option PeerError → Option PeerError → Type 0
AgreesDone none r = r ≡ none
AgreesDone (some e) none = ⊥
AgreesDone (some e) (some e') = e'.is ≡ e.is

-- What goes out is one envelope under the request's id, and the client makes of it what was handled.
pub record Reaches {A B : Type 0} (id : ℕ) (client : Result Envelope → Result B) (f : A → B)
    (handled : Result A) (out : List Out) : Type 0 where
  pub envelope : Envelope
  pub alone : out ≡ sends envelope ∷ []
  pub correlated : envelope.request_id ≡ id
  pub agrees : Agrees f handled (client (ok envelope))

pub record ReachesDone (id : ℕ) (handled : Option PeerError) (out : List Out) : Type 0 where
  pub envelope : Envelope
  pub alone : out ≡ sends envelope ∷ []
  pub correlated : envelope.request_id ≡ id
  pub agrees : AgreesDone handled (request_access_result (ok envelope))

module _ (c : Conn) (accepting : (env : Envelope) → send c env ≡ none) (id : ℕ) where
  put-alone : (env : Envelope) → put c env ≡ sends env ∷ []
  unfolding put
  put-alone env = rw (accepting env, put) refl

  answer_with-Reaches :
      {A B : Type 0} (body : A → Body) (get : Body → B) (f : A → B)
      → ((a : A) → failure_of (body a) ≡ none)
      → ((a : A) → get (body a) ≡ f a)
      → (r : Result A) → Reaches id (call_result (reply_result get)) f r (answer_with c id body r)
  unfolding answer_with err_envelope call_result reply_result failure_of
  answer_with-Reaches body get f fine same (ok a) = record {
    envelope = record { request_id = id; body = body a };
    alone = put-alone record { request_id = id; body = body a };
    correlated = refl;
    agrees = rw (fine a, reply_result) (ap ok (same a));
  }
  answer_with-Reaches body get f fine same (err e) = record {
    envelope = err_envelope id e;
    alone = put-alone (err_envelope id e);
    correlated = refl;
    agrees = is-status_err e;
  }

  answer_done-Reaches : (r : Option PeerError) → ReachesDone id r (answer_done c id r)
  unfolding answer_done err_envelope request_access_result request_access_body failure_of
  answer_done-Reaches none = record {
    envelope = record { request_id = id; body = ack };
    alone = put-alone record { request_id = id; body = ack };
    correlated = refl;
    agrees = refl;
  }
  answer_done-Reaches (some e) = record {
    envelope = err_envelope id e;
    alone = put-alone (err_envelope id e);
    correlated = refl;
    agrees = is-status_err e;
  }

  welcome-Reaches :
      (r : Result Wire) → Reaches id join_party_result (λ w. w) r (answer_with c id party_welcome r)
  unfolding join_party_result welcomed answer_with err_envelope call_result reply_result failure_of
      get_welcome
  welcome-Reaches (ok a) = record {
    envelope = record { request_id = id; body = party_welcome a };
    alone = put-alone record { request_id = id; body = party_welcome a };
    correlated = refl;
    agrees = refl;
  }
  welcome-Reaches (err e) = record {
    envelope = err_envelope id e;
    alone = put-alone (err_envelope id e);
    correlated = refl;
    agrees = is-status_err e;
  }

-- Round trip of the six calls that are answered on the control channel, from the handler of the node
-- that is asked to the caller that asked: for Browse, GetMetadata, LiveParties, GetPlaylist,
-- RequestAccess and JoinParty alike, one envelope goes out under the request's id, and the method of
-- the asking node returns from it exactly the value that the handler returned, or else an error in
-- which `errors.Is` finds the same one of denied, not found, unavailable and busy, or none of them, as
-- in the handler's. It holds whatever the handlers return, while the control channel takes messages.
pub client-handle :
    {W : Type 0} (c : Conn) (h : RequestHandler W) (m : MediaHandler W) (p : PartyHandler W)
    (id : ℕ) (content_id name message : GoString) (w : W)
    → ((env : Envelope) → send c env ≡ none)
    → Reaches id browse_result (λ t. t) (h.on_browse c.remote w).1 (handle_browse c (some h) id w).1
      × Reaches id get_metadata_result some
          (h.on_metadata c.remote content_id w).1
          (handle_get_metadata c (some h) id content_id w).1
      × Reaches id live_parties_result
          (λ t. t)
          (h.on_live_parties c.remote w).1
          (handle_get_live_parties c (some h) id w).1
      × Reaches id get_playlist_result
          (λ t. t)
          (m.on_playlist c.remote content_id name w).1
          (handle_get_playlist c (some m) id content_id name w).1
      × ReachesDone id
          (h.on_request_access c.remote message w).1
          (handle_request_access c (some h) id message w).1
      × Reaches id join_party_result
          (λ t. t)
          (p.on_join_party c.remote content_id w).1
          (handle_join_party c (some p) id content_id w).1
unfolding handle_browse handle_get_metadata handle_get_live_parties handle_get_playlist
    handle_request_access handle_join_party browse_result get_metadata_result live_parties_result
    get_playlist_result get_catalog_titles get_title_meta get_parties get_playlist_parts
    playlist_body failure_of
client-handle c h m p id content_id name message w accepting = (
  answer_with-Reaches c accepting id catalog get_catalog_titles (λ t. t) (λ a. refl) (λ a. refl) _,
  answer_with-Reaches c accepting id title_meta get_title_meta some (λ a. refl) (λ a. refl) _,
  answer_with-Reaches c accepting id live_parties get_parties (λ t. t) (λ a. refl) (λ a. refl) _,
  answer_with-Reaches c accepting id playlist_body get_playlist_parts (λ t. t) (λ a. refl)
      (λ a. refl) _,
  answer_done-Reaches c accepting id _,
  welcome-Reaches c accepting id _,
)
