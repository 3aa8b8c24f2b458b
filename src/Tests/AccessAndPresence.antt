-- ===== src/Tests/AccessAndPresence.antt =====
-- internal/catalog/*_test.go and internal/signalserver/server_test.go, and the theorems on access
-- and presence at inputs.
use p2p_hls.Prelude.{
  ℕ, ◌≡◌, refl, bytes, false, not, ◌&&◌, ◌||◌, List, [], ◌∷◌, lookup, insert, delete, some, none,
  has, string_eq, str_beq, ◌==◌,
}
use p2p_hls.Catalog.{
  new_policy, allowed, add_allow, add_block, add_request, take_request, request_access, approve,
  reject, block_node, visibility_public,
}
use p2p_hls.Catalog.Access.{
  Decision, asks, approves, blocks, decide, decide_all, ever_blocked, ever_approved, open_request,
  allowed-decide_all,
}
use p2p_hls.Signal.{
  Client, add, remove, offer, broadcast_except, route_relay, connect, disconnect, relay_from,
}
use p2p_hls.Signal.Presence.{
  online, Happening, connects, disconnects, happen, happen_all, latest, online-happen_all,
}

program : Unit {0}
unfolding new_policy allowed add_allow add_block add_request take_request request_access approve
    reject block_node decide decide_all lookup insert delete has str_beq add remove offer
    broadcast_except route_relay connect disconnect relay_from online happen happen_all
program = tt

abbrev decisions : List Decision
decisions =
    asks (bytes "n:a") (bytes "please")
    ∷ approves (bytes "n:a")
    ∷ asks (bytes "n:b") (bytes "me too")
    ∷ blocks (bytes "n:b")
    ∷ approves (bytes "n:b")
    ∷ []

-- Approval does not lift a block.
still_blocked :
    allowed
      (decide_all (record { policy = new_policy (bytes "restricted"); reqs = [] }) decisions).policy
      (bytes "n:b")
    ≡ false
unfolding program
still_blocked = refl

allowed-decide_all_example :
    let s = decide_all (record { policy = new_policy (bytes "restricted"); reqs = [] }) decisions in
    (allowed s.policy (bytes "n:a") ≡ (
      not (ever_blocked (bytes "n:a") decisions)
      && ((bytes "restricted" == visibility_public) || ever_approved (bytes "n:a") decisions)))
    × (lookup (bytes "n:a") s.reqs ≡ open_request (bytes "n:a") none decisions)
allowed-decide_all_example = allowed-decide_all (bytes "restricted") decisions (bytes "n:a")

abbrev client : ℕ → Client
client n = record {
  info = record { node_id = bytes "n:a"; public_key = []; display_name = bytes "A" };
  send = [];
  conn = n;
}

abbrev reconnects : List Happening
reconnects = connects (client 1) ∷ connects (client 2) ∷ disconnects (client 1) ∷ []

-- The old connection's clean-up leaves the new one online.
superseded : online (happen_all [] reconnects) (bytes "n:a") ≡ some 2
unfolding program
superseded = refl

online-happen_all_example :
    online (happen_all [] reconnects) (bytes "n:a")
    ≡ latest (bytes "n:a") (online [] (bytes "n:a")) reconnects
online-happen_all_example = online-happen_all [] reconnects (bytes "n:a")
