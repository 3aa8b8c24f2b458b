-- ===== src/Swarm/Engine.antt =====
-- internal/swarm/swarm.go: the engine's configuration and state.
-- A map to Booleans from which entries are only set to `true` or deleted is the list of its keys.
-- Segment indices are Go ints; the counts of the configuration are not negative.
use p2p_hls.Prelude.{ℕ, Bool, false, ℤ, pos, List, [], Map}
use p2p_hls.Party.Types.{NodeId, Time}

pub record Config : Type 0 where
  pub gossip_interval : ℤ
  pub fanout : ℕ
  pub random_links : ℕ
  pub have_ttl : ℤ
  pub window_lag : ℕ
  pub window_lead : ℕ
  pub upload_cap : ℕ
  pub pull_timeout : ℤ
  pub busy_cooldown : ℕ

unfoldable pub default_config : Config
default_config = record {
  gossip_interval = pos 1000000000;
  fanout = 3;
  random_links = 1;
  have_ttl = pos 10000000000;
  window_lag = 6;
  window_lead = 6;
  upload_cap = 4;
  pull_timeout = pos 5000000000;
  busy_cooldown = 2000000000;
}

pub record PeerInfo : Type 0 where
  pub have : List ℤ
  pub epoch : ℕ
  pub rtt : ℤ
  pub have_rtt : Bool
  pub last_seen : Time
  pub busy_until : Time
  pub demoted : Bool

abbrev pub empty_info : PeerInfo
empty_info = record {
  have = [];
  epoch = 0;
  rtt = pos 0;
  have_rtt = false;
  last_seen = 0;
  busy_until = 0;
  demoted = false;
}

pub record Swarm : Type 0 where
  pub self : NodeId
  pub cfg : Config
  pub have : List ℤ
  pub have_epoch : ℕ
  pub peers : Map NodeId PeerInfo

unfoldable pub new : NodeId → Config → Swarm
new self cfg = record { self = self; cfg = cfg; have = []; have_epoch = 0; peers = [] }
