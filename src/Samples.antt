-- ===== src/Samples.antt =====
-- Concrete instances of the parameters, for tests and witnesses: nodes are numbers, and a `double`
-- is a count of millionths.
pub mod Paths
pub mod Prefixes
pub mod Store
pub mod Blocks
pub mod Subscriber
use m_svs.Base.{
  true, none, ℕ, zero, suc, ◌+◌, ◌-◌, ◌*◌, ◌/◌, ◌^◌, ◌∷◌, [], leb, ltb, ◌==◌, if◌then◌else◌,
}
use m_svs.Names.{Name}
use m_svs.Double.{Double, pos}
use m_svs.VersionVector.{VersionVector, SubsetStrategy}
use m_svs.Core.State.{Core, Config, TimerMode}
use m_svs.Core.Handlers.{Env}
use m_svs.VersionVector.Subset.{Request}

-- The greatest root that `bits` binary digits hold.
abbrev root : ℕ → ℕ → ℕ → ℕ
root zero found x = found
root (suc bits) found x =
    root bits (if leb ((found + 2 ^ bits) * (found + 2 ^ bits)) x then found + 2 ^ bits else found)
      x

instance abbrev pub millionths : Double ℕ
millionths = record {
  of_nat = λ n. n * 1_000_000;
  dec = λ m e. m * 1_000_000 / 10 ^ e;
  add = λ a b. a + b;
  sub = λ a b. a - b;
  mul = λ a b. a * b / 1_000_000;
  div = λ a b. a * 1_000_000 / b;
  lt = ltb;
  le = leb;
  eq = λ a b. a == b;
  sqrt = λ a. root 40 0 (a * 1_000_000);
  fabs = λ a. a;
  exp = λ a. a + 1_000_000;
  ceil_size = λ a. (a + 999_999) / 1_000_000;
  llround = λ a. pos ((a + 500_000) / 1_000_000);
  truncate = λ a. pos (a / 1_000_000);
}

instance abbrev pub numbered : Name ℕ
numbered = record { empty = 0; to_uri = λ k. b'/' ∷ (k + 48) ∷ b'_' ∷ b'a' ∷ [] }

-- Four nodes; node 3 was updated last.
abbrev pub four_nodes : VersionVector ℕ
four_nodes = record {
  map = (1, 5) ∷ (2, 7) ∷ (3, 2) ∷ (4, 9) ∷ [];
  last_update = (1, 10) ∷ (2, 20) ∷ (3, 40) ∷ (4, 30) ∷ [];
}

abbrev pub request : ℕ → SubsetStrategy → Request ℕ ℕ
request max_entries strategy = record {
  max_entries = max_entries;
  recent_entries = 1;
  start_index = 1;
  preferred_node = 2;
  strategy = strategy;
  hot_ratio = 750_000;
  min_fair_entries = 2;
  score_seq_weight = 350_000;
  score_recent_weight = 450_000;
  score_fair_weight = 200_000;
  score_preferred_boost = 600_000;
  sticky_entries = [];
  sticky_budget = 0;
  novelty_base_entries = 3 ∷ [];
  novelty_budget = 1;
  score_compensation_rounds = (1, 6) ∷ [];
}

-- At most two entries an Interest, which need not be sent at once.
abbrev pub configured : {K : Type 0} → K → SubsetStrategy → TimerMode → Config K ℕ
configured id strategy mode = record {
  id = id;
  max_periodic_sync_time = 30_000;
  periodic_sync_jitter = 100_000;
  recent_state_vector_entries = 1;
  max_state_vector_entries = 2;
  state_vector_ratio = 0;
  state_vector_strategy = strategy;
  hybrid_hot_ratio = 750_000;
  hybrid_min_fair_entries = 2;
  score_seq_weight = 350_000;
  score_recent_weight = 450_000;
  score_fair_weight = 200_000;
  score_preferred_boost = 600_000;
  sticky_hold_ratio = 500_000;
  sticky_min_hold = 4;
  recent_quota_ratio = 200_000;
  recent_quota_min_entries = 4;
  adaptive_score_threshold = 500_000;
  adaptive_score_rounds = 2;
  network_diameter_ms = 120_000_000;
  network_diameter_hops = 4;
  network_aware_min_periodic_sync_time = 4000;
  link_loss_rate = 0;
  expected_hotspot_ratio = 0;
  enable_coordinated_sync = true;
  enable_event_driven_timer_alpha = true;
  timer_mode = mode;
  min_send_interval = 20;
  local_update_delay = 1;
}

abbrev pub node : {K : Type 0} → Config K ℕ → VersionVector K → Core K ℕ
node config vv = record {
  config = config;
  vv = vv;
  recorded_vv = none;
  max_suppression_time = 500;
  intr_reply_max = 500;
  min_periodic_sync_time = 1000;
  periodic_sync_time = 30_000;
  state_vector_cursor = 0;
  activity_score = 0;
  hotspot_score = 0;
  feedback_delay_ms = 288_000_000;
  feedback_jitter_ms = 51_840_000;
  feedback_samples = 0;
  pending_feedback_seqs = [];
  adaptive_score_burst_remaining = 0;
  last_selected_nodes = [];
  score_unselected_rounds = [];
  last_timer_adjust_us = 0;
  last_sync_tx_us = 0;
  next_sync_interest = 0;
  initialized = true;
  retx_event = none;
  sent = [];
}

abbrev pub instant : ℕ → Env
instant ms = record {
  now_us = ms * 1000;
  now = ms * 1_000_000;
  draw = 7;
  reply = λ most. most / 2;
  sample = λ low high. (low + high) / 2;
}
