-- ===== src/Core/State.antt =====
-- ndn-svs/core.hpp: the members of `SVSyncCore`. Those that the constructor sets and nothing changes
-- are the configuration. Intervals are milliseconds; `_us` marks microseconds of the steady clock.
use m_svs.Base.{ℕ, Bool, List, Option}
use m_svs.Std.Map.{Map}
use m_svs.VersionVector.{VersionVector, SubsetStrategy}

pub data TimerMode : Type 0 where
  fixed adaptive network_aware : TimerMode

pub data SyncSignal : Type 0 where
  idle remote_update repair_needed local_update : SyncSignal

pub record Config (K D : Type 0) : Type 0 where
  pub id : K
  pub max_periodic_sync_time : ℕ
  pub periodic_sync_jitter : D
  pub recent_state_vector_entries : ℕ
  pub max_state_vector_entries : ℕ
  pub state_vector_ratio : D
  pub state_vector_strategy : SubsetStrategy
  pub hybrid_hot_ratio : D
  pub hybrid_min_fair_entries : ℕ
  pub score_seq_weight : D
  pub score_recent_weight : D
  pub score_fair_weight : D
  pub score_preferred_boost : D
  pub sticky_hold_ratio : D
  pub sticky_min_hold : ℕ
  pub recent_quota_ratio : D
  pub recent_quota_min_entries : ℕ
  pub adaptive_score_threshold : D
  pub adaptive_score_rounds : ℕ
  pub network_diameter_ms : D
  pub network_diameter_hops : ℕ
  pub network_aware_min_periodic_sync_time : ℕ
  pub link_loss_rate : D
  pub expected_hotspot_ratio : D
  pub enable_coordinated_sync : Bool
  pub enable_event_driven_timer_alpha : Bool
  pub timer_mode : TimerMode
  pub min_send_interval : ℕ
  pub local_update_delay : ℕ

-- `intr_reply_max` is the upper end of `m_intrReplyDist`. `retx_event` is the delay of the one
-- scheduled retransmission, and `sent` the vectors of the Interests sent so far, latest first.
pub record Core (K D : Type 0) : Type 0 where
  pub config : Config K D
  pub open config use *
  pub vv : VersionVector K
  pub recorded_vv : Option (VersionVector K)
  pub max_suppression_time : ℕ
  pub intr_reply_max : ℕ
  pub min_periodic_sync_time : ℕ
  pub periodic_sync_time : ℕ
  pub state_vector_cursor : ℕ
  pub activity_score : D
  pub hotspot_score : D
  pub feedback_delay_ms : D
  pub feedback_jitter_ms : D
  pub feedback_samples : ℕ
  pub pending_feedback_seqs : List (ℕ × ℕ)
  pub adaptive_score_burst_remaining : ℕ
  pub last_selected_nodes : List K
  pub score_unselected_rounds : Map K ℕ
  pub last_timer_adjust_us : ℕ
  pub last_sync_tx_us : ℕ
  pub next_sync_interest : ℕ
  pub initialized : Bool
  pub retx_event : Option ℕ
  pub sent : List (VersionVector K)
