-- ===== src/Core/Start.antt =====
-- The constructor of `SVSyncCore`. The members that it reads from the environment are the argument,
-- where `fixed_interval` is NDN_SVS_FIXED_INTERVAL_MS; the prefix registration is not modelled.
use m_svs.Base.{ℕ, ◌≤◌, ◌≡◌, true, false, [], none, arith, if◌then◌else◌, if_cases}
use m_svs.Double.{Double, ◌⊕◌, ◌⊗◌, num, dec, fmax, fclamp}
use m_svs.VersionVector.{empty}
use m_svs.Core.State.{Core, Config}
use m_svs.Core.Timer.{is_network_aware, refresh_network_aware_timer_state, clamp_period}
use m_svs.Core.Timer.Bounds.{InRange, refresh_network_aware_timer_state-InLimits}

module _ {K D : Type 0} ⦃d : Double D⦄ where
  -- The members before the constructor's body.
  unfoldable pub initial_members : Config K D → ℕ → Core K D
  initial_members config fixed_interval = record {
    config = record config { max_periodic_sync_time = 30_000 };
    vv = empty;
    recorded_vv = none;
    max_suppression_time = 500;
    intr_reply_max = 500;
    min_periodic_sync_time = 1000;
    periodic_sync_time = fixed_interval;
    state_vector_cursor = 0;
    activity_score = dec 0 1;
    hotspot_score = dec 0 1;
    feedback_delay_ms = dec 0 1;
    feedback_jitter_ms = dec 0 1;
    feedback_samples = 0;
    pending_feedback_seqs = [];
    adaptive_score_burst_remaining = 0;
    last_selected_nodes = [];
    score_unselected_rounds = [];
    last_timer_adjust_us = 0;
    last_sync_tx_us = 0;
    next_sync_interest = 0;
    initialized = false;
    retx_event = none;
    sent = [];
  }

  unfoldable pub expect_feedback : Core K D → Core K D
  expect_feedback c =
      let delay =
        fclamp
          (c.network_diameter_ms ⊗ (dec 13 1 ⊕ dec 14 1 ⊗ c.link_loss_rate)
            ⊕ num c.network_diameter_hops ⊗ dec 120 1
            ⊕ dec 600 1)
          (dec 400 1) (dec 18000 1) in
      record c {
        feedback_delay_ms = delay;
        feedback_jitter_ms = fmax (dec 200 1) (delay ⊗ (dec 18 2 ⊕ dec 25 2 ⊗ c.link_loss_rate));
      }

  unfoldable pub new_core : Config K D → ℕ → Core K D
  new_core config fixed_interval =
      let c = initial_members config fixed_interval in
      if is_network_aware config.timer_mode
      then clamp_period (refresh_network_aware_timer_state true (expect_feedback c))
      else clamp_period c

  clamp_period-InRange :
      (c : Core K D)
      → c.min_periodic_sync_time ≤ c.max_periodic_sync_time
      → InRange (clamp_period c)
  unfolding clamp_period
  clamp_period-InRange c h = record { low = omega arith; high = omega arith }

  refresh-max :
      (c : Core K D)
      → (refresh_network_aware_timer_state true c).max_periodic_sync_time ≡ c.max_periodic_sync_time
  unfolding refresh_network_aware_timer_state clamp_period
  refresh-max c = ground arith

  -- A new node's interval is in range in every mode, whatever the environment says, if the least
  -- interval of network-aware mode is at most 5 seconds.
  pub new_core-InRange :
      (config : Config K D) (fixed_interval : ℕ)
      → config.network_aware_min_periodic_sync_time ≤ 5000
      → InRange (new_core config fixed_interval)
  unfolding new_core initial_members expect_feedback
  new_core-InRange config fixed_interval least =
      let c = expect_feedback (initial_members config fixed_interval) in
      if_cases InRange (is_network_aware config.timer_mode)
        (λ aware.
          let limits = refresh_network_aware_timer_state-InLimits c aware least (omega arith) in
          clamp_period-InRange _ (omega (arith, limits.least_high, refresh-max c)))
        (λ _. clamp_period-InRange _ (omega arith))
