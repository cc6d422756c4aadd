-- ===== src/Core/Timer.antt =====
-- The periodic sync timer: `updateSyncInterval`, `sampleSyncDelay`, `refreshNetworkAwareTimerState`
-- and the constructor's clamping. A difference of `long` values that `std::max` bounds below by a
-- value that is not negative may stop at 0.
pub mod Bounds
use m_svs.Base.{
  ℕ, ◌+◌, ◌-◌, ◌*◌, ◌/◌, ◌%◌, ◌^◌, Bool, true, false, not, ◌&&◌, ltb, ◌==◌ as nat_eq, min, max,
  if◌then◌else◌,
}
use m_svs.Double.{
  Double, ◌⊕◌, ◌⊖◌, ◌⊗◌, ◌⊘◌, num, dec, fmax, fmin, fclamp, clamp_long, max_plus, max_long,
}
use m_svs.VersionVector.{size}
use m_svs.VersionVector.Select.{is_full}
use m_svs.Core.State.{Core, TimerMode, SyncSignal}

module _ {D : Type 0} ⦃d : Double D⦄ where
  unfoldable pub timer_hotness : D → D → D
  timer_hotness hotspot activity =
      fclamp (dec 65 2 ⊗ hotspot ⊕ dec 35 2 ⊗ activity) (dec 0 1) (dec 10 1)

  unfoldable pub feedback_pressure : D → D → D
  feedback_pressure delay_ms jitter_ms =
      fclamp ((fmax (dec 0 1) delay_ms ⊕ dec 15 1 ⊗ fmax (dec 0 1) jitter_ms) ⊘ dec 9000 1)
        (dec 0 1) (dec 10 1)

  -- The smoothed activity after a signal in adaptive mode.
  unfoldable pub next_activity : SyncSignal → D → D
  next_activity SyncSignal.local_update a = fmin (dec 10 1) (a ⊗ dec 85 2 ⊕ dec 18 2)
  next_activity SyncSignal.repair_needed a = fmin (dec 10 1) (a ⊗ dec 75 2 ⊕ dec 30 2)
  next_activity SyncSignal.remote_update a = fmin (dec 10 1) (a ⊗ dec 80 2 ⊕ dec 8 2)
  next_activity SyncSignal.idle a = a ⊗ dec 65 2

  -- The smoothing factor of network-aware mode.
  unfoldable pub event_alpha : Bool → SyncSignal → D
  event_alpha false signal = dec 6 2
  event_alpha true SyncSignal.repair_needed = dec 16 2
  event_alpha true SyncSignal.local_update = dec 10 2
  event_alpha true SyncSignal.remote_update = dec 7 2
  event_alpha true SyncSignal.idle = dec 4 2

-- The interval that adaptive mode moves to before the weighted floor.
unfoldable pub adapted : SyncSignal → ℕ → ℕ → ℕ → ℕ
adapted SyncSignal.local_update floor_ms longest current =
    max floor_ms (current - max 200 (current / 8))
adapted SyncSignal.repair_needed floor_ms longest current =
    max floor_ms (current - max 350 (current / 4))
adapted SyncSignal.remote_update floor_ms longest current =
    min longest (current + max 100 (current / 16))
adapted SyncSignal.idle floor_ms longest current = min longest (current + max 400 (current / 5))

abbrev pub is_repair : SyncSignal → Bool
is_repair SyncSignal.repair_needed = true
is_repair _ = false

abbrev pub is_fixed : TimerMode → Bool
is_fixed TimerMode.fixed = true
is_fixed _ = false

abbrev pub is_network_aware : TimerMode → Bool
is_network_aware TimerMode.network_aware = true
is_network_aware _ = false

module _ {K D : Type 0} ⦃d : Double D⦄ where
  unfoldable pub floor_ms : Core K D → ℕ
  floor_ms c =
      let total = size c.vv in
      if is_full c.state_vector_strategy
      then max c.min_periodic_sync_time (1400 + total * 18)
      else if ltb 0 total
      then max c.min_periodic_sync_time (650 + min total 64 * 9)
      else c.min_periodic_sync_time

  unfoldable pub adapt : SyncSignal → ℕ → Core K D → Core K D
  adapt signal floor c =
      let longest = c.max_periodic_sync_time in
      let activity = next_activity signal c.activity_score in
      let next = adapted signal floor longest c.periodic_sync_time in
      let weighted = max_plus floor (d.llround (activity ⊗ dec 2500 1)) next in
      record c {
        activity_score = activity;
        periodic_sync_time = min longest (max c.min_periodic_sync_time weighted);
      }

  unfoldable pub feedback_target : ℕ → Core K D → ℕ
  feedback_target floor c =
      clamp_long
        (d.llround (
          dec 30 1 ⊗ fmax (dec 400 1) c.feedback_delay_ms
          ⊕ dec 22 1 ⊗ fmax (dec 150 1) c.feedback_jitter_ms
          ⊕ dec 3200 1
          ⊕ dec 2200 1 ⊗ c.link_loss_rate))
        floor c.max_periodic_sync_time

  unfoldable pub follow_feedback : SyncSignal → ℕ → Core K D → Core K D
  follow_feedback signal floor c =
      let alpha = event_alpha c.enable_event_driven_timer_alpha signal in
      record c {
        periodic_sync_time =
            clamp_long
              (d.llround (
                (dec 10 1 ⊖ alpha) ⊗ num c.periodic_sync_time
                ⊕ alpha ⊗ num (feedback_target floor c)))
              floor c.max_periodic_sync_time;
      }

  -- Within 220 ms of the last adjustment only a repair moves the timer, half of the way down.
  unfoldable pub nudge : SyncSignal → ℕ → Core K D → Core K D
  nudge signal floor c =
      if is_repair signal && ltb floor c.periodic_sync_time
      then record c { periodic_sync_time = floor + (c.periodic_sync_time - floor) / 2 }
      else c

  unfoldable pub adjust : TimerMode → SyncSignal → ℕ → Core K D → Core K D
  adjust TimerMode.fixed signal floor c = c
  adjust TimerMode.adaptive signal floor c = adapt signal floor c
  adjust TimerMode.network_aware signal floor c = follow_feedback signal floor c

  unfoldable pub update_sync_interval : SyncSignal → ℕ → Core K D → Core K D
  update_sync_interval signal now_us c =
      if is_fixed c.timer_mode
      then c
      else if not (nat_eq c.last_timer_adjust_us 0) && ltb (now_us - c.last_timer_adjust_us) 220000
      then nudge signal (floor_ms c) c
      else adjust c.timer_mode signal (floor_ms c) (record c { last_timer_adjust_us = now_us })

  -- `sample` draws from std::uniform_int_distribution<long>(low, high).
  unfoldable pub sample_sync_delay : (ℕ → ℕ → ℕ) → Core K D → ℕ
  sample_sync_delay sample c =
      let base = num (max 1 c.periodic_sync_time) in
      let spread =
        (if is_network_aware c.timer_mode
          then dec 5 2 ⊗ c.link_loss_rate
            ⊕ dec 8 2 ⊗ feedback_pressure c.feedback_delay_ms c.feedback_jitter_ms
          else dec 0 1) in
      let low = max_long 1 (d.llround (base ⊗ (dec 10 1 ⊖ c.periodic_sync_jitter))) in
      let high = max_long low (d.llround (base ⊗ (dec 10 1 ⊕ c.periodic_sync_jitter ⊕ spread))) in
      sample low high % 2 ^ 32

  unfoldable pub clamp_period : Core K D → Core K D
  clamp_period c =
      let raised = max c.periodic_sync_time c.min_periodic_sync_time in
      record c { periodic_sync_time = min raised c.max_periodic_sync_time }

  unfoldable pub refresh_network_aware_timer_state : Bool → Core K D → Core K D
  refresh_network_aware_timer_state clamp_current c =
      let delay = fmax (dec 400 1) c.feedback_delay_ms in
      let jitter = fmax (dec 150 1) c.feedback_jitter_ms in
      let suppression =
        clamp_long (d.llround (delay ⊕ dec 14 1 ⊗ jitter ⊕ dec 600 1 ⊗ c.link_loss_rate)) 40 1200 in
      let aware_min =
        clamp_long
          (d.llround
            (dec 22 1 ⊗ delay ⊕ dec 18 1 ⊗ jitter ⊕ dec 1600 1 ⊕ dec 1200 1 ⊗ c.link_loss_rate))
          c.network_aware_min_periodic_sync_time 5000 in
      let refreshed = record c {
        max_suppression_time = suppression;
        intr_reply_max = suppression;
        min_periodic_sync_time = aware_min;
      } in
      if not (is_network_aware c.timer_mode)
      then c
      else if clamp_current
      then clamp_period refreshed
      else refreshed
