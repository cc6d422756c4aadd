-- ===== src/Core/Timer/Bounds.antt =====
-- The timer stays between its limits.
use m_svs.Base.{
  ◌-◌, refl, ℕ, ◌+◌, ◌*◌, ◌≤◌, ◌≡◌, true, not, ◌&&◌, ltb, ◌==◌ as nat_eq, arith, if_cases,
}
use m_svs.Double.{Double, ℤ, pos, negsuc, clamp_long}
use m_svs.VersionVector.{size}
use m_svs.VersionVector.Select.{is_full}
use m_svs.Core.State.{Core, TimerMode, SyncSignal}
use m_svs.Core.Timer.{
  floor_ms, adapt, follow_feedback, nudge, adjust, update_sync_interval, is_fixed, is_network_aware,
  clamp_period, refresh_network_aware_timer_state,
}

clamp_long_bounds :
    (z : ℤ) (lo hi : ℕ) → lo ≤ hi → (lo ≤ clamp_long z lo hi) × (clamp_long z lo hi ≤ hi)
unfolding clamp_long
clamp_long_bounds (pos n) lo hi h = ground arith
clamp_long_bounds (negsuc n) lo hi h = ground arith

module _ {K D : Type 0} ⦃d : Double D⦄ where
  -- The current interval lies between the least and the greatest one.
  pub record InRange (c : Core K D) : Type 0 where
    pub low : c.min_periodic_sync_time ≤ c.periodic_sync_time
    pub high : c.periodic_sync_time ≤ c.max_periodic_sync_time

  -- The vector is small enough for the greatest interval: with every entry sent, 18 ms an entry.
  pub record Fits (c : Core K D) : Type 0 where
    pub full :
        is_full c.state_vector_strategy ≡ true → 1400 + size c.vv * 18 ≤ c.max_periodic_sync_time
    pub partial : 1226 ≤ c.max_periodic_sync_time

  floor_ms-le :
      (c : Core K D)
      → InRange c
      → Fits c
      → (c.min_periodic_sync_time ≤ floor_ms c) × (floor_ms c ≤ c.max_periodic_sync_time)
  unfolding floor_ms
  floor_ms-le c r f = ground (arith, f.full)

  adapt-InRange :
      (signal : SyncSignal) (floor : ℕ) (c : Core K D) → InRange c → InRange (adapt signal floor c)
  unfolding adapt
  adapt-InRange signal floor c r = record { low = omega arith; high = omega arith }

  follow_feedback-InRange :
      (signal : SyncSignal) (floor : ℕ) (c : Core K D)
      → c.min_periodic_sync_time ≤ floor
      → floor ≤ c.max_periodic_sync_time
      → InRange (follow_feedback signal floor c)
  unfolding follow_feedback
  follow_feedback-InRange signal floor c l h = record {
    low = omega (arith, (clamp_long_bounds _ floor c.max_periodic_sync_time h).0);
    high = (clamp_long_bounds _ floor c.max_periodic_sync_time h).1;
  }

  nudge-InRange :
      (signal : SyncSignal) (floor : ℕ) (c : Core K D)
      → c.min_periodic_sync_time ≤ floor
      → InRange c
      → InRange (nudge signal floor c)
  unfolding nudge
  nudge-InRange signal floor c l r = ground arith

  adjust-InRange :
      (mode : TimerMode) (signal : SyncSignal) (floor : ℕ) (c : Core K D)
      → c.min_periodic_sync_time ≤ floor
      → floor ≤ c.max_periodic_sync_time
      → InRange c
      → InRange (adjust mode signal floor c)
  unfolding adjust
  adjust-InRange TimerMode.fixed signal floor c l h r = r
  adjust-InRange TimerMode.adaptive signal floor c l h r = adapt-InRange signal floor c r
  adjust-InRange TimerMode.network_aware signal floor c l h r =
      follow_feedback-InRange signal floor c l h

  -- Whatever the mode, the signal and the time, `updateSyncInterval` leaves the interval between its
  -- least and its greatest value, if the vector is small enough for the greatest one.
  pub update_sync_interval-InRange :
      (signal : SyncSignal) (now_us : ℕ) (c : Core K D)
      → InRange c
      → Fits c
      → InRange (update_sync_interval signal now_us c)
  unfolding update_sync_interval
  update_sync_interval-InRange signal now_us c r f =
      let (l, h) = floor_ms-le c r f in
      if_cases InRange (is_fixed c.timer_mode) (λ _. r)
        λ _.
          if_cases InRange
            (not (nat_eq c.last_timer_adjust_us 0) && ltb (now_us - c.last_timer_adjust_us) 220000)
            (λ _. nudge-InRange signal (floor_ms c) c l r)
            (λ _.
              adjust-InRange c.timer_mode signal (floor_ms c)
                (record c { last_timer_adjust_us = now_us }) l h
                (record { low = r.low; high = r.high }))

  -- The limits of network-aware mode, whose least interval is configured as `least`.
  pub record InLimits (least : ℕ) (c : Core K D) : Type 0 where
    pub range : InRange c
    pub suppression_low : 40 ≤ c.max_suppression_time
    pub suppression_high : c.max_suppression_time ≤ 1200
    pub reply : c.intr_reply_max ≡ c.max_suppression_time
    pub least_low : least ≤ c.min_periodic_sync_time
    pub least_high : c.min_periodic_sync_time ≤ 5000

  clamp_period-InLimits :
      (c : Core K D) (s m : ℕ)
      → 5000 ≤ c.max_periodic_sync_time
      → (40 ≤ s) × (s ≤ 1200)
      → (c.network_aware_min_periodic_sync_time ≤ m) × (m ≤ 5000)
      → InLimits c.network_aware_min_periodic_sync_time (
          clamp_period
            (record c { max_suppression_time = s; intr_reply_max = s; min_periodic_sync_time = m }))
  unfolding clamp_period
  clamp_period-InLimits c s m most hs hm = record {
    range = record { low = omega arith; high = omega arith };
    suppression_low = hs.0;
    suppression_high = hs.1;
    reply = refl;
    least_low = hm.0;
    least_high = hm.1;
  }

  -- In network-aware mode a refresh that clamps puts the interval in range, the suppression time
  -- (and the greatest reply delay) between 40 and 1200 ms and the least interval between the
  -- configured one and 5000 ms, if the configured one is at most that and the greatest interval at
  -- least that.
  pub refresh_network_aware_timer_state-InLimits :
      (c : Core K D)
      → is_network_aware c.timer_mode ≡ true
      → c.network_aware_min_periodic_sync_time ≤ 5000
      → 5000 ≤ c.max_periodic_sync_time
      → InLimits c.network_aware_min_periodic_sync_time (refresh_network_aware_timer_state true c)
  unfolding refresh_network_aware_timer_state
  refresh_network_aware_timer_state-InLimits c mode least most =
      if_cases (InLimits c.network_aware_min_periodic_sync_time)
        (not (is_network_aware c.timer_mode)) (λ e. absurd (ground arith))
        (λ _.
          clamp_period-InLimits c _ _ most (clamp_long_bounds _ 40 1200 (omega arith))
            (clamp_long_bounds _ c.network_aware_min_periodic_sync_time 5000 least))
