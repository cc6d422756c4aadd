-- ===== src/Core/Period.antt =====
-- The interval between two periodic Interests stays in its range: what each part of a handler does.
pub mod Run
use m_svs.Base.{
  ℕ, ◌≤◌, ◌≡◌, refl, ap, ◌∙◌, Bool, true, false, not, ◌||◌, List, [], ◌∷◌, Option, some, none,
  arith, if◌then◌else◌, ltb, leb, if_cases, ◌==◌ as nat_eq,
}
use m_svs.Std.Ord.{Ord, ◌==◌}
use m_svs.Names.{Name}
use m_svs.Double.{Double}
use m_svs.VersionVector.{VersionVector, get, set, size}
use m_svs.VersionVector.Select.{is_full}
use m_svs.Core.State.{Core, SyncSignal}
use m_svs.Core.Timer.{
  is_network_aware, update_sync_interval, refresh_network_aware_timer_state, clamp_period,
}
use m_svs.Core.Timer.Bounds.{
  InRange, update_sync_interval-InRange, refresh_network_aware_timer_state-InLimits,
}
use m_svs.Core.Feedback.{
  pop_echoed, observe_propagation_feedback, learn_delay, record_propagation_feedback_send,
  already_pending,
}
use m_svs.Core.Build.{build_sync_vector, build_partial, get_state_vector_limit}
use m_svs.Core.Handlers.{
  Env, merge, record_into, record_vector, enter_from, enter_suppression_state, newer_than,
  should_send, schedule, send_sync_interest, leave_suppression, retx_sync_interest, answer,
  on_sync_interest_validated, update_seq_no, start, too_early, gap_delay, sooner, signal_of,
}
use m_svs.Core.Handlers.Frame.{update_sync_interval-Quiet}
use m_svs.Core.Refinement.{Event, handle, run}

module _ {K D : Type 0} where
  -- The members that the timer's range is about are as they were.
  pub record SameTimer (c new : Core K D) : Type 0 where
    pub config_same : new.config ≡ c.config
    pub least_same : new.min_periodic_sync_time ≡ c.min_periodic_sync_time
    pub period_same : new.periodic_sync_time ≡ c.periodic_sync_time

  SameTimer-refl : (c : Core K D) → SameTimer c c
  SameTimer-refl c = record { config_same = refl; least_same = refl; period_same = refl }

module _ {K D : Type 0} ⦃d : Double D⦄ where
  -- The interval is in range, the strategy sends no full vectors, and the limits leave room.
  pub record IsTimed (c : Core K D) : Type 0 where
    pub range : InRange c
    pub partial : is_full c.state_vector_strategy ≡ false
    pub most : 5000 ≤ c.max_periodic_sync_time
    pub least : c.network_aware_min_periodic_sync_time ≤ 5000

  with_config : (c new : Core K D) → new.config ≡ c.config → InRange new → IsTimed c → IsTimed new
  with_config c new e r t = record {
    range = r;
    partial = ap (λ g. is_full g.state_vector_strategy) e ∙ t.partial;
    most = omega (arith, ap (λ g. g.max_periodic_sync_time) e, t.most);
    least = omega (arith, ap (λ g. g.network_aware_min_periodic_sync_time) e, t.least);
  }

  pub SameTimer-IsTimed : (c new : Core K D) → SameTimer c new → IsTimed c → IsTimed new
  SameTimer-IsTimed c new s t =
      with_config c new s.config_same
        (record {
          low = omega (arith, s.least_same, s.period_same, t.range.low);
          high = omega (
            arith,
            s.period_same,
            ap (λ g. g.max_periodic_sync_time) s.config_same,
            t.range.high,
          );
        })
        t

module _ {K D : Type 0} ⦃d : Double D⦄ where
  learn_delay-SameTimer : (observed : D) (c : Core K D) → SameTimer c (learn_delay observed c)
  unfolding learn_delay
  learn_delay-SameTimer observed c =
      if_cases (SameTimer c) (nat_eq c.feedback_samples 0)
        (λ _. record { config_same = refl; least_same = refl; period_same = refl })
        (λ _. record { config_same = refl; least_same = refl; period_same = refl })

  pub update-IsTimed :
      (signal : SyncSignal) (now_us : ℕ) (c : Core K D)
      → IsTimed c
      → IsTimed (update_sync_interval signal now_us c)
  update-IsTimed signal now_us c t =
      with_config c _ (update_sync_interval-Quiet signal now_us c).config_same
        (update_sync_interval-InRange signal now_us c t.range
          (record { full = λ e. ground (arith, t.partial); partial = omega (arith, t.most) }))
        t

  pub record_send-SameTimer :
      (seq sent_us : ℕ) (c : Core K D)
      → SameTimer c (record_propagation_feedback_send seq sent_us c)
  unfolding record_propagation_feedback_send
  record_send-SameTimer seq sent_us c =
      if_cases (SameTimer c) (not (is_network_aware c.timer_mode) || nat_eq seq 0)
        (λ _. SameTimer-refl c)
        (λ _.
          if_cases (SameTimer c) (already_pending c.pending_feedback_seqs seq)
            (λ _. SameTimer-refl c)
            (λ _. record { config_same = refl; least_same = refl; period_same = refl }))

  pub refresh-config : (c : Core K D) → (refresh_network_aware_timer_state true c).config ≡ c.config
  unfolding refresh_network_aware_timer_state clamp_period
  refresh-config c =
      if_cases (λ (new : Core K D). new.config ≡ c.config) (not (is_network_aware c.timer_mode))
        (λ _. refl) (λ _. refl)

  refresh-IsTimed :
      (c : Core K D)
      → is_network_aware c.timer_mode ≡ true
      → IsTimed c
      → IsTimed (refresh_network_aware_timer_state true c)
  refresh-IsTimed c aware t =
      with_config c _ (refresh-config c)
        (refresh_network_aware_timer_state-InLimits c aware t.least t.most).range t

module _ {K D : Type 0} ⦃o : Ord K⦄ ⦃d : Double D⦄ where
  pub observe-IsTimed :
      (now_us : ℕ) (other : VersionVector K) (c : Core K D)
      → IsTimed c
      → IsTimed (observe_propagation_feedback now_us other c)
  unfolding observe_propagation_feedback
  observe-IsTimed now_us other c t =
      let (sent_us, rest) = pop_echoed (get other c.id) 0 c.pending_feedback_seqs in
      let popped = record c { pending_feedback_seqs = rest } in
      let p : IsTimed popped =
        SameTimer-IsTimed c popped
          (record { config_same = refl; least_same = refl; period_same = refl }) t in
      if_cases IsTimed (not (is_network_aware c.timer_mode) || nat_eq (get other c.id) 0) (λ _. t)
        (λ aware.
          if_cases IsTimed (nat_eq sent_us 0 || leb now_us sent_us) (λ _. p)
            (λ _.
              let same = learn_delay-SameTimer _ popped in
              refresh-IsTimed _
                (ap (λ g. is_network_aware g.timer_mode) same.config_same ∙ ground arith)
                (SameTimer-IsTimed popped _ same p)))

  pub merge-IsTimed :
      (now : ℕ) (other : VersionVector K) (c : Core K D) → IsTimed c → IsTimed (merge now other c).0
  unfolding merge
  merge-IsTimed now other c t =
      SameTimer-IsTimed c _ (record { config_same = refl; least_same = refl; period_same = refl }) t

  pub newer_than-IsTimed :
      (now : ℕ) (r : Option (VersionVector K)) (c : Core K D)
      → IsTimed c
      → IsTimed (newer_than now r c).0
  unfolding newer_than
  newer_than-IsTimed now none c t = t
  newer_than-IsTimed now (some v) c t = merge-IsTimed now v c t

  pub record_into-IsTimed :
      (now : ℕ) (other : VersionVector K) (r : Option (VersionVector K)) (c : Core K D)
      → IsTimed c
      → IsTimed (record_into now other r c).0
  unfolding record_into
  record_into-IsTimed now other none c t = t
  record_into-IsTimed now other (some v) c t =
      SameTimer-IsTimed c _ (record { config_same = refl; least_same = refl; period_same = refl }) t

  pub enter_from-IsTimed :
      (other : VersionVector K) (r : Option (VersionVector K)) (c : Core K D)
      → IsTimed c
      → IsTimed (enter_from other r c)
  unfolding enter_from
  enter_from-IsTimed other none c t =
      SameTimer-IsTimed c _ (record { config_same = refl; least_same = refl; period_same = refl }) t
  enter_from-IsTimed other (some v) c t = t
