-- ===== src/Core/Handlers/Frame.antt =====
-- Most steps of a handler leave the local vector and the configuration alone.
use m_svs.Base.{
  ℕ, ◌≡◌, refl, ◌∙◌, true, not, ◌&&◌, ◌||◌, Option, some, none, ltb, leb, if_cases, ◌==◌ as nat_eq,
  ◌-◌,
}
use m_svs.Std.Ord.{Ord}
use m_svs.Double.{Double}
use m_svs.VersionVector.{VersionVector, get}
use m_svs.Core.State.{Core, TimerMode, SyncSignal}
use m_svs.Core.Timer.{
  update_sync_interval, adjust, adapt, follow_feedback, nudge, is_fixed,
  refresh_network_aware_timer_state, clamp_period, is_network_aware, floor_ms,
}
use m_svs.Core.Feedback.{
  pop_echoed, observe_propagation_feedback, learn_delay, record_propagation_feedback_send,
  already_pending,
}
use m_svs.Core.Handlers.{record_into, enter_from, record_vector, enter_suppression_state}

module _ {K D : Type 0} where
  -- The local vector and the configuration are as they were.
  pub record Frame (old new : Core K D) : Type 0 where
    pub vv_same : new.vv ≡ old.vv
    pub config_same : new.config ≡ old.config

  pub Frame-refl : (c : Core K D) → Frame c c
  Frame-refl c = record { vv_same = refl; config_same = refl }

  pub Frame-trans : {a b c : Core K D} → Frame a b → Frame b c → Frame a c
  Frame-trans f g = record {
    vv_same = g.vv_same ∙ f.vv_same;
    config_same = g.config_same ∙ f.config_same;
  }

module _ {K D : Type 0} where
  -- The recorded vector and the vectors sent are as they were too.
  pub record Quiet (old new : Core K D) : Type 0 where
    pub vv_same : new.vv ≡ old.vv
    pub config_same : new.config ≡ old.config
    pub recorded_same : new.recorded_vv ≡ old.recorded_vv
    pub sent_same : new.sent ≡ old.sent

  pub Quiet-refl : (c : Core K D) → Quiet c c
  Quiet-refl c = record {
    vv_same = refl;
    config_same = refl;
    recorded_same = refl;
    sent_same = refl;
  }

  pub Quiet-trans : {a b c : Core K D} → Quiet a b → Quiet b c → Quiet a c
  Quiet-trans f g = record {
    vv_same = g.vv_same ∙ f.vv_same;
    config_same = g.config_same ∙ f.config_same;
    recorded_same = g.recorded_same ∙ f.recorded_same;
    sent_same = g.sent_same ∙ f.sent_same;
  }

  Quiet-Frame : {a b : Core K D} → Quiet a b → Frame a b
  Quiet-Frame q = record { vv_same = q.vv_same; config_same = q.config_same }

module _ {K D : Type 0} ⦃d : Double D⦄ where
  adjust-Quiet :
      (mode : TimerMode) (signal : SyncSignal) (floor : ℕ) (c : Core K D)
      → Quiet c (adjust mode signal floor c)
  unfolding adjust adapt follow_feedback
  adjust-Quiet TimerMode.fixed signal floor c = Quiet-refl c
  adjust-Quiet TimerMode.adaptive signal floor c = record {
    vv_same = refl;
    config_same = refl;
    recorded_same = refl;
    sent_same = refl;
  }
  adjust-Quiet TimerMode.network_aware signal floor c = record {
    vv_same = refl;
    config_same = refl;
    recorded_same = refl;
    sent_same = refl;
  }

  nudge-Quiet : (signal : SyncSignal) (floor : ℕ) (c : Core K D) → Quiet c (nudge signal floor c)
  unfolding nudge
  nudge-Quiet signal floor c =
      if_cases (Quiet c) _
        (λ _. record { vv_same = refl; config_same = refl; recorded_same = refl; sent_same = refl })
        (λ _. Quiet-refl c)

  pub update_sync_interval-Quiet :
      (signal : SyncSignal) (now_us : ℕ) (c : Core K D)
      → Quiet c (update_sync_interval signal now_us c)
  unfolding update_sync_interval
  update_sync_interval-Quiet signal now_us c =
      if_cases (Quiet c) (is_fixed c.timer_mode) (λ _. Quiet-refl c)
        λ _.
          if_cases (Quiet c)
            (not (nat_eq c.last_timer_adjust_us 0) && ltb (now_us - c.last_timer_adjust_us) 220000)
            (λ _. nudge-Quiet signal (floor_ms c) c)
            (λ _.
              Quiet-trans {b = record c { last_timer_adjust_us = now_us }}
                (record {
                  vv_same = refl;
                  config_same = refl;
                  recorded_same = refl;
                  sent_same = refl;
                })
                (adjust-Quiet _ signal _ _))

  refresh-Quiet : (c : Core K D) → Quiet c (refresh_network_aware_timer_state true c)
  unfolding refresh_network_aware_timer_state clamp_period
  refresh-Quiet c =
      if_cases (Quiet c) (not (is_network_aware c.timer_mode)) (λ _. Quiet-refl c)
        (λ _. record { vv_same = refl; config_same = refl; recorded_same = refl; sent_same = refl })

  learn_delay-Quiet : (observed : D) (c : Core K D) → Quiet c (learn_delay observed c)
  unfolding learn_delay
  learn_delay-Quiet observed c =
      if_cases (Quiet c) (nat_eq c.feedback_samples 0)
        (λ _. record { vv_same = refl; config_same = refl; recorded_same = refl; sent_same = refl })
        (λ _. record { vv_same = refl; config_same = refl; recorded_same = refl; sent_same = refl })

  pub record_send-Quiet :
      (seq t : ℕ) (c : Core K D) → Quiet c (record_propagation_feedback_send seq t c)
  unfolding record_propagation_feedback_send
  record_send-Quiet seq t c =
      if_cases (Quiet c) (not (is_network_aware c.timer_mode) || nat_eq seq 0) (λ _. Quiet-refl c)
        (λ _.
          if_cases (Quiet c) (already_pending c.pending_feedback_seqs seq) (λ _. Quiet-refl c)
            (λ _. record {
              vv_same = refl;
              config_same = refl;
              recorded_same = refl;
              sent_same = refl;
            }))

module _ {K D : Type 0} ⦃o : Ord K⦄ ⦃d : Double D⦄ where
  pub observe-Quiet :
      (now_us : ℕ) (other : VersionVector K) (c : Core K D)
      → Quiet c (observe_propagation_feedback now_us other c)
  unfolding observe_propagation_feedback
  observe-Quiet now_us other c =
      let echoed = get other c.id in
      let popped = pop_echoed echoed 0 c.pending_feedback_seqs in
      if_cases (Quiet c) (not (is_network_aware c.timer_mode) || nat_eq echoed 0)
        (λ _. Quiet-refl c)
        (λ _.
          if_cases (Quiet c) (nat_eq popped.0 0 || leb now_us popped.0)
            (λ _. record {
              vv_same = refl;
              config_same = refl;
              recorded_same = refl;
              sent_same = refl;
            })
            (λ _.
              Quiet-trans {b = record c { pending_feedback_seqs = popped.1 }}
                (record {
                  vv_same = refl;
                  config_same = refl;
                  recorded_same = refl;
                  sent_same = refl;
                })
                (Quiet-trans (learn_delay-Quiet _ _) (refresh-Quiet _))))

module _ {K D : Type 0} ⦃d : Double D⦄ where
  pub update_sync_interval-Frame :
      (signal : SyncSignal) (now_us : ℕ) (c : Core K D)
      → Frame c (update_sync_interval signal now_us c)
  update_sync_interval-Frame signal now_us c =
      Quiet-Frame (update_sync_interval-Quiet signal now_us c)

module _ {K D : Type 0} ⦃o : Ord K⦄ ⦃d : Double D⦄ where
  pub observe-Frame :
      (now_us : ℕ) (other : VersionVector K) (c : Core K D)
      → Frame c (observe_propagation_feedback now_us other c)
  observe-Frame now_us other c = Quiet-Frame (observe-Quiet now_us other c)

module _ {K D : Type 0} ⦃o : Ord K⦄ where
  record_into-Frame :
      (now : ℕ) (other : VersionVector K) (r : Option (VersionVector K)) (c : Core K D)
      → Frame c (record_into now other r c).0
  unfolding record_into
  record_into-Frame now other none c = Frame-refl c
  record_into-Frame now other (some v) c = record { vv_same = refl; config_same = refl }

  pub record_vector-Frame :
      (now : ℕ) (other : VersionVector K) (c : Core K D) → Frame c (record_vector now other c).0
  unfolding record_vector
  record_vector-Frame now other c = record_into-Frame now other c.recorded_vv c

  enter_from-Frame :
      (other : VersionVector K) (r : Option (VersionVector K)) (c : Core K D)
      → Frame c (enter_from other r c)
  unfolding enter_from
  enter_from-Frame other none c = record { vv_same = refl; config_same = refl }
  enter_from-Frame other (some v) c = Frame-refl c

  pub enter-Frame :
      (other : VersionVector K) (c : Core K D) → Frame c (enter_suppression_state other c)
  unfolding enter_suppression_state
  enter-Frame other c = enter_from-Frame other c.recorded_vv c
