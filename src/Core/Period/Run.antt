-- ===== src/Core/Period/Run.antt =====
-- The handlers of a node keep the interval in its range, and so does any run of them.
use m_svs.Base.{
  ℕ, refl, Bool, true, false, not, ◌||◌, List, [], ◌∷◌, some, none, if◌then◌else◌, ltb, leb,
  if_cases,
}
use m_svs.Std.Ord.{Ord, ◌==◌}
use m_svs.Names.{Name}
use m_svs.Double.{Double}
use m_svs.VersionVector.{VersionVector, get, set, size}
use m_svs.VersionVector.Select.{is_full}
use m_svs.Core.State.{Core, SyncSignal}
use m_svs.Core.Timer.{update_sync_interval}
use m_svs.Core.Feedback.{observe_propagation_feedback}
use m_svs.Core.Build.{build_sync_vector, build_partial, get_state_vector_limit}
use m_svs.Core.Handlers.{
  Env, merge, record_vector, enter_suppression_state, should_send, schedule, send_sync_interest,
  leave_suppression, retx_sync_interest, answer, on_sync_interest_validated, update_seq_no, start,
  too_early, gap_delay, sooner, signal_of,
}
use m_svs.Core.Refinement.{Event, handle, run}
use m_svs.Core.Period.{
  SameTimer-IsTimed, update-IsTimed, record_send-SameTimer, observe-IsTimed, merge-IsTimed,
  newer_than-IsTimed, record_into-IsTimed, enter_from-IsTimed, SameTimer, IsTimed,
}

module _ {K D : Type 0} ⦃o : Ord K⦄ ⦃n : Name K⦄ ⦃d : Double D⦄
    (shuffle : ℕ → List K → List K) where
  build-SameTimer : (draw : ℕ) (c : Core K D) → SameTimer c (build_sync_vector shuffle draw c).1
  unfolding build_sync_vector build_partial
  build-SameTimer draw c =
      let total = size c.vv in
      if_cases (λ (r : VersionVector K × Core K D). SameTimer c r.1)
        (leb total (get_state_vector_limit c total) || is_full c.state_vector_strategy)
        (λ _. record { config_same = refl; least_same = refl; period_same = refl })
        (λ _. record { config_same = refl; least_same = refl; period_same = refl })

  send-IsTimed : (env : Env) (c : Core K D) → IsTimed c → IsTimed (send_sync_interest shuffle env c)
  unfolding send_sync_interest
  send-IsTimed env c t =
      let (vector, built) = build_sync_vector shuffle env.draw c in
      let stamped = record built { last_sync_tx_us = env.now_us; sent = vector ∷ built.sent } in
      let b = SameTimer-IsTimed c built (build-SameTimer env.draw c) t in
      let s : IsTimed stamped =
        SameTimer-IsTimed built stamped
          (record { config_same = refl; least_same = refl; period_same = refl }) b in
      if_cases IsTimed c.initialized
        (λ _.
          SameTimer-IsTimed stamped _ (record_send-SameTimer (get vector c.id) env.now_us stamped)
            s)
        (λ _. t)

  leave-IsTimed : (env : Env) (c : Core K D) → IsTimed c → IsTimed (leave_suppression shuffle env c)
  unfolding leave_suppression should_send
  leave-IsTimed env c t =
      let (checked, newer) = should_send env.now c in
      let b = newer_than-IsTimed env.now c.recorded_vv c t in
      let s =
        if_cases IsTimed newer {x = send_sync_interest shuffle env checked}
          (λ _. send-IsTimed env checked b) (λ _. b) in
      SameTimer-IsTimed _ _ (record { config_same = refl; least_same = refl; period_same = refl }) s

  schedule-IsTimed :
      (env : Env) (delay : ℕ) (c : Core K D) → IsTimed c → IsTimed (schedule env delay c)
  unfolding schedule
  schedule-IsTimed env delay c t =
      SameTimer-IsTimed c _ (record { config_same = refl; least_same = refl; period_same = refl }) t

  retx-IsTimed :
      (env : Env) (send : Bool) (delay : ℕ) (c : Core K D)
      → IsTimed c
      → IsTimed (retx_sync_interest shuffle env send delay c)
  unfolding retx_sync_interest
  retx-IsTimed env send delay c t =
      if_cases IsTimed send
        (λ _.
          if_cases IsTimed (too_early env.now_us c)
            (λ _. schedule-IsTimed env (gap_delay env.now_us c) c t)
            (λ _. schedule-IsTimed env delay _ (leave-IsTimed env c t)))
        (λ _. schedule-IsTimed env delay c t)

  answer-IsTimed :
      (env : Env) (other : VersionVector K) (newer : Bool) (c : Core K D)
      → IsTimed c
      → IsTimed (answer shuffle env other newer c)
  unfolding answer enter_suppression_state
  answer-IsTimed env other newer c t =
      let entered = enter_suppression_state other c in
      let e = enter_from-IsTimed other c.recorded_vv c t in
      if_cases IsTimed (not newer) (λ _. retx-IsTimed env false 0 c t)
        (λ _.
          if_cases IsTimed (sooner env.now_us _ entered.next_sync_interest)
            (λ _. retx-IsTimed env false _ entered e) (λ _. e))

  receive-IsTimed :
      (env : Env) (face : ℕ) (other : VersionVector K) (c : Core K D)
      → IsTimed c
      → IsTimed (on_sync_interest_validated shuffle env face (some other) c).0
  unfolding on_sync_interest_validated record_vector
  receive-IsTimed env face other c t =
      let observed = observe_propagation_feedback env.now_us other c in
      let (merged, result) = merge env.now other observed in
      let timed = update_sync_interval (signal_of result) env.now_us merged in
      let (recorded, done) = record_vector env.now other timed in
      let m = merge-IsTimed env.now other observed (observe-IsTimed env.now_us other c t) in
      let u = update-IsTimed (signal_of result) env.now_us merged m in
      let r = record_into-IsTimed env.now other timed.recorded_vv timed u in
      if_cases IsTimed done (λ _. r) (λ _. answer-IsTimed env other result.my_vector_new recorded r)

  publish-IsTimed :
      (env : Env) (seq : ℕ) (nid : K) (c : Core K D)
      → IsTimed c
      → IsTimed (update_seq_no shuffle env seq nid c)
  unfolding update_seq_no
  publish-IsTimed env seq nid c t =
      let target = (if nid == n.empty then c.id else nid) in
      let updated = record c { vv = set c.vv target seq env.now } in
      let s : IsTimed updated =
        SameTimer-IsTimed c updated
          (record { config_same = refl; least_same = refl; period_same = refl }) t in
      if_cases IsTimed (ltb (get c.vv target) seq)
        (λ _.
          retx-IsTimed env false _ _ (update-IsTimed SyncSignal.local_update env.now_us updated s))
        (λ _. s)

  start-IsTimed : (env : Env) (c : Core K D) → IsTimed c → IsTimed (start shuffle env c)
  unfolding start
  start-IsTimed env c t = retx-IsTimed env true 0 _ (
      SameTimer-IsTimed c _ (record { config_same = refl; least_same = refl; period_same = refl })
        t)

  -- Whatever happens at a node, in whatever order, its interval stays between the least and the
  -- greatest one, if it is there at first, the strategy sends no full vectors, the greatest interval
  -- is at least 5 seconds and the least one of network-aware mode at most that; these stay so too.
  pub run-IsTimed :
      (me : K) (l : List (Event K)) (c : Core K D) → IsTimed c → IsTimed (run shuffle me l c)
  unfolding run handle on_sync_interest_validated
  run-IsTimed me [] c t = t
  run-IsTimed me (Event.started env ∷ rest) c t = run-IsTimed me rest _ (start-IsTimed env c t)
  run-IsTimed me (Event.timer env ∷ rest) c t = run-IsTimed me rest _ (retx-IsTimed env true 0 c t)
  run-IsTimed me (Event.received env face none ∷ rest) c t = run-IsTimed me rest c t
  run-IsTimed me (Event.received env face (some vector) ∷ rest) c t =
      run-IsTimed me rest _ (receive-IsTimed env face vector c t)
  run-IsTimed me (Event.published env seq ∷ rest) c t =
      run-IsTimed me rest _ (publish-IsTimed env seq me c t)
