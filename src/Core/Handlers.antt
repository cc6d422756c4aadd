-- ===== src/Core/Handlers.antt =====
-- The handlers of `SVSyncCore`: `retxSyncInterest`, `sendSyncInterest`, `onSyncInterestValidated`,
-- `updateSeqNo` and what they call. A handler runs at one reading of the clocks, and `Env` holds
-- what it draws at random. The mapping blocks of the callbacks are in PubSub.
pub mod Suppression
pub mod Frame
pub mod Progress
pub mod Dispatch
mod Tests
use mathlib.Core.List
use m_svs.Base.{
  ℕ, suc, ◌+◌, ◌-◌, ◌*◌, ◌/◌, ◌%◌, ◌^◌, Bool, true, false, not, ◌&&◌, ◌||◌, List, [], ◌∷◌, Option,
  none, some, ltb, ◌==◌ as nat_eq, max, if◌then◌else◌,
}
use m_svs.Std.Ord.{Ord, ◌==◌}
use m_svs.Names.{Name}
use m_svs.Double.{Double, ℤ, pos, negsuc, ◌⊖◌, ◌⊗◌, ◌⊘◌, num, dec}
use m_svs.VersionVector.{VersionVector, get, set}
use m_svs.VersionVector.Subset.{ordered_nodes}
use m_svs.Core.Merge.{MissingDataInfo, MergeResult, merge_state_vector, record_entries}
use m_svs.Core.State.{Core, SyncSignal}
use m_svs.Core.Timer.{timer_hotness, update_sync_interval, sample_sync_delay}
use m_svs.Core.Feedback.{record_propagation_feedback_send, observe_propagation_feedback}
use m_svs.Core.Build.{build_sync_vector}

-- `now_us` is the steady clock, `now` the system clock in its ticks; `draw` is m_rng(), `reply` a
-- draw of m_intrReplyDist from 0 to its argument, `sample` a uniform draw between its arguments.
pub record Env : Type 0 where
  pub now_us : ℕ
  pub now : ℕ
  pub draw : ℕ
  pub reply : ℕ → ℕ
  pub sample : ℕ → ℕ → ℕ

-- Ticks of std::chrono::system_clock in a millisecond.
abbrev pub ticks_per_ms : ℕ
ticks_per_ms = 1_000_000

-- static_cast<unsigned int>
unfoldable pub to_unsigned : ℤ → ℕ
to_unsigned (pos n) = n % 2 ^ 32
to_unsigned (negsuc n) = 2 ^ 32 - 1 - n % 2 ^ 32

-- now + delay * 1000 < next
unfoldable pub sooner : ℕ → ℤ → ℕ → Bool
sooner now_us (pos n) next = ltb (now_us + n * 1000) next
sooner now_us (negsuc n) next = ltb now_us (next + suc n * 1000)

-- The variables are `float` there.
unfoldable pub suppression_curve : (D : Type 0) ⦃d : Double D⦄ → ℕ → ℕ → ℤ
suppression_curve D ⦃d⦄ const_factor value =
    let c = num const_factor in
    d.truncate (c ⊗ (dec 10 1 ⊖ d.exp ((num value ⊖ c) ⊘ (c ⊘ dec 100 1))))

abbrev pub signal_of : {K : Type 0} → MergeResult K → SyncSignal
signal_of result = elim result.missing_info [
  | i ∷ rest ↦ SyncSignal.repair_needed
  | [] ↦
      if result.my_vector_new || result.other_vector_new
      then SyncSignal.remote_update
      else SyncSignal.idle
]

module _ {K D : Type 0} ⦃o : Ord K⦄ where
  unfoldable pub get_node_ids : Core K D → List K
  get_node_ids c = ordered_nodes c.vv

  unfoldable pub merge : ℕ → VersionVector K → Core K D → Core K D × MergeResult K
  merge now other c =
      let (vv, result) =
        merge_state_vector now (c.max_suppression_time * ticks_per_ms) c.vv other in
      (record c { vv = vv }, result)

  unfoldable pub record_into :
      ℕ → VersionVector K → Option (VersionVector K) → Core K D → Core K D × Bool
  record_into now other none c = (c, false)
  record_into now other (some recorded) c =
      (record c { recorded_vv = some (record_entries now other.map recorded) }, true)

  -- Recording fails outside the suppression state.
  unfoldable pub record_vector : ℕ → VersionVector K → Core K D → Core K D × Bool
  record_vector now other c = record_into now other c.recorded_vv c

  unfoldable pub enter_from : VersionVector K → Option (VersionVector K) → Core K D → Core K D
  enter_from other none c = record c { recorded_vv = some other }
  enter_from other (some recorded) c = c

  unfoldable pub enter_suppression_state : VersionVector K → Core K D → Core K D
  enter_suppression_state other c = enter_from other c.recorded_vv c

  -- `!m_recordedVv || mergeStateVector(*m_recordedVv).myVectorNew`, with the merge's effect
  unfoldable pub newer_than : ℕ → Option (VersionVector K) → Core K D → Core K D × Bool
  newer_than now none c = (c, true)
  newer_than now (some recorded) c =
      let (merged, result) = merge now recorded c in (merged, result.my_vector_new)

  unfoldable pub should_send : ℕ → Core K D → Core K D × Bool
  should_send now c = newer_than now c.recorded_vv c

module _ {K D : Type 0} ⦃d : Double D⦄ where
  -- The least gap between two sends, in microseconds; half of it, but 8 ms at least, for a hot node.
  unfoldable pub min_gap_us : Core K D → ℕ
  min_gap_us c =
      let gap = c.min_send_interval * 1000 in
      if ltb 0 gap
        && (c.enable_coordinated_sync
            && d.lt (dec 72 2) (timer_hotness c.hotspot_score c.activity_score))
      then max 8000 (gap / 2)
      else gap

  unfoldable pub too_early : ℕ → Core K D → Bool
  too_early now_us c =
      let gap = min_gap_us c in
      ltb 0 gap && (ltb 0 c.last_sync_tx_us && ltb now_us (c.last_sync_tx_us + gap))

  unfoldable pub gap_delay : ℕ → Core K D → ℕ
  gap_delay now_us c = max 1 ((c.last_sync_tx_us + min_gap_us c - now_us + 999) / 1000) % 2 ^ 32

  -- The end of `retxSyncInterest`: the delay 0 asks for a sampled one.
  unfoldable pub schedule : Env → ℕ → Core K D → Core K D
  schedule env delay c =
      let chosen = (if nat_eq delay 0 then sample_sync_delay env.sample c else delay) in
      record c {
        next_sync_interest = env.now_us + 1000 * chosen % 2 ^ 32;
        retx_event = some chosen;
      }

module _ {K D : Type 0} ⦃o : Ord K⦄ ⦃n : Name K⦄ ⦃d : Double D⦄ where
  unfoldable pub get_seq_no : K → Core K D → ℕ
  get_seq_no nid c = get c.vv (if nid == n.empty then c.id else nid)

  module _ (shuffle : ℕ → List K → List K) where
    unfoldable pub send_sync_interest : Env → Core K D → Core K D
    send_sync_interest env c =
        let (sync_vv, built) = build_sync_vector shuffle env.draw c in
        let stamped = record built { last_sync_tx_us = env.now_us; sent = sync_vv ∷ built.sent } in
        if c.initialized
        then record_propagation_feedback_send (get sync_vv c.id) env.now_us stamped
        else c

    unfoldable pub leave_suppression : Env → Core K D → Core K D
    leave_suppression env c =
        let (checked, newer) = should_send env.now c in
        let sent = (if newer then send_sync_interest env checked else checked) in
        record sent { recorded_vv = none }

    unfoldable pub retx_sync_interest : Env → Bool → ℕ → Core K D → Core K D
    retx_sync_interest env send delay c =
        if send
        then (if too_early env.now_us c
            then schedule env (gap_delay env.now_us c) c
            else schedule env delay (leave_suppression env c))
        else schedule env delay c

    -- The last part: the reply to a vector that was not recorded.
    unfoldable pub answer : Env → VersionVector K → Bool → Core K D → Core K D
    answer env other my_vector_new c =
        let entered = enter_suppression_state other c in
        let delay =
          suppression_curve D entered.max_suppression_time (env.reply entered.intr_reply_max) in
        if not my_vector_new
        then retx_sync_interest env false 0 c
        else if sooner env.now_us delay entered.next_sync_interest
        then retx_sync_interest env false (to_unsigned delay) entered
        else entered

    -- `received` is the decoded state vector, `none` where the Interest has no parameters or they do
    -- not decode. The list goes to the update callback; it is empty where that is not called.
    unfoldable pub on_sync_interest_validated :
        Env → ℕ → Option (VersionVector K) → Core K D → Core K D × List (MissingDataInfo K)
    on_sync_interest_validated env incoming_face received c = elim received [
      | none ↦ (c, [])
      | some other ↦
          let observed = observe_propagation_feedback env.now_us other c in
          let (merged, result) = merge env.now other observed in
          let timed = update_sync_interval (signal_of result) env.now_us merged in
          let (recorded, done) = record_vector env.now other timed in
          let final = (if done then recorded else answer env other result.my_vector_new recorded) in
          (
            final,
            List.map (λ (i : MissingDataInfo K). record i { incoming_face = incoming_face })
                result.missing_info,
          )
    ]

    unfoldable pub update_seq_no : Env → ℕ → K → Core K D → Core K D
    update_seq_no env seq nid c =
        let target = (if nid == n.empty then c.id else nid) in
        let prev = get c.vv target in
        let updated = record c { vv = set c.vv target seq env.now } in
        let timed = update_sync_interval SyncSignal.local_update env.now_us updated in
        let delay = max 1 c.local_update_delay in
        let hot =
          timed.enable_coordinated_sync
          && d.lt (dec 72 2) (timer_hotness timed.hotspot_score timed.activity_score) in
        if ltb prev seq
        then retx_sync_interest env false ((if hot then max 1 (delay / 2) else delay) % 2 ^ 32)
            timed
        else updated

    -- The event that `sendInitialInterest` schedules.
    unfoldable pub start : Env → Core K D → Core K D
    start env c = retx_sync_interest env true 0 (record c { initialized = true })
