-- ===== src/Core/Handlers/Suppression.antt =====
-- When an Interest is sent, and that the next one is always scheduled.
use m_svs.Base.{
  ℕ, ◌+◌, ◌*◌, ◌%◌, ◌^◌, ◌≤◌, ◌≡◌, refl, ap, Bool, true, false, not, ◌&&◌, ◌||◌, leb, ltb, List, [],
  ◌∷◌, ◌==◌ as nat_eq, Option, some, none, arith, if◌then◌else◌, if_cases, Bool-cases, inl, inr,
  ◌∙◌, is_some, some_or,
}
use m_svs.Std.Ord.{Ord}
use m_svs.Std.Map.{Map, IsSorted}
use m_svs.Names.{Name}
use m_svs.Double.{Double}
use m_svs.VersionVector.{VersionVector, get, get_last_update}
use m_svs.Core.Merge.{ahead, merge_state_vector}
use m_svs.Core.Merge.Missing.{my_vector_new_iff}
use m_svs.Core.State.{Core}
use m_svs.Core.Feedback.{record_propagation_feedback_send}
use m_svs.Core.Build.{build_sync_vector, build_partial, get_state_vector_limit}
use m_svs.VersionVector.{size}
use m_svs.VersionVector.Select.{is_full}
use m_svs.Core.Handlers.{
  Env, min_gap_us, merge, newer_than, should_send, too_early, gap_delay, schedule,
  send_sync_interest, leave_suppression, retx_sync_interest, ticks_per_ms,
}

module _ {K : Type 0} ⦃o : Ord K⦄ where
  -- Is an entry that is at least `window` old ahead of the other vector?
  abbrev pub stale_ahead : ℕ → ℕ → VersionVector K → VersionVector K → Map K ℕ → Bool
  stale_ahead now window vv other [] = false
  stale_ahead now window vv other ((nid, seq) ∷ rest) =
      (leb (get_last_update vv nid + window) now && ltb (get other nid) seq)
      || stale_ahead now window vv other rest

  ahead-stale :
      (now window : ℕ) (vv other : VersionVector K) (entries : Map K ℕ)
      → ahead now window vv other entries ≡ stale_ahead now window vv other entries
  unfolding ahead
  ahead-stale now window vv other [] = refl
  ahead-stale now window vv other ((nid, seq) ∷ rest) =
      ground (arith, ahead-stale now window vv other rest)

module _ {K D : Type 0} ⦃d : Double D⦄ where
  abbrev pub gap_passed : ℕ → Core K D → Bool
  gap_passed now_us c =
      nat_eq (min_gap_us c) 0
      || (nat_eq c.last_sync_tx_us 0 || leb (c.last_sync_tx_us + min_gap_us c) now_us)

  too_early-gap_passed :
      (now_us : ℕ) (c : Core K D) → not (too_early now_us c) ≡ gap_passed now_us c
  unfolding too_early
  too_early-gap_passed now_us c = ground arith

module _ {K D : Type 0} ⦃o : Ord K⦄ where
  -- The node with what it recorded merged in.
  abbrev pub with_recorded : ℕ → Option (VersionVector K) → Core K D → Core K D
  with_recorded now none c = c
  with_recorded now (some recorded) c = record c {
    vv = (merge_state_vector now (c.max_suppression_time * ticks_per_ms) c.vv recorded).0;
  }

  abbrev pub worth_sending : ℕ → Option (VersionVector K) → Core K D → Bool
  worth_sending now none c = true
  worth_sending now (some recorded) c =
      let merged = (with_recorded now (some recorded) c).vv in
      stale_ahead now (c.max_suppression_time * ticks_per_ms) merged recorded merged.map

  newer_than-ahead :
      (now : ℕ) (r : Option (VersionVector K)) (c : Core K D)
      → ((newer_than now r c).0 ≡ with_recorded now r c)
        × ((newer_than now r c).1 ≡ worth_sending now r c)
  unfolding newer_than merge merge_state_vector
  newer_than-ahead now none c = (refl, refl)
  newer_than-ahead now (some recorded) c = (refl, ahead-stale now _ _ recorded _)

module _ {K D : Type 0} ⦃o : Ord K⦄ ⦃n : Name K⦄ ⦃d : Double D⦄
    (shuffle : ℕ → List K → List K) where
  -- Of the whole vector or a part, building keeps what was sent and whether the node has started.
  sent-build_sync_vector :
      (draw : ℕ) (c : Core K D) → (build_sync_vector shuffle draw c).1.sent ≡ c.sent
  unfolding build_sync_vector build_partial
  sent-build_sync_vector draw c =
      let total = size c.vv in
      let limit = get_state_vector_limit c total in
      if_cases (λ (r : VersionVector K × Core K D). r.1.sent ≡ c.sent)
        (leb total limit || is_full c.state_vector_strategy) (λ _. refl) (λ _. refl)

  sent-record :
      (seq t : ℕ) (c : Core K D) → (record_propagation_feedback_send seq t c).sent ≡ c.sent
  unfolding record_propagation_feedback_send
  sent-record seq t c = ground arith

  sent-should_send :
      (now : ℕ) (r : Option (VersionVector K)) (c : Core K D)
      → ((newer_than now r c).0.sent ≡ c.sent)
        × ((newer_than now r c).0.initialized ≡ c.initialized)
  unfolding newer_than merge
  sent-should_send now none c = (refl, refl)
  sent-should_send now (some v) c = (refl, refl)

  sent-send_sync_interest :
      (env : Env) (c : Core K D)
      → (send_sync_interest shuffle env c).sent
        ≡ (if c.initialized then (build_sync_vector shuffle env.draw c).0 ∷ c.sent else c.sent)
  unfolding send_sync_interest
  sent-send_sync_interest env c =
      let (vector, built) = build_sync_vector shuffle env.draw c in
      elim (Bool-cases c.initialized) [
        | inl e ↦ ground (
          arith,
          sent-record (get vector c.id) env.now_us
              (record built { last_sync_tx_us = env.now_us; sent = vector ∷ built.sent }),
          sent-build_sync_vector env.draw c,
        )
        | inr e ↦ ground arith
      ]

  sent_if :
      (env : Env) (send : Bool) (delay : ℕ) (c : Core K D)
      → let (checked, newer) = should_send env.now c in
        (retx_sync_interest shuffle env send delay c).sent ≡ (
          if send && (not (too_early env.now_us c) && (newer && c.initialized))
          then (build_sync_vector shuffle env.draw checked).0 ∷ c.sent
          else c.sent)
  unfolding retx_sync_interest leave_suppression schedule should_send
  sent_if env send delay c =
      let same = sent-should_send env.now c.recorded_vv c in
      ground
        (arith, sent-send_sync_interest env (newer_than env.now c.recorded_vv c).0, same.0, same.1)

  -- `retxSyncInterest` sends one Interest exactly if it is asked to; no least gap is set, nothing was
  -- sent before, or the gap has passed since; the node has started; and it is not in the suppression
  -- state, or the local vector, merged with the recorded one, is ahead of that at some node whose entry
  -- is at least a suppression time old. The Interest carries the vector that is built then. In every
  -- other case it sends nothing.
  pub sent-retx_sync_interest :
      (env : Env) (send : Bool) (delay : ℕ) (c : Core K D)
      → (retx_sync_interest shuffle env send delay c).sent ≡ (
          if send
            && (gap_passed env.now_us c && (worth_sending env.now c.recorded_vv c && c.initialized))
          then (build_sync_vector shuffle env.draw (with_recorded env.now c.recorded_vv c)).0
            ∷ c.sent
          else c.sent)
  sent-retx_sync_interest env send delay c =
      let (merged, newer) = newer_than-ahead env.now c.recorded_vv c in
      let state : (should_send env.now c).0 ≡ with_recorded env.now c.recorded_vv c =
        unfold should_send in merged in
      let worth : (should_send env.now c).1 ≡ worth_sending env.now c.recorded_vv c =
        unfold should_send in newer in
      sent_if env send delay c
      ∙ ground (
        arith,
        too_early-gap_passed env.now_us c,
        worth,
        ap (λ (b : Core K D). (build_sync_vector shuffle env.draw b).0) state,
      )

  newer_than-my_vector_new :
      (env : Env) (recorded : VersionVector K) (c : Core K D)
      → IsSorted c.vv.map
      → let merged = (merge env.now recorded c).0 in
        ((k : K)
          → get_last_update merged.vv k + c.max_suppression_time * ticks_per_ms ≤ env.now
          → get merged.vv k ≤ get recorded k)
        → (newer_than env.now (some recorded) c).1 ≡ false
  unfolding newer_than merge
  newer_than-my_vector_new env recorded c sorted covered =
      (my_vector_new_iff env.now (c.max_suppression_time * ticks_per_ms) c.vv recorded sorted).1
        covered

  -- In the suppression state nothing is sent if the recorded vector, once merged, is behind in no
  -- entry that is at least a suppression time old; the local map is in key order.
  pub retx_sync_interest_silent :
      (env : Env) (send : Bool) (delay : ℕ) (recorded : VersionVector K) (c : Core K D)
      → IsSorted c.vv.map
      → c.recorded_vv ≡ some recorded
      → let merged = (merge env.now recorded c).0 in
        ((k : K)
          → get_last_update merged.vv k + c.max_suppression_time * ticks_per_ms ≤ env.now
          → get merged.vv k ≤ get recorded k)
        → (retx_sync_interest shuffle env send delay c).sent ≡ c.sent
  retx_sync_interest_silent env send delay recorded c sorted state covered =
      let silent : (should_send env.now c).1 ≡ false =
        unfold should_send in
        ap (λ r. (newer_than env.now r c).1) state
        ∙ newer_than-my_vector_new env recorded c sorted covered in
      ground (arith, sent_if env send delay c, silent)

module _ {K D : Type 0} ⦃o : Ord K⦄ ⦃n : Name K⦄ ⦃d : Double D⦄
    (shuffle : ℕ → List K → List K) where
  -- Every call of `retxSyncInterest` leaves one event scheduled, `m_nextSyncInterest` is its delay in
  -- microseconds, in 32 bits, after the present, and a call with `send` that is not too early ends suppression.
  pub retx_sync_interest_scheduled :
      (env : Env) (send : Bool) (delay : ℕ) (c : Core K D)
      → let after = retx_sync_interest shuffle env send delay c in
        (is_some after.retx_event ≡ true)
        × (after.next_sync_interest ≡ env.now_us + 1000 * some_or after.retx_event 0 % 2 ^ 32)
        × (after.recorded_vv
            ≡ (if send && not (too_early env.now_us c) then none else c.recorded_vv))
  unfolding retx_sync_interest schedule leave_suppression
  retx_sync_interest_scheduled env send delay c = ground arith

module _ {K D : Type 0} ⦃d : Double D⦄ where
  -- A send that came too early is put off by at least 1 ms and until the gap has passed; the gap
  -- is at most 4000 seconds and the last send is not in the future.
  pub too_early-gap_delay :
      (now_us : ℕ) (c : Core K D)
      → too_early now_us c ≡ true
      → min_gap_us c ≤ 4_000_000_000
      → c.last_sync_tx_us ≤ now_us
      → (1 ≤ gap_delay now_us c) × (too_early (now_us + 1000 * gap_delay now_us c) c ≡ false)
  unfolding too_early gap_delay
  too_early-gap_delay now_us c early gap past = ground arith
