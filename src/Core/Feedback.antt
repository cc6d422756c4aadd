-- ===== src/Core/Feedback.antt =====
-- Propagation feedback: which of the local publications have been sent and not yet echoed, and the
-- delay estimate. `recordPropagationFeedbackSend` and `observePropagationFeedback`.
pub mod Pending
use m_svs.Base.{
  ℕ, suc, ◌+◌, ◌-◌, Bool, true, false, not, ◌||◌, List, [], ◌∷◌, ◌++◌, length, leb, ltb,
  if◌then◌else◌, ◌==◌ as nat_eq,
}
use m_svs.Std.Ord.{Ord}
use m_svs.Double.{Double, ◌⊕◌, ◌⊖◌, ◌⊗◌, ◌⊘◌, num, dec, fmax}
use m_svs.VersionVector.{VersionVector, get}
use m_svs.Core.State.{Core}
use m_svs.Core.Timer.{is_network_aware, refresh_network_aware_timer_state}

-- m_pendingFeedbackSeqs.back().first >= localSeq, on a queue that is not empty
unfoldable pub already_pending : List (ℕ × ℕ) → ℕ → Bool
already_pending [] local_seq = false
already_pending ((seq, sent_us) ∷ []) local_seq = leb local_seq seq
already_pending (e ∷ f ∷ rest) local_seq = already_pending (f ∷ rest) local_seq

-- while (m_pendingFeedbackSeqs.size() > 32) m_pendingFeedbackSeqs.pop_front();
unfoldable pub trim : List (ℕ × ℕ) → List (ℕ × ℕ)
trim [] = []
trim (e ∷ rest) = if ltb 32 (length (e ∷ rest)) then trim rest else e ∷ rest

-- The pop loop: the send time of the last entry that is popped, or the one before, and the rest.
unfoldable pub pop_echoed : ℕ → ℕ → List (ℕ × ℕ) → ℕ × List (ℕ × ℕ)
pop_echoed echoed observed [] = (observed, [])
pop_echoed echoed observed ((seq, sent_us) ∷ rest) =
    let later = pop_echoed echoed sent_us rest in
    if leb seq echoed then later else (observed, (seq, sent_us) ∷ rest)

module _ {K D : Type 0} ⦃d : Double D⦄ where
  unfoldable pub record_propagation_feedback_send : ℕ → ℕ → Core K D → Core K D
  record_propagation_feedback_send local_seq send_time_us c =
      if not (is_network_aware c.timer_mode) || nat_eq local_seq 0
      then c
      else if already_pending c.pending_feedback_seqs local_seq
      then c
      else record c {
        pending_feedback_seqs = trim (c.pending_feedback_seqs ++ ((local_seq, send_time_us) ∷ []));
      }

  -- The exponential averages: the first sample sets them.
  unfoldable pub learn_delay : D → Core K D → Core K D
  learn_delay observed c =
      let previous = fmax (dec 10 1) c.feedback_delay_ms in
      if nat_eq c.feedback_samples 0
      then record c {
        feedback_delay_ms = observed;
        feedback_jitter_ms = fmax (dec 150 1) (observed ⊗ dec 15 2);
        feedback_samples = suc c.feedback_samples;
      }
      else record c {
        feedback_delay_ms = (dec 10 1 ⊖ dec 18 2) ⊗ c.feedback_delay_ms ⊕ dec 18 2 ⊗ observed;
        feedback_jitter_ms = fmax (dec 100 1) (
            (dec 10 1 ⊖ dec 22 2) ⊗ c.feedback_jitter_ms ⊕ dec 22 2 ⊗ d.fabs (observed ⊖ previous));
        feedback_samples = suc c.feedback_samples;
      }

module _ {K D : Type 0} ⦃o : Ord K⦄ ⦃d : Double D⦄ where
  unfoldable pub observe_propagation_feedback : ℕ → VersionVector K → Core K D → Core K D
  observe_propagation_feedback now_us other c =
      let echoed = get other c.id in
      let (sent_us, rest) = pop_echoed echoed 0 c.pending_feedback_seqs in
      let popped = record c { pending_feedback_seqs = rest } in
      let observed = fmax (dec 10 1) (num (now_us - sent_us) ⊘ dec 10000 1) in
      if not (is_network_aware c.timer_mode) || nat_eq echoed 0
      then c
      else if nat_eq sent_us 0 || leb now_us sent_us
      then popped
      else refresh_network_aware_timer_state true (learn_delay observed popped)
