-- ===== src/Core/Feedback/Pending.antt =====
-- The queue of pending publications: bounded, in rising order, and popped exactly up to the echo.
use m_svs.Base.{
  not, ap, sym, ◌||◌, ◌==◌ as nat_eq, ℕ, ◌≤◌, ◌<◌, ◌≡◌, refl, false, List, [], ◌∷◌, ◌++◌, length,
  leb, ltb, if◌then◌else◌, arith, if_cases, Bool-cases, inl, inr,
}
use m_svs.Double.{Double}
use m_svs.Core.State.{Core}
use m_svs.Core.Timer.{is_network_aware}
use m_svs.Core.Feedback.{already_pending, trim, pop_echoed, record_propagation_feedback_send}

-- Sequence numbers rise strictly.
abbrev pub Above : ℕ → List (ℕ × ℕ) → Type 0
Above n [] = Unit {0}
Above n ((seq, t) ∷ rest) = n < seq

abbrev pub Rising : List (ℕ × ℕ) → Type 0
Rising [] = Unit {0}
Rising ((seq, t) ∷ rest) = Above seq rest × Rising rest

length-trim : (l : List (ℕ × ℕ)) → length (trim l) ≤ 32
unfolding trim
length-trim [] = omega arith
length-trim (e ∷ rest) = ground (arith, length-trim rest)

trim-Rising : (l : List (ℕ × ℕ)) → Rising l → Rising (trim l)
unfolding trim
trim-Rising [] r = tt
trim-Rising (e ∷ rest) r =
    if_cases Rising (ltb 32 (length (e ∷ rest))) (λ _. trim-Rising rest r.1) (λ _. r)

append-Rising :
    (l : List (ℕ × ℕ)) (n t : ℕ)
    → Rising l
    → already_pending l n ≡ false
    → Rising (l ++ ((n, t) ∷ []))
unfolding already_pending
append-Rising [] n t r h = (tt, tt)
append-Rising ((s, u) ∷ []) n t r h = (ground arith, (tt, tt))
append-Rising ((s, u) ∷ (s', u') ∷ rest) n t r h = (r.0, append-Rising ((s', u') ∷ rest) n t r.1 h)

-- The entries above the echo.
unfoldable pub unechoed : ℕ → List (ℕ × ℕ) → List (ℕ × ℕ)
unechoed echoed [] = []
unechoed echoed ((seq, t) ∷ rest) =
    if leb seq echoed then unechoed echoed rest else (seq, t) ∷ unechoed echoed rest

unechoed-Above :
    (echoed : ℕ) (seq : ℕ) (l : List (ℕ × ℕ))
    → echoed ≤ seq
    → Above seq l
    → Rising l
    → unechoed echoed l ≡ l
unfolding unechoed
unechoed-Above echoed seq [] h a r = refl
unechoed-Above echoed seq ((s, t) ∷ rest) h a r =
    ground (arith, unechoed-Above echoed s rest (omega arith) r.0 r.1)

-- The pop loop stops at the first entry above the echo; on a rising queue that leaves every entry
-- above the echo and no other.
pub pop_echoed-unechoed :
    (echoed observed : ℕ) (l : List (ℕ × ℕ))
    → Rising l
    → (pop_echoed echoed observed l).1 ≡ unechoed echoed l
unfolding pop_echoed unechoed
pop_echoed-unechoed echoed observed [] r = refl
pop_echoed-unechoed echoed observed ((s, t) ∷ rest) r = elim (Bool-cases (leb s echoed)) [
  | inl e ↦ rw e (pop_echoed-unechoed echoed t rest r.1)
  | inr e ↦ rw e (ap (◌∷◌ (s, t)) (sym (unechoed-Above echoed s rest (ground arith) r.0 r.1)))
]

pub record IsPending (l : List (ℕ × ℕ)) : Type 0 where
  pub rising : Rising l
  pub bounded : length l ≤ 32

enqueue-IsPending :
    (l : List (ℕ × ℕ)) (n t : ℕ)
    → IsPending l
    → already_pending l n ≡ false
    → IsPending (trim (l ++ ((n, t) ∷ [])))
enqueue-IsPending l n t p e = record {
  rising = trim-Rising (l ++ ((n, t) ∷ [])) (append-Rising l n t p.rising e);
  bounded = length-trim (l ++ ((n, t) ∷ []));
}

module _ {K D : Type 0} ⦃d : Double D⦄ where
  abbrev Pends : Core K D → Type 0
  Pends c = IsPending c.pending_feedback_seqs

  -- Recording a send keeps the queue in rising order and within 32 entries.
  pub record_propagation_feedback_send-IsPending :
      (local_seq send_time_us : ℕ) (c : Core K D)
      → IsPending c.pending_feedback_seqs
      → IsPending (record_propagation_feedback_send local_seq send_time_us c).pending_feedback_seqs
  unfolding record_propagation_feedback_send
  record_propagation_feedback_send-IsPending local_seq send_time_us c p =
      let pending = c.pending_feedback_seqs in
      elim (Bool-cases (already_pending pending local_seq)) [
        | inl e ↦ rw e (
            if_cases Pends (not (is_network_aware c.timer_mode) || nat_eq local_seq 0) (λ _. p)
              (λ _. p))
        | inr e ↦ rw e (
            if_cases Pends (not (is_network_aware c.timer_mode) || nat_eq local_seq 0) (λ _. p)
              (λ _. enqueue-IsPending pending local_seq send_time_us p e))
      ]
