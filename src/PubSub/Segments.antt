-- ===== src/PubSub/Segments.antt =====
-- The segments of a publication put together are the publication.

use m_svs.Base.{
  ℕ, zero, suc, ◌+◌, ◌-◌, ◌*◌, ◌/◌, ◌≤◌, ◌≡◌, refl, sym, ap, ◌∙◌, min, List, [], ◌∷◌, ◌++◌, length,
  take, drop, arith, All, leb, Bool-cases, inl, inr,
}
use m_svs.PubSub.{max_data_size, segments_from, publish_segments}

module _ {A : Type 0} where
  abbrev pub joined : List (List A) → List A
  joined [] = []
  joined (segment ∷ rest) = segment ++ joined rest

  drop_past : (n : ℕ) (v : List A) → length v ≤ n → drop n v ≡ []
  drop_past zero [] h = refl
  drop_past zero (x ∷ v) h = absurd (omega arith)
  drop_past (suc n) [] h = refl
  drop_past (suc n) (x ∷ v) h = drop_past n v (omega arith)

  length-drop : (n : ℕ) (v : List A) → length (drop n v) ≡ length v - n
  length-drop zero v = omega arith
  length-drop (suc n) [] = omega arith
  length-drop (suc n) (x ∷ v) = omega (arith, length-drop n v)

  take_past : (n : ℕ) (v : List A) → length v ≤ n → take n v ≡ v
  take_past zero [] h = refl
  take_past zero (x ∷ v) h = absurd (omega arith)
  take_past (suc n) [] h = refl
  take_past (suc n) (x ∷ v) h = ap (◌∷◌ x) (take_past n v (omega arith))

  take-min : (n : ℕ) (v : List A) → take (min (length v) n) v ≡ take n v
  take-min n v = elim (Bool-cases (leb (length v) n)) [
    | inl e ↦
        ap (λ k. take k v) (ground arith)
        ∙ (take_past (length v) v (omega arith) ∙ sym (take_past n v (ground arith)))
    | inr e ↦ ap (λ k. take k v) (ground arith)
  ]

  take-drop : (n : ℕ) (v : List A) → take n v ++ drop n v ≡ v
  take-drop zero v = refl
  take-drop (suc n) [] = refl
  take-drop (suc n) (x ∷ v) = ap (◌∷◌ x) (take-drop n v)

  drop-drop : (m n k : ℕ) (v : List A) → k ≡ m + n → drop n (drop m v) ≡ drop k v
  drop-drop zero n k v e = ap (λ j. drop j v) (omega arith)
  drop-drop (suc m) zero k [] e = sym (drop_past k [] (omega arith))
  drop-drop (suc m) (suc n) k [] e = sym (drop_past k [] (omega arith))
  drop-drop (suc m) n zero (x ∷ v) e = absurd (omega arith)
  drop-drop (suc m) n (suc k) (x ∷ v) e = drop-drop m n k v (omega arith)

  segment_step :
      (value : List A) (i : ℕ)
      → take (min (length value - i * max_data_size) max_data_size) (drop (i * max_data_size) value)
          ++ drop (suc i * max_data_size) value
        ≡ drop (i * max_data_size) value
  segment_step value i =
      let rest = drop (i * max_data_size) value in
      ap (λ n. take (min n max_data_size) rest ++ drop (suc i * max_data_size) value)
        (sym (length-drop (i * max_data_size) value))
      ∙ (ap (λ t. t ++ drop (suc i * max_data_size) value) (take-min max_data_size rest)
          ∙ (ap (λ t. take max_data_size rest ++ t)
                (sym (drop-drop (i * max_data_size) max_data_size _ value (omega arith)))
              ∙ take-drop max_data_size rest))

  joined-segments_from :
      (value : List A) (i rounds : ℕ)
      → length value ≤ (i + rounds) * max_data_size
      → joined (segments_from value i rounds) ≡ drop (i * max_data_size) value
  unfolding segments_from
  joined-segments_from value i zero h = sym (drop_past _ value (omega arith))
  joined-segments_from value i (suc rounds) h =
      ap
        (λ t.
          take (min (length value - i * max_data_size) max_data_size)
            (drop (i * max_data_size) value)
          ++ t)
        (joined-segments_from value (suc i) rounds (omega arith))
      ∙ segment_step value i

  abbrev pub AllShort : List (List A) → Type 0
  AllShort = All (λ (segment : List A). length segment ≤ max_data_size)

  length-take : (n : ℕ) (v : List A) → length (take n v) ≤ n
  length-take zero v = omega arith
  length-take (suc n) [] = omega arith
  length-take (suc n) (x ∷ v) = omega (arith, length-take n v)

  segments_from-AllShort : (value : List A) (i rounds : ℕ) → AllShort (segments_from value i rounds)
  unfolding segments_from
  segments_from-AllShort value i zero = tt
  segments_from-AllShort value i (suc rounds) =
      (omega (arith, length-take _ _), segments_from-AllShort value (suc i) rounds)

  -- The segments of a publication, put together in order, are its value, and none is larger than the
  -- limit.
  pub joined-publish_segments :
      (value : List A)
      → (joined (publish_segments value) ≡ value) × AllShort (publish_segments value)
  unfolding publish_segments
  joined-publish_segments value =
      (joined-segments_from value 0 _ (omega arith), segments_from-AllShort value 0 _)

  length-segments_from :
      (value : List A) (i rounds : ℕ) → length (segments_from value i rounds) ≡ rounds
  unfolding segments_from
  length-segments_from value i zero = refl
  length-segments_from value i (suc rounds) = ap suc (length-segments_from value (suc i) rounds)

  pub length-publish_segments :
      (value : List A) → length (publish_segments value) ≡ length value / max_data_size + 1
  unfolding publish_segments
  length-publish_segments value = length-segments_from value 0 _
