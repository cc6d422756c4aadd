-- ===== src/Std/Sort.antt =====
-- `std::sort` with a comparator, as insertion: with a strict total order the result is the only sorted
-- arrangement, so the algorithm does not matter.
use m_svs.Base.{Bool, List, [], ◌∷◌, if◌then◌else◌, All, Bool-cases, inl, inr}

module _ {ℓ} {A : Type ℓ} (before : A → A → Bool) where
  unfoldable pub place : A → List A → List A
  place a [] = a ∷ []
  place a (b ∷ bs) = if before b a then b ∷ place a bs else a ∷ b ∷ bs

  unfoldable pub sort : List A → List A
  unfolding place
  sort [] = []
  sort (a ∷ rest) = place a (sort rest)

  All-place {κ} : (P : A → Type κ) (a : A) (bs : List A) → P a → All P bs → All P (place a bs)
  unfolding place
  All-place P a [] p h = (p, tt)
  All-place P a (b ∷ bs) p h = elim (Bool-cases (before b a)) [
    | inl e ↦ rw e (h.0, All-place P a bs p h.1)
    | inr e ↦ rw e (p, h)
  ]

  place-All {κ} : (P : A → Type κ) (a : A) (bs : List A) → All P (place a bs) → P a × All P bs
  unfolding place
  place-All P a [] h = (h.0, tt)
  place-All P a (b ∷ bs) h = elim (Bool-cases (before b a)) [
    | inl e ↦
        let g : All P (b ∷ place a bs) = rw (e, place) at h in
        let tail = place-All P a bs g.1 in (tail.0, (g.0, tail.1))
    | inr e ↦ let g : All P (a ∷ b ∷ bs) = rw (e, place) at h in (g.0, g.1)
  ]

  pub All-sort {κ} : (P : A → Type κ) (l : List A) → All P l → All P (sort l)
  unfolding sort
  All-sort P [] h = tt
  All-sort P (a ∷ rest) h = All-place P a (sort rest) h.0 (All-sort P rest h.1)

  pub sort-All {κ} : (P : A → Type κ) (l : List A) → All P (sort l) → All P l
  unfolding sort
  sort-All P [] h = tt
  sort-All P (a ∷ rest) h =
      let parts = place-All P a (sort rest) h in (parts.0, sort-All P rest parts.1)
