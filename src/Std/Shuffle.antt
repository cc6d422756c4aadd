-- ===== src/Std/Shuffle.antt =====
-- `std::shuffle` with a seeded `std::minstd_rand`: a parameter, of which only that it permutes is
-- used.
use m_svs.Base.{
  ℕ, ◌+◌, ◌≤◌, ◌<◌, ◌≡◌, List, [], ◌∷◌, if◌then◌else◌, arith, All, Bool-cases, inl, inr, subst,
}
use m_svs.Std.Ord.{Ord, ◌==◌, beq_refl}

module _ {K : Type 0} ⦃o : Ord K⦄ where
  abbrev pub count : K → List K → ℕ
  count k [] = 0
  count k (x ∷ xs) = (if x == k then 1 else 0) + count k xs

  -- The arrangement for each seed holds every element as often as the list.
  abbrev pub Permutes : (ℕ → List K → List K) → Type 0
  Permutes shuffle = (seed : ℕ) (l : List K) (k : K) → count k (shuffle seed l) ≡ count k l

  counted : (P : K → Type 0) (k : K) (xs : List K) → 0 < count k xs → All P xs → P k
  counted P k [] h a = absurd (omega arith)
  counted P k (x ∷ xs) h a = elim (Bool-cases (x == k)) [
    | inl e ↦ subst P ((o.beq_iff x k).0 e) a.0
    | inr e ↦ counted P k xs (ground arith) a.1
  ]

  counts-All :
      (P : K → Type 0) (xs ys : List K) → ((k : K) → count k ys ≤ count k xs) → All P xs → All P ys
  counts-All P xs [] h a = tt
  counts-All P xs (y ∷ ys) h a = (
    counted P y xs (ground (arith, h y, beq_refl y)) a,
    counts-All P xs ys (λ k. ground (arith, h k)) a,
  )

  pub Permutes-All :
      (shuffle : ℕ → List K → List K)
      → Permutes shuffle
      → (P : K → Type 0) (seed : ℕ) (l : List K) → All P (shuffle seed l)
      → All P l
  Permutes-All shuffle p P seed l a =
      counts-All P (shuffle seed l) l (λ k. omega (arith, p seed l k)) a
