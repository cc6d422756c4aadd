-- ===== src/Std/Map.antt =====
-- `std::map` as the list of its entries in key order, which is the order in which the code walks it.
use m_svs.Base.{
  if_cases, suc, ◌≤◌, ◌≡◌, refl, Bool, true, false, List, [], ◌∷◌, Option, none, some, arith,
  length, if◌then◌else◌, is_some, All, Bool-cases, inl, inr, subst,
}
use m_svs.Std.Ord.{Ord, ◌==◌, ◌≺◌, beq_refl, lt_of_not_ge, ne_of_lt}

abbrev pub Map {ℓ κ} : Type ℓ → Type κ → Type (ℓ ⊔ κ)
Map K V = List (K × V)

module _ {ℓ κ} {K : Type ℓ} {V : Type κ} ⦃o : Ord K⦄ where
  -- m.find(k)
  unfoldable pub find : K → Map K V → Option V
  find k [] = none
  find k ((j, v) ∷ m) = if j == k then some v else find k m

  -- m[k] = v
  unfoldable pub insert : K → V → Map K V → Map K V
  insert k v [] = (k, v) ∷ []
  insert k v ((j, w) ∷ m) =
      if j == k then (k, v) ∷ m else (if k ≺ j then (k, v) ∷ (j, w) ∷ m else (j, w) ∷ insert k v m)

  -- m.erase(k)
  unfoldable pub erase : K → Map K V → Map K V
  erase k [] = []
  erase k ((j, v) ∷ m) = if j == k then m else (j, v) ∷ erase k m

  abbrev pub has : K → Map K V → Bool
  has k m = is_some (find k m)

  -- The keys rise strictly along the list.
  abbrev pub Above : K → Map K V → Type 0
  Above k [] = Unit {0}
  Above k ((j, v) ∷ m) = (k ≺ j) ≡ true

  abbrev pub IsSorted : Map K V → Type 0
  IsSorted [] = Unit {0}
  IsSorted ((j, v) ∷ m) = Above j m × IsSorted m

  pub find-insert :
      (i k : K) (v : V) (m : Map K V)
      → find i (insert k v m) ≡ (if k == i then some v else find i m)
  unfolding find insert
  find-insert i k v [] = refl
  find-insert i k v ((j, w) ∷ m) =
      ground (arith, o.beq_iff j k, o.beq_iff j i, o.beq_iff k i, find-insert i k v m)

  pub length-insert_new :
      (k : K) (v : V) (m : Map K V) → find k m ≡ none → length (insert k v m) ≡ suc (length m)
  unfolding find insert
  length-insert_new k v [] h = refl
  length-insert_new k v ((j, w) ∷ m) h = ground (arith, length-insert_new k v m)

  pub find-length : (k : K) (m : Map K V) → has k m ≡ true → 1 ≤ length m
  unfolding find
  find-length k [] h = cc
  find-length k (e ∷ m) h = omega arith

  pub find-erase_ne : (i k : K) (m : Map K V) → (k == i) ≡ false → find i (erase k m) ≡ find i m
  unfolding find erase
  find-erase_ne i k [] h = refl
  find-erase_ne i k ((j, w) ∷ m) h =
      ground (arith, o.beq_iff j k, o.beq_iff j i, o.beq_iff k i, find-erase_ne i k m h)

  pub find-erase-none : (i k : K) (m : Map K V) → find i m ≡ none → find i (erase k m) ≡ none
  unfolding find erase
  find-erase-none i k [] h = refl
  find-erase-none i k ((j, w) ∷ m) h = ground (arith, find-erase-none i k m)

  pub length-erase : (k : K) (m : Map K V) → has k m ≡ true → suc (length (erase k m)) ≡ length m
  unfolding find erase
  length-erase k [] h = ground arith
  length-erase k ((j, w) ∷ m) h = ground (arith, length-erase k m)

  Above-trans : (i j : K) (m : Map K V) → (i ≺ j) ≡ true → Above j m → Above i m
  Above-trans i j [] h a = tt
  Above-trans i j ((k, v) ∷ m) h a = o.lt_trans i j k h a

  Above-insert :
      (i k : K) (v : V) (m : Map K V) → (i ≺ k) ≡ true → Above i m → Above i (insert k v m)
  unfolding insert
  Above-insert i k v [] h a = h
  Above-insert i k v ((j, w) ∷ m) h a = ground arith

  pub insert-IsSorted : (k : K) (v : V) (m : Map K V) → IsSorted m → IsSorted (insert k v m)
  unfolding insert
  insert-IsSorted k v [] s = (tt, tt)
  insert-IsSorted k v ((j, w) ∷ m) s = elim (Bool-cases (j == k)) [
    | inl e ↦ rw e (subst (λ i. Above i m) ((o.beq_iff j k).0 e) s.0, s.1)
    | inr d ↦ rw d (elim (Bool-cases (k ≺ j)) [
      | inl l ↦ rw l (l, s)
      | inr g ↦ rw g (Above-insert j k v m (lt_of_not_ge j k d g) s.0, insert-IsSorted k v m s.1)
    ])
  ]

  pub find-Above : (k : K) (m : Map K V) → IsSorted m → Above k m → find k m ≡ none
  unfolding find
  find-Above k [] s a = refl
  find-Above k ((j, v) ∷ m) s a =
      ground (arith, o.beq_iff j k, o.lt_irrefl k, Above-trans k j m a s.0, find-Above k m s.1)

  -- A map whose every key is in another is no larger.
  All-erase :
      (k : K) (m n : Map K V)
      → IsSorted m
      → Above k m
      → All (λ (e : K × V). has e.0 n ≡ true) m
      → All (λ (e : K × V). has e.0 (erase k n) ≡ true) m
  All-erase k [] n s a h = tt
  All-erase k ((j, v) ∷ m) n s a h = (
    rw (find-erase_ne j k n (ne_of_lt k j a)) h.0,
    All-erase k m n s.1 (Above-trans k j m a s.0) h.1,
  )

  pub length-le :
      (m n : Map K V) → IsSorted m → All (λ (e : K × V). has e.0 n ≡ true) m → length m ≤ length n
  length-le [] n s h = omega arith
  length-le ((k, v) ∷ m) n s h =
      omega (arith, length-erase k n h.0, length-le m (erase k n) s.1 (All-erase k m n s.1 s.0 h.1))

  All-find_cons :
      (k : K) (v : V) (m n : Map K V)
      → IsSorted m
      → Above k m
      → All (λ (e : K × V). find e.0 n ≡ some e.1) m
      → All (λ (e : K × V). find e.0 ((k, v) ∷ n) ≡ some e.1) m
  unfolding find
  All-find_cons k v [] n s a h = tt
  All-find_cons k v ((j, w) ∷ m) n s a h =
      (rw (ne_of_lt k j a) h.0, All-find_cons k v m n s.1 (Above-trans k j m a s.0) h.1)

  -- Each entry of a map is found under its key.
  pub All-find : (m : Map K V) → IsSorted m → All (λ (e : K × V). find e.0 m ≡ some e.1) m
  unfolding find
  All-find [] s = tt
  All-find ((k, v) ∷ m) s = (rw (beq_refl k), All-find_cons k v m m s.1 s.0 (All-find m s.1))

  All-has_cons :
      (k : K) (v : V) (m n : Map K V)
      → All (λ (e : K × V). has e.0 n ≡ true) m
      → All (λ (e : K × V). has e.0 ((k, v) ∷ n) ≡ true) m
  unfolding find
  All-has_cons k v [] n h = tt
  All-has_cons k v ((j, w) ∷ m) n h = (ground arith, All-has_cons k v m n h.1)

  pub All-has : (m : Map K V) → All (λ (e : K × V). has e.0 m ≡ true) m
  unfolding find
  All-has [] = tt
  All-has ((k, v) ∷ m) = (rw (beq_refl k), All-has_cons k v m m (All-has m))

module _ {ℓ κ} {K : Type ℓ} {V : Type κ} ⦃o : Ord K⦄ where
  Above-erase : (i k : K) (m : Map K V) → IsSorted m → Above i m → Above i (erase k m)
  unfolding erase
  Above-erase i k [] s a = tt
  Above-erase i k ((j, w) ∷ m) s a =
      if_cases (Above i) (j == k) (λ _. Above-trans i j m a s.0) (λ _. a)

  pub erase-IsSorted : (k : K) (m : Map K V) → IsSorted m → IsSorted (erase k m)
  unfolding erase
  erase-IsSorted k [] s = tt
  erase-IsSorted k ((j, w) ∷ m) s =
      if_cases IsSorted (j == k) (λ _. s.1)
        (λ _. (Above-erase j k m s.1 s.0, erase-IsSorted k m s.1))

  pub find-erase_same : (k : K) (m : Map K V) → IsSorted m → find k (erase k m) ≡ none
  unfolding find erase
  find-erase_same k [] s = refl
  find-erase_same k ((j, w) ∷ m) s = elim (Bool-cases (j == k)) [
    | inl e ↦ rw e (find-Above k m s.1 (subst (λ i. Above i m) ((o.beq_iff j k).0 e) s.0))
    | inr e ↦ rw (e, find) (rw e (find-erase_same k m s.1))
  ]
