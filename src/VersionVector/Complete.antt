-- ===== src/VersionVector/Complete.antt =====
-- The phases that leave no room while a node is left, on a vector of at least `maxEntries` entries.

use m_svs.Base.{
  ℕ, zero, suc, ◌+◌, ◌-◌, ◌%◌, ◌≤◌, ◌<◌, ◌≡◌, refl, true, false, Bool, List, [], ◌∷◌, arith, length,
  get_or, if◌then◌else◌, ◌||◌, ◌==◌ as nat_eq, All, Bool-cases, inl, inr, subst, length-map,
}
use native.Mathlib.Decide.{dec_le}
use m_svs.Std.Ord.{Ord}
use m_svs.Std.Map.{IsSorted}
use m_svs.Std.Sort.{sort-All}
use m_svs.Names.{Name}
use m_svs.Double.{Double}
use m_svs.VersionVector.{VersionVector, size, has}
use m_svs.VersionVector.Subset.{
  Request, add_nodes, fill_nodes, ordered_nodes, recent_nodes, rotation, add_recent_entries,
  round_robin_order, add_round_robin_entries, more_recent,
}
use m_svs.VersionVector.Score.{
  Candidate, candidates_from, nids, add_score_entries, score_candidate, by_score_recent,
}
use m_svs.VersionVector.Select.{Phase}
use m_svs.VersionVector.Extends.{guarded_nodes-Extends, fill_nodes-Extends}
use m_svs.VersionVector.Fill.{Taken, add_nodes-Stops, fill_nodes-Stops, size-le}

module _ {K : Type 0} ⦃o : Ord K⦄ (self : VersionVector K) where
  -- What holds of the nodes of a list, and of all that is selected, holds of every node.
  abbrev pub Covers : VersionVector K → List K → Type 1
  Covers s nodes =
      (P : K → Type 0) → ((k : K) → has s k ≡ true → P k) → All P nodes → All P (ordered_nodes self)

module _ {K : Type 0} ⦃o : Ord K⦄ (self : VersionVector K) (max_entries : ℕ)
    (sorted : IsSorted self.map) (enough : max_entries ≤ size self) where
  -- A phase whose budget reaches the limit fills the selection.
  abbrev pub Filling : Phase K → Type 0
  Filling phase =
      (budget : ℕ) (s : VersionVector K)
      → max_entries ≤ size s + budget
      → max_entries ≤ size (phase budget s)

  pub guarded_fills :
      (b : Bool) (nodes : List K) (budget : ℕ) (s : VersionVector K)
      → (b ≡ true → max_entries ≤ size s)
      → Covers self s nodes
      → max_entries ≤ size s + budget
      → max_entries ≤ size (if b then s else add_nodes self max_entries nodes budget s)
  guarded_fills true nodes budget s g c h = g refl
  guarded_fills false nodes budget s g c h =
      let more = guarded_nodes-Extends self max_entries false nodes budget s in
      let new = add_nodes self max_entries nodes budget s in
      elim (add_nodes-Stops self max_entries nodes budget s) [
        | inl f ↦ f
        | inr (inl f) ↦ omega arith
        | inr (inr f) ↦
            omega (arith, size-le self new sorted (c (Taken self new) (λ k e _. more.keeps k e) f))
      ]

  pub fill_nodes-fills :
      (nodes : List K) (s : VersionVector K)
      → Covers self s nodes
      → max_entries ≤ size (fill_nodes self max_entries nodes s)
  fill_nodes-fills nodes s c =
      let more = fill_nodes-Extends self max_entries nodes s in
      let new = fill_nodes self max_entries nodes s in
      elim (fill_nodes-Stops self max_entries nodes s) [
        | inl f ↦ f
        | inr f ↦
            omega (arith, size-le self new sorted (c (Taken self new) (λ k e _. more.keeps k e) f))
      ]

  recent_nodes-Covers : (s : VersionVector K) → Covers self s (recent_nodes self)
  unfolding recent_nodes
  recent_nodes-Covers s P old h = sort-All (more_recent self) P (ordered_nodes self) h

  pub add_recent_entries-Filling : Filling (add_recent_entries self max_entries)
  unfolding add_recent_entries
  add_recent_entries-Filling budget s h =
      guarded_fills (nat_eq budget 0) (recent_nodes self) budget s (λ e. ground arith)
        (recent_nodes-Covers s) h

  -- Phases that give up on an empty vector as well.
  pub empty_guard :
      (budget : ℕ) (s : VersionVector K)
      → max_entries ≤ size s + budget
      → (nat_eq budget 0 || nat_eq (length (ordered_nodes self)) 0) ≡ true
      → max_entries ≤ size s
  empty_guard budget s h e = ground (arith, length-map self.map (λ (x : K × ℕ). x.0))

-- Every place below the length is met by a full turn from any offset.
turn : (n offset j : ℕ) → offset < n → j < n → (i : ℕ) × (i < n) × ((offset + i) % n ≡ j)
turn n offset j h g = elim (dec_le offset j) [
  | yes l ↦ (j - offset, omega arith, grind arith)
  | no l ↦ (j + n - offset, omega arith, grind arith)
]

module _ {A : Type 0} (d : A) where
  rotation-All :
      (P : A → Type 0) (nodes : List A) (offset i rounds k : ℕ)
      → All P (rotation d nodes offset i rounds)
      → i ≤ k
      → k < i + rounds
      → P (get_or nodes ((offset + k) % length nodes) d)
  unfolding rotation
  rotation-All P nodes offset i zero k h l u = absurd (omega arith)
  rotation-All P nodes offset i (suc rounds) k h l u = elim (dec_le k i) [
    | yes e ↦ subst (λ (m : ℕ). P (get_or nodes ((offset + m) % length nodes) d)) (omega arith) h.0
    | no g ↦ rotation-All P nodes offset (suc i) rounds k h.1 (omega arith) (omega arith)
  ]

  All-get_or :
      (P : A → Type 0) (nodes : List A)
      → ((j : ℕ) → j < length nodes → P (get_or nodes j d))
      → All P nodes
  All-get_or P [] h = tt
  All-get_or P (x ∷ xs) h = (h 0 (omega arith), All-get_or P xs (λ j l. h (suc j) (omega arith)))

  -- A full turn visits every element.
  pub rotation-covers :
      (P : A → Type 0) (nodes : List A) (offset : ℕ)
      → offset < length nodes
      → All P (rotation d nodes offset 0 (length nodes))
      → All P nodes
  rotation-covers P nodes offset l h = All-get_or P nodes λ j g.
      let (i, lt, e) = turn (length nodes) offset j l g in
      subst (λ (m : ℕ). P (get_or nodes m d)) e
        (rotation-All P nodes offset 0 (length nodes) i h (omega arith) (omega arith))

  pub turn-covers :
      (P : A → Type 0) (nodes : List A) (start : ℕ)
      → All P (rotation d nodes (start % length nodes) 0 (length nodes))
      → All P nodes
  turn-covers P [] start h = tt
  turn-covers P (x ∷ xs) start h =
      rotation-covers P (x ∷ xs) (start % suc (length xs)) (omega arith) h

module _ {K D : Type 0} ⦃o : Ord K⦄ ⦃n : Name K⦄ ⦃d : Double D⦄ (self : VersionVector K)
    (r : Request K D) (sorted : IsSorted self.map) (enough : r.max_entries ≤ size self) where
  pub add_round_robin_entries-Filling :
      Filling self r.max_entries sorted enough (add_round_robin_entries self r)
  unfolding add_round_robin_entries round_robin_order
  add_round_robin_entries-Filling budget s h =
      guarded_fills self r.max_entries sorted enough _ (round_robin_order self r) budget s
        (empty_guard self r.max_entries sorted enough budget s h)
        (λ P old g. turn-covers n.empty P (ordered_nodes self) r.start_index g) h

  candidates-All :
      (score_of : ℕ → K → Candidate K D) (s : VersionVector K) (P : K → Type 0)
      → ((i : ℕ) (k : K) → (score_of i k).nid ≡ k)
      → ((k : K) → has s k ≡ true → P k)
      → (i : ℕ) (nodes : List K)
      → All (λ (c : Candidate K D). P c.nid) (candidates_from score_of s i nodes)
      → All P nodes
  unfolding candidates_from
  candidates-All score_of s P named old i [] h = tt
  candidates-All score_of s P named old i (nid ∷ rest) h = elim (Bool-cases (has s nid)) [
    | inl e ↦
        let g = rw (e, candidates_from) at h in
        (old nid e, candidates-All score_of s P named old (suc i) rest g)
    | inr e ↦
        let g = rw (e, candidates_from) at h in
        (subst P (named i nid) g.0, candidates-All score_of s P named old (suc i) rest g.1)
  ]

  nids-All :
      (P : K → Type 0) (cs : List (Candidate K D))
      → All P (nids cs)
      → All (λ (c : Candidate K D). P c.nid) cs
  nids-All P [] h = tt
  nids-All P (c ∷ cs) h = (h.0, nids-All P cs h.1)

  pub add_score_entries-Filling :
      Filling self r.max_entries sorted enough (add_score_entries self r)
  unfolding add_score_entries score_candidate
  add_score_entries-Filling budget s h =
      guarded_fills self r.max_entries sorted enough _ _ budget s
        (empty_guard self r.max_entries sorted enough budget s h)
        (λ P old g.
          candidates-All _ s P (λ i k. refl) old 0 (ordered_nodes self)
            (sort-All by_score_recent (λ (c : Candidate K D). P c.nid) _ (nids-All P _ g)))
        h
