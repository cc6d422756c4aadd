-- ===== src/VersionVector/Fill.antt =====
-- When a phase stops: the selection is full, its budget is spent, or no node is left.
use mathlib.Core.List
use m_svs.Base.{
  ℕ, ◌+◌, ◌-◌, ◌≤◌, ◌≡◌, refl, true, List, [], ◌∷◌, arith, if◌then◌else◌, leb, ◌||◌, ◌==◌ as nat_eq,
  All, ◌⊎◌, Bool-cases, if_cases, inl, inr,
}
use m_svs.Std.Ord.{Ord, beq_refl}
use m_svs.Std.Map.{Map, IsSorted, find-insert, length-insert_new, All-has, length-le}
use m_svs.VersionVector.{VersionVector, size, has}
use m_svs.VersionVector.Subset.{add_entry, add_nodes, fill_nodes, ordered_nodes}
use m_svs.VersionVector.Extends.{add_entry_cases, add_nodes-Extends, fill_nodes-Extends}

module _ {K : Type 0} ⦃o : Ord K⦄ (self : VersionVector K) where
  -- Every node of the list that the vector has is selected.
  abbrev pub Taken : VersionVector K → K → Type 0
  Taken s nid = has self nid ≡ true → has s nid ≡ true

  pub add_entry_took : (nid : K) (s : VersionVector K) → Taken (add_entry self nid s).0 nid
  add_entry_took nid s =
      add_entry_cases self (λ r. Taken r.0 nid) nid s (λ h. h)
        (λ q e f _. rw (find-insert nid nid q s.map, beq_refl nid))

  size-add_entry :
      (nid : K) (s : VersionVector K)
      → size (add_entry self nid s).0 ≡ (if (add_entry self nid s).1 then size s + 1 else size s)
  size-add_entry nid s =
      add_entry_cases self (λ r. size r.0 ≡ (if r.1 then size s + 1 else size s)) nid s (λ _. refl)
        (λ q e f. omega (arith, length-insert_new nid q s.map (ground arith)))

  All-map :
      (P : K → Type 0) (m : Map K ℕ)
      → All P (List.map (λ (e : K × ℕ). e.0) m)
      → All (λ (e : K × ℕ). P e.0) m
  All-map P [] h = tt
  All-map P (e ∷ m) h = (h.0, All-map P m h.1)

  All-apply :
      (s : VersionVector K) (m : Map K ℕ)
      → All (λ (e : K × ℕ). has self e.0 ≡ true) m
      → All (λ (e : K × ℕ). Taken s e.0) m
      → All (λ (e : K × ℕ). has s e.0 ≡ true) m
  All-apply s [] h f = tt
  All-apply s (e ∷ m) h f = (f.0 h.0, All-apply s m h.1 f.1)

  -- A selection that holds every node of a vector is no smaller than the vector.
  pub size-le :
      (s : VersionVector K)
      → IsSorted self.map
      → All (Taken s) (ordered_nodes self)
      → size self ≤ size s
  size-le s sorted f =
      length-le self.map s.map sorted
        (All-apply s self.map (All-has self.map) (All-map (Taken s) self.map f))

module _ {K : Type 0} ⦃o : Ord K⦄ (self : VersionVector K) (max_entries : ℕ) where
  abbrev pub Stops : List K → ℕ → VersionVector K → VersionVector K → Type 0
  Stops nodes budget old new =
      (max_entries ≤ size new) ⊎ (size old + budget ≤ size new) ⊎ All (Taken self new) nodes

  stopped :
      (nid : K) (rest : List K) (budget : ℕ) (s : VersionVector K)
      → (leb max_entries (size s) || nat_eq budget 0) ≡ true
      → Stops (nid ∷ rest) budget s s
  stopped nid rest budget s e = elim (Bool-cases (leb max_entries (size s))) [
    | inl f ↦ inl (ground arith)
    | inr f ↦ inr (inl (ground arith))
  ]

  pub add_nodes-Stops :
      (nodes : List K) (budget : ℕ) (s : VersionVector K)
      → Stops nodes budget s (add_nodes self max_entries nodes budget s)
  unfolding add_nodes
  add_nodes-Stops [] budget s = inr (inr tt)
  add_nodes-Stops (nid ∷ rest) budget s =
      let r = add_entry self nid s in
      let left = (if r.1 then budget - 1 else budget) in
      let more = add_nodes-Extends self max_entries rest left r.0 in
      if_cases (Stops (nid ∷ rest) budget s) (leb max_entries (size s) || nat_eq budget 0)
        (λ e. stopped nid rest budget s e)
        (λ e. elim (add_nodes-Stops rest left r.0) [
          | inl f ↦ inl f
          | inr (inl f) ↦ inr (inl (ground (arith, size-add_entry self nid s)))
          | inr (inr f) ↦ inr (inr (λ h. more.keeps nid (add_entry_took self nid s h), f))
        ])

  pub fill_nodes-Stops :
      (nodes : List K) (s : VersionVector K)
      → let new = fill_nodes self max_entries nodes s in
        (max_entries ≤ size new) ⊎ All (Taken self new) nodes
  unfolding fill_nodes
  fill_nodes-Stops [] s = inr tt
  fill_nodes-Stops (nid ∷ rest) s =
      let r = add_entry self nid s in
      let more = fill_nodes-Extends self max_entries rest r.0 in
      if_cases (λ new. (max_entries ≤ size new) ⊎ All (Taken self new) (nid ∷ rest))
        (leb max_entries (size s)) (λ e. inl (ground arith))
        (λ e. elim (fill_nodes-Stops rest r.0) [
          | inl f ↦ inl f
          | inr f ↦ inr (λ h. more.keeps nid (add_entry_took self nid s h), f)
        ])
