-- ===== src/VersionVector/Extends.antt =====
-- What every phase of the selection keeps: the entries come from the vector, none is dropped, and
-- the selection stays within `maxEntries`.
use m_svs.Base.{
  ℕ, ◌-◌, ◌≤◌, ◌<◌, ◌≡◌, true, false, List, [], ◌∷◌, some, arith, if◌then◌else◌, leb, ◌||◌,
  ◌==◌ as nat_eq, Bool, Bool-cases, Option-cases, inl, inr,
}
use m_svs.Std.Ord.{Ord}
use m_svs.Std.Map.{IsSorted, insert-IsSorted, find, insert, find-insert, length-insert_new}
use m_svs.VersionVector.{VersionVector, size, has, get_last_update}
use m_svs.VersionVector.Subset.{add_entry, add_nodes, fill_nodes}
use m_svs.VersionVector.Select.{Phase, when, top_up, reserved, with_reserve, with_quota}

module _ {K : Type 0} ⦃o : Ord K⦄ (self : VersionVector K) where
  abbrev pub new_entry : K → ℕ → VersionVector K → VersionVector K
  new_entry nid q s = record {
    map = insert nid q s.map;
    last_update = insert nid (get_last_update self nid) s.last_update;
  }

  -- `addEntry` adds the vector's entry, unless the vector has none or it is selected already.
  pub add_entry_cases :
      (P : VersionVector K × Bool → Type 0) (nid : K) (s : VersionVector K)
      → ((has self nid ≡ true → has s nid ≡ true) → P (s, false))
      → ((q : ℕ) → find nid self.map ≡ some q → has s nid ≡ false → P (new_entry nid q s, true))
      → P (add_entry self nid s)
  unfolding add_entry
  add_entry_cases P nid s old new = elim (Option-cases (find nid self.map)) [
    | inl e ↦ rw (e, add_entry) (old (ground arith))
    | inr (q, e) ↦ elim (Bool-cases (has s nid)) [
      | inl f ↦ rw (e, add_entry, f) (old (λ _. f))
      | inr f ↦ rw (e, add_entry, f) (new q e f)
    ]
  ]

module _ {K : Type 0} ⦃o : Ord K⦄ (self : VersionVector K) (max_entries : ℕ) where
  -- Every entry is one of the vector's, with its number and the time of its last update, and
  -- if the vector is in key order, so are the entries.
  pub record IsPart (selected : VersionVector K) : Type 0 where
    pub sound : (k : K) (s : ℕ) → find k selected.map ≡ some s → find k self.map ≡ some s
    pub stamped :
        (k : K) → has selected k ≡ true → get_last_update selected k ≡ get_last_update self k
    pub fits : size selected ≤ max_entries
    pub ordered : IsSorted self.map → IsSorted selected.map

  pub record Extends (old new : VersionVector K) : Type 0 where
    pub part : IsPart old → IsPart new
    pub keeps : (k : K) → has old k ≡ true → has new k ≡ true

  pub Extends-refl : (s : VersionVector K) → Extends s s
  Extends-refl s = record { part = λ p. p; keeps = λ k h. h }

  pub Extends-trans : {a b c : VersionVector K} → Extends a b → Extends b c → Extends a c
  Extends-trans f g = record {
    part = λ p. g.part (f.part p);
    keeps = λ k h. g.keeps k (f.keeps k h);
  }

  new_entry-Extends :
      (nid : K) (q : ℕ) (s : VersionVector K)
      → size s < max_entries
      → find nid self.map ≡ some q
      → has s nid ≡ false
      → Extends s (new_entry self nid q s)
  unfolding get_last_update
  new_entry-Extends nid q s room e f = record {
    part = λ p. record {
      sound = λ k v h. ground (arith, find-insert k nid q s.map, o.beq_iff nid k, p.sound k v);
      stamped = λ k h. ground (
        arith,
        find-insert k nid q s.map,
        find-insert k nid (get_last_update self nid) s.last_update,
        o.beq_iff nid k,
        p.stamped k,
      );
      fits = ground (arith, length-insert_new nid q s.map, p.fits);
      ordered = λ h. insert-IsSorted nid q s.map (p.ordered h);
    };
    keeps = λ k h. ground (arith, find-insert k nid q s.map);
  }

  pub add_entry-Extends :
      (nid : K) (s : VersionVector K) → size s < max_entries → Extends s (add_entry self nid s).0
  add_entry-Extends nid s h =
      add_entry_cases self (λ r. Extends s r.0) nid s (λ _. Extends-refl s)
        (λ q e f. new_entry-Extends nid q s h e f)

  pub add_nodes-Extends :
      (nodes : List K) (budget : ℕ) (s : VersionVector K)
      → Extends s (add_nodes self max_entries nodes budget s)
  unfolding add_nodes
  add_nodes-Extends [] budget s = Extends-refl s
  add_nodes-Extends (nid ∷ rest) budget s =
      let r = add_entry self nid s in
      elim (Bool-cases (leb max_entries (size s) || nat_eq budget 0)) [
        | inl e ↦ rw e (Extends-refl s)
        | inr e ↦ rw e (
            Extends-trans (add_entry-Extends nid s (ground arith))
              (add_nodes-Extends rest (if r.1 then budget - 1 else budget) r.0))
      ]

  pub guarded_nodes-Extends :
      (b : Bool) (nodes : List K) (budget : ℕ) (s : VersionVector K)
      → Extends s (if b then s else add_nodes self max_entries nodes budget s)
  guarded_nodes-Extends true nodes budget s = Extends-refl s
  guarded_nodes-Extends false nodes budget s = add_nodes-Extends nodes budget s

  pub fill_nodes-Extends :
      (nodes : List K) (s : VersionVector K) → Extends s (fill_nodes self max_entries nodes s)
  unfolding fill_nodes
  fill_nodes-Extends [] s = Extends-refl s
  fill_nodes-Extends (nid ∷ rest) s = elim (Bool-cases (leb max_entries (size s))) [
    | inl e ↦ rw e (Extends-refl s)
    | inr e ↦ rw e (
        Extends-trans (add_entry-Extends nid s (ground arith))
          (fill_nodes-Extends rest (add_entry self nid s).0))
  ]

  pub if-Extends :
      (b : Bool) (s t u : VersionVector K)
      → Extends s t
      → Extends s u
      → Extends s (if b then t else u)
  if-Extends true s t u f g = f
  if-Extends false s t u f g = g

  pub when-Extends :
      (b : Bool) (f : VersionVector K → VersionVector K) (s : VersionVector K)
      → Extends s (f s)
      → Extends s (when b f s)
  unfolding when
  when-Extends b f s h = if-Extends b s (f s) s h (Extends-refl s)

  -- A phase that keeps the selection a part of the vector, whatever its budget.
  abbrev pub Extending : Phase K → Type 0
  Extending phase = (budget : ℕ) (s : VersionVector K) → Extends s (phase budget s)

  pub top_up-Extends :
      (phase : Phase K) (s : VersionVector K)
      → Extending phase
      → Extends s (top_up max_entries phase s)
  unfolding top_up
  top_up-Extends phase s h = when-Extends _ _ s (h _ s)

  pub reserved-Extends :
      (reserve : ℕ) (rotate : Phase K) (s : VersionVector K)
      → Extending rotate
      → Extends s (reserved max_entries reserve rotate s)
  unfolding reserved
  reserved-Extends reserve rotate s h = when-Extends _ _ s (h _ s)

  pub with_reserve-Extends :
      (reserve budget : ℕ) (phase rotate : Phase K) (s : VersionVector K)
      → Extending phase
      → Extending rotate
      → Extends s (with_reserve max_entries reserve budget phase rotate s)
  unfolding with_reserve
  with_reserve-Extends reserve budget phase rotate s h g =
      Extends-trans (when-Extends _ _ s (h _ s)) (
        Extends-trans (reserved-Extends reserve rotate _ g)
          (Extends-trans (top_up-Extends phase _ h) (top_up-Extends rotate _ g)))

  pub with_quota-Extends :
      (novelty : ℕ) (recent fresh rotate : Phase K) (s : VersionVector K)
      → Extending recent
      → Extending fresh
      → Extending rotate
      → Extends s (with_quota max_entries novelty recent fresh rotate s)
  unfolding with_quota
  with_quota-Extends novelty recent fresh rotate s h f g =
      Extends-trans (when-Extends _ _ s (h _ s)) (
        Extends-trans (when-Extends _ _ _ (f _ _))
          (Extends-trans (top_up-Extends recent _ h) (top_up-Extends rotate _ g)))
