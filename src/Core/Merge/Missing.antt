-- ===== src/Core/Merge/Missing.antt =====
-- The report of `mergeStateVector`: which publications are missing, and which vector is newer.
use m_svs.Base.{
  ℕ, ◌+◌, ◌≤◌, ◌≡◌, refl, ap, ◌↔◌, Bool, false, ◌&&◌, ◌||◌, List, [], ◌∷◌, ◌++◌, ltb, leb, arith,
  All, Bool-cases, if_cases, inl, inr, some,
}
use m_svs.Std.Ord.{Ord, ◌==◌, beq_refl}
use m_svs.Std.Map.{Map, IsSorted, find, find-Above, insert-IsSorted, All-find}
use m_svs.VersionVector.{VersionVector, get, set, get_last_update}
use m_svs.Core.Merge.{MissingDataInfo, Merging, learn_entry, learn, merge_state_vector, ahead}
use m_svs.Core.Merge.Maximum.{seq_in, learn_entry-max, get-learn}

module _ {K : Type 0} ⦃o : Ord K⦄ where
  -- Is publication `s` of node `k` in one of the ranges?
  abbrev pub covers : List (MissingDataInfo K) → K → ℕ → Bool
  covers [] k s = false
  covers (i ∷ rest) k s = (i.node_id == k && (leb i.low s && leb s i.high)) || covers rest k s

  covers-append :
      (xs ys : List (MissingDataInfo K)) (k : K) (s : ℕ)
      → covers (xs ++ ys) k s ≡ (covers xs k s || covers ys k s)
  covers-append [] ys k s = refl
  covers-append (x ∷ xs) ys k s = ground (arith, covers-append xs ys k s)

  learn_entry-covers :
      (now : ℕ) (m : Merging K) (nid : K) (q : ℕ) (k : K) (s : ℕ)
      → covers (learn_entry now m (nid, q)).missing_info k s
        ≡ (covers m.missing_info k s || (nid == k && (ltb (get m.vv nid) s && leb s q)))
  unfolding learn_entry
  learn_entry-covers now m nid q k s =
      let range : MissingDataInfo K = record {
        node_id = nid;
        low = get m.vv nid + 1;
        high = q;
        incoming_face = 0;
      } in
      ground (arith, covers-append m.missing_info (range ∷ []) k s)

  learn-covers :
      (now : ℕ) (entries : Map K ℕ) (m : Merging K) (k : K) (s : ℕ)
      → IsSorted entries
      → covers (learn now entries m).missing_info k s
        ≡ (covers m.missing_info k s || (ltb (get m.vv k) s && leb s (seq_in k entries)))
  unfolding learn find
  learn-covers now [] m k s sorted = ground arith
  learn-covers now ((nid, q) ∷ rest) m k s sorted = ground (
    arith,
    learn-covers now rest (learn_entry now m (nid, q)) k s sorted.1,
    learn_entry-covers now m nid q k s,
    learn_entry-max now m nid q k,
    find-Above nid rest sorted.1 sorted.0,
    o.beq_iff nid k,
  )

  -- A merge reports exactly the publications that it learns of: those above the old number and up
  -- to the new one. The other vector's map is in key order.
  pub covers-merge_state_vector :
      (now window : ℕ) (vv other : VersionVector K) (k : K) (s : ℕ)
      → IsSorted other.map
      → let r = merge_state_vector now window vv other in
        covers r.1.missing_info k s ≡ (ltb (get vv k) s && leb s (get r.0 k))
  unfolding merge_state_vector
  covers-merge_state_vector now window vv other k s sorted =
      let m : Merging K = record { vv = vv; other_vector_new = false; missing_info = [] } in
      ground (arith, learn-covers now other.map m k s sorted, get-learn now other.map m k sorted)

  learn_old :
      (now : ℕ) (entries : Map K ℕ) (m : Merging K)
      → IsSorted entries
      → ((k : K) → seq_in k entries ≤ get m.vv k)
      → learn now entries m ≡ m
  unfolding learn learn_entry find
  learn_old now [] m sorted old = refl
  learn_old now ((nid, q) ∷ rest) m sorted old =
      let same : learn_entry now m (nid, q) ≡ m = ground (arith, old nid, beq_refl nid) in
      rw same (
        learn_old now rest m sorted.1
          λ k. ground (arith, old k, find-Above nid rest sorted.1 sorted.0, o.beq_iff nid k))

  -- A vector that is nowhere newer changes nothing, not even a time stamp, and nothing is missing; its
  -- map is in key order.
  pub merge_state_vector_old :
      (now window : ℕ) (vv other : VersionVector K)
      → IsSorted other.map
      → ((k : K) → get other k ≤ get vv k)
      → let r = merge_state_vector now window vv other in
        (r.0 ≡ vv) × (r.1.missing_info ≡ []) × (r.1.other_vector_new ≡ false)
  unfolding merge_state_vector get
  merge_state_vector_old now window vv other sorted old =
      let m : Merging K = record { vv = vv; other_vector_new = false; missing_info = [] } in
      let same = learn_old now other.map m sorted old in
      (
        ap (λ (t : Merging K). t.vv) same,
        ap (λ (t : Merging K). t.missing_info) same,
        ap (λ (t : Merging K). t.other_vector_new) same,
      )

  learn_entry_quiet :
      (now : ℕ) (m : Merging K) (nid : K) (q : ℕ)
      → (learn_entry now m (nid, q)).other_vector_new ≡ false
      → (m.other_vector_new ≡ false) × (q ≤ get m.vv nid) × (learn_entry now m (nid, q) ≡ m)
  unfolding learn_entry
  learn_entry_quiet now m nid q e = elim (Bool-cases (ltb (get m.vv nid) q)) [
    | inl f ↦ cc (rw (f, learn_entry) at e)
    | inr f ↦ (ground arith, ground arith, rw f)
  ]

  learn_flag :
      (now : ℕ) (entries : Map K ℕ) (m : Merging K) (k : K)
      → (learn now entries m).other_vector_new ≡ false
      → (m.other_vector_new ≡ false) × (seq_in k entries ≤ get m.vv k)
  unfolding learn find
  learn_flag now [] m k e = (e, omega arith)
  learn_flag now ((nid, q) ∷ rest) m k e =
      let (quiet, le) = learn_flag now rest (learn_entry now m (nid, q)) k e in
      let (off, small, same) = learn_entry_quiet now m nid q quiet in
      (off, ground (arith, o.beq_iff nid k, ap (λ (t : Merging K). get t.vv k) same))

  -- The other vector counts as newer exactly when it is ahead at some node; its map is in key order.
  pub other_vector_new_iff :
      (now window : ℕ) (vv other : VersionVector K)
      → IsSorted other.map
      → ((merge_state_vector now window vv other).1.other_vector_new ≡ false)
        ↔ ((k : K) → get other k ≤ get vv k)
  unfolding merge_state_vector get
  other_vector_new_iff now window vv other sorted = (
    λ e k. (learn_flag now other.map _ k e).1,
    λ old. (merge_state_vector_old now window vv other sorted old).2,
  )

  ahead_sound :
      (now window : ℕ) (vv other : VersionVector K) (entries : Map K ℕ) (k : K)
      → ahead now window vv other entries ≡ false
      → get_last_update vv k + window ≤ now
      → seq_in k entries ≤ get other k
  unfolding ahead find
  ahead_sound now window vv other [] k e stale = omega arith
  ahead_sound now window vv other ((nid, q) ∷ rest) k e stale =
      ground (arith, ahead_sound now window vv other rest k, o.beq_iff nid k)

  ahead_complete :
      (now window : ℕ) (vv other : VersionVector K) (entries : Map K ℕ)
      → All (λ (e : K × ℕ). get_last_update vv e.0 + window ≤ now → e.1 ≤ get other e.0) entries
      → ahead now window vv other entries ≡ false
  unfolding ahead
  ahead_complete now window vv other [] h = refl
  ahead_complete now window vv other ((nid, q) ∷ rest) h =
      ground (arith, ahead_complete now window vv other rest h.1, h.0)

  learn-IsSorted :
      (now : ℕ) (entries : Map K ℕ) (m : Merging K)
      → IsSorted m.vv.map
      → IsSorted (learn now entries m).vv.map
  unfolding learn learn_entry set
  learn-IsSorted now [] m s = s
  learn-IsSorted now ((nid, q) ∷ rest) m s = learn-IsSorted now rest (learn_entry now m (nid, q)) (
      if_cases (λ (t : Merging K). IsSorted t.vv.map) (ltb (get m.vv nid) q)
        (λ _. insert-IsSorted nid q m.vv.map s) (λ _. s))

  -- A merge keeps the local map in key order.
  pub merge_state_vector-IsSorted :
      (now window : ℕ) (vv other : VersionVector K)
      → IsSorted vv.map
      → IsSorted (merge_state_vector now window vv other).0.map
  unfolding merge_state_vector
  merge_state_vector-IsSorted now window vv other s = learn-IsSorted now other.map _ s

  found_ahead :
      (now window : ℕ) (vv other : VersionVector K) (entries : Map K ℕ)
      → All (λ (e : K × ℕ). find e.0 vv.map ≡ some e.1) entries
      → ((k : K) → get_last_update vv k + window ≤ now → get vv k ≤ get other k)
      → All (λ (e : K × ℕ). get_last_update vv e.0 + window ≤ now → e.1 ≤ get other e.0) entries
  unfolding get
  found_ahead now window vv other [] f h = tt
  found_ahead now window vv other ((nid, q) ∷ rest) f h =
      (λ stale. ground (arith, h nid stale, f.0), found_ahead now window vv other rest f.1 h)

  -- The local vector counts as newer exactly when, after the merge, some node whose entry is at
  -- least a window old is ahead of the other vector; the local map is in key order.
  pub my_vector_new_iff :
      (now window : ℕ) (vv other : VersionVector K)
      → IsSorted vv.map
      → let r = merge_state_vector now window vv other in
        (r.1.my_vector_new ≡ false)
        ↔ ((k : K) → get_last_update r.0 k + window ≤ now → get r.0 k ≤ get other k)
  unfolding merge_state_vector
  my_vector_new_iff now window vv other sorted =
      let merged = (merge_state_vector now window vv other).0 in
      let s = merge_state_vector-IsSorted now window vv other sorted in
      (
        λ e k stale. unfold get in ahead_sound now window merged other merged.map k e stale,
        λ h.
            ahead_complete now window merged other merged.map
              (found_ahead now window merged other merged.map (All-find merged.map s) h),
      )
