-- ===== src/VersionVector/Guarantee.antt =====
-- What `selectSubset` guarantees to `buildSyncVector`, for every strategy.
use m_svs.Base.{
  ℕ, ◌-◌, ◌≤◌, ◌<◌, ◌≡◌, refl, ltb, true, false, List, arith, leb, min, ◌||◌, ◌==◌ as nat_eq,
  Bool-cases, if_cases, inl, inr,
}
use m_svs.Std.Ord.{Ord, ◌==◌}
use m_svs.Std.Map.{IsSorted, find, find-length}
use m_svs.VersionVector.Fill.{add_entry_took}
use m_svs.Std.Shuffle.{Permutes, Permutes-All}
use m_svs.Names.{Name}
use m_svs.Double.{Double}
use m_svs.VersionVector.{VersionVector, SubsetStrategy, size, has, empty}
use m_svs.VersionVector.Subset.{Request, ordered_nodes, add_round_robin_entries}
use m_svs.VersionVector.Select.{
  is_full, top_up, sticky, select_hybrid, run_strategy, preferred, select_subset, with_reserve,
  with_quota, when,
}
use m_svs.VersionVector.Extends.{
  IsPart, Extends, Extends-trans, add_entry-Extends, fill_nodes-Extends, when-Extends,
  top_up-Extends, reserved-Extends, with_reserve-Extends, with_quota-Extends,
}
use m_svs.VersionVector.Phases.{
  add_recent_entries-Extends, add_sticky_entries-Extends, add_round_robin_entries-Extends,
  add_random_entries-Extends, add_novelty_entries-Extends, add_score_entries-Extends,
  add_age_score_entries-Extends, add_deficit_score_entries-Extends,
  add_cluster_recent_entries-Extends, add_cluster_score_entries-Extends,
}
use m_svs.VersionVector.Complete.{
  add_recent_entries-Filling, add_round_robin_entries-Filling, add_score_entries-Filling,
  fill_nodes-fills,
}

module _ {K D : Type 0} ⦃o : Ord K⦄ ⦃n : Name K⦄ ⦃d : Double D⦄ (shuffle : ℕ → List K → List K)
    (self : VersionVector K) (r : Request K D) where
  open r use {max_entries}

  select_hybrid-Extends :
      (s : VersionVector K) → Extends self max_entries s (select_hybrid shuffle self r s)
  unfolding select_hybrid
  select_hybrid-Extends s =
      let recent = add_recent_entries-Extends self max_entries in
      let rotate = add_round_robin_entries-Extends self r in
      Extends-trans self max_entries (when-Extends self max_entries _ _ s (recent _ s)) (
        Extends-trans self max_entries (reserved-Extends self max_entries _ _ _ rotate) (
          Extends-trans self max_entries (top_up-Extends self max_entries _ _ recent)
            (top_up-Extends self max_entries _ _ rotate)))

  sticky-Extends : (s : VersionVector K) → Extends self max_entries s (sticky shuffle self r s)
  unfolding sticky
  sticky-Extends s = add_sticky_entries-Extends self r _ s

  run_strategy-Extends :
      (strategy : SubsetStrategy) (s : VersionVector K)
      → Extends self max_entries s (run_strategy shuffle self r strategy s)
  unfolding run_strategy
  run_strategy-Extends SubsetStrategy.recent s =
      Extends-trans self max_entries (sticky-Extends s)
        (add_recent_entries-Extends self max_entries max_entries _)
  run_strategy-Extends SubsetStrategy.sticky_recent s =
      Extends-trans self max_entries (sticky-Extends s) (
        Extends-trans self max_entries (add_recent_entries-Extends self max_entries _ _)
          (top_up-Extends self max_entries _ _ (add_round_robin_entries-Extends self r)))
  run_strategy-Extends SubsetStrategy.recent_novelty_quota s =
      with_quota-Extends self max_entries _ _ _ _ s (add_recent_entries-Extends self max_entries)
        (add_novelty_entries-Extends self r) (add_round_robin_entries-Extends self r)
  run_strategy-Extends SubsetStrategy.recent_random_quota s =
      with_quota-Extends self max_entries _ _ _ _ s (add_recent_entries-Extends self max_entries)
        (add_random_entries-Extends self r shuffle) (add_round_robin_entries-Extends self r)
  run_strategy-Extends SubsetStrategy.adaptive_recent_score s =
      add_recent_entries-Extends self max_entries max_entries s
  run_strategy-Extends SubsetStrategy.random s = fill_nodes-Extends self max_entries _ s
  run_strategy-Extends SubsetStrategy.round_robin s = add_round_robin_entries-Extends self r _ s
  run_strategy-Extends SubsetStrategy.score s = add_score_entries-Extends self r _ s
  run_strategy-Extends SubsetStrategy.age_score s =
      with_reserve-Extends self max_entries _ _ _ _ s (add_age_score_entries-Extends self r)
        (add_round_robin_entries-Extends self r)
  run_strategy-Extends SubsetStrategy.deficit_score s =
      with_reserve-Extends self max_entries _ _ _ _ s (add_deficit_score_entries-Extends self r)
        (add_round_robin_entries-Extends self r)
  run_strategy-Extends SubsetStrategy.cluster_score s =
      with_reserve-Extends self max_entries _ _ _ _ s (add_cluster_score_entries-Extends self r)
        (add_round_robin_entries-Extends self r)
  run_strategy-Extends SubsetStrategy.hybrid s = select_hybrid-Extends s
  run_strategy-Extends SubsetStrategy.cluster_hybrid s =
      with_reserve-Extends self max_entries _ _ _ _ s (add_cluster_recent_entries-Extends self r)
        (add_round_robin_entries-Extends self r)
  run_strategy-Extends SubsetStrategy.full s = add_round_robin_entries-Extends self r _ s

  empty-IsPart : IsPart self max_entries empty
  unfolding find
  empty-IsPart = record {
    sound = λ k s h. cc;
    stamped = λ k h. cc;
    fits = omega arith;
    ordered = λ _. tt;
  }

  preferred-IsPart : 0 < max_entries → IsPart self max_entries (preferred shuffle self r)
  unfolding preferred
  preferred-IsPart h =
      if_cases (IsPart self max_entries) (r.preferred_node == n.empty) (λ _. empty-IsPart)
        (λ _. (add_entry-Extends self max_entries r.preferred_node empty h).part empty-IsPart)

  self-IsPart : size self ≤ max_entries → IsPart self max_entries self
  self-IsPart h = record { sound = λ k s e. e; stamped = λ k e. refl; fits = h; ordered = λ s. s }

  -- Whatever the strategy but `Full`, the selection is a part of the vector: each entry is one of
  -- the vector's with its sequence number and its time of update, there are at most `maxEntries`,
  -- and they are in key order if the vector is.
  pub select_subset-IsPart :
      is_full r.strategy ≡ false → IsPart self max_entries (select_subset shuffle self r)
  unfolding select_subset
  select_subset-IsPart h =
      if_cases (IsPart self max_entries) (nat_eq max_entries 0 || nat_eq (size self) 0)
        (λ _. empty-IsPart)
        (λ e.
          if_cases (IsPart self max_entries) (is_full r.strategy || leb (size self) max_entries)
            (λ f. self-IsPart (ground arith))
            (λ f.
              (run_strategy-Extends r.strategy (preferred shuffle self r)).part
                (preferred-IsPart (ground arith))))

  preferred-has :
      (r.preferred_node == n.empty) ≡ false
      → has self r.preferred_node ≡ true
      → has (preferred shuffle self r) r.preferred_node ≡ true
  unfolding preferred
  preferred-has h g = rw (h, preferred) (add_entry_took self r.preferred_node empty g)

  nonempty :
      0 < max_entries
      → has self r.preferred_node ≡ true
      → (nat_eq max_entries 0 || nat_eq (size self) 0) ≡ true
      → ⊥
  nonempty pos g e = ground (arith, find-length r.preferred_node self.map)

  -- If `maxEntries` is not 0, the preferred node is selected, when it is not the empty name and the
  -- vector has it.
  pub select_subset_prefers :
      0 < max_entries
      → (r.preferred_node == n.empty) ≡ false
      → has self r.preferred_node ≡ true
      → has (select_subset shuffle self r) r.preferred_node ≡ true
  unfolding select_subset
  select_subset_prefers pos h g =
      let Selects : VersionVector K → Type 0 = λ s. has s r.preferred_node ≡ true in
      if_cases Selects (nat_eq max_entries 0 || nat_eq (size self) 0)
        (λ e. absurd (nonempty pos g e))
        (λ e.
          if_cases Selects (is_full r.strategy || leb (size self) max_entries) (λ f. g)
            (λ f.
              (run_strategy-Extends r.strategy (preferred shuffle self r)).keeps r.preferred_node
                (preferred-has h g)))

  module _ (permutes : Permutes shuffle) (sorted : IsSorted self.map)
      (enough : max_entries ≤ size self) where
    top_up-fills :
        (s : VersionVector K)
        → max_entries ≤ size (top_up max_entries (add_round_robin_entries self r) s)
    unfolding top_up when
    top_up-fills s =
        let rotate = add_round_robin_entries self r in
        let fill = add_round_robin_entries-Filling self r sorted enough in
        if_cases (λ t. max_entries ≤ size t) (ltb (size s) max_entries)
          {x = rotate (max_entries - size s) s} {y = s}
          (λ e. fill (max_entries - size s) s (ground arith)) (λ e. ground arith)

    run_strategy-fills :
        (strategy : SubsetStrategy) (s : VersionVector K)
        → max_entries ≤ size (run_strategy shuffle self r strategy s)
    unfolding run_strategy with_reserve with_quota select_hybrid
    run_strategy-fills SubsetStrategy.recent s =
        add_recent_entries-Filling self max_entries sorted enough max_entries _ (omega arith)
    run_strategy-fills SubsetStrategy.adaptive_recent_score s =
        add_recent_entries-Filling self max_entries sorted enough max_entries s (omega arith)
    run_strategy-fills SubsetStrategy.random s =
        fill_nodes-fills self max_entries sorted enough _ s
          λ P old a. Permutes-All shuffle permutes P _ (ordered_nodes self) a
    run_strategy-fills SubsetStrategy.round_robin s =
        add_round_robin_entries-Filling self r sorted enough max_entries s (omega arith)
    run_strategy-fills SubsetStrategy.full s =
        add_round_robin_entries-Filling self r sorted enough max_entries s (omega arith)
    run_strategy-fills SubsetStrategy.score s =
        add_score_entries-Filling self r sorted enough _ s (omega arith)
    run_strategy-fills SubsetStrategy.sticky_recent s = top_up-fills _
    run_strategy-fills SubsetStrategy.recent_novelty_quota s = top_up-fills _
    run_strategy-fills SubsetStrategy.recent_random_quota s = top_up-fills _
    run_strategy-fills SubsetStrategy.age_score s = top_up-fills _
    run_strategy-fills SubsetStrategy.deficit_score s = top_up-fills _
    run_strategy-fills SubsetStrategy.cluster_score s = top_up-fills _
    run_strategy-fills SubsetStrategy.hybrid s = top_up-fills _
    run_strategy-fills SubsetStrategy.cluster_hybrid s = top_up-fills _

  -- For every strategy but `Full` the selection has exactly `maxEntries` entries, or all of the
  -- vector's if it has fewer; the vector's map is in key order and `shuffle` permutes.
  pub size-select_subset :
      Permutes shuffle
      → IsSorted self.map
      → is_full r.strategy ≡ false
      → size (select_subset shuffle self r) ≡ min max_entries (size self)
  unfolding select_subset
  size-select_subset permutes sorted h =
      let Exact : VersionVector K → Type 0 = λ s. size s ≡ min max_entries (size self) in
      if_cases Exact (nat_eq max_entries 0 || nat_eq (size self) 0) (λ e. none_left e)
        (λ e.
          if_cases Exact (is_full r.strategy || leb (size self) max_entries) (λ f. ground arith)
            (λ f. exact e (ground arith)))
    where
      none_left :
          (nat_eq max_entries 0 || nat_eq (size self) 0) ≡ true → 0 ≡ min max_entries (size self)
      none_left e = elim (Bool-cases (nat_eq max_entries 0)) [
        | inl f ↦ ground arith
        | inr f ↦ ground arith
      ]

      exact :
          (nat_eq max_entries 0 || nat_eq (size self) 0) ≡ false
          → max_entries < size self
          → size (run_strategy shuffle self r r.strategy (preferred shuffle self r))
            ≡ min max_entries (size self)
      exact e g =
          let full =
            run_strategy-fills permutes sorted (omega arith) r.strategy
              (preferred shuffle self r) in
          let part =
            (run_strategy-Extends r.strategy (preferred shuffle self r)).part
              (preferred-IsPart (ground arith)) in
          omega (arith, part.fits)
