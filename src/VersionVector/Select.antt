-- ===== src/VersionVector/Select.antt =====
-- ndn-svs/version-vector.cpp, `selectSubset`: the guards, the preferred node and the budgets of
-- each strategy. A phase is a function of its budget and the selection so far.
use m_svs.Base.{
  ℕ, ◌+◌, ◌-◌, ◌%◌, ◌^◌, Bool, ◌||◌, ◌&&◌, List, leb, ltb, min, max, if◌then◌else◌, ◌==◌ as nat_eq,
  true, false,
}
use m_svs.Std.Ord.{Ord, ◌==◌}
use m_svs.Names.{Name}
use m_svs.Double.{Double, ◌⊗◌, num, dec, fclamp}
use m_svs.VersionVector.{VersionVector, SubsetStrategy, size, empty}
use m_svs.VersionVector.Subset.{
  Request, add_entry, fill_nodes, add_recent_entries, add_sticky_entries, add_round_robin_entries,
  add_random_entries, add_novelty_entries, ordered_nodes,
}
use m_svs.VersionVector.Score.{add_score_entries, add_age_score_entries, add_deficit_score_entries}
use m_svs.VersionVector.Cluster.{add_cluster_recent_entries, add_cluster_score_entries}

abbrev pub is_full : SubsetStrategy → Bool
is_full SubsetStrategy.full = true
is_full _ = false

abbrev pub Phase : Type 0 → Type 0
Phase K = ℕ → VersionVector K → VersionVector K

-- maxEntries >= 4 ? min(maxEntries - 1, max(1, minFairEntries)) : 0
unfoldable pub fairness_reserve : ℕ → ℕ → ℕ
fairness_reserve max_entries min_fair =
    if leb 4 max_entries then min (max_entries - 1) (max 1 min_fair) else 0

module _ {K : Type 0} where
  unfoldable pub when :
      Bool → (VersionVector K → VersionVector K) → VersionVector K → VersionVector K
  when test f selected = if test then f selected else selected

  -- if (selected.size() < maxEntries) phase(maxEntries - selected.size());
  unfoldable pub top_up : ℕ → Phase K → VersionVector K → VersionVector K
  top_up max_entries phase selected =
      when (ltb (size selected) max_entries) (phase (max_entries - size selected)) selected

  -- The reserve is spent on the rotation if there is room.
  unfoldable pub reserved : ℕ → ℕ → Phase K → VersionVector K → VersionVector K
  reserved max_entries reserve rotate selected =
      when (ltb 0 reserve && ltb (size selected) max_entries)
        (rotate (min reserve (max_entries - size selected))) selected

  -- What is left for the main phase beside the reserve; all of it, if the reserve leaves nothing.
  unfoldable pub main_budget : ℕ → ℕ → VersionVector K → ℕ
  main_budget max_entries reserve selected =
      if ltb (size selected + reserve) max_entries
      then max_entries - size selected - reserve
      else max_entries - size selected

  -- The plan of AgeScore, DeficitScore, ClusterScore and ClusterHybrid: the main phase, the
  -- reserve, the main phase again, and the rotation.
  unfoldable pub with_reserve : ℕ → ℕ → ℕ → Phase K → Phase K → VersionVector K → VersionVector K
  with_reserve max_entries reserve budget phase rotate selected =
      let first = when (ltb 0 budget) (phase budget) selected in
      let second = reserved max_entries reserve rotate first in
      top_up max_entries rotate (top_up max_entries phase second)

  -- The plan of RecentNoveltyQuota and RecentRandomQuota.
  unfoldable pub with_quota :
      ℕ → ℕ → Phase K → Phase K → Phase K → VersionVector K → VersionVector K
  with_quota max_entries novelty_budget recent fresh rotate selected =
      let quota = min novelty_budget (max_entries - size selected) in
      let recent_budget =
        (if ltb (size selected + quota) max_entries
          then max_entries - size selected - quota
          else 0) in
      let first = when (ltb 0 recent_budget) (recent recent_budget) selected in
      let second = when (ltb 0 quota) (fresh (min quota (max_entries - size first))) first in
      top_up max_entries rotate (top_up max_entries recent second)

module _ {K D : Type 0} ⦃o : Ord K⦄ ⦃n : Name K⦄ ⦃d : Double D⦄ (shuffle : ℕ → List K → List K)
    (self : VersionVector K) (r : Request K D) where
  open r use {max_entries, min_fair_entries, recent_entries}

  -- The number of recent entries that Hybrid aims at.
  unfoldable pub hot_target : VersionVector K → ℕ
  hot_target selected =
      let reserve = fairness_reserve max_entries min_fair_entries in
      let wanted = d.ceil_size (num max_entries ⊗ fclamp r.hot_ratio (dec 50 2) (dec 95 2)) in
      let fitting =
        (if ltb max_entries (wanted + reserve) then max_entries - reserve else wanted) in
      max (max fitting (size selected)) (min max_entries (size selected + max 1 recent_entries))

  unfoldable pub select_hybrid : VersionVector K → VersionVector K
  select_hybrid selected =
      let reserve = fairness_reserve max_entries min_fair_entries in
      let target = hot_target selected in
      let recent = add_recent_entries self max_entries in
      let rotate = add_round_robin_entries self r in
      let first = when (ltb (size selected) target) (recent (target - size selected)) selected in
      let second = reserved max_entries reserve rotate first in
      top_up max_entries rotate (top_up max_entries recent second)

  unfoldable pub sticky : VersionVector K → VersionVector K
  sticky selected =
      add_sticky_entries self r (min r.sticky_budget (max_entries - size selected)) selected

  -- The `switch` over the strategy, from the selection that holds the preferred node.
  unfoldable pub run_strategy : SubsetStrategy → VersionVector K → VersionVector K
  run_strategy SubsetStrategy.recent selected =
      add_recent_entries self max_entries max_entries (sticky selected)
  run_strategy SubsetStrategy.sticky_recent selected =
      let kept = sticky selected in
      top_up max_entries (add_round_robin_entries self r)
        (add_recent_entries self max_entries (max_entries - size kept) kept)
  run_strategy SubsetStrategy.recent_novelty_quota selected =
      with_quota max_entries r.novelty_budget (add_recent_entries self max_entries)
        (add_novelty_entries self r) (add_round_robin_entries self r) selected
  run_strategy SubsetStrategy.recent_random_quota selected =
      with_quota max_entries r.novelty_budget (add_recent_entries self max_entries)
        (add_random_entries self r shuffle) (add_round_robin_entries self r) selected
  run_strategy SubsetStrategy.adaptive_recent_score selected =
      add_recent_entries self max_entries max_entries selected
  run_strategy SubsetStrategy.random selected =
      fill_nodes self max_entries (shuffle (r.start_index % 2 ^ 32) (ordered_nodes self)) selected
  run_strategy SubsetStrategy.round_robin selected =
      add_round_robin_entries self r max_entries selected
  run_strategy SubsetStrategy.score selected =
      add_score_entries self r (max_entries - size selected) selected
  run_strategy SubsetStrategy.age_score selected =
      let reserve = fairness_reserve max_entries min_fair_entries in
      with_reserve max_entries reserve (main_budget max_entries reserve selected)
        (add_age_score_entries self r) (add_round_robin_entries self r) selected
  run_strategy SubsetStrategy.deficit_score selected =
      let reserve = fairness_reserve max_entries min_fair_entries in
      with_reserve max_entries reserve (main_budget max_entries reserve selected)
        (add_deficit_score_entries self r) (add_round_robin_entries self r) selected
  run_strategy SubsetStrategy.cluster_score selected =
      let reserve = fairness_reserve max_entries min_fair_entries in
      with_reserve max_entries reserve (main_budget max_entries reserve selected)
        (add_cluster_score_entries self r) (add_round_robin_entries self r) selected
  run_strategy SubsetStrategy.hybrid selected = select_hybrid selected
  run_strategy SubsetStrategy.cluster_hybrid selected =
      let reserve = fairness_reserve max_entries min_fair_entries in
      let least = min max_entries (if ltb 0 recent_entries then recent_entries else 1) in
      with_reserve max_entries reserve (max (main_budget max_entries reserve selected) least)
        (add_cluster_recent_entries self r) (add_round_robin_entries self r) selected
  run_strategy SubsetStrategy.full selected = add_round_robin_entries self r max_entries selected

  unfoldable pub preferred : VersionVector K
  preferred =
      if r.preferred_node == n.empty then empty else (add_entry self r.preferred_node empty).0

  unfoldable pub select_subset : VersionVector K
  select_subset =
      if nat_eq max_entries 0 || nat_eq (size self) 0
      then empty
      else if is_full r.strategy || leb (size self) max_entries
      then self
      else run_strategy r.strategy preferred
