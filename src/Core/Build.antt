-- ===== src/Core/Build.antt =====
-- What a Sync Interest carries: `getStateVectorLimit` and `buildSyncVector`.
pub mod Limit
pub mod Rounds
mod Tests
use mathlib.Core.List
use m_svs.Base.{
  ℕ, zero, suc, ◌+◌, ◌-◌, ◌/◌, ◌%◌, ◌^◌, Bool, true, false, not, ◌&&◌, ◌||◌, List, [], ◌∷◌, length,
  leb, ltb, ◌==◌ as nat_eq, min, max, if◌then◌else◌, some_or,
}
use m_svs.Std.Ord.{Ord, ◌≺◌}
use m_svs.Std.Map.{Map, find, insert}
use m_svs.Std.Sort.{sort}
use m_svs.Names.{Name}
use m_svs.Double.{Double, ◌⊕◌, ◌⊖◌, ◌⊗◌, ◌⊘◌, num, dec, fmin, fclamp}
use m_svs.VersionVector.{VersionVector, SubsetStrategy, size, has, get_last_update}
use m_svs.VersionVector.Subset.{Request, ordered_nodes, more_recent}
use m_svs.VersionVector.Select.{is_full, select_subset}
use m_svs.Core.State.{Core}

abbrev pub is_random : SubsetStrategy → Bool
is_random SubsetStrategy.random = true
is_random _ = false

abbrev pub is_adaptive : SubsetStrategy → Bool
is_adaptive SubsetStrategy.adaptive_recent_score = true
is_adaptive _ = false

abbrev pub is_sticky : SubsetStrategy → Bool
is_sticky SubsetStrategy.sticky_recent = true
is_sticky _ = false

abbrev pub is_quota : SubsetStrategy → Bool
is_quota SubsetStrategy.recent_novelty_quota = true
is_quota SubsetStrategy.recent_random_quota = true
is_quota _ = false

abbrev pub is_hybrid : SubsetStrategy → Bool
is_hybrid SubsetStrategy.hybrid = true
is_hybrid SubsetStrategy.cluster_hybrid = true
is_hybrid _ = false

abbrev pub is_scored : SubsetStrategy → Bool
is_scored SubsetStrategy.score = true
is_scored SubsetStrategy.cluster_score = true
is_scored SubsetStrategy.age_score = true
is_scored SubsetStrategy.deficit_score = true
is_scored _ = false

module _ {D : Type 0} ⦃d : Double D⦄ where
  abbrev pub zero_one : D → D
  zero_one x = fclamp x (dec 0 1) (dec 10 1)

  -- min(limit - 1, max(min(least, limit - 1), ceil(limit * ratio)))
  unfoldable pub hold_budget : ℕ → ℕ → D → ℕ
  hold_budget limit least ratio =
      min (limit - 1) (max (min least (limit - 1)) (d.ceil_size (num limit ⊗ zero_one ratio)))

module _ {K D : Type 0} ⦃d : Double D⦄ where
  abbrev pub topology_pressure : Core K D → D
  topology_pressure c = fmin (dec 10 1) (c.network_diameter_ms ⊘ dec 2500 1)

  -- The entries that the ratio, or the square root, asks for.
  unfoldable pub scaled_entries : Core K D → ℕ → ℕ
  scaled_entries c total = max 1 (
      if d.lt (dec 0 1) c.state_vector_ratio
      then d.ceil_size (num total ⊗ c.state_vector_ratio)
      else max c.recent_state_vector_entries (d.ceil_size (dec 20 1 ⊗ d.sqrt (num total))))

  -- The floor and the growth of coordinated sync.
  unfoldable pub coordinated_entries : Core K D → ℕ → ℕ → ℕ
  coordinated_entries c total scaled =
      let hotness = zero_one (dec 6 1 ⊗ c.hotspot_score ⊕ dec 4 1 ⊗ c.expected_hotspot_ratio) in
      let pressure =
        zero_one
          (dec 55 2 ⊗ c.link_loss_rate ⊕ dec 25 2 ⊗ topology_pressure c ⊕ dec 35 2 ⊗ hotness) in
      let floor_entries = min total (
        max ((c.recent_state_vector_entries + c.hybrid_min_fair_entries) % 2 ^ 64)
          (min c.max_state_vector_entries 8)) in
      d.ceil_size (num (max scaled floor_entries) ⊗ (dec 10 1 ⊕ dec 22 2 ⊗ pressure))

  unfoldable pub get_state_vector_limit : Core K D → ℕ → ℕ
  get_state_vector_limit c total =
      let scaled = scaled_entries c total in
      let grown =
        (if c.enable_coordinated_sync then coordinated_entries c total scaled else scaled) in
      if nat_eq total 0
      then 0
      else if is_full c.state_vector_strategy
      then total
      else min total (min c.max_state_vector_entries grown)

  unfoldable pub repair_pressure : Core K D → ℕ → ℕ → D
  repair_pressure c limit total =
      let coverage =
        (if ltb 0 total then dec 10 1 ⊖ fmin (dec 10 1) (num limit ⊘ num total) else dec 0 1) in
      let stress = dec 10 1 ⊖ zero_one c.hotspot_score in
      zero_one (dec 55 2 ⊗ coverage ⊕ dec 25 2 ⊗ c.link_loss_rate ⊕ dec 20 2 ⊗ stress)

  -- The strategy of this round and the score rounds that stay forced.
  unfoldable pub effective_strategy : Core K D → ℕ → ℕ → SubsetStrategy × ℕ
  effective_strategy c limit total =
      let burst = c.adaptive_score_burst_remaining in
      if not (is_adaptive c.state_vector_strategy)
      then (c.state_vector_strategy, burst)
      else if ltb 0 burst
      then (SubsetStrategy.score, burst - 1)
      else if d.le (zero_one c.adaptive_score_threshold) (repair_pressure c limit total)
      then (
        SubsetStrategy.score,
        if ltb 0 c.adaptive_score_rounds then c.adaptive_score_rounds - 1 else 0,
      )
      else (SubsetStrategy.recent, burst)

  unfoldable pub round_hotness : Core K D → D
  round_hotness c = zero_one (
      dec 6 1 ⊗ c.hotspot_score ⊕ dec 25 2 ⊗ c.activity_score ⊕ dec 15 2 ⊗ c.expected_hotspot_ratio)

  unfoldable pub fair_entries : Core K D → SubsetStrategy → ℕ → ℕ
  fair_entries c strategy limit =
      if c.enable_coordinated_sync
        && (is_hybrid strategy || is_scored strategy)
        && d.lt (round_hotness c) (dec 35 2)
      then min (max 1 (c.hybrid_min_fair_entries + 1)) (max 1 (limit / 3))
      else c.hybrid_min_fair_entries

  -- The arguments of `selectSubset`, tuned to the load in coordinated sync.
  unfoldable pub round_request : Core K D → ℕ → ℕ → SubsetStrategy → Map K ℕ → Request K D
  round_request c limit selector strategy rounds =
      let hotness = round_hotness c in
      let topology = topology_pressure c in
      let hybrid = c.enable_coordinated_sync && is_hybrid strategy in
      let scored = c.enable_coordinated_sync && is_scored strategy in
      let sticks =
        is_sticky c.state_vector_strategy
        && not (nat_eq (length c.last_selected_nodes) 0)
        && ltb 1 limit in
      let quota = is_quota c.state_vector_strategy && ltb 1 limit in
      record {
        max_entries = limit;
        recent_entries = c.recent_state_vector_entries;
        start_index = selector;
        preferred_node = c.id;
        strategy = strategy;
        hot_ratio =
            if hybrid
            then fclamp
                (c.hybrid_hot_ratio
                  ⊕ dec 12 2 ⊗ hotness
                  ⊕ dec 8 2 ⊗ c.link_loss_rate
                  ⊖ dec 3 2 ⊗ topology)
                (dec 55 2) (dec 92 2)
            else c.hybrid_hot_ratio;
        min_fair_entries = fair_entries c strategy limit;
        score_seq_weight =
            if scored
            then fclamp (c.score_seq_weight ⊕ dec 10 2 ⊗ hotness) (dec 10 2) (dec 70 2)
            else c.score_seq_weight;
        score_recent_weight =
            if scored
            then fclamp (c.score_recent_weight ⊕ dec 8 2 ⊗ c.link_loss_rate ⊕ dec 5 2 ⊗ topology)
                (dec 15 2) (dec 75 2)
            else c.score_recent_weight;
        score_fair_weight =
            if scored
            then fclamp
                (c.score_fair_weight ⊕ (if d.lt hotness (dec 35 2) then dec 10 2 else dec 3 2))
                (dec 10 2) (dec 50 2)
            else c.score_fair_weight;
        score_preferred_boost =
            if scored
            then fclamp (c.score_preferred_boost ⊕ dec 15 2 ⊗ hotness) (dec 20 2) (dec 120 2)
            else c.score_preferred_boost;
        sticky_entries = if sticks then c.last_selected_nodes else [];
        sticky_budget =
            if sticks then hold_budget limit c.sticky_min_hold c.sticky_hold_ratio else 0;
        novelty_base_entries = if quota then c.last_selected_nodes else [];
        novelty_budget =
            if quota then hold_budget limit c.recent_quota_min_entries c.recent_quota_ratio else 0;
        score_compensation_rounds = rounds;
      }

module _ {K : Type 0} ⦃o : Ord K⦄ where
  -- for (nid : m_vv) m_scoreUnselectedRounds[nid] = 0;
  unfoldable pub zero_rounds : Map K ℕ → Map K ℕ → Map K ℕ
  zero_rounds [] rounds = rounds
  zero_rounds ((nid, seq) ∷ rest) rounds = zero_rounds rest (insert nid 0 rounds)

  -- The erase loop: counts of nodes that the vector lacks go.
  unfoldable pub known_rounds : VersionVector K → Map K ℕ → Map K ℕ
  known_rounds vv [] = []
  known_rounds vv ((nid, n) ∷ rest) =
      if has vv nid then (nid, n) ∷ known_rounds vv rest else known_rounds vv rest

  -- The last loop: 0 for what is selected, one more for what is not.
  unfoldable pub count_rounds : VersionVector K → Map K ℕ → Map K ℕ → Map K ℕ
  count_rounds selected [] rounds = rounds
  count_rounds selected ((nid, seq) ∷ rest) rounds =
      count_rounds selected rest
        (insert nid (if has selected nid then 0 else suc (some_or (find nid rounds) 0)) rounds)

module _ {K D : Type 0} ⦃o : Ord K⦄ ⦃n : Name K⦄ ⦃d : Double D⦄
    (shuffle : ℕ → List K → List K) where
  -- `draw` is the number that m_rng() gives.
  unfoldable pub build_partial : ℕ → ℕ → Core K D → VersionVector K × Core K D
  build_partial draw limit c =
      let total = size c.vv in
      let selector = (if is_random c.state_vector_strategy then draw else c.state_vector_cursor) in
      let (strategy, burst) = effective_strategy c limit total in
      let rounds = known_rounds c.vv c.score_unselected_rounds in
      let partial = select_subset shuffle c.vv (round_request c limit selector strategy rounds) in
      (
        partial,
        record c {
          adaptive_score_burst_remaining = burst;
          state_vector_cursor =
              if ltb 0 total && not (is_random strategy)
              then (c.state_vector_cursor + limit) % total
              else c.state_vector_cursor;
          last_selected_nodes = sort (more_recent partial) (ordered_nodes partial);
          score_unselected_rounds = count_rounds partial c.vv.map rounds;
        },
      )

  unfoldable pub build_sync_vector : ℕ → Core K D → VersionVector K × Core K D
  build_sync_vector draw c =
      let total = size c.vv in
      let limit = get_state_vector_limit c total in
      if leb total limit || is_full c.state_vector_strategy
      then (c.vv, record c { score_unselected_rounds = zero_rounds c.vv.map [] })
      else build_partial draw limit c
