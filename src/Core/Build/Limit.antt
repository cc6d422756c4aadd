-- ===== src/Core/Build/Limit.antt =====
-- How many entries a Sync Interest carries, and which one is never left out.
use m_svs.Base.{sym, some, ℕ, ◌≤◌, ◌<◌, ◌≡◌, true, false, ◌||◌, List, arith, leb, if_cases, min}
use m_svs.Std.Ord.{Ord, ◌==◌}
use m_svs.Std.Map.{IsSorted, find}
use m_svs.Std.Shuffle.{Permutes}
use m_svs.Names.{Name}
use m_svs.Double.{Double}
use m_svs.VersionVector.{VersionVector, size, has}
use m_svs.VersionVector.Select.{is_full}
use m_svs.VersionVector.Extends.{IsPart}
use m_svs.VersionVector.Guarantee.{select_subset-IsPart, select_subset_prefers, size-select_subset}
use m_svs.Core.State.{Core}
use m_svs.Core.Build.{
  get_state_vector_limit, effective_strategy, build_partial, build_sync_vector, round_request,
}

module _ {K D : Type 0} ⦃d : Double D⦄ where
  -- The limit is at most the number of entries, and at most the hard cap unless every entry is sent.
  pub get_state_vector_limit_bounds :
      (c : Core K D) (total : ℕ)
      → (get_state_vector_limit c total ≤ total)
        × (is_full c.state_vector_strategy ≡ false
            → get_state_vector_limit c total ≤ c.max_state_vector_entries)
  unfolding get_state_vector_limit
  get_state_vector_limit_bounds c total = ground arith

  limit_of_full :
      (c : Core K D) (total : ℕ)
      → is_full c.state_vector_strategy ≡ true
      → get_state_vector_limit c total ≡ total
  unfolding get_state_vector_limit
  limit_of_full c total h = ground arith

  effective_strategy_partial :
      (c : Core K D) (limit total : ℕ)
      → is_full c.state_vector_strategy ≡ false
      → is_full (effective_strategy c limit total).0 ≡ false
  unfolding effective_strategy
  effective_strategy_partial c limit total h = ground arith

module _ {K D : Type 0} ⦃o : Ord K⦄ ⦃n : Name K⦄ ⦃d : Double D⦄
    (shuffle : ℕ → List K → List K) where
  size-build_partial :
      (draw limit : ℕ) (c : Core K D)
      → Permutes shuffle
      → IsSorted c.vv.map
      → is_full c.state_vector_strategy ≡ false
      → size (build_partial shuffle draw limit c).0 ≡ min limit (size c.vv)
  unfolding build_partial round_request
  size-build_partial draw limit c permutes sorted h =
      size-select_subset shuffle c.vv _ permutes sorted
        (effective_strategy_partial c limit (size c.vv) h)

  build_partial-IsPart :
      (draw limit : ℕ) (c : Core K D)
      → is_full c.state_vector_strategy ≡ false
      → IsPart c.vv limit (build_partial shuffle draw limit c).0
  unfolding build_partial round_request
  build_partial-IsPart draw limit c h =
      select_subset-IsPart shuffle c.vv _ (effective_strategy_partial c limit (size c.vv) h)

  build_partial-has :
      (draw limit : ℕ) (c : Core K D)
      → 0 < limit
      → (c.id == n.empty) ≡ false
      → has c.vv c.id ≡ true
      → has (build_partial shuffle draw limit c).0 c.id ≡ true
  unfolding build_partial round_request
  build_partial-has draw limit c pos named own = select_subset_prefers shuffle c.vv _ pos named own

  whole_or_part :
      (P : VersionVector K × Core K D → Type 0) (draw : ℕ) (c : Core K D)
      → (get_state_vector_limit c (size c.vv) ≡ size c.vv → (rest : Core K D) → P (c.vv, rest))
      → (is_full c.state_vector_strategy ≡ false
          → get_state_vector_limit c (size c.vv) < size c.vv
          → P (build_partial shuffle draw (get_state_vector_limit c (size c.vv)) c))
      → P (build_sync_vector shuffle draw c)
  unfolding build_sync_vector
  whole_or_part P draw c whole part =
      let total = size c.vv in
      let limit = get_state_vector_limit c total in
      if_cases P (leb total limit || is_full c.state_vector_strategy) (λ e. whole (reached e) _)
        (λ e. part (ground arith) (ground arith))
    where
      reached :
          (leb (size c.vv) (get_state_vector_limit c (size c.vv))
              || is_full c.state_vector_strategy)
            ≡ true
          → get_state_vector_limit c (size c.vv) ≡ size c.vv
      reached e =
          ground (arith, get_state_vector_limit_bounds c (size c.vv), limit_of_full c (size c.vv))

  -- A Sync Interest carries exactly as many entries as the limit says, under every strategy, if the
  -- local map is in key order and `shuffle` permutes.
  pub size-build_sync_vector :
      (draw : ℕ) (c : Core K D)
      → Permutes shuffle
      → IsSorted c.vv.map
      → size (build_sync_vector shuffle draw c).0 ≡ get_state_vector_limit c (size c.vv)
  size-build_sync_vector draw c permutes sorted =
      whole_or_part (λ r. size r.0 ≡ get_state_vector_limit c (size c.vv)) draw c (λ e rest. sym e)
        (λ h l. omega (arith, size-build_partial draw _ c permutes sorted h))

  -- Every entry of a Sync Interest is one of the local vector's, with its number.
  pub find-build_sync_vector :
      (draw : ℕ) (c : Core K D) (k : K) (s : ℕ)
      → find k (build_sync_vector shuffle draw c).0.map ≡ some s
      → find k c.vv.map ≡ some s
  find-build_sync_vector draw c k s =
      whole_or_part (λ r. find k r.0.map ≡ some s → find k c.vv.map ≡ some s) draw c (λ _ rest e. e)
        (λ h l. (build_partial-IsPart draw _ c h).sound k s)

  -- The local node's own entry is always sent, if it has one, its name is not empty and the limit is
  -- not 0.
  pub build_sync_vector-has :
      (draw : ℕ) (c : Core K D)
      → 0 < get_state_vector_limit c (size c.vv)
      → (c.id == n.empty) ≡ false
      → has c.vv c.id ≡ true
      → has (build_sync_vector shuffle draw c).0 c.id ≡ true
  build_sync_vector-has draw c pos named own =
      whole_or_part (λ r. has r.0 c.id ≡ true) draw c (λ _ rest. own)
        (λ h l. build_partial-has draw _ c pos named own)

  -- A Sync Interest is in key order if the local vector is.
  pub build_sync_vector-IsSorted :
      (draw : ℕ) (c : Core K D)
      → IsSorted c.vv.map
      → IsSorted (build_sync_vector shuffle draw c).0.map
  build_sync_vector-IsSorted draw c sorted =
      whole_or_part (λ r. IsSorted r.0.map) draw c (λ _ rest. sorted)
        (λ h l. (build_partial-IsPart draw _ c h).ordered sorted)
