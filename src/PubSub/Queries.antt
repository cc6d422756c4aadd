-- ===== src/PubSub/Queries.antt =====
-- The queries ask for every unknown mapping once.
use m_svs.Base.{
  All, ℕ, zero, suc, ◌+◌, ◌-◌, ◌≤◌, ◌<◌, ◌%◌, ◌^◌, ◌≡◌, ◌&&◌, List, [], ◌∷◌, leb, if◌then◌else◌,
  if_cases, arith,
}
use m_svs.PubSub.{queries, mapping_queries}

-- How many of the ranges hold `s`.
abbrev pub times_asked : ℕ → List (ℕ × ℕ) → ℕ
times_asked s [] = 0
times_asked s ((low, high) ∷ rest) = (if leb low s && leb s high then 1 else 0) + times_asked s rest

wrapped_small : (n : ℕ) → n < 2 ^ 64 → n % 2 ^ 64 ≡ n
wrapped_small n small = omega arith

times_asked-queries :
    (fuel low high s : ℕ)
    → suc high - low ≤ fuel
    → high + 11 < 2 ^ 64
    → times_asked s (queries fuel low high) ≡ (if leb low s && leb s high then 1 else 0)
unfolding queries
times_asked-queries zero low high s h bound = ground arith
times_asked-queries (suc fuel) low high s h bound =
    ground (arith, times_asked-queries fuel ((low + 11) % 2 ^ 64) high s, wrapped_small (low + 11))

queries-short : (fuel low high : ℕ) → All (λ (r : ℕ × ℕ). r.1 - r.0 ≤ 10) (queries fuel low high)
unfolding queries
queries-short zero low high = tt
queries-short (suc fuel) low high =
    if_cases (All (λ (r : ℕ × ℕ). r.1 - r.0 ≤ 10)) (leb low high)
      (λ e. (ground arith, queries-short fuel ((low + 11) % 2 ^ 64) high)) (λ _. tt)

-- Each publication from `low` to `high` is asked for in exactly one query and no other is asked for,
-- and a query spans at most eleven publications. The highest number is more than 11 below 2 ^ 64.
pub mapping_queries_bounds :
    (low high s : ℕ)
    → high + 11 < 2 ^ 64
    → (times_asked s (mapping_queries low high) ≡ (if leb low s && leb s high then 1 else 0))
      × All (λ (r : ℕ × ℕ). r.1 - r.0 ≤ 10) (mapping_queries low high)
unfolding mapping_queries
mapping_queries_bounds low high s bound =
    (times_asked-queries (suc high - low) low high s (omega arith) bound, queries-short _ low high)
