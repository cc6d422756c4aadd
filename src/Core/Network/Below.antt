-- ===== src/Core/Network/Below.antt =====
-- Version vectors whose numbers are bounded.
use m_svs.Base.{ℕ, ◌≤◌, [], ◌∷◌, Option, some, none, arith, ltb, if_cases}
use m_svs.Std.Ord.{Ord}
use m_svs.Std.Map.{Map, IsSorted, insert-IsSorted}
use m_svs.VersionVector.{VersionVector, get, set}
use m_svs.Core.Merge.{merge_state_vector, record_entries}
use m_svs.Core.Merge.Maximum.{get-merge_state_vector, get-record_entries}
use m_svs.Core.Merge.Missing.{merge_state_vector-IsSorted}

module _ {K : Type 0} ⦃o : Ord K⦄ where
  -- In key order, and no number above `top`.
  pub record IsBelow (top : K → ℕ) (vv : VersionVector K) : Type 0 where
    pub sorted : IsSorted vv.map
    pub below : (k : K) → get vv k ≤ top k

  abbrev pub IsBelowIf : (K → ℕ) → Option (VersionVector K) → Type 0
  IsBelowIf top none = Unit {0}
  IsBelowIf top (some vv) = IsBelow top vv

  pub merge-IsBelow :
      (now window : ℕ) (top : K → ℕ) (vv other : VersionVector K)
      → IsBelow top vv
      → IsBelow top other
      → IsBelow top (merge_state_vector now window vv other).0
  merge-IsBelow now window top vv other a b = record {
    sorted = merge_state_vector-IsSorted now window vv other a.sorted;
    below = λ k.
        omega (arith, get-merge_state_vector now window vv other k b.sorted, a.below k, b.below k);
  }

  record_entries-IsSorted :
      (now : ℕ) (entries : Map K ℕ) (recorded : VersionVector K)
      → IsSorted recorded.map
      → IsSorted (record_entries now entries recorded).map
  unfolding record_entries set
  record_entries-IsSorted now [] recorded s = s
  record_entries-IsSorted now ((nid, q) ∷ rest) recorded s = record_entries-IsSorted now rest _ (
      if_cases (λ (v : VersionVector K). IsSorted v.map) (ltb (get recorded nid) q)
        (λ _. insert-IsSorted nid q recorded.map s) (λ _. s))

  pub record_entries-IsBelow :
      (now : ℕ) (top : K → ℕ) (other recorded : VersionVector K)
      → IsBelow top other
      → IsBelow top recorded
      → IsBelow top (record_entries now other.map recorded)
  unfolding get
  record_entries-IsBelow now top other recorded a b = record {
    sorted = record_entries-IsSorted now other.map recorded b.sorted;
    below = λ k.
        omega (arith, get-record_entries now other.map recorded k a.sorted, a.below k, b.below k);
  }
