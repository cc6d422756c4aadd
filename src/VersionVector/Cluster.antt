-- ===== src/VersionVector/Cluster.antt =====
-- ndn-svs/version-vector.cpp, `selectSubset`: the closures that spread the entries over clusters,
-- and `extractClusterKey`. The maps keyed by a cluster are never walked, so their order is left out.
use mathlib.Core.List
use m_svs.Base.{
  ℕ, zero, suc, ◌+◌, ◌-◌, ◌^◌, Bool, true, false, ◌||◌, ◌&&◌, List, [], ◌∷◌, length, take, drop,
  leb, ltb, if◌then◌else◌, ◌==◌ as nat_eq, Option, none, some, some_or,
}
use m_svs.Std.Ord.{Ord}
use m_svs.Std.Map.{Map, find}
use m_svs.Std.Map as Map
use m_svs.Names.{Name}
use m_svs.Double.{Double, ◌⊕◌, ◌⊖◌, ◌⊗◌, num, dec, fmax}
use m_svs.VersionVector.{VersionVector, size, get_last_update}
use m_svs.VersionVector.Subset.{Request, add_entry, add_recent_entries, ordered_nodes, recent_nodes}
use m_svs.VersionVector.Score.{boosted, seq_score, fair_score, normalize_rank_score, rank_from}

abbrev pub Text : Type 0
Text = List ℕ

unfoldable pub text_eq : Text → Text → Bool
text_eq [] [] = true
text_eq (a ∷ as') (b ∷ bs) = nat_eq a b && text_eq as' bs
text_eq _ _ = false

-- text.find(c)
unfoldable pub find_char : ℕ → Text → Option ℕ
find_char c [] = none
find_char c (x ∷ xs) =
    if nat_eq x c then some 0 else elim (find_char c xs) [ none ↦ none | some i ↦ some (suc i) ]

-- text.find_last_of(c)
unfoldable pub find_last : ℕ → Text → Option ℕ
find_last c [] = none
find_last c (x ∷ xs) = elim (find_last c xs) [
  | some i ↦ some (suc i)
  | none ↦ if nat_eq x c then some 0 else none
]

-- The part before the first `c`, if there is such a `c` and it does not come first.
unfoldable pub before_char : ℕ → Text → Option Text
unfolding find_char
before_char c text = elim (find_char c text) [
  | none ↦ none
  | some p ↦ if ltb 0 p then some (take p text) else none
]

unfoldable pub last_component : Text → Text
unfolding find_last
last_component text = elim (find_last b'/' text) [
  | none ↦ text
  | some p ↦ if ltb (p + 1) (length text) then drop (p + 1) text else text
]

unfoldable pub extract_cluster_key : {K : Type 0} ⦃n : Name K⦄ → K → Text
unfolding before_char last_component
extract_cluster_key ⦃n⦄ nid =
    let text = last_component (n.to_uri nid) in
    elim (before_char b'_' text) [ some key ↦ key | none ↦ some_or (before_char b'-' text) text ]

-- std::map<std::string, bool>: the clusters seen.
unfoldable pub seen : Text → List Text → Bool
seen c [] = false
seen c (x ∷ xs) = text_eq x c || seen c xs

-- std::map<std::string, size_t>, with 0 for what is missing.
unfoldable pub cluster_count : List (Text × ℕ) → Text → ℕ
cluster_count [] c = 0
cluster_count ((x, k) ∷ m) c = if text_eq x c then k else cluster_count m c

unfoldable pub increment : Text → List (Text × ℕ) → List (Text × ℕ)
increment c [] = (c, 1) ∷ []
increment c ((x, k) ∷ m) = if text_eq x c then (x, k + 1) ∷ m else (x, k) ∷ increment c m

unfoldable pub count_clusters :
    {K : Type 0} ⦃n : Name K⦄ → Map K ℕ → List (Text × ℕ) → List (Text × ℕ)
count_clusters [] counts = counts
count_clusters ((nid, s) ∷ rest) counts =
    count_clusters rest (increment (extract_cluster_key nid) counts)

pub record Best (K D : Type 0) : Type 0 where
  pub nid : K
  pub score : D
  pub ts : ℕ
  pub added : Bool

abbrev pub time_max : ℕ
time_max = 2 ^ 64 - 1

module _ {K D : Type 0} ⦃o : Ord K⦄ ⦃n : Name K⦄ ⦃d : Double D⦄ where
  module _ (self : VersionVector K) (r : Request K D) where
    -- The loop of `addClusterRecentEntries`; it gives back the budget that is left.
    unfoldable pub add_unseen : List K → List Text → ℕ → VersionVector K → VersionVector K × ℕ
    add_unseen [] clusters budget selected = (selected, budget)
    add_unseen (nid ∷ rest) clusters budget selected =
        let cluster = extract_cluster_key nid in
        let added = add_entry self nid selected in
        let taken = add_unseen rest (cluster ∷ clusters) (budget - 1) added.0 in
        let passed = add_unseen rest clusters budget selected in
        if leb r.max_entries (size selected) || nat_eq budget 0
        then (selected, budget)
        else if seen cluster clusters
        then passed
        else if added.1
        then taken
        else passed

    unfoldable pub add_cluster_recent_entries : ℕ → VersionVector K → VersionVector K
    add_cluster_recent_entries budget selected =
        let clusters = List.map (λ (e : K × ℕ). extract_cluster_key e.0) selected.map in
        let (spread, left) = add_unseen (recent_nodes self) clusters budget selected in
        if nat_eq budget 0 || nat_eq (length (ordered_nodes self)) 0
        then selected
        else if ltb 0 left
        then add_recent_entries self r.max_entries left spread
        else spread

    unfoldable pub cluster_bonus : ℕ → D
    cluster_bonus count =
        if nat_eq count 0 then dec 30 2 else fmax (dec 0 1) (dec 18 2 ⊖ dec 8 2 ⊗ num count)

    unfoldable pub cluster_score : Map K ℕ → List (Text × ℕ) → ℕ → K → D
    cluster_score recent_rank counts i nid =
        let recent =
          normalize_rank_score (some_or (find nid recent_rank) 0) (length (recent_nodes self)) in
        boosted self r nid (
          dec 28 2 ⊗ seq_score self r nid
          ⊕ dec 42 2 ⊗ recent
          ⊕ dec 18 2 ⊗ fair_score self r i
          ⊕ cluster_bonus (cluster_count counts (extract_cluster_key nid)))

    -- The inner loop of `addClusterScoreEntries`: the best node that is not selected yet.
    unfoldable pub best_from : (ℕ → K → D) → VersionVector K → ℕ → List K → Best K D → Best K D
    best_from score_of selected i [] best = best
    best_from score_of selected i (nid ∷ rest) best =
        let score = score_of i nid in
        let ts = get_last_update self nid in
        let better = d.lt best.score score || d.eq score best.score && ltb best.ts ts in
        best_from score_of selected (suc i) rest (
          if Map.has nid selected.map
          then best
          else if better
          then record { nid = nid; score = score; ts = ts; added = true }
          else best)

    abbrev pub no_best : Best K D
    no_best = record { nid = n.empty; score = dec 0 1 ⊖ dec 10 1; ts = time_max; added = false }

    -- while (budget > 0 && selected.size() < maxEntries): each round but the last uses up budget.
    unfoldable pub cluster_rounds :
        Map K ℕ → ℕ → List (Text × ℕ) → VersionVector K → VersionVector K
    cluster_rounds recent_rank zero counts selected = selected
    cluster_rounds recent_rank (suc budget) counts selected =
        let best =
          best_from (cluster_score recent_rank counts) selected 0 (ordered_nodes self) no_best in
        let attempt = add_entry self best.nid selected in
        let next =
          cluster_rounds recent_rank budget (increment (extract_cluster_key best.nid) counts)
            attempt.0 in
        if ltb (size selected) r.max_entries && best.added && attempt.1 then next else selected

    unfoldable pub add_cluster_score_entries : ℕ → VersionVector K → VersionVector K
    add_cluster_score_entries budget selected =
        if nat_eq budget 0 || nat_eq (length (ordered_nodes self)) 0
        then selected
        else cluster_rounds (rank_from 0 (recent_nodes self) []) budget
            (count_clusters selected.map []) selected
