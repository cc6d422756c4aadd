-- ===== src/VersionVector/Score.antt =====
-- ndn-svs/version-vector.cpp, `selectSubset`: the closures that add entries by a score.
use mathlib.Core.List
use m_svs.Base.{
  ℕ, suc, ◌+◌, ◌-◌, ◌%◌, Bool, ◌||◌, ◌&&◌, not, List, [], ◌∷◌, length, leb, ltb, max, if◌then◌else◌,
  ◌==◌ as nat_eq, none, some, some_or,
}
use m_svs.Std.Ord.{Ord, ◌==◌, ◌≺◌}
use m_svs.Std.Map.{Map, find, insert}
use m_svs.Std.Map as Map
use m_svs.Std.Sort.{sort}
use m_svs.Names.{Name}
use m_svs.Double.{Double, ◌⊕◌, ◌⊖◌, ◌⊗◌, ◌⊘◌, num, dec, fmax}
use m_svs.VersionVector.{VersionVector, get, get_last_update}
use m_svs.VersionVector.Subset.{Request, add_nodes, ordered_nodes, recent_nodes, more_aged}

pub record Candidate (K D : Type 0) : Type 0 where
  pub nid : K
  pub score : D
  pub ts : ℕ

-- The default `descending` is true, and no call gives another.
unfoldable pub normalize_rank_score : {D : Type 0} ⦃d : Double D⦄ → ℕ → ℕ → D
normalize_rank_score rank population =
    if leb population 1 then dec 10 1 else dec 10 1 ⊖ num rank ⊘ num (population - 1)

module _ {K : Type 0} ⦃o : Ord K⦄ where
  -- rank[nodes[i]] = i
  unfoldable pub rank_from : ℕ → List K → Map K ℕ → Map K ℕ
  rank_from i [] ranks = ranks
  rank_from i (nid ∷ rest) ranks = rank_from (suc i) rest (insert nid i ranks)

  unfoldable pub max_seq_from : ℕ → Map K ℕ → ℕ
  max_seq_from best [] = best
  max_seq_from best ((nid, seq_no) ∷ rest) = max_seq_from (max best seq_no) rest

  unfoldable pub max_rounds_from : Map K ℕ → ℕ → List K → ℕ
  max_rounds_from rounds best [] = best
  max_rounds_from rounds best (nid ∷ rest) =
      max_rounds_from rounds (max best (some_or (find nid rounds) 0)) rest

module _ {K D : Type 0} ⦃o : Ord K⦄ ⦃n : Name K⦄ ⦃d : Double D⦄ where
  -- One candidate for each node that is not selected yet; `i` is its place in `orderedNodes`.
  unfoldable pub candidates_from :
      (ℕ → K → Candidate K D) → VersionVector K → ℕ → List K → List (Candidate K D)
  candidates_from score_of selected i [] = []
  candidates_from score_of selected i (nid ∷ rest) =
      let later = candidates_from score_of selected (suc i) rest in
      if Map.has nid selected.map then later else score_of i nid ∷ later

  -- Higher score first, then the later update, then the smaller name.
  unfoldable pub by_score_recent : Candidate K D → Candidate K D → Bool
  by_score_recent lhs rhs =
      if not (d.eq lhs.score rhs.score)
      then d.lt rhs.score lhs.score
      else if not (nat_eq lhs.ts rhs.ts)
      then ltb rhs.ts lhs.ts
      else lhs.nid ≺ rhs.nid

  -- Higher score first, then the earlier update, then the smaller name.
  unfoldable pub by_score_aged : Candidate K D → Candidate K D → Bool
  by_score_aged lhs rhs =
      if not (d.eq lhs.score rhs.score)
      then d.lt rhs.score lhs.score
      else if not (nat_eq lhs.ts rhs.ts)
      then ltb lhs.ts rhs.ts
      else lhs.nid ≺ rhs.nid

  abbrev pub nids : List (Candidate K D) → List K
  nids = List.map (λ (c : Candidate K D). c.nid)

  module _ (self : VersionVector K) (r : Request K D) where
    unfoldable pub boosted : K → D → D
    boosted nid score =
        if not (r.preferred_node == n.empty) && nid == r.preferred_node
        then score ⊕ fmax (dec 0 1) r.score_preferred_boost
        else score

    -- seqNo / maxSeq
    unfoldable pub seq_score : K → D
    seq_score nid =
        let max_seq = max_seq_from 0 self.map in
        if ltb 0 max_seq then num (get self nid) ⊘ num max_seq else dec 0 1

    -- The distance of place `i` behind the cursor, as a rank.
    unfoldable pub fair_score : ℕ → D
    fair_score i =
        let count = length (ordered_nodes self) in
        normalize_rank_score ((i + count - r.start_index % count) % count) count

    -- The three weights, normalised to a sum of 1, with defaults where none is positive.
    unfoldable pub score_weights : D × D × D
    score_weights =
        let seq = fmax (dec 0 1) r.score_seq_weight in
        let recent = fmax (dec 0 1) r.score_recent_weight in
        let fair = fmax (dec 0 1) r.score_fair_weight in
        let sum = seq ⊕ recent ⊕ fair in
        if d.le sum (dec 0 1)
        then (dec 35 2 ⊘ dec 10 1, dec 45 2 ⊘ dec 10 1, dec 20 2 ⊘ dec 10 1)
        else (seq ⊘ sum, recent ⊘ sum, fair ⊘ sum)

    unfoldable pub compensation_score : K → D
    compensation_score nid = elim (find nid r.score_compensation_rounds) [
      | none ↦ dec 0 1
      | some rounds ↦
          num rounds
          ⊘ (num (max_rounds_from r.score_compensation_rounds 0 (ordered_nodes self)) ⊕ dec 1 9)
    ]

    unfoldable pub score_candidate : Map K ℕ → ℕ → K → Candidate K D
    score_candidate recent_rank i nid =
        let count = length (recent_nodes self) in
        let rank = some_or (find nid recent_rank) count in
        let recent = (if leb count 1 then dec 10 1 else dec 10 1 ⊖ num rank ⊘ num (count - 1)) in
        let (ws, wr, wf) = score_weights in
        record {
          nid = nid;
          score = boosted nid (ws ⊗ seq_score nid ⊕ wr ⊗ recent ⊕ wf ⊗ compensation_score nid);
          ts = get_last_update self nid;
        }

    unfoldable pub add_score_entries : ℕ → VersionVector K → VersionVector K
    add_score_entries budget selected =
        let ranks = rank_from 0 (recent_nodes self) [] in
        if nat_eq budget 0 || nat_eq (length (ordered_nodes self)) 0
        then selected
        else add_nodes self r.max_entries
            (nids (
              sort by_score_recent
                (candidates_from (score_candidate ranks) selected 0 (ordered_nodes self))))
            budget selected

    unfoldable pub age_candidate : List K → Map K ℕ → ℕ → K → Candidate K D
    age_candidate aged_nodes age_rank i nid =
        let age = normalize_rank_score (some_or (find nid age_rank) 0) (length aged_nodes) in
        record {
          nid = nid;
          score = boosted nid (dec 25 2 ⊗ seq_score nid ⊕ dec 60 2 ⊗ age ⊕ dec 15 2 ⊗ fair_score i);
          ts = get_last_update self nid;
        }

    unfoldable pub add_age_score_entries : ℕ → VersionVector K → VersionVector K
    add_age_score_entries budget selected =
        let aged = sort (more_aged self) (ordered_nodes self) in
        let ranks = rank_from 0 aged [] in
        if nat_eq budget 0 || nat_eq (length (ordered_nodes self)) 0
        then selected
        else add_nodes self r.max_entries
            (nids (
              sort by_score_aged
                (candidates_from (age_candidate aged ranks) selected 0 (ordered_nodes self))))
            budget selected

    unfoldable pub deficit_candidate : Map K ℕ → ℕ → K → Candidate K D
    deficit_candidate recent_rank i nid =
        let max_seq = max_seq_from 0 self.map in
        let deficit =
          (if ltb 0 max_seq then num (max_seq - get self nid) ⊘ num max_seq else dec 0 1) in
        let recent =
          normalize_rank_score (some_or (find nid recent_rank) 0) (length (recent_nodes self)) in
        record {
          nid = nid;
          score = boosted nid (dec 55 2 ⊗ deficit ⊕ dec 25 2 ⊗ recent ⊕ dec 20 2 ⊗ fair_score i);
          ts = get_last_update self nid;
        }

    unfoldable pub add_deficit_score_entries : ℕ → VersionVector K → VersionVector K
    add_deficit_score_entries budget selected =
        let ranks = rank_from 0 (recent_nodes self) [] in
        if nat_eq budget 0 || nat_eq (length (ordered_nodes self)) 0
        then selected
        else add_nodes self r.max_entries
            (nids (
              sort by_score_recent
                (candidates_from (deficit_candidate ranks) selected 0 (ordered_nodes self))))
            budget selected
