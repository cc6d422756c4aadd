-- ===== src/VersionVector/Phases.antt =====
-- Each closure of `selectSubset` only adds entries of the vector, within `maxEntries`.
use m_svs.Base.{
  ℕ, zero, suc, ◌-◌, List, [], ◌∷◌, arith, leb, ltb, ◌||◌, ◌&&◌, ◌==◌ as nat_eq, Bool-cases, inl,
  inr,
}
use m_svs.Std.Ord.{Ord}
use m_svs.Std.Map.{Map}
use m_svs.Names.{Name}
use m_svs.Double.{Double}
use m_svs.VersionVector.{VersionVector, size}
use m_svs.VersionVector.Subset.{
  Request, add_entry, ordered_nodes, add_recent_entries, add_sticky_entries,
  add_round_robin_entries, add_random_entries, add_novelty_entries,
}
use m_svs.VersionVector.Score.{add_score_entries, add_age_score_entries, add_deficit_score_entries}
use m_svs.VersionVector.Cluster.{
  Text, add_unseen, add_cluster_recent_entries, seen, extract_cluster_key, cluster_rounds,
  add_cluster_score_entries, cluster_score, best_from, no_best,
}
use m_svs.VersionVector.Extends.{
  Extends, Extending, Extends-refl, Extends-trans, add_entry-Extends, guarded_nodes-Extends,
  if-Extends,
}

module _ {K : Type 0} ⦃o : Ord K⦄ (self : VersionVector K) (max_entries : ℕ) where
  pub add_recent_entries-Extends : Extending self max_entries (add_recent_entries self max_entries)
  unfolding add_recent_entries
  add_recent_entries-Extends budget s = guarded_nodes-Extends self max_entries _ _ budget s

module _ {K D : Type 0} ⦃o : Ord K⦄ ⦃n : Name K⦄ ⦃d : Double D⦄ (self : VersionVector K)
    (r : Request K D) where
  pub add_sticky_entries-Extends : Extending self r.max_entries (add_sticky_entries self r)
  unfolding add_sticky_entries
  add_sticky_entries-Extends budget s = guarded_nodes-Extends self r.max_entries _ _ budget s

  pub add_round_robin_entries-Extends :
      Extending self r.max_entries (add_round_robin_entries self r)
  unfolding add_round_robin_entries
  add_round_robin_entries-Extends budget s = guarded_nodes-Extends self r.max_entries _ _ budget s

  pub add_random_entries-Extends :
      (shuffle : ℕ → List K → List K)
      → Extending self r.max_entries (add_random_entries self r shuffle)
  unfolding add_random_entries
  add_random_entries-Extends shuffle budget s =
      guarded_nodes-Extends self r.max_entries _ _ budget s

  pub add_novelty_entries-Extends : Extending self r.max_entries (add_novelty_entries self r)
  unfolding add_novelty_entries
  add_novelty_entries-Extends budget s = guarded_nodes-Extends self r.max_entries _ _ budget s

  pub add_score_entries-Extends : Extending self r.max_entries (add_score_entries self r)
  unfolding add_score_entries
  add_score_entries-Extends budget s = guarded_nodes-Extends self r.max_entries _ _ budget s

  pub add_age_score_entries-Extends : Extending self r.max_entries (add_age_score_entries self r)
  unfolding add_age_score_entries
  add_age_score_entries-Extends budget s = guarded_nodes-Extends self r.max_entries _ _ budget s

  pub add_deficit_score_entries-Extends :
      Extending self r.max_entries (add_deficit_score_entries self r)
  unfolding add_deficit_score_entries
  add_deficit_score_entries-Extends budget s = guarded_nodes-Extends self r.max_entries _ _ budget s

  add_unseen-Extends :
      (nodes : List K) (clusters : List Text) (budget : ℕ) (s : VersionVector K)
      → Extends self r.max_entries s (add_unseen self r nodes clusters budget s).0
  unfolding add_unseen
  add_unseen-Extends [] clusters budget s = Extends-refl self r.max_entries s
  add_unseen-Extends (nid ∷ rest) clusters budget s =
      elim (Bool-cases (leb r.max_entries (size s) || nat_eq budget 0)) [
        | inl e ↦ rw e (Extends-refl self r.max_entries s)
        | inr e ↦ rw e (elim (Bool-cases (seen (extract_cluster_key nid) clusters)) [
          | inl f ↦ rw f (add_unseen-Extends rest clusters budget s)
          | inr f ↦ rw f (elim (Bool-cases (add_entry self nid s).1) [
            | inl g ↦ rw g (
                Extends-trans self r.max_entries
                  (add_entry-Extends self r.max_entries nid s (ground arith))
                  (add_unseen-Extends rest _ (budget - 1) _))
            | inr g ↦ rw g (add_unseen-Extends rest clusters budget s)
          ])
        ])
      ]

  pub add_cluster_recent_entries-Extends :
      Extending self r.max_entries (add_cluster_recent_entries self r)
  unfolding add_cluster_recent_entries
  add_cluster_recent_entries-Extends budget s =
      let spread = add_unseen-Extends _ _ budget s in
      if-Extends self r.max_entries _ s s _ (Extends-refl self r.max_entries s) (
        if-Extends self r.max_entries _ s _ _
          (Extends-trans self r.max_entries spread
            (add_recent_entries-Extends self r.max_entries _ _))
          spread)

  cluster_rounds-Extends :
      (ranks : Map K ℕ) (budget : ℕ) (counts : List (Text × ℕ)) (s : VersionVector K)
      → Extends self r.max_entries s (cluster_rounds self r ranks budget counts s)
  unfolding cluster_rounds
  cluster_rounds-Extends ranks zero counts s = Extends-refl self r.max_entries s
  cluster_rounds-Extends ranks (suc budget) counts s =
      let best =
        best_from self r (cluster_score self r ranks counts) s 0 (ordered_nodes self)
          (no_best self r) in
      let attempt = add_entry self best.nid s in
      elim (Bool-cases (ltb (size s) r.max_entries && best.added && attempt.1)) [
        | inl e ↦ rw e (
            Extends-trans self r.max_entries
              (add_entry-Extends self r.max_entries best.nid s (ground arith))
              (cluster_rounds-Extends ranks budget _ attempt.0))
        | inr e ↦ rw e (Extends-refl self r.max_entries s)
      ]

  pub add_cluster_score_entries-Extends :
      Extending self r.max_entries (add_cluster_score_entries self r)
  unfolding add_cluster_score_entries
  add_cluster_score_entries-Extends budget s =
      if-Extends self r.max_entries _ s s _ (Extends-refl self r.max_entries s)
        (cluster_rounds-Extends _ budget _ s)
