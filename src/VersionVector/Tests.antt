-- ===== src/VersionVector/Tests.antt =====
-- Runs of `selectSubset` on a vector of four nodes, and the guarantees at those inputs.
use mathlib.Core.List
use m_svs.Base.{◌++◌, ℕ, ◌≡◌, refl, List, [], ◌∷◌}
use m_svs.Std.Ord.{nat_ord}
use m_svs.Std.Map.{Map, find, insert, IsSorted}
use m_svs.Std.Sort.{sort}
use m_svs.VersionVector.{SubsetStrategy, VersionVector, size, get_last_update, get}
use m_svs.VersionVector.Subset.{
  add_entry, add_nodes, fill_nodes, recent_nodes, more_recent, more_aged, add_recent_entries,
  add_sticky_entries, add_round_robin_entries, round_robin_order, rotation, add_random_entries,
  add_novelty_entries, novel, contains,
}
use m_svs.VersionVector.Score.{
  add_score_entries, score_candidate, score_weights, boosted, seq_score, compensation_score,
  candidates_from, by_score_recent, rank_from, max_seq_from, max_rounds_from, by_score_aged,
  add_age_score_entries, age_candidate, add_deficit_score_entries, deficit_candidate, fair_score,
  normalize_rank_score,
}
use m_svs.VersionVector.Cluster.{
  add_cluster_score_entries, add_cluster_recent_entries, add_unseen, cluster_rounds, best_from,
  cluster_score, cluster_bonus, cluster_count, increment, count_clusters, extract_cluster_key, seen,
  text_eq,
}
use m_svs.VersionVector.Select.{
  select_subset, preferred, run_strategy, sticky, select_hybrid, hot_target, with_reserve,
  with_quota, main_budget, reserved, top_up, when, fairness_reserve,
}
use m_svs.VersionVector.Extends.{IsPart}
use m_svs.VersionVector.Guarantee.{select_subset-IsPart, size-select_subset}
use m_svs.Double.{fmax, fclamp}
use m_svs.Tlv.{decoded, tlv_error, out_of_range, Block}
use m_svs.VersionVector.Wire.Received.{last_number, find-decode}
use m_svs.VersionVector.Wire.{
  encode_entry, decode_entry, decode_entries, read_entry, encode, decode, decode-encode,
  decode_refuses,
}
use m_svs.Samples.Paths.{Element, a_name, a_number, plain_elements}
use m_svs.Samples.{four_nodes, request, millionths, numbered}

abbrev unshuffled : ℕ → List ℕ → List ℕ
unshuffled seed l = l

abbrev select : ℕ → SubsetStrategy → VersionVector ℕ
select max_entries strategy = select_subset unshuffled four_nodes (request max_entries strategy)

selected : ℕ → SubsetStrategy → Map ℕ ℕ
unfolding select_subset preferred run_strategy sticky select_hybrid hot_target with_reserve
    with_quota main_budget reserved top_up when fairness_reserve add_entry add_nodes fill_nodes
    recent_nodes more_recent more_aged add_recent_entries add_sticky_entries add_round_robin_entries
    round_robin_order rotation add_random_entries add_novelty_entries novel contains
    add_score_entries score_candidate score_weights boosted seq_score compensation_score
    candidates_from by_score_recent rank_from max_seq_from max_rounds_from by_score_aged
    add_age_score_entries age_candidate add_deficit_score_entries deficit_candidate fair_score
    normalize_rank_score add_cluster_score_entries add_cluster_recent_entries add_unseen
    cluster_rounds best_from cluster_score cluster_bonus cluster_count increment count_clusters
    extract_cluster_key seen text_eq fmax fclamp find insert sort get_last_update get
selected max_entries strategy = (select max_entries strategy).map

runs :
    (selected 2 SubsetStrategy.recent ≡ (2, 7) ∷ (3, 2) ∷ [])
    × (selected 2 SubsetStrategy.round_robin ≡ (2, 7) ∷ (3, 2) ∷ [])
    × (selected 3 SubsetStrategy.hybrid ≡ (2, 7) ∷ (3, 2) ∷ (4, 9) ∷ [])
    × (selected 2 SubsetStrategy.score ≡ (2, 7) ∷ (4, 9) ∷ [])
    × (selected 3 SubsetStrategy.age_score ≡ (1, 5) ∷ (2, 7) ∷ (4, 9) ∷ [])
    × (selected 2 SubsetStrategy.cluster_score ≡ (2, 7) ∷ (4, 9) ∷ [])
    × (selected 2 SubsetStrategy.recent_novelty_quota ≡ (2, 7) ∷ (4, 9) ∷ [])
unfolding selected
runs = (refl, refl, refl, refl, refl, refl, refl)

select_subset-IsPart_example : IsPart four_nodes 3 (select 3 SubsetStrategy.cluster_hybrid)
select_subset-IsPart_example =
    select_subset-IsPart unshuffled four_nodes (request 3 SubsetStrategy.cluster_hybrid) refl

size-select_subset_example : size (select 2 SubsetStrategy.cluster_score) ≡ 2
size-select_subset_example =
    size-select_subset unshuffled four_nodes (request 2 SubsetStrategy.cluster_score)
      (λ seed l k. refl) (refl, (refl, (refl, (tt, tt)))) refl

decode-encode_example :
    decode (encode {E = Element ℕ} four_nodes)
    ≡ decoded (record { map = four_nodes.map; last_update = [] })
decode-encode_example = decode-encode (Element ℕ) four_nodes (refl, (refl, (refl, (tt, tt))))

decode_refuses_example :
    let short : Block (Element ℕ) = record { type = 202; elements = a_name 6 ∷ [] } in
    (decode {K = ℕ} {E = Element ℕ} (record { type = 7; elements = [] }) ≡ tlv_error)
    × (decode {K = ℕ} {E = Element ℕ} (record {
      type = 201;
      elements = List.map (encode_entry {K = ℕ}) ((2, 9) ∷ []) ++ (short ∷ []);
    })
        ≡ out_of_range)
decode_refuses_example =
    decode_refuses (Element ℕ) (record { type = 7; elements = [] }) 6 ((2, 9) ∷ []) [] refl

abbrev entry_of : ℕ → ℕ → Block (Element ℕ)
entry_of nid seq = record { type = 202; elements = a_name nid ∷ a_number seq ∷ [] }

-- Out of order, and twice of node 6.
abbrev received : Block (Block (Element ℕ))
received = record { type = 201; elements = entry_of 6 4 ∷ entry_of 2 9 ∷ entry_of 6 3 ∷ [] }

abbrev received_vector : VersionVector ℕ
received_vector = record { map = (2, 9) ∷ (6, 3) ∷ []; last_update = [] }

decoded_received : decode received ≡ decoded received_vector
unfolding decode decode_entries decode_entry read_entry insert
decoded_received = refl

find-decode_example :
    (IsSorted received_vector.map
      × ((k : ℕ) → find k received_vector.map ≡ last_number k received.elements))
find-decode_example = find-decode received received_vector decoded_received
