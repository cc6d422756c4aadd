-- ===== src/Mapping/Lookup.antt =====
-- What a query is answered, and what a node learns from an answer.
use m_svs.Base.{
  ℕ, zero, suc, ◌+◌, ◌-◌, ◌≤◌, ◌<◌, ◌≡◌, refl, sym, ap, ◌∙◌, max, true, List, [], ◌∷◌, length,
  Option, some, none, is_some, arith, if◌then◌else◌, ◌==◌ as nat_eq, Option-cases, inl, inr, subst,
  ==_iff, ltb, ◌^◌, if_cases,
}
use m_svs.Std.Ord.{Ord}
use m_svs.Std.Map.{find-insert}
use m_svs.Names.{Components}
use m_svs.Core.Merge.{MissingDataInfo}
use m_svs.Mapping.{
  MappingEntryPair, MappingList, MappingProvider, get_mapping_query_data_name, query_from,
  parse_mapping_query_data_name, insert_mapping, get_mapping, collect, answer_from, answer_query,
  on_mapping_query, add_mappings,
}

module _ {K : Type 0} ⦃c : Components K⦄ where
  -- The query that a name stands for is read back from it, but for the incoming face.
  pub parse-get_mapping_query_data_name :
      (sync_prefix : K) (info : MissingDataInfo K)
      → parse_mapping_query_data_name sync_prefix (get_mapping_query_data_name sync_prefix info)
        ≡ some (record info { incoming_face = 0 })
  unfolding parse_mapping_query_data_name get_mapping_query_data_name query_from
  parse-get_mapping_query_data_name sync_prefix info =
      let a = c.append info.node_id sync_prefix in
      let b = c.append_mapping a in
      let l = c.append_number info.low b in
      let i = c.size sync_prefix in
      let owner : c.drop_last (3 + i) (c.append_number info.high l) ≡ info.node_id =
        ap (λ n. c.drop_last n (c.append_number info.high l)) (omega arith)
        ∙ (c.drop_number (suc (suc i)) info.high l
            ∙ (c.drop_number (suc i) info.low b
                ∙ (c.drop_mapping i a ∙ c.drop_append info.node_id sync_prefix))) in
      rw (c.earlier_number 0 info.high l, c.last_number info.low b, c.last_number info.high l)
        (ap
          (λ n. some (record { node_id = n; low = info.low; high = info.high; incoming_face = 0 }))
          owner)

module _ {K B : Type 0} ⦃o : Ord K⦄ ⦃c : Components K⦄ where
  -- The pairs are the mappings of the publications from `i` on.
  abbrev pub Maps : K → ℕ → List (ℕ × MappingEntryPair K B) → MappingProvider K B → Type 0
  Maps node_id i [] p = Unit {0}
  Maps node_id i ((seq, mapping) ∷ rest) p =
      (seq ≡ i) × (get_mapping node_id i p ≡ some mapping) × Maps node_id (suc i) rest p

  abbrev pub AllMapped : K → ℕ → ℕ → MappingProvider K B → Type 0
  AllMapped node_id low high p =
      (s : ℕ) → low ≤ s → s ≤ high → is_some (get_mapping node_id s p) ≡ true

  abbrev Found : K → ℕ → ℕ → MappingProvider K B → Option (List (ℕ × MappingEntryPair K B)) → Type 0
  Found node_id i rounds p none = Unit {0}
  Found node_id i rounds p (some pairs) = (length pairs ≡ rounds) × Maps node_id i pairs p

  collect-Found :
      (node_id : K) (i rounds : ℕ) (p : MappingProvider K B)
      → Found node_id i rounds p (collect node_id i rounds p)
  unfolding collect
  collect-Found node_id i zero p = (refl, tt)
  collect-Found node_id i (suc rounds) p = elim (Option-cases (get_mapping node_id i p)) [
    | inl e ↦ rw (e, Found) tt
    | inr (m, e) ↦ elim (Option-cases (collect node_id (suc i) rounds p)) [
      | inl f ↦ rw (e, f, Found) tt
      | inr (pairs, f) ↦
          let later =
            subst (Found node_id (suc i) rounds p) f (collect-Found node_id (suc i) rounds p) in
          rw (e, f, Found) (ap suc later.0, (refl, e, later.1))
    ]
  ]

  collect_complete :
      (node_id : K) (i rounds : ℕ) (p : MappingProvider K B)
      → ((s : ℕ) → i ≤ s → s < i + rounds → is_some (get_mapping node_id s p) ≡ true)
      → is_some (collect node_id i rounds p) ≡ true
  unfolding collect
  collect_complete node_id i zero p h = refl
  collect_complete node_id i (suc rounds) p h = ground (
    arith,
    h i (omega arith) (omega arith),
    collect_complete node_id (suc i) rounds p λ s l m. h s (omega arith) (omega arith),
  )

  abbrev pub Answers : MissingDataInfo K → MappingProvider K B → Option (MappingList K B) → Type 0
  Answers info p none = Unit {0}
  Answers info p (some list) =
      (list.node_id ≡ info.node_id)
      × (length list.pairs ≡ suc (max info.high info.low) - info.low)
      × Maps info.node_id info.low list.pairs p

  answer_from-Answers :
      (info : MissingDataInfo K) (p : MappingProvider K B)
      (found : Option (List (ℕ × MappingEntryPair K B)))
      → Found info.node_id info.low (suc (max info.high info.low) - info.low) p found
      → Answers info p (answer_from info.node_id found)
  unfolding answer_from
  answer_from-Answers info p none h = tt
  answer_from-Answers info p (some []) h = tt
  answer_from-Answers info p (some (pair ∷ pairs)) h = (refl, h.0, h.1)

  -- The reply to a query holds, in order, the mapping of every publication from `low` up to the
  -- greater of `low` and `high`, and names the node.
  pub on_mapping_query-Answers :
      (info : MissingDataInfo K) (p : MappingProvider K B)
      → Answers info p (on_mapping_query (get_mapping_query_data_name p.sync_prefix info) p)
  unfolding on_mapping_query answer_query
  on_mapping_query-Answers info p = rw (parse-get_mapping_query_data_name p.sync_prefix info) (
      if_cases (Answers info p) (ltb (suc (max info.high info.low)) (2 ^ 64))
        (λ _. answer_from-Answers info p _ (collect-Found info.node_id info.low _ p)) (λ _. tt))

  -- If every publication in the range has a mapping, the query is answered, where the highest number
  -- is not the largest of 64 bits.
  pub on_mapping_query_complete :
      (info : MissingDataInfo K) (p : MappingProvider K B)
      → info.low ≤ info.high
      → info.high + 1 < 2 ^ 64
      → AllMapped info.node_id info.low info.high p
      → is_some (on_mapping_query (get_mapping_query_data_name p.sync_prefix info) p) ≡ true
  unfolding on_mapping_query answer_query answer_from
  on_mapping_query_complete info p range bound mapped =
      let ends : ltb (suc (max info.high info.low)) (2 ^ 64) ≡ true = ground arith in
      rw (parse-get_mapping_query_data_name p.sync_prefix info, ends)
        (answered (collect info.node_id info.low _ p) (collect-Found info.node_id info.low _ p)
          (collect_complete info.node_id info.low _ p λ s l m. mapped s l (omega arith)))
    where
      answered :
          (found : Option (List (ℕ × MappingEntryPair K B)))
          → Found info.node_id info.low (suc (max info.high info.low) - info.low) p found
          → is_some found ≡ true
          → is_some (answer_from info.node_id found) ≡ true
      answered none f h = h
      answered (some []) f h = absurd (omega (arith, f.0))
      answered (some (pair ∷ pairs)) f h = refl

  -- After an insertion the publication has the mapping, and the others have theirs.
  pub get_mapping-insert_mapping :
      (node_id : K) (seq k : ℕ) (entry : MappingEntryPair K B) (p : MappingProvider K B)
      → get_mapping node_id k (insert_mapping node_id seq entry p)
        ≡ (if nat_eq seq k then some entry else get_mapping node_id k p)
  unfolding get_mapping insert_mapping
  get_mapping-insert_mapping node_id seq k entry p =
      let a = c.append_number seq node_id in
      let b = c.append_number k node_id in
      let same : a ≡ b → some seq ≡ some k =
        λ e. sym (c.last_number seq node_id) ∙ (ap (c.number_at 0) e ∙ c.last_number k node_id) in
      ground (arith, find-insert b a entry p.map, o.beq_iff a b, same)

  abbrev pub first_in : ℕ → List (ℕ × MappingEntryPair K B) → Option (MappingEntryPair K B)
  first_in k [] = none
  first_in k ((seq, mapping) ∷ rest) = if nat_eq seq k then some mapping else first_in k rest

  -- What a node knows after an answer: the mapping that it had, or else the first in the list.
  pub get_mapping-add_mappings :
      (node_id : K) (k : ℕ) (list : List (ℕ × MappingEntryPair K B)) (p : MappingProvider K B)
      → get_mapping node_id k (add_mappings node_id list p)
        ≡ (if is_some (get_mapping node_id k p) then get_mapping node_id k p else first_in k list)
  unfolding add_mappings
  get_mapping-add_mappings node_id k [] p = ground arith
  get_mapping-add_mappings node_id k ((seq, mapping) ∷ rest) p = ground (
    arith,
    get_mapping-add_mappings node_id k rest p,
    get_mapping-add_mappings node_id k rest (insert_mapping node_id seq mapping p),
    get_mapping-insert_mapping node_id seq k mapping p,
    ==_iff seq k,
  )
