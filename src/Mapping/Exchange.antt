-- ===== src/Mapping/Exchange.antt =====
-- `fetchNameMapping` at one node and `onMappingQuery` at another.
use mathlib.Core.List
use m_svs.Base.{
  ℕ, suc, ◌+◌, ◌≤◌, ◌<◌, ◌^◌, ◌≡◌, ap, ◌∙◌, subst, true, false, ◌&&◌, List, [], ◌∷◌, ◌++◌, length,
  Option, some, none, is_some, arith, leb, ltb, if◌then◌else◌, ◌==◌ as nat_eq,
}
use m_svs.Std.Ord.{Ord}
use m_svs.Names.{Components}
use m_svs.Double.{ℤ}
use m_svs.Tlv.{Elements, Decoded, decoded, tlv_error, out_of_range}
use m_svs.Core.Merge.{MissingDataInfo}
use m_svs.Fetcher.{Fetcher, express_interest}
use m_svs.Sync.{Interest}
use m_svs.Mapping.{
  MappingEntryPair, MappingList, MappingProvider, get_mapping_query_data_name, get_mapping,
  on_mapping_query, add_mappings,
}
use m_svs.Mapping.Lookup.{
  Maps, AllMapped, Answers, first_in, on_mapping_query-Answers, on_mapping_query_complete,
  get_mapping-add_mappings,
}
use m_svs.Mapping.Wire.{flipped, encode_list, decode_items, decode_items-encode_list}

-- The Interest is for exactly the name of the query.
unfoldable pub mapping_interest : {K : Type 0} → K → Interest K
mapping_interest name = record {
  name = name;
  can_be_prefix = false;
  must_be_fresh = false;
  lifetime_ms = 2000;
}

module _ {K B T : Type 0} ⦃o : Ord K⦄ ⦃c : Components K⦄ where
  -- `fetcher` is the provider's own; `target` tells what the answer is for.
  unfoldable pub fetch_name_mapping :
      ℤ
      → MissingDataInfo K
      → T
      → ℤ
      → MappingProvider K B
      → Fetcher (Interest K × T)
      → Fetcher (Interest K × T)
  fetch_name_mapping n_retries_on_validation_fail info target n_retries p fetcher =
      express_interest n_retries_on_validation_fail
        (mapping_interest (get_mapping_query_data_name p.sync_prefix info), target) n_retries
        fetcher

module _ {K B : Type 0} ⦃o : Ord K⦄ ⦃c : Components K⦄ where
  -- The lambda `onDataValidated`, with the decoded list; it leaves by an exception where that fails.
  unfoldable pub on_mapping_data :
      MissingDataInfo K → Decoded (MappingList K B) → MappingProvider K B → MappingProvider K B
  on_mapping_data info (decoded list) p = add_mappings info.node_id list.pairs p
  on_mapping_data info tlv_error p = p
  on_mapping_data info out_of_range p = p

module _ {K B : Type 0} where
  abbrev pub reversed_blocks : Option (MappingEntryPair K B) → Option (MappingEntryPair K B)
  reversed_blocks none = none
  reversed_blocks (some (name, blocks)) = some (name, List.reverse blocks)

module _ {K B : Type 0} ⦃o : Ord K⦄ ⦃c : Components K⦄ where
  first_in-append :
      (k seq : ℕ) (entry : MappingEntryPair K B) (l : List (ℕ × MappingEntryPair K B))
      → first_in k (l ++ ((seq, entry) ∷ [])) ≡ (
          if is_some (first_in k l)
          then first_in k l
          else (if nat_eq seq k then some entry else none))
  first_in-append k seq entry [] = ground arith
  first_in-append k seq entry ((other, mapping) ∷ l) = ground (arith, first_in-append k seq entry l)

  first_in_reversed :
      (node_id : K) (i k : ℕ) (pairs : List (ℕ × MappingEntryPair K B)) (p : MappingProvider K B)
      → Maps node_id i pairs p
      → first_in k (List.map flipped (List.reverse pairs)) ≡ (
          if leb i k && ltb k (i + length pairs)
          then reversed_blocks (get_mapping node_id k p)
          else none)
  first_in_reversed node_id i k [] p h = ground arith
  first_in_reversed node_id i k ((seq, (name, blocks)) ∷ rest) p (same, known, later) =
      let entry : ℕ × MappingEntryPair K B = (seq, (name, blocks)) in
      let last : List.map flipped (List.reverse (entry ∷ rest))
          ≡ List.map flipped (List.reverse rest) ++ (flipped entry ∷ []) =
        ap (List.map flipped) (List.reverse-cons entry rest)
        ∙ List.map-append flipped (List.reverse rest) (entry ∷ []) in
      let here : reversed_blocks (get_mapping node_id i p) ≡ some (name, List.reverse blocks) =
        ap reversed_blocks known in
      let moved : i ≡ k
          → reversed_blocks (get_mapping node_id k p) ≡ some (name, List.reverse blocks) =
        λ e.
          subst (λ j. reversed_blocks (get_mapping node_id j p) ≡ some (name, List.reverse blocks))
            e here in
      ap (first_in k) last
      ∙ (first_in-append k seq (name, List.reverse blocks) (List.map flipped (List.reverse rest))
          ∙ ground (arith, first_in_reversed node_id (suc i) k rest p later, same, moved))

module _ {K B : Type 0} ⦃o : Ord K⦄ ⦃c : Components K⦄ ⦃e : Elements K B⦄ where
  -- What arrives at the asking node: the list as it is sent and read.
  abbrev pub answered :
      MissingDataInfo K → Option (MappingList K B) → MappingProvider K B → MappingProvider K B
  answered info none p = p
  answered info (some list) p =
      on_mapping_data info
        (decode_items (encode_list list) (record { node_id = info.node_id; pairs = [] })) p

  answered_learnt :
      (info : MissingDataInfo K) (k : ℕ) (reply : Option (MappingList K B))
      (q p : MappingProvider K B)
      → is_some reply ≡ true
      → Answers info q reply
      → info.low ≤ info.high
      → info.low ≤ k
      → k ≤ info.high
      → get_mapping info.node_id k (answered info reply p) ≡ (
          if is_some (get_mapping info.node_id k p)
          then get_mapping info.node_id k p
          else reversed_blocks (get_mapping info.node_id k q))
  unfolding on_mapping_data
  answered_learnt info k none q p some_reply a r l h = ground arith
  answered_learnt info k (some list) q p some_reply (node, size, maps) r l h =
      rw (decode_items-encode_list list (record { node_id = info.node_id; pairs = [] })) (
        ground (
          arith,
          get_mapping-add_mappings info.node_id k (List.map flipped (List.reverse list.pairs)) p,
          first_in_reversed info.node_id info.low k list.pairs q maps,
          size,
        ))

  -- A node that asks another for the mappings of a range, which the other has, knows afterwards each
  -- mapping of the range: its own where it had one, and else the other's, with the additional blocks in
  -- reverse order. Both are of one group, and the highest number is not the largest of 64 bits.
  pub get_mapping-answered :
      (info : MissingDataInfo K) (k : ℕ) (q p : MappingProvider K B)
      → q.sync_prefix ≡ p.sync_prefix
      → info.high + 1 < 2 ^ 64
      → AllMapped info.node_id info.low info.high q
      → info.low ≤ k
      → k ≤ info.high
      → let reply = on_mapping_query (get_mapping_query_data_name p.sync_prefix info) q in
        get_mapping info.node_id k (answered info reply p) ≡ (
          if is_some (get_mapping info.node_id k p)
          then get_mapping info.node_id k p
          else reversed_blocks (get_mapping info.node_id k q))
  get_mapping-answered info k q p group bound mapped l h =
      let reply_to = λ (prefix : K). on_mapping_query (get_mapping_query_data_name prefix info) q in
      answered_learnt info k (reply_to p.sync_prefix) q p
        (subst (λ prefix. is_some (reply_to prefix) ≡ true) group
          (on_mapping_query_complete info q (omega (arith, l, h)) bound mapped))
        (subst (λ prefix. Answers info q (reply_to prefix)) group (on_mapping_query-Answers info q))
        (omega (arith, l, h)) l h
