-- ===== src/Mapping.antt =====
-- ndn-svs/mapping-provider.{hpp,cpp}: `class MappingProvider`, which keeps the application name of
-- each publication. `B` is an additional block. Where nothing is answered, also because a call
-- throws, the result is `none`.
pub mod Lookup
pub mod Wire
pub mod Exchange
mod Tests
use m_svs.Base.{
  ℕ, zero, suc, ◌+◌, ◌-◌, ◌^◌, ltb, max, Bool, List, [], ◌∷◌, Option, some, none, is_some,
  if◌then◌else◌,
}
use m_svs.Std.Ord.{Ord}
use m_svs.Std.Map.{Map, find, insert}
use m_svs.Names.{Components}
use m_svs.Core.Merge.{MissingDataInfo}

-- `MappingEntryPair`: the application name and the additional blocks.
abbrev pub MappingEntryPair : Type 0 → Type 0 → Type 0
MappingEntryPair K B = K × List B

pub record MappingList (K B : Type 0) : Type 0 where
  pub node_id : K
  pub pairs : List (ℕ × MappingEntryPair K B)

pub record MappingProvider (K B : Type 0) : Type 0 where
  pub sync_prefix : K
  pub map : Map K (MappingEntryPair K B)

module _ {K : Type 0} ⦃c : Components K⦄ where
  unfoldable pub get_mapping_query_data_name : K → MissingDataInfo K → K
  get_mapping_query_data_name sync_prefix info =
      c.append_number info.high
        (c.append_number info.low (c.append_mapping (c.append info.node_id sync_prefix)))

  unfoldable pub query_from : K → K → Option ℕ → Option ℕ → Option (MissingDataInfo K)
  query_from sync_prefix name (some low) (some high) = some (record {
    node_id = c.drop_last (3 + c.size sync_prefix) name;
    low = low;
    high = high;
    incoming_face = 0;
  })
  query_from sync_prefix name _ _ = none

  -- The incoming face, which the code leaves unset, is 0.
  unfoldable pub parse_mapping_query_data_name : K → K → Option (MissingDataInfo K)
  parse_mapping_query_data_name sync_prefix name =
      query_from sync_prefix name (c.number_at 1 name) (c.number_at 0 name)

module _ {K B : Type 0} ⦃o : Ord K⦄ ⦃c : Components K⦄ where
  unfoldable pub insert_mapping :
      K → ℕ → MappingEntryPair K B → MappingProvider K B → MappingProvider K B
  insert_mapping node_id seq_no entry p = record p {
    map = insert (c.append_number seq_no node_id) entry p.map;
  }

  unfoldable pub get_mapping : K → ℕ → MappingProvider K B → Option (MappingEntryPair K B)
  get_mapping node_id seq_no p = find (c.append_number seq_no node_id) p.map

  -- The loop, from `i` on for so many rounds. It gives up at the first mapping that is missing.
  unfoldable pub collect :
      K → ℕ → ℕ → MappingProvider K B → Option (List (ℕ × MappingEntryPair K B))
  collect node_id i zero p = some []
  collect node_id i (suc rounds) p =
      let rest = collect node_id (suc i) rounds p in
      elim (get_mapping node_id i p) [
        | none ↦ none
        | some mapping ↦ elim rest [ none ↦ none | some pairs ↦ some ((i, mapping) ∷ pairs) ]
      ]

  unfoldable pub answer_from :
      K → Option (List (ℕ × MappingEntryPair K B)) → Option (MappingList K B)
  answer_from node_id none = none
  answer_from node_id (some []) = none
  answer_from node_id (some (pair ∷ pairs)) =
      some (record { node_id = node_id; pairs = pair ∷ pairs })

  -- The numbers of a query have 64 bits. Up to the largest of them the loop does not end by its
  -- condition, but starts again from 0, and it can be left only without a reply.
  unfoldable pub answer_query :
      Option (MissingDataInfo K) → MappingProvider K B → Option (MappingList K B)
  answer_query none p = none
  answer_query (some query) p =
      let last = max query.high query.low in
      let found = collect query.node_id query.low (suc last - query.low) p in
      if ltb (suc last) (2 ^ 64) then answer_from query.node_id found else none

  -- The content of the Data that is put, for an Interest of the name `name`.
  unfoldable pub on_mapping_query : K → MappingProvider K B → Option (MappingList K B)
  on_mapping_query name p = answer_query (parse_mapping_query_data_name p.sync_prefix name) p

  -- The loop of `onDataValidated`: a mapping that is there stays.
  unfoldable pub add_mappings :
      K → List (ℕ × MappingEntryPair K B) → MappingProvider K B → MappingProvider K B
  add_mappings node_id [] p = p
  add_mappings node_id ((seq, mapping) ∷ rest) p =
      add_mappings node_id rest
        (if is_some (get_mapping node_id seq p) then p else insert_mapping node_id seq mapping p)
