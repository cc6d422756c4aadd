-- ===== src/Mapping/Tests.antt =====
-- A provider that knows three publications of one node.

use m_svs.Base.{some, ℕ, ◌≤◌, ◌≡◌, refl, true, List, [], ◌∷◌, is_some, arith}
use m_svs.Std.Map.{find}
use m_svs.Core.Merge.{MissingDataInfo}
use m_svs.Tlv.{decoded}
use m_svs.Mapping.{
  MappingEntryPair, MappingList, MappingProvider, get_mapping_query_data_name, get_mapping,
  on_mapping_query,
}
use m_svs.Mapping.Lookup.{on_mapping_query-Answers, Answers, on_mapping_query_complete}
use m_svs.Mapping.Exchange.{answered, get_mapping-answered}
use m_svs.Mapping.Wire.{encode_list, decode_items, decode_items-encode_list}
use m_svs.Samples.Paths.{path_ord, paths, Element, a_number, plain_elements}

abbrev node : List ℕ
node = 5 ∷ []

abbrev prefix : List ℕ
prefix = 8 ∷ 9 ∷ []

abbrev entry : ℕ → MappingEntryPair (List ℕ) ℕ
entry s = (s ∷ 1 ∷ [], s ∷ 40 ∷ [])

abbrev provider : MappingProvider (List ℕ) ℕ
provider = record {
  sync_prefix = prefix;
  map = (1 ∷ node, entry 1) ∷ (2 ∷ node, entry 2) ∷ (3 ∷ node, entry 3) ∷ [];
}

abbrev query : MissingDataInfo (List ℕ)
query = record { node_id = node; low = 2; high = 3; incoming_face = 0 }

on_mapping_query-Answers_example :
    Answers query provider (on_mapping_query (get_mapping_query_data_name prefix query) provider)
on_mapping_query-Answers_example = on_mapping_query-Answers query provider

all_mapped : (s : ℕ) → 2 ≤ s → s ≤ 3 → is_some (get_mapping node s provider) ≡ true
unfolding get_mapping find
all_mapped s l h = ground arith

on_mapping_query_complete_example :
    is_some (on_mapping_query (get_mapping_query_data_name prefix query) provider) ≡ true
on_mapping_query_complete_example =
    on_mapping_query_complete query provider (omega arith) (omega arith) all_mapped

abbrev listed : MappingList (List ℕ) (Element (List ℕ))
listed = record {
  node_id = node;
  pairs = (1, (1 ∷ [], a_number 10 ∷ a_number 11 ∷ [])) ∷ (2, (2 ∷ [], a_number 20 ∷ [])) ∷ [];
}

decode_items-encode_list_example :
    decode_items (encode_list listed) (record listed { pairs = [] })
    ≡ decoded (record {
      node_id = node;
      pairs = (2, (2 ∷ [], a_number 20 ∷ [])) ∷ (1, (1 ∷ [], a_number 11 ∷ a_number 10 ∷ [])) ∷ [];
    })
decode_items-encode_list_example = decode_items-encode_list listed listed

abbrev tagged : ℕ → MappingEntryPair (List ℕ) (Element (List ℕ))
tagged s = (s ∷ 1 ∷ [], a_number s ∷ a_number 40 ∷ [])

-- A provider that answers, and one that knows nothing.
abbrev holder : MappingProvider (List ℕ) (Element (List ℕ))
holder = record {
  sync_prefix = prefix;
  map = (1 ∷ node, tagged 1) ∷ (2 ∷ node, tagged 2) ∷ (3 ∷ node, tagged 3) ∷ [];
}

abbrev asker : MappingProvider (List ℕ) (Element (List ℕ))
asker = record { sync_prefix = prefix; map = [] }

all_held : (s : ℕ) → 2 ≤ s → s ≤ 3 → is_some (get_mapping node s holder) ≡ true
unfolding get_mapping find
all_held s l h = ground arith

get_mapping-answered_example :
    let reply = on_mapping_query (get_mapping_query_data_name prefix query) holder in
    get_mapping node 3 (answered query reply asker)
    ≡ some (3 ∷ 1 ∷ [], a_number 40 ∷ a_number 3 ∷ [])
unfolding get_mapping find
get_mapping-answered_example =
    get_mapping-answered query 3 holder asker refl (omega arith) all_held (omega arith)
      (omega arith)
