-- ===== src/Mapping/Wire.antt =====
-- `MappingList::encode` and its decoding constructor, on the elements that ndn-cxx parses a block
-- into. The type of the outer block is written and not read.
use mathlib.Core.List
use m_svs.Base.{ℕ, ◌≡◌, refl, sym, ap, ◌∙◌, List, [], ◌∷◌, ◌++◌, Option, some, none}
use m_svs.Tlv.{Elements, Decoded, decoded, tlv_error, out_of_range, seq_no_type}
use m_svs.Mapping.{MappingEntryPair, MappingList}

-- An element of the list: a name, or an entry with its parts, or another element.
pub data Item (E : Type 0) : Type 0 where
  name_item : E → Item E
  entry_item : List E → Item E
  other_item : Item E

module _ {E : Type 0} where
  -- Each block is put before those that are there.
  unfoldable pub prepend_blocks : List E → List E → List E
  prepend_blocks [] enc = enc
  prepend_blocks (block ∷ rest) enc = prepend_blocks rest (block ∷ enc)

  prepend_blocks-reverse :
      (blocks enc : List E) → prepend_blocks blocks enc ≡ List.reverse_aux blocks enc
  unfolding prepend_blocks
  prepend_blocks-reverse [] enc = refl
  prepend_blocks-reverse (block ∷ rest) enc = prepend_blocks-reverse rest (block ∷ enc)

module _ {K E : Type 0} ⦃e : Elements K E⦄ where
  unfoldable pub encode_mapping : ℕ × MappingEntryPair K E → Item E
  encode_mapping (seq, (name, blocks)) =
      Item.entry_item (e.of_number seq_no_type seq ∷ e.of_name name ∷ prepend_blocks blocks [])

  unfoldable pub encode_pairs : List (ℕ × MappingEntryPair K E) → List (Item E) → List (Item E)
  encode_pairs [] enc = enc
  encode_pairs (pair ∷ rest) enc = encode_pairs rest (encode_mapping pair ∷ enc)

  unfoldable pub encode_list : MappingList K E → List (Item E)
  encode_list list = Item.name_item (e.of_name list.node_id) ∷ encode_pairs list.pairs []

module _ {K E : Type 0} where
  abbrev pub flipped : ℕ × MappingEntryPair K E → ℕ × MappingEntryPair K E
  flipped (seq, (name, blocks)) = (seq, (name, List.reverse blocks))

  unfoldable pub read_mapping : Option ℕ → Option K → List E → Decoded (ℕ × MappingEntryPair K E)
  read_mapping none name blocks = tlv_error
  read_mapping (some seq) none blocks = tlv_error
  read_mapping (some seq) (some name) blocks = decoded (seq, (name, blocks))

module _ {K E : Type 0} ⦃e : Elements K E⦄ where
  unfoldable pub decode_mapping : List E → Decoded (ℕ × MappingEntryPair K E)
  decode_mapping [] = out_of_range
  decode_mapping (a ∷ []) = elim (e.read_number a) [ none ↦ tlv_error | some seq ↦ out_of_range ]
  decode_mapping (a ∷ b ∷ blocks) = read_mapping (e.read_number a) (e.read_name b) blocks

  -- The loop, with the list so far.
  unfoldable pub decode_items : List (Item E) → MappingList K E → Decoded (MappingList K E)
  decode_items [] list = decoded list
  decode_items (Item.name_item a ∷ rest) list = elim (e.read_name a) [
    | none ↦ tlv_error
    | some nid ↦ decode_items rest (record list { node_id = nid })
  ]
  decode_items (Item.entry_item parts ∷ rest) list = elim (decode_mapping parts) [
    | decoded pair ↦ decode_items rest (record list { pairs = list.pairs ++ pair ∷ [] })
    | tlv_error ↦ tlv_error
    | out_of_range ↦ out_of_range
  ]
  decode_items (Item.other_item ∷ rest) list = decode_items rest list

  encode_pairs-reverse :
      (pairs done : List (ℕ × MappingEntryPair K E))
      → encode_pairs pairs (List.map encode_mapping done)
        ≡ List.map encode_mapping (List.reverse_aux pairs done)
  unfolding encode_pairs
  encode_pairs-reverse [] done = refl
  encode_pairs-reverse (pair ∷ rest) done = encode_pairs-reverse rest (pair ∷ done)

  decode-encode_mapping :
      (seq : ℕ) (name : K) (blocks : List E)
      → decode_mapping (e.of_number seq_no_type seq ∷ e.of_name name ∷ prepend_blocks blocks [])
        ≡ decoded (seq, (name, List.reverse blocks))
  unfolding decode_mapping read_mapping
  decode-encode_mapping seq name blocks =
      rw (e.number_lem seq_no_type seq, e.name_lem name, prepend_blocks-reverse blocks []) refl

  decode-encode_mappings :
      (pairs : List (ℕ × MappingEntryPair K E)) (list : MappingList K E)
      → decode_items (List.map encode_mapping pairs) list
        ≡ decoded (record list { pairs = list.pairs ++ List.map flipped pairs })
  unfolding decode_items encode_mapping
  decode-encode_mappings [] list =
      ap (λ l. decoded (record list { pairs = l })) (sym (List.append-nil list.pairs))
  decode-encode_mappings ((seq, (name, blocks)) ∷ rest) list =
      let pair : ℕ × MappingEntryPair K E = (seq, (name, List.reverse blocks)) in
      rw (decode_items, decode-encode_mapping seq name blocks)
        (decode-encode_mappings rest (record list { pairs = list.pairs ++ pair ∷ [] })
          ∙ ap (λ l. decoded (record list { pairs = l }))
              (List.append_assoc list.pairs (pair ∷ []) (List.map flipped rest)))

  -- Decoding what `encode` makes gives the node and the mappings, but the mappings in reverse order
  -- and each one's additional blocks in reverse order.
  pub decode_items-encode_list :
      (list start : MappingList K E)
      → decode_items (encode_list list) (record start { pairs = [] })
        ≡ decoded
            (record { node_id = list.node_id; pairs = List.map flipped (List.reverse list.pairs) })
  unfolding encode_list decode_items
  decode_items-encode_list list start =
      rw (e.name_lem list.node_id, encode_pairs-reverse list.pairs [])
        (decode-encode_mappings (List.reverse list.pairs)
          (record { node_id = list.node_id; pairs = [] }))
