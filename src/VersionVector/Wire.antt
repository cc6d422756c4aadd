-- ===== src/VersionVector/Wire.antt =====
-- `VersionVector::encode` and the decoding constructor, on the elements that ndn-cxx parses a block
-- into.
pub mod Received
use mathlib.Core.List
use m_svs.Base.{
  ℕ, ◌≡◌, refl, sym, ap, ◌∙◌, true, false, not, List, [], ◌∷◌, ◌++◌, Option, some, none, arith,
  ◌==◌ as nat_eq, if◌then◌else◌, subst,
}
use m_svs.Std.Ord.{Ord, ◌≺◌, ne_of_lt, lt_asymm}
use m_svs.Std.Map.{Map, insert, IsSorted, Above}
use m_svs.VersionVector.{VersionVector}
use m_svs.Tlv.{
  Elements, Block, Decoded, decoded, tlv_error, out_of_range, state_vector_type,
  state_vector_entry_type, seq_no_type,
}

module _ {K : Type 0} where
  unfoldable pub read_entry : Option K → Option ℕ → Decoded (K × ℕ)
  read_entry none seq = tlv_error
  read_entry (some nid) none = tlv_error
  read_entry (some nid) (some seq) = decoded (nid, seq)

module _ {K E : Type 0} ⦃o : Ord K⦄ ⦃e : Elements K E⦄ where
  unfoldable pub encode_entry : K × ℕ → Block E
  encode_entry (nid, seq) = record {
    type = state_vector_entry_type;
    elements = e.of_name nid ∷ e.of_number seq_no_type seq ∷ [];
  }

  -- The buffer is filled from its end, and the loop runs from the map's end.
  unfoldable pub encode : VersionVector K → Block (Block E)
  encode vv = record { type = state_vector_type; elements = List.map encode_entry vv.map }

  -- elements().at(0) as a name and elements().at(1) as a number
  unfoldable pub decode_entry : List E → Decoded (K × ℕ)
  decode_entry [] = out_of_range
  decode_entry (a ∷ []) = elim (e.read_name a) [ none ↦ tlv_error | some nid ↦ out_of_range ]
  decode_entry (a ∷ b ∷ rest) = read_entry (e.read_name a) (e.read_number b)

  -- The loop; the map so far is the accumulator.
  unfoldable pub decode_entries : List (Block E) → Map K ℕ → Decoded (VersionVector K)
  decode_entries [] m = decoded (record { map = m; last_update = [] })
  decode_entries (b ∷ rest) m =
      if not (nat_eq b.type state_vector_entry_type)
      then tlv_error
      else elim (decode_entry b.elements) [
        | decoded (nid, seq) ↦ decode_entries rest (insert nid seq m)
        | tlv_error ↦ tlv_error
        | out_of_range ↦ out_of_range
      ]

  unfoldable pub decode : Block (Block E) → Decoded (VersionVector K)
  decode b =
      if not (nat_eq b.type state_vector_type) then tlv_error else decode_entries b.elements []

module _ {K : Type 0} ⦃o : Ord K⦄ where
  last_key :
      (j k : K) (s : ℕ) (m rest : Map K ℕ)
      → Above j (m ++ (k, s) ∷ rest)
      → IsSorted (m ++ (k, s) ∷ rest)
      → (j ≺ k) ≡ true
  last_key j k s [] rest a h = a
  last_key j k s ((i, q) ∷ m) rest a h = o.lt_trans j i k a (last_key i k s m rest h.0 h.1)

  -- A key above all of the map goes to its end.
  insert-append :
      (k : K) (s : ℕ) (m rest : Map K ℕ)
      → IsSorted (m ++ (k, s) ∷ rest)
      → insert k s m ≡ m ++ (k, s) ∷ []
  unfolding insert
  insert-append k s [] rest h = refl
  insert-append k s ((j, q) ∷ m) rest h =
      let less = last_key j k s m rest h.0 h.1 in
      rw (ne_of_lt j k less, lt_asymm j k less) (ap (◌∷◌ (j, q)) (insert-append k s m rest h.1))

module _ {K : Type 0} (E : Type 0) ⦃o : Ord K⦄ ⦃e : Elements K E⦄ where
  decode-encode_entries :
      (entries m : Map K ℕ)
      → IsSorted (m ++ entries)
      → decode_entries (List.map (encode_entry {E = E}) entries) m
        ≡ decoded (record { map = m ++ entries; last_update = [] })
  unfolding decode_entries decode_entry encode_entry read_entry
  decode-encode_entries [] m h =
      ap (λ (l : Map K ℕ). decoded (record { map = l; last_update = [] })) (sym (List.append-nil m))
  decode-encode_entries ((nid, seq) ∷ rest) m h =
      let moved = List.append_assoc m ((nid, seq) ∷ []) rest in
      rw (e.name_lem nid, e.number_lem seq_no_type seq, insert-append nid seq m rest h)
        (decode-encode_entries rest (m ++ (nid, seq) ∷ []) (subst IsSorted (sym moved) h)
          ∙ ap (λ (l : Map K ℕ). decoded (record { map = l; last_update = [] })) moved)

  -- Decoding what `encode` makes gives the same entries, without times of update; the map is in key
  -- order.
  pub decode-encode :
      (vv : VersionVector K)
      → IsSorted vv.map
      → decode (encode {E = E} vv) ≡ decoded (record { map = vv.map; last_update = [] })
  unfolding decode encode
  decode-encode vv h = decode-encode_entries vv.map [] h

  decode_entries_refuses :
      (nid : K) (entries m : Map K ℕ) (rest : List (Block E))
      → let short : Block E = record {
        type = state_vector_entry_type;
        elements = e.of_name nid ∷ [];
      } in
        decode_entries {E = E} (List.map encode_entry entries ++ (short ∷ rest)) m ≡ out_of_range
  unfolding decode_entries decode_entry encode_entry read_entry
  decode_entries_refuses nid [] m rest = rw (e.name_lem nid) refl
  decode_entries_refuses nid ((k, seq) ∷ entries) m rest =
      rw (e.name_lem k, e.number_lem seq_no_type seq)
        (decode_entries_refuses nid entries (insert k seq m) rest)

  -- A block of another type is refused with ndn::tlv::Error, whatever its elements are, but a state
  -- vector that has, after any entries as they are encoded, one of a name and no number is refused with
  -- std::out_of_range, whatever follows.
  pub decode_refuses :
      (b : Block (Block E)) (nid : K) (entries : Map K ℕ) (rest : List (Block E))
      → let short : Block E = record {
        type = state_vector_entry_type;
        elements = e.of_name nid ∷ [];
      } in
        nat_eq b.type state_vector_type ≡ false
        → ((decode {K = K} {E = E} b ≡ tlv_error)
            × (decode {E = E} ⦃e = e⦄ (record {
              type = state_vector_type;
              elements = List.map encode_entry entries ++ (short ∷ rest);
            })
                ≡ out_of_range))
  unfolding decode
  decode_refuses b nid entries rest other =
      (rw other refl, decode_entries_refuses nid entries [] rest)
