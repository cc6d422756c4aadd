-- ===== src/VersionVector/Wire/Received.antt =====
-- What decoding gives for any block that it accepts, not only for one that `encode` made.
use m_svs.Base.{
  ℕ, ◌≡◌, refl, ap, ◌∙◌, subst, ◌⊎◌, inl, inr, List, [], ◌∷◌, Option, some, none, arith, Bool-cases,
  if◌then◌else◌, ◌==◌ as nat_eq,
}
use m_svs.Std.Ord.{Ord, ◌==◌}
use m_svs.Std.Map.{Map, insert, find, find-insert, insert-IsSorted, IsSorted}
use m_svs.VersionVector.{VersionVector}
use m_svs.VersionVector.Wire.{decode, decode_entry, decode_entries}
use m_svs.Tlv.{
  Elements, Block, Decoded, decoded, tlv_error, out_of_range, state_vector_type,
  state_vector_entry_type,
}

Decoded-cases :
    {A : Type 0}
    → (x : Decoded A) → (((a : A) × (x ≡ decoded a)) ⊎ ((x ≡ tlv_error) ⊎ (x ≡ out_of_range)))
Decoded-cases (decoded a) = inl (a, refl)
Decoded-cases tlv_error = inr (inl refl)
Decoded-cases out_of_range = inr (inr refl)

abbrev value_or : {A : Type 0} → A → Decoded A → A
value_or a (decoded b) = b
value_or a _ = a

abbrev later_or : Option ℕ → Option ℕ → Option ℕ
later_or none earlier = earlier
later_or (some s) earlier = some s

later_none : (last : Option ℕ) → later_or last none ≡ last
later_none none = refl
later_none (some s) = refl

module _ {K : Type 0} ⦃o : Ord K⦄ where
  abbrev number_in : K → Decoded (K × ℕ) → Option ℕ
  number_in k (decoded (nid, seq)) = if nid == k then some seq else none
  number_in k _ = none

  later_insert :
      (k nid : K) (seq : ℕ) (m : Map K ℕ) (last : Option ℕ)
      → later_or last (find k (insert nid seq m))
        ≡ later_or (later_or last (number_in k (decoded (nid, seq)))) (find k m)
  later_insert k nid seq m none = ground (arith, find-insert k nid seq m)
  later_insert k nid seq m (some s) = refl

module _ {K E : Type 0} ⦃o : Ord K⦄ ⦃e : Elements K E⦄ where
  -- The number of node `k` in the last entry that names it.
  abbrev pub last_number : K → List (Block E) → Option ℕ
  last_number k [] = none
  last_number k (b ∷ rest) = later_or (last_number k rest) (number_in k (decode_entry b.elements))

  abbrev Agrees : List (Block E) → Map K ℕ → VersionVector K → Type 0
  Agrees l m vv =
      IsSorted vv.map × ((k : K) → find k vv.map ≡ later_or (last_number k l) (find k m))

  decode_entries-Agrees :
      (l : List (Block E)) (m : Map K ℕ) (vv : VersionVector K)
      → decode_entries l m ≡ decoded vv
      → IsSorted m
      → Agrees l m vv
  unfolding decode_entries
  decode_entries-Agrees [] m vv h sorted =
      let same : record { map = m; last_update = [] } ≡ vv = ap (value_or vv) h in
      subst (Agrees [] m) same (sorted, λ k. refl)
  decode_entries-Agrees (b ∷ rest) m vv h sorted =
      elim (Bool-cases (nat_eq b.type state_vector_entry_type)) [
        | inl entry ↦ elim (Decoded-cases (decode_entry {K = K} ⦃e = e⦄ b.elements)) [
          | inl ((nid, seq), found) ↦
              let (kept, numbers) =
                decode_entries-Agrees rest (insert nid seq m) vv (rw (entry, found) at h)
                  (insert-IsSorted nid seq m sorted) in
              (kept, λ k. rw found (numbers k ∙ later_insert k nid seq m (last_number k rest)))
          | inr (inl bad) ↦ absurd (cc (rw (entry, bad) at h))
          | inr (inr bad) ↦ absurd (cc (rw (entry, bad) at h))
        ]
        | inr other ↦ absurd (cc (rw other at h))
      ]

  -- The vector that any accepted block decodes to is in key order, and it has for each node the number
  -- in the last entry that names it, and none for a node that no entry names.
  pub find-decode :
      (b : Block (Block E)) (vv : VersionVector K)
      → decode b ≡ decoded vv
      → (IsSorted vv.map × ((k : K) → find k vv.map ≡ last_number k b.elements))
  unfolding decode find
  find-decode b vv h = elim (Bool-cases (nat_eq b.type state_vector_type)) [
    | inl entry ↦
        let (kept, numbers) = decode_entries-Agrees b.elements [] vv (rw entry at h) tt in
        (kept, λ k. numbers k ∙ later_none (last_number k b.elements))
    | inr other ↦ absurd (cc (rw other at h))
  ]
