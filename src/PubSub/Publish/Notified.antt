-- ===== src/PubSub/Publish/Notified.antt =====
-- The extra block of a Sync Interest brings a receiver the mappings of what was published since the
-- last one.
use mathlib.Core.List
use m_svs.Base.{
  ℕ, ◌≡◌, refl, ap, ◌∙◌, List, [], ◌∷◌, ◌++◌, Option, some, false, subst, Bool-cases, inl, inr,
  if◌then◌else◌, ◌==◌ as nat_eq, arith,
}
use m_svs.Std.Ord.{Ord, ◌==◌}
use m_svs.Std.Map.{find, find-insert}
use m_svs.Sync.Naming.{front_back}
use m_svs.Names.{Name, Components}
use m_svs.Tlv.{Elements}
use m_svs.Mapping.{MappingEntryPair, MappingProvider, get_mapping, insert_mapping}
use m_svs.Mapping.Lookup.{get_mapping-insert_mapping}
use m_svs.Mapping.Wire.{flipped, decode_items-encode_list}
use m_svs.PubSub.State.{SvsPubSub}
use m_svs.PubSub.Publish.{on_get_extra_data, insert_received, receive_list, on_recv_extra_data}

module _ {K E : Type 0} where
  -- The entry that a receiver has for the number `k`: the first of the sender's list, with its blocks
  -- in reverse, or else what it had.
  abbrev pub learnt :
      ℕ
      → List (ℕ × MappingEntryPair K E)
      → Option (MappingEntryPair K E)
      → Option (MappingEntryPair K E)
  learnt k [] known = known
  learnt k ((seq, (name, blocks)) ∷ rest) known =
      if nat_eq seq k then some (name, List.reverse blocks) else learnt k rest known

module _ {K : Type 0} ⦃o : Ord K⦄ ⦃c : Components K⦄ where
  other_node :
      (a b : K) (s t : ℕ) → (a == b) ≡ false → (c.append_number s a == c.append_number t b) ≡ false
  other_node a b s t e = ground (
    arith,
    o.beq_iff a b,
    o.beq_iff (c.append_number s a) (c.append_number t b),
    front_back a b s t,
  )

module _ {K E : Type 0} ⦃o : Ord K⦄ ⦃c : Components K⦄ where
  insert_received-append :
      (node_id : K) (l r : List (ℕ × MappingEntryPair K E)) (p : MappingProvider K E)
      → insert_received node_id (l ++ r) p ≡ insert_received node_id r (insert_received node_id l p)
  unfolding insert_received
  insert_received-append node_id [] r p = refl
  insert_received-append node_id ((seq, mapping) ∷ l) r p = insert_received-append node_id l r _

  insert_received-learnt :
      (node_id : K) (k : ℕ) (pairs : List (ℕ × MappingEntryPair K E)) (p : MappingProvider K E)
      → get_mapping node_id k (insert_received node_id (List.map flipped (List.reverse pairs)) p)
        ≡ learnt k pairs (get_mapping node_id k p)
  unfolding insert_received
  insert_received-learnt node_id k [] p = refl
  insert_received-learnt node_id k ((seq, (name, blocks)) ∷ rest) p =
      let entry : ℕ × MappingEntryPair K E = (seq, (name, blocks)) in
      let before = insert_received node_id (List.map flipped (List.reverse rest)) p in
      let last : List.map flipped (List.reverse (entry ∷ rest))
          ≡ List.map flipped (List.reverse rest) ++ (flipped entry ∷ []) =
        ap (List.map flipped) (List.reverse-cons entry rest)
        ∙ List.map-append flipped (List.reverse rest) (entry ∷ []) in
      let split : insert_received node_id (List.map flipped (List.reverse (entry ∷ rest))) p
          ≡ insert_mapping node_id seq (name, List.reverse blocks) before =
        ap (λ l. insert_received node_id l p) last
        ∙ insert_received-append node_id (List.map flipped (List.reverse rest)) (flipped entry ∷ [])
            p in
      ap (get_mapping node_id k) split
      ∙ ground (
        arith,
        get_mapping-insert_mapping node_id seq k (name, List.reverse blocks) before,
        insert_received-learnt node_id k rest p,
      )

  -- The mappings under any other name stay.
  insert_received-kept :
      (node_id name : K) (pairs : List (ℕ × MappingEntryPair K E)) (p : MappingProvider K E)
      → ((seq : ℕ) → (c.append_number seq node_id == name) ≡ false)
      → find name (insert_received node_id pairs p).map ≡ find name p.map
  unfolding insert_received insert_mapping
  insert_received-kept node_id name [] p other = refl
  insert_received-kept node_id name ((seq, entry) ∷ rest) p other =
      insert_received-kept node_id name rest (insert_mapping node_id seq entry p) other
      ∙ ground (arith, find-insert name (c.append_number seq node_id) entry p.map, other seq)

  get_mapping-insert_received :
      (node_id node : K) (k : ℕ) (pairs : List (ℕ × MappingEntryPair K E)) (p : MappingProvider K E)
      → get_mapping node k (insert_received node_id (List.map flipped (List.reverse pairs)) p)
        ≡ (if node_id == node then learnt k pairs (get_mapping node k p) else get_mapping node k p)
  get_mapping-insert_received node_id node k pairs p =
      let received = insert_received node_id (List.map flipped (List.reverse pairs)) p in
      elim (Bool-cases (node_id == node)) [
        | inl same ↦ rw same (
            subst (λ i. get_mapping i k received ≡ learnt k pairs (get_mapping i k p))
              ((o.beq_iff node_id node).0 same) (insert_received-learnt node_id k pairs p))
        | inr differs ↦ rw differs (
            unfold get_mapping in
            insert_received-kept node_id (c.append_number k node)
              (List.map flipped (List.reverse pairs)) p
              λ seq. other_node node_id node seq k differs)
      ]

module _ {K E A : Type 0} ⦃o : Ord K⦄ ⦃n : Name K⦄ ⦃c : Components K⦄ ⦃x : Elements K E⦄ where
  -- After a node has received the extra block of another, it knows each mapping that was in the
  -- other's notification list, the additional blocks in reverse order; of two for one publication it
  -- knows the earlier one. It keeps its other mappings, of the node that the list names and of every
  -- other one, and the sender's list is empty.
  pub get_mapping-on_recv_extra_data :
      (node : K) (k : ℕ) (sender receiver : SvsPubSub K E A)
      → let list = sender.notification_mapping_list in
        let (later, block) = on_get_extra_data sender in
        ((get_mapping node k (on_recv_extra_data block receiver).mapping_provider ≡ (
            if list.node_id == node
            then learnt k list.pairs (get_mapping node k receiver.mapping_provider)
            else get_mapping node k receiver.mapping_provider))
          × (later.notification_mapping_list.pairs ≡ []))
  unfolding on_get_extra_data on_recv_extra_data receive_list
  get_mapping-on_recv_extra_data node k sender receiver =
      let list = sender.notification_mapping_list in
      (
        rw (decode_items-encode_list list (record { node_id = n.empty; pairs = [] }))
            (get_mapping-insert_received list.node_id node k list.pairs receiver.mapping_provider),
        refl,
      )
