-- ===== src/PubSub/Publish/Published.antt =====
-- What `publish` leaves behind.

use m_svs.Base.{
  ℕ, suc, ◌+◌, ◌%◌, ◌^◌, ◌/◌, ◌≡◌, refl, ap, ◌∙◌, List, [], ◌∷◌, ◌++◌, some, none, length, ltb,
  if◌then◌else◌, Bool-cases, inl, inr, arith,
}
use m_svs.Std.Ord.{Ord, ◌==◌}
use m_svs.Names.{Name, Components}
use m_svs.Double.{Double}
use m_svs.VersionVector.{get}
use m_svs.Core.State.{Core}
use m_svs.Core.Handlers.{Env, get_seq_no, update_seq_no}
use m_svs.Core.Handlers.Progress.{get-update_seq_no}
use m_svs.Sync.{SyncBase, DataStore, publisher, publish_data, insert_data_segment}
use m_svs.Mapping.{get_mapping}
use m_svs.Mapping.Lookup.{get_mapping-insert_mapping}
use m_svs.PubSub.{max_data_size, publish_segments}
use m_svs.PubSub.State.{InnerData, SvsPubSub}
use m_svs.PubSub.Blocks.{Timestamps, Encapsulation}
use m_svs.PubSub.Publish.{
  Publisher, insert_publication, producer, publish_packet, publish_segmented, insert_segments,
  publish,
}

module _ {K B A : Type 0} ⦃o : Ord K⦄ ⦃n : Name K⦄ ⦃c : Components K⦄ ⦃t : Timestamps B⦄ where
  -- The additional blocks, with the timestamp that the option adds.
  abbrev pub stamped : ℕ → List B → SvsPubSub K B A → List B
  stamped now_us additional s =
      if s.use_timestamp then additional ++ (t.timestamp now_us ∷ []) else additional

  get_mapping-insert_publication :
      (now_us : ℕ) (nid : K) (seq_no : ℕ) (name : K) (additional : List B) (s : SvsPubSub K B A)
      → get_mapping nid seq_no
          (insert_publication now_us nid seq_no name additional s).mapping_provider
        ≡ some (name, stamped now_us additional s)
  unfolding insert_publication
  get_mapping-insert_publication now_us nid seq_no name additional s = ground (
    arith,
    get_mapping-insert_mapping nid seq_no seq_no (name, stamped now_us additional s)
        s.mapping_provider,
  )

module _ {K D : Type 0} ⦃o : Ord K⦄ ⦃n : Name K⦄ where
  -- The entry of a node in the vector: an empty name stands for the node itself.
  abbrev pub entry_of : K → Core K D → K
  entry_of nid core = if nid == n.empty then core.id else nid

module _ {K A D X S T : Type 0} ⦃o : Ord K⦄ ⦃n : Name K⦄ ⦃c : Components K⦄ ⦃d : Double D⦄
    ⦃e : Encapsulation K A X⦄ ⦃store : DataStore K X S⦄ (naming : K → ℕ → K) where
  core-insert_segments :
      (name nid : K) (seq_no fresh final_block i : ℕ) (l : List (List A)) (b : SyncBase K D X S T)
      → (insert_segments naming name nid seq_no fresh final_block i l b).core ≡ b.core
  unfolding insert_segments insert_data_segment
  core-insert_segments name nid seq_no fresh final_block i [] b = refl
  core-insert_segments name nid seq_no fresh final_block i (content ∷ rest) b =
      core-insert_segments name nid seq_no fresh final_block (suc i) rest _

module _ {K B A D X S T : Type 0} ⦃o : Ord K⦄ ⦃n : Name K⦄ ⦃c : Components K⦄ ⦃d : Double D⦄
    ⦃t : Timestamps B⦄ where
  -- What a publication of `name` under the number `seq` leaves: the number is the next of its producer
  -- and is set in the vector and nowhere else, and the provider maps it to the name and the blocks.
  abbrev pub IsPublished :
      ℕ → K → ℕ → K → List B → Publisher K B A D X S T → Publisher K B A D X S T → Type 0
  IsPublished now_us nid seq name additional p later =
      (seq ≡ (get_seq_no nid p.svsync.core + 1) % 2 ^ 64)
      × ((k : K)
          → get later.svsync.core.vv k
            ≡ (if entry_of nid p.svsync.core == k then seq else get p.svsync.core.vv k))
      × (get_mapping nid seq later.pubsub.mapping_provider
          ≡ some (name, stamped now_us additional p.pubsub))

module _ {K B A D X S T : Type 0} ⦃o : Ord K⦄ ⦃n : Name K⦄ ⦃c : Components K⦄ ⦃d : Double D⦄
    ⦃t : Timestamps B⦄ ⦃e : Encapsulation K A X⦄ ⦃store : DataStore K X S⦄ (naming : K → ℕ → K)
    (shuffle : ℕ → List K → List K) where
  publish_packet-IsPublished :
      (env : Env) (now_us : ℕ) (packet : InnerData K A) (node_prefix : K) (fresh : ℕ)
      (blocks : List B) (p : Publisher K B A D X S T)
      → p.svsync.core.id ≡ p.svsync.id
      → let (later, seq) =
          publish_packet naming shuffle env now_us packet fresh node_prefix blocks p in
        IsPublished now_us (producer node_prefix p) seq packet.name blocks p later
  unfolding publish_packet publish_data publisher get_seq_no
  publish_packet-IsPublished env now_us packet node_prefix fresh blocks p same =
      let nid = producer node_prefix p in
      let id = (if nid == n.empty then p.svsync.id else nid) in
      let seq = (get_seq_no id p.svsync.core + 1) % 2 ^ 64 in
      (
        ground (arith, o.beq_iff nid n.empty, o.beq_iff p.svsync.id n.empty),
        λ k. ground (
          arith,
          get-update_seq_no shuffle env seq id k p.svsync.core,
          o.beq_iff nid n.empty,
          o.beq_iff p.svsync.id n.empty,
        ),
        get_mapping-insert_publication now_us nid seq packet.name blocks p.pubsub,
      )

  publish_segmented-IsPublished :
      (env : Env) (now_us : ℕ) (name : K) (value : List A) (node_prefix : K) (fresh : ℕ)
      (blocks : List B) (p : Publisher K B A D X S T)
      → let (later, seq) =
          publish_segmented naming shuffle env now_us name value node_prefix fresh blocks p in
        IsPublished now_us (producer node_prefix p) seq name blocks p later
  unfolding publish_segmented
  publish_segmented-IsPublished env now_us name value node_prefix fresh blocks p =
      let nid = producer node_prefix p in
      let seq = (get_seq_no nid p.svsync.core + 1) % 2 ^ 64 in
      let kept =
        core-insert_segments naming name nid seq fresh (length value / max_data_size) 0
          (publish_segments value) p.svsync in
      (
        refl,
        λ k.
            ap (λ x. get (update_seq_no shuffle env seq nid x).vv k) kept
            ∙ get-update_seq_no shuffle env seq nid k p.svsync.core,
        get_mapping-insert_publication now_us nid seq name blocks p.pubsub,
      )

  -- `publish` gives the next number of the producer, in 64 bits, sets that number and no other one,
  -- and leaves the mapping of the publication to its name with the mapping blocks and the timestamp;
  -- but a value that fits in one packet loses the mapping blocks. The base and the core agree on the
  -- node.
  pub publish-IsPublished :
      (env : Env) (now_us : ℕ) (name : K) (value : List A) (node_prefix : K) (fresh : ℕ)
      (blocks : List B) (p : Publisher K B A D X S T)
      → p.svsync.core.id ≡ p.svsync.id
      → let (later, seq) =
          publish naming shuffle env now_us name value node_prefix fresh blocks p in
        IsPublished now_us
          (producer node_prefix p)
          seq
          name
          (if ltb max_data_size (length value) then blocks else [])
          p
          later
  unfolding publish
  publish-IsPublished env now_us name value node_prefix fresh blocks p same =
      elim (Bool-cases (ltb max_data_size (length value))) [
        | inl big ↦
            rw big (publish_segmented-IsPublished env now_us name value node_prefix fresh blocks p)
        | inr small ↦ rw small (
            publish_packet-IsPublished env now_us
              (record { name = name; content = value; final_block = none }) node_prefix fresh [] p
              same)
      ]
