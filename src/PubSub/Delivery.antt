-- ===== src/PubSub/Delivery.antt =====
-- From `publish` at one node to the callbacks of another.
pub mod Segments
use mathlib.Core.List
use m_svs.Base.{
  ℕ, suc, ◌+◌, ◌%◌, ◌^◌, ◌/◌, ◌≤◌, ◌<◌, ◌≡◌, refl, ap, ◌∙◌, true, false, List, [], ◌∷◌, ◌++◌, none,
  is_some, length, ltb, arith, Bool-cases, inl, inr,
}
use m_svs.Std.Ord.{Ord, pair_ord, nat_ord}
use m_svs.Std.Map.{IsSorted}
use m_svs.Names.{Name, Components}
use m_svs.Double.{Double}
use m_svs.Core.Handlers.{Env, get_seq_no}
use m_svs.Sync.{
  Data, Interest, SyncBase, DataStore, publisher, publish_data, insert_data_segment, data_tlv,
}
use m_svs.PubSub.{max_data_size, publish_segments}
use m_svs.PubSub.Segments.{length-publish_segments}
use m_svs.PubSub.State.{InnerData, SvsPubSub, PubSubCall}
use m_svs.PubSub.Blocks.{Timestamps, Encapsulation}
use m_svs.PubSub.Updates.Queued.{queue_of}
use m_svs.PubSub.Receive.{on_sync_data}
use m_svs.PubSub.Receive.Delivered.{whole, Gone, on_sync_data_delivers}
use m_svs.PubSub.Publish.{
  Publisher, producer, publish_packet, insert_segments, publish_segmented, publish,
}

module _ {K : Type 0} ⦃c : Components K⦄ (naming : K → ℕ → K) where
  abbrev pub segment_name : K → ℕ → ℕ → K
  segment_name nid seq_no i = c.append_segment i (c.append_version 0 (naming nid seq_no))

module _ {K D X S T : Type 0} ⦃store : DataStore K X S⦄ where
  abbrev Answered : Interest K → SyncBase K D X S T → Type 0
  Answered interest b = is_some (store.find interest b.data_store) ≡ true

module _ {K A D X S T : Type 0} ⦃o : Ord K⦄ ⦃n : Name K⦄ ⦃c : Components K⦄ ⦃d : Double D⦄
    ⦃e : Encapsulation K A X⦄ ⦃store : DataStore K X S⦄ (naming : K → ℕ → K) where
  insert_segments_keep :
      (name nid : K) (seq_no fresh final_block i : ℕ) (l : List (List A)) (interest : Interest K)
      (b : SyncBase K D X S T)
      → Answered interest b
      → Answered interest (insert_segments naming name nid seq_no fresh final_block i l b)
  unfolding insert_segments insert_data_segment
  insert_segments_keep name nid seq_no fresh final_block i [] interest b h = h
  insert_segments_keep name nid seq_no fresh final_block i (content ∷ rest) interest b h =
      insert_segments_keep name nid seq_no fresh final_block (suc i) rest interest _
        (store.finds_old interest b.data_store _ h)

  insert_segments_serve :
      (name nid : K) (seq_no fresh final_block i j : ℕ) (l : List (List A)) (interest : Interest K)
      (b : SyncBase K D X S T)
      → interest.name ≡ segment_name naming nid seq_no j
      → i ≤ j
      → j < i + length l
      → Answered interest (insert_segments naming name nid seq_no fresh final_block i l b)
  unfolding insert_segments
  insert_segments_serve name nid seq_no fresh final_block i j [] interest b same l h =
      absurd (omega arith)
  insert_segments_serve name nid seq_no fresh final_block i j (content ∷ rest) interest b same l h =
      elim (Bool-cases (ltb i j)) [
        | inl later ↦
            insert_segments_serve name nid seq_no fresh final_block (suc i) j rest interest _ same
              (ground arith) (omega arith)
        | inr first ↦
            insert_segments_keep name nid seq_no fresh final_block (suc i) rest interest _ (
              unfold insert_data_segment in
              store.finds_new interest b.data_store _ (
                store.matches_name interest _
                  (same ∙ ap (segment_name naming nid seq_no) (ground arith))))
      ]

module _ {K B A D X S T : Type 0} ⦃o : Ord K⦄ ⦃n : Name K⦄ ⦃c : Components K⦄ ⦃d : Double D⦄
    ⦃t : Timestamps B⦄ ⦃e : Encapsulation K A X⦄ ⦃store : DataStore K X S⦄ (naming : K → ℕ → K)
    (shuffle : ℕ → List K → List K) where
  pub publish_serves :
      (env : Env) (now_us : ℕ) (name : K) (value : List A) (node_prefix : K) (fresh : ℕ)
      (blocks : List B) (p : Publisher K B A D X S T) (i : ℕ) (interest : Interest K)
      → ltb max_data_size (length value) ≡ true
      → i ≤ length value / max_data_size
      → interest.name
        ≡ segment_name naming
            (producer node_prefix p)
            ((get_seq_no (producer node_prefix p) p.svsync.core + 1) % 2 ^ 64)
            i
      → let later = (publish naming shuffle env now_us name value node_prefix fresh blocks p).0 in
        is_some (store.find interest later.svsync.data_store) ≡ true
  unfolding publish publish_segmented
  publish_serves env now_us name value node_prefix fresh blocks p i interest big last same =
      let nid = producer node_prefix p in
      let seq = (get_seq_no nid p.svsync.core + 1) % 2 ^ 64 in
      rw big (
        insert_segments_serve naming name nid seq fresh (length value / max_data_size) 0 i
          (publish_segments value) interest p.svsync same (omega arith)
          (omega (arith, length-publish_segments value, last)))

  -- The packet of a value that fits in one is put to the face, and a node that fetches it and accepts
  -- it gives the value, under the name that was published, to each subscription for which the
  -- publication is queued, in order and once; then it is neither queued nor being fetched there. The
  -- maps of that node are in key order.
  pub publish_delivers :
      (env : Env) (now_us : ℕ) (name : K) (value : List A) (node_prefix : K) (fresh : ℕ)
      (blocks : List B) (p : Publisher K B A D X S T) (publication : K × ℕ) (s : SvsPubSub K B A)
      → ltb max_data_size (length value) ≡ false
      → IsSorted s.fetch_map
      → IsSorted s.fetching_map
      → let (later, seq) =
          publish naming shuffle env now_us name value node_prefix fresh blocks p in
        ((packet : Data K X) × (later.svsync.put ≡ packet ∷ p.svsync.put)
          × (packet.name ≡ naming (publisher naming (producer node_prefix p) p.svsync) seq)
          × ((on_sync_data true packet publication s).calls
              ≡ s.calls
                ++ List.map
                    (λ sub. PubSubCall.deliver sub (whole name value publication))
                    (queue_of publication s))
          × Gone publication (on_sync_data true packet publication s))
  unfolding publish publish_packet publish_data
  publish_delivers env now_us name value node_prefix fresh blocks p publication s small sorted
        fetching =
      let id = publisher naming (producer node_prefix p) p.svsync in
      let inner : InnerData K A = record { name = name; content = value; final_block = none } in
      let packet : Data K X = record {
        name = naming id ((get_seq_no id p.svsync.core + 1) % 2 ^ 64);
        content = e.wire_encode inner fresh;
        content_type = data_tlv;
        freshness_ms = fresh;
        final_block = none;
      } in
      let (calls, gone) =
        on_sync_data_delivers packet name value fresh publication s refl refl sorted fetching in
      rw small (packet, refl, refl, calls, gone)
