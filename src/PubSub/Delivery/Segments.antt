-- ===== src/PubSub/Delivery/Segments.antt =====
-- From `publish` of a value that does not fit in one packet to the callbacks of another node.
use mathlib.Core.List
use m_svs.Base.{
  All, ℕ, suc, ◌+◌, ◌%◌, ◌^◌, ◌/◌, ◌≡◌, refl, Bool, true, List, [], ◌∷◌, ◌++◌, Option, some, none,
  length, ltb,
}
use m_svs.Std.Ord.{Ord, pair_ord, nat_ord}
use m_svs.Std.Map.{IsSorted}
use m_svs.Names.{Name, Components}
use m_svs.Double.{Double}
use m_svs.Core.Handlers.{Env, get_seq_no}
use m_svs.Sync.{Data, SyncBase, DataStore, insert_data_segment, data_tlv}
use m_svs.PubSub.{max_data_size, publish_segments}
use m_svs.PubSub.State.{InnerData, SvsPubSub, PubSubCall}
use m_svs.PubSub.Blocks.{Timestamps, Encapsulation}
use m_svs.PubSub.Updates.Queued.{queue_of}
use m_svs.PubSub.Receive.{on_complete}
use m_svs.PubSub.Receive.Delivered.{
  assembled, blobs, packets, drop_segment_name, Gone, on_complete_delivers,
}
use m_svs.PubSub.Publish.{Publisher, producer, insert_segments, publish_segmented, publish}
use m_svs.PubSub.Delivery.{segment_name}

module _ {K X S : Type 0} ⦃store : DataStore K X S⦄ where
  -- The store after these packets were inserted, in order.
  abbrev pub stored_all : List (Data K X) → S → S
  stored_all [] s = s
  stored_all (packet ∷ rest) s = stored_all rest (store.insert packet s)

abbrev pub with_first : {A : Type 0} → Option A → Option (List A) → Option (List A)
with_first (some a) (some rest) = some (a ∷ rest)
with_first _ _ = none

module _ {K A X : Type 0} ⦃e : Encapsulation K A X⦄ where
  -- What is read from the contents of these packets, joined.
  abbrev pub unwrap_all : List (Data K X) → Option (List (InnerData K A))
  unwrap_all [] = some []
  unwrap_all (packet ∷ rest) = with_first (e.unwrap packet.content) (unwrap_all rest)

module _ {K X : Type 0} ⦃c : Components K⦄ (naming : K → ℕ → K) where
  -- The packets are the segments of a publication from the `i`-th on, `final_block` the number of the
  -- last.
  abbrev pub AreSegments : K → ℕ → ℕ → ℕ → List (Data K X) → Type 0
  AreSegments nid seq_no final_block i [] = Unit {0}
  AreSegments nid seq_no final_block i (packet ∷ rest) =
      (packet.name ≡ segment_name naming nid seq_no i)
      × (packet.final_block ≡ some final_block)
      × AreSegments nid seq_no final_block (suc i) rest

module _ {K A D X S T : Type 0} ⦃o : Ord K⦄ ⦃n : Name K⦄ ⦃c : Components K⦄ ⦃d : Double D⦄
    ⦃e : Encapsulation K A X⦄ ⦃store : DataStore K X S⦄ (naming : K → ℕ → K) where
  insert_segments_sent :
      (name nid : K) (seq_no fresh final_block i : ℕ) (l : List (List A)) (b : SyncBase K D X S T)
      → ((sent : List (Data K X)) × ((insert_segments naming name nid seq_no fresh final_block i l
              b).data_store
            ≡ stored_all sent b.data_store)
          × AreSegments naming nid seq_no final_block i sent
          × (unwrap_all sent ≡ some (packets name final_block i l)))
  unfolding insert_segments insert_data_segment
  insert_segments_sent name nid seq_no fresh final_block i [] b = ([], refl, tt, refl)
  insert_segments_sent name nid seq_no fresh final_block i (content ∷ rest) b =
      let segment : InnerData K A = record {
        name = c.append_segment i (c.append_version 0 name);
        content = content;
        final_block = some final_block;
      } in
      let packet : Data K X = record {
        name = segment_name naming nid seq_no i;
        content = e.wire_encode segment fresh;
        content_type = data_tlv;
        freshness_ms = fresh;
        final_block = some final_block;
      } in
      let (sent, same, segments, read) =
        insert_segments_sent name nid seq_no fresh final_block (suc i) rest
          (record b { data_store = store.insert packet b.data_store }) in
      (packet ∷ sent, same, (refl, refl, segments), rw (e.unwrap_wire segment fresh, read) refl)

module _ {K A : Type 0} ⦃c : Components K⦄ where
  packets_valid :
      (valid : InnerData K A → Bool) (name : K) (final_block i : ℕ) (l : List (List A))
      → ((x : InnerData K A) → c.drop_last 2 x.name ≡ name → valid x ≡ true)
      → All (λ (x : InnerData K A). valid x ≡ true) (packets name final_block i l)
  packets_valid valid name final_block i [] h = tt
  packets_valid valid name final_block i (content ∷ rest) h =
      (h _ (drop_segment_name i name), packets_valid valid name final_block (suc i) rest h)

module _ {K B A D X S T : Type 0} ⦃o : Ord K⦄ ⦃n : Name K⦄ ⦃c : Components K⦄ ⦃d : Double D⦄
    ⦃t : Timestamps B⦄ ⦃e : Encapsulation K A X⦄ ⦃store : DataStore K X S⦄ (naming : K → ℕ → K)
    (shuffle : ℕ → List K → List K) where
  -- When a value that does not fit in one packet is published, the packets that are put in the data
  -- store are the segments of the producer's next number, and a node that fetches them in order gives
  -- the value itself, under the name that was published, to each subscription of the publication that
  -- is not for packets, in order and once; then the publication is neither queued nor being fetched
  -- there. The maps of that node are in key order, and its validator accepts the segments of the name.
  pub publish_delivers_segments :
      (env : Env) (now_us : ℕ) (name : K) (value : List A) (node_prefix : K) (fresh : ℕ)
      (blocks : List B) (p : Publisher K B A D X S T) (valid : InnerData K A → Bool)
      (publication : K × ℕ) (s : SvsPubSub K B A)
      → ltb max_data_size (length value) ≡ true
      → ((x : InnerData K A) → c.drop_last 2 x.name ≡ name → valid x ≡ true)
      → IsSorted s.fetch_map
      → IsSorted s.fetching_map
      → let (later, seq) =
          publish naming shuffle env now_us name value node_prefix fresh blocks p in
        ((sent : List (Data K X)) × (later.svsync.data_store ≡ stored_all sent p.svsync.data_store)
          × AreSegments naming (producer node_prefix p) seq (length value / max_data_size) 0 sent
          × ((on_complete valid (unwrap_all sent) publication s).calls
              ≡ s.calls
                ++ List.map
                    (λ sub. PubSubCall.deliver sub (assembled name value publication))
                    (blobs (queue_of publication s)))
          × Gone publication (on_complete valid (unwrap_all sent) publication s))
  unfolding publish publish_segmented
  publish_delivers_segments env now_us name value node_prefix fresh blocks p valid publication s big
        accepts sorted fetching =
      let nid = producer node_prefix p in
      let seq = (get_seq_no nid p.svsync.core + 1) % 2 ^ 64 in
      let last = length value / max_data_size in
      let (sent, same, segments, read) =
        insert_segments_sent naming name nid seq fresh last 0 (publish_segments value) p.svsync in
      let (calls, gone) =
        on_complete_delivers valid name value publication s
          (packets_valid valid name last 0 (publish_segments value) accepts) sorted fetching in
      rw big (sent, same, segments, rw read calls, rw read gone)
