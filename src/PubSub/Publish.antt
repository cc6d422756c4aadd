-- ===== src/PubSub/Publish.antt =====
-- `publish`, `publishPacket` and `insertMapping`, and the extra blocks that carry new mappings in the
-- Sync Interests. The system clock is read once a call; signing is not modelled.
pub mod Published
pub mod Notified
mod Tests
use mathlib.Core.List
use m_svs.Base.{
  ℕ, zero, suc, ◌+◌, ◌-◌, ◌%◌, ◌^◌, ◌/◌, Bool, List, [], ◌∷◌, ◌++◌, Option, some, none, length, ltb,
  if◌then◌else◌, ◌||◌,
}
use m_svs.Std.Ord.{Ord, ◌==◌}
use m_svs.Names.{Name, Components}
use m_svs.Double.{Double}
use m_svs.Tlv.{Elements, Decoded, decoded, tlv_error, out_of_range}
use m_svs.Core.Handlers.{Env, get_seq_no, update_seq_no}
use m_svs.Sync.{SyncBase, DataStore, publish_data, insert_data_segment, data_tlv}
use m_svs.Mapping.{MappingEntryPair, MappingList, MappingProvider, insert_mapping}
use m_svs.Mapping.Wire.{Item, encode_list, decode_items}
use m_svs.PubSub.{max_data_size, publish_segments}
use m_svs.PubSub.State.{InnerData, SvsPubSub}
use m_svs.PubSub.Blocks.{Timestamps, Encapsulation}

-- `SVSPubSub` with the `SVSync` that it owns.
pub record Publisher (K B A D X S T : Type 0) : Type 0 where
  pub pubsub : SvsPubSub K B A
  pub svsync : SyncBase K D X S T

module _ {K B : Type 0} ⦃o : Ord K⦄ ⦃n : Name K⦄ where
  unfoldable pub notify : K → ℕ × MappingEntryPair K B → MappingList K B → MappingList K B
  notify nid pair list =
      if (list.node_id == n.empty) || (list.node_id == nid)
      then record { node_id = nid; pairs = list.pairs ++ (pair ∷ []) }
      else list

module _ {K B A : Type 0} ⦃o : Ord K⦄ ⦃n : Name K⦄ ⦃c : Components K⦄ ⦃t : Timestamps B⦄ where
  -- SVSPubSub::insertMapping, at the time `now_us`
  unfoldable pub insert_publication : ℕ → K → ℕ → K → List B → SvsPubSub K B A → SvsPubSub K B A
  insert_publication now_us nid seq_no name additional s =
      let blocks =
        (if s.use_timestamp then additional ++ (t.timestamp now_us ∷ []) else additional) in
      let entry : MappingEntryPair K B = (name, blocks) in
      record s {
        notification_mapping_list = notify nid (seq_no, entry) s.notification_mapping_list;
        mapping_provider = insert_mapping nid seq_no entry s.mapping_provider;
      }

module _ {K B A D X S T : Type 0} ⦃o : Ord K⦄ ⦃n : Name K⦄ where
  unfoldable pub producer : K → Publisher K B A D X S T → K
  producer node_prefix p = if node_prefix == n.empty then p.pubsub.data_prefix else node_prefix

module _ {K A D X S T : Type 0} ⦃o : Ord K⦄ ⦃n : Name K⦄ ⦃c : Components K⦄ ⦃d : Double D⦄
    ⦃e : Encapsulation K A X⦄ ⦃store : DataStore K X S⦄ (naming : K → ℕ → K) where
  -- The loop of `publish`, from segment `i` on, for these contents.
  unfoldable pub insert_segments :
      K → K → ℕ → ℕ → ℕ → ℕ → List (List A) → SyncBase K D X S T → SyncBase K D X S T
  insert_segments name nid seq_no freshness_ms final_block i [] b = b
  insert_segments name nid seq_no freshness_ms final_block i (content ∷ rest) b =
      let segment : InnerData K A = record {
        name = c.append_segment i (c.append_version 0 name);
        content = content;
        final_block = some final_block;
      } in
      insert_segments name nid seq_no freshness_ms final_block (suc i) rest (
        insert_data_segment naming (e.wire_encode segment freshness_ms) freshness_ms nid seq_no i
          final_block data_tlv b)

module _ {K B A D X S T : Type 0} ⦃o : Ord K⦄ ⦃n : Name K⦄ ⦃c : Components K⦄ ⦃d : Double D⦄
    ⦃t : Timestamps B⦄ ⦃e : Encapsulation K A X⦄ ⦃store : DataStore K X S⦄ (naming : K → ℕ → K)
    (shuffle : ℕ → List K → List K) where
  unfoldable pub publish_packet :
      Env
      → ℕ
      → InnerData K A
      → ℕ
      → K
      → List B
      → Publisher K B A D X S T
      → Publisher K B A D X S T × ℕ
  publish_packet env now_us packet freshness_ms node_prefix mapping_blocks p =
      let nid = producer node_prefix p in
      let (svsync, seq_no) =
        publish_data naming shuffle env (e.wire_encode packet freshness_ms) freshness_ms nid
          data_tlv p.svsync in
      (
        record {
          pubsub = insert_publication now_us nid seq_no packet.name mapping_blocks p.pubsub;
          svsync = svsync;
        },
        seq_no,
      )

  -- The first branch of `publish`.
  unfoldable pub publish_segmented :
      Env → ℕ → K → List A → K → ℕ → List B → Publisher K B A D X S T → Publisher K B A D X S T × ℕ
  publish_segmented env now_us name value node_prefix freshness_ms mapping_blocks p =
      let nid = producer node_prefix p in
      let seq_no = (get_seq_no nid p.svsync.core + 1) % 2 ^ 64 in
      let stored =
        insert_segments naming name nid seq_no freshness_ms (length value / max_data_size) 0
          (publish_segments value) p.svsync in
      (
        record {
          pubsub = insert_publication now_us nid seq_no name mapping_blocks p.pubsub;
          svsync = record stored { core = update_seq_no shuffle env seq_no nid stored.core };
        },
        seq_no,
      )

  -- A value in one packet is published without the mapping blocks.
  unfoldable pub publish :
      Env → ℕ → K → List A → K → ℕ → List B → Publisher K B A D X S T → Publisher K B A D X S T × ℕ
  publish env now_us name value node_prefix freshness_ms mapping_blocks p =
      let packet : InnerData K A = record { name = name; content = value; final_block = none } in
      if ltb max_data_size (length value)
      then publish_segmented env now_us name value node_prefix freshness_ms mapping_blocks p
      else publish_packet env now_us packet freshness_ms node_prefix [] p

module _ {K E A : Type 0} ⦃n : Name K⦄ ⦃x : Elements K E⦄ where
  -- The list is sent and then empty.
  unfoldable pub on_get_extra_data : SvsPubSub K E A → SvsPubSub K E A × List (Item E)
  on_get_extra_data s = (
    record s { notification_mapping_list = record { node_id = n.empty; pairs = [] } },
    encode_list s.notification_mapping_list,
  )

module _ {K E : Type 0} ⦃o : Ord K⦄ ⦃c : Components K⦄ where
  -- The loop of `onRecvExtraData`: a mapping that is there is replaced.
  unfoldable pub insert_received :
      K → List (ℕ × MappingEntryPair K E) → MappingProvider K E → MappingProvider K E
  insert_received node_id [] p = p
  insert_received node_id ((seq, mapping) ∷ rest) p =
      insert_received node_id rest (insert_mapping node_id seq mapping p)

module _ {K E A : Type 0} ⦃o : Ord K⦄ ⦃n : Name K⦄ ⦃c : Components K⦄ ⦃x : Elements K E⦄ where
  unfoldable pub receive_list : Decoded (MappingList K E) → SvsPubSub K E A → SvsPubSub K E A
  receive_list (decoded list) s = record s {
    mapping_provider = insert_received list.node_id list.pairs s.mapping_provider;
  }
  receive_list tlv_error s = s
  receive_list out_of_range s = s

  unfoldable pub on_recv_extra_data : List (Item E) → SvsPubSub K E A → SvsPubSub K E A
  on_recv_extra_data block s =
      receive_list (decode_items block (record { node_id = n.empty; pairs = [] })) s
