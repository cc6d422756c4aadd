-- ===== src/PubSub/Receive.antt =====
-- `onSyncData`: what becomes of a fetched packet. `accepted` is the verdict of the validator of
-- encapsulated packets, and true if there is none; the callbacks change no subscription meanwhile.
pub mod Delivered
use mathlib.Core.List
use m_svs.Base.{
  ℕ, Bool, true, false, not, ◌&&◌, ◌||◌, List, [], ◌∷◌, ◌++◌, Option, some, none, is_some, some_or,
  ltb, if◌then◌else◌, ◌==◌ as nat_eq,
}
use m_svs.Std.Ord.{Ord, pair_ord, nat_ord}
use m_svs.Std.Map.{find, insert}
use m_svs.Names.{Components}
use m_svs.Sync.{Data, data_tlv}
use m_svs.PubSub.State.{Subscription, InnerData, SubscriptionData, SvsPubSub, PubSubCall}
use m_svs.PubSub.Blocks.{Encapsulation}
use m_svs.PubSub.Segments.{joined}
use m_svs.PubSub.Fetching.{clean_up_fetch}

module _ {K : Type 0} where
  unfoldable pub has_blob_subscriptions : List (Subscription K) → Bool
  has_blob_subscriptions [] = false
  has_blob_subscriptions (sub ∷ rest) =
      not sub.is_packet_subscription || has_blob_subscriptions rest

module _ {K A : Type 0} where
  -- The loop of `returnData` over the subscriptions.
  unfoldable pub deliver_first :
      Bool → SubscriptionData K A → List (Subscription K) → List (PubSubCall K A)
  deliver_first has_final_block sub_data [] = []
  deliver_first has_final_block sub_data (sub ∷ rest) =
      let later = deliver_first has_final_block sub_data rest in
      if sub.is_packet_subscription || not has_final_block
      then PubSubCall.deliver sub sub_data ∷ later
      else later

  -- The loop of `sendFinalBuffer` over the subscriptions.
  unfoldable pub deliver_buffer :
      SubscriptionData K A → List (Subscription K) → List (PubSubCall K A)
  deliver_buffer sub_data [] = []
  deliver_buffer sub_data (sub ∷ rest) =
      let later = deliver_buffer sub_data rest in
      if not sub.is_packet_subscription then PubSubCall.deliver sub sub_data ∷ later else later

  unfoldable pub any_fails : (InnerData K A → Bool) → List (InnerData K A) → Bool
  any_fails valid [] = false
  any_fails valid (d ∷ rest) = not (valid d) || any_fails valid rest

module _ {K B A X : Type 0} ⦃o : Ord K⦄ ⦃c : Components K⦄ where
  -- Reading m_fetchMap[publication] puts an empty entry there if there is none.
  unfoldable pub return_data : Data K X → InnerData K A → K × ℕ → SvsPubSub K B A → SvsPubSub K B A
  return_data first_data inner publication s =
      let subs = some_or (find publication s.fetch_map) [] in
      let has_final_block = is_some inner.final_block in
      let sub_data : SubscriptionData K A = record {
        name = inner.name;
        value = inner.content;
        producer_prefix = publication.0;
        seq_no = publication.1;
        packet = some inner;
      } in
      let told = s.calls ++ deliver_first has_final_block sub_data subs in
      let name = first_data.name in
      if has_blob_subscriptions subs && (has_final_block && ltb 2 (c.size name))
      then record s {
        fetch_map = insert publication subs s.fetch_map;
        calls = told ++ (PubSubCall.fetch_segments (c.drop_last 2 name) publication ∷ []);
      }
      else clean_up_fetch publication
          (record s { fetch_map = insert publication subs s.fetch_map; calls = told })

  -- After the inner packet is read; `none` is where that throws.
  unfoldable pub on_inner_data :
      Bool → Data K X → K × ℕ → Option (InnerData K A) → SvsPubSub K B A → SvsPubSub K B A
  on_inner_data accepted first_data publication none s = s
  on_inner_data accepted first_data publication (some inner) s =
      if accepted then return_data first_data inner publication s else s

  unfoldable pub on_sync_data :
      ⦃e : Encapsulation K A X⦄ → Bool → Data K X → K × ℕ → SvsPubSub K B A → SvsPubSub K B A
  on_sync_data ⦃e⦄ accepted first_data publication s =
      if not (nat_eq first_data.content_type data_tlv)
      then record s { fetching_map = insert publication false s.fetching_map }
      else on_inner_data accepted first_data publication (e.unwrap first_data.content) s

module _ {K B A : Type 0} ⦃o : Ord K⦄ ⦃c : Components K⦄ where
  -- `sendFinalBuffer` once each element has its verdict.
  unfoldable pub send_final_buffer : Bool → K → List A → K × ℕ → SvsPubSub K B A → SvsPubSub K B A
  send_final_buffer any_failed inner_name buffer publication s =
      let subs = some_or (find publication s.fetch_map) [] in
      let sub_data : SubscriptionData K A = record {
        name = inner_name;
        value = buffer;
        producer_prefix = publication.0;
        seq_no = publication.1;
        packet = none;
      } in
      if any_failed
      then clean_up_fetch publication s
      else clean_up_fetch publication (record s { calls = s.calls ++ deliver_buffer sub_data subs })

  -- The segment fetcher's `onComplete`, with the packets of the buffer; `none` is where reading them
  -- throws. `valid` gives the verdicts.
  unfoldable pub on_complete :
      (InnerData K A → Bool)
      → Option (List (InnerData K A))
      → K × ℕ
      → SvsPubSub K B A
      → SvsPubSub K B A
  on_complete valid none publication s = clean_up_fetch publication s
  on_complete valid (some []) publication s = clean_up_fetch publication s
  on_complete valid (some (d ∷ rest)) publication s =
      send_final_buffer (any_fails valid (d ∷ rest)) (c.drop_last 2 d.name)
        (joined (List.map (λ (x : InnerData K A). x.content) (d ∷ rest))) publication s
