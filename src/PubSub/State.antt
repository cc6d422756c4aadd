-- ===== src/PubSub/State.antt =====
-- ndn-svs/svspubsub.hpp: the members of `SVSPubSub` and its structs. `B` is an additional block of a
-- mapping, `A` a byte. `calls` lists what the handlers ask of SVSyncBase, of the mapping provider, of
-- ndn-cxx and of the application, in order.
use m_svs.Base.{ℕ, Bool, List, Option}
use m_svs.Std.Map.{Map}
use m_svs.Core.Merge.{MissingDataInfo}
use m_svs.Mapping.{MappingList, MappingProvider}

pub record Subscription (K : Type 0) : Type 0 where
  pub id : ℕ
  pub prefix : K
  pub is_packet_subscription : Bool
  pub prefetch : Bool

-- What the code reads of an encapsulated Data packet.
pub record InnerData (K A : Type 0) : Type 0 where
  pub name : K
  pub content : List A
  pub final_block : Option ℕ

pub record SubscriptionData (K A : Type 0) : Type 0 where
  pub name : K
  pub value : List A
  pub producer_prefix : K
  pub seq_no : ℕ
  pub packet : Option (InnerData K A)

pub data PubSubCall (K A : Type 0) : Type 0 where
  -- m_svsync.fetchData(nodeId, seqNo, onSyncData, 12)
  fetch : K × ℕ → PubSubCall K A
  -- the fetch whose callback does nothing
  prefetch_next : K → ℕ → PubSubCall K A
  -- m_mappingProvider.fetchNameMapping
  fetch_name_mapping : MissingDataInfo K → PubSubCall K A
  -- a subscription's callback
  deliver : Subscription K → SubscriptionData K A → PubSubCall K A
  -- ndn::SegmentFetcher::start, for a publication
  fetch_segments : K → K × ℕ → PubSubCall K A
  -- m_onUpdate
  updated : List (MissingDataInfo K) → PubSubCall K A

pub record SvsPubSub (K B A : Type 0) : Type 0 where
  pub data_prefix : K
  pub use_timestamp : Bool
  pub max_pub_age_us : ℕ
  pub mapping_provider : MappingProvider K B
  pub notification_mapping_list : MappingList K B
  pub producer_subscriptions : List (Subscription K)
  pub prefix_subscriptions : List (Subscription K)
  pub subscription_count : ℕ
  pub fetch_map : Map (K × ℕ) (List (Subscription K))
  pub fetching_map : Map (K × ℕ) Bool
  pub calls : List (PubSubCall K A)
