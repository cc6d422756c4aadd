-- ===== src/PubSub/Construct.antt =====
-- The constructors of `SVSPubSub` and `MappingProvider`, and the names under which a node answers
-- Interests: those of ndn-svs/svsync-base.cpp and mapping-provider.cpp (`setInterestFilter`).
use m_svs.Base.{ℕ, Bool, true, [], ◌≡◌}
use m_svs.Names.{Components}
use m_svs.Double.{Double, ℤ}
use m_svs.Core.State.{Config}
use m_svs.Core.Merge.{MissingDataInfo}
use m_svs.Mapping.{MappingProvider, get_mapping_query_data_name}
use m_svs.Sync.{get_data_name, new_sync_base, new_svsync}
use m_svs.PubSub.Publish.{Publisher}
use m_svs.PubSub.Delivery.{segment_name}

-- `isPrefixOf` of ndn::Name: every name is a prefix of itself, and of what longer names it is one.
pub record Prefixes (K : Type 0) ⦃c : Components K⦄ : Type 0 where
  pub prefix_self : (a : K) → c.is_prefix_of a a ≡ true
  pub prefix_number :
      (s : ℕ) (a b : K) → c.is_prefix_of a b ≡ true → c.is_prefix_of a (c.append_number s b) ≡ true
  pub prefix_version :
      (s : ℕ) (a b : K) → c.is_prefix_of a b ≡ true → c.is_prefix_of a (c.append_version s b) ≡ true
  pub prefix_segment :
      (s : ℕ) (a b : K) → c.is_prefix_of a b ≡ true → c.is_prefix_of a (c.append_segment s b) ≡ true

module _ {K B : Type 0} ⦃c : Components K⦄ where
  unfoldable pub new_mapping_provider : K → MappingProvider K B
  new_mapping_provider sync_prefix = record { sync_prefix = sync_prefix; map = [] }

module _ {K B A D X S T : Type 0} ⦃c : Components K⦄ ⦃d : Double D⦄ where
  -- `empty` is the name of the MappingList that is not sent yet, and `first_count` the value of
  -- m_subscriptionCount, which the constructor does not set.
  unfoldable pub new_pubsub :
      K → K → Bool → ℕ → K → ℕ → ℤ → S → Config K D → ℕ → Publisher K B A D X S T
  new_pubsub sync_prefix node_prefix use_timestamp max_pub_age_us empty first_count n_retries
        data_store config fixed_interval =
      record {
        pubsub = record {
          data_prefix = node_prefix;
          use_timestamp = use_timestamp;
          max_pub_age_us = max_pub_age_us;
          mapping_provider = new_mapping_provider sync_prefix;
          notification_mapping_list = record { node_id = empty; pairs = [] };
          producer_subscriptions = [];
          prefix_subscriptions = [];
          subscription_count = first_count;
          fetch_map = [];
          fetching_map = [];
          calls = [];
        };
        svsync = new_svsync sync_prefix node_prefix n_retries data_store config fixed_interval;
      }

  -- The filters of SVSyncBase and of the mapping provider.
  unfoldable pub data_filter : Publisher K B A D X S T → K
  data_filter p = p.svsync.data_prefix

  unfoldable pub mapping_filter : Publisher K B A D X S T → K
  mapping_filter p =
      c.append_mapping (c.append p.pubsub.data_prefix p.pubsub.mapping_provider.sync_prefix)

module _ {K B A D X S T : Type 0} ⦃c : Components K⦄ ⦃d : Double D⦄ ⦃prefixes : Prefixes K⦄ where
  -- Whatever is asked of a producer by its name lies under a prefix that the producer has registered:
  -- the Interest for a publication and for a segment of one under the data filter, and the query for
  -- mappings under the mapping filter.
  pub new_pubsub_routes :
      (sync_prefix node_prefix : K) (use_timestamp : Bool) (max_pub_age_us : ℕ) (empty : K)
      (first_count : ℕ) (n_retries : ℤ) (data_store : S) (config : Config K D) (fixed_interval : ℕ)
      (seq i : ℕ) (info : MissingDataInfo K) (p : Publisher K B A D X S T)
      → p
        ≡ new_pubsub sync_prefix node_prefix use_timestamp max_pub_age_us empty first_count
            n_retries data_store config fixed_interval
      → info.node_id ≡ node_prefix
      → let naming = get_data_name sync_prefix in
        ((c.is_prefix_of (data_filter p) (naming node_prefix seq) ≡ true)
          × (c.is_prefix_of (data_filter p) (segment_name naming node_prefix seq i) ≡ true)
          × (c.is_prefix_of (mapping_filter p) (get_mapping_query_data_name sync_prefix info)
              ≡ true))
  unfolding new_pubsub new_svsync new_sync_base new_mapping_provider data_filter mapping_filter
      get_data_name get_mapping_query_data_name
  new_pubsub_routes sync_prefix node_prefix use_timestamp max_pub_age_us empty first_count n_retries
        data_store config fixed_interval seq i info p new same =
      let filter = c.append node_prefix sync_prefix in
      let whole = prefixes.prefix_number seq filter filter (prefixes.prefix_self filter) in
      rw (new, same)
        (
          whole,
          prefixes.prefix_segment i filter _ (prefixes.prefix_version 0 filter _ whole),
          prefixes.prefix_number info.high _ _
              (prefixes.prefix_number info.low _ _ (prefixes.prefix_self _)),
        )
