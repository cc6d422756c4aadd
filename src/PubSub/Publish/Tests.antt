-- ===== src/PubSub/Publish/Tests.antt =====
-- A small and a large publication of /5, on their way to a subscriber.
use mathlib.Core.List
use m_svs.Base.{
  is_some, ℕ, zero, suc, ◌≡◌, refl, Bool, true, false, arith, List, [], ◌∷◌, ◌++◌, none, some,
  length, ◌/◌,
}
use mathlib.Core.List.{Memᴰ}
use m_svs.Std.Ord.{pair_ord, nat_ord}
use m_svs.Std.Map.{find}
use m_svs.Double.{pos}
use m_svs.VersionVector.{VersionVector, SubsetStrategy, empty, get}
use m_svs.Core.Handlers.Dispatch.{SignerType, accepts}
use m_svs.PubSub.Incoming.{on_sync_interest}
use m_svs.PubSub.Incoming.Fetches.{Asked, on_sync_interest_fetches}
use m_svs.Core.State.{TimerMode}
use m_svs.Mapping.{get_mapping}
use m_svs.Core.Handlers.{get_seq_no}
use m_svs.Sync.{DataStore, Interest, publisher, get_data_name, data_tlv}
use m_svs.PubSub.{max_data_size}
use m_svs.PubSub.State.{InnerData, SvsPubSub, PubSubCall}
use m_svs.PubSub.Updates.Queued.{queue_of}
use m_svs.PubSub.Receive.{on_sync_data, on_complete}
use m_svs.PubSub.Receive.Delivered.{whole, assembled, blobs, Gone}
use m_svs.PubSub.Publish.{Publisher, producer, publish, on_get_extra_data, on_recv_extra_data}
use m_svs.PubSub.Delivery.Segments.{stored_all, unwrap_all, AreSegments, publish_delivers_segments}
use m_svs.PubSub.Delivery.{segment_name, publish_serves, publish_delivers}
use m_svs.PubSub.Publish.Published.{IsPublished, publish-IsPublished}
use m_svs.Samples.Prefixes.{path_prefixes}
use m_svs.Mapping.{get_mapping_query_data_name}
use m_svs.PubSub.Construct.{new_pubsub, data_filter, mapping_filter, new_pubsub_routes}
use m_svs.PubSub.Publish.Notified.{get_mapping-on_recv_extra_data}
use m_svs.Samples.{millionths, configured, node, instant}
use m_svs.Samples.Paths.{path_ord, paths, named_paths, Element, a_name, a_number, plain_elements}
use m_svs.Samples.Store.{Packet, memory}
use m_svs.Samples.Blocks.{number_timestamps, held}
use m_svs.Samples.Subscriber.{to_producer, to_prefix, subscriber, stream}

abbrev unshuffled : ℕ → List (List ℕ) → List (List ℕ)
unshuffled seed l = l

abbrev naming : List ℕ → ℕ → List ℕ
naming = get_data_name (9 ∷ [])

abbrev Inner : Type 0
Inner = InnerData (List ℕ) ℕ

abbrev publishing : Publisher (List ℕ) (Element (List ℕ)) ℕ ℕ Inner (List (Packet Inner)) ℕ
publishing = record {
  pubsub = subscriber;
  svsync = record {
    sync_prefix = 9 ∷ [];
    data_prefix = 9 ∷ 4 ∷ [];
    id = 4 ∷ [];
    n_retries_on_validation_fail = pos 0;
    core = node (configured (4 ∷ []) SubsetStrategy.full TimerMode.fixed) empty;
    fetcher = record {
      interest_id_counter = 0;
      pending_interests = [];
      interest_queue = [];
      calls = [];
    };
    data_store = [];
    put = [];
    cache_all = false;
  };
}

publish-IsPublished_example :
    let (later, seq) =
      publish naming unshuffled
        (instant 900)
        9_500_000
        (7 ∷ 1 ∷ [])
        (60 ∷ 61 ∷ [])
        []
        1000
        (a_name (3 ∷ []) ∷ [])
        publishing in
    IsPublished 9_500_000 (producer [] publishing) seq (7 ∷ 1 ∷ []) [] publishing later
publish-IsPublished_example =
    publish-IsPublished naming unshuffled (instant 900) 9_500_000 (7 ∷ 1 ∷ []) (60 ∷ 61 ∷ []) []
      1000 (a_name (3 ∷ []) ∷ []) publishing refl

-- A sender with two new publications.
abbrev sender : SvsPubSub (List ℕ) (Element (List ℕ)) ℕ
sender = record subscriber {
  notification_mapping_list = record {
    node_id = 4 ∷ [];
    pairs =
        (1, (7 ∷ 1 ∷ [], a_name (3 ∷ []) ∷ a_number 9_500_000 ∷ []))
        ∷ (2, (8 ∷ 1 ∷ [], a_number 9_600_000 ∷ []))
        ∷ [];
  };
}

get_mapping-on_recv_extra_data_example :
    let (later, block) = on_get_extra_data sender in
    ((get_mapping (4 ∷ []) 1 (on_recv_extra_data block subscriber).mapping_provider
        ≡ some (7 ∷ 1 ∷ [], a_number 9_500_000 ∷ a_name (3 ∷ []) ∷ []))
      × (later.notification_mapping_list.pairs ≡ []))
get_mapping-on_recv_extra_data_example = get_mapping-on_recv_extra_data (4 ∷ []) 1 sender subscriber

-- Publication 1 of /5 is wanted by both subscriptions.
abbrev waiting : SvsPubSub (List ℕ) (Element (List ℕ)) ℕ
waiting = record subscriber {
  fetch_map = ((5 ∷ [], 1), to_producer ∷ to_prefix ∷ []) ∷ [];
  fetching_map = ((5 ∷ [], 1), true) ∷ [];
}

abbrev fetched : Packet Inner
fetched = record {
  name = 1 ∷ 9 ∷ 5 ∷ [];
  content = record { name = 7 ∷ 1 ∷ []; content = 60 ∷ 61 ∷ []; final_block = none };
  content_type = data_tlv;
  freshness_ms = 1000;
  final_block = none;
}

abbrev zeros : ℕ → List ℕ
zeros zero = []
zeros (suc n) = 0 ∷ zeros n

-- Any packet is accepted.
abbrev lenient : Inner → Bool
lenient d = true

publish_delivers_segments_example :
    let value = zeros 9000 in
    let (later, seq) =
      publish naming unshuffled (instant 900) 9_500_000 (7 ∷ 1 ∷ []) value [] 1000 [] publishing in
    (sent : List (Packet Inner)) × (later.svsync.data_store
      ≡ stored_all sent publishing.svsync.data_store)
    × AreSegments naming (producer [] publishing) seq (length value / max_data_size) 0 sent
    × ((on_complete lenient (unwrap_all sent) (5 ∷ [], 1) waiting).calls
        ≡ waiting.calls
          ++ List.map
              (λ sub. PubSubCall.deliver sub (assembled (7 ∷ 1 ∷ []) value (5 ∷ [], 1)))
              (blobs (queue_of (5 ∷ [], 1) waiting)))
    × Gone (5 ∷ [], 1) (on_complete lenient (unwrap_all sent) (5 ∷ [], 1) waiting)
publish_delivers_segments_example =
    publish_delivers_segments naming unshuffled (instant 900) 9_500_000 (7 ∷ 1 ∷ []) (zeros 9000) []
      1000 [] publishing lenient (5 ∷ [], 1) waiting refl (λ x named. refl) (tt, tt) (tt, tt)

-- An Interest that announces the first three publications of /5, with a mapping.
abbrev announced : VersionVector (List ℕ)
announced = record { map = (5 ∷ [], 3) ∷ []; last_update = [] }

on_sync_interest_fetches_example :
    (later : Publisher (List ℕ) (Element (List ℕ)) ℕ ℕ Inner (List (Packet Inner)) ℕ)
    × (on_sync_interest unshuffled SignerType.hmac true none
          (instant 900)
          9_600_000
          6
          (some announced)
          (some (on_get_extra_data sender).1)
          publishing
        ≡ some later)
    × Asked (5 ∷ [], 2) to_producer publishing.pubsub later.pubsub
    × (get later.svsync.core.vv (5 ∷ []) ≡ 3)
unfolding get find accepts
on_sync_interest_fetches_example =
    on_sync_interest_fetches unshuffled SignerType.hmac true none (instant 900) 9_600_000 6
      announced (some (on_get_extra_data sender).1) (5 ∷ []) 2 to_producer publishing refl (tt, tt)
      (omega arith, tt) (Memᴰ.head refl) refl refl (omega arith) (omega arith)

publish_delivers_example :
    let (later, seq) =
      publish naming unshuffled
        (instant 900)
        9_500_000
        (7 ∷ 1 ∷ [])
        (60 ∷ 61 ∷ [])
        []
        1000
        []
        publishing in
    ((packet : Packet Inner) × (later.svsync.put ≡ packet ∷ publishing.svsync.put)
      × (packet.name ≡ naming (publisher naming (producer [] publishing) publishing.svsync) seq)
      × ((on_sync_data true packet (5 ∷ [], 1) waiting).calls
          ≡ waiting.calls
            ++ List.map
                (λ sub. PubSubCall.deliver sub (whole (7 ∷ 1 ∷ []) (60 ∷ 61 ∷ []) (5 ∷ [], 1)))
                (queue_of (5 ∷ [], 1) waiting))
      × Gone (5 ∷ [], 1) (on_sync_data true packet (5 ∷ [], 1) waiting))
publish_delivers_example =
    publish_delivers naming unshuffled (instant 900) 9_500_000 (7 ∷ 1 ∷ []) (60 ∷ 61 ∷ []) [] 1000
      [] publishing (5 ∷ [], 1) waiting refl (tt, tt) (tt, tt)

-- The Interest for the second segment.
abbrev second : Interest (List ℕ)
second = record {
  name = segment_name naming (4 ∷ []) 1 1;
  can_be_prefix = false;
  must_be_fresh = false;
  lifetime_ms = 4000;
}

publish_serves_example :
    let value = zeros 9000 in
    let later =
      (publish naming unshuffled
        (instant 900)
        9_500_000
        (7 ∷ 1 ∷ [])
        value
        []
        1000
        []
        publishing).0 in
    is_some (DataStore.find memory second later.svsync.data_store) ≡ true
unfolding producer get_seq_no get find
publish_serves_example =
    publish_serves naming unshuffled (instant 900) 9_500_000 (7 ∷ 1 ∷ []) (zeros 9000) [] 1000 []
      publishing 1 second refl (omega arith) refl

abbrev constructed : Publisher (List ℕ) (Element (List ℕ)) ℕ ℕ Inner (List (Packet Inner)) ℕ
constructed =
    new_pubsub (9 ∷ []) (5 ∷ []) true 1_000_000 [] 0 (pos 0) [] publishing.svsync.core.config 30_000

new_pubsub_routes_example :
    ((paths.is_prefix_of (data_filter constructed) (naming (5 ∷ []) 3) ≡ true)
      × (paths.is_prefix_of (data_filter constructed) (segment_name naming (5 ∷ []) 3 1) ≡ true)
      × (paths.is_prefix_of
            (mapping_filter constructed)
            (get_mapping_query_data_name (9 ∷ []) stream)
          ≡ true))
new_pubsub_routes_example =
    new_pubsub_routes (9 ∷ []) (5 ∷ []) true 1_000_000 [] 0 (pos 0) [] publishing.svsync.core.config
      30_000 3 1 stream constructed refl refl
