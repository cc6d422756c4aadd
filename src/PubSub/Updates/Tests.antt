-- ===== src/PubSub/Updates/Tests.antt =====
-- An update for a node with two subscriptions.
use mathlib.Core.List
use m_svs.Base.{ℕ, ◌+◌, ◌-◌, ◌^◌, ◌≤◌, ◌≡◌, refl, ◌⊎◌, List, [], ◌∷◌, ◌++◌, some, ltb, arith}
use mathlib.Core.List.{Memᴰ}
use m_svs.Std.Ord.{pair_ord, nat_ord}
use m_svs.PubSub.{mapping_queries}
use m_svs.PubSub.Queries.{times_asked}
use m_svs.PubSub.Updates.{query_call, too_old, find_mappings}
use m_svs.PubSub.Updates.Age.{too_old_timestamp}
use m_svs.PubSub.Updates.Known.{Settled, find_mappings_complete}
use m_svs.Samples.Paths.{path_ord, paths, Element, a_name, a_number}
use m_svs.Samples.Blocks.{number_timestamps}
use m_svs.Samples.Subscriber.{subscriber, stream}

abbrev blocks : List (Element (List ℕ))
blocks = a_name (3 ∷ []) ∷ []

-- The publisher's clock is one microsecond ahead.
too_old_timestamp_example :
    too_old 9_499_999 1_000_000 (blocks ++ a_number 9_500_000 ∷ [])
    ≡ some (ltb 1_000_000 (9_499_999 + 2 ^ 64 - 9_500_000))
too_old_timestamp_example =
    too_old_timestamp 9_499_999 1_000_000 9_500_000 blocks (omega arith) (omega arith) (refl, tt)

find_mappings_complete_example :
    let later = find_mappings 9_600_000 stream subscriber in
    Settled 9_600_000 (stream.node_id, 1) subscriber later
    ⊎ ((from : ℕ) × (1 ≤ from)
        × (later.calls
            ≡ subscriber.calls
              ++ List.map
                  (query_call stream.node_id stream.incoming_face)
                  (mapping_queries from stream.high))
        × (times_asked 1 (mapping_queries from stream.high) ≡ 1))
find_mappings_complete_example =
    find_mappings_complete 9_600_000 stream 1 subscriber (omega arith) (omega arith) (omega arith)
