-- ===== src/Samples/Subscriber.antt =====
-- A node with subscriptions, whose names are paths.
use m_svs.Base.{ℕ, true, false, List, [], ◌∷◌}
use m_svs.Core.Merge.{MissingDataInfo}
use m_svs.PubSub.State.{Subscription, SvsPubSub}
use m_svs.Samples.Paths.{Element, a_name, a_number}

-- To the producer /5, and to the publications under /1.
abbrev pub to_producer : Subscription (List ℕ)
to_producer = record { id = 1; prefix = 5 ∷ []; is_packet_subscription = true; prefetch = true }

abbrev pub to_prefix : Subscription (List ℕ)
to_prefix = record { id = 2; prefix = 1 ∷ []; is_packet_subscription = false; prefetch = false }

-- It takes publications of an age of up to a second, and knows one of /5, made at the time 9_500_000.
abbrev pub subscriber : SvsPubSub (List ℕ) (Element (List ℕ)) ℕ
subscriber = record {
  data_prefix = 4 ∷ [];
  use_timestamp = true;
  max_pub_age_us = 1_000_000;
  mapping_provider = record {
    sync_prefix = 9 ∷ [];
    map = (1 ∷ 5 ∷ [], (7 ∷ 1 ∷ [], a_name (3 ∷ []) ∷ a_number 9_500_000 ∷ [])) ∷ [];
  };
  notification_mapping_list = record { node_id = []; pairs = [] };
  producer_subscriptions = to_producer ∷ [];
  prefix_subscriptions = to_prefix ∷ [];
  subscription_count = 2;
  fetch_map = [];
  fetching_map = [];
  calls = [];
}

-- Publications 1 to 3 of /5 are new.
abbrev pub stream : MissingDataInfo (List ℕ)
stream = record { node_id = 5 ∷ []; low = 1; high = 3; incoming_face = 6 }
