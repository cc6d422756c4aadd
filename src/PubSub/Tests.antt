-- ===== src/PubSub/Tests.antt =====
-- A range of 13 publications, and two wanted publications.
use m_svs.Base.{true, false, ℕ, ◌≡◌, refl, [], ◌∷◌}
use m_svs.PubSub.{mapping_queries, queries}
use m_svs.Std.Ord.{nat_ord, pair_ord}
use m_svs.Std.Map.{find, insert}
use m_svs.PubSub.State.{Subscription, SvsPubSub, PubSubCall}
use m_svs.PubSub.Fetching.{fetch_all, fetch_from}

asked : mapping_queries 5 17 ≡ (5, 15) ∷ (16, 17) ∷ []
unfolding mapping_queries queries
asked = refl

abbrev sub : Subscription ℕ
sub = record { id = 1; prefix = 5; is_packet_subscription = true; prefetch = false }

-- Publications 3 and 4 of producer 7 are wanted, and 3 is being fetched.
abbrev wanting : SvsPubSub ℕ ℕ ℕ
wanting = record {
  data_prefix = 1;
  use_timestamp = true;
  max_pub_age_us = 0;
  mapping_provider = record { sync_prefix = 2; map = [] };
  notification_mapping_list = record { node_id = 0; pairs = [] };
  producer_subscriptions = sub ∷ [];
  prefix_subscriptions = [];
  subscription_count = 1;
  fetch_map = ((7, 3), sub ∷ []) ∷ ((7, 4), sub ∷ []) ∷ [];
  fetching_map = ((7, 3), true) ∷ [];
  calls = PubSubCall.fetch (7, 3) ∷ [];
}

-- Only publication 4 is fetched.
fetched_calls : (fetch_all wanting).calls ≡ PubSubCall.fetch (7, 3) ∷ PubSubCall.fetch (7, 4) ∷ []
unfolding fetch_all fetch_from find insert
fetched_calls = refl
