-- ===== src/PubSub/Coherent/Tests.antt =====
-- A subscriber that fetches, and one that cancels subscriptions.

use m_svs.Base.{◌≤◌, some, ℕ, ◌≡◌, refl, true, false, arith, List, [], ◌∷◌}
use m_svs.Std.Ord.{pair_ord, nat_ord}
use m_svs.PubSub.State.{InnerData, SvsPubSub}
use m_svs.Samples.Prefixes.{path_prefixes}
use m_svs.PubSub.Subscriptions.{Request, requests, without, holders_of, unsubscribe-without}
use m_svs.PubSub.Coherent.{IsCoherent}
use m_svs.PubSub.Coherent.Run.{Step, Reach, Reach-IsCoherent}
use m_svs.PubSub.Updates.{update_all, update_callback_internal, loops_end, stream_ends, any_covers}
use m_svs.PubSub.Fetching.{clean_up_fetch, subscribe, unsubscribe}
use m_svs.Samples.{millionths}
use m_svs.Samples.Paths.{path_ord, paths, named_paths, Element, plain_elements}
use m_svs.Samples.Store.{memory}
use m_svs.Samples.Blocks.{number_timestamps, held}
use m_svs.Samples.Subscriber.{subscriber, stream}

abbrev Inner : Type 0
Inner = InnerData (List ℕ) ℕ

-- The node fetches three publications, and the fetch of one of them fails.
abbrev fetching : SvsPubSub (List ℕ) (Element (List ℕ)) ℕ
fetching = update_all 9_600_000 (stream ∷ []) subscriber

reported : update_callback_internal 9_600_000 (stream ∷ []) subscriber ≡ some fetching
unfolding update_callback_internal loops_end stream_ends any_covers
reported = refl

abbrev fetching_two : SvsPubSub (List ℕ) (Element (List ℕ)) ℕ
fetching_two = clean_up_fetch (5 ∷ [], 2) fetching

Reach-IsCoherent_example : IsCoherent fetching_two
Reach-IsCoherent_example = Reach-IsCoherent Inner fetching_two (
    Reach.next (Reach.next (Reach.new refl refl) (Step.reported 9_600_000 (stream ∷ []) reported))
      (Step.failed (5 ∷ [], 2)))

-- Three subscriptions of a node, and one of them cancelled.
abbrev unsubscribed : SvsPubSub (List ℕ) (Element (List ℕ)) ℕ
unsubscribed = record subscriber { producer_subscriptions = []; prefix_subscriptions = [] }

abbrev wanted : List (Request (List ℕ))
wanted =
    Request.to_prefix (1 ∷ []) false
    ∷ Request.to_producer (5 ∷ []) true true
    ∷ Request.to_prefix (7 ∷ []) true
    ∷ Request.cancel 3
    ∷ []

unsubscribe-without_example :
    let t = requests wanted unsubscribed in
    ((holders_of 4 t ≤ 1)
      × ((unsubscribe 4 t).producer_subscriptions ≡ without 4 t.producer_subscriptions)
      × ((unsubscribe 4 t).prefix_subscriptions ≡ without 4 t.prefix_subscriptions)
      × (holders_of (subscribe (8 ∷ []) false t).1 t ≡ 0))
unsubscribe-without_example =
    unsubscribe-without wanted unsubscribed 4 (8 ∷ []) false refl refl (omega arith)
