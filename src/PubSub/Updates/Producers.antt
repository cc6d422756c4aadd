-- ===== src/PubSub/Updates/Producers.antt =====
-- Each new publication of a producer that is subscribed to is queued and fetched.

use m_svs.Base.{
  false, some, ℕ, zero, suc, ◌+◌, ◌-◌, ◌≤◌, ◌<◌, ◌≡◌, refl, sym, subst, true, List, [], ◌∷◌, Option,
  some_or, Option-cases, Bool-cases, inl, inr, if_cases, arith, ltb,
}
use mathlib.Core.List.{Memᴰ}
use mathlib.Core.List.Memᴰ
use m_svs.Std.Ord.{Ord, pair_ord, nat_ord}
use m_svs.Std.Map.{find, has}
use m_svs.Names.{Components}
use m_svs.Core.Merge.{MissingDataInfo}
use m_svs.PubSub.State.{Subscription, SvsPubSub, PubSubCall}
use m_svs.PubSub.Blocks.{Timestamps}
use m_svs.PubSub.Fetching.{queue_publication, fetch_all, fetch_map-fetch_all}
use m_svs.PubSub.Fetching.Count.{fetches, fetches-append, fetch_all-fetches}
use m_svs.PubSub.Updates.{
  queue_range, queue_producer, queue_producers, find_mappings, update_stream, update_streams,
  update_all,
}
use m_svs.PubSub.Updates.Queued.{
  Queued, Grows, Grows-refl, Grows-trans, queue_publication-Queued, queue_publication-Grows,
  call-Grows, find_mappings-Grows,
}

module _ {K B A : Type 0} ⦃o : Ord K⦄ ⦃c : Components K⦄ ⦃t : Timestamps B⦄ where
  queue_range-Grows :
      (node_id : K) (i rounds : ℕ) (sub : Subscription K) (s : SvsPubSub K B A)
      → Grows s (queue_range node_id i rounds sub s)
  unfolding queue_range
  queue_range-Grows node_id i zero sub s = Grows-refl s
  queue_range-Grows node_id i (suc rounds) sub s =
      Grows-trans s _ _ (queue_publication-Grows (node_id, i) sub s)
        (queue_range-Grows node_id (suc i) rounds sub _)

  queue_range-Queued :
      (node_id : K) (i rounds seq : ℕ) (sub : Subscription K) (s : SvsPubSub K B A)
      → i ≤ seq
      → seq < i + rounds
      → Queued (node_id, seq) sub (queue_range node_id i rounds sub s)
  unfolding queue_range
  queue_range-Queued node_id i zero seq sub s l h = absurd (omega arith)
  queue_range-Queued node_id i (suc rounds) seq sub s l h = elim (Bool-cases (ltb i seq)) [
    | inl later ↦ queue_range-Queued node_id (suc i) rounds seq sub _ (ground arith) (omega arith)
    | inr same ↦
        (queue_range-Grows node_id (suc i) rounds sub _).queued (node_id, seq) sub
          (subst (λ j. Queued (node_id, j) sub (queue_publication (node_id, i) sub s))
            (ground arith) (queue_publication-Queued (node_id, i) sub s))
  ]

  queued_and_prefetched :
      (stream : MissingDataInfo K) (sub : Subscription K) (s : SvsPubSub K B A)
      → c.is_prefix_of sub.prefix stream.node_id ≡ true
      → Grows
          (queue_range stream.node_id stream.low (suc stream.high - stream.low) sub s)
          (queue_producer stream sub s)
  unfolding queue_producer
  queued_and_prefetched stream sub s h =
      let queued = queue_range stream.node_id stream.low (suc stream.high - stream.low) sub s in
      rw h (
        if_cases (Grows queued) sub.prefetch (λ _. call-Grows _ queued λ p. refl)
          (λ _. Grows-refl queued))

  queue_producer-Grows :
      (stream : MissingDataInfo K) (sub : Subscription K) (s : SvsPubSub K B A)
      → Grows s (queue_producer stream sub s)
  queue_producer-Grows stream sub s = elim (Bool-cases (c.is_prefix_of sub.prefix stream.node_id)) [
    | inl e ↦
        Grows-trans s _ _ (queue_range-Grows stream.node_id stream.low _ sub s)
          (queued_and_prefetched stream sub s e)
    | inr e ↦ unfold queue_producer in rw e (Grows-refl s)
  ]

  queue_producers-Grows :
      (stream : MissingDataInfo K) (subs : List (Subscription K)) (s : SvsPubSub K B A)
      → Grows s (queue_producers stream subs s)
  unfolding queue_producers
  queue_producers-Grows stream [] s = Grows-refl s
  queue_producers-Grows stream (sub ∷ rest) s =
      Grows-trans s _ _ (queue_producer-Grows stream sub s) (queue_producers-Grows stream rest _)

  queue_producers-Queued :
      (stream : MissingDataInfo K) (seq : ℕ) (sub : Subscription K) (subs : List (Subscription K))
      (s : SvsPubSub K B A)
      → Memᴰ sub subs
      → c.is_prefix_of sub.prefix stream.node_id ≡ true
      → stream.low ≤ seq
      → seq ≤ stream.high
      → Queued (stream.node_id, seq) sub (queue_producers stream subs s)
  unfolding queue_producers
  queue_producers-Queued stream seq sub [] s m y l h = elim m [ ]
  queue_producers-Queued stream seq sub (other ∷ rest) s (Memᴰ.head e) y l h =
      let queued : Queued (stream.node_id, seq) sub (queue_producer stream sub s) =
        (queued_and_prefetched stream sub s y).queued (stream.node_id, seq) sub
          (queue_range-Queued stream.node_id stream.low _ seq sub s l (omega arith)) in
      (queue_producers-Grows stream rest _).queued (stream.node_id, seq) sub
        (subst (λ x. Queued (stream.node_id, seq) sub (queue_producer stream x s)) e queued)
  queue_producers-Queued stream seq sub (other ∷ rest) s (Memᴰ.tail m) y l h =
      queue_producers-Queued stream seq sub rest _ m y l h

  update_stream_end :
      (now_us : ℕ) (stream : MissingDataInfo K) (subs : List (Subscription K)) (s : SvsPubSub K B A)
      → Grows s (elim subs [ [] ↦ s | sub ∷ rest ↦ find_mappings now_us stream s ])
  update_stream_end now_us stream [] s = Grows-refl s
  update_stream_end now_us stream (sub ∷ rest) s = find_mappings-Grows now_us stream s

  update_stream-Grows :
      (now_us : ℕ) (stream : MissingDataInfo K) (s : SvsPubSub K B A)
      → Grows (queue_producers stream s.producer_subscriptions s) (update_stream now_us stream s)
  unfolding update_stream
  update_stream-Grows now_us stream s = update_stream_end now_us stream s.prefix_subscriptions _

  update_streams-Grows :
      (now_us : ℕ) (info : List (MissingDataInfo K)) (s : SvsPubSub K B A)
      → Grows s (update_streams now_us info s)
  unfolding update_streams
  update_streams-Grows now_us [] s = Grows-refl s
  update_streams-Grows now_us (stream ∷ rest) s =
      Grows-trans s _ _
        (Grows-trans s _ _ (queue_producers-Grows stream s.producer_subscriptions s)
          (update_stream-Grows now_us stream s))
        (update_streams-Grows now_us rest _)

  update_streams-Queued :
      (now_us : ℕ) (stream : MissingDataInfo K) (seq : ℕ) (sub : Subscription K)
      (info : List (MissingDataInfo K)) (s : SvsPubSub K B A)
      → Memᴰ stream info
      → Memᴰ sub s.producer_subscriptions
      → c.is_prefix_of sub.prefix stream.node_id ≡ true
      → stream.low ≤ seq
      → seq ≤ stream.high
      → Queued (stream.node_id, seq) sub (update_streams now_us info s)
  unfolding update_streams
  update_streams-Queued now_us stream seq sub [] s m p y l h = elim m [ ]
  update_streams-Queued now_us stream seq sub (other ∷ rest) s (Memᴰ.head e) p y l h =
      let first : Queued (stream.node_id, seq) sub (update_stream now_us stream s) =
        (update_stream-Grows now_us stream s).queued (stream.node_id, seq) sub
          (queue_producers-Queued stream seq sub s.producer_subscriptions s p y l h) in
      (update_streams-Grows now_us rest _).queued (stream.node_id, seq) sub
        (subst (λ x. Queued (stream.node_id, seq) sub (update_stream now_us x s)) e first)
  update_streams-Queued now_us stream seq sub (other ∷ rest) s (Memᴰ.tail m) p y l h =
      let g =
        Grows-trans s _ (update_stream now_us other s)
          (queue_producers-Grows other s.producer_subscriptions s)
          (update_stream-Grows now_us other s) in
      update_streams-Queued now_us stream seq sub rest _ m
        (subst (λ subs. Memᴰ sub subs) (sym g.producers) p) y l h

  Queued-has :
      (p : K × ℕ) (sub : Subscription K) (s : SvsPubSub K B A)
      → Queued p sub s
      → has p s.fetch_map ≡ true
  Queued-has p sub s q = elim (Option-cases (find p s.fetch_map)) [
    | inl e ↦
        absurd (
          Memᴰ.not-nil
            (subst (λ (f : Option (List (Subscription K))). Memᴰ sub (some_or f [])) e q))
    | inr (subs, e) ↦ rw e refl
  ]

  -- After an update each reported publication of a producer whose name has the prefix of a producer
  -- subscription is queued for that subscription and, if it was not being fetched, has been asked for
  -- once more and is being fetched.
  pub update_callback_fetches :
      (now_us : ℕ) (info : List (MissingDataInfo K)) (stream : MissingDataInfo K) (seq : ℕ)
      (sub : Subscription K) (s : SvsPubSub K B A)
      → Memᴰ stream info
      → Memᴰ sub s.producer_subscriptions
      → c.is_prefix_of sub.prefix stream.node_id ≡ true
      → stream.low ≤ seq
      → seq ≤ stream.high
      → has (stream.node_id, seq) s.fetching_map ≡ false
      → let later = update_all now_us info s in
        (Queued (stream.node_id, seq) sub later
          × (find (stream.node_id, seq) later.fetching_map ≡ some true)
          × (fetches (stream.node_id, seq) later.calls ≡ fetches (stream.node_id, seq) s.calls + 1))
  unfolding update_all
  update_callback_fetches now_us info stream seq sub s m p y l h idle =
      let publication : K × ℕ = (stream.node_id, seq) in
      let updated = update_streams now_us info s in
      let queued = update_streams-Queued now_us stream seq sub info s m p y l h in
      let grown = update_streams-Grows now_us info s in
      let (count, mark) =
        fetch_all-fetches publication updated (Queued-has publication sub updated queued)
          (subst (λ f. has publication f ≡ false) (sym grown.fetching) idle) in
      (
        subst (λ f. Memᴰ sub (some_or (find publication f) [])) (sym (fetch_map-fetch_all updated))
            queued,
        mark,
        ground (
          arith,
          fetches-append publication (fetch_all updated).calls (PubSubCall.updated info ∷ []),
          count,
          grown.asked publication,
        ),
      )
