-- ===== src/PubSub/Subscriptions.antt =====
-- The handles that `subscribe` and `subscribeToProducer` give out and `unsubscribe` takes.
use m_svs.Base.{
  ℕ, suc, ◌+◌, ◌%◌, ◌^◌, ◌≤◌, ◌<◌, ◌≡◌, refl, ap, false, Bool, List, [], ◌∷◌, ◌++◌, arith, length,
  if◌then◌else◌, ◌==◌ as nat_eq,
}
use m_svs.PubSub.State.{Subscription, SvsPubSub}
use m_svs.PubSub.Fetching.{unsub, subscribe, subscribe_to_producer, unsubscribe}

-- What an application does with its subscriptions.
pub data Request (K : Type 0) : Type 0 where
  to_prefix : (prefix : K) (packets : Bool) → Request K
  to_producer : (node_prefix : K) (prefetch packets : Bool) → Request K
  cancel : (handle : ℕ) → Request K

module _ {K : Type 0} where
  abbrev pub holders : ℕ → List (Subscription K) → ℕ
  holders handle [] = 0
  holders handle (sub ∷ rest) = (if nat_eq sub.id handle then 1 else 0) + holders handle rest

  -- The subscriptions with another handle.
  abbrev pub without : ℕ → List (Subscription K) → List (Subscription K)
  without handle [] = []
  without handle (sub ∷ rest) =
      if nat_eq sub.id handle then without handle rest else sub ∷ without handle rest

  holders-append :
      (handle : ℕ) (xs ys : List (Subscription K))
      → holders handle (xs ++ ys) ≡ holders handle xs + holders handle ys
  holders-append handle [] ys = omega arith
  holders-append handle (x ∷ xs) ys = ground (arith, holders-append handle xs ys)

  holders-unsub :
      (handle gone : ℕ) (l : List (Subscription K))
      → holders handle (unsub gone l) ≤ holders handle l
  unfolding unsub
  holders-unsub handle gone [] = omega arith
  holders-unsub handle gone (sub ∷ rest) = ground (arith, holders-unsub handle gone rest)

  without_none :
      (handle : ℕ) (l : List (Subscription K)) → holders handle l ≡ 0 → without handle l ≡ l
  without_none handle [] none = refl
  without_none handle (sub ∷ rest) none = ground (arith, without_none handle rest)

  unsub-without :
      (handle : ℕ) (l : List (Subscription K))
      → holders handle l ≤ 1
      → unsub handle l ≡ without handle l
  unfolding unsub
  unsub-without handle [] once = refl
  unsub-without handle (sub ∷ rest) once =
      ground (arith, unsub-without handle rest, without_none handle rest)

no_wrap : (n : ℕ) → n + 1 < 2 ^ 32 → suc n % 2 ^ 32 ≡ n + 1
no_wrap n room = omega arith

module _ {K B A : Type 0} where
  abbrev pub request : Request K → SvsPubSub K B A → SvsPubSub K B A
  request (Request.to_prefix prefix packets) s = (subscribe prefix packets s).0
  request (Request.to_producer node_prefix prefetch packets) s =
      (subscribe_to_producer node_prefix prefetch packets s).0
  request (Request.cancel handle) s = unsubscribe handle s

  abbrev pub requests : List (Request K) → SvsPubSub K B A → SvsPubSub K B A
  requests [] s = s
  requests (r ∷ rest) s = requests rest (request r s)

  abbrev pub holders_of : ℕ → SvsPubSub K B A → ℕ
  holders_of handle s =
      holders handle s.producer_subscriptions + holders handle s.prefix_subscriptions

  -- Each handle has been given out once, and none above the count.
  abbrev IsNumbered : SvsPubSub K B A → Type 0
  IsNumbered s =
      (handle : ℕ)
      → (holders_of handle s ≤ 1) × (s.subscription_count < handle → holders_of handle s ≡ 0)

  request-IsNumbered :
      (r : Request K) (s : SvsPubSub K B A)
      → s.subscription_count + 1 < 2 ^ 32
      → IsNumbered s
      → (IsNumbered (request r s) × ((request r s).subscription_count ≤ s.subscription_count + 1))
  unfolding subscribe subscribe_to_producer unsubscribe
  request-IsNumbered (Request.to_prefix prefix packets) s room h =
      let sub : Subscription K = record {
        id = suc s.subscription_count % 2 ^ 32;
        prefix = prefix;
        is_packet_subscription = packets;
        prefetch = false;
      } in
      (
        λ handle. ground (
          arith,
          no_wrap s.subscription_count room,
          holders-append handle s.prefix_subscriptions (sub ∷ []),
          h handle,
        ),
        omega (arith, no_wrap s.subscription_count room),
      )
  request-IsNumbered (Request.to_producer node_prefix prefetch packets) s room h =
      let sub : Subscription K = record {
        id = suc s.subscription_count % 2 ^ 32;
        prefix = node_prefix;
        is_packet_subscription = packets;
        prefetch = prefetch;
      } in
      (
        λ handle. ground (
          arith,
          no_wrap s.subscription_count room,
          holders-append handle s.producer_subscriptions (sub ∷ []),
          h handle,
        ),
        omega (arith, no_wrap s.subscription_count room),
      )
  request-IsNumbered (Request.cancel gone) s room h = (
    λ handle. ground (
      arith,
      holders-unsub handle gone s.producer_subscriptions,
      holders-unsub handle gone s.prefix_subscriptions,
      h handle,
    ),
    omega arith,
  )

  requests-IsNumbered :
      (l : List (Request K)) (s : SvsPubSub K B A)
      → s.subscription_count + length l < 2 ^ 32
      → IsNumbered s
      → (IsNumbered (requests l s)
          × ((requests l s).subscription_count ≤ s.subscription_count + length l))
  requests-IsNumbered [] s room h = (h, omega arith)
  requests-IsNumbered (r ∷ rest) s room h =
      let (kept, count) = request-IsNumbered r s (omega arith) h in
      let (numbered, bound) = requests-IsNumbered rest (request r s) (omega arith) kept in
      (numbered, omega arith)

  -- After any subscribing and cancelling at a node that had no subscriptions, no two subscriptions
  -- have one handle, of either kind; cancelling removes those with the handle and no other; and the
  -- handle of the next subscription is one that none has. The first count of subscriptions, the
  -- number of requests and one more are together below 2^32.
  pub unsubscribe-without :
      (l : List (Request K)) (s : SvsPubSub K B A) (handle : ℕ) (prefix : K) (packets : Bool)
      → s.producer_subscriptions ≡ []
      → s.prefix_subscriptions ≡ []
      → s.subscription_count + length l + 1 < 2 ^ 32
      → let t = requests l s in
        ((holders_of handle t ≤ 1)
          × ((unsubscribe handle t).producer_subscriptions
              ≡ without handle t.producer_subscriptions)
          × ((unsubscribe handle t).prefix_subscriptions ≡ without handle t.prefix_subscriptions)
          × (holders_of (subscribe prefix packets t).1 t ≡ 0))
  unfolding unsubscribe subscribe
  unsubscribe-without l s handle prefix packets no_producer no_prefix room =
      let t = requests l s in
      let start : IsNumbered s =
        λ handle. ground (arith, ap (holders handle) no_producer, ap (holders handle) no_prefix) in
      let (numbered, bound) = requests-IsNumbered l s (omega arith) start in
      let (once, above) = numbered handle in
      (
        once,
        unsub-without handle t.producer_subscriptions (omega arith),
        unsub-without handle t.prefix_subscriptions (omega arith),
        ground (
          arith,
          no_wrap t.subscription_count (omega arith),
          (numbered (t.subscription_count + 1)).1,
        ),
      )
