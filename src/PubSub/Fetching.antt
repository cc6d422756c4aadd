-- ===== src/PubSub/Fetching.antt =====
-- The subscriptions of `SVSPubSub` and the publications that it fetches.
pub mod Count
use m_svs.Base.{
  All, ℕ, suc, ◌%◌, ◌^◌, ◌≡◌, refl, ap, ◌∙◌, Bool, true, false, List, [], ◌∷◌, ◌++◌, some, is_some,
  some_or, subst, Bool-cases, inl, inr, arith, if◌then◌else◌, if_cases, ◌==◌ as nat_eq,
}
use m_svs.Std.Ord.{nat_ord, pair_ord, Ord, ◌==◌, beq_refl}
use m_svs.PubSub.State.{Subscription, SvsPubSub, PubSubCall}
use m_svs.Std.Map.{Map, find, insert, erase, has, find-insert}

module _ {K : Type 0} where
  -- The lambda `unsub`: the first subscription with the handle goes.
  unfoldable pub unsub : ℕ → List (Subscription K) → List (Subscription K)
  unsub handle [] = []
  unsub handle (sub ∷ rest) = if nat_eq sub.id handle then rest else sub ∷ unsub handle rest

module _ {K B A : Type 0} where
  unfoldable pub subscribe : K → Bool → SvsPubSub K B A → SvsPubSub K B A × ℕ
  subscribe prefix packets s =
      let handle = suc s.subscription_count % 2 ^ 32 in
      let sub : Subscription K = record {
        id = handle;
        prefix = prefix;
        is_packet_subscription = packets;
        prefetch = false;
      } in
      (
        record s {
          subscription_count = handle;
          prefix_subscriptions = s.prefix_subscriptions ++ (sub ∷ []);
        },
        handle,
      )

  unfoldable pub subscribe_to_producer : K → Bool → Bool → SvsPubSub K B A → SvsPubSub K B A × ℕ
  subscribe_to_producer node_prefix prefetch packets s =
      let handle = suc s.subscription_count % 2 ^ 32 in
      let sub : Subscription K = record {
        id = handle;
        prefix = node_prefix;
        is_packet_subscription = packets;
        prefetch = prefetch;
      } in
      (
        record s {
          subscription_count = handle;
          producer_subscriptions = s.producer_subscriptions ++ (sub ∷ []);
        },
        handle,
      )

  unfoldable pub unsubscribe : ℕ → SvsPubSub K B A → SvsPubSub K B A
  unsubscribe handle s = record s {
    producer_subscriptions = unsub handle s.producer_subscriptions;
    prefix_subscriptions = unsub handle s.prefix_subscriptions;
  }

module _ {K B A : Type 0} ⦃o : Ord K⦄ where
  -- m_fetchMap[publication].push_back(sub)
  unfoldable pub queue_publication : K × ℕ → Subscription K → SvsPubSub K B A → SvsPubSub K B A
  queue_publication publication sub s = record s {
    fetch_map =
        insert publication (some_or (find publication s.fetch_map) [] ++ (sub ∷ [])) s.fetch_map;
  }

  -- The loop of `processMapping`: is the publication queued for any of the subscriptions?
  unfoldable pub queue_matching :
      (K → Bool) → K × ℕ → List (Subscription K) → SvsPubSub K B A → SvsPubSub K B A × Bool
  queue_matching matches publication [] s = (s, false)
  queue_matching matches publication (sub ∷ rest) s =
      let (queued, any) =
        queue_matching matches publication rest
          (if matches sub.prefix then queue_publication publication sub s else s) in
      (queued, if matches sub.prefix then true else any)

  unfoldable pub fetch_from :
      Map (K × ℕ) (List (Subscription K)) → SvsPubSub K B A → SvsPubSub K B A
  fetch_from [] s = s
  fetch_from ((key, subs) ∷ rest) s = fetch_from rest (
      if has key s.fetching_map then s else record s {
        fetching_map = insert key true s.fetching_map;
        calls = s.calls ++ (PubSubCall.fetch key ∷ []);
      })

  unfoldable pub fetch_all : SvsPubSub K B A → SvsPubSub K B A
  fetch_all s = fetch_from s.fetch_map s

  unfoldable pub clean_up_fetch : K × ℕ → SvsPubSub K B A → SvsPubSub K B A
  clean_up_fetch publication s = record s {
    fetch_map = erase publication s.fetch_map;
    fetching_map = erase publication s.fetching_map;
  }

  abbrev pub Fetching : Map (K × ℕ) (List (Subscription K)) → SvsPubSub K B A → Type 0
  Fetching l s = All (λ (e : (K × ℕ) × List (Subscription K)). has e.0 s.fetching_map ≡ true) l

  fetch_from-has :
      (k : K × ℕ) (l : Map (K × ℕ) (List (Subscription K))) (s : SvsPubSub K B A)
      → has k s.fetching_map ≡ true
      → has k (fetch_from l s).fetching_map ≡ true
  unfolding fetch_from
  fetch_from-has k [] s h = h
  fetch_from-has k ((key, subs) ∷ rest) s h = fetch_from-has k rest _ (
      if_cases (λ (t : SvsPubSub K B A). has k t.fetching_map ≡ true) (has key s.fetching_map)
        (λ _. h) (λ _. ground (arith, find-insert k key true s.fetching_map)))

  fetch_from-Fetching :
      (l : Map (K × ℕ) (List (Subscription K))) (s : SvsPubSub K B A) → Fetching l (fetch_from l s)
  unfolding fetch_from
  fetch_from-Fetching [] s = tt
  fetch_from-Fetching ((key, subs) ∷ rest) s = (
    fetch_from-has key rest _ (
        if_cases (λ (t : SvsPubSub K B A). has key t.fetching_map ≡ true) (has key s.fetching_map)
          (λ e. e) (λ _. ground (arith, find-insert key key true s.fetching_map, beq_refl key))),
    fetch_from-Fetching rest _,
  )

  fetch_from_idle :
      (l : Map (K × ℕ) (List (Subscription K))) (s : SvsPubSub K B A)
      → Fetching l s
      → fetch_from l s ≡ s
  unfolding fetch_from
  fetch_from_idle [] s h = refl
  fetch_from_idle ((key, subs) ∷ rest) s h = rw h.0 (fetch_from_idle rest s h.1)

  fetch_map-fetch_from :
      (l : Map (K × ℕ) (List (Subscription K))) (s : SvsPubSub K B A)
      → (fetch_from l s).fetch_map ≡ s.fetch_map
  unfolding fetch_from
  fetch_map-fetch_from [] s = refl
  fetch_map-fetch_from ((key, subs) ∷ rest) s =
      fetch_map-fetch_from rest _
      ∙ if_cases (λ (t : SvsPubSub K B A). t.fetch_map ≡ s.fetch_map) (has key s.fetching_map)
          (λ _. refl) (λ _. refl)

  -- After `fetchAll` every publication in the fetch map is being fetched, and a second `fetchAll`
  -- fetches nothing again.
  pub fetch_all_once :
      (s : SvsPubSub K B A)
      → Fetching s.fetch_map (fetch_all s) × (fetch_all (fetch_all s) ≡ fetch_all s)
  unfolding fetch_all
  fetch_all_once s =
      let after = fetch_from s.fetch_map s in
      let fetching = fetch_from-Fetching s.fetch_map s in
      (
        fetching,
        ap (λ l. fetch_from l after) (fetch_map-fetch_from s.fetch_map s)
            ∙ fetch_from_idle s.fetch_map after fetching,
      )

  pub fetch_map-fetch_all : (s : SvsPubSub K B A) → (fetch_all s).fetch_map ≡ s.fetch_map
  unfolding fetch_all
  fetch_map-fetch_all s = fetch_map-fetch_from s.fetch_map s

  Fetching-has :
      (k : K × ℕ) (l : Map (K × ℕ) (List (Subscription K))) (s : SvsPubSub K B A)
      → Fetching l s
      → has k l ≡ true
      → has k s.fetching_map ≡ true
  unfolding find
  Fetching-has k [] s f h = ground arith
  Fetching-has k ((key, subs) ∷ rest) s f h = elim (Bool-cases (key == k)) [
    | inl e ↦ subst (λ j. has j s.fetching_map ≡ true) ((pair_ord.beq_iff key k).0 e) f.0
    | inr e ↦
        Fetching-has k rest s f.1
          (subst (λ (b : Bool). is_some (if b then some subs else find k rest) ≡ true) e h)
  ]

  pub fetch_all-has :
      (k : K × ℕ) (s : SvsPubSub K B A)
      → has k s.fetch_map ≡ true
      → has k (fetch_all s).fetching_map ≡ true
  fetch_all-has k s h = Fetching-has k s.fetch_map (fetch_all s) (fetch_all_once s).0 h
