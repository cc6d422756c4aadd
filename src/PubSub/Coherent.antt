-- ===== src/PubSub/Coherent.antt =====
-- The two maps of fetches: in key order, and what is being fetched is queued.
pub mod Steps
pub mod Run
mod Tests
use mathlib.Core.List
use m_svs.Base.{
  All, ℕ, zero, suc, ◌≡◌, refl, ap, ◌∙◌, sym, subst, Bool, true, false, not, ◌&&◌, List, [], ◌∷◌,
  ◌++◌, Option, some, none, is_some, some_or, Option-cases, Bool-cases, inl, inr, if_cases, arith,
  ltb, if◌then◌else◌, ◌==◌ as nat_eq,
}
use m_svs.Std.Ord.{Ord, ◌==◌, beq_refl, pair_ord, nat_ord}
use m_svs.Std.Map.{
  Map, find, insert, erase, has, IsSorted, find-insert, find-erase_same, find-erase_ne,
  insert-IsSorted, erase-IsSorted, All-has,
}
use m_svs.PubSub.State.{Subscription, SvsPubSub, PubSubCall}
use m_svs.PubSub.Fetching.{queue_publication, queue_matching, fetch_from, fetch_all, clean_up_fetch}

module _ {K V : Type 0} ⦃o : Ord K⦄ where
  has-insert :
      (p q : K × ℕ) (v : V) (m : Map (K × ℕ) V) → has p m ≡ true → has p (insert q v m) ≡ true
  has-insert p q v m h = ground (arith, find-insert p q v m)

  has-insert_same : (p : K × ℕ) (v : V) (m : Map (K × ℕ) V) → has p (insert p v m) ≡ true
  has-insert_same p v m = ground (arith, find-insert p p v m, beq_refl p)

module _ {K B A : Type 0} ⦃o : Ord K⦄ where
  pub record IsCoherent (s : SvsPubSub K B A) : Type 0 where
    pub queue_sorted : IsSorted s.fetch_map
    pub fetching_sorted : IsSorted s.fetching_map
    pub queued : (p : K × ℕ) → has p s.fetching_map ≡ true → has p s.fetch_map ≡ true

  -- A state with the same two maps.
  pub same_maps :
      (s t : SvsPubSub K B A)
      → t.fetch_map ≡ s.fetch_map
      → t.fetching_map ≡ s.fetching_map
      → IsCoherent s
      → IsCoherent t
  same_maps s t q f h = record {
    queue_sorted = subst IsSorted (sym q) h.queue_sorted;
    fetching_sorted = subst IsSorted (sym f) h.fetching_sorted;
    queued =
        λ p e. subst (λ m. has p m ≡ true) (sym q) (h.queued p (subst (λ m. has p m ≡ true) f e));
  }

  -- Adding an entry to the queue.
  pub insert_queue-IsCoherent :
      (p : K × ℕ) (subs : List (Subscription K)) (s : SvsPubSub K B A)
      → IsCoherent s
      → IsCoherent (record s { fetch_map = insert p subs s.fetch_map })
  insert_queue-IsCoherent p subs s h = record {
    queue_sorted = insert-IsSorted p subs s.fetch_map h.queue_sorted;
    fetching_sorted = h.fetching_sorted;
    queued = λ q e. has-insert q p subs s.fetch_map (h.queued q e);
  }

  -- A publication in the queue may be marked.
  pub insert_fetching-IsCoherent :
      (p : K × ℕ) (flag : Bool) (s : SvsPubSub K B A)
      → has p s.fetch_map ≡ true
      → IsCoherent s
      → IsCoherent (record s { fetching_map = insert p flag s.fetching_map })
  insert_fetching-IsCoherent p flag s there h = record {
    queue_sorted = h.queue_sorted;
    fetching_sorted = insert-IsSorted p flag s.fetching_map h.fetching_sorted;
    queued = λ q e. elim (Bool-cases (p == q)) [
      | inl same ↦ subst (λ r. has r s.fetch_map ≡ true) ((pair_ord.beq_iff p q).0 same) there
      | inr other ↦ h.queued q (ground (arith, find-insert q p flag s.fetching_map))
    ];
  }

  pub queue_publication-IsCoherent :
      (p : K × ℕ) (sub : Subscription K) (s : SvsPubSub K B A)
      → IsCoherent s
      → IsCoherent (queue_publication p sub s)
  unfolding queue_publication
  queue_publication-IsCoherent p sub s h = insert_queue-IsCoherent p _ s h

  pub queue_matching-IsCoherent :
      (matches : K → Bool) (p : K × ℕ) (subs : List (Subscription K)) (s : SvsPubSub K B A)
      → IsCoherent s
      → IsCoherent (queue_matching matches p subs s).0
  unfolding queue_matching
  queue_matching-IsCoherent matches p [] s h = h
  queue_matching-IsCoherent matches p (sub ∷ rest) s h =
      queue_matching-IsCoherent matches p rest _ (
        if_cases IsCoherent (matches sub.prefix) (λ _. queue_publication-IsCoherent p sub s h)
          (λ _. h))

  abbrev pub QueuedKeys : Map (K × ℕ) (List (Subscription K)) → SvsPubSub K B A → Type 0
  QueuedKeys l s = All (λ (e : (K × ℕ) × List (Subscription K)). has e.0 s.fetch_map ≡ true) l

  fetch_from-IsCoherent :
      (l : Map (K × ℕ) (List (Subscription K))) (s : SvsPubSub K B A)
      → QueuedKeys l s
      → IsCoherent s
      → IsCoherent (fetch_from l s)
  unfolding fetch_from
  fetch_from-IsCoherent [] s all h = h
  fetch_from-IsCoherent ((key, subs) ∷ rest) s all h =
      fetch_from-IsCoherent rest _
        (if_cases (λ (t : SvsPubSub K B A). QueuedKeys rest t) (has key s.fetching_map) (λ _. all.1)
          (λ _. all.1))
        (if_cases IsCoherent (has key s.fetching_map) (λ _. h)
          (λ _.
            same_maps (record s { fetching_map = insert key true s.fetching_map }) _ refl refl
              (insert_fetching-IsCoherent key true s all.0 h)))

  pub fetch_all-IsCoherent : (s : SvsPubSub K B A) → IsCoherent s → IsCoherent (fetch_all s)
  unfolding fetch_all
  fetch_all-IsCoherent s h = fetch_from-IsCoherent s.fetch_map s (All-has s.fetch_map) h

  pub clean_up_fetch-IsCoherent :
      (p : K × ℕ) (s : SvsPubSub K B A) → IsCoherent s → IsCoherent (clean_up_fetch p s)
  unfolding clean_up_fetch
  clean_up_fetch-IsCoherent p s h = record {
    queue_sorted = erase-IsSorted p s.fetch_map h.queue_sorted;
    fetching_sorted = erase-IsSorted p s.fetching_map h.fetching_sorted;
    queued = λ q e. elim (Bool-cases (p == q)) [
      | inl same ↦
          let equal : p ≡ q = (pair_ord.beq_iff p q).0 same in
          let gone : find q (erase p s.fetching_map) ≡ none =
            subst (λ r. find r (erase p s.fetching_map) ≡ none) equal
              (find-erase_same p s.fetching_map h.fetching_sorted) in
          ground (arith, gone)
      | inr other ↦
          ground
            (arith, find-erase_ne q p s.fetching_map, find-erase_ne q p s.fetch_map, h.queued q)
    ];
  }
