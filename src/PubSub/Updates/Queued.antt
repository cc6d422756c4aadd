-- ===== src/PubSub/Updates/Queued.antt =====
-- What is queued stays queued while an update is handled.

use m_svs.Base.{
  ℕ, zero, suc, ◌≡◌, refl, sym, ap, ◌∙◌, subst, Bool, true, false, List, [], ◌∷◌, ◌++◌, Option,
  some, none, some_or, Option-cases, Bool-cases, inl, inr, if_cases, arith, if◌then◌else◌,
}
use mathlib.Core.List.{Memᴰ}
use mathlib.Core.List.Memᴰ
use m_svs.Std.Ord.{Ord, ◌==◌, beq_refl, pair_ord, nat_ord}
use m_svs.Std.Map.{find, find-insert}
use m_svs.Names.{Components}
use m_svs.Core.Merge.{MissingDataInfo}
use m_svs.Mapping.{MappingEntryPair}
use m_svs.PubSub.State.{Subscription, SvsPubSub, PubSubCall}
use m_svs.PubSub.Blocks.{Timestamps}
use m_svs.PubSub.Fetching.Count.{is_fetch, fetches, fetches-append}
use m_svs.PubSub.Fetching.{queue_publication, queue_matching}
use m_svs.PubSub.Updates.{
  call, ask, queue_young, process_entry, process_mapping, process_known, find_mappings,
}

module _ {K B A : Type 0} ⦃o : Ord K⦄ where
  -- The subscriptions for which the publication is to be fetched.
  abbrev pub queue_of : K × ℕ → SvsPubSub K B A → List (Subscription K)
  queue_of p s = some_or (find p s.fetch_map) []

  abbrev pub Queued : K × ℕ → Subscription K → SvsPubSub K B A → Type 0
  Queued p sub s = Memᴰ sub (queue_of p s)

  -- The subscriptions, mappings and the age limit stay, no queue loses one, and nothing is fetched.
  pub record Grows (s t : SvsPubSub K B A) : Type 0 where
    pub queued : (p : K × ℕ) (sub : Subscription K) → Queued p sub s → Queued p sub t
    pub producers : t.producer_subscriptions ≡ s.producer_subscriptions
    pub prefixes : t.prefix_subscriptions ≡ s.prefix_subscriptions
    pub provider : t.mapping_provider ≡ s.mapping_provider
    pub age : t.max_pub_age_us ≡ s.max_pub_age_us
    pub fetching : t.fetching_map ≡ s.fetching_map
    pub asked : (p : K × ℕ) → fetches p t.calls ≡ fetches p s.calls

  pub Grows-refl : (s : SvsPubSub K B A) → Grows s s
  Grows-refl s = record {
    queued = λ p sub h. h;
    producers = refl;
    prefixes = refl;
    provider = refl;
    age = refl;
    fetching = refl;
    asked = λ p. refl;
  }

  pub Grows-trans : (s t u : SvsPubSub K B A) → Grows s t → Grows t u → Grows s u
  Grows-trans s t u g h = record {
    queued = λ p sub q. h.queued p sub (g.queued p sub q);
    producers = h.producers ∙ g.producers;
    prefixes = h.prefixes ∙ g.prefixes;
    provider = h.provider ∙ g.provider;
    age = h.age ∙ g.age;
    fetching = h.fetching ∙ g.fetching;
    asked = λ p. h.asked p ∙ g.asked p;
  }

  queue_of-queue_publication :
      (p q : K × ℕ) (sub : Subscription K) (s : SvsPubSub K B A)
      → queue_of p (queue_publication q sub s)
        ≡ (if q == p then queue_of q s ++ (sub ∷ []) else queue_of p s)
  unfolding queue_publication
  queue_of-queue_publication p q sub s =
      ground (arith, find-insert p q (queue_of q s ++ (sub ∷ [])) s.fetch_map)

  pub queue_publication-Queued :
      (p : K × ℕ) (sub : Subscription K) (s : SvsPubSub K B A)
      → Queued p sub (queue_publication p sub s)
  queue_publication-Queued p sub s =
      let longer : queue_of p (queue_publication p sub s) ≡ queue_of p s ++ (sub ∷ []) =
        ground (arith, queue_of-queue_publication p p sub s, beq_refl p) in
      subst (λ l. Memᴰ sub l) (sym longer) (Memᴰ.append_right (queue_of p s) (Memᴰ.head refl))

  kept-queue_publication :
      (p q : K × ℕ) (other sub : Subscription K) (s : SvsPubSub K B A)
      → Queued p other s
      → Queued p other (queue_publication q sub s)
  kept-queue_publication p q other sub s h =
      subst (λ l. Memᴰ other l) (sym (queue_of-queue_publication p q sub s))
        (elim (Bool-cases (q == p)) [
          | inl e ↦ rw e (
              Memᴰ.append_left (sub ∷ [])
                (subst (λ k. Memᴰ other (queue_of k s)) (sym ((pair_ord.beq_iff q p).0 e)) h))
          | inr e ↦ rw e h
        ])

  pub queue_publication-Grows :
      (q : K × ℕ) (sub : Subscription K) (s : SvsPubSub K B A) → Grows s (queue_publication q sub s)
  queue_publication-Grows q sub s = record {
    queued = λ p other h. kept-queue_publication p q other sub s h;
    producers = unfold queue_publication in refl;
    prefixes = unfold queue_publication in refl;
    provider = unfold queue_publication in refl;
    age = unfold queue_publication in refl;
    fetching = unfold queue_publication in refl;
    asked = λ p. unfold queue_publication in refl;
  }

  -- A call that is no fetch of a publication.
  pub call-Grows :
      (x : PubSubCall K A) (s : SvsPubSub K B A)
      → ((p : K × ℕ) → is_fetch p x ≡ false)
      → Grows s (call x s)
  call-Grows x s other = record {
    queued = λ p sub h. h;
    producers = refl;
    prefixes = refl;
    provider = refl;
    age = refl;
    fetching = refl;
    asked = λ p. ground (arith, fetches-append p s.calls (x ∷ []), other p);
  }

  pub ask-Grows :
      (node_id : K) (face : ℕ) (ranges : List (ℕ × ℕ)) (s : SvsPubSub K B A)
      → Grows s (ask node_id face ranges s)
  unfolding ask
  ask-Grows node_id face [] s = Grows-refl s
  ask-Grows node_id face (range ∷ rest) s =
      Grows-trans s _ _ (call-Grows _ s λ p. refl) (ask-Grows node_id face rest _)

  queue_matching-Grows :
      (matches : K → Bool) (p : K × ℕ) (subs : List (Subscription K)) (s : SvsPubSub K B A)
      → Grows s (queue_matching matches p subs s).0
  unfolding queue_matching
  queue_matching-Grows matches p [] s = Grows-refl s
  queue_matching-Grows matches p (sub ∷ rest) s =
      Grows-trans s _ _
        (if_cases (Grows s) (matches sub.prefix) (λ _. queue_publication-Grows p sub s)
          (λ _. Grows-refl s))
        (queue_matching-Grows matches p rest _)

  -- Each subscription that matches is queued.
  pub queue_matching-Queued :
      (matches : K → Bool) (p : K × ℕ) (sub : Subscription K) (subs : List (Subscription K))
      (s : SvsPubSub K B A)
      → Memᴰ sub subs
      → matches sub.prefix ≡ true
      → Queued p sub (queue_matching matches p subs s).0
  unfolding queue_matching
  queue_matching-Queued matches p sub [] s m h = elim m [ ]
  queue_matching-Queued matches p sub (other ∷ rest) s (Memᴰ.head e) h =
      (queue_matching-Grows matches p rest _).queued p sub (
        if_cases (Queued p sub) (matches other.prefix)
          (λ _.
            subst (λ x. Queued p sub (queue_publication p x s)) e
              (queue_publication-Queued p sub s))
          (λ no. ground (arith, ap (λ (x : Subscription K). matches x.prefix) e)))
  queue_matching-Queued matches p sub (other ∷ rest) s (Memᴰ.tail m) h =
      queue_matching-Queued matches p sub rest _ m h

module _ {K B A : Type 0} ⦃o : Ord K⦄ ⦃c : Components K⦄ ⦃t : Timestamps B⦄ where
  abbrev pub GrowsIf : SvsPubSub K B A → Option (SvsPubSub K B A × Bool) → Type 0
  GrowsIf s none = Unit {0}
  GrowsIf s (some (after, queued)) = Grows s after

  queue_young-Grows :
      (p : K × ℕ) (name : K) (old : Option Bool) (s : SvsPubSub K B A)
      → GrowsIf s (queue_young p name old s)
  unfolding queue_young
  queue_young-Grows p name none s = tt
  queue_young-Grows p name (some true) s = Grows-refl s
  queue_young-Grows p name (some false) s = queue_matching-Grows _ p s.prefix_subscriptions s

  process_entry-Grows :
      (now_us : ℕ) (p : K × ℕ) (known : Option (MappingEntryPair K B)) (s : SvsPubSub K B A)
      → GrowsIf s (process_entry now_us p known s)
  unfolding process_entry
  process_entry-Grows now_us p none s = tt
  process_entry-Grows now_us p (some (name, blocks)) s = queue_young-Grows p name _ s

  pub process_mapping-Grows :
      (now_us : ℕ) (node_id : K) (seq_no : ℕ) (s : SvsPubSub K B A)
      → GrowsIf s (process_mapping now_us node_id seq_no s)
  unfolding process_mapping
  process_mapping-Grows now_us node_id seq_no s = process_entry-Grows now_us _ _ s

  pub process_known-Grows :
      (now_us : ℕ) (node_id : K) (low rounds : ℕ) (s : SvsPubSub K B A)
      → Grows s (process_known now_us node_id low rounds s).0
  unfolding process_known
  process_known-Grows now_us node_id low zero s = Grows-refl s
  process_known-Grows now_us node_id low (suc rounds) s =
      elim (Option-cases (process_mapping now_us node_id low s)) [
        | inl e ↦ rw (process_known, e) (Grows-refl s)
        | inr ((after, queued), e) ↦
            rw (process_known, e)
              (Grows-trans s after _
                (subst (GrowsIf s) e (process_mapping-Grows now_us node_id low s))
                (process_known-Grows now_us node_id (suc low) rounds after))
      ]

  pub find_mappings-Grows :
      (now_us : ℕ) (stream : MissingDataInfo K) (s : SvsPubSub K B A)
      → Grows s (find_mappings now_us stream s)
  unfolding find_mappings
  find_mappings-Grows now_us stream s =
      Grows-trans s _ _ (process_known-Grows now_us stream.node_id stream.low _ s)
        (ask-Grows stream.node_id stream.incoming_face _ _)
