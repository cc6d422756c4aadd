-- ===== src/PubSub/Coherent/Steps.antt =====
-- Every handler of `SVSPubSub` keeps the maps coherent.

use m_svs.Base.{
  ap, ◌≡◌, Bool-cases, some_or, ℕ, zero, suc, ◌-◌, refl, subst, Bool, true, false, List, [], ◌∷◌,
  Option, some, none, Option-cases, inl, inr, if_cases,
}
use m_svs.Std.Ord.{Ord, pair_ord, nat_ord}
use m_svs.Names.{Components}
use m_svs.Core.Merge.{MissingDataInfo}
use m_svs.Mapping.{MappingEntryPair}
use m_svs.PubSub.State.{Subscription, SvsPubSub}
use m_svs.PubSub.Blocks.{Timestamps}
use m_svs.PubSub.Updates.{
  ask, queue_young, process_entry, process_mapping, process_known, find_mappings, queue_range,
  queue_producer, queue_producers, update_stream, update_streams, update_all,
  update_callback_internal, loops_end, process_listed, fetch_queued, on_mapping_list,
}
use m_svs.PubSub.Coherent.{
  IsCoherent, same_maps, queue_publication-IsCoherent, queue_matching-IsCoherent,
  fetch_all-IsCoherent,
}

module _ {K B A : Type 0} ⦃o : Ord K⦄ ⦃c : Components K⦄ ⦃t : Timestamps B⦄ where
  abbrev IsCoherentIf : Option (SvsPubSub K B A × Bool) → Type 0
  IsCoherentIf none = Unit {0}
  IsCoherentIf (some (after, queued)) = IsCoherent after

  queue_young-IsCoherent :
      (p : K × ℕ) (name : K) (old : Option Bool) (s : SvsPubSub K B A)
      → IsCoherent s
      → IsCoherentIf (queue_young p name old s)
  unfolding queue_young
  queue_young-IsCoherent p name none s h = tt
  queue_young-IsCoherent p name (some true) s h = h
  queue_young-IsCoherent p name (some false) s h =
      queue_matching-IsCoherent _ p s.prefix_subscriptions s h

  process_entry-IsCoherent :
      (now_us : ℕ) (p : K × ℕ) (known : Option (MappingEntryPair K B)) (s : SvsPubSub K B A)
      → IsCoherent s
      → IsCoherentIf (process_entry now_us p known s)
  unfolding process_entry
  process_entry-IsCoherent now_us p none s h = tt
  process_entry-IsCoherent now_us p (some (name, blocks)) s h = queue_young-IsCoherent p name _ s h

  process_mapping-IsCoherent :
      (now_us : ℕ) (node_id : K) (seq : ℕ) (s : SvsPubSub K B A)
      → IsCoherent s
      → IsCoherentIf (process_mapping now_us node_id seq s)
  unfolding process_mapping
  process_mapping-IsCoherent now_us node_id seq s h = process_entry-IsCoherent now_us _ _ s h

  process_known-IsCoherent :
      (now_us : ℕ) (node_id : K) (low rounds : ℕ) (s : SvsPubSub K B A)
      → IsCoherent s
      → IsCoherent (process_known now_us node_id low rounds s).0
  unfolding process_known
  process_known-IsCoherent now_us node_id low zero s h = h
  process_known-IsCoherent now_us node_id low (suc rounds) s h =
      elim (Option-cases (process_mapping now_us node_id low s)) [
        | inl e ↦ rw (process_known, e) h
        | inr ((after, queued), e) ↦
            rw (process_known, e)
              (process_known-IsCoherent now_us node_id (suc low) rounds after
                (subst IsCoherentIf e (process_mapping-IsCoherent now_us node_id low s h)))
      ]

  ask-IsCoherent :
      (node_id : K) (face : ℕ) (ranges : List (ℕ × ℕ)) (s : SvsPubSub K B A)
      → IsCoherent s
      → IsCoherent (ask node_id face ranges s)
  unfolding ask
  ask-IsCoherent node_id face [] s h = h
  ask-IsCoherent node_id face (range ∷ rest) s h =
      ask-IsCoherent node_id face rest _ (same_maps s _ refl refl h)

  find_mappings-IsCoherent :
      (now_us : ℕ) (stream : MissingDataInfo K) (s : SvsPubSub K B A)
      → IsCoherent s
      → IsCoherent (find_mappings now_us stream s)
  unfolding find_mappings
  find_mappings-IsCoherent now_us stream s h =
      ask-IsCoherent stream.node_id stream.incoming_face _ _
        (process_known-IsCoherent now_us stream.node_id stream.low _ s h)

  queue_range-IsCoherent :
      (node_id : K) (i rounds : ℕ) (sub : Subscription K) (s : SvsPubSub K B A)
      → IsCoherent s
      → IsCoherent (queue_range node_id i rounds sub s)
  unfolding queue_range
  queue_range-IsCoherent node_id i zero sub s h = h
  queue_range-IsCoherent node_id i (suc rounds) sub s h =
      queue_range-IsCoherent node_id (suc i) rounds sub _
        (queue_publication-IsCoherent (node_id, i) sub s h)

  queue_producers-IsCoherent :
      (stream : MissingDataInfo K) (subs : List (Subscription K)) (s : SvsPubSub K B A)
      → IsCoherent s
      → IsCoherent (queue_producers stream subs s)
  unfolding queue_producers queue_producer
  queue_producers-IsCoherent stream [] s h = h
  queue_producers-IsCoherent stream (sub ∷ rest) s h =
      let q =
        queue_range-IsCoherent stream.node_id stream.low (suc stream.high - stream.low) sub s h in
      queue_producers-IsCoherent stream rest _ (
        if_cases IsCoherent (c.is_prefix_of sub.prefix stream.node_id)
          (λ _. if_cases IsCoherent sub.prefetch (λ _. same_maps _ _ refl refl q) (λ _. q))
          (λ _. h))

  update_stream_end :
      (now_us : ℕ) (stream : MissingDataInfo K) (subs : List (Subscription K)) (s : SvsPubSub K B A)
      → IsCoherent s
      → IsCoherent (elim subs [ [] ↦ s | sub ∷ rest ↦ find_mappings now_us stream s ])
  update_stream_end now_us stream [] s h = h
  update_stream_end now_us stream (sub ∷ rest) s h = find_mappings-IsCoherent now_us stream s h

  update_streams-IsCoherent :
      (now_us : ℕ) (info : List (MissingDataInfo K)) (s : SvsPubSub K B A)
      → IsCoherent s
      → IsCoherent (update_streams now_us info s)
  unfolding update_streams update_stream
  update_streams-IsCoherent now_us [] s h = h
  update_streams-IsCoherent now_us (stream ∷ rest) s h = update_streams-IsCoherent now_us rest _ (
      update_stream_end now_us stream s.prefix_subscriptions _
        (queue_producers-IsCoherent stream s.producer_subscriptions s h))

  pub update_all-IsCoherent :
      (now_us : ℕ) (info : List (MissingDataInfo K)) (s : SvsPubSub K B A)
      → IsCoherent s
      → IsCoherent (update_all now_us info s)
  unfolding update_all
  update_all-IsCoherent now_us info s h =
      same_maps _ _ refl refl (fetch_all-IsCoherent _ (update_streams-IsCoherent now_us info s h))

  pub update_callback_internal-IsCoherent :
      (now_us : ℕ) (info : List (MissingDataInfo K)) (s later : SvsPubSub K B A)
      → update_callback_internal now_us info s ≡ some later
      → IsCoherent s
      → IsCoherent later
  unfolding update_callback_internal
  update_callback_internal-IsCoherent now_us info s later ends h =
      let updated = update_all now_us info s in
      elim (Bool-cases (loops_end info s)) [
        | inl e ↦
            let same : updated ≡ later = ap (λ r. some_or r updated) (rw e at ends) in
            subst IsCoherent same (update_all-IsCoherent now_us info s h)
        | inr e ↦ absurd (cc (rw e at ends))
      ]

  process_listed-IsCoherent :
      (now_us : ℕ) (node_id : K) (l : List (ℕ × MappingEntryPair K B)) (queued : Bool)
      (s : SvsPubSub K B A)
      → IsCoherent s
      → IsCoherent (process_listed now_us node_id l queued s).0
  unfolding process_listed
  process_listed-IsCoherent now_us node_id [] queued s h = h
  process_listed-IsCoherent now_us node_id ((seq, mapping) ∷ rest) queued s h =
      elim (Option-cases (process_mapping now_us node_id seq s)) [
        | inl e ↦ rw (process_listed, e) h
        | inr ((after, more), e) ↦
            rw (process_listed, e)
              (process_listed-IsCoherent now_us node_id rest _ after
                (subst IsCoherentIf e (process_mapping-IsCoherent now_us node_id seq s h)))
      ]

  fetch_queued-IsCoherent :
      (queued : Option Bool) (s : SvsPubSub K B A)
      → IsCoherent s
      → IsCoherent (fetch_queued queued s)
  unfolding fetch_queued
  fetch_queued-IsCoherent none s h = h
  fetch_queued-IsCoherent (some queued) s h =
      if_cases IsCoherent queued (λ _. fetch_all-IsCoherent s h) (λ _. h)

  pub on_mapping_list-IsCoherent :
      (now_us : ℕ) (node_id : K) (l : List (ℕ × MappingEntryPair K B)) (s : SvsPubSub K B A)
      → IsCoherent s
      → IsCoherent (on_mapping_list now_us node_id l s)
  unfolding on_mapping_list
  on_mapping_list-IsCoherent now_us node_id l s h =
      fetch_queued-IsCoherent _ _
        (process_listed-IsCoherent now_us node_id l false _ (same_maps s _ refl refl h))
