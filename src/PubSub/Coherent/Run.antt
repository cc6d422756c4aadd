-- ===== src/PubSub/Coherent/Run.antt =====
-- Any sequence of calls of a node's `SVSPubSub`.

use m_svs.Base.{
  ℕ, ◌≡◌, refl, sym, subst, Bool, true, false, not, ◌&&◌, List, [], ◌∷◌, Option, some, none,
  is_some, if_cases, ltb, ◌==◌ as nat_eq, arith,
}
use m_svs.Std.Ord.{Ord, pair_ord, nat_ord}
use m_svs.Std.Map.{has, find, IsSorted}
use m_svs.Names.{Name, Components}
use m_svs.Tlv.{Elements, Decoded, decoded, tlv_error, out_of_range}
use m_svs.Core.Merge.{MissingDataInfo}
use m_svs.Mapping.{MappingEntryPair, MappingList}
use m_svs.Mapping.Wire.{Item}
use m_svs.Sync.{Data, data_tlv}
use m_svs.PubSub.State.{InnerData, SvsPubSub}
use m_svs.PubSub.Blocks.{Timestamps, Encapsulation}
use m_svs.PubSub.Fetching.{clean_up_fetch, subscribe, subscribe_to_producer, unsubscribe}
use m_svs.PubSub.Updates.{update_callback_internal, on_mapping_list}
use m_svs.PubSub.Updates.Queued.{queue_of}
use m_svs.PubSub.Receive.{
  has_blob_subscriptions, return_data, on_inner_data, on_sync_data, send_final_buffer, any_fails,
  on_complete,
}
use m_svs.PubSub.Publish.{insert_publication, on_get_extra_data, receive_list, on_recv_extra_data}
use m_svs.PubSub.Coherent.{
  IsCoherent, same_maps, insert_queue-IsCoherent, insert_fetching-IsCoherent,
  clean_up_fetch-IsCoherent,
}
use m_svs.PubSub.Coherent.Steps.{update_callback_internal-IsCoherent, on_mapping_list-IsCoherent}

module _ {K B A X : Type 0} ⦃o : Ord K⦄ ⦃c : Components K⦄ where
  return_data-IsCoherent :
      (first_data : Data K X) (inner : InnerData K A) (p : K × ℕ) (s : SvsPubSub K B A)
      → IsCoherent s
      → IsCoherent (return_data first_data inner p s)
  unfolding return_data
  return_data-IsCoherent first_data inner p s h =
      let subs = queue_of p s in
      let entered = insert_queue-IsCoherent p subs s h in
      if_cases IsCoherent
        (has_blob_subscriptions subs
          && (is_some inner.final_block && ltb 2 (c.size first_data.name)))
        (λ _. same_maps _ _ refl refl entered)
        (λ _. clean_up_fetch-IsCoherent p _ (same_maps _ _ refl refl entered))

  on_inner_data-IsCoherent :
      (accepted : Bool) (first_data : Data K X) (p : K × ℕ) (inner : Option (InnerData K A))
      (s : SvsPubSub K B A)
      → IsCoherent s
      → IsCoherent (on_inner_data accepted first_data p inner s)
  unfolding on_inner_data
  on_inner_data-IsCoherent accepted first_data p none s h = h
  on_inner_data-IsCoherent accepted first_data p (some inner) s h =
      if_cases IsCoherent accepted (λ _. return_data-IsCoherent first_data inner p s h) (λ _. h)

  on_sync_data-IsCoherent :
      ⦃e : Encapsulation K A X⦄ (accepted : Bool) (first_data : Data K X) (p : K × ℕ)
      (s : SvsPubSub K B A)
      → has p s.fetching_map ≡ true
      → IsCoherent s
      → IsCoherent (on_sync_data accepted first_data p s)
  unfolding on_sync_data
  on_sync_data-IsCoherent ⦃e⦄ accepted first_data p s fetching h =
      if_cases IsCoherent (not (nat_eq first_data.content_type data_tlv))
        (λ _. insert_fetching-IsCoherent p false s (h.queued p fetching) h)
        (λ _. on_inner_data-IsCoherent accepted first_data p _ s h)

module _ {K B A : Type 0} ⦃o : Ord K⦄ ⦃c : Components K⦄ where
  on_complete-IsCoherent :
      (valid : InnerData K A → Bool) (parts : Option (List (InnerData K A))) (p : K × ℕ)
      (s : SvsPubSub K B A)
      → IsCoherent s
      → IsCoherent (on_complete valid parts p s)
  unfolding on_complete send_final_buffer
  on_complete-IsCoherent valid none p s h = clean_up_fetch-IsCoherent p s h
  on_complete-IsCoherent valid (some []) p s h = clean_up_fetch-IsCoherent p s h
  on_complete-IsCoherent valid (some (x ∷ rest)) p s h =
      if_cases IsCoherent (any_fails valid (x ∷ rest)) (λ _. clean_up_fetch-IsCoherent p s h)
        (λ _. clean_up_fetch-IsCoherent p _ (same_maps s _ refl refl h))

module _ {K E A : Type 0} ⦃o : Ord K⦄ ⦃n : Name K⦄ ⦃c : Components K⦄ ⦃x : Elements K E⦄ where
  receive_list-IsCoherent :
      (l : Decoded (MappingList K E)) (s : SvsPubSub K E A)
      → IsCoherent s
      → IsCoherent (receive_list l s)
  unfolding receive_list
  receive_list-IsCoherent (decoded list) s h = same_maps s _ refl refl h
  receive_list-IsCoherent tlv_error s h = h
  receive_list-IsCoherent out_of_range s h = h

module _ {K E A : Type 0} (X : Type 0) ⦃o : Ord K⦄ ⦃n : Name K⦄ ⦃c : Components K⦄
    ⦃x : Elements K E⦄ ⦃t : Timestamps E⦄ ⦃e : Encapsulation K A X⦄ where
  -- A call, with whatever arguments; data comes for a publication that is being fetched.
  pub data Step (s : SvsPubSub K E A) : SvsPubSub K E A → Type 0 where
    subscribed : (prefix : K) (packets : Bool) → Step s (subscribe prefix packets s).0
    subscribed_to_producer :
        (prefix : K) (prefetch packets : Bool)
        → Step s (subscribe_to_producer prefix prefetch packets s).0
    unsubscribed : (handle : ℕ) → Step s (unsubscribe handle s)
    reported :
        {later : SvsPubSub K E A}
        → (now_us : ℕ) (info : List (MissingDataInfo K))
        → update_callback_internal now_us info s ≡ some later
        → Step s later
    answered :
        (now_us : ℕ) (node_id : K) (pairs : List (ℕ × MappingEntryPair K E))
        → Step s (on_mapping_list now_us node_id pairs s)
    data_came :
        (accepted : Bool) (first_data : Data K X) (p : K × ℕ)
        → has p s.fetching_map ≡ true
        → Step s (on_sync_data accepted first_data p s)
    completed :
        (valid : InnerData K A → Bool) (parts : Option (List (InnerData K A))) (p : K × ℕ)
        → Step s (on_complete valid parts p s)
    failed : (p : K × ℕ) → Step s (clean_up_fetch p s)
    published :
        (now_us : ℕ) (nid : K) (seq_no : ℕ) (name : K) (blocks : List E)
        → Step s (insert_publication now_us nid seq_no name blocks s)
    sent_extra : Step s (on_get_extra_data s).0
    heard_extra : (block : List (Item E)) → Step s (on_recv_extra_data block s)

  pub data Reach : SvsPubSub K E A → Type 0 where
    new : {s : SvsPubSub K E A} → s.fetch_map ≡ [] → s.fetching_map ≡ [] → Reach s
    next : {s t : SvsPubSub K E A} → Reach s → Step s t → Reach t

  Step-IsCoherent : (s t : SvsPubSub K E A) → Step s t → IsCoherent s → IsCoherent t
  unfolding subscribe subscribe_to_producer unsubscribe insert_publication on_get_extra_data
      on_recv_extra_data
  Step-IsCoherent s t (Step.subscribed prefix packets) h = same_maps s _ refl refl h
  Step-IsCoherent s t (Step.subscribed_to_producer prefix prefetch packets) h =
      same_maps s _ refl refl h
  Step-IsCoherent s t (Step.unsubscribed handle) h = same_maps s _ refl refl h
  Step-IsCoherent s t (Step.reported now_us info ends) h =
      update_callback_internal-IsCoherent now_us info s t ends h
  Step-IsCoherent s t (Step.answered now_us node_id pairs) h =
      on_mapping_list-IsCoherent now_us node_id pairs s h
  Step-IsCoherent s t (Step.data_came accepted first_data p fetching) h =
      on_sync_data-IsCoherent accepted first_data p s fetching h
  Step-IsCoherent s t (Step.completed valid parts p) h = on_complete-IsCoherent valid parts p s h
  Step-IsCoherent s t (Step.failed p) h = clean_up_fetch-IsCoherent p s h
  Step-IsCoherent s t (Step.published now_us nid seq_no name blocks) h = same_maps s _ refl refl h
  Step-IsCoherent s t Step.sent_extra h = same_maps s _ refl refl h
  Step-IsCoherent s t (Step.heard_extra block) h = receive_list-IsCoherent _ s h

  -- After any calls on a node that starts with empty maps, the two maps of fetches are in key order
  -- and every publication that is being fetched is queued. The first packet of a publication comes
  -- only while it is being fetched.
  pub Reach-IsCoherent : (s : SvsPubSub K E A) → Reach s → IsCoherent s
  unfolding find
  Reach-IsCoherent s (Reach.new queue fetching) = record {
    queue_sorted = subst IsSorted (sym queue) tt;
    fetching_sorted = subst IsSorted (sym fetching) tt;
    queued = λ p found. ground (arith, subst (λ m. has p m ≡ true) fetching found);
  }
  Reach-IsCoherent t (Reach.next {s = s} reached step) =
      Step-IsCoherent s t step (Reach-IsCoherent s reached)
