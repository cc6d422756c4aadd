-- ===== src/PubSub/Receive/Delivered.antt =====
-- What the subscribers of a publication are given.
use mathlib.Core.List
use m_svs.Base.{
  All, if◌then◌else◌, ℕ, suc, ◌≡◌, refl, ap, ◌∙◌, Bool, true, false, List, [], ◌∷◌, ◌++◌, some,
  none, length, Bool-cases, inl, inr, arith, ◌<◌, ◌/◌,
}
use m_svs.Std.Ord.{Ord, pair_ord, nat_ord}
use m_svs.Std.Map.{find, insert, IsSorted, find-erase_same, insert-IsSorted}
use m_svs.Names.{Components}
use m_svs.Sync.{Data, data_tlv}
use m_svs.PubSub.{max_data_size, publish_segments}
use m_svs.PubSub.State.{Subscription, InnerData, SubscriptionData, SvsPubSub, PubSubCall}
use m_svs.PubSub.Blocks.{Encapsulation}
use m_svs.PubSub.Segments.{joined, joined-publish_segments, length-publish_segments}
use m_svs.PubSub.Fetching.{clean_up_fetch}
use m_svs.PubSub.Updates.Queued.{queue_of}
use m_svs.PubSub.Receive.{
  deliver_first, has_blob_subscriptions, deliver_buffer, return_data, on_inner_data, on_sync_data,
  send_final_buffer, any_fails, on_complete,
}

module _ {K A : Type 0} where
  deliver_first_all :
      (x : SubscriptionData K A) (subs : List (Subscription K))
      → deliver_first false x subs ≡ List.map (λ sub. PubSubCall.deliver sub x) subs
  unfolding deliver_first
  deliver_first_all x [] = refl
  deliver_first_all x (sub ∷ rest) = ground (arith, deliver_first_all x rest)

  abbrev pub whole : K → List A → K × ℕ → SubscriptionData K A
  whole name value p = record {
    name = name;
    value = value;
    producer_prefix = p.0;
    seq_no = p.1;
    packet = some (record { name = name; content = value; final_block = none });
  }

module _ {K B A : Type 0} ⦃o : Ord K⦄ where
  -- The publication is neither queued nor being fetched.
  abbrev pub Gone : K × ℕ → SvsPubSub K B A → Type 0
  Gone p s = (find p s.fetch_map ≡ none) × (find p s.fetching_map ≡ none)

  clean_up_fetch-Gone :
      (p : K × ℕ) (s : SvsPubSub K B A)
      → IsSorted s.fetch_map
      → IsSorted s.fetching_map
      → Gone p (clean_up_fetch p s)
  unfolding clean_up_fetch
  clean_up_fetch-Gone p s a b =
      (find-erase_same p s.fetch_map a, find-erase_same p s.fetching_map b)

  abbrev pub returned : SubscriptionData K A → K × ℕ → SvsPubSub K B A → SvsPubSub K B A
  returned x p s = record s {
    fetch_map = insert p (queue_of p s) s.fetch_map;
    calls = s.calls ++ deliver_first false x (queue_of p s);
  }

module _ {K B A X : Type 0} ⦃o : Ord K⦄ ⦃c : Components K⦄ where
  return_data-whole :
      (first_data : Data K X) (name : K) (value : List A) (p : K × ℕ) (s : SvsPubSub K B A)
      → return_data first_data (record { name = name; content = value; final_block = none }) p s
        ≡ clean_up_fetch p (returned (whole name value p) p s)
  unfolding return_data
  return_data-whole first_data name value p s =
      elim (Bool-cases (has_blob_subscriptions (queue_of p s))) [
        | inl e ↦ rw e refl
        | inr e ↦ rw e refl
      ]

module _ {K B A X : Type 0} ⦃o : Ord K⦄ ⦃c : Components K⦄ ⦃e : Encapsulation K A X⦄ where
  -- A publication in one packet, once its inner packet is accepted, is given to each subscription for
  -- which it is queued, in order and once, with its name, value and origin; then it is neither queued
  -- nor being fetched, where the two maps are in key order.
  pub on_sync_data_delivers :
      (first_data : Data K X) (name : K) (value : List A) (fresh : ℕ) (p : K × ℕ)
      (s : SvsPubSub K B A)
      → first_data.content_type ≡ data_tlv
      → first_data.content
        ≡ e.wire_encode (record { name = name; content = value; final_block = none }) fresh
      → IsSorted s.fetch_map
      → IsSorted s.fetching_map
      → let later = on_sync_data true first_data p s in
        ((later.calls
            ≡ s.calls
              ++ List.map (λ sub. PubSubCall.deliver sub (whole name value p)) (queue_of p s))
          × Gone p later)
  unfolding on_sync_data on_inner_data return_data
  on_sync_data_delivers first_data name value fresh p s type content sorted fetching =
      let inner : InnerData K A = record { name = name; content = value; final_block = none } in
      let done = returned (whole name value p) p s in
      let opened : on_sync_data true first_data p s ≡ clean_up_fetch p done =
        rw (type, content, e.unwrap_wire inner fresh)
          (return_data-whole first_data name value p s) in
      rw opened (
        unfold clean_up_fetch in
            ap (λ l. s.calls ++ l) (deliver_first_all (whole name value p) (queue_of p s)),
        clean_up_fetch-Gone p done (insert-IsSorted p (queue_of p s) s.fetch_map sorted) fetching,
      )

module _ {K : Type 0} where
  -- The subscriptions that are not for packets.
  abbrev pub blobs : List (Subscription K) → List (Subscription K)
  blobs [] = []
  blobs (sub ∷ rest) = if sub.is_packet_subscription then blobs rest else sub ∷ blobs rest

module _ {K : Type 0} ⦃c : Components K⦄ where
  pub drop_segment_name :
      (i : ℕ) (name : K) → c.drop_last 2 (c.append_segment i (c.append_version 0 name)) ≡ name
  drop_segment_name i name =
      c.drop_segment 1 i (c.append_version 0 name) ∙ c.drop_version 0 0 name ∙ c.drop_none name

module _ {K A : Type 0} ⦃c : Components K⦄ where
  -- The packets that `publish` makes of the contents of the segments, from segment `i` on.
  abbrev pub packets : K → ℕ → ℕ → List (List A) → List (InnerData K A)
  packets name final_block i [] = []
  packets name final_block i (content ∷ rest) =
      record {
        name = c.append_segment i (c.append_version 0 name);
        content = content;
        final_block = some final_block;
      }
      ∷ packets name final_block (suc i) rest

  contents-packets :
      (name : K) (final_block i : ℕ) (l : List (List A))
      → List.map (λ (x : InnerData K A). x.content) (packets name final_block i l) ≡ l
  contents-packets name final_block i [] = refl
  contents-packets name final_block i (content ∷ rest) =
      ap (λ l. content ∷ l) (contents-packets name final_block (suc i) rest)

  All-valid :
      (valid : InnerData K A → Bool) (l : List (InnerData K A))
      → All (λ x. valid x ≡ true) l
      → any_fails valid l ≡ false
  unfolding any_fails
  All-valid valid [] h = refl
  All-valid valid (x ∷ rest) h = rw h.0 (All-valid valid rest h.1)

  abbrev pub assembled : K → List A → K × ℕ → SubscriptionData K A
  assembled name value p = record {
    name = name;
    value = value;
    producer_prefix = p.0;
    seq_no = p.1;
    packet = none;
  }

  deliver_buffer-blobs :
      (x : SubscriptionData K A) (subs : List (Subscription K))
      → deliver_buffer x subs ≡ List.map (λ sub. PubSubCall.deliver sub x) (blobs subs)
  unfolding deliver_buffer
  deliver_buffer-blobs x [] = refl
  deliver_buffer-blobs x (sub ∷ rest) = ground (arith, deliver_buffer-blobs x rest)

module _ {K B A : Type 0} ⦃o : Ord K⦄ ⦃c : Components K⦄ where
  send_valid :
      (failed : Bool) (inner name : K) (buffer value : List A) (p : K × ℕ) (s : SvsPubSub K B A)
      → failed ≡ false
      → inner ≡ name
      → buffer ≡ value
      → send_final_buffer failed inner buffer p s
        ≡ clean_up_fetch p
            (record s { calls = s.calls ++ deliver_buffer (assembled name value p) (queue_of p s) })
  unfolding send_final_buffer
  send_valid failed inner name buffer value p s f i b = rw (f, i, b) refl

  on_complete_parts :
      (valid : InnerData K A → Bool) (name : K) (final_block : ℕ) (l : List (List A)) (p : K × ℕ)
      (s : SvsPubSub K B A)
      → 0 < length l
      → All (λ x. valid x ≡ true) (packets name final_block 0 l)
      → on_complete valid (some (packets name final_block 0 l)) p s
        ≡ clean_up_fetch p (record s {
          calls = s.calls ++ deliver_buffer (assembled name (joined l) p) (queue_of p s);
        })
  unfolding on_complete
  on_complete_parts valid name final_block [] p s some_there all = absurd (omega arith)
  on_complete_parts valid name final_block (content ∷ rest) p s some_there all =
      let parts : List (InnerData K A) = packets name final_block 0 (content ∷ rest) in
      send_valid (any_fails valid parts) _ name _ (joined (content ∷ rest)) p s
        (All-valid valid parts all) (drop_segment_name 0 name)
        (ap joined (contents-packets name final_block 0 (content ∷ rest)))

  -- The segments that `publish` makes of a value, fetched and all accepted, give the value itself to
  -- each subscription of the publication that is not for packets, in order and once, under the name
  -- that was published; then the publication is neither queued nor being fetched, where the two maps
  -- are in key order.
  pub on_complete_delivers :
      (valid : InnerData K A → Bool) (name : K) (value : List A) (p : K × ℕ) (s : SvsPubSub K B A)
      → let sent = packets name (length value / max_data_size) 0 (publish_segments value) in
        All (λ (x : InnerData K A). valid x ≡ true) sent
        → IsSorted s.fetch_map
        → IsSorted s.fetching_map
        → let later = on_complete valid (some sent) p s in
          ((later.calls
              ≡ s.calls
                ++ List.map
                    (λ sub. PubSubCall.deliver sub (assembled name value p))
                    (blobs (queue_of p s)))
            × Gone p later)
  on_complete_delivers valid name value p s all sorted fetching =
      let segments = publish_segments value in
      let done = record s {
        calls = s.calls ++ deliver_buffer (assembled name (joined segments) p) (queue_of p s);
      } in
      rw
        (on_complete_parts valid name (length value / max_data_size) segments p s
          (omega (arith, length-publish_segments value)) all)
        (
          unfold clean_up_fetch in
              ap (λ v. s.calls ++ deliver_buffer (assembled name v p) (queue_of p s))
                (joined-publish_segments value).0
              ∙ ap (λ l. s.calls ++ l)
                  (deliver_buffer-blobs (assembled name value p) (queue_of p s)),
          clean_up_fetch-Gone p done sorted fetching,
        )
