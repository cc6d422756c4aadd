-- ===== src/PubSub/Incoming/Fetches.antt =====
-- A Sync Interest makes a subscriber fetch what it announces.
use m_svs.Base.{
  All, false, ◌+◌, ◌^◌, ◌++◌, ap, ◌∙◌, if_cases, ltb, ℕ, ◌≤◌, ◌<◌, ◌≡◌, refl, sym, subst, Bool,
  true, ◌&&◌, List, [], ◌∷◌, Option, some, none, arith, leb, Bool-cases, inl, inr,
}
use mathlib.Core.List
use mathlib.Core.List.{Memᴰ}
use m_svs.PubSub.Fetching.Count.{fetches}
use m_svs.Core.Feedback.{observe_propagation_feedback}
use m_svs.Core.Merge.{Merging, learn, learn_entry, merge_state_vector}
use m_svs.Std.Ord.{Ord, ◌==◌, pair_ord, nat_ord}
use m_svs.Std.Map.{Map, find, has, IsSorted}
use m_svs.Names.{Name, Components}
use m_svs.Double.{Double}
use m_svs.Tlv.{Elements, Decoded, decoded, tlv_error, out_of_range}
use m_svs.VersionVector.{VersionVector, get}
use m_svs.Core.Merge.{MissingDataInfo}
use m_svs.Core.State.{Core}
use m_svs.Core.Merge.Missing.{covers}
use m_svs.Core.Handlers.{Env, merge, on_sync_interest_validated}
use m_svs.Core.Handlers.Dispatch.{SignerType, accepts}
use m_svs.Core.Handlers.Progress.{
  from_face, get-on_sync_interest_validated, covers-on_sync_interest_validated,
}
use m_svs.Mapping.{MappingList}
use m_svs.Mapping.Wire.{Item}
use m_svs.PubSub.State.{Subscription, SvsPubSub}
use m_svs.PubSub.Blocks.{Timestamps}
use m_svs.PubSub.Updates.{update_all, update_callback_internal, loops_end, stream_ends}
use m_svs.PubSub.Updates.Queued.{Queued}
use m_svs.PubSub.Updates.Producers.{update_callback_fetches}
use m_svs.PubSub.Publish.{Publisher, receive_list, on_recv_extra_data}
use m_svs.PubSub.Incoming.{read_extra, report, reporting, on_accepted, on_sync_interest}

module _ {K : Type 0} ⦃o : Ord K⦄ where
  -- A publication that is covered is in one of the ranges.
  covering :
      (info : List (MissingDataInfo K)) (k : K) (s : ℕ)
      → covers info k s ≡ true
      → (i : MissingDataInfo K) × Memᴰ i info × (i.node_id ≡ k) × (i.low ≤ s) × (s ≤ i.high)
  covering [] k s h = ground arith
  covering (i ∷ rest) k s h = elim (Bool-cases (i.node_id == k && (leb i.low s && leb s i.high))) [
    | inl e ↦
        (i, Memᴰ.head refl, (o.beq_iff i.node_id k).0 (ground arith), ground arith, ground arith)
    | inr e ↦
        let (j, m, same, low, high) = covering rest k s (ground arith) in
        (j, Memᴰ.tail m, same, low, high)
  ]

module _ {K E A : Type 0} ⦃o : Ord K⦄ ⦃n : Name K⦄ ⦃c : Components K⦄ ⦃x : Elements K E⦄ where
  -- The same subscriptions, fetches and calls.
  record Kept (s t : SvsPubSub K E A) : Type 0 where
    producers : t.producer_subscriptions ≡ s.producer_subscriptions
    fetching : t.fetching_map ≡ s.fetching_map
    calls : t.calls ≡ s.calls

  Kept-receive_list :
      (l : Decoded (MappingList K E)) (s : SvsPubSub K E A) → Kept s (receive_list l s)
  unfolding receive_list
  Kept-receive_list (decoded list) s = record { producers = refl; fetching = refl; calls = refl }
  Kept-receive_list tlv_error s = record { producers = refl; fetching = refl; calls = refl }
  Kept-receive_list out_of_range s = record { producers = refl; fetching = refl; calls = refl }

  Kept-read_extra :
      (block : Option (List (Item E))) (s : SvsPubSub K E A) → Kept s (read_extra block s)
  unfolding read_extra on_recv_extra_data
  Kept-read_extra none s = record { producers = refl; fetching = refl; calls = refl }
  Kept-read_extra (some block) s = Kept-receive_list _ s

module _ {K : Type 0} ⦃o : Ord K⦄ where
  -- No number is within 11 of 2 ^ 64.
  abbrev pub Small : Map K ℕ → Type 0
  Small m = All (λ (e : K × ℕ). e.1 + 11 < 2 ^ 64) m

module _ {K B A : Type 0} ⦃o : Ord K⦄ ⦃c : Components K⦄ ⦃t : Timestamps B⦄ where
  loops_end-append :
      (l r : List (MissingDataInfo K)) (s : SvsPubSub K B A)
      → loops_end (l ++ r) s ≡ (loops_end l s && loops_end r s)
  unfolding loops_end
  loops_end-append [] r s = refl
  loops_end-append (i ∷ l) r s = ground (arith, loops_end-append l r s)

  loops_end-map :
      (face : ℕ) (l : List (MissingDataInfo K)) (s : SvsPubSub K B A)
      → loops_end (List.map (from_face face) l) s ≡ loops_end l s
  unfolding loops_end stream_ends
  loops_end-map face [] s = refl
  loops_end-map face (i ∷ l) s = rw (loops_end-map face l s) refl

  small_ends :
      (stream : MissingDataInfo K) (s : SvsPubSub K B A)
      → stream.high + 11 < 2 ^ 64
      → stream_ends stream s ≡ true
  unfolding stream_ends
  small_ends stream s small = ground arith

  loops_end-learn :
      (now : ℕ) (entries : Map K ℕ) (m : Merging K) (s : SvsPubSub K B A)
      → Small entries
      → loops_end m.missing_info s ≡ true
      → loops_end (learn now entries m).missing_info s ≡ true
  unfolding learn learn_entry loops_end
  loops_end-learn now [] m s small h = h
  loops_end-learn now ((nid, q) ∷ rest) m s small h =
      let range : MissingDataInfo K = record {
        node_id = nid;
        low = get m.vv nid + 1;
        high = q;
        incoming_face = 0;
      } in
      loops_end-learn now rest (learn_entry now m (nid, q)) s small.1 (
        if_cases (λ (t : Merging K). loops_end t.missing_info s ≡ true) (ltb (get m.vv nid) q)
          (λ _.
            ground
              (arith, loops_end-append m.missing_info (range ∷ []) s, small_ends range s small.0))
          (λ _. h))

module _ {K B A D : Type 0} ⦃o : Ord K⦄ ⦃n : Name K⦄ ⦃c : Components K⦄ ⦃d : Double D⦄
    ⦃t : Timestamps B⦄ (shuffle : ℕ → List K → List K) where
  loops_end-missing :
      (env : Env) (face : ℕ) (vector : VersionVector K) (core : Core K D) (s : SvsPubSub K B A)
      → Small vector.map
      → loops_end (on_sync_interest_validated shuffle env face (some vector) core).1 s ≡ true
  unfolding on_sync_interest_validated merge merge_state_vector loops_end
  loops_end-missing env face vector core s small =
      let observed = observe_propagation_feedback env.now_us vector core in
      let m : Merging K = record {
        vv = observed.vv;
        other_vector_new = false;
        missing_info = [];
      } in
      loops_end-map face (learn env.now vector.map m).missing_info s
      ∙ loops_end-learn env.now vector.map m s small refl

module _ {K B A : Type 0} ⦃o : Ord K⦄ ⦃c : Components K⦄ ⦃t : Timestamps B⦄ where
  -- What the update does with a publication that was not being fetched.
  abbrev pub Asked : K × ℕ → Subscription K → SvsPubSub K B A → SvsPubSub K B A → Type 0
  Asked p sub s later =
      Queued p sub later
      × (find p later.fetching_map ≡ some true)
      × (fetches p later.calls ≡ fetches p s.calls + 1)

  report_fetches :
      (now_us : ℕ) (info : List (MissingDataInfo K)) (k : K) (seq : ℕ) (sub : Subscription K)
      (s : SvsPubSub K B A)
      → loops_end info s ≡ true
      → covers info k seq ≡ true
      → Memᴰ sub s.producer_subscriptions
      → c.is_prefix_of sub.prefix k ≡ true
      → has (k, seq) s.fetching_map ≡ false
      → ((later : SvsPubSub K B A) × (report now_us info s ≡ some later)
          × Asked (k, seq) sub s later)
  unfolding report update_callback_internal
  report_fetches now_us [] k seq sub s ends h p y idle = ground arith
  report_fetches now_us (i ∷ rest) k seq sub s ends h p y idle =
      let (stream, m, e, l, g) = covering (i ∷ rest) k seq h in
      let later = update_all now_us (i ∷ rest) s in
      (
        later,
        rw ends refl,
        subst (λ j. Asked (j, seq) sub s later) e
            (update_callback_fetches now_us (i ∷ rest) stream seq sub s m p
              (subst (λ j. c.is_prefix_of sub.prefix j ≡ true) (sym e) y) l g
              (subst (λ j. has (j, seq) s.fetching_map ≡ false) (sym e) idle)),
      )

module _ {K E A D X S T : Type 0} ⦃o : Ord K⦄ ⦃n : Name K⦄ ⦃c : Components K⦄ ⦃d : Double D⦄
    ⦃x : Elements K E⦄ ⦃t : Timestamps E⦄ (shuffle : ℕ → List K → List K) where
  -- When a Sync Interest that is accepted announces publications of a producer that are above the
  -- local number, the handler ends, and each of them that was not being fetched has been asked for
  -- once and is being fetched, is queued for every subscription with a prefix of the producer's name,
  -- and the local number is the announced one, whatever the extra block is. The received map is in key
  -- order, and all its numbers are more than 11 below 2 ^ 64.
  pub on_sync_interest_fetches :
      (signer : SignerType) (verified : Bool) (validated : Option Bool) (env : Env)
      (now_us face : ℕ) (vector : VersionVector K) (block : Option (List (Item E))) (k : K)
      (seq : ℕ) (sub : Subscription K) (p : Publisher K E A D X S T)
      → accepts signer verified validated ≡ true
      → IsSorted vector.map
      → Small vector.map
      → Memᴰ sub p.pubsub.producer_subscriptions
      → c.is_prefix_of sub.prefix k ≡ true
      → has (k, seq) p.pubsub.fetching_map ≡ false
      → get p.svsync.core.vv k < seq
      → seq ≤ get vector k
      → ((later : Publisher K E A D X S T) × (on_sync_interest shuffle signer verified validated env
              now_us face
              (some vector)
              block
              p
            ≡ some later)
          × Asked (k, seq) sub p.pubsub later.pubsub
          × (get later.svsync.core.vv k ≡ get vector k))
  unfolding on_sync_interest on_accepted
  on_sync_interest_fetches signer verified validated env now_us face vector block k seq sub p
        accepted sorted small m y idle l h =
      let (core, missing) =
        on_sync_interest_validated shuffle env face (some vector) p.svsync.core in
      let before = read_extra block p.pubsub in
      let kept = Kept-read_extra block p.pubsub in
      let told : covers missing k seq ≡ true = ground (
        arith,
        (covers-on_sync_interest_validated shuffle env face vector p.svsync.core k seq sorted).0,
      ) in
      let (pubsub, reported, (queued, mark, count)) =
        report_fetches now_us missing k seq sub before
          (loops_end-missing shuffle env face vector p.svsync.core before small) told
          (subst (λ subs. Memᴰ sub subs) (sym kept.producers) m) y
          (subst (λ f. has (k, seq) f ≡ false) (sym kept.fetching) idle) in
      let later : Publisher K E A D X S T = record {
        pubsub = pubsub;
        svsync = record p.svsync { core = core };
      } in
      (
        later,
        rw accepted (ap (reporting later.svsync) reported),
        (queued, mark, count ∙ ap (λ l. fetches (k, seq) l + 1) kept.calls),
        omega
            (arith, get-on_sync_interest_validated shuffle env face vector p.svsync.core k sorted),
      )
