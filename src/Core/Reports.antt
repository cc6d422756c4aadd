-- ===== src/Core/Reports.antt =====
-- What `SVSyncCore` tells the update callback over all that happens at a node.
use mathlib.Core.List
use m_svs.Base.{
  ℕ, ◌+◌, ◌≤◌, ◌≡◌, refl, ap, Bool, true, false, ◌&&◌, List, [], ◌∷◌, ◌++◌, none, some, ltb, leb,
  arith, if◌then◌else◌,
}
use m_svs.Std.Ord.{Ord, ◌==◌}
use m_svs.Std.Map.{Map, IsSorted, find, find-Above}
use m_svs.Names.{Name}
use m_svs.Double.{Double}
use m_svs.VersionVector.{VersionVector, get}
use m_svs.Core.State.{Core}
use m_svs.Core.Merge.{MissingDataInfo, Merging, learn_entry, learn, merge_state_vector}
use m_svs.Core.Merge.Maximum.{seq_in, learn_entry-max}
use m_svs.Core.Feedback.{observe_propagation_feedback}
use m_svs.Core.Handlers.{Env, merge, on_sync_interest_validated}
use m_svs.Core.Handlers.Frame.{observe-Frame}
use m_svs.Core.Handlers.Progress.{from_face}
use m_svs.Core.Network.Honest.{retx-Honest}
use m_svs.Core.Network.Receive.{start-Honest}
use m_svs.Core.Refinement.{
  Event, told_by, replay, IsFair, Implements, handle, run, numbers, receive-Implements,
  publish-Implements, run_refines,
}

abbrev pub one_if : Bool → ℕ
one_if b = if b then 1 else 0

module _ {K : Type 0} ⦃o : Ord K⦄ where
  -- In how many of the ranges is publication `s` of node `k`?
  abbrev pub times_in : List (MissingDataInfo K) → K → ℕ → ℕ
  times_in [] k s = 0
  times_in (i ∷ rest) k s =
      one_if (i.node_id == k && (leb i.low s && leb s i.high)) + times_in rest k s

  times_in-append :
      (xs ys : List (MissingDataInfo K)) (k : K) (s : ℕ)
      → times_in (xs ++ ys) k s ≡ times_in xs k s + times_in ys k s
  times_in-append [] ys k s = omega arith
  times_in-append (x ∷ xs) ys k s = ground (arith, times_in-append xs ys k s)

  times_in-map :
      (face : ℕ) (l : List (MissingDataInfo K)) (k : K) (s : ℕ)
      → times_in (List.map (from_face face) l) k s ≡ times_in l k s
  times_in-map face [] k s = refl
  times_in-map face (i ∷ rest) k s = rw (times_in-map face rest k s)

  learn_entry-times :
      (now : ℕ) (m : Merging K) (nid : K) (q : ℕ) (k : K) (s : ℕ)
      → times_in (learn_entry now m (nid, q)).missing_info k s
        ≡ times_in m.missing_info k s + one_if (nid == k && (ltb (get m.vv nid) s && leb s q))
  unfolding learn_entry
  learn_entry-times now m nid q k s =
      let range : MissingDataInfo K = record {
        node_id = nid;
        low = get m.vv nid + 1;
        high = q;
        incoming_face = 0;
      } in
      ground (arith, times_in-append m.missing_info (range ∷ []) k s)

  learn-times :
      (now : ℕ) (entries : Map K ℕ) (m : Merging K) (k : K) (s : ℕ)
      → IsSorted entries
      → times_in (learn now entries m).missing_info k s
        ≡ times_in m.missing_info k s + one_if (ltb (get m.vv k) s && leb s (seq_in k entries))
  unfolding learn find
  learn-times now [] m k s sorted = ground arith
  learn-times now ((nid, q) ∷ rest) m k s sorted = ground (
    arith,
    learn-times now rest (learn_entry now m (nid, q)) k s sorted.1,
    learn_entry-times now m nid q k s,
    learn_entry-max now m nid q k,
    find-Above nid rest sorted.1 sorted.0,
    o.beq_iff nid k,
  )

module _ {K D : Type 0} ⦃o : Ord K⦄ ⦃n : Name K⦄ ⦃d : Double D⦄
    (shuffle : ℕ → List K → List K) where
  -- One Interest reports each new publication in one range.
  times-on_sync_interest_validated :
      (env : Env) (face : ℕ) (other : VersionVector K) (c : Core K D) (k : K) (s : ℕ)
      → IsSorted other.map
      → times_in (on_sync_interest_validated shuffle env face (some other) c).1 k s
        ≡ one_if (ltb (get c.vv k) s && leb s (get other k))
  unfolding on_sync_interest_validated merge merge_state_vector get
  times-on_sync_interest_validated env face other c k s sorted =
      let observed = observe_propagation_feedback env.now_us other c in
      let same = (observe-Frame env.now_us other c).vv_same in
      let m : Merging K = record {
        vv = observed.vv;
        other_vector_new = false;
        missing_info = [];
      } in
      ground (
        arith,
        times_in-map face (learn env.now other.map m).missing_info k s,
        learn-times env.now other.map m k s sorted,
        ap (λ (v : VersionVector K). get v k) same,
      )

module _ {K : Type 0} ⦃o : Ord K⦄ (me : K) where
  replay_rises :
      (l : List (Event K)) (f : K → ℕ) (k : K) → (me == k) ≡ false → f k ≤ replay me l f k
  replay_rises [] f k other = omega arith
  replay_rises (Event.started env ∷ rest) f k other = replay_rises rest _ k other
  replay_rises (Event.timer env ∷ rest) f k other = replay_rises rest _ k other
  replay_rises (Event.received env face none ∷ rest) f k other = replay_rises rest _ k other
  replay_rises (Event.received env face (some vector) ∷ rest) f k other =
      omega
        (arith, replay_rises rest (told_by me (Event.received env face (some vector)) f) k other)
  replay_rises (Event.published env seq ∷ rest) f k other =
      ground (arith, replay_rises rest (told_by me (Event.published env seq) f) k other)

module _ {K D : Type 0} ⦃o : Ord K⦄ ⦃n : Name K⦄ ⦃d : Double D⦄ (shuffle : ℕ → List K → List K)
    (me : K) where
  abbrev report : Event K → Core K D → List (MissingDataInfo K)
  report (Event.received env face vector) c =
      (on_sync_interest_validated shuffle env face vector c).1
  report event c = []

  -- All ranges that the update callback is told of.
  abbrev pub reports : List (Event K) → Core K D → List (MissingDataInfo K)
  reports [] c = []
  reports (event ∷ rest) c = report event c ++ reports rest (handle shuffle me event c)

  times_in-replayed :
      (l : List (Event K)) (f : K → ℕ) (c : Core K D) (k : K) (s : ℕ)
      → IsFair me l f
      → Implements me f c
      → (me == k) ≡ false
      → times_in (reports l c) k s ≡ one_if (ltb (f k) s && leb s (replay me l f k))
  unfolding handle on_sync_interest_validated
  times_in-replayed [] f c k s fair h other = ground arith
  times_in-replayed (Event.started env ∷ rest) f c k s fair h other =
      times_in-replayed rest f _ k s fair (start-Honest shuffle me f f env c h) other
  times_in-replayed (Event.timer env ∷ rest) f c k s fair h other =
      times_in-replayed rest f _ k s fair (retx-Honest shuffle me f f env true 0 c h) other
  times_in-replayed (Event.received env face none ∷ rest) f c k s fair h other =
      times_in-replayed rest f c k s fair.1 h other
  times_in-replayed (Event.received env face (some vector) ∷ rest) f c k s fair h other =
      let event = Event.received env face (some vector) in
      let g = told_by me event f in
      let next = handle shuffle me event c in
      ground (
        arith,
        times_in-append (report event c) (reports rest next) k s,
        times-on_sync_interest_validated shuffle env face vector c k s fair.0,
        numbers shuffle me f c k h,
        times_in-replayed rest g next k s fair.1
            (receive-Implements shuffle me env face vector f c fair.0 h) other,
        replay_rises me rest g k other,
      )
  times_in-replayed (Event.published env seq ∷ rest) f c k s fair h other = ground (
    arith,
    times_in-replayed rest (told_by me (Event.published env seq) f) _ k s fair.1
        (publish-Implements shuffle me env seq f c fair.0 h) other,
  )

  -- Over all that happens at a node, the update callback is told of each publication of another node
  -- at most once: once if its number lies above the first number of that node and up to the last one,
  -- and not at all otherwise. The vectors that arrive are in key order, and no publication lowers the
  -- node's own number.
  pub times_in-reports :
      (l : List (Event K)) (f : K → ℕ) (c : Core K D) (k : K) (s : ℕ)
      → IsFair me l f
      → Implements me f c
      → (me == k) ≡ false
      → times_in (reports l c) k s
        ≡ one_if (ltb (get c.vv k) s && leb s (get (run shuffle me l c).vv k))
  times_in-reports l f c k s fair h other = ground (
    arith,
    times_in-replayed l f c k s fair h other,
    numbers shuffle me f c k h,
    run_refines shuffle me l f c k fair h,
  )
