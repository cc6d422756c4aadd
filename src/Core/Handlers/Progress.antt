-- ===== src/Core/Handlers/Progress.antt =====
-- What an incoming Interest and a local publication do to the local state vector.
use m_svs.Base.{
  All, ℕ, ◌*◌, ◌≡◌, refl, ap, ◌∙◌, Bool, false, not, ◌&&◌, List, [], ◌∷◌, some, arith, ltb, leb,
  if◌then◌else◌, if_cases, max,
}
use mathlib.Core.List
use m_svs.Std.Ord.{Ord, ◌==◌}
use m_svs.Std.Map.{IsSorted}
use m_svs.Names.{Name}
use m_svs.Double.{Double}
use m_svs.VersionVector.{VersionVector, get, set}
use m_svs.Core.Merge.{MissingDataInfo, merge_state_vector}
use m_svs.Core.Merge.Maximum.{get-set, get-merge_state_vector}
use m_svs.Core.Merge.Missing.{covers, covers-merge_state_vector}
use m_svs.Core.State.{Core, SyncSignal}
use m_svs.Core.Timer.{update_sync_interval}
use m_svs.Core.Feedback.{observe_propagation_feedback}
use m_svs.Core.Handlers.{
  Env, merge, record_vector, enter_suppression_state, schedule, retx_sync_interest, answer,
  on_sync_interest_validated, update_seq_no, signal_of, ticks_per_ms, sooner,
}
use m_svs.Core.Handlers.Frame.{
  Frame, Frame-refl, Frame-trans, update_sync_interval-Frame, observe-Frame, record_vector-Frame,
  enter-Frame,
}

abbrev pub from_face : {K : Type 0} → ℕ → MissingDataInfo K → MissingDataInfo K
from_face face i = record i { incoming_face = face }

module _ {K : Type 0} ⦃o : Ord K⦄ where
  covers-map :
      (face : ℕ) (l : List (MissingDataInfo K)) (k : K) (s : ℕ)
      → covers (List.map (from_face face) l) k s ≡ covers l k s
  covers-map face [] k s = refl
  covers-map face (i ∷ rest) k s = rw (covers-map face rest k s)

  All-map_face :
      (face : ℕ) (l : List (MissingDataInfo K))
      → All (λ (i : MissingDataInfo K). i.incoming_face ≡ face) (List.map (from_face face) l)
  All-map_face face [] = tt
  All-map_face face (i ∷ rest) = (refl, All-map_face face rest)

module _ {K D : Type 0} ⦃o : Ord K⦄ ⦃n : Name K⦄ ⦃d : Double D⦄
    (shuffle : ℕ → List K → List K) where
  retx_later-Frame :
      (env : Env) (delay : ℕ) (c : Core K D)
      → Frame c (retx_sync_interest shuffle env false delay c)
  unfolding retx_sync_interest schedule
  retx_later-Frame env delay c = record { vv_same = refl; config_same = refl }

  answer-Frame :
      (env : Env) (other : VersionVector K) (newer : Bool) (c : Core K D)
      → Frame c (answer shuffle env other newer c)
  unfolding answer
  answer-Frame env other newer c =
      let entered = enter_suppression_state other c in
      if_cases (Frame c) (not newer) (λ _. retx_later-Frame env 0 c)
        (λ _.
          if_cases (Frame c) (sooner env.now_us _ entered.next_sync_interest)
            (λ _. Frame-trans (enter-Frame other c) (retx_later-Frame env _ entered))
            (λ _. enter-Frame other c))

  abbrev window : Core K D → ℕ
  window c = c.max_suppression_time * ticks_per_ms

  -- The vector after an Interest is the merge of the vector before with the received one, by the
  -- suppression time in force once the echo has been observed.
  on_sync_interest-vv :
      (env : Env) (face : ℕ) (other : VersionVector K) (c : Core K D)
      → let observed = observe_propagation_feedback env.now_us other c in
        (on_sync_interest_validated shuffle env face (some other) c).0.vv
        ≡ (merge_state_vector env.now (window observed) c.vv other).0
  unfolding on_sync_interest_validated merge
  on_sync_interest-vv env face other c =
      let observed = observe_propagation_feedback env.now_us other c in
      let (merged, result) = merge env.now other observed in
      let timed = update_sync_interval (signal_of result) env.now_us merged in
      let (recorded, done) = record_vector env.now other timed in
      let kept : Frame merged
          (if done then recorded else answer shuffle env other result.my_vector_new recorded) =
        Frame-trans (update_sync_interval-Frame (signal_of result) env.now_us merged) (
          Frame-trans (record_vector-Frame env.now other timed) (
            if_cases (Frame recorded) done (λ _. Frame-refl recorded)
              (λ _. answer-Frame env other result.my_vector_new recorded))) in
      kept.vv_same
      ∙ ap (λ (v : VersionVector K). (merge_state_vector env.now (window observed) v other).0)
          (observe-Frame env.now_us other c).vv_same

  -- A valid Interest leaves each number at the greater of the local and the received one, whatever
  -- the state, the clocks and the random draws; the received map is in key order.
  pub get-on_sync_interest_validated :
      (env : Env) (face : ℕ) (other : VersionVector K) (c : Core K D) (k : K)
      → IsSorted other.map
      → get (on_sync_interest_validated shuffle env face (some other) c).0.vv k
        ≡ max (get c.vv k) (get other k)
  get-on_sync_interest_validated env face other c k sorted =
      let observed = observe_propagation_feedback env.now_us other c in
      ap (λ (v : VersionVector K). get v k) (on_sync_interest-vv env face other c)
      ∙ get-merge_state_vector env.now (window observed) c.vv other k sorted

  -- The update callback is told exactly of the publications above the local number and up to the
  -- received one, and each of its ranges names the face that the Interest came from; the received
  -- map is in key order.
  pub covers-on_sync_interest_validated :
      (env : Env) (face : ℕ) (other : VersionVector K) (c : Core K D) (k : K) (s : ℕ)
      → IsSorted other.map
      → let told = (on_sync_interest_validated shuffle env face (some other) c).1 in
        (covers told k s ≡ (ltb (get c.vv k) s && leb s (get other k)))
        × All (λ (i : MissingDataInfo K). i.incoming_face ≡ face) told
  unfolding on_sync_interest_validated merge
  covers-on_sync_interest_validated env face other c k s sorted =
      let observed = observe_propagation_feedback env.now_us other c in
      let same = (observe-Frame env.now_us other c).vv_same in
      let result = merge_state_vector env.now (window observed) observed.vv other in
      (
        ground (
          arith,
          covers-map face result.1.missing_info k s,
          covers-merge_state_vector env.now (window observed) observed.vv other k s sorted,
          get-merge_state_vector env.now (window observed) observed.vv other k sorted,
          ap (λ (v : VersionVector K). get v k) same,
        ),
        All-map_face face result.1.missing_info,
      )

  -- `updateSeqNo` sets the number of the given node, or of the local one if the name is empty, and
  -- no other, also where the new number is lower.
  pub get-update_seq_no :
      (env : Env) (seq : ℕ) (nid k : K) (c : Core K D)
      → get (update_seq_no shuffle env seq nid c).vv k
        ≡ (if (if nid == n.empty then c.id else nid) == k then seq else get c.vv k)
  unfolding update_seq_no
  get-update_seq_no env seq nid k c =
      let target = (if nid == n.empty then c.id else nid) in
      let updated = record c { vv = set c.vv target seq env.now } in
      let timed = update_sync_interval SyncSignal.local_update env.now_us updated in
      let kept = update_sync_interval-Frame SyncSignal.local_update env.now_us updated in
      let P : Core K D → Type 0 = λ new. get new.vv k ≡ (if target == k then seq else get c.vv k) in
      if_cases P (ltb (get c.vv target) seq)
        (λ _.
          ap (λ (v : VersionVector K). get v k)
            (Frame-trans kept (retx_later-Frame env _ timed)).vv_same
          ∙ get-set c.vv target k seq env.now)
        (λ _. get-set c.vv target k seq env.now)
