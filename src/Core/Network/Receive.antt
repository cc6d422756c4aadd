-- ===== src/Core/Network/Receive.antt =====
-- Receiving, publishing and starting keep the bounds.
use m_svs.Base.{
  ℕ, ◌≤◌, ◌≡◌, refl, Bool, true, false, not, List, Option, some, none, arith, ltb, if◌then◌else◌,
  if_cases,
}
use m_svs.Std.Ord.{Ord, ◌==◌}
use m_svs.Std.Map.{insert-IsSorted}
use m_svs.Names.{Name}
use m_svs.Double.{Double}
use m_svs.VersionVector.{VersionVector, get, set}
use m_svs.Core.Merge.Maximum.{get-set}
use m_svs.Core.State.{Core, SyncSignal}
use m_svs.Core.Timer.{update_sync_interval}
use m_svs.Core.Feedback.{observe_propagation_feedback}
use m_svs.Core.Handlers.{
  Env, merge, record_into, record_vector, enter_from, enter_suppression_state, answer,
  on_sync_interest_validated, update_seq_no, start, sooner, signal_of,
}
use m_svs.Core.Handlers.Frame.{update_sync_interval-Quiet, observe-Quiet}
use m_svs.Core.Network.Below.{IsBelow, IsBelowIf, record_entries-IsBelow}
use m_svs.Core.Network.Honest.{Honest, Quiet-Honest, merge-Honest, retx-Honest}

module _ {K D : Type 0} ⦃o : Ord K⦄ ⦃n : Name K⦄ ⦃d : Double D⦄ (shuffle : ℕ → List K → List K)
    (me : K) (low top : K → ℕ) where
  record_into-Honest :
      (now : ℕ) (other : VersionVector K) (r : Option (VersionVector K)) (c : Core K D)
      → IsBelow top other
      → IsBelowIf top r
      → Honest me low top c
      → Honest me low top (record_into now other r c).0
  unfolding record_into
  record_into-Honest now other none c b r h = h
  record_into-Honest now other (some v) c b r h = record {
    named = h.named;
    local = h.local;
    above = h.above;
    recorded = record_entries-IsBelow now top other v b r;
    told = h.told;
  }

  enter_from-Honest :
      (other : VersionVector K) (r : Option (VersionVector K)) (c : Core K D)
      → IsBelow top other
      → Honest me low top c
      → Honest me low top (enter_from other r c)
  unfolding enter_from
  enter_from-Honest other none c b h = record {
    named = h.named;
    local = h.local;
    above = h.above;
    recorded = b;
    told = h.told;
  }
  enter_from-Honest other (some v) c b h = h

  answer-Honest :
      (env : Env) (other : VersionVector K) (newer : Bool) (c : Core K D)
      → IsBelow top other
      → Honest me low top c
      → Honest me low top (answer shuffle env other newer c)
  unfolding answer enter_suppression_state
  answer-Honest env other newer c b h =
      let entered = enter_suppression_state other c in
      let e = enter_from-Honest other c.recorded_vv c b h in
      if_cases (Honest me low top) (not newer) (λ _. retx-Honest shuffle me low top env false 0 c h)
        (λ _.
          if_cases (Honest me low top) (sooner env.now_us _ entered.next_sync_interest)
            (λ _. retx-Honest shuffle me low top env false _ entered e) (λ _. e))

  -- A handler of an honest node leaves it honest, if the Interest is below the bound.
  pub on_sync_interest-Honest :
      (env : Env) (face : ℕ) (other : VersionVector K) (c : Core K D)
      → IsBelow top other
      → Honest me low top c
      → Honest me low top (on_sync_interest_validated shuffle env face (some other) c).0
  unfolding on_sync_interest_validated record_vector
  on_sync_interest-Honest env face other c b h =
      let observed = observe_propagation_feedback env.now_us other c in
      let (merged, result) = merge env.now other observed in
      let timed = update_sync_interval (signal_of result) env.now_us merged in
      let (recorded, done) = record_vector env.now other timed in
      let m =
        merge-Honest me low top env.now other observed b
          (Quiet-Honest me low top c observed (observe-Quiet env.now_us other c) h) in
      let t =
        Quiet-Honest me low top merged timed
          (update_sync_interval-Quiet (signal_of result) env.now_us merged) m in
      let r = record_into-Honest env.now other timed.recorded_vv timed b t.recorded t in
      if_cases (Honest me low top) done (λ _. r)
        (λ _. answer-Honest env other result.my_vector_new recorded b r)

  set-Honest :
      (c : Core K D) (target : K) (seq now : ℕ)
      → target ≡ me
      → get c.vv me ≤ seq
      → seq ≤ top me
      → Honest me low top c
      → Honest me low top (record c { vv = set c.vv target seq now })
  set-Honest c target seq now own rises b h = record {
    named = h.named;
    local = record {
      sorted = unfold set in insert-IsSorted target seq c.vv.map h.local.sorted;
      below = λ k. ground (
        arith,
        get-set c.vv target k seq now,
        h.local.below k,
        o.beq_iff target k,
        o.beq_iff me k,
      );
    };
    above = λ k.
        ground
          (arith, get-set c.vv target k seq now, h.above k, o.beq_iff target k, o.beq_iff me k);
    recorded = h.recorded;
    told = h.told;
  }

  -- A node that raises its own number within the bound stays honest.
  pub update_seq_no-Honest :
      (env : Env) (seq : ℕ) (c : Core K D)
      → get c.vv me ≤ seq
      → seq ≤ top me
      → Honest me low top c
      → Honest me low top (update_seq_no shuffle env seq me c)
  unfolding update_seq_no
  update_seq_no-Honest env seq c rises b h =
      let target = (if me == n.empty then c.id else me) in
      let updated = record c { vv = set c.vv target seq env.now } in
      let timed = update_sync_interval SyncSignal.local_update env.now_us updated in
      let s =
        set-Honest c target seq env.now
          (if_cases (λ t. t ≡ me) (me == n.empty) (λ _. h.named) (λ _. refl)) rises b h in
      let t =
        Quiet-Honest me low top updated timed
          (update_sync_interval-Quiet SyncSignal.local_update env.now_us updated) s in
      if_cases (Honest me low top) (ltb (get c.vv target) seq)
        (λ _. retx-Honest shuffle me low top env false _ timed t) (λ _. s)

  -- `sendInitialInterest`'s event
  pub start-Honest :
      (env : Env) (c : Core K D) → Honest me low top c → Honest me low top (start shuffle env c)
  unfolding start
  start-Honest env c h = retx-Honest shuffle me low top env true 0 _ (record {
    named = h.named;
    local = h.local;
    above = h.above;
    recorded = h.recorded;
    told = h.told;
  })
