-- ===== src/Core/Network/Honest.antt =====
-- The bounds that a node's vectors keep, and that building, sending and scheduling keep them.
use m_svs.Base.{
  All, ℕ, ◌≤◌, ◌≡◌, ◌∙◌, refl, sym, subst, ap, Bool, ◌||◌, List, ◌∷◌, leb, Option-cases, inl, inr,
  Option, some, none, arith, if_cases, ◌*◌,
}
use m_svs.Std.Ord.{Ord}
use m_svs.Std.Map.{find}
use m_svs.Names.{Name}
use m_svs.Double.{Double}
use m_svs.VersionVector.{VersionVector, get}
use m_svs.Core.Merge.Maximum.{get-merge_state_vector}
use m_svs.Core.State.{Core}
use m_svs.Core.Build.{build_sync_vector, build_partial, get_state_vector_limit}
use m_svs.VersionVector.{size}
use m_svs.VersionVector.Select.{is_full}
use m_svs.Core.Build.Limit.{find-build_sync_vector, build_sync_vector-IsSorted}
use m_svs.Core.Handlers.{
  Env, merge, newer_than, should_send, schedule, send_sync_interest, leave_suppression,
  retx_sync_interest, ticks_per_ms, too_early, gap_delay,
}
use m_svs.Core.Handlers.Frame.{Quiet, record_send-Quiet}
use m_svs.Core.Network.Below.{IsBelow, IsBelowIf, merge-IsBelow}

module _ {K D : Type 0} ⦃o : Ord K⦄ where
  -- The node is `me`; its numbers are between `low` and `top`, and so below `top` are those that it
  -- has recorded or sent.
  pub record Honest (me : K) (low top : K → ℕ) (c : Core K D) : Type 0 where
    pub named : c.id ≡ me
    pub local : IsBelow top c.vv
    pub above : (k : K) → low k ≤ get c.vv k
    pub recorded : IsBelowIf top c.recorded_vv
    pub told : All (IsBelow top) c.sent

module _ {K D : Type 0} ⦃o : Ord K⦄ (me : K) (low top : K → ℕ) where
  pub Quiet-Honest : (c new : Core K D) → Quiet c new → Honest me low top c → Honest me low top new
  Quiet-Honest c new q h = record {
    named = ap (λ g. g.id) q.config_same ∙ h.named;
    local = subst (IsBelow top) (sym q.vv_same) h.local;
    above = subst (λ v. (k : K) → low k ≤ get v k) (sym q.vv_same) h.above;
    recorded = subst (IsBelowIf top) (sym q.recorded_same) h.recorded;
    told = subst (All (IsBelow top)) (sym q.sent_same) h.told;
  }

  pub merge-Honest :
      (now : ℕ) (other : VersionVector K) (c : Core K D)
      → IsBelow top other
      → Honest me low top c
      → Honest me low top (merge now other c).0
  unfolding merge
  merge-Honest now other c b h =
      let window = c.max_suppression_time * ticks_per_ms in
      record {
        named = h.named;
        local = merge-IsBelow now window top c.vv other h.local b;
        above =
            λ k. omega (arith, get-merge_state_vector now window c.vv other k b.sorted, h.above k);
        recorded = h.recorded;
        told = h.told;
      }

  newer_than-Honest :
      (now : ℕ) (r : Option (VersionVector K)) (c : Core K D)
      → IsBelowIf top r
      → Honest me low top c
      → Honest me low top (newer_than now r c).0
  unfolding newer_than
  newer_than-Honest now none c b h = h
  newer_than-Honest now (some v) c b h = merge-Honest now v c b h

module _ {K D : Type 0} ⦃o : Ord K⦄ ⦃n : Name K⦄ ⦃d : Double D⦄ (shuffle : ℕ → List K → List K)
    (me : K) (low top : K → ℕ) where
  schedule-Honest :
      (env : Env) (delay : ℕ) (c : Core K D)
      → Honest me low top c
      → Honest me low top (schedule env delay c)
  unfolding schedule
  schedule-Honest env delay c h = record {
    named = h.named;
    local = h.local;
    above = h.above;
    recorded = h.recorded;
    told = h.told;
  }

  build-IsBelow :
      (draw : ℕ) (c : Core K D)
      → Honest me low top c
      → IsBelow top (build_sync_vector shuffle draw c).0
  unfolding get
  build-IsBelow draw c h =
      let vector = (build_sync_vector shuffle draw c).0 in
      record {
        sorted = build_sync_vector-IsSorted shuffle draw c h.local.sorted;
        below = λ k. elim (Option-cases (find k vector.map)) [
          | inl e ↦ ground arith
          | inr (s, e) ↦
              ground (arith, find-build_sync_vector shuffle draw c k s e, h.local.below k)
        ];
      }

  build-Quiet : (draw : ℕ) (c : Core K D) → Quiet c (build_sync_vector shuffle draw c).1
  unfolding build_sync_vector build_partial
  build-Quiet draw c =
      let total = size c.vv in
      let limit = get_state_vector_limit c total in
      if_cases (λ (r : VersionVector K × Core K D). Quiet c r.1)
        (leb total limit || is_full c.state_vector_strategy)
        (λ _. record { vv_same = refl; config_same = refl; recorded_same = refl; sent_same = refl })
        (λ _. record { vv_same = refl; config_same = refl; recorded_same = refl; sent_same = refl })

  send-Honest :
      (env : Env) (c : Core K D)
      → Honest me low top c
      → Honest me low top (send_sync_interest shuffle env c)
  unfolding send_sync_interest
  send-Honest env c h =
      let (vector, built) = build_sync_vector shuffle env.draw c in
      let b = Quiet-Honest me low top c built (build-Quiet env.draw c) h in
      let stamped = record built { last_sync_tx_us = env.now_us; sent = vector ∷ built.sent } in
      if_cases (Honest me low top) c.initialized
        (λ _.
          Quiet-Honest me low top stamped _ (record_send-Quiet (get vector c.id) env.now_us stamped)
            (record {
              named = b.named;
              local = b.local;
              above = b.above;
              recorded = b.recorded;
              told = (build-IsBelow env.draw c h, b.told);
            }))
        (λ _. h)

  leave-Honest :
      (env : Env) (c : Core K D)
      → Honest me low top c
      → Honest me low top (leave_suppression shuffle env c)
  unfolding leave_suppression should_send
  leave-Honest env c h =
      let (checked, newer) = should_send env.now c in
      let b = newer_than-Honest me low top env.now c.recorded_vv c h.recorded h in
      let s =
        if_cases (Honest me low top) newer {x = send_sync_interest shuffle env checked}
          (λ _. send-Honest env checked b) (λ _. b) in
      record { named = s.named; local = s.local; above = s.above; recorded = tt; told = s.told }

  pub retx-Honest :
      (env : Env) (send : Bool) (delay : ℕ) (c : Core K D)
      → Honest me low top c
      → Honest me low top (retx_sync_interest shuffle env send delay c)
  unfolding retx_sync_interest
  retx-Honest env send delay c h =
      if_cases (Honest me low top) send
        (λ _.
          if_cases (Honest me low top) (too_early env.now_us c)
            (λ _. schedule-Honest env (gap_delay env.now_us c) c h)
            (λ _. schedule-Honest env delay _ (leave-Honest env c h)))
        (λ _. schedule-Honest env delay c h)
