-- ===== src/Core/Network/Delivery.antt =====
-- What a delivered Interest brings about.

use m_svs.Base.{ℕ, ◌<◌, ◌≡◌, sym, subst, true, false, List, some, arith, Option-cases, inl, inr}
use m_svs.Std.Ord.{Ord, ◌==◌}
use m_svs.Std.Map.{find}
use m_svs.Names.{Name}
use m_svs.Double.{Double}
use m_svs.VersionVector.{get}
use m_svs.Core.State.{Core}
use m_svs.Core.Handlers.{Env, on_sync_interest_validated}
use m_svs.Core.Build.{get_state_vector_limit, build_sync_vector}
use m_svs.Core.Build.Limit.{
  find-build_sync_vector, build_sync_vector-has, build_sync_vector-IsSorted,
}
use m_svs.VersionVector.{size, has}
use m_svs.Core.Handlers.Progress.{get-on_sync_interest_validated}
use m_svs.Core.Network.{Reach}
use m_svs.Core.Network.Sound.{published, Reach-IsSound}

module _ {K D : Type 0} ⦃o : Ord K⦄ ⦃n : Name K⦄ ⦃d : Double D⦄
    (shuffle : ℕ → List K → List K) where
  same_number :
      (draw : ℕ) (c : Core K D) (k : K)
      → has (build_sync_vector shuffle draw c).0 k ≡ true
      → get (build_sync_vector shuffle draw c).0 k ≡ get c.vv k
  unfolding get
  same_number draw c k h = elim (Option-cases (find k (build_sync_vector shuffle draw c).0.map)) [
    | inl e ↦ ground arith
    | inr (s, e) ↦ ground (arith, find-build_sync_vector shuffle draw c k s e)
  ]

  -- In a reachable group, the receiver of an Interest that a node has just built has exactly the
  -- number that the sender has published, if that has an entry, a name and a limit that is not 0.
  pub deliver_reaches :
      (nodes : K → Core K D) (i j : K) (env : Env) (face draw : ℕ)
      → Reach shuffle nodes
      → 0 < get_state_vector_limit (nodes j) (size (nodes j).vv)
      → (j == n.empty) ≡ false
      → has (nodes j).vv j ≡ true
      → let vector = (build_sync_vector shuffle draw (nodes j)).0 in
        get (on_sync_interest_validated shuffle env face (some vector) (nodes i)).0.vv j
        ≡ published nodes j
  deliver_reaches nodes i j env face draw r limit named own =
      let sender = nodes j in
      let vector = (build_sync_vector shuffle draw sender).0 in
      let sound = Reach-IsSound shuffle nodes r in
      let me = (sound j).named in
      let carried : has vector j ≡ true =
        subst (λ a. has vector a ≡ true) me
          (build_sync_vector-has shuffle draw sender limit
            (subst (λ a. (a == n.empty) ≡ false) (sym me) named)
            (subst (λ a. has sender.vv a ≡ true) (sym me) own)) in
      let sorted = build_sync_vector-IsSorted shuffle draw sender (sound j).local.sorted in
      omega (
        arith,
        get-on_sync_interest_validated shuffle env face vector (nodes i) j sorted,
        same_number draw sender j carried,
        (sound i).local.below j,
      )
