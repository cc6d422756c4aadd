-- ===== src/Core/Build/Rounds.antt =====
-- The score compensation: how many rounds each node has gone unselected.
use m_svs.Base.{ℕ, suc, ◌≡◌, refl, List, [], ◌∷◌, some, none, arith, if◌then◌else◌, some_or}
use m_svs.Std.Ord.{Ord}
use m_svs.Std.Map.{Map, IsSorted, find, insert, find-insert, find-Above}
use m_svs.Std.Map as Map
use m_svs.Names.{Name}
use m_svs.Double.{Double}
use m_svs.VersionVector.{VersionVector, has}
use m_svs.Core.State.{Core}
use m_svs.Core.Build.{known_rounds, count_rounds, build_partial}

module _ {K : Type 0} ⦃o : Ord K⦄ where
  find-known_rounds :
      (vv : VersionVector K) (k : K) (rounds : Map K ℕ)
      → find k (known_rounds vv rounds) ≡ (if has vv k then find k rounds else none)
  unfolding known_rounds find
  find-known_rounds vv k [] = ground arith
  find-known_rounds vv k ((j, n) ∷ rest) =
      ground (arith, find-known_rounds vv k rest, o.beq_iff j k)

  find-count_rounds :
      (selected : VersionVector K) (k : K) (entries rounds : Map K ℕ)
      → IsSorted entries
      → find k (count_rounds selected entries rounds) ≡ (
          if Map.has k entries
          then some (if has selected k then 0 else suc (some_or (find k rounds) 0))
          else find k rounds)
  unfolding count_rounds find
  find-count_rounds selected k [] rounds s = refl
  find-count_rounds selected k ((j, q) ∷ rest) rounds s =
      let n = (if has selected j then 0 else suc (some_or (find j rounds) 0)) in
      ground (
        arith,
        find-count_rounds selected k rest (insert j n rounds) s.1,
        find-insert k j n rounds,
        find-Above j rest s.1 s.0,
        o.beq_iff j k,
      )

module _ {K D : Type 0} ⦃o : Ord K⦄ ⦃n : Name K⦄ ⦃d : Double D⦄
    (shuffle : ℕ → List K → List K) where
  -- After a partial vector is built, each node of the local vector has a count, which is 0 if it was
  -- selected and one more than before if not, and no other node has one; the local map is in key
  -- order.
  pub find-score_unselected_rounds :
      (draw limit : ℕ) (c : Core K D) (k : K)
      → IsSorted c.vv.map
      → let (partial, new) = build_partial shuffle draw limit c in
        find k new.score_unselected_rounds ≡ (
          if has c.vv k
          then some
              (if has partial k then 0 else suc (some_or (find k c.score_unselected_rounds) 0))
          else none)
  unfolding build_partial
  find-score_unselected_rounds draw limit c k sorted =
      let rounds = known_rounds c.vv c.score_unselected_rounds in
      let partial = (build_partial shuffle draw limit c).0 in
      ground (
        arith,
        find-count_rounds partial k c.vv.map rounds sorted,
        find-known_rounds c.vv k c.score_unselected_rounds,
      )
