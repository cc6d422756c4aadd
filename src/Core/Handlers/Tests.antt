-- ===== src/Core/Handlers/Tests.antt =====
-- The handlers at concrete states.
use m_svs.Base.{
  All, ℕ, ◌+◌, ◌*◌, ◌≤◌, ◌≡◌, refl, true, false, ◌&&◌, List, [], ◌∷◌, some, arith, ltb, leb,
  if◌then◌else◌, max,
}
use m_svs.Std.Ord.{nat_ord}
use m_svs.Std.Map.{find}
use m_svs.Double.{fmax, fmin, fclamp}
use m_svs.VersionVector.{VersionVector, SubsetStrategy, get, get_last_update}
use m_svs.Core.Merge.{MissingDataInfo, merge_state_vector, learn, learn_entry}
use m_svs.Core.Merge.Missing.{covers}
use m_svs.Core.State.{Core, TimerMode}
use m_svs.Core.Timer.{timer_hotness}
use m_svs.Core.Build.{build_sync_vector}
use m_svs.Core.Handlers.{
  merge, too_early, min_gap_us, gap_delay, retx_sync_interest, on_sync_interest_validated,
  ticks_per_ms,
}
use m_svs.Core.Handlers.Progress.{get-on_sync_interest_validated, covers-on_sync_interest_validated}
use m_svs.Core.Handlers.Suppression.{
  gap_passed, worth_sending, with_recorded, sent-retx_sync_interest, too_early-gap_delay,
}
use m_svs.Samples.{millionths, numbered, configured, node, instant, four_nodes}

abbrev unshuffled : ℕ → List ℕ → List ℕ
unshuffled seed l = l

abbrev two : Core ℕ ℕ
two = node (configured 2 SubsetStrategy.hybrid TimerMode.network_aware) four_nodes

-- Ahead at nodes 3 and 5, behind at node 2.
abbrev other : VersionVector ℕ
other = record { map = (2, 6) ∷ (3, 4) ∷ (5, 1) ∷ []; last_update = [] }

get-on_sync_interest_validated_example :
    get (on_sync_interest_validated unshuffled (instant 900) 4 (some other) two).0.vv 3
    ≡ max (get two.vv 3) (get other 3)
get-on_sync_interest_validated_example =
    get-on_sync_interest_validated unshuffled (instant 900) 4 other two 3 (refl, (refl, (tt, tt)))

covers-on_sync_interest_validated_example :
    let told = (on_sync_interest_validated unshuffled (instant 900) 4 (some other) two).1 in
    (covers told 3 4 ≡ (ltb (get two.vv 3) 4 && leb 4 (get other 3)))
    × All (λ (i : MissingDataInfo ℕ). i.incoming_face ≡ 4) told
covers-on_sync_interest_validated_example =
    covers-on_sync_interest_validated unshuffled (instant 900) 4 other two 3 4
      (refl, (refl, (tt, tt)))

sent-retx_sync_interest_example : (retx_sync_interest unshuffled (instant 900) true 0 two).sent ≡ (
    if true && (gap_passed 900_000 two && (worth_sending 900_000_000 two.recorded_vv two && true))
    then (build_sync_vector unshuffled 7 (with_recorded 900_000_000 two.recorded_vv two)).0 ∷ []
    else [])
sent-retx_sync_interest_example = sent-retx_sync_interest unshuffled (instant 900) true 0 two

-- The recorded vector lacks only node 3's last publication, which is too young to count.
abbrev heard : VersionVector ℕ
heard = record { map = (1, 5) ∷ (2, 7) ∷ (3, 1) ∷ (4, 9) ∷ []; last_update = [] }

abbrev fresh : VersionVector ℕ
fresh = record {
  map = (1, 5) ∷ (2, 7) ∷ (3, 2) ∷ (4, 9) ∷ [];
  last_update = (1, 10) ∷ (2, 20) ∷ (3, 800_000_000) ∷ (4, 30) ∷ [];
}

abbrev suppressed : Core ℕ ℕ
suppressed = record two { vv = fresh; recorded_vv = some heard }

heard_old :
    (k : ℕ)
    → get_last_update (merge 900_000_000 heard suppressed).0.vv k + 500 * ticks_per_ms ≤ 900_000_000
    → get (merge 900_000_000 heard suppressed).0.vv k ≤ get heard k
unfolding merge merge_state_vector learn learn_entry get get_last_update find
heard_old k stale = ground arith

abbrev just_sent : Core ℕ ℕ
just_sent = record two { last_sync_tx_us = 890_000 }

too_early-gap_delay_example :
    (1 ≤ gap_delay 900_000 just_sent)
    × (too_early (900_000 + 1000 * gap_delay 900_000 just_sent) just_sent ≡ false)
unfolding too_early min_gap_us timer_hotness fmax fmin fclamp
too_early-gap_delay_example = too_early-gap_delay 900_000 just_sent refl (omega arith) (omega arith)
