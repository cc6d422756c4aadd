-- ===== src/Core/Build/Tests.antt =====
-- Interests, the timer and the feedback queue at concrete states.
use m_svs.Base.{ℕ, ◌≡◌, refl, true, List, [], ◌∷◌, some, none, arith, if◌then◌else◌}
use m_svs.Std.Ord.{nat_ord}
use m_svs.Std.Map.{find}
use m_svs.VersionVector.{VersionVector, SubsetStrategy, has, size}
use m_svs.Core.State.{Core, TimerMode}
use m_svs.Core.Timer.{refresh_network_aware_timer_state}
use m_svs.Core.Timer.Bounds.{InLimits, refresh_network_aware_timer_state-InLimits}
use m_svs.Core.Build.{build_sync_vector, build_partial, get_state_vector_limit}
use m_svs.Core.Build.Limit.{size-build_sync_vector}
use m_svs.Core.Build.Rounds.{find-score_unselected_rounds}
use m_svs.Samples.{millionths, numbered, configured, node, four_nodes}

abbrev unshuffled : ℕ → List ℕ → List ℕ
unshuffled seed l = l

abbrev two : Core ℕ ℕ
two = node (configured 2 SubsetStrategy.hybrid TimerMode.network_aware) four_nodes

abbrev pair : VersionVector ℕ
pair = record { map = (1, 5) ∷ (2, 7) ∷ []; last_update = [] }

-- Small enough to be sent whole.
abbrev small : Core ℕ ℕ
small = node (configured 2 SubsetStrategy.full TimerMode.network_aware) pair

size-build_sync_vector_example :
    size (build_sync_vector unshuffled 7 two).0 ≡ get_state_vector_limit two 4
size-build_sync_vector_example =
    size-build_sync_vector unshuffled 7 two (λ seed l k. refl) (refl, (refl, (refl, (tt, tt))))

find-score_unselected_rounds_example :
    let (partial, new) = build_partial unshuffled 7 2 two in
    find 3 new.score_unselected_rounds
    ≡ (if has two.vv 3 then some (if has partial 3 then 0 else 1) else none)
unfolding find
find-score_unselected_rounds_example =
    find-score_unselected_rounds unshuffled 7 2 two 3 (refl, (refl, (refl, (tt, tt))))

refresh_network_aware_timer_state-InLimits_example :
    InLimits 4000 (refresh_network_aware_timer_state true two)
refresh_network_aware_timer_state-InLimits_example =
    refresh_network_aware_timer_state-InLimits two refl (omega arith) (omega arith)

abbrev waiting : List (ℕ × ℕ)
waiting = (5, 100) ∷ (6, 200) ∷ (8, 300) ∷ []
