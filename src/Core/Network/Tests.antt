-- ===== src/Core/Network/Tests.antt =====
-- A group in which node 2 has published seven times.
use m_svs.Base.{
  subst, ltb, leb, ◌&&◌, ℕ, ◌≤◌, ◌≡◌, refl, List, [], ◌∷◌, Option, some, none, arith, if◌then◌else◌,
}
use m_svs.Std.Ord.{nat_ord}
use m_svs.Std.Map.{find, insert}
use m_svs.Double.{fmax, fmin, fclamp, clamp_long}
use m_svs.VersionVector.{VersionVector, SubsetStrategy, empty, get, set}
use m_svs.Core.State.{Core, TimerMode}
use m_svs.Core.Timer.{update_sync_interval}
use m_svs.Core.Build.{
  build_sync_vector, get_state_vector_limit, scaled_entries, coordinated_entries,
}
use m_svs.Core.Handlers.{on_sync_interest_validated, update_seq_no, retx_sync_interest, schedule}
use m_svs.Core.Network.{IsFresh, update, Step, Reach}
use m_svs.Core.Network.Sound.{Reach-published}
use m_svs.Core.Network.Delivery.{deliver_reaches}
use Prim.Native.String.{String}
use m_svs.VersionVector.Cluster.{Text, text_eq}
use m_svs.Core.Spelling.{codes, is}
use m_svs.Core.Start.{new_core, initial_members, expect_feedback}
use m_svs.Core.Timer.{clamp_period, refresh_network_aware_timer_state}
use m_svs.Core.Timer.Bounds.{InRange}
use m_svs.Core.Environment.{
  construct, read_config, get_env_or_default, get_env_size, get_env_bool, get_env_double, stoul,
  skip_spaces, after_sign, unsigned, read_digits,
}
use m_svs.Core.Environment.Range.{run-construct-InRange}
use m_svs.Core.Reports.{one_if, times_in, reports, times_in-reports}
use m_svs.Core.Refinement.{Event, Implements, run, run_refines}
use m_svs.Samples.{millionths, numbered, configured, node, instant}

abbrev unshuffled : ℕ → List ℕ → List ℕ
unshuffled seed l = l

abbrev group : ℕ → Core ℕ ℕ
group i = node (configured i SubsetStrategy.recent TimerMode.fixed) empty

group-IsFresh : (i : ℕ) → IsFresh i (group i)
group-IsFresh i = record { named = refl; vv = refl; recorded = refl; sent = refl }

abbrev published_once : ℕ → Core ℕ ℕ
published_once = update group 2 (update_seq_no unshuffled (instant 900) 7 2 (group 2))

first : Step unshuffled group published_once
unfolding get find
first = Step.publish 2 (instant 900) 7 (omega arith)

once : Reach unshuffled published_once
once = Reach.next (Reach.fresh group-IsFresh) first

Reach-published_example : get (published_once 5).vv 2 ≤ get (published_once 2).vv 2
Reach-published_example = Reach-published unshuffled published_once 5 2 once

deliver_reaches_example :
    let vector = (build_sync_vector unshuffled 7 (published_once 2)).0 in
    get
      (on_sync_interest_validated unshuffled (instant 950) 4 (some vector) (published_once 5)).0.vv
      2
    ≡ get (published_once 2).vv 2
unfolding update_seq_no update_sync_interval retx_sync_interest schedule set insert find get
    get_state_vector_limit scaled_entries coordinated_entries fmin fmax fclamp
deliver_reaches_example =
    deliver_reaches unshuffled published_once 5 2 (instant 950) 4 7 once (omega arith) refl refl

abbrev four_numbers : VersionVector ℕ
four_numbers = record { map = (2, 3) ∷ (5, 9) ∷ []; last_update = [] }

-- Node 2 starts, publishes, hears of itself and of node 5, and of nothing that decodes.
abbrev life : List (Event ℕ)
life =
    Event.started (instant 100)
    ∷ Event.published (instant 200) 4
    ∷ Event.received (instant 300) 1 (some four_numbers)
    ∷ Event.received (instant 400) 1 none
    ∷ Event.timer (instant 900)
    ∷ []

group-Implements : Implements 2 (λ _. 0) (group 2)
unfolding get find
group-Implements = record {
  named = refl;
  local = record { sorted = tt; below = λ k. omega arith };
  above = λ k. omega arith;
  recorded = tt;
  told = tt;
}

run_refines_example : get (run unshuffled 2 life (group 2)).vv 5 ≡ 9
unfolding get find
run_refines_example =
    run_refines unshuffled 2 life (λ _. 0) (group 2) 5 (omega arith, ((refl, (tt, tt)), (tt, tt)))
      group-Implements

times_in-reports_example : times_in (reports unshuffled 2 life (group 2)) 5 8 ≡ 1
unfolding get find
times_in-reports_example =
    subst (λ q. times_in (reports unshuffled 2 life (group 2)) 5 8 ≡ one_if (ltb 0 8 && leb 8 q))
      run_refines_example
      (times_in-reports unshuffled 2 life (λ _. 0) (group 2) 5 8
        (omega arith, ((refl, (tt, tt)), (tt, tt))) group-Implements refl)

-- The interval is set to a minute, and nothing else.
abbrev minute : String → Option Text
minute name = if is (codes "NDN_SVS_FIXED_INTERVAL_MS") name then some (codes "60000") else none

abbrev no_double : Text → Option ℕ
no_double text = none

run-construct-InRange_example : InRange (run unshuffled 2 life (construct no_double minute 2))
unfolding get_env_or_default get_env_size text_eq
run-construct-InRange_example =
    run-construct-InRange no_double minute unshuffled 2 life refl (omega arith)

configured_interval : (construct {K = ℕ} no_double minute 2).periodic_sync_time ≡ 30_000
unfolding construct read_config new_core initial_members expect_feedback clamp_period get_env_size
    get_env_or_default get_env_bool get_env_double text_eq refresh_network_aware_timer_state stoul
    skip_spaces after_sign unsigned read_digits fmax fmin fclamp clamp_long
configured_interval = refl
