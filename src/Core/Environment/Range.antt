-- ===== src/Core/Environment/Range.antt =====
-- A node keeps its interval in range, whatever its environment and whatever happens to it.
use Prim.Native.String.{String}
use m_svs.Base.{ℕ, ◌≤◌, ◌≡◌, refl, ap, ◌∙◌, false, List, Option, arith, if_cases}
use m_svs.Std.Ord.{Ord}
use m_svs.Names.{Name}
use m_svs.Double.{Double}
use m_svs.VersionVector.Cluster.{Text}
use m_svs.VersionVector.Select.{is_full}
use m_svs.Core.Spelling.{parse_subset_strategy}
use m_svs.Core.State.{Core, Config}
use m_svs.Core.Start.{new_core, initial_members, expect_feedback, new_core-InRange}
use m_svs.Core.Timer.{is_network_aware, clamp_period}
use m_svs.Core.Timer.Bounds.{InRange}
use m_svs.Core.Environment.{get_env_or_default, get_env_size, read_config, construct}
use m_svs.Core.Refinement.{Event, run}
use m_svs.Core.Period.{IsTimed, refresh-config}
use m_svs.Core.Period.Run.{run-IsTimed}

module _ {K D : Type 0} ⦃d : Double D⦄ where
  config-clamp_period : (c : Core K D) → (clamp_period c).config ≡ c.config
  unfolding clamp_period
  config-clamp_period c = refl

  config-new_core :
      (config : Config K D) (fixed_interval : ℕ)
      → (new_core config fixed_interval).config ≡ record config { max_periodic_sync_time = 30_000 }
  unfolding new_core initial_members expect_feedback
  config-new_core config fixed_interval =
      let c = initial_members config fixed_interval in
      if_cases (λ (new : Core K D). new.config ≡ record config { max_periodic_sync_time = 30_000 })
        (is_network_aware config.timer_mode)
        (λ _. config-clamp_period _ ∙ refresh-config (expect_feedback c))
        (λ _. config-clamp_period c)

  new_core-IsTimed :
      (config : Config K D) (fixed_interval : ℕ)
      → is_full config.state_vector_strategy ≡ false
      → config.network_aware_min_periodic_sync_time ≤ 5000
      → IsTimed (new_core config fixed_interval)
  new_core-IsTimed config fixed_interval partial least =
      let same = config-new_core config fixed_interval in
      record {
        range = new_core-InRange config fixed_interval least;
        partial = ap (λ g. is_full g.state_vector_strategy) same ∙ partial;
        most = omega (arith, ap (λ g. g.max_periodic_sync_time) same);
        least = omega (arith, ap (λ g. g.network_aware_min_periodic_sync_time) same, least);
      }

module _ {K D : Type 0} ⦃o : Ord K⦄ ⦃n : Name K⦄ ⦃d : Double D⦄ (stod : Text → Option D)
    (env : String → Option Text) where
  -- A node that is started in any environment keeps the interval between its least and its greatest
  -- value in whatever happens to it, if NDN_SVS_VECTOR_STRATEGY is not read as the full strategy and
  -- NDN_SVS_NETWORK_AWARE_MIN_INTERVAL_MS as more than 5 seconds.
  pub run-construct-InRange :
      (shuffle : ℕ → List K → List K) (id : K) (l : List (Event K))
      → is_full (parse_subset_strategy (get_env_or_default env "NDN_SVS_VECTOR_STRATEGY" "hybrid"))
        ≡ false
      → get_env_size env "NDN_SVS_NETWORK_AWARE_MIN_INTERVAL_MS" 4000 ≤ 5000
      → InRange (run shuffle id l (construct stod env id))
  unfolding construct read_config
  run-construct-InRange shuffle id l partial least =
      (run-IsTimed shuffle id l _
        (new_core-IsTimed (read_config stod env id) _ partial least)).range
