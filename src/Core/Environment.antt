-- ===== src/Core/Environment.antt =====
-- The configuration of a node: what the constructor of `SVSyncCore` reads from the environment, with
-- `getEnvOrDefault`, `getEnvSize`, `getEnvDouble` and `getEnvBool`. `env` is std::getenv, and `stod` is
-- std::stod, `none` where it throws. Milliseconds are taken to be below 2 ^ 63.
pub mod Range
use Prim.Native.String.{String}
use m_svs.Base.{
  ℕ, ◌+◌, ◌-◌, ◌*◌, ◌%◌, ◌^◌, Bool, true, false, ◌&&◌, ◌||◌, List, [], ◌∷◌, Option, some, none,
  some_or, leb, ltb, ◌==◌, if◌then◌else◌,
}
use m_svs.Double.{Double, ◌⊘◌, num, dec, fclamp}
use m_svs.VersionVector.Cluster.{Text}
use m_svs.Core.State.{Config, TimerMode, Core}
use m_svs.Core.Spelling.{codes, lower, is, parse_subset_strategy, parse_timer_mode}
use m_svs.Core.Start.{new_core}

abbrev pub is_space : ℕ → Bool
is_space c = (c == 32) || (leb 9 c && leb c 13)

abbrev pub is_digit : ℕ → Bool
is_digit c = leb 48 c && leb c 57

unfoldable pub skip_spaces : Text → Text
skip_spaces [] = []
skip_spaces (c ∷ rest) = if is_space c then skip_spaces rest else c ∷ rest

unfoldable pub read_digits : ℕ → Text → ℕ
read_digits value [] = value
read_digits value (c ∷ rest) =
    if is_digit c then read_digits (value * 10 + (c - 48)) rest else value

abbrev pub in_range : ℕ → Option ℕ
in_range value = if ltb value (2 ^ 64) then some value else none

unfoldable pub unsigned : Text → Option ℕ
unsigned [] = none
unsigned (c ∷ rest) = if is_digit c then in_range (read_digits 0 (c ∷ rest)) else none

-- A minus sign is allowed, and negates in 64 bits.
abbrev pub negated : Option ℕ → Option ℕ
negated none = none
negated (some value) = some ((2 ^ 64 - value) % 2 ^ 64)

unfoldable pub after_sign : Text → Option ℕ
after_sign [] = none
after_sign (c ∷ rest) =
    if c == 45
    then negated (unsigned rest)
    else (if c == 43 then unsigned rest else unsigned (c ∷ rest))

-- std::stoul, `none` where it throws
unfoldable pub stoul : Text → Option ℕ
stoul text = after_sign (skip_spaces text)

module _ (env : String → Option Text) where
  unfoldable pub get_env_or_default : String → String → Text
  get_env_or_default name default = some_or (env name) (codes default)

  unfoldable pub get_env_size : String → ℕ → ℕ
  get_env_size name default = elim (env name) [
    | none ↦ default
    | some value ↦ some_or (stoul value) default
  ]

  unfoldable pub get_env_bool : String → Bool → Bool
  get_env_bool name default =
      let value = lower (get_env_or_default name (if default then "1" else "0")) in
      is value "1" || (is value "true" || (is value "yes" || is value "on"))

module _ {D : Type 0} (stod : Text → Option D) (env : String → Option Text) where
  unfoldable pub get_env_double : String → D → D
  get_env_double name default = elim (env name) [
    | none ↦ default
    | some value ↦ some_or (stod value) default
  ]

module _ {K D : Type 0} ⦃d : Double D⦄ (stod : Text → Option D) (env : String → Option Text) where
  -- The initializers of the members that are configuration, for the node `id`.
  unfoldable pub read_config : K → Config K D
  read_config id =
      let size = get_env_size env in
      let double = get_env_double stod env in
      record {
        id = id;
        max_periodic_sync_time = 30_000;
        periodic_sync_jitter = double "NDN_SVS_TIMER_JITTER" (dec 1 1);
        recent_state_vector_entries = size "NDN_SVS_RECENT_ENTRIES" 8;
        max_state_vector_entries = size "NDN_SVS_MAX_STATE_VECTOR_ENTRIES" 32;
        state_vector_ratio = double "NDN_SVS_STATE_VECTOR_RATIO" (dec 0 1);
        state_vector_strategy =
            parse_subset_strategy (get_env_or_default env "NDN_SVS_VECTOR_STRATEGY" "hybrid");
        hybrid_hot_ratio = double "NDN_SVS_HYBRID_HOT_RATIO" (dec 75 2);
        hybrid_min_fair_entries = size "NDN_SVS_HYBRID_MIN_FAIR_ENTRIES" 2;
        score_seq_weight = double "NDN_SVS_SCORE_SEQ_WEIGHT" (dec 35 2);
        score_recent_weight = double "NDN_SVS_SCORE_RECENT_WEIGHT" (dec 45 2);
        score_fair_weight = double "NDN_SVS_SCORE_FAIR_WEIGHT" (dec 20 2);
        score_preferred_boost = double "NDN_SVS_SCORE_PREFERRED_BOOST" (dec 60 2);
        sticky_hold_ratio = double "NDN_SVS_STICKY_HOLD_RATIO" (dec 50 2);
        sticky_min_hold = size "NDN_SVS_STICKY_MIN_HOLD" 4;
        recent_quota_ratio = double "NDN_SVS_RECENT_QUOTA_RATIO" (dec 20 2);
        recent_quota_min_entries = size "NDN_SVS_RECENT_QUOTA_MIN_ENTRIES" 4;
        adaptive_score_threshold = double "NDN_SVS_ADAPTIVE_SCORE_THRESHOLD" (dec 50 2);
        adaptive_score_rounds = size "NDN_SVS_ADAPTIVE_SCORE_ROUNDS" 2;
        network_diameter_ms = double "NDN_SVS_NETWORK_DIAMETER_MS" (dec 1200 1);
        network_diameter_hops = size "NDN_SVS_NETWORK_DIAMETER_HOPS" 4;
        network_aware_min_periodic_sync_time = size "NDN_SVS_NETWORK_AWARE_MIN_INTERVAL_MS" 4000;
        link_loss_rate =
            fclamp (double "NDN_SVS_LINK_LOSS_PCT" (dec 0 1) ⊘ dec 1000 1) (dec 0 1) (dec 95 2);
        expected_hotspot_ratio =
            fclamp (double "NDN_SVS_HOT_NODE_RATIO" (dec 0 1)) (dec 0 1) (dec 10 1);
        enable_coordinated_sync = get_env_bool env "NDN_SVS_COORDINATED_SYNC" true;
        enable_event_driven_timer_alpha = get_env_bool env "NDN_SVS_NETWORK_AWARE_EVENT_ALPHA" true;
        timer_mode = parse_timer_mode (get_env_or_default env "NDN_SVS_TIMER_MODE" "network-aware");
        min_send_interval = size "NDN_SVS_MIN_SEND_INTERVAL_MS" 0;
        local_update_delay = size "NDN_SVS_LOCAL_UPDATE_DELAY_MS" 1;
      }

  -- The constructor, with what it reads.
  unfoldable pub construct : K → Core K D
  construct id = new_core (read_config id) (get_env_size env "NDN_SVS_FIXED_INTERVAL_MS" 30_000)
