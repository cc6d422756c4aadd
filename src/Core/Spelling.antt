-- ===== src/Core/Spelling.antt =====
-- The names of the strategies and of the timer modes: `parseSubsetStrategy`, `parseTimerMode` and
-- both `toString`. A text is the list of its bytes.
use Prim.Native.Char.{code}
use Prim.Native.String.{String}
use m_svs.Base.{ℕ, ◌+◌, ◌≡◌, refl, ap, ◌∙◌, Bool, ◌&&◌, ◌||◌, [], ◌∷◌, leb, if◌then◌else◌}
use mathlib.Core.List
use m_svs.VersionVector.{SubsetStrategy}
use m_svs.VersionVector.Cluster.{Text, text_eq}
use m_svs.Core.State.{TimerMode}

abbrev pub codes : String → Text
codes String.[] = []
codes (String.◌∷◌ c s) = code c ∷ codes s

-- std::tolower in the "C" locale
abbrev pub to_lower : ℕ → ℕ
to_lower c = if leb 65 c && leb c 90 then c + 32 else c

abbrev pub lower : Text → Text
lower text = List.map to_lower text

abbrev pub is : Text → String → Bool
is value name = text_eq value (codes name)

abbrev is_one : Text → String → String → Bool
is_one value a b = is value a || is value b

abbrev pub is_any : Text → String → String → String → Bool
is_any value a b c = is value a || (is value b || is value c)

abbrev pub lower_strategy : Text → SubsetStrategy
lower_strategy value =
    if is_one value "full" "baseline"
    then SubsetStrategy.full
    else if is_any value "roundrobin" "round-robin" "rotation"
    then SubsetStrategy.round_robin
    else if is_one value "recent" "latest"
    then SubsetStrategy.recent
    else if is value "random"
    then SubsetStrategy.random
    else if is_any value "cluster-hybrid" "clusterhybrid" "clustered-hybrid"
    then SubsetStrategy.cluster_hybrid
    else if is_any value "sticky-recent" "stickyrecent" "recent-sticky"
    then SubsetStrategy.sticky_recent
    else if is_any value "recent-novelty-quota" "recentnoveltyquota" "novelty-recent"
    then SubsetStrategy.recent_novelty_quota
    else if is_any value "recent-random-quota" "recentrandomquota" "random-recent"
    then SubsetStrategy.recent_random_quota
    else if is_any value "adaptive-recent-score" "adaptiverecentscore" "recent-score-adaptive"
    then SubsetStrategy.adaptive_recent_score
    else if is_any value "cluster-score" "clusterscore" "clustered-score"
    then SubsetStrategy.cluster_score
    else if is_any value "age-score" "agescore" "stale-score"
    then SubsetStrategy.age_score
    else if is_any value "deficit-score" "deficitscore" "lag-score"
    then SubsetStrategy.deficit_score
    else if is_any value "score" "scored" "score-based"
    then SubsetStrategy.score
    else SubsetStrategy.hybrid

abbrev pub parse_subset_strategy : Text → SubsetStrategy
parse_subset_strategy strategy = lower_strategy (lower strategy)

abbrev pub lower_mode : Text → TimerMode
lower_mode value =
    if is_one value "fixed" "static"
    then TimerMode.fixed
    else if is_one value "aware" "network-aware" || is_one value "network" "coord"
    then TimerMode.network_aware
    else TimerMode.adaptive

abbrev pub parse_timer_mode : Text → TimerMode
parse_timer_mode mode = lower_mode (lower mode)

abbrev pub strategy_to_string : SubsetStrategy → String
strategy_to_string SubsetStrategy.full = "full"
strategy_to_string SubsetStrategy.cluster_hybrid = "cluster-hybrid"
strategy_to_string SubsetStrategy.sticky_recent = "sticky-recent"
strategy_to_string SubsetStrategy.recent_novelty_quota = "recent-novelty-quota"
strategy_to_string SubsetStrategy.recent_random_quota = "recent-random-quota"
strategy_to_string SubsetStrategy.adaptive_recent_score = "adaptive-recent-score"
strategy_to_string SubsetStrategy.round_robin = "round-robin"
strategy_to_string SubsetStrategy.recent = "recent"
strategy_to_string SubsetStrategy.random = "random"
strategy_to_string SubsetStrategy.cluster_score = "cluster-score"
strategy_to_string SubsetStrategy.age_score = "age-score"
strategy_to_string SubsetStrategy.deficit_score = "deficit-score"
strategy_to_string SubsetStrategy.score = "score"
strategy_to_string SubsetStrategy.hybrid = "hybrid"

abbrev pub mode_to_string : TimerMode → String
mode_to_string TimerMode.fixed = "fixed"
mode_to_string TimerMode.network_aware = "network-aware"
mode_to_string TimerMode.adaptive = "adaptive"

named_strategy : (s : SubsetStrategy) → lower_strategy (codes (strategy_to_string s)) ≡ s
unfolding text_eq
named_strategy SubsetStrategy.full = refl
named_strategy SubsetStrategy.cluster_hybrid = refl
named_strategy SubsetStrategy.sticky_recent = refl
named_strategy SubsetStrategy.recent_novelty_quota = refl
named_strategy SubsetStrategy.recent_random_quota = refl
named_strategy SubsetStrategy.adaptive_recent_score = refl
named_strategy SubsetStrategy.round_robin = refl
named_strategy SubsetStrategy.recent = refl
named_strategy SubsetStrategy.random = refl
named_strategy SubsetStrategy.cluster_score = refl
named_strategy SubsetStrategy.age_score = refl
named_strategy SubsetStrategy.deficit_score = refl
named_strategy SubsetStrategy.score = refl
named_strategy SubsetStrategy.hybrid = refl

-- Every strategy is parsed from the name that `toString` gives it, in any mix of cases.
pub parse_subset_strategy-strategy_to_string :
    (s : SubsetStrategy) (text : Text)
    → lower text ≡ codes (strategy_to_string s)
    → parse_subset_strategy text ≡ s
parse_subset_strategy-strategy_to_string s text spelt = ap lower_strategy spelt ∙ named_strategy s

named_mode : (m : TimerMode) → lower_mode (codes (mode_to_string m)) ≡ m
unfolding text_eq
named_mode TimerMode.fixed = refl
named_mode TimerMode.network_aware = refl
named_mode TimerMode.adaptive = refl

-- Every timer mode is parsed from the name that `toString` gives it, in any mix of cases.
pub parse_timer_mode-mode_to_string :
    (m : TimerMode) (text : Text)
    → lower text ≡ codes (mode_to_string m)
    → parse_timer_mode text ≡ m
parse_timer_mode-mode_to_string m text spelt = ap lower_mode spelt ∙ named_mode m
