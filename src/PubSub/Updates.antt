-- ===== src/PubSub/Updates.antt =====
-- `updateCallbackInternal` and `processMapping`: which publications are queued when the core reports
-- new ones. The clock is read once a handler; the callbacks change no subscription meanwhile. `none`
-- stands for an exception, and in `update_callback_internal` for loops that need not end.
pub mod Age
pub mod Queued
pub mod Calls
pub mod Known
pub mod Producers
mod Tests
use m_svs.Base.{
  not, ℕ, zero, suc, ◌+◌, ◌-◌, ◌%◌, ◌^◌, Bool, true, false, ◌||◌, ◌&&◌, List, [], ◌∷◌, ◌++◌, Option,
  some, none, ltb, if◌then◌else◌,
}
use m_svs.Std.Ord.{Ord}
use m_svs.Names.{Components}
use m_svs.Core.Merge.{MissingDataInfo}
use m_svs.Mapping.{MappingEntryPair, MappingProvider, get_mapping, add_mappings}
use m_svs.PubSub.{mapping_queries}
use m_svs.PubSub.State.{Subscription, SvsPubSub, PubSubCall}
use m_svs.PubSub.Blocks.{Reading, Timestamps, other_type, bad_number, time_us}
use m_svs.PubSub.Fetching.{queue_publication, queue_matching, fetch_all}

module _ {B : Type 0} ⦃t : Timestamps B⦄ where
  -- The loop of the age test; the difference is of `unsigned long`.
  unfoldable pub too_old : ℕ → ℕ → List B → Option Bool
  too_old now_us max_age_us [] = some false
  too_old now_us max_age_us (block ∷ rest) =
      let later = too_old now_us max_age_us rest in
      elim (t.reading block) [
        | other_type ↦ later
        | bad_number ↦ none
        | time_us pub_time ↦
            if ltb max_age_us ((now_us + 2 ^ 64 - pub_time) % 2 ^ 64) then some true else later
      ]

  -- The age test of `processMapping` for the largest age `max_age_us`.
  unfoldable pub age_test : ℕ → ℕ → List B → Option Bool
  age_test now_us max_age_us blocks =
      if ltb 0 max_age_us then too_old now_us max_age_us blocks else some false

module _ {K : Type 0} ⦃c : Components K⦄ where
  -- Has any of the subscriptions a prefix of the name?
  unfoldable pub any_covers : K → List (Subscription K) → Bool
  any_covers node_id [] = false
  any_covers node_id (sub ∷ rest) = c.is_prefix_of sub.prefix node_id || any_covers node_id rest

-- m_mappingProvider.fetchNameMapping
abbrev pub query_call : {K A : Type 0} → K → ℕ → ℕ × ℕ → PubSubCall K A
query_call node_id face (low, high) =
    PubSubCall.fetch_name_mapping
      (record { node_id = node_id; low = low; high = high; incoming_face = face })

module _ {K B A : Type 0} where
  abbrev pub call : PubSubCall K A → SvsPubSub K B A → SvsPubSub K B A
  call x s = record s { calls = s.calls ++ (x ∷ []) }

  -- A query for each of the ranges.
  unfoldable pub ask : K → ℕ → List (ℕ × ℕ) → SvsPubSub K B A → SvsPubSub K B A
  ask node_id face [] s = s
  ask node_id face (range ∷ rest) s = ask node_id face rest (call (query_call node_id face range) s)

module _ {K B A : Type 0} ⦃o : Ord K⦄ ⦃c : Components K⦄ ⦃t : Timestamps B⦄ where
  unfoldable pub queue_young :
      K × ℕ → K → Option Bool → SvsPubSub K B A → Option (SvsPubSub K B A × Bool)
  queue_young publication name none s = none
  queue_young publication name (some true) s = some (s, false)
  queue_young publication name (some false) s =
      some
        (queue_matching (λ prefix. c.is_prefix_of prefix name) publication s.prefix_subscriptions s)

  unfoldable pub process_entry :
      ℕ → K × ℕ → Option (MappingEntryPair K B) → SvsPubSub K B A → Option (SvsPubSub K B A × Bool)
  process_entry now_us publication none s = none
  process_entry now_us publication (some (name, blocks)) s =
      queue_young publication name (age_test now_us s.max_pub_age_us blocks) s

  unfoldable pub process_mapping : ℕ → K → ℕ → SvsPubSub K B A → Option (SvsPubSub K B A × Bool)
  process_mapping now_us node_id seq_no s =
      process_entry now_us (node_id, seq_no) (get_mapping node_id seq_no s.mapping_provider) s

  -- The loop over what is known already, from `low` on for so many rounds, with the `low` that remains;
  -- where the loop ends.
  unfoldable pub process_known : ℕ → K → ℕ → ℕ → SvsPubSub K B A → SvsPubSub K B A × ℕ
  process_known now_us node_id low zero s = (s, low)
  process_known now_us node_id low (suc rounds) s = elim (process_mapping now_us node_id low s) [
    | none ↦ (s, low)
    | some (processed, queued) ↦ process_known now_us node_id (suc low) rounds processed
  ]

  -- What is done for a stream if there are prefix subscriptions.
  unfoldable pub find_mappings : ℕ → MissingDataInfo K → SvsPubSub K B A → SvsPubSub K B A
  find_mappings now_us stream s =
      let (known, low) =
        process_known now_us stream.node_id stream.low (suc stream.high - stream.low) s in
      ask stream.node_id stream.incoming_face (mapping_queries low stream.high) known

  -- From `i` on, for so many rounds, where the loop ends.
  unfoldable pub queue_range : K → ℕ → ℕ → Subscription K → SvsPubSub K B A → SvsPubSub K B A
  queue_range node_id i zero sub s = s
  queue_range node_id i (suc rounds) sub s =
      queue_range node_id (suc i) rounds sub (queue_publication (node_id, i) sub s)

  unfoldable pub queue_producer :
      MissingDataInfo K → Subscription K → SvsPubSub K B A → SvsPubSub K B A
  queue_producer stream sub s =
      let queued = queue_range stream.node_id stream.low (suc stream.high - stream.low) sub s in
      if c.is_prefix_of sub.prefix stream.node_id
      then (if sub.prefetch
          then call (PubSubCall.prefetch_next stream.node_id ((stream.high + 1) % 2 ^ 64)) queued
          else queued)
      else s

  unfoldable pub queue_producers :
      MissingDataInfo K → List (Subscription K) → SvsPubSub K B A → SvsPubSub K B A
  queue_producers stream [] s = s
  queue_producers stream (sub ∷ rest) s = queue_producers stream rest (queue_producer stream sub s)

  unfoldable pub update_stream : ℕ → MissingDataInfo K → SvsPubSub K B A → SvsPubSub K B A
  update_stream now_us stream s =
      let queued = queue_producers stream s.producer_subscriptions s in
      elim s.prefix_subscriptions [ [] ↦ queued | sub ∷ rest ↦ find_mappings now_us stream queued ]

  unfoldable pub update_streams : ℕ → List (MissingDataInfo K) → SvsPubSub K B A → SvsPubSub K B A
  update_streams now_us [] s = s
  update_streams now_us (stream ∷ rest) s =
      update_streams now_us rest (update_stream now_us stream s)

  -- Does no variable of the loops that run for a stream pass 2 ^ 64? That of a producer subscription
  -- goes to 1 above the highest number, and that of the queries to 11 above it at most. The loops above
  -- count on numbers without a width, and stand for the code where this holds.
  unfoldable pub stream_ends : MissingDataInfo K → SvsPubSub K B A → Bool
  stream_ends stream s =
      (ltb (stream.high + 1) (2 ^ 64) || not (any_covers stream.node_id s.producer_subscriptions))
      && (ltb (stream.high + 11) (2 ^ 64)
          || elim s.prefix_subscriptions [ [] ↦ true | sub ∷ rest ↦ false ])

  unfoldable pub loops_end : List (MissingDataInfo K) → SvsPubSub K B A → Bool
  loops_end [] s = true
  loops_end (stream ∷ rest) s = stream_ends stream s && loops_end rest s

  -- The body of `updateCallbackInternal`, where its loops end.
  unfoldable pub update_all : ℕ → List (MissingDataInfo K) → SvsPubSub K B A → SvsPubSub K B A
  update_all now_us info s =
      call (PubSubCall.updated info) (fetch_all (update_streams now_us info s))

  -- `none` where a loop variable can wrap round: then the code need not come to an end.
  unfoldable pub update_callback_internal :
      ℕ → List (MissingDataInfo K) → SvsPubSub K B A → Option (SvsPubSub K B A)
  update_callback_internal now_us info s =
      if loops_end info s then some (update_all now_us info s) else none

  -- The loop of the callback of a mapping query; `none` is where it is left by an exception.
  unfoldable pub process_listed :
      ℕ
      → K
      → List (ℕ × MappingEntryPair K B)
      → Bool
      → SvsPubSub K B A
      → SvsPubSub K B A × Option Bool
  process_listed now_us node_id [] queued s = (s, some queued)
  process_listed now_us node_id ((seq, mapping) ∷ rest) queued s =
      elim (process_mapping now_us node_id seq s) [
        | none ↦ (s, none)
        | some (processed, more) ↦ process_listed now_us node_id rest (queued || more) processed
      ]

  unfoldable pub fetch_queued : Option Bool → SvsPubSub K B A → SvsPubSub K B A
  fetch_queued none s = s
  fetch_queued (some queued) s = if queued then fetch_all s else s

  -- The answer to a query for mappings of `node_id`: they go to the provider first.
  unfoldable pub on_mapping_list :
      ℕ → K → List (ℕ × MappingEntryPair K B) → SvsPubSub K B A → SvsPubSub K B A
  on_mapping_list now_us node_id pairs s =
      let stored = record s { mapping_provider = add_mappings node_id pairs s.mapping_provider } in
      let (processed, queued) = process_listed now_us node_id pairs false stored in
      fetch_queued queued processed
