-- ===== src/PubSub.antt =====
-- ndn-svs/svspubsub.{hpp,cpp}: `class SVSPubSub`. Here is what it cuts up, namely a large publication
-- into segments, and a range of unknown mappings into queries.
pub mod State
pub mod Blocks
pub mod Updates
pub mod Receive
pub mod Publish
pub mod Incoming
pub mod Delivery
pub mod Coherent
pub mod Construct
pub mod Subscriptions
pub mod Segments
pub mod Queries
pub mod Fetching
mod Tests
use m_svs.Base.{
  ℕ, zero, suc, ◌+◌, ◌%◌, ◌^◌, ◌-◌, ◌*◌, ◌/◌, min, List, [], ◌∷◌, length, take, drop, leb, ltb,
  if◌then◌else◌,
}

abbrev pub max_data_size : ℕ
max_data_size = 8000

module _ {A : Type 0} where
  -- The loop of `publish`: the content of the segments from `i` on, so many.
  unfoldable pub segments_from : List A → ℕ → ℕ → List (List A)
  segments_from value i zero = []
  segments_from value i (suc rounds) =
      take (min (length value - i * max_data_size) max_data_size) (drop (i * max_data_size) value)
      ∷ segments_from value (suc i) rounds

  -- The content of the segments that `publish` makes of a value larger than the limit.
  unfoldable pub publish_segments : List A → List (List A)
  publish_segments value = segments_from value 0 (length value / max_data_size + 1)

-- The `while` loop of `updateCallbackInternal`: the ranges that it asks for.
unfoldable pub queries : ℕ → ℕ → ℕ → List (ℕ × ℕ)
queries zero low high = []
queries (suc fuel) low high =
    let rest = queries fuel ((low + 11) % 2 ^ 64) high in
    if leb low high then (low, if ltb 10 (high - low) then low + 10 else high) ∷ rest else []

-- The ranges from `low` to `high`; each round asks for at least one entry. If `high` is so near to
-- 2 ^ 64 that `low` wraps round, the loop starts over and this is not all that it asks for.
unfoldable pub mapping_queries : ℕ → ℕ → List (ℕ × ℕ)
mapping_queries low high = queries (suc high - low) low high
