-- ===== src/PubSub/Blocks.antt =====
-- What `SVSPubSub` uses of the blocks of ndn-cxx: the timestamp among the additional blocks of a
-- mapping, and a Data packet inside the content of another.
use m_svs.Base.{ℕ, ◌<◌, ◌^◌, ◌≡◌, Option, some}
use m_svs.PubSub.State.{InnerData}

-- How a block reads: it is of another type, or its number is read, or reading that throws.
pub data Reading : Type 0 where
  other_type bad_number : Reading
  time_us : ℕ → Reading

-- name::Component::fromNumber(now, tlv::TimestampNameComponent) and toNumber
pub record Timestamps (B : Type 0) : Type 0 where
  pub timestamp : ℕ → B
  pub reading : B → Reading
  pub reading_timestamp : (t : ℕ) → t < 2 ^ 64 → reading (timestamp t) ≡ Reading.time_us t

-- wireEncode of a packet with a freshness period, and Data(content.blockFromValue()), which is `none`
-- where it throws
pub record Encapsulation (K A X : Type 0) : Type 0 where
  pub wire_encode : InnerData K A → ℕ → X
  pub unwrap : X → Option (InnerData K A)
  pub unwrap_wire : (d : InnerData K A) (f : ℕ) → unwrap (wire_encode d f) ≡ some d
