-- ===== src/PubSub/Updates/Age.antt =====
-- The age test, of the additional blocks that a publisher sends.
use m_svs.Base.{
  All, ℕ, ◌+◌, ◌-◌, ◌^◌, ◌<◌, ◌≡◌, List, [], ◌∷◌, ◌++◌, some, leb, ltb, arith, if◌then◌else◌,
}
use m_svs.PubSub.Blocks.{Reading, Timestamps}
use m_svs.PubSub.Updates.{too_old}

module _ {B : Type 0} ⦃t : Timestamps B⦄ where
  -- The age of a publication with a timestamp after other blocks is the time that has passed since
  -- then, if the clock has reached it, and else 2^64 less the time that it is ahead, so that a
  -- publication from a clock that is ahead counts as one of a great age.
  pub too_old_timestamp :
      (now_us max_age_us at : ℕ) (blocks : List B)
      → now_us < 2 ^ 64
      → at < 2 ^ 64
      → All (λ (b : B). t.reading b ≡ Reading.other_type) blocks
      → too_old now_us max_age_us (blocks ++ t.timestamp at ∷ [])
        ≡ some (ltb max_age_us (if leb at now_us then now_us - at else now_us + 2 ^ 64 - at))
  unfolding too_old
  too_old_timestamp now_us max_age_us at [] n a h = rw (t.reading_timestamp at a) (ground arith)
  too_old_timestamp now_us max_age_us at (b ∷ rest) n a h =
      rw h.0 (too_old_timestamp now_us max_age_us at rest n a h.1)
