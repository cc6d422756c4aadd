-- ===== src/Core/Merge.antt =====
-- `SVSyncCore::mergeStateVector`, and `recordVector`, which merges without a report. The system
-- clock does not advance within one call. An entry has a time of update wherever `set` made it, so the
-- difference of times does not overflow.
pub mod Maximum
pub mod Missing
use mathlib.Core.List.{foldl}
use m_svs.Base.{ℕ, ◌+◌, Bool, true, false, List, [], ◌∷◌, ◌++◌, ltb, if◌then◌else◌}
use m_svs.Std.Ord.{Ord}
use m_svs.Std.Map.{Map}
use m_svs.VersionVector.{VersionVector, get, set, get_last_update}

pub record MissingDataInfo (K : Type 0) : Type 0 where
  pub node_id : K
  pub low : ℕ
  pub high : ℕ
  pub incoming_face : ℕ

pub record MergeResult (K : Type 0) : Type 0 where
  pub my_vector_new : Bool
  pub other_vector_new : Bool
  pub missing_info : List (MissingDataInfo K)

-- The local vector and the result while the first loop runs.
pub record Merging (K : Type 0) : Type 0 where
  pub vv : VersionVector K
  pub other_vector_new : Bool
  pub missing_info : List (MissingDataInfo K)

module _ {K : Type 0} ⦃o : Ord K⦄ where
  -- One round of the first loop.
  unfoldable pub learn_entry : ℕ → Merging K → K × ℕ → Merging K
  learn_entry now m (nid_other, seq_other) =
      let seq_current = get m.vv nid_other in
      if ltb seq_current seq_other
      then record {
        vv = set m.vv nid_other seq_other now;
        other_vector_new = true;
        missing_info =
            m.missing_info
            ++ record {
              node_id = nid_other;
              low = seq_current + 1;
              high = seq_other;
              incoming_face = 0;
            }
              ∷ [];
      }
      else m

  unfoldable pub learn : ℕ → Map K ℕ → Merging K → Merging K
  learn now [] m = m
  learn now (e ∷ rest) m = learn now rest (learn_entry now m e)

  -- The second loop: is an entry that is older than the window ahead of the other vector?
  unfoldable pub ahead : ℕ → ℕ → VersionVector K → VersionVector K → Map K ℕ → Bool
  ahead now window vv other [] = false
  ahead now window vv other ((nid, seq) ∷ rest) =
      let later = ahead now window vv other rest in
      if ltb now (get_last_update vv nid + window)
      then later
      else if ltb (get other nid) seq
      then true
      else later

  -- `window` is `m_maxSuppressionTime` in ticks of the system clock.
  unfoldable pub merge_state_vector :
      ℕ → ℕ → VersionVector K → VersionVector K → VersionVector K × MergeResult K
  merge_state_vector now window vv other =
      let m =
        learn now other.map (record { vv = vv; other_vector_new = false; missing_info = [] }) in
      (
        m.vv,
        record {
          my_vector_new = ahead now window m.vv other m.vv.map;
          other_vector_new = m.other_vector_new;
          missing_info = m.missing_info;
        },
      )

  -- The loop of `recordVector`.
  unfoldable pub record_entries : ℕ → Map K ℕ → VersionVector K → VersionVector K
  record_entries now [] recorded = recorded
  record_entries now ((nid_other, seq_other) ∷ rest) recorded = record_entries now rest (
      if ltb (get recorded nid_other) seq_other
      then set recorded nid_other seq_other now
      else recorded)
