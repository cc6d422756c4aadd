-- ===== src/VersionVector.antt =====
-- ndn-svs/version-vector.hpp: `class VersionVector`. Time points are ticks above
-- `time_point::min()`, so that value is 0; the clock is an argument of `set`.
pub mod Subset
pub mod Score
pub mod Cluster
pub mod Select
pub mod Extends
pub mod Phases
pub mod Fill
pub mod Complete
pub mod Guarantee
pub mod Wire
mod Tests
use m_svs.Base.{ℕ, List, [], length, Bool, some_or}
use m_svs.Std.Ord.{Ord}
use m_svs.Std.Map.{Map, find, insert}
use m_svs.Std.Map as Map

pub data SubsetStrategy : Type 0 where
  full hybrid cluster_hybrid sticky_recent recent_novelty_quota recent_random_quota : SubsetStrategy
  adaptive_recent_score score cluster_score age_score deficit_score : SubsetStrategy
  round_robin recent random : SubsetStrategy

pub record VersionVector (K : Type 0) : Type 0 where
  pub map : Map K ℕ
  pub last_update : Map K ℕ

abbrev pub time_min : ℕ
time_min = 0

module _ {K : Type 0} where
  abbrev pub empty : VersionVector K
  empty = record { map = []; last_update = [] }

  abbrev pub size : VersionVector K → ℕ
  size vv = length vv.map

module _ {K : Type 0} ⦃o : Ord K⦄ where
  unfoldable pub set : VersionVector K → K → ℕ → ℕ → VersionVector K
  set vv nid seq_no now = record vv {
    map = insert nid seq_no vv.map;
    last_update = insert nid now vv.last_update;
  }

  unfoldable pub get : VersionVector K → K → ℕ
  get vv nid = some_or (find nid vv.map) 0

  unfoldable pub get_last_update : VersionVector K → K → ℕ
  get_last_update vv nid = some_or (find nid vv.last_update) time_min

  abbrev pub has : VersionVector K → K → Bool
  has vv nid = Map.has nid vv.map
