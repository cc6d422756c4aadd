-- ===== src/Core/Network.antt =====
-- A group of nodes that run `SVSyncCore`, one for each name. An Interest that some node has sent may
-- reach any node, at any time, in any order, more than once or never; nodes publish under their own
-- names. Clocks and draws are arbitrary in each step.
pub mod Below
pub mod Honest
pub mod Receive
pub mod Sound
pub mod Delivery
mod Tests
use m_svs.Base.{ℕ, ◌≤◌, ◌≡◌, Bool, true, List, [], Option, some, none, if◌then◌else◌}
use mathlib.Core.List.{Memᴰ}
use m_svs.Std.Ord.{Ord, ◌==◌}
use m_svs.Names.{Name}
use m_svs.Double.{Double}
use m_svs.VersionVector.{VersionVector, empty, get}
use m_svs.Core.State.{Core}
use m_svs.Core.Handlers.{Env, retx_sync_interest, on_sync_interest_validated, update_seq_no, start}

module _ {K D : Type 0} where
  -- A node before its first event.
  pub record IsFresh (nid : K) (c : Core K D) : Type 0 where
    pub named : c.id ≡ nid
    pub vv : c.vv ≡ empty
    pub recorded : c.recorded_vv ≡ none
    pub sent : c.sent ≡ []

module _ {K D : Type 0} ⦃o : Ord K⦄ where
  abbrev pub update : (K → Core K D) → K → Core K D → K → Core K D
  update nodes i c j = if i == j then c else nodes j

module _ {K D : Type 0} ⦃o : Ord K⦄ ⦃n : Name K⦄ ⦃d : Double D⦄
    (shuffle : ℕ → List K → List K) where
  pub data Step (nodes : K → Core K D) : (K → Core K D) → Type 0 where
    begin : (i : K) (env : Env) → Step nodes (update nodes i (start shuffle env (nodes i)))
    timer :
        (i : K) (env : Env)
        → Step nodes (update nodes i (retx_sync_interest shuffle env true 0 (nodes i)))
    publish :
        (i : K) (env : Env) (seq : ℕ)
        → get (nodes i).vv i ≤ seq
        → Step nodes (update nodes i (update_seq_no shuffle env seq i (nodes i)))
    deliver :
        (i j : K) (env : Env) (face : ℕ) (vector : VersionVector K)
        → Memᴰ vector (nodes j).sent
        → Step nodes
            (update nodes i (on_sync_interest_validated shuffle env face (some vector) (nodes i)).0)

  pub data Reach : (K → Core K D) → Type 0 where
    fresh : {nodes : K → Core K D} → ((i : K) → IsFresh i (nodes i)) → Reach nodes
    next : {nodes later : K → Core K D} → Reach nodes → Step nodes later → Reach later
