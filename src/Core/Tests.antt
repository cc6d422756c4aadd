-- ===== src/Core/Tests.antt =====
-- The merge at concrete vectors.
use m_svs.Base.{ℕ, ◌≡◌, refl, [], ◌∷◌}
use m_svs.Std.Ord.{nat_ord}
use m_svs.VersionVector.{VersionVector, get}
use m_svs.Core.Merge.Maximum.{receive_all, receive_all-Perm}
use mathlib.Core.List.Perm
use m_svs.Samples.{four_nodes}

-- Ahead at node 2, behind at nodes 3 and 4, and with one node more.
abbrev other : VersionVector ℕ
other = record { map = (2, 9) ∷ (3, 1) ∷ (5, 1) ∷ []; last_update = [] }

abbrev older : VersionVector ℕ
older = record { map = (2, 6) ∷ (3, 1) ∷ []; last_update = [] }

receive_all-Perm_example :
    get (receive_all 100 20 four_nodes (other ∷ older ∷ [])) 2
    ≡ get (receive_all 100 20 four_nodes (older ∷ other ∷ [])) 2
receive_all-Perm_example =
    receive_all-Perm 100 20 four_nodes four_nodes (other ∷ older ∷ []) (older ∷ other ∷ []) 2
      ((refl, (refl, (tt, tt))), ((refl, (tt, tt)), tt))
      ((refl, (tt, tt)), ((refl, (refl, (tt, tt))), tt))
      (Perm.cons four_nodes (Perm.swap older other []))
