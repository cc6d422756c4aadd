-- ===== src/Core/Refinement.antt =====
-- What `SVSyncCore` promises of the numbers: whatever its timer, its suppression state and its choice of
-- entries do, it keeps for each node the greatest number that it was told, or that it published.
use m_svs.Base.{
  ℕ, ◌≤◌, ◌≡◌, refl, max, true, List, [], ◌∷◌, Option, some, none, arith, if◌then◌else◌, if_cases,
}
use m_svs.Std.Ord.{Ord, ◌==◌, beq_refl}
use m_svs.Std.Map.{IsSorted}
use m_svs.Names.{Name}
use m_svs.Double.{Double}
use m_svs.VersionVector.{VersionVector, get}
use m_svs.Core.State.{Core}
use m_svs.Core.Handlers.{Env, retx_sync_interest, on_sync_interest_validated, update_seq_no, start}
use m_svs.Core.Handlers.Progress.{get-on_sync_interest_validated, get-update_seq_no}
use m_svs.Core.Network.Below.{IsBelow}
use m_svs.Core.Network.Honest.{Honest, retx-Honest}
use m_svs.Core.Network.Receive.{on_sync_interest-Honest, update_seq_no-Honest, start-Honest}
use m_svs.Core.Network.Sound.{Honest-mono}

-- What happens at a node: it starts, its timer fires, an Interest arrives (`none` if it does not
-- decode) at a face, or it publishes under its own name.
pub data Event (K : Type 0) : Type 0 where
  started : Env → Event K
  timer : Env → Event K
  received : Env → ℕ → Option (VersionVector K) → Event K
  published : Env → ℕ → Event K

-- The specification: the number of each node.
module _ {K : Type 0} ⦃o : Ord K⦄ (me : K) where
  abbrev pub told : Option (VersionVector K) → (K → ℕ) → K → ℕ
  told none f k = f k
  told (some vector) f k = max (f k) (get vector k)

  abbrev pub told_by : Event K → (K → ℕ) → K → ℕ
  told_by (Event.started env) f k = f k
  told_by (Event.timer env) f k = f k
  told_by (Event.received env face vector) f k = told vector f k
  told_by (Event.published env seq) f k = if me == k then seq else f k

  abbrev pub replay : List (Event K) → (K → ℕ) → K → ℕ
  replay [] f = f
  replay (event ∷ rest) f = replay rest (told_by event f)

  abbrev pub Sorted : Option (VersionVector K) → Type 0
  Sorted none = Unit {0}
  Sorted (some vector) = IsSorted vector.map

  -- The vectors that arrive are in key order, and a publication does not lower the node's number.
  abbrev pub IsFair : List (Event K) → (K → ℕ) → Type 0
  IsFair [] f = Unit {0}
  IsFair (Event.received env face vector ∷ rest) f =
      Sorted vector × IsFair rest (told_by (Event.received env face vector) f)
  IsFair (Event.published env seq ∷ rest) f =
      (f me ≤ seq) × IsFair rest (told_by (Event.published env seq) f)
  IsFair (event ∷ rest) f = IsFair rest (told_by event f)

module _ {K D : Type 0} ⦃o : Ord K⦄ (me : K) where
  -- The node's numbers are `f`, and none that it has recorded or sent is above them.
  abbrev pub Implements : (K → ℕ) → Core K D → Type 0
  Implements f c = Honest me f f c

module _ {K D : Type 0} ⦃o : Ord K⦄ ⦃n : Name K⦄ ⦃d : Double D⦄ (shuffle : ℕ → List K → List K)
    (me : K) where
  unfoldable pub handle : Event K → Core K D → Core K D
  handle (Event.started env) c = start shuffle env c
  handle (Event.timer env) c = retx_sync_interest shuffle env true 0 c
  handle (Event.received env face vector) c =
      (on_sync_interest_validated shuffle env face vector c).0
  handle (Event.published env seq) c = update_seq_no shuffle env seq me c

  unfoldable pub run : List (Event K) → Core K D → Core K D
  run [] c = c
  run (event ∷ rest) c = run rest (handle event c)

  pub numbers : (f : K → ℕ) (c : Core K D) (k : K) → Implements me f c → get c.vv k ≡ f k
  numbers f c k h = omega (arith, h.above k, h.local.below k)

  raise :
      (f g : K → ℕ) (c : Core K D)
      → ((k : K) → get c.vv k ≡ g k)
      → Honest me f g c
      → Implements me g c
  raise f g c e h = record {
    named = h.named;
    local = h.local;
    above = λ k. omega (arith, e k);
    recorded = h.recorded;
    told = h.told;
  }

  pub receive-Implements :
      (env : Env) (face : ℕ) (vector : VersionVector K) (f : K → ℕ) (c : Core K D)
      → IsSorted vector.map
      → Implements me f c
      → Implements me
          (told me (some vector) f)
          (on_sync_interest_validated shuffle env face (some vector) c).0
  receive-Implements env face vector f c sorted h =
      let g = told me (some vector) f in
      let below : IsBelow g vector = record { sorted = sorted; below = λ k. omega arith } in
      raise f g _
        (λ k. omega (
          arith,
          get-on_sync_interest_validated shuffle env face vector c k sorted,
          numbers f c k h,
        ))
        (on_sync_interest-Honest shuffle me f g env face vector c below
          (Honest-mono f g (λ k. omega arith) me f f c (λ k. omega arith) h))

  pub publish-Implements :
      (env : Env) (seq : ℕ) (f : K → ℕ) (c : Core K D)
      → f me ≤ seq
      → Implements me f c
      → Implements me (told_by me (Event.published env seq) f) (update_seq_no shuffle env seq me c)
  publish-Implements env seq f c rises h =
      let g = told_by me (Event.published env seq) f in
      let own : (if me == n.empty then c.id else me) ≡ me =
        if_cases (λ t. t ≡ me) (me == n.empty) (λ _. h.named) (λ _. refl) in
      raise f g _
        (λ k. ground (arith, get-update_seq_no shuffle env seq me k c, own, numbers f c k h))
        (update_seq_no-Honest shuffle me f g env seq c (omega (arith, numbers f c me h, rises))
          (ground (arith, beq_refl me))
          (Honest-mono f g (λ k. ground (arith, (o.beq_iff me k).0)) me f f c (λ k. omega arith) h))

  run-Implements :
      (l : List (Event K)) (f : K → ℕ) (c : Core K D)
      → IsFair me l f
      → Implements me f c
      → Implements me (replay me l f) (run l c)
  unfolding run handle on_sync_interest_validated
  run-Implements [] f c fair h = h
  run-Implements (Event.started env ∷ rest) f c fair h =
      run-Implements rest f _ fair (start-Honest shuffle me f f env c h)
  run-Implements (Event.timer env ∷ rest) f c fair h =
      run-Implements rest f _ fair (retx-Honest shuffle me f f env true 0 c h)
  run-Implements (Event.received env face none ∷ rest) f c fair h = run-Implements rest f c fair.1 h
  run-Implements (Event.received env face (some vector) ∷ rest) f c fair h =
      run-Implements rest _ _ fair.1 (receive-Implements env face vector f c fair.0 h)
  run-Implements (Event.published env seq ∷ rest) f c fair h =
      run-Implements rest _ _ fair.1 (publish-Implements env seq f c fair.0 h)

  -- Whatever happens at a node, in whatever order, with whatever clocks and random draws, its numbers
  -- are those of the specification, which takes the greater number of each Interest and the node's own
  -- publications; the vectors that arrive are in key order, and no publication lowers the number.
  pub run_refines :
      (l : List (Event K)) (f : K → ℕ) (c : Core K D) (k : K)
      → IsFair me l f
      → Implements me f c
      → get (run l c).vv k ≡ replay me l f k
  run_refines l f c k fair h = numbers (replay me l f) (run l c) k (run-Implements l f c fair h)
