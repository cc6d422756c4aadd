-- ===== src/Core/Network/Sound.antt =====
-- No node ever believes, records or sends a number that the named node has not published.
use mathlib.Core.List.{Memᴰ}
use m_svs.Base.{
  All, ℕ, ◌≤◌, ◌≡◌, refl, sym, subst, true, List, [], ◌∷◌, Option, some, none, arith, if◌then◌else◌,
  if_cases,
}
use m_svs.Std.Ord.{Ord, ◌==◌, beq_refl}
use m_svs.Std.Map.{find}
use m_svs.Names.{Name}
use m_svs.Double.{Double}
use m_svs.VersionVector.{VersionVector, get}
use m_svs.Core.State.{Core}
use m_svs.Core.Handlers.{Env, update_seq_no}
use m_svs.Core.Handlers.Progress.{get-update_seq_no}
use m_svs.Core.Network.{IsFresh, update, Step, Reach}
use m_svs.Core.Network.Below.{IsBelow, IsBelowIf}
use m_svs.Core.Network.Honest.{Honest, retx-Honest}
use m_svs.Core.Network.Receive.{on_sync_interest-Honest, update_seq_no-Honest, start-Honest}

module _ {K : Type 0} ⦃o : Ord K⦄ (top most : K → ℕ) (more : (k : K) → top k ≤ most k) where
  pub IsBelow-mono : (vv : VersionVector K) → IsBelow top vv → IsBelow most vv
  IsBelow-mono vv b = record { sorted = b.sorted; below = λ k. omega (arith, b.below k, more k) }

  IsBelowIf-mono : (r : Option (VersionVector K)) → IsBelowIf top r → IsBelowIf most r
  IsBelowIf-mono none b = tt
  IsBelowIf-mono (some vv) b = IsBelow-mono vv b

  All-mono : (l : List (VersionVector K)) → All (IsBelow top) l → All (IsBelow most) l
  All-mono [] a = tt
  All-mono (vv ∷ rest) a = (IsBelow-mono vv a.0, All-mono rest a.1)

  pub Honest-mono :
      {D : Type 0} (i : K) (low least : K → ℕ) (c : Core K D)
      → ((k : K) → least k ≤ low k)
      → Honest i low top c
      → Honest i least most c
  Honest-mono i low least c less h = record {
    named = h.named;
    local = IsBelow-mono c.vv h.local;
    above = λ k. omega (arith, h.above k, less k);
    recorded = IsBelowIf-mono c.recorded_vv h.recorded;
    told = All-mono c.sent h.told;
  }

module _ {K : Type 0} ⦃o : Ord K⦄ (top : K → ℕ) where
  Memᴰ-IsBelow :
      (vv : VersionVector K) (l : List (VersionVector K))
      → Memᴰ vv l
      → All (IsBelow top) l
      → IsBelow top vv
  Memᴰ-IsBelow vv [] m a = elim m [ ]
  Memᴰ-IsBelow vv (w ∷ rest) (Memᴰ.head e) a = subst (IsBelow top) (sym e) a.0
  Memᴰ-IsBelow vv (w ∷ rest) (Memᴰ.tail m) a = Memᴰ-IsBelow vv rest m a.1

module _ {K D : Type 0} ⦃o : Ord K⦄ where
  -- The number that each node has published.
  abbrev pub published : (K → Core K D) → K → ℕ
  published nodes k = get (nodes k).vv k

  abbrev pub IsSound : (K → Core K D) → Type 0
  IsSound nodes = (i : K) → Honest i (λ _. 0) (published nodes) (nodes i)

  raised_at :
      (nodes : K → Core K D) (i : K) (c : Core K D)
      → ((k : K) → get (nodes i).vv k ≤ get c.vv k)
      → (j k : K) → get (nodes j).vv k ≤ get (update nodes i c j).vv k
  raised_at nodes i c h j k =
      if_cases (λ (new : Core K D). get (nodes j).vv k ≤ get new.vv k) (i == j)
        (λ e. ground (arith, h k, (o.beq_iff i j).0 e)) (λ _. omega arith)

  raised :
      (nodes : K → Core K D) (i : K) (c : Core K D)
      → ((k : K) → get (nodes i).vv k ≤ get c.vv k)
      → (k : K) → published nodes k ≤ published (update nodes i c) k
  raised nodes i c h k = raised_at nodes i c h k k

  update-IsSound :
      (nodes : K → Core K D) (i : K) (c : Core K D) (bound : K → ℕ)
      → IsSound nodes
      → Honest i (get (nodes i).vv) bound c
      → ((k : K) → bound k ≤ published (update nodes i c) k)
      → IsSound (update nodes i c)
  update-IsSound nodes i c bound s h within j =
      let most = published (update nodes i c) in
      if_cases (Honest j (λ _. 0) most) (i == j)
        (λ e.
          subst (λ a. Honest a (λ _. 0) most c) ((o.beq_iff i j).0 e)
            (Honest-mono bound most within i _ _ c (λ k. omega arith) h))
        (λ _.
          Honest-mono (published nodes) most (raised nodes i c h.above) j _ _ (nodes j)
            (λ k. omega arith) (s j))

  -- A sound node's own numbers are a lower bound of what a handler leaves.
  tighten :
      (nodes : K → Core K D) (i : K)
      → IsSound nodes
      → Honest i (get (nodes i).vv) (published nodes) (nodes i)
  tighten nodes i s = record {
    named = (s i).named;
    local = (s i).local;
    above = λ k. omega arith;
    recorded = (s i).recorded;
    told = (s i).told;
  }

  kept-IsSound :
      (nodes : K → Core K D) (i : K) (c : Core K D)
      → IsSound nodes
      → Honest i (get (nodes i).vv) (published nodes) c
      → IsSound (update nodes i c)
  kept-IsSound nodes i c s h =
      update-IsSound nodes i c (published nodes) s h (raised nodes i c h.above)

module _ {K D : Type 0} ⦃o : Ord K⦄ ⦃n : Name K⦄ ⦃d : Double D⦄
    (shuffle : ℕ → List K → List K) where
  abbrev once_published : (K → Core K D) → K → ℕ → K → ℕ
  once_published nodes i seq k = if i == k then seq else published nodes k

  publish-Honest :
      (nodes : K → Core K D) (i : K) (env : Env) (seq : ℕ)
      → get (nodes i).vv i ≤ seq
      → IsSound nodes
      → Honest i
          (get (nodes i).vv)
          (once_published nodes i seq)
          (update_seq_no shuffle env seq i (nodes i))
  publish-Honest nodes i env seq rises s =
      let bound = once_published nodes i seq in
      let more : (k : K) → published nodes k ≤ bound k =
        λ k. ground (arith, (o.beq_iff i k).0, rises) in
      update_seq_no-Honest shuffle i (get (nodes i).vv) bound env seq (nodes i) rises
        (ground (arith, beq_refl i))
        (Honest-mono (published nodes) bound more i _ _ (nodes i) (λ k. omega arith)
          (tighten nodes i s))

  publish-IsSound :
      (nodes : K → Core K D) (i : K) (env : Env) (seq : ℕ)
      → get (nodes i).vv i ≤ seq
      → IsSound nodes
      → IsSound (update nodes i (update_seq_no shuffle env seq i (nodes i)))
  publish-IsSound nodes i env seq rises s =
      let c = update_seq_no shuffle env seq i (nodes i) in
      let own : (if i == n.empty then (nodes i).id else i) ≡ i =
        if_cases (λ t. t ≡ i) (i == n.empty) (λ _. (s i).named) (λ _. refl) in
      let reached : get c.vv i ≡ seq =
        ground (arith, get-update_seq_no shuffle env seq i i (nodes i), own, beq_refl i) in
      let h = publish-Honest nodes i env seq rises s in
      update-IsSound nodes i c (once_published nodes i seq) s h
        λ k. ground (arith, raised nodes i c h.above k, (o.beq_iff i k).0, reached)

  Step-IsSound :
      (nodes later : K → Core K D) → Step shuffle nodes later → IsSound nodes → IsSound later
  Step-IsSound nodes later (Step.begin i env) s =
      kept-IsSound nodes i _ s (start-Honest shuffle i _ _ env (nodes i) (tighten nodes i s))
  Step-IsSound nodes later (Step.timer i env) s =
      kept-IsSound nodes i _ s (retx-Honest shuffle i _ _ env true 0 (nodes i) (tighten nodes i s))
  Step-IsSound nodes later (Step.publish i env seq rises) s =
      publish-IsSound nodes i env seq rises s
  Step-IsSound nodes later (Step.deliver i j env face vector m) s = kept-IsSound nodes i _ s (
      on_sync_interest-Honest shuffle i _ _ env face vector (nodes i)
        (Memᴰ-IsBelow _ vector (nodes j).sent m (s j).told) (tighten nodes i s))

  fresh-IsSound : (nodes : K → Core K D) → ((i : K) → IsFresh i (nodes i)) → IsSound nodes
  unfolding get find
  fresh-IsSound nodes f i = record {
    named = (f i).named;
    local =
        subst (IsBelow (published nodes)) (sym (f i).vv)
          (record { sorted = tt; below = λ k. omega arith });
    above = λ k. omega arith;
    recorded = subst (IsBelowIf (published nodes)) (sym (f i).recorded) tt;
    told = subst (All (IsBelow (published nodes))) (sym (f i).sent) tt;
  }

  pub Reach-IsSound : (nodes : K → Core K D) → Reach shuffle nodes → IsSound nodes
  Reach-IsSound nodes (Reach.fresh f) = fresh-IsSound nodes f
  Reach-IsSound nodes (Reach.next r s) = Step-IsSound _ nodes s (Reach-IsSound _ r)

  -- Whatever Interests are lost, repeated or reordered, no node of a reachable group believes a number
  -- that is above the one that the named node has published itself. The nodes publish under their own
  -- names, and no publication lowers the number.
  pub Reach-published :
      (nodes : K → Core K D) (i k : K)
      → Reach shuffle nodes
      → get (nodes i).vv k ≤ get (nodes k).vv k
  Reach-published nodes i k r = (Reach-IsSound nodes r i).local.below k

  Step-rises :
      (nodes later : K → Core K D) (i k : K)
      → Step shuffle nodes later
      → IsSound nodes
      → get (nodes i).vv k ≤ get (later i).vv k
  Step-rises nodes later i k (Step.begin j env) s =
      raised_at nodes j _ (start-Honest shuffle j _ _ env (nodes j) (tighten nodes j s)).above i k
  Step-rises nodes later i k (Step.timer j env) s =
      raised_at nodes j _ (retx-Honest shuffle j _ _ env true 0 (nodes j) (tighten nodes j s)).above
        i k
  Step-rises nodes later i k (Step.publish j env seq rises) s =
      raised_at nodes j _ (publish-Honest nodes j env seq rises s).above i k
  Step-rises nodes later i k (Step.deliver j from env face vector m) s =
      raised_at nodes j _
        (on_sync_interest-Honest shuffle j _ _ env face vector (nodes j)
          (Memᴰ-IsBelow _ vector (nodes from).sent m (s from).told) (tighten nodes j s)).above
        i k

  -- No step of a reachable group lowers any number at any node, as no publication lowers the number of
  -- its node.
  pub Reach-rises :
      (nodes later : K → Core K D) (i k : K)
      → Reach shuffle nodes
      → Step shuffle nodes later
      → get (nodes i).vv k ≤ get (later i).vv k
  Reach-rises nodes later i k r s = Step-rises nodes later i k s (Reach-IsSound nodes r)
