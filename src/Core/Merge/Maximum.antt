-- ===== src/Core/Merge/Maximum.antt =====
-- Merging takes the greater sequence number of each node, so the order of the vectors that a node
-- receives does not matter.
use mathlib.Core.List.{Perm, Permᴰ}
use mathlib.Core.Logic.{∥∥₁_elim}
use native.Mathlib.Nat.{ℕ_set}
use m_svs.Base.{
  ℕ, ◌≡◌, refl, sym, ap, ◌∙◌, List, [], ◌∷◌, max, ltb, if◌then◌else◌, some_or, arith, All,
  Bool-cases, inl, inr,
}
use m_svs.Std.Ord.{Ord, ◌==◌}
use m_svs.Std.Map.{Map, IsSorted, find, find-insert, find-Above}
use m_svs.VersionVector.{VersionVector, get, set}
use m_svs.Core.Merge.{Merging, learn_entry, learn, merge_state_vector, record_entries}

module _ {K : Type 0} ⦃o : Ord K⦄ where
  pub get-set :
      (vv : VersionVector K) (nid k : K) (s now : ℕ)
      → get (set vv nid s now) k ≡ (if nid == k then s else get vv k)
  unfolding get set
  get-set vv nid k s now = ground (arith, find-insert k nid s vv.map)

  abbrev pub seq_in : K → Map K ℕ → ℕ
  seq_in k m = some_or (find k m) 0

  pub learn_entry-max :
      (now : ℕ) (m : Merging K) (nid : K) (s : ℕ) (k : K)
      → get (learn_entry now m (nid, s)).vv k
        ≡ (if nid == k then max (get m.vv k) s else get m.vv k)
  unfolding learn_entry
  learn_entry-max now m nid s k = ground (arith, get-set m.vv nid k s now, o.beq_iff nid k)

  pub get-learn :
      (now : ℕ) (entries : Map K ℕ) (m : Merging K) (k : K)
      → IsSorted entries
      → get (learn now entries m).vv k ≡ max (get m.vv k) (seq_in k entries)
  unfolding learn find
  get-learn now [] m k s = omega arith
  get-learn now ((nid, q) ∷ rest) m k s = ground (
    arith,
    get-learn now rest (learn_entry now m (nid, q)) k s.1,
    learn_entry-max now m nid q k,
    find-Above nid rest s.1 s.0,
    o.beq_iff nid k,
  )

  -- After a merge each node's number is the greater of the local one and the other vector's, if the
  -- other vector's map is in key order.
  pub get-merge_state_vector :
      (now window : ℕ) (vv other : VersionVector K) (k : K)
      → IsSorted other.map
      → get (merge_state_vector now window vv other).0 k ≡ max (get vv k) (get other k)
  unfolding merge_state_vector get
  get-merge_state_vector now window vv other k s = get-learn now other.map _ k s

  -- `recordVector` takes the greater number of each node too.
  pub get-record_entries :
      (now : ℕ) (entries : Map K ℕ) (recorded : VersionVector K) (k : K)
      → IsSorted entries
      → get (record_entries now entries recorded) k ≡ max (get recorded k) (seq_in k entries)
  unfolding record_entries find
  get-record_entries now [] recorded k s = omega arith
  get-record_entries now ((nid, q) ∷ rest) recorded k s =
      elim (Bool-cases (ltb (get recorded nid) q)) [
        | inl e ↦ rw e (
            ground (
              arith,
              get-record_entries now rest (set recorded nid q now) k s.1,
              get-set recorded nid k q now,
              find-Above nid rest s.1 s.0,
              o.beq_iff nid k,
            ))
        | inr e ↦ rw e (
            ground (
              arith,
              get-record_entries now rest recorded k s.1,
              find-Above nid rest s.1 s.0,
              o.beq_iff nid k,
            ))
      ]

  -- The vectors that a node receives, in the order of their arrival.
  unfoldable pub receive_all : ℕ → ℕ → VersionVector K → List (VersionVector K) → VersionVector K
  receive_all now window vv [] = vv
  receive_all now window vv (other ∷ rest) =
      receive_all now window (merge_state_vector now window vv other).0 rest

  abbrev pub highest : K → List (VersionVector K) → ℕ
  highest k [] = 0
  highest k (vv ∷ rest) = max (get vv k) (highest k rest)

  abbrev pub AllSorted : List (VersionVector K) → Type 0
  AllSorted = All (λ (vv : VersionVector K). IsSorted vv.map)

  get-receive_all :
      (now window : ℕ) (vv : VersionVector K) (vs : List (VersionVector K)) (k : K)
      → AllSorted vs
      → get (receive_all now window vv vs) k ≡ highest k (vv ∷ vs)
  unfolding receive_all
  get-receive_all now window vv [] k s = omega arith
  get-receive_all now window vv (other ∷ rest) k s =
      let merged = (merge_state_vector now window vv other).0 in
      omega (
        arith,
        get-receive_all now window merged rest k s.1,
        get-merge_state_vector now window vv other k s.0,
      )

  highest-Permᴰ :
      (k : K) {vs ws : List (VersionVector K)} → Permᴰ vs ws → highest k vs ≡ highest k ws
  highest-Permᴰ k Permᴰ.nil = refl
  highest-Permᴰ k (Permᴰ.cons e p) =
      ground (arith, highest-Permᴰ k p, ap (λ (v : VersionVector K). get v k) e)
  highest-Permᴰ k (Permᴰ.swap {l = l} e f) = ground (
    arith,
    ap (λ (v : VersionVector K). get v k) e,
    ap (λ (v : VersionVector K). get v k) f,
    highest k l,
  )
  highest-Permᴰ k (Permᴰ.trans p q) = highest-Permᴰ k p ∙ highest-Permᴰ k q

  -- Two nodes agree on every sequence number once the vector that each began with and those that it
  -- received are together the same vectors, each as often, in whatever order; maps are in key order.
  pub receive_all-Perm :
      (now window : ℕ) (a b : VersionVector K) (vs ws : List (VersionVector K)) (k : K)
      → AllSorted vs
      → AllSorted ws
      → Perm (a ∷ vs) (b ∷ ws)
      → get (receive_all now window a vs) k ≡ get (receive_all now window b ws) k
  receive_all-Perm now window a b vs ws k sv sw p =
      get-receive_all now window a vs k sv
      ∙ (∥∥₁_elim p (ℕ_set _ _) (highest-Permᴰ k) ∙ sym (get-receive_all now window b ws k sw))
