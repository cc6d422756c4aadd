-- ===== src/VersionVector/Subset.antt =====
-- ndn-svs/version-vector.cpp, `selectSubset`: its arguments, `addEntry`, and the closures that add
-- entries in an order that needs no score. Each takes the budget and the selection so far.
use Prim.Native.Nat.{suc}
use mathlib.Core.List
use m_svs.Base.{
  ℕ, zero, ◌+◌, ◌-◌, ◌%◌, ◌^◌, Bool, true, false, ◌||◌, List, [], ◌∷◌, length, get_or, leb, ltb,
  if◌then◌else◌, ◌==◌ as nat_eq, none, some, is_some,
}
use m_svs.Std.Ord.{Ord, ◌==◌, ◌≺◌}
use m_svs.Std.Map.{Map, find, insert}
use m_svs.Std.Sort.{sort}
use m_svs.Names.{Name}
use m_svs.VersionVector.{VersionVector, SubsetStrategy, size, get_last_update}

pub record Request (K D : Type 0) : Type 0 where
  pub max_entries : ℕ
  pub recent_entries : ℕ
  pub start_index : ℕ
  pub preferred_node : K
  pub strategy : SubsetStrategy
  pub hot_ratio : D
  pub min_fair_entries : ℕ
  pub score_seq_weight : D
  pub score_recent_weight : D
  pub score_fair_weight : D
  pub score_preferred_boost : D
  pub sticky_entries : List K
  pub sticky_budget : ℕ
  pub novelty_base_entries : List K
  pub novelty_budget : ℕ
  pub score_compensation_rounds : Map K ℕ

-- orderedNodes[(offset + i) % size], for `i` and the `rounds - 1` that follow.
unfoldable pub rotation {ℓ} : {A : Type ℓ} → A → List A → ℕ → ℕ → ℕ → List A
rotation d nodes offset i zero = []
rotation d nodes offset i (suc rounds) =
    get_or nodes ((offset + i) % length nodes) d ∷ rotation d nodes offset (suc i) rounds

module _ {K : Type 0} ⦃o : Ord K⦄ (self : VersionVector K) where
  -- The Boolean says whether the entry was added.
  unfoldable pub add_entry : K → VersionVector K → VersionVector K × Bool
  add_entry nid selected = elim (find nid self.map) [
    | none ↦ (selected, false)
    | some seq_no ↦ if is_some (find nid selected.map) then (selected, false) else (
      record {
        map = insert nid seq_no selected.map;
        last_update = insert nid (get_last_update self nid) selected.last_update;
      },
      true,
    )
  ]

  -- for (nid : nodes) { if (selected.size() >= maxEntries || budget == 0) break;
  --                     if (addEntry(nid)) --budget; }
  unfoldable pub add_nodes : ℕ → List K → ℕ → VersionVector K → VersionVector K
  add_nodes max_entries [] budget selected = selected
  add_nodes max_entries (nid ∷ rest) budget selected =
      let next =
        (let r = add_entry nid selected in
          add_nodes max_entries rest (if r.1 then budget - 1 else budget) r.0) in
      if leb max_entries (size selected) || nat_eq budget 0 then selected else next

  -- for (nid : nodes) { if (selected.size() >= maxEntries) break; addEntry(nid); }
  unfoldable pub fill_nodes : ℕ → List K → VersionVector K → VersionVector K
  fill_nodes max_entries [] selected = selected
  fill_nodes max_entries (nid ∷ rest) selected =
      let next = fill_nodes max_entries rest (add_entry nid selected).0 in
      if leb max_entries (size selected) then selected else next

  abbrev pub ordered_nodes : List K
  ordered_nodes = List.map (λ (e : K × ℕ). e.0) self.map

  -- Latest update first.
  unfoldable pub more_recent : K → K → Bool
  more_recent lhs rhs =
      let lhs_ts = get_last_update self lhs in
      let rhs_ts = get_last_update self rhs in
      if nat_eq lhs_ts rhs_ts then lhs ≺ rhs else ltb rhs_ts lhs_ts

  -- Earliest update first.
  unfoldable pub more_aged : K → K → Bool
  more_aged lhs rhs =
      let lhs_ts = get_last_update self lhs in
      let rhs_ts = get_last_update self rhs in
      if nat_eq lhs_ts rhs_ts then lhs ≺ rhs else ltb lhs_ts rhs_ts

  unfoldable pub recent_nodes : List K
  recent_nodes = sort more_recent ordered_nodes

  unfoldable pub add_recent_entries : ℕ → ℕ → VersionVector K → VersionVector K
  add_recent_entries max_entries budget selected =
      if nat_eq budget 0 then selected else add_nodes max_entries recent_nodes budget selected

  -- recentBase.find(nid) == recentBase.end(), over the vector that the set is made from
  unfoldable pub contains : List K → K → Bool
  contains [] nid = false
  contains (x ∷ xs) nid = x == nid || contains xs nid

  unfoldable pub novel : List K → List K → List K
  novel base [] = []
  novel base (nid ∷ rest) = if contains base nid then novel base rest else nid ∷ novel base rest

  module _ {D : Type 0} ⦃n : Name K⦄ (r : Request K D) where
    unfoldable pub add_sticky_entries : ℕ → VersionVector K → VersionVector K
    add_sticky_entries budget selected =
        if nat_eq budget 0 || nat_eq (length r.sticky_entries) 0
        then selected
        else add_nodes r.max_entries r.sticky_entries budget selected

    unfoldable pub round_robin_order : List K
    round_robin_order =
        let nodes = ordered_nodes in
        rotation n.empty nodes (r.start_index % length nodes) 0 (length nodes)

    unfoldable pub add_round_robin_entries : ℕ → VersionVector K → VersionVector K
    add_round_robin_entries budget selected =
        if nat_eq budget 0 || nat_eq (length ordered_nodes) 0
        then selected
        else add_nodes r.max_entries round_robin_order budget selected

    -- `shuffle` is std::shuffle with std::minstd_rand seeded by its first argument.
    unfoldable pub add_random_entries :
        (ℕ → List K → List K) → ℕ → VersionVector K → VersionVector K
    add_random_entries shuffle budget selected =
        if nat_eq budget 0 || nat_eq (length ordered_nodes) 0
        then selected
        else add_nodes r.max_entries (shuffle (r.start_index % 2 ^ 32) ordered_nodes) budget
            selected

    unfoldable pub add_novelty_entries : ℕ → VersionVector K → VersionVector K
    add_novelty_entries budget selected =
        if nat_eq budget 0
        then selected
        else add_nodes r.max_entries (sort more_recent (novel r.novelty_base_entries ordered_nodes))
            budget selected
