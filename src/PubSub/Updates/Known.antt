-- ===== src/PubSub/Updates/Known.antt =====
-- For a prefix subscription, each new publication is decided by what is known, or asked for.
use mathlib.Core.List
use m_svs.Base.{
  ap, ℕ, zero, suc, ◌+◌, ◌-◌, ◌≤◌, ◌^◌, ◌<◌, ◌≡◌, refl, sym, ◌∙◌, subst, Bool, true, false, ◌⊎◌,
  inl, inr, List, [], ◌∷◌, ◌++◌, Option, some, none, Option-cases, Bool-cases, arith, ltb,
}
use mathlib.Core.List.{Memᴰ}
use m_svs.Std.Ord.{Ord}
use m_svs.Names.{Components}
use m_svs.Core.Merge.{MissingDataInfo}
use m_svs.Mapping.{MappingEntryPair, get_mapping}
use m_svs.PubSub.{mapping_queries}
use m_svs.PubSub.Queries.{times_asked, mapping_queries_bounds}
use m_svs.PubSub.State.{Subscription, SvsPubSub}
use m_svs.PubSub.Blocks.{Timestamps}
use m_svs.PubSub.Updates.{
  query_call, ask, age_test, queue_young, process_entry, process_mapping, process_known,
  find_mappings,
}
use m_svs.PubSub.Updates.Calls.{calls-process_known}
use m_svs.PubSub.Updates.Queued.{
  Queued, Grows, GrowsIf, queue_matching-Queued, process_mapping-Grows, process_known-Grows,
  ask-Grows,
}

module _ {K B A : Type 0} where
  calls-ask :
      (node_id : K) (face : ℕ) (ranges : List (ℕ × ℕ)) (s : SvsPubSub K B A)
      → (ask node_id face ranges s).calls ≡ s.calls ++ List.map (query_call node_id face) ranges
  unfolding ask
  calls-ask node_id face [] s = sym (List.append-nil s.calls)
  calls-ask node_id face (range ∷ rest) s =
      calls-ask node_id face rest _
      ∙ List.append_assoc s.calls (query_call node_id face range ∷ [])
          (List.map (query_call node_id face) rest)

module _ {K B A : Type 0} ⦃o : Ord K⦄ ⦃c : Components K⦄ ⦃t : Timestamps B⦄ (now_us : ℕ) where
  -- What becomes of a publication with a known mapping, from the state `s` to the state `later`.
  abbrev pub Decided : K × ℕ → MappingEntryPair K B → SvsPubSub K B A → SvsPubSub K B A → Type 0
  Decided p (name, blocks) s later =
      (age_test now_us s.max_pub_age_us blocks ≡ some true)
      ⊎ ((age_test now_us s.max_pub_age_us blocks ≡ some false)
          × ((sub : Subscription K)
              → Memᴰ sub s.prefix_subscriptions
              → c.is_prefix_of sub.prefix name ≡ true
              → Queued p sub later))

  abbrev pub Settled : K × ℕ → SvsPubSub K B A → SvsPubSub K B A → Type 0
  Settled p s later =
      (entry : MappingEntryPair K B) × (get_mapping p.0 p.1 s.mapping_provider ≡ some entry)
      × Decided p entry s later

  Settled-grown :
      (p : K × ℕ) (s later last : SvsPubSub K B A)
      → Grows later last
      → Settled p s later
      → Settled p s last
  Settled-grown p s later last g ((name, blocks), e, inl old) = ((name, blocks), e, inl old)
  Settled-grown p s later last g ((name, blocks), e, inr (young, h)) =
      ((name, blocks), e, inr (young, λ sub m y. g.queued p sub (h sub m y)))

  Settled-earlier :
      (p : K × ℕ) (s between later : SvsPubSub K B A)
      → Grows s between
      → Settled p between later
      → Settled p s later
  Settled-earlier p s between later g ((name, blocks), e, d) = (
    (name, blocks),
    subst (λ m. get_mapping p.0 p.1 m ≡ some (name, blocks)) g.provider e,
    elim d [
      | inl old ↦ inl (subst (λ a. age_test now_us a blocks ≡ some true) g.age old)
      | inr (young, h) ↦ inr (
        subst (λ a. age_test now_us a blocks ≡ some false) g.age young,
        λ sub m y. h sub (subst (λ l. Memᴰ sub l) (sym g.prefixes) m) y,
      )
    ],
  )

  DecidedIf :
      K × ℕ → MappingEntryPair K B → SvsPubSub K B A → Option (SvsPubSub K B A × Bool) → Type 0
  DecidedIf p entry s none = Unit {0}
  DecidedIf p entry s (some (later, queued)) = Decided p entry s later

  queue_young-Decided :
      (p : K × ℕ) (name : K) (blocks : List B) (s : SvsPubSub K B A) (old : Option Bool)
      → age_test now_us s.max_pub_age_us blocks ≡ old
      → DecidedIf p (name, blocks) s (queue_young p name old s)
  unfolding queue_young DecidedIf
  queue_young-Decided p name blocks s none e = tt
  queue_young-Decided p name blocks s (some true) e = inl e
  queue_young-Decided p name blocks s (some false) e = inr (
    e,
    λ sub m y.
        queue_matching-Queued (λ prefix. c.is_prefix_of prefix name) p sub s.prefix_subscriptions s
          m y,
  )

  SettledIf : K × ℕ → SvsPubSub K B A → Option (SvsPubSub K B A × Bool) → Type 0
  SettledIf p s none = Unit {0}
  SettledIf p s (some (later, queued)) = Settled p s later

  settle :
      (p : K × ℕ) (entry : MappingEntryPair K B) (s : SvsPubSub K B A)
      (r : Option (SvsPubSub K B A × Bool))
      → get_mapping p.0 p.1 s.mapping_provider ≡ some entry
      → DecidedIf p entry s r
      → SettledIf p s r
  unfolding DecidedIf SettledIf
  settle p entry s none e d = tt
  settle p entry s (some (later, queued)) e d = (entry, e, d)

  process_entry-Settled :
      (p : K × ℕ) (known : Option (MappingEntryPair K B)) (s : SvsPubSub K B A)
      → get_mapping p.0 p.1 s.mapping_provider ≡ known
      → SettledIf p s (process_entry now_us p known s)
  unfolding process_entry SettledIf
  process_entry-Settled p none s e = tt
  process_entry-Settled p (some (name, blocks)) s e =
      settle p (name, blocks) s _ e (queue_young-Decided p name blocks s _ refl)

  process_mapping-Settled :
      (node_id : K) (seq : ℕ) (s : SvsPubSub K B A)
      → SettledIf (node_id, seq) s (process_mapping now_us node_id seq s)
  unfolding process_mapping
  process_mapping-Settled node_id seq s = process_entry-Settled (node_id, seq) _ s refl

  -- The loop settles what is below the number that it ends with, which is in the range.
  process_known-Settled :
      (node_id : K) (low rounds : ℕ) (s : SvsPubSub K B A)
      → let (later, rest) = process_known now_us node_id low rounds s in
        ((low ≤ rest)
          × (rest ≤ low + rounds)
          × ((i : ℕ) → low ≤ i → i < rest → Settled (node_id, i) s later))
  unfolding process_known SettledIf
  process_known-Settled node_id low zero s =
      (omega arith, omega arith, λ i l h. absurd (omega arith))
  process_known-Settled node_id low (suc rounds) s =
      elim (Option-cases (process_mapping now_us node_id low s)) [
        | inl e ↦ rw (process_known, e) (omega arith, omega arith, λ i l h. absurd (omega arith))
        | inr ((after, queued), e) ↦
            let last = (process_known now_us node_id (suc low) rounds after).0 in
            let (rises, ends, settled) = process_known-Settled node_id (suc low) rounds after in
            let g : Grows s after =
              subst (GrowsIf s) e (process_mapping-Grows now_us node_id low s) in
            let first : Settled (node_id, low) s after =
              subst (SettledIf (node_id, low) s) e (process_mapping-Settled node_id low s) in
            let more = process_known-Grows now_us node_id (suc low) rounds after in
            rw (process_known, e)
              (
                omega (arith, rises),
                omega (arith, ends),
                λ i l h. elim (Bool-cases (ltb low i)) [
                  | inl later ↦
                      Settled-earlier (node_id, i) s after last g (settled i (ground arith) h)
                  | inr same ↦
                      Settled-grown (node_id, i) s after last more
                        (subst (λ j. Settled (node_id, j) s after) (ground arith) first)
                ],
              )
      ]

  -- For a node with prefix subscriptions, each publication of a stream that the core reports is either
  -- decided by its known mapping (it is too old, or it is queued for every subscription with a prefix
  -- of its name), or asked for in exactly one of the queries, which are all that the node asks for and
  -- go from some number of the stream up to its highest. That is more than 11 below 2 ^ 64.
  pub find_mappings_complete :
      (stream : MissingDataInfo K) (seq : ℕ) (s : SvsPubSub K B A)
      → stream.low ≤ seq
      → seq ≤ stream.high
      → stream.high + 11 < 2 ^ 64
      → let later = find_mappings now_us stream s in
        Settled (stream.node_id, seq) s later
        ⊎ ((from : ℕ) × (stream.low ≤ from)
            × (later.calls
                ≡ s.calls
                  ++ List.map
                      (query_call stream.node_id stream.incoming_face)
                      (mapping_queries from stream.high))
            × (times_asked seq (mapping_queries from stream.high) ≡ 1))
  unfolding find_mappings
  find_mappings_complete stream seq s l h bound =
      let rounds = suc stream.high - stream.low in
      let (known, low) = process_known now_us stream.node_id stream.low rounds s in
      let (rises, ends, settled) = process_known-Settled stream.node_id stream.low rounds s in
      let ranges = mapping_queries low stream.high in
      elim (Bool-cases (ltb seq low)) [
        | inl below ↦ inl (
            Settled-grown (stream.node_id, seq) s known _
              (ask-Grows stream.node_id stream.incoming_face ranges known)
              (settled seq l (ground arith)))
        | inr above ↦ inr (
          low,
          rises,
          calls-ask stream.node_id stream.incoming_face ranges known
              ∙ ap (λ l. l ++ List.map (query_call stream.node_id stream.incoming_face) ranges)
                  (calls-process_known now_us stream.node_id stream.low rounds s),
          ground (arith, (mapping_queries_bounds low stream.high seq bound).0),
        )
      ]
