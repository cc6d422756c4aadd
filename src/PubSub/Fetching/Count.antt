-- ===== src/PubSub/Fetching/Count.antt =====
-- How often `fetchAll` asks for a publication.
use m_svs.Base.{
  ℕ, ◌+◌, ◌≡◌, refl, ap, Bool, true, false, not, ◌&&◌, List, [], ◌∷◌, ◌++◌, some, if_cases, arith,
  if◌then◌else◌,
}
use m_svs.Std.Ord.{nat_ord, pair_ord, Ord, ◌==◌}
use m_svs.Std.Map.{Map, find, insert, has, find-insert}
use m_svs.PubSub.State.{Subscription, SvsPubSub, PubSubCall}
use m_svs.PubSub.Fetching.{fetch_from, fetch_all}

module _ {K A : Type 0} ⦃o : Ord K⦄ where
  abbrev pub is_fetch : K × ℕ → PubSubCall K A → Bool
  is_fetch p (PubSubCall.fetch q) = q == p
  is_fetch p _ = false

  abbrev pub fetches : K × ℕ → List (PubSubCall K A) → ℕ
  fetches p [] = 0
  fetches p (x ∷ rest) = (if is_fetch p x then 1 else 0) + fetches p rest

  pub fetches-append :
      (p : K × ℕ) (l r : List (PubSubCall K A)) → fetches p (l ++ r) ≡ fetches p l + fetches p r
  fetches-append p [] r = omega arith
  fetches-append p (x ∷ l) r = omega (arith, fetches-append p l r)

module _ {K B A : Type 0} ⦃o : Ord K⦄ where
  -- In `later` those of `l` that were not being fetched in `s` are.
  abbrev Asked :
      K × ℕ → Map (K × ℕ) (List (Subscription K)) → SvsPubSub K B A → SvsPubSub K B A → Type 0
  Asked p l s later =
      (fetches p later.calls
        ≡ fetches p s.calls + (if has p l && not (has p s.fetching_map) then 1 else 0))
      × (find p later.fetching_map
          ≡ (if has p l && not (has p s.fetching_map) then some true else find p s.fetching_map))

  fetch_from-fetches :
      (p : K × ℕ) (l : Map (K × ℕ) (List (Subscription K))) (s : SvsPubSub K B A)
      → Asked p l s (fetch_from l s)
  unfolding fetch_from find
  fetch_from-fetches p [] s = (omega arith, refl)
  fetch_from-fetches p ((key, subs) ∷ rest) s =
      let asked : SvsPubSub K B A = record s {
        fetching_map = insert key true s.fetching_map;
        calls = s.calls ++ (PubSubCall.fetch key ∷ []);
      } in
      let skip = fetch_from-fetches p rest s in
      let more = fetch_from-fetches p rest asked in
      let same : (key == p) ≡ true → has key s.fetching_map ≡ has p s.fetching_map =
        λ e. ap (λ q. has q s.fetching_map) ((pair_ord.beq_iff key p).0 e) in
      if_cases (λ (t : SvsPubSub K B A). Asked p ((key, subs) ∷ rest) s (fetch_from rest t))
        (has key s.fetching_map) (λ e. (ground (arith, skip.0, same), ground (arith, skip.1, same)))
        (λ e. (
          ground (
            arith,
            more.0,
            same,
            find-insert p key true s.fetching_map,
            fetches-append p s.calls (PubSubCall.fetch key ∷ []),
          ),
          ground (arith, more.1, same, find-insert p key true s.fetching_map),
        ))

  -- A publication that is queued and not being fetched is asked for once, and is being fetched then.
  pub fetch_all-fetches :
      (p : K × ℕ) (s : SvsPubSub K B A)
      → has p s.fetch_map ≡ true
      → has p s.fetching_map ≡ false
      → (fetches p (fetch_all s).calls ≡ fetches p s.calls + 1)
        × (find p (fetch_all s).fetching_map ≡ some true)
  unfolding fetch_all
  fetch_all-fetches p s queued idle =
      let (count, mark) = fetch_from-fetches p s.fetch_map s in
      (ground (arith, count), ground (arith, mark))
