-- ===== src/Samples/Prefixes.antt =====
-- Which path is a prefix of which.
use m_svs.Base.{
  ℕ, ◌+◌, ◌-◌, suc, ◌≤◌, ◌≡◌, ap, true, List, ◌∷◌, length, drop, arith, ltb, Bool-cases, inl, inr,
  subst, sym,
}
use m_svs.PubSub.Construct.{Prefixes}
use m_svs.Samples.Paths.{same, same_iff, paths}

dropped : (n m : ℕ) (l : List ℕ) → n ≡ m → drop n l ≡ drop m l
dropped n m l e = ap (λ k. drop k l) e

pub begins_self : (a : List ℕ) → paths.is_prefix_of a a ≡ true
begins_self a = ground (arith, dropped (length a - length a) 0 a (omega arith), same_iff a a)

-- A prefix is not longer.
shorter : (a b : List ℕ) → paths.is_prefix_of a b ≡ true → length a ≤ length b
shorter a b h = elim (Bool-cases (ltb (length b) (length a))) [
  | inl longer ↦
      let none : drop (length b - length a) b ≡ b =
        dropped (length b - length a) 0 b (ground arith) in
      let equal : a ≡ b = (same_iff a b).0 (subst (λ l. same a l ≡ true) none h) in
      ground (arith, ap length equal)
  | inr fits ↦ ground arith
]

pub begins_longer :
    (x : ℕ) (a b : List ℕ) → paths.is_prefix_of a b ≡ true → paths.is_prefix_of a (x ∷ b) ≡ true
begins_longer x a b h =
    let n = length b - length a in
    let more : length (x ∷ b) - length a ≡ suc n = omega (arith, shorter a b h) in
    subst (λ l. same a l ≡ true) (sym (dropped (length (x ∷ b) - length a) (suc n) (x ∷ b) more)) h

instance abbrev pub path_prefixes : Prefixes (List ℕ)
path_prefixes = record {
  prefix_self = begins_self;
  prefix_number = λ s a b h. begins_longer s a b h;
  prefix_version = λ s a b h. begins_longer (500 + s) a b h;
  prefix_segment = λ s a b h. begins_longer (600 + s) a b h;
}
