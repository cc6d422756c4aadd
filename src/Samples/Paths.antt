-- ===== src/Samples/Paths.antt =====
-- Names as lists of components, the last one first, in lexicographic order, and elements that are
-- names or numbers.
use m_svs.Base.{
  ℕ, zero, suc, ◌≡◌, refl, ◌↔◌, Bool, true, false, ◌&&◌, ◌||◌, List, [], ◌∷◌, ◌++◌, Option, some,
  none, length, length-append, take, drop, sym, ap, ◌∙◌, ◌+◌, ◌-◌, arith, ltb, ◌==◌ as nat_eq,
  ==_iff,
}
use m_svs.Std.Ord.{Ord}
use m_svs.Names.{Name, Components}
use m_svs.Tlv.{Elements}

abbrev pub same : List ℕ → List ℕ → Bool
same [] [] = true
same (a ∷ as') (b ∷ bs) = nat_eq a b && same as' bs
same _ _ = false

abbrev pub earlier : List ℕ → List ℕ → Bool
earlier [] [] = false
earlier [] (b ∷ bs) = true
earlier (a ∷ as') [] = false
earlier (a ∷ as') (b ∷ bs) = ltb a b || (nat_eq a b && earlier as' bs)

pub same_iff : (a b : List ℕ) → (same a b ≡ true) ↔ (a ≡ b)
same_iff [] [] = ground arith
same_iff [] (b ∷ bs) = ground arith
same_iff (a ∷ as') [] = ground arith
same_iff (a ∷ as') (b ∷ bs) = ground (arith, same_iff as' bs, ==_iff a b)

pub earlier_irrefl : (a : List ℕ) → earlier a a ≡ false
earlier_irrefl [] = refl
earlier_irrefl (a ∷ as') = ground (arith, earlier_irrefl as')

pub earlier_trans : (a b c : List ℕ) → earlier a b ≡ true → earlier b c ≡ true → earlier a c ≡ true
earlier_trans [] [] c p q = q
earlier_trans [] (b ∷ bs) [] p q = ground arith
earlier_trans [] (b ∷ bs) (c ∷ cs) p q = refl
earlier_trans (a ∷ as') [] c p q = ground arith
earlier_trans (a ∷ as') (b ∷ bs) [] p q = ground arith
earlier_trans (a ∷ as') (b ∷ bs) (c ∷ cs) p q = ground (arith, earlier_trans as' bs cs)

pub earlier_total : (a b : List ℕ) → earlier a b ≡ false → earlier b a ≡ false → a ≡ b
earlier_total [] [] p q = refl
earlier_total [] (b ∷ bs) p q = ground arith
earlier_total (a ∷ as') [] p q = ground arith
earlier_total (a ∷ as') (b ∷ bs) p q = ground (arith, earlier_total as' bs)

instance abbrev pub path_ord : Ord (List ℕ)
path_ord = record {
  beq = same;
  lt = earlier;
  beq_iff = same_iff;
  lt_irrefl = earlier_irrefl;
  lt_trans = earlier_trans;
  lt_total = earlier_total;
}

abbrev pub component : ℕ → List ℕ → Option ℕ
component i [] = none
component zero (x ∷ xs) = some x
component (suc i) (x ∷ xs) = component i xs

pub drop-length : (a b : List ℕ) → drop (length b) (b ++ a) ≡ a
drop-length a [] = refl
drop-length a (x ∷ b) = drop-length a b

keep-length : (a b : List ℕ) → take (length b) (b ++ a) ≡ b
keep-length a [] = refl
keep-length a (x ∷ b) = ap (◌∷◌ x) (keep-length a b)

same_size : (a b d : List ℕ) → b ++ a ≡ d ++ a → length b ≡ length d
same_size a b d e = omega (arith, ap length e, length-append b a, length-append d a)

pub append_cancel : (a b d : List ℕ) → b ++ a ≡ d ++ a → b ≡ d
append_cancel a b d e =
    sym (keep-length a b)
    ∙ (ap (take (length b)) e ∙ (ap (λ n. take n (d ++ a)) (same_size a b d e) ∙ keep-length a d))

instance abbrev pub paths : Components (List ℕ)
paths = record {
  size = length;
  append = λ a b. b ++ a;
  append_mapping = λ a. 77 ∷ a;
  append_number = λ s a. s ∷ a;
  append_version = λ s a. (500 + s) ∷ a;
  append_segment = λ s a. (600 + s) ∷ a;
  is_prefix_of = λ a b. same a (drop (length b - length a) b);
  number_at = component;
  drop_last = drop;
  last_number = λ s a. refl;
  earlier_number = λ i s a. refl;
  drop_number = λ i s a. refl;
  drop_mapping = λ i a. refl;
  drop_version = λ i s a. refl;
  drop_segment = λ i s a. refl;
  drop_none = λ a. refl;
  drop_append = drop-length;
  append_cancel = append_cancel;
}

instance abbrev pub named_paths : Name (List ℕ)
named_paths = record { empty = []; to_uri = λ k. k }

pub data Element (K : Type 0) : Type 0 where
  a_name : K → Element K
  a_number : ℕ → Element K

abbrev pub named : {K : Type 0} → Element K → Option K
named (a_name k) = some k
named (a_number s) = none

abbrev pub numbered_by : {K : Type 0} → Element K → Option ℕ
numbered_by (a_name k) = none
numbered_by (a_number s) = some s

instance abbrev pub plain_elements : {K : Type 0} → Elements K (Element K)
plain_elements = record {
  of_name = a_name;
  of_number = λ type s. a_number s;
  read_name = named;
  read_number = numbered_by;
  name_lem = λ k. refl;
  number_lem = λ type s. refl;
}
