-- ===== src/Std/Ord.antt =====
-- The interface of a key type: `operator==` and `operator<` of `ndn::Name`, as `std::map`, `std::set`
-- and `std::sort` use them.
use m_svs.Base.{
  ℕ, ◌≡◌, refl, ◌↔◌, Bool, true, false, not, ◌&&◌, ◌||◌, arith, ltb, ◌==◌ as nat_eq, ==_iff,
}

pub record Ord {ℓ} (A : Type ℓ) : Type ℓ where
  pub beq : A → A → Bool
  pub lt : A → A → Bool
  pub beq_iff : (a b : A) → (beq a b ≡ true) ↔ (a ≡ b)
  pub lt_irrefl : (a : A) → lt a a ≡ false
  pub lt_trans : (a b c : A) → lt a b ≡ true → lt b c ≡ true → lt a c ≡ true
  pub lt_total : (a b : A) → lt a b ≡ false → lt b a ≡ false → a ≡ b

infix 50 ◌==◌ ◌≺◌
abbrev pub ◌==◌ {ℓ} : {A : Type ℓ} ⦃o : Ord A⦄ → A → A → Bool
◌==◌ ⦃o⦄ = o.beq

abbrev pub ◌≺◌ {ℓ} : {A : Type ℓ} ⦃o : Ord A⦄ → A → A → Bool
◌≺◌ ⦃o⦄ = o.lt

pub ltb_irrefl : (a : ℕ) → ltb a a ≡ false
ltb_irrefl a = ground arith

pub ltb_trans : (a b c : ℕ) → ltb a b ≡ true → ltb b c ≡ true → ltb a c ≡ true
ltb_trans a b c p q = ground arith

pub ltb_total : (a b : ℕ) → ltb a b ≡ false → ltb b a ≡ false → a ≡ b
ltb_total a b p q = ground arith

instance abbrev pub nat_ord : Ord ℕ
nat_ord = record {
  beq = nat_eq;
  lt = ltb;
  beq_iff = ==_iff;
  lt_irrefl = ltb_irrefl;
  lt_trans = ltb_trans;
  lt_total = ltb_total;
}

module _ {ℓ} {A : Type ℓ} ⦃o : Ord A⦄ where
  pub beq_refl : (a : A) → (a == a) ≡ true
  beq_refl a = (o.beq_iff a a).1 refl

  pub lt_of_not_ge : (a b : A) → (a == b) ≡ false → (b ≺ a) ≡ false → (a ≺ b) ≡ true
  lt_of_not_ge a b d g = ground (arith, o.beq_iff a b, o.lt_total a b)

  pub ne_of_lt : (a b : A) → (a ≺ b) ≡ true → (a == b) ≡ false
  ne_of_lt a b l = ground (arith, o.beq_iff a b, o.lt_irrefl a)

  pub lt_asymm : (a b : A) → (a ≺ b) ≡ true → (b ≺ a) ≡ false
  lt_asymm a b l = ground (arith, o.lt_irrefl a, o.lt_trans a b a)

-- std::pair's `operator==` and `operator<`
module _ {ℓ κ} {A : Type ℓ} {B : Type κ} ⦃o : Ord A⦄ ⦃p : Ord B⦄ where
  abbrev pub pair_beq : A × B → A × B → Bool
  pair_beq (a, b) (c, d) = (a == c) && (b == d)

  abbrev pub pair_lt : A × B → A × B → Bool
  pair_lt (a, b) (c, d) = (a ≺ c) || (not (c ≺ a) && (b ≺ d))

  pub pair_beq_iff : (x y : A × B) → (pair_beq x y ≡ true) ↔ (x ≡ y)
  pair_beq_iff (a, b) (c, d) = ground (arith, o.beq_iff a c, p.beq_iff b d)

  pub pair_lt_irrefl : (x : A × B) → pair_lt x x ≡ false
  pair_lt_irrefl (a, b) = ground (arith, o.lt_irrefl a, p.lt_irrefl b)

  pub pair_lt_trans : (x y z : A × B) → pair_lt x y ≡ true → pair_lt y z ≡ true → pair_lt x z ≡ true
  pair_lt_trans (a, b) (c, d) (e, f) h k = ground (
    arith,
    o.lt_trans a c e,
    o.lt_trans e a c,
    o.lt_trans c e a,
    p.lt_trans b d f,
    o.lt_total a c,
    o.lt_total c e,
  )

  pub pair_lt_total : (x y : A × B) → pair_lt x y ≡ false → pair_lt y x ≡ false → x ≡ y
  pair_lt_total (a, b) (c, d) h k = ground (arith, o.lt_total a c, p.lt_total b d)

  instance abbrev pub pair_ord : Ord (A × B)
  pair_ord = record {
    beq = pair_beq;
    lt = pair_lt;
    beq_iff = pair_beq_iff;
    lt_irrefl = pair_lt_irrefl;
    lt_trans = pair_lt_trans;
    lt_total = pair_lt_total;
  }
