-- ===== src/Double.antt =====
-- What the code does with `double`. The type and its operations are a parameter: IEEE arithmetic is
-- not modelled, and no theorem rests on a law of it. `std::max`, `std::min` and `std::clamp` are the
-- standard library's definitions by `<`.
use m_svs.Base.{ℕ, suc, ◌+◌, ◌-◌, Bool, if◌then◌else◌, ltb, max}

-- `negsuc n` is -(n + 1).
pub data ℤ : Type 0 where
  pos : ℕ → ℤ
  negsuc : ℕ → ℤ

pub record Double (D : Type 0) : Type 0 where
  -- static_cast<double>(n)
  pub of_nat : ℕ → D
  -- the literal m / 10^e
  pub dec : ℕ → ℕ → D
  pub add : D → D → D
  pub sub : D → D → D
  pub mul : D → D → D
  pub div : D → D → D
  pub lt : D → D → Bool
  pub le : D → D → Bool
  pub eq : D → D → Bool
  pub sqrt : D → D
  pub fabs : D → D
  pub exp : D → D
  -- static_cast<size_t>(std::ceil(x))
  pub ceil_size : D → ℕ
  -- static_cast<long>(std::llround(x))
  pub llround : D → ℤ
  -- static_cast<int>(x)
  pub truncate : D → ℤ

module _ {D : Type 0} ⦃d : Double D⦄ where
  infixl 65 ◌⊕◌ ◌⊖◌
  infixl 70 ◌⊗◌ ◌⊘◌
  abbrev pub ◌⊕◌ : D → D → D
  ◌⊕◌ = d.add

  abbrev pub ◌⊖◌ : D → D → D
  ◌⊖◌ = d.sub

  abbrev pub ◌⊗◌ : D → D → D
  ◌⊗◌ = d.mul

  abbrev pub ◌⊘◌ : D → D → D
  ◌⊘◌ = d.div

  abbrev pub num : ℕ → D
  num = d.of_nat

  abbrev pub dec : ℕ → ℕ → D
  dec = d.dec

  unfoldable pub fmax : D → D → D
  fmax a b = if d.lt a b then b else a

  unfoldable pub fmin : D → D → D
  fmin a b = if d.lt b a then b else a

  unfoldable pub fclamp : D → D → D → D
  fclamp v lo hi = if d.lt v lo then lo else if d.lt hi v then hi else v

-- std::clamp<long> of a signed value to bounds that are not negative.
unfoldable pub clamp_long : ℤ → ℕ → ℕ → ℕ
clamp_long (pos n) lo hi = if ltb n lo then lo else if ltb hi n then hi else n
clamp_long (negsuc n) lo hi = lo

-- std::max<long>(base + z, least), for a `least` that is not negative.
unfoldable pub max_plus : ℕ → ℤ → ℕ → ℕ
max_plus base (pos n) least = max (base + n) least
max_plus base (negsuc n) least = max (base - suc n) least

-- std::max<long>(least, z), for a `least` that is not negative.
unfoldable pub max_long : ℕ → ℤ → ℕ
max_long least (pos n) = max least n
max_long least (negsuc n) = least
