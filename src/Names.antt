-- ===== src/Names.antt =====
-- What the code uses of `ndn::Name` beside its order. Names come from ndn-cxx and are parameters.
use m_svs.Base.{ℕ, suc, Bool, List, Option, some, ◌≡◌}

-- The empty name and the URI text, as character codes.
pub record Name (K : Type 0) : Type 0 where
  pub empty : K
  pub to_uri : K → List ℕ

-- Building and taking apart names, with what a component is read as once it is appended.
pub record Components (K : Type 0) : Type 0 where
  pub size : K → ℕ
  -- Name(a).append(b)
  pub append : K → K → K
  -- append("MAPPING")
  pub append_mapping : K → K
  -- appendNumber
  pub append_number : ℕ → K → K
  -- get(-1 - i).toNumber(), `none` if that throws
  pub number_at : ℕ → K → Option ℕ
  pub append_version : ℕ → K → K
  pub append_segment : ℕ → K → K
  pub is_prefix_of : K → K → Bool
  -- getPrefix(-n)
  pub drop_last : ℕ → K → K
  pub last_number : (s : ℕ) (a : K) → number_at 0 (append_number s a) ≡ some s
  pub earlier_number : (i s : ℕ) (a : K) → number_at (suc i) (append_number s a) ≡ number_at i a
  pub drop_number : (i s : ℕ) (a : K) → drop_last (suc i) (append_number s a) ≡ drop_last i a
  pub drop_mapping : (i : ℕ) (a : K) → drop_last (suc i) (append_mapping a) ≡ drop_last i a
  pub drop_version : (i s : ℕ) (a : K) → drop_last (suc i) (append_version s a) ≡ drop_last i a
  pub drop_segment : (i s : ℕ) (a : K) → drop_last (suc i) (append_segment s a) ≡ drop_last i a
  pub drop_none : (a : K) → drop_last 0 a ≡ a
  pub drop_append : (a b : K) → drop_last (size b) (append a b) ≡ a
  pub append_cancel : (a b d : K) → append a b ≡ append a d → b ≡ d
