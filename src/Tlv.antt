-- ===== src/Tlv.antt =====
-- TLV blocks as ndn-cxx parses them into elements, and the type numbers of ndn-svs/tlv.hpp.
use m_svs.Base.{ℕ, ◌≡◌, List, Option, some}

-- Elements of type `E`: how ndn-cxx makes and reads one as a name or as a number, and that it reads
-- what it made. `none` stands for ndn::tlv::Error.
pub record Elements (K E : Type 0) : Type 0 where
  pub of_name : K → E
  pub of_number : ℕ → ℕ → E
  pub read_name : E → Option K
  pub read_number : E → Option ℕ
  pub name_lem : (k : K) → read_name (of_name k) ≡ some k
  pub number_lem : (type s : ℕ) → read_number (of_number type s) ≡ some s

-- A block of type `type` with the parts `elements`.
pub record Block (A : Type 0) : Type 0 where
  pub type : ℕ
  pub elements : List A

-- What decoding comes to: `tlv_error` is ndn::tlv::Error thrown, `out_of_range` std::out_of_range.
pub data Decoded (A : Type 0) : Type 0 where
  decoded : A → Decoded A
  tlv_error : Decoded A
  out_of_range : Decoded A

abbrev pub state_vector_type : ℕ
state_vector_type = 201

abbrev pub state_vector_entry_type : ℕ
state_vector_entry_type = 202

abbrev pub seq_no_type : ℕ
seq_no_type = 204

abbrev pub mapping_entry_type : ℕ
mapping_entry_type = 206

-- ndn::tlv::Name
abbrev pub name_type : ℕ
name_type = 7
