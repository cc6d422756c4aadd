-- ===== src/Samples/Store.antt =====
-- A data store: the list of the packets.
use m_svs.Base.{
  ℕ, ◌≡◌, refl, Bool, true, List, [], ◌∷◌, Option, some, none, is_some, length, drop, arith, ◌-◌,
  if◌then◌else◌, ap, Bool-cases, inl, inr,
}
use m_svs.Sync.{Data, Interest, DataStore}
use m_svs.Samples.Paths.{same, same_iff}

abbrev pub Packet : Type 0 → Type 0
Packet X = Data (List ℕ) X

drop_zero : (n : ℕ) (a : List ℕ) → n - n ≡ 0 → drop (n - n) a ≡ a
drop_zero n a e = ap (λ k. drop k a) e

module _ {X : Type 0} where
  abbrev pub fits : Interest (List ℕ) → Packet X → Bool
  fits i d =
      if i.can_be_prefix
      then same i.name (drop (length d.name - length i.name) d.name)
      else same i.name d.name

  abbrev pub first : Interest (List ℕ) → List (Packet X) → Option (Packet X)
  first i [] = none
  first i (d ∷ s) = if fits i d then some d else first i s

  pub fits_name : (i : Interest (List ℕ)) (d : Packet X) → i.name ≡ d.name → fits i d ≡ true
  fits_name i d e = ground (
    arith,
    same_iff i.name d.name,
    same_iff d.name d.name,
    e,
    drop_zero (length d.name) d.name (omega arith),
  )

  pub first_fits :
      (i : Interest (List ℕ)) (s : List (Packet X)) (d : Packet X)
      → first i s ≡ some d
      → fits i d ≡ true
  first_fits i [] d e = ground arith
  first_fits i (x ∷ s) d e = elim (Bool-cases (fits i x)) [
    | inl y ↦ ground arith
    | inr y ↦ ground (arith, first_fits i s d)
  ]

  pub first_new :
      (i : Interest (List ℕ)) (s : List (Packet X)) (d : Packet X)
      → fits i d ≡ true
      → is_some (first i (d ∷ s)) ≡ true
  first_new i s d e = rw e refl

  pub first_old :
      (i : Interest (List ℕ)) (s : List (Packet X)) (d : Packet X)
      → is_some (first i s) ≡ true
      → is_some (first i (d ∷ s)) ≡ true
  first_old i s d e = ground arith

  instance abbrev pub memory : DataStore (List ℕ) X (List (Packet X))
  memory = record {
    insert = λ d s. d ∷ s;
    find = first;
    matches = fits;
    matches_name = fits_name;
    finds_match = first_fits;
    finds_new = first_new;
    finds_old = first_old;
  }
