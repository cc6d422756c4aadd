-- ===== src/Sync/Naming.antt =====
-- The names of publications: no two have the same.
use m_svs.Base.{ℕ, ◌≡◌, sym, ap, ◌∙◌, some_or}
use m_svs.Names.{Components}
use m_svs.Sync.{get_data_name, get_shared_data_name}

module _ {K : Type 0} ⦃c : Components K⦄ where
  number_back : (a b : K) (s t : ℕ) → c.append_number s a ≡ c.append_number t b → s ≡ t
  number_back a b s t e =
      ap (λ r. some_or r 0)
        (sym (c.last_number s a) ∙ ap (λ k. c.number_at 0 k) e ∙ c.last_number t b)

  pub front_back : (a b : K) (s t : ℕ) → c.append_number s a ≡ c.append_number t b → a ≡ b
  front_back a b s t e =
      sym (c.drop_none a)
      ∙ sym (c.drop_number 0 s a)
      ∙ ap (λ k. c.drop_last 1 k) e
      ∙ c.drop_number 0 t b
      ∙ c.drop_none b

  -- Two publications of one group have the same name in `SVSync` only if they are of one node and
  -- have one number.
  pub get_data_name_injective :
      (sync_prefix a b : K) (s t : ℕ)
      → get_data_name sync_prefix a s ≡ get_data_name sync_prefix b t
      → (a ≡ b) × (s ≡ t)
  unfolding get_data_name
  get_data_name_injective sync_prefix a b s t e = (
    sym (c.drop_append a sync_prefix)
        ∙ ap (λ k. c.drop_last (c.size sync_prefix) k) (front_back _ _ s t e)
        ∙ c.drop_append b sync_prefix,
    number_back _ _ s t e,
  )

  -- The same of `SVSyncShared`, whose names begin with the data prefix of the group.
  pub get_shared_data_name_injective :
      (data_prefix a b : K) (s t : ℕ)
      → get_shared_data_name data_prefix a s ≡ get_shared_data_name data_prefix b t
      → (a ≡ b) × (s ≡ t)
  unfolding get_shared_data_name
  get_shared_data_name_injective data_prefix a b s t e =
      (c.append_cancel data_prefix a b (front_back _ _ s t e), number_back _ _ s t e)
