-- ===== src/PubSub/Incoming.antt =====
-- A Sync Interest on its way through a node: the extra block goes to `SVSPubSub` before the core merges
-- the vector and reports what is missing (ndn-svs/core.cpp, `onSyncInterestValidated`).
pub mod Fetches
use m_svs.Base.{ℕ, Bool, List, [], ◌∷◌, Option, some, none, if◌then◌else◌}
use m_svs.Std.Ord.{Ord}
use m_svs.Names.{Name, Components}
use m_svs.Double.{Double}
use m_svs.Tlv.{Elements}
use m_svs.VersionVector.{VersionVector}
use m_svs.Core.Merge.{MissingDataInfo}
use m_svs.Core.Handlers.{Env, on_sync_interest_validated}
use m_svs.Core.Handlers.Dispatch.{SignerType, accepts}
use m_svs.Mapping.Wire.{Item}
use m_svs.Sync.{SyncBase}
use m_svs.PubSub.State.{SvsPubSub}
use m_svs.PubSub.Blocks.{Timestamps}
use m_svs.PubSub.Updates.{update_callback_internal}
use m_svs.PubSub.Publish.{Publisher, on_recv_extra_data}

module _ {K E A : Type 0} ⦃o : Ord K⦄ ⦃n : Name K⦄ ⦃c : Components K⦄ ⦃x : Elements K E⦄ where
  -- The callback for the extra block, which `params.get` may not find.
  unfoldable pub read_extra : Option (List (Item E)) → SvsPubSub K E A → SvsPubSub K E A
  read_extra none s = s
  read_extra (some block) s = on_recv_extra_data block s

module _ {K B A : Type 0} ⦃o : Ord K⦄ ⦃c : Components K⦄ ⦃t : Timestamps B⦄ where
  -- The update callback, if anything is missing.
  unfoldable pub report : ℕ → List (MissingDataInfo K) → SvsPubSub K B A → Option (SvsPubSub K B A)
  report now_us [] s = some s
  report now_us (info ∷ rest) s = update_callback_internal now_us (info ∷ rest) s

module _ {K E A D X S T : Type 0} where
  abbrev pub reporting :
      SyncBase K D X S T → Option (SvsPubSub K E A) → Option (Publisher K E A D X S T)
  reporting svsync none = none
  reporting svsync (some pubsub) = some (record { pubsub = pubsub; svsync = svsync })

module _ {K E A D X S T : Type 0} ⦃o : Ord K⦄ ⦃n : Name K⦄ ⦃c : Components K⦄ ⦃d : Double D⦄
    ⦃x : Elements K E⦄ ⦃t : Timestamps E⦄ (shuffle : ℕ → List K → List K) where
  -- The handler of a node with `SVSPubSub`, at the time `now_us` of the system clock, after the check
  -- of the signature. `none` is where the update callback need not end.
  unfoldable pub on_accepted :
      Env
      → ℕ
      → ℕ
      → Option (VersionVector K)
      → Option (List (Item E))
      → Publisher K E A D X S T
      → Option (Publisher K E A D X S T)
  on_accepted env now_us face none block p = some p
  on_accepted env now_us face (some vector) block p =
      let (core, missing) =
        on_sync_interest_validated shuffle env face (some vector) p.svsync.core in
      reporting (record p.svsync { core = core })
        (report now_us missing (read_extra block p.pubsub))

  unfoldable pub on_sync_interest :
      SignerType
      → Bool
      → Option Bool
      → Env
      → ℕ
      → ℕ
      → Option (VersionVector K)
      → Option (List (Item E))
      → Publisher K E A D X S T
      → Option (Publisher K E A D X S T)
  on_sync_interest signer verified validated env now_us face vector block p =
      if accepts signer verified validated
      then on_accepted env now_us face vector block p
      else some p
