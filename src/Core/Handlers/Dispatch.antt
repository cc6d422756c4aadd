-- ===== src/Core/Handlers/Dispatch.antt =====
-- Which Sync Interests `onSyncInterest` passes on, by the kind of their signature.
use m_svs.Base.{Bool, true, Option, some, none}

-- security::SigningInfo's signer types, as far as the code tells them apart
pub data SignerType : Type 0 where
  null_signer hmac other_signer : SignerType

-- `verified` is the outcome of verifySignature, and `validated` that of the validator, if there is one.
unfoldable pub accepts : SignerType → Bool → Option Bool → Bool
accepts SignerType.null_signer verified validated = true
accepts SignerType.hmac verified validated = verified
accepts SignerType.other_signer verified none = true
accepts SignerType.other_signer verified (some valid) = valid
