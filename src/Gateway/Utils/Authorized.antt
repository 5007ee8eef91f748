-- ===== src/Gateway/Utils/Authorized.antt =====
-- When the TSS has authorized an instruction: the three checks of utils/validate_message.rs.
use protocol_contracts_solan.Prelude.{ℕ, ◌+◌, ◌<◌, ◌≡◌, ◌↔◌, Option, some, List}
use protocol_contracts_solan.Prelude.Words.{Bytes, u64_mod}
use protocol_contracts_solan.Solana.Result.{ok}
use protocol_contracts_solan.Solana.Runtime.{Runtime}
use protocol_contracts_solan.Gateway.State.{Pda, InstructionId}
use protocol_contracts_solan.Gateway.Utils.{Signed, concatenated_buffer, validate_message}
use protocol_contracts_solan.Gateway.Utils.Nonce.{advanced}
use protocol_contracts_solan.Gateway.Utils.Message.{
  IsSigned, validate_message-eq-ok, validate_message_accepts,
}

-- The message carries the expected nonce, which can still advance, and the TSS of the account has
-- signed the bytes of this instruction, chain, nonce, amount and pieces.
pub record Authorized (rt : Runtime) (pda : Pda) (id : InstructionId) (amount : Option ℕ)
    (pieces : List Bytes) (m : Signed) : Type 0 where
  pub expected : m.nonce ≡ pda.nonce
  pub advances : pda.nonce + 1 < u64_mod
  pub signed :
      IsSigned rt pda.tss_address
        (concatenated_buffer id pda.chain_id m.nonce amount pieces)
        m.message_hash
        m.signature
        m.recovery_id

module _ (rt : Runtime) (pda : Pda) (id : InstructionId) (amount : ℕ) (pieces : List Bytes)
    (m : Signed) where
  pub validate_message-Authorized :
      {pda' : Pda}
      → validate_message rt pda id m.nonce amount pieces m.message_hash m.signature m.recovery_id
        ≡ ok pda'
      → Authorized rt pda id (some amount) pieces m × (pda' ≡ advanced pda)
  validate_message-Authorized h =
      let (n, fits, adv, s) =
        validate_message-eq-ok rt pda id m.nonce amount pieces m.message_hash m.signature
          m.recovery_id h in
      (record { expected = n; advances = fits; signed = s }, adv)

  pub Authorized-validate_message :
      Authorized rt pda id (some amount) pieces m
      → validate_message rt pda id m.nonce amount pieces m.message_hash m.signature m.recovery_id
        ≡ ok (advanced pda)
  Authorized-validate_message a = rw a.expected (
      validate_message_accepts rt pda id amount pieces m.message_hash m.signature m.recovery_id
        a.advances (rw a.expected at a.signed))

  -- A message is validated, and the account then advanced, exactly when the TSS has authorized it.
  pub validate_message_iff :
      (validate_message rt pda id m.nonce amount pieces m.message_hash m.signature m.recovery_id
        ≡ ok (advanced pda))
      ↔ Authorized rt pda id (some amount) pieces m
  validate_message_iff = (λ h. (validate_message-Authorized h).0, Authorized-validate_message)
