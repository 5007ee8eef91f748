-- ===== src/Gateway/Program/Handlers.antt =====
-- The nonce under the handlers of signed messages: programs/gateway/src/instructions.
use protocol_contracts_solan.Prelude.{ℕ, ◌≡◌, ◌∙◌, true, false, List, [], ◌∷◌, eqb, arith}
use protocol_contracts_solan.Prelude.Words.{Bytes}
use protocol_contracts_solan.Solana.Result.{Result, ok, after}
use protocol_contracts_solan.Solana.Account.{AccountInfo, Pubkey, World}
use protocol_contracts_solan.Solana.Runtime.{Runtime}
use protocol_contracts_solan.Gateway.Errors.{Errors}
use protocol_contracts_solan.Gateway.State.{
  Pda, InstructionId, withdraw, withdraw_spl_token, increment_nonce,
}
use protocol_contracts_solan.Gateway.Utils.{Signed, verify_and_update_nonce, validate_message}
use protocol_contracts_solan.Gateway.Utils.Nonce.{
  advanced, verify_and_update_nonce-eq-ok, verify_authority_iff,
}
use protocol_contracts_solan.Gateway.Utils.Authorized.{validate_message-Authorized}
use protocol_contracts_solan.Gateway.Contexts.{
  Withdraw, WithdrawSplToken, Execute, ExecuteSplToken, Whitelist, Unwhitelist,
}
use protocol_contracts_solan.Gateway.Admin.{
  zero_signature, verify_tss_signed, whitelist_spl_mint, unwhitelist_spl_mint,
}
use protocol_contracts_solan.Gateway.Withdraw
use protocol_contracts_solan.Gateway.Execute

-- The message carries the nonce of the account, and leaves the account with the next one.
abbrev pub Spends : Signed → Pda → Pda → Type 0
Spends m pda pda' = (m.nonce ≡ pda.nonce) × (pda' ≡ advanced pda)

abbrev validated : Runtime → Signed → Pda → InstructionId → ℕ → List Bytes → Result Errors Pda
validated rt m pda id amount pieces =
    validate_message rt pda id m.nonce amount pieces m.message_hash m.signature m.recovery_id

module _ (rt : Runtime) (m : Signed) (pda : Pda) {pda' : Pda} where
  validate_message-Spends :
      (id : InstructionId) (amount : ℕ) (pieces : List Bytes)
      → validate_message rt pda id m.nonce amount pieces m.message_hash m.signature m.recovery_id
        ≡ ok pda'
      → Spends m pda pda'
  validate_message-Spends id amount pieces h =
      let (a, adv) = validate_message-Authorized rt pda id amount pieces m h in (a.expected, adv)

  pub handle_increment_nonce-Spends :
      (amount : ℕ) → Execute.handle_increment_nonce rt amount m pda ≡ ok pda' → Spends m pda pda'
  unfolding Execute.handle_increment_nonce
  handle_increment_nonce-Spends amount h = validate_message-Spends increment_nonce amount [] h

module _ (rt : Runtime) (m : Signed) (pda : Pda) {pda' : Pda} (w : World) {w' : World} where
  pub withdraw_sol-Spends :
      (ctx : Withdraw) (amount : ℕ)
      → Withdraw.handle_sol rt ctx amount m pda w ≡ ok (pda', w')
      → Spends m pda pda'
  unfolding Withdraw.handle_sol
  withdraw_sol-Spends ctx amount h =
      after (validated rt m pda withdraw amount (ctx.recipient.key ∷ [])) _ h λ p e h₁.
        let same : pda' ≡ p = ground arith in
        let (n, adv) =
          validate_message-Spends rt m pda withdraw amount (ctx.recipient.key ∷ []) e in
        (n, same ∙ adv)

  pub withdraw_spl-Spends :
      (ctx : WithdrawSplToken) (decimals amount : ℕ)
      → Withdraw.handle_spl rt ctx decimals amount m pda w ≡ ok (pda', w')
      → Spends m pda pda'
  unfolding Withdraw.handle_spl
  withdraw_spl-Spends ctx decimals amount h =
      after
        (validated rt m pda withdraw_spl_token amount
          (ctx.mint_account.key ∷ ctx.recipient_ata.key ∷ []))
        _ h
        λ p e h₁.
          let same : pda' ≡ p = ground arith in
          let (n, adv) =
            validate_message-Spends rt m pda withdraw_spl_token amount
              (ctx.mint_account.key ∷ ctx.recipient_ata.key ∷ []) e in
          (n, same ∙ adv)

  pub sol_common-Spends :
      (ctx : Execute) (remaining : List AccountInfo) (amount : ℕ) (input sender : Bytes)
      (id : InstructionId) (data' : Bytes)
      → Execute.handle_sol_common rt ctx remaining amount input m sender id data' pda w
        ≡ ok (pda', w')
      → Spends m pda pda'
  unfolding Execute.handle_sol_common
  sol_common-Spends ctx remaining amount input sender id data' h =
      after (validated rt m pda id amount (ctx.destination_program.key ∷ sender ∷ input ∷ [])) _ h
        λ p e h₁.
          let same : pda' ≡ p = ground arith in
          let (n, adv) =
            validate_message-Spends rt m pda id amount
              (ctx.destination_program.key ∷ sender ∷ input ∷ []) e in
          (n, same ∙ adv)

  pub spl_common-Spends :
      (ctx : ExecuteSplToken) (remaining : List AccountInfo) (decimals amount : ℕ)
      (input sender : Bytes) (id : InstructionId) (data' : Bytes)
      → Execute.handle_spl_token_common rt ctx remaining decimals amount input m sender id data' pda
          w
        ≡ ok (pda', w')
      → Spends m pda pda'
  unfolding Execute.handle_spl_token_common
  spl_common-Spends ctx remaining decimals amount input sender id data' h =
      after
        (validated rt m pda id amount
          (ctx.mint_account.key ∷ ctx.destination_program_pda_ata.key ∷ sender ∷ input ∷ []))
        _ h
        λ p e h₁.
          let same : pda' ≡ p = ground arith in
          let (n, adv) =
            validate_message-Spends rt m pda id amount
              (ctx.mint_account.key ∷ ctx.destination_program_pda_ata.key ∷ sender ∷ input ∷ [])
              e in
          (n, same ∙ adv)

-- Under a signature the whitelist handlers spend the nonce; under the zero signature the signer
-- is the authority and nothing changes.
abbrev pub SpendsOrVouches : Signed → Pubkey → Pda → Pda → Type 0
SpendsOrVouches m signer pda pda' =
    (eqb m.signature zero_signature ≡ false → Spends m pda pda')
    × (eqb m.signature zero_signature ≡ true → (signer ≡ pda.authority) × (pda' ≡ pda))

module _ (rt : Runtime) (m : Signed) (pda : Pda) {pda' : Pda} where
  verify_tss_signed-Spends :
      (id : InstructionId) (candidate : Pubkey)
      → verify_tss_signed rt id candidate pda m ≡ ok pda'
      → Spends m pda pda'
  unfolding verify_tss_signed
  verify_tss_signed-Spends id candidate h =
      after (verify_and_update_nonce pda m.nonce) _ h λ p e h₁.
        let same : pda' ≡ p = ground arith in
        let (n, fits, adv) = verify_and_update_nonce-eq-ok pda m.nonce e in (n, same ∙ adv)

  pub whitelist_spl_mint-Spends :
      (ctx : Whitelist)
      → whitelist_spl_mint rt ctx m pda ≡ ok pda'
      → SpendsOrVouches m ctx.authority.key pda pda'
  unfolding whitelist_spl_mint
  whitelist_spl_mint-Spends ctx h = (
    λ real. verify_tss_signed-Spends _ _ (rw real at h),
    λ zero. ground (arith, verify_authority_iff ctx.authority.key pda),
  )

  pub unwhitelist_spl_mint-Spends :
      (ctx : Unwhitelist)
      → unwhitelist_spl_mint rt ctx m pda ≡ ok pda'
      → SpendsOrVouches m ctx.authority.key pda pda'
  unfolding unwhitelist_spl_mint
  unwhitelist_spl_mint-Spends ctx h = (
    λ real. verify_tss_signed-Spends _ _ (rw real at h),
    λ zero. ground (arith, verify_authority_iff ctx.authority.key pda),
  )
