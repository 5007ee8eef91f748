-- ===== src/Gateway/Execute/Spl.antt =====
-- Execution with tokens: `handle_spl_token_common` of programs/gateway/src/instructions/execute.rs
-- and its two callers.
use protocol_contracts_solan.Prelude.{ℕ, ◌≡◌, ◌≢◌, ◌∙◌, false, some, List, [], ◌∷◌, map}
use protocol_contracts_solan.Prelude.Words.{Bytes}
use protocol_contracts_solan.Solana.Result.{ok, after, after_call, ok_pair-injective}
use protocol_contracts_solan.Solana.Account.{AccountInfo, Instruction, World}
use protocol_contracts_solan.Solana.Runtime.{Runtime}
use protocol_contracts_solan.Solana.Laws.{RuntimeLaws, TokensMoved}
use protocol_contracts_solan.Gateway.State.{
  Pda, InstructionId, execute_spl_token, execute_spl_token_revert, on_call, on_revert, pack,
}
use protocol_contracts_solan.Gateway.Utils.{Signed, prepare_account_metas, verify_ata_match}
use protocol_contracts_solan.Gateway.Utils.Nonce.{advanced}
use protocol_contracts_solan.Gateway.Utils.Ata.{verify_ata_match_iff}
use protocol_contracts_solan.Gateway.Utils.Authorized.{Authorized, validate_message-Authorized}
use protocol_contracts_solan.Gateway.Utils.Metas.{
  has_key, as_meta, prepare_account_metas-eq-ok, prepare_account_metas_protects,
}
use protocol_contracts_solan.Gateway.Contexts.{ExecuteSplToken}
use protocol_contracts_solan.Gateway.Withdraw.{signer_seeds}
use protocol_contracts_solan.Gateway.Execute.{
  handle_spl_token_common, handle_spl_token, handle_spl_token_revert,
}

module _ (rt : Runtime) (ctx : ExecuteSplToken) (remaining : List AccountInfo) (input : Bytes) where
  abbrev pub destination_call : Instruction
  destination_call = record {
    program_id = ctx.destination_program.key;
    accounts = map (as_meta ctx.pda.key) remaining;
    input = input;
  }

  -- The tokens went from the gateway's associated account to that of the destination's account,
  -- and then the program was called, which cannot have touched the gateway's or the signer's SOL.
  pub record SplExecuted (amount : ℕ) (w w' : World) : Type 0 where
    pub source : rt.get_associated_token_address ctx.pda.key ctx.mint_account.key ≡ ctx.pda_ata.key
    pub target :
        rt.get_associated_token_address ctx.destination_program_pda.key ctx.mint_account.key
        ≡ ctx.destination_program_pda_ata.key
    pub paid : World
    pub moved : TokensMoved ctx.pda_ata.key ctx.destination_program_pda_ata.key amount w paid
    pub called : rt.invoke destination_call remaining paid ≡ some w'
    pub signer_absent : has_key ctx.signer.key remaining ≡ false
    pub gateway_keeps :
        ctx.pda.key ≢ ctx.pda_ata.key
        → ctx.pda.key ≢ ctx.destination_program_pda_ata.key
        → w'.lamports ctx.pda.key ≡ w.lamports ctx.pda.key
    pub signer_keeps :
        ctx.signer.key ≢ ctx.pda_ata.key
        → ctx.signer.key ≢ ctx.destination_program_pda_ata.key
        → w'.lamports ctx.signer.key ≡ w.lamports ctx.signer.key

-- What the message of an execution with tokens signs; the program itself is not among it.
abbrev pub signed_pieces : ExecuteSplToken → Bytes → Bytes → List Bytes
signed_pieces ctx sender input =
    ctx.mint_account.key ∷ ctx.destination_program_pda_ata.key ∷ sender ∷ input ∷ []

module _ (rt : Runtime) (laws : RuntimeLaws rt) (ctx : ExecuteSplToken)
    (remaining : List AccountInfo) (decimals amount : ℕ) (input : Bytes) (m : Signed)
    (sender : Bytes) (pda : Pda) (w : World) where
  handle_spl_token_common_calls :
      (id : InstructionId) (instruction_data : Bytes) {pda' : Pda} {w' : World}
      → handle_spl_token_common rt ctx remaining decimals amount input m sender id instruction_data
          pda w
        ≡ ok (pda', w')
      → Authorized rt pda id (some amount) (signed_pieces ctx sender input) m
        × (pda' ≡ advanced pda)
        × SplExecuted rt ctx remaining instruction_data amount w w'
  unfolding handle_spl_token_common
  handle_spl_token_common_calls id data' h =
      let mint = ctx.mint_account.key in
      let target = ctx.destination_program_pda_ata.key in
      let k = ctx.pda.key in
      after _ _ h λ p e h₁.
        after (prepare_account_metas remaining ctx.signer.key k) _ h₁ λ metas e₁ h₂.
          after (verify_ata_match rt k mint ctx.pda_ata.key) _ h₂ λ u₁ e₂ h₃.
            after (verify_ata_match rt ctx.destination_program_pda.key mint target) _ h₃ λ u₂ e₃ h₄.
              after_call
                (rt.transfer_checked ctx.pda_ata.key mint target k (signer_seeds rt) amount decimals
                  w)
                _ h₄
                λ w₁ e₄ h₅.
                  after_call
                    (rt.invoke
                      (record {
                        program_id = ctx.destination_program.key;
                        accounts = metas;
                        input = data';
                      })
                      remaining w₁)
                    _ h₅
                    λ w₂ e₅ h₆.
                      let (a, adv) =
                        validate_message-Authorized rt pda id amount
                          (signed_pieces ctx sender input) m e in
                      let (absent, shape) =
                        prepare_account_metas-eq-ok remaining ctx.signer.key k e₁ in
                      let (pda_safe, signer_safe) =
                        prepare_account_metas_protects remaining ctx.signer.key k e₁ in
                      let moved = laws.transfer_checked_moves _ _ _ _ _ amount decimals w w₁ e₄ in
                      let (same_pda, same_world) = ok_pair-injective h₆ in
                      (
                        a,
                        same_pda ∙ adv,
                        rw same_world (record {
                          source = (verify_ata_match_iff rt _ _ _).0 e₂;
                          target = (verify_ata_match_iff rt _ _ _).0 e₃;
                          paid = w₁;
                          moved = moved;
                          called = rw shape at e₅;
                          signer_absent = absent;
                          gateway_keeps = λ ne ne'.
                              laws.invoke_lamports _ remaining w₁ w₂ k e₅ pda_safe
                              ∙ moved.lamports k ne ne';
                          signer_keeps = λ ne ne'.
                              laws.invoke_lamports _ remaining w₁ w₂ ctx.signer.key e₅ signer_safe
                              ∙ moved.lamports ctx.signer.key ne ne';
                        }),
                      )

  -- Under the laws of the runtime, a successful `execute_spl_token` was authorized for this mint,
  -- token account, sender and payload, advances the nonce, has moved the tokens between the two
  -- associated accounts, and has then called `on_call` with the amount, sender and payload, which
  -- leaves the lamports of the gateway and of the signer as they were where these are no token
  -- accounts of the transfer.
  pub handle_spl_token_calls :
      {pda' : Pda} {w' : World}
      → handle_spl_token rt ctx remaining decimals amount sender input m pda w ≡ ok (pda', w')
      → Authorized rt pda execute_spl_token (some amount) (signed_pieces ctx sender input) m
        × (pda' ≡ advanced pda)
        × SplExecuted rt ctx remaining (pack (on_call amount sender input)) amount w w'
  unfolding handle_spl_token
  handle_spl_token_calls h =
      handle_spl_token_common_calls execute_spl_token (pack (on_call amount sender input)) h

  -- Under the laws of the runtime, a successful `execute_spl_token_revert` was authorized under its
  -- own number, and does the same with a call of `on_revert`.
  pub handle_spl_token_revert_calls :
      {pda' : Pda} {w' : World}
      → handle_spl_token_revert rt ctx remaining decimals amount sender input m pda w
        ≡ ok (pda', w')
      → Authorized rt pda execute_spl_token_revert (some amount) (signed_pieces ctx sender input) m
        × (pda' ≡ advanced pda)
        × SplExecuted rt ctx remaining (pack (on_revert amount sender input)) amount w w'
  unfolding handle_spl_token_revert
  handle_spl_token_revert_calls h =
      handle_spl_token_common_calls execute_spl_token_revert (pack (on_revert amount sender input))
        h
