-- ===== src/Gateway/Execute/Sol.antt =====
-- Execution with SOL: `handle_sol_common` of programs/gateway/src/instructions/execute.rs and its
-- two callers.
use protocol_contracts_solan.Prelude.{ℕ, ◌+◌, ◌≡◌, ◌≢◌, ◌∙◌, false, some, List, [], ◌∷◌, map}
use protocol_contracts_solan.Prelude.Words.{Bytes}
use protocol_contracts_solan.Solana.Result.{ok, after, after_call, ok_pair-injective}
use protocol_contracts_solan.Solana.Account.{AccountInfo, Instruction, World}
use protocol_contracts_solan.Solana.Runtime.{Runtime}
use protocol_contracts_solan.Solana.Laws.{RuntimeLaws}
use protocol_contracts_solan.Solana.Moves.{LamportsMoved, sub_add-LamportsMoved}
use protocol_contracts_solan.Gateway.State.{
  Pda, InstructionId, execute_sol, execute_sol_revert, on_call, on_revert, pack,
}
use protocol_contracts_solan.Gateway.Utils.{Signed, prepare_account_metas}
use protocol_contracts_solan.Gateway.Utils.Nonce.{advanced}
use protocol_contracts_solan.Gateway.Utils.Authorized.{Authorized, validate_message-Authorized}
use protocol_contracts_solan.Gateway.Utils.Metas.{
  has_key, as_meta, prepare_account_metas-eq-ok, prepare_account_metas_protects,
}
use protocol_contracts_solan.Gateway.Contexts.{Execute}
use protocol_contracts_solan.Gateway.Execute.{handle_sol_common, handle_sol, handle_sol_revert}

module _ (rt : Runtime) (ctx : Execute) (remaining : List AccountInfo) (input : Bytes) where
  -- The call of the destination program: the remaining accounts, stripped of every signature and,
  -- for the gateway's account, of the right to write.
  abbrev pub destination_call : Instruction
  destination_call = record {
    program_id = ctx.destination_program.key;
    accounts = map (as_meta ctx.pda.key) remaining;
    input = input;
  }

  -- The destination's account was paid first, then the program called. Whatever it did, the
  -- gateway has paid the amount and no more, and the signer nothing.
  pub record SolExecuted (amount : ℕ) (w w' : World) : Type 0 where
    pub paid : World
    pub moved : LamportsMoved ctx.pda.key ctx.destination_program_pda.key amount w paid
    pub called : rt.invoke destination_call remaining paid ≡ some w'
    pub signer_absent : has_key ctx.signer.key remaining ≡ false
    pub gateway_pays :
        ctx.pda.key ≢ ctx.destination_program_pda.key
        → w'.lamports ctx.pda.key + amount ≡ w.lamports ctx.pda.key
    pub signer_keeps :
        ctx.signer.key ≢ ctx.pda.key
        → ctx.signer.key ≢ ctx.destination_program_pda.key
        → w'.lamports ctx.signer.key ≡ w.lamports ctx.signer.key

module _ (rt : Runtime) (laws : RuntimeLaws rt) (ctx : Execute) (remaining : List AccountInfo)
    (amount : ℕ) (input : Bytes) (m : Signed) (sender : Bytes) (pda : Pda) (w : World) where
  handle_sol_common_calls :
      (id : InstructionId) (instruction_data : Bytes) {pda' : Pda} {w' : World}
      → handle_sol_common rt ctx remaining amount input m sender id instruction_data pda w
        ≡ ok (pda', w')
      → Authorized rt pda id (some amount) (ctx.destination_program.key ∷ sender ∷ input ∷ []) m
        × (pda' ≡ advanced pda)
        × SolExecuted rt ctx remaining instruction_data amount w w'
  unfolding handle_sol_common
  handle_sol_common_calls id data' h = after _ _ h λ p e h₁.
      after (prepare_account_metas remaining ctx.signer.key ctx.pda.key) _ h₁ λ metas e₁ h₂.
        after_call (rt.sub_lamports ctx.pda.key amount w) _ h₂ λ w₁ e₂ h₃.
          after_call (rt.add_lamports ctx.destination_program_pda.key amount w₁) _ h₃ λ w₂ e₃ h₄.
            after_call
              (rt.invoke
                (record {
                  program_id = ctx.destination_program.key;
                  accounts = metas;
                  input = data';
                })
                remaining w₂)
              _ h₄
              λ w₃ e₄ h₅.
                let (a, adv) =
                  validate_message-Authorized rt pda id amount
                    (ctx.destination_program.key ∷ sender ∷ input ∷ []) m e in
                let (absent, shape) =
                  prepare_account_metas-eq-ok remaining ctx.signer.key ctx.pda.key e₁ in
                let (pda_safe, signer_safe) =
                  prepare_account_metas_protects remaining ctx.signer.key ctx.pda.key e₁ in
                let moved =
                  sub_add-LamportsMoved rt laws ctx.pda.key ctx.destination_program_pda.key amount w
                    e₂ e₃ in
                let (same_pda, same_world) = ok_pair-injective h₅ in
                (
                  a,
                  same_pda ∙ adv,
                  rw same_world (record {
                    paid = w₂;
                    moved = moved;
                    called = rw shape at e₄;
                    signer_absent = absent;
                    gateway_pays = λ ne.
                        rw (laws.invoke_lamports _ remaining w₂ w₃ ctx.pda.key e₄ pda_safe)
                          (moved.taken ne);
                    signer_keeps = λ ne ne'.
                        laws.invoke_lamports _ remaining w₂ w₃ ctx.signer.key e₄ signer_safe
                        ∙ moved.others ctx.signer.key ne ne';
                  }),
                )

  -- Under the laws of the runtime, a successful `execute` was authorized for this program, sender
  -- and payload, advances the nonce, has paid the program's account from the gateway's and then
  -- called `on_call` with the amount, the sender and the payload, without the signature of any
  -- account and without the signer's account; the gateway has paid the amount and no more, and the
  -- signer nothing, where their accounts differ from the one paid.
  pub handle_sol_calls :
      {pda' : Pda} {w' : World}
      → handle_sol rt ctx remaining amount sender input m pda w ≡ ok (pda', w')
      → Authorized rt pda execute_sol
          (some amount)
          (ctx.destination_program.key ∷ sender ∷ input ∷ [])
          m
        × (pda' ≡ advanced pda)
        × SolExecuted rt ctx remaining (pack (on_call amount sender input)) amount w w'
  unfolding handle_sol
  handle_sol_calls h = handle_sol_common_calls execute_sol (pack (on_call amount sender input)) h

  -- Under the laws of the runtime, a successful `execute_revert` was authorized under its own
  -- number, and does the same with a call of `on_revert`.
  pub handle_sol_revert_calls :
      {pda' : Pda} {w' : World}
      → handle_sol_revert rt ctx remaining amount sender input m pda w ≡ ok (pda', w')
      → Authorized rt pda execute_sol_revert
          (some amount)
          (ctx.destination_program.key ∷ sender ∷ input ∷ [])
          m
        × (pda' ≡ advanced pda)
        × SolExecuted rt ctx remaining (pack (on_revert amount sender input)) amount w w'
  unfolding handle_sol_revert
  handle_sol_revert_calls h =
      handle_sol_common_calls execute_sol_revert (pack (on_revert amount sender input)) h
