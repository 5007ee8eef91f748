-- ===== src/Gateway/Deposit/Spl.antt =====
-- Deposits of tokens: `handle_spl` and `handle_spl_with_call` of
-- programs/gateway/src/instructions/deposit.rs.
use protocol_contracts_solan.Prelude.{
  ℕ, ◌+◌, ◌≤◌, ◌<◌, ◌≡◌, ◌≢◌, ◌∙◌, not, Option, none, some, length, eqb, eqb_iff, arith,
}
use protocol_contracts_solan.Prelude.Words.{Bytes}
use protocol_contracts_solan.Solana.Result.{ok, err, custom, require, after, after_call}
use protocol_contracts_solan.Solana.Account.{World, balance}
use protocol_contracts_solan.Solana.Runtime.{Runtime}
use protocol_contracts_solan.Solana.Laws.{RuntimeLaws, TokensMoved}
use protocol_contracts_solan.Solana.Moves.{LamportsMoved, system_transfer-LamportsMoved}
use protocol_contracts_solan.Gateway.Errors.{
  memo_length_exceeded, deposit_paused, empty_receiver, deposit_to_address_mismatch,
}
use protocol_contracts_solan.Gateway.State.{Pda, RevertOptions}
use protocol_contracts_solan.Gateway.Utils.{verify_payload_size}
use protocol_contracts_solan.Gateway.Utils.Payload.{
  revert_size, verify_payload_size_iff, verify_payload_size_exceeded,
}
use protocol_contracts_solan.Gateway.Contexts.{DepositSplToken}
use protocol_contracts_solan.Gateway.Deposit.{
  zero_address, mint_of, handle_spl, handle_spl_with_call,
}
use protocol_contracts_solan.Gateway.Deposit.Sol.{IsAdmitted}

-- The accounts whose balances change are four.
pub record AreDistinct (ctx : DepositSplToken) : Type 0 where
  pub signer-ne-pda : ctx.signer.key ≢ ctx.pda.key
  pub signer-ne-from : ctx.signer.key ≢ ctx.from.key
  pub signer-ne-to : ctx.signer.key ≢ ctx.to.key
  pub pda-ne-from : ctx.pda.key ≢ ctx.from.key
  pub pda-ne-to : ctx.pda.key ≢ ctx.to.key
  pub from-ne-to : ctx.from.key ≢ ctx.to.key

-- The fee has gone to the gateway, and the tokens to the token account that was named.
pub record SplDeposited (ctx : DepositSplToken) (amount fee : ℕ) (w w' : World) : Type 0 where
  pub fee_paid : w'.lamports ctx.signer.key + fee ≡ w.lamports ctx.signer.key
  pub fee_taken : w'.lamports ctx.pda.key ≡ w.lamports ctx.pda.key + fee
  pub tokens_paid : balance w' ctx.from.key + amount ≡ balance w ctx.from.key
  pub tokens_taken : balance w' ctx.to.key ≡ balance w ctx.to.key + amount

moved-SplDeposited :
    (ctx : DepositSplToken) (amount fee : ℕ) (w w₁ w' : World)
    → AreDistinct ctx
    → LamportsMoved ctx.signer.key ctx.pda.key fee w w₁
    → TokensMoved ctx.from.key ctx.to.key amount w₁ w'
    → SplDeposited ctx amount fee w w'
moved-SplDeposited ctx amount fee w w₁ w' d l t = record {
  fee_paid =
      rw (t.lamports ctx.signer.key d.signer-ne-from d.signer-ne-to) (l.taken d.signer-ne-pda);
  fee_taken = t.lamports ctx.pda.key d.pda-ne-from d.pda-ne-to ∙ l.given d.signer-ne-pda;
  tokens_paid = rw (← l.token, balance) (t.taken d.from-ne-to);
  tokens_taken = rw (← l.token, balance) (t.given d.from-ne-to);
}

module _ (rt : Runtime) (laws : RuntimeLaws rt) (ctx : DepositSplToken) (amount : ℕ)
    (receiver : Bytes) (revert_options : Option RevertOptions) (fee : ℕ) (pda : Pda)
    (w : World) where
  -- Under the laws of the runtime, a deposit of tokens that succeeds, between distinct accounts,
  -- was admitted, names the gateway's associated account of the mint as its target, and moves the
  -- fee and the tokens.
  pub handle_spl_deposits :
      {w' : World}
      → AreDistinct ctx
      → handle_spl rt ctx amount receiver revert_options fee pda w ≡ ok w'
      → IsAdmitted pda receiver (revert_size revert_options)
        × (rt.get_associated_token_address ctx.pda.key (mint_of w ctx.from.key) ≡ ctx.to.key)
        × SplDeposited ctx amount fee w w'
  unfolding handle_spl
  handle_spl_deposits {w'} distinct h =
      let ata = rt.get_associated_token_address ctx.pda.key (mint_of w ctx.from.key) in
      after (verify_payload_size none revert_options) _ h λ u₁ e₁ h₁.
        after (require (not pda.deposit_paused) deposit_paused) _ h₁ λ u₂ e₂ h₂.
          after (require (not (eqb receiver zero_address)) empty_receiver) _ h₂ λ u₃ e₃ h₃.
            after_call (rt.system_transfer ctx.signer.key ctx.pda.key fee w) _ h₃ λ w₁ e₄ h₄.
              after (require (eqb ata ctx.to.key) deposit_to_address_mismatch) _ h₄ λ u₅ e₅ h₅. (
                record {
                  fits = omega (arith, (verify_payload_size_iff none revert_options).0 e₁);
                  unpaused = ground arith;
                  receiver_set = ground (arith, eqb_iff receiver zero_address);
                },
                ground (arith, eqb_iff ata ctx.to.key),
                moved-SplDeposited ctx amount fee w w₁ w' distinct
                    (system_transfer-LamportsMoved rt laws ctx.signer.key ctx.pda.key fee w e₄)
                    (laws.token_transfer_moves ctx.from.key ctx.to.key ctx.signer.key amount w₁ w'
                      (ground arith)),
              )

  -- A deposit of tokens with a call is the deposit, for a message and revert message of 745 bytes
  -- together at most, and is refused for longer ones.
  handle_spl_with_call_lem :
      (message : Bytes)
      → let size = length message + revert_size revert_options in
        let result = handle_spl_with_call rt ctx amount receiver message revert_options fee pda w in
        (size ≤ 745 → result ≡ handle_spl rt ctx amount receiver revert_options fee pda w)
        × (745 < size → result ≡ err (custom memo_length_exceeded))
  unfolding handle_spl_with_call
  handle_spl_with_call_lem message = (
    λ le. rw ((verify_payload_size_iff (some message) revert_options).1 le),
    λ gt. rw (verify_payload_size_exceeded (some message) revert_options gt),
  )
