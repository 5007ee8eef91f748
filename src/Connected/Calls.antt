-- ===== src/Connected/Calls.antt =====
-- What `on_call` and `on_revert` of programs/examples/connected/src/lib.rs do.
use protocol_contracts_solan.Prelude.{ℕ, ◌/◌, ◌≡◌, ◌↔◌, false, true, not, eqb, eqb_iff, arith}
use protocol_contracts_solan.Prelude.Words.{Bytes}
use protocol_contracts_solan.Solana.Result.{ok, require, after, after_call, ok_pair-injective}
use protocol_contracts_solan.Solana.Account.{Pubkey, World}
use protocol_contracts_solan.Solana.Runtime.{Runtime}
use protocol_contracts_solan.Solana.Laws.{RuntimeLaws}
use protocol_contracts_solan.Solana.Moves.{LamportsMoved, sub_add-LamportsMoved}
use protocol_contracts_solan.Connected.{
  Pda, OnCall, on_call, on_revert, revert_word, invalid_caller, invalid_data_format, revert_message,
}
use protocol_contracts_solan.Connected.Text.{is_utf8, contains}

module _ (rt : Runtime) (laws : RuntimeLaws rt) (ctx : OnCall) (caller : Pubkey) (amount : ℕ)
    (sender input : Bytes) (pda : Pda) (w : World) where
  -- Under the laws of the runtime, a call that succeeds came from the gateway with a UTF-8 message
  -- that does not contain `revert`, stores the sender and the message and nothing else, and passes
  -- half of the amount, rounded down, on to the wallet.
  pub on_call_passes :
      {pda' : Pda} {w' : World}
      → on_call rt ctx caller amount sender input pda w ≡ ok (pda', w')
      → (caller ≡ rt.gateway_id)
        × (is_utf8 input ≡ true)
        × (contains revert_word input ≡ false)
        × (pda' ≡ record pda { last_sender = sender; last_message = input })
        × LamportsMoved ctx.pda.key ctx.random_wallet.key (amount / 2) w w'
  unfolding on_call
  on_call_passes h = after (require (eqb caller rt.gateway_id) invalid_caller) _ h λ u₁ e₁ h₁.
      after (require (is_utf8 input) invalid_data_format) _ h₁ λ u₂ e₂ h₂.
        after_call (rt.sub_lamports ctx.pda.key (amount / 2) w) _ h₂ λ w₁ e₃ h₃.
          after_call (rt.add_lamports ctx.random_wallet.key (amount / 2) w₁) _ h₃ λ w₂ e₄ h₄.
            after (require (not (contains revert_word input)) revert_message) _ h₄ λ u₅ e₅ h₅.
              let (same_pda, same_world) = ok_pair-injective h₅ in
              (
                ground (arith, eqb_iff caller rt.gateway_id),
                ground arith,
                ground arith,
                same_pda,
                rw same_world (
                    sub_add-LamportsMoved rt laws ctx.pda.key ctx.random_wallet.key (amount / 2) w
                      e₃ e₄),
              )

-- A revert is taken exactly when its message is UTF-8 and does not contain `revert`, and then
-- stores the sender and the message and nothing else.
pub on_revert_iff :
    (amount : ℕ) (sender : Pubkey) (input : Bytes) (pda pda' : Pda)
    → (on_revert amount sender input pda ≡ ok pda') ↔ (
        (is_utf8 input ≡ true)
        × (contains revert_word input ≡ false)
        × (pda' ≡ record pda { last_revert_sender = sender; last_revert_message = input }))
unfolding on_revert
on_revert_iff amount sender input pda pda' = ground arith
