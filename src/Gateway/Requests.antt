-- ===== src/Gateway/Requests.antt =====
-- A run of the gateway: the instructions of programs/gateway/src/lib.rs as data, and what a
-- sequence of them leaves. An instruction that fails leaves the chain as it was.
pub mod Changes
pub mod Signing
pub mod SignedEffects
pub mod OpenEffects
pub mod Effects
pub mod Replay
pub mod Config
pub mod Admission
pub mod Payments
pub mod Whitelisting
use protocol_contracts_solan.Prelude.{ℕ, ◌≡◌, ap, Bool, Option, List, [], ◌∷◌}
use protocol_contracts_solan.Prelude.Words.{Bytes}
use protocol_contracts_solan.Solana.Result.{Error, Result, ok, err}
use protocol_contracts_solan.Solana.Account.{Pubkey, AccountInfo}
use protocol_contracts_solan.Solana.Runtime.{Runtime}
use protocol_contracts_solan.Gateway.Errors.{Errors}
use protocol_contracts_solan.Gateway.State.{RevertOptions}
use protocol_contracts_solan.Gateway.Utils.{Signed}
use protocol_contracts_solan.Gateway.Contexts.{
  State, Initialize, SignerAndPda, Execute, Deposit, DepositSplToken, Call, Withdraw,
  WithdrawSplToken, ExecuteSplToken, Whitelist, Unwhitelist,
}
use protocol_contracts_solan.Gateway.Program

pub data Request : Type 0 where
  initialize : Initialize → Bytes → ℕ → Request
  increment_nonce : SignerAndPda → ℕ → Signed → Request
  execute : Execute → List AccountInfo → ℕ → Bytes → Bytes → Signed → Request
  execute_revert : Execute → List AccountInfo → ℕ → Pubkey → Bytes → Signed → Request
  execute_spl_token : ExecuteSplToken → List AccountInfo → ℕ → ℕ → Bytes → Bytes → Signed → Request
  execute_spl_token_revert :
      ExecuteSplToken → List AccountInfo → ℕ → ℕ → Pubkey → Bytes → Signed → Request
  set_deposit_paused : SignerAndPda → Bool → Request
  update_tss : SignerAndPda → Bytes → Request
  update_authority : SignerAndPda → Pubkey → Request
  reset_nonce : SignerAndPda → ℕ → Request
  whitelist_spl_mint : Whitelist → Signed → Request
  unwhitelist_spl_mint : Unwhitelist → Signed → Request
  deposit : Deposit → ℕ → Bytes → Option RevertOptions → Request
  deposit_and_call : Deposit → ℕ → Bytes → Bytes → Option RevertOptions → Request
  deposit_spl_token : DepositSplToken → ℕ → Bytes → Option RevertOptions → Request
  deposit_spl_token_and_call : DepositSplToken → ℕ → Bytes → Bytes → Option RevertOptions → Request
  call : Call → Bytes → Bytes → Option RevertOptions → Request
  withdraw : Withdraw → ℕ → Signed → Request
  withdraw_spl_token : WithdrawSplToken → ℕ → ℕ → Signed → Request

module _ (rt : Runtime) where
  -- The dispatch that `#[program]` generates.
  unfoldable pub process : Request → State → Result Errors State
  process (Request.initialize ctx tss_address chain_id) =
      Program.initialize rt ctx tss_address chain_id
  process (Request.increment_nonce ctx amount m) = Program.increment_nonce rt ctx amount m
  process (Request.execute ctx remaining amount sender input m) =
      Program.execute rt ctx remaining amount sender input m
  process (Request.execute_revert ctx remaining amount sender input m) =
      Program.execute_revert rt ctx remaining amount sender input m
  process (Request.execute_spl_token ctx remaining decimals amount sender input m) =
      Program.execute_spl_token rt ctx remaining decimals amount sender input m
  process (Request.execute_spl_token_revert ctx remaining decimals amount sender input m) =
      Program.execute_spl_token_revert rt ctx remaining decimals amount sender input m
  process (Request.set_deposit_paused ctx paused) = Program.set_deposit_paused rt ctx paused
  process (Request.update_tss ctx tss_address) = Program.update_tss rt ctx tss_address
  process (Request.update_authority ctx new_authority) =
      Program.update_authority rt ctx new_authority
  process (Request.reset_nonce ctx new_nonce) = Program.reset_nonce rt ctx new_nonce
  process (Request.whitelist_spl_mint ctx m) = Program.whitelist_spl_mint rt ctx m
  process (Request.unwhitelist_spl_mint ctx m) = Program.unwhitelist_spl_mint rt ctx m
  process (Request.deposit ctx amount receiver revert_options) =
      Program.deposit rt ctx amount receiver revert_options
  process (Request.deposit_and_call ctx amount receiver message revert_options) =
      Program.deposit_and_call rt ctx amount receiver message revert_options
  process (Request.deposit_spl_token ctx amount receiver revert_options) =
      Program.deposit_spl_token rt ctx amount receiver revert_options
  process (Request.deposit_spl_token_and_call ctx amount receiver message revert_options) =
      Program.deposit_spl_token_and_call rt ctx amount receiver message revert_options
  process (Request.call ctx receiver message revert_options) =
      Program.call rt ctx receiver message revert_options
  process (Request.withdraw ctx amount m) = Program.withdraw rt ctx amount m
  process (Request.withdraw_spl_token ctx decimals amount m) =
      Program.withdraw_spl_token rt ctx decimals amount m

  -- A failed transaction is rolled back.
  abbrev pub settle : Result Errors State → State → State
  settle (ok s') s = s'
  settle (err e) s = s

  unfoldable pub run : List Request → State → State
  run [] s = s
  run (r ∷ rs) s = run rs (settle (process r s) s)

  pub run-ok :
      (r : Request) (rs : List Request) (s s₁ : State)
      → process r s ≡ ok s₁
      → run (r ∷ rs) s ≡ run rs s₁
  unfolding run
  run-ok r rs s s₁ h = ap (λ o. run rs (settle o s)) h

  pub run-err :
      (r : Request) (rs : List Request) (s : State) (x : Error Errors)
      → process r s ≡ err x
      → run (r ∷ rs) s ≡ run rs s
  unfolding run
  run-err r rs s x h = ap (λ o. run rs (settle o s)) h
