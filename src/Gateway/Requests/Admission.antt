-- ===== src/Gateway/Requests/Admission.antt =====
-- Which deposits get in: the contexts and the handlers of the deposits, over
-- programs/gateway/src/lib.rs.
use protocol_contracts_solan.Prelude.{
  ℕ, ◌≡◌, ◌≢◌, Bool, true, false, Option, none, some, eqb_iff, inl, inr, Option-cases, arith,
}
use protocol_contracts_solan.Prelude.Words.{Bytes}
use protocol_contracts_solan.Solana.Result.{ok, after}
use protocol_contracts_solan.Solana.Runtime.{Runtime}
use protocol_contracts_solan.Gateway.State.{Pda, RevertOptions}
use protocol_contracts_solan.Gateway.Utils.{deposit_fee}
use protocol_contracts_solan.Gateway.Contexts.{State, Initialize, Deposit, DepositSplToken}
use protocol_contracts_solan.Solana.Account.{World}
use protocol_contracts_solan.Gateway.Accounts.{
  try_initialize, try_deposit, try_deposit_spl_token, whitelist_entry_of,
}
use protocol_contracts_solan.Gateway.Accounts.Loaded.{
  try_deposit-loads, try_deposit_spl_token-loads,
}
use protocol_contracts_solan.Gateway.Deposit
use protocol_contracts_solan.Gateway.Deposit.{mint_of}
use protocol_contracts_solan.Gateway.Admin
use protocol_contracts_solan.Gateway.Program
use protocol_contracts_solan.Gateway.Requests.{Request, process}

-- The four instructions that deposit.
abbrev pub is_deposit : Request → Bool
is_deposit (Request.deposit ctx amount receiver opts) = true
is_deposit (Request.deposit_and_call ctx amount receiver message opts) = true
is_deposit (Request.deposit_spl_token ctx amount receiver opts) = true
is_deposit (Request.deposit_spl_token_and_call ctx amount receiver message opts) = true
is_deposit _ = false

module _ (rt : Runtime) (amount : ℕ) (receiver : Bytes) (opts : Option RevertOptions) (fee : ℕ)
    (p : Pda) (paused : p.deposit_paused ≡ true) (w w' : World) where
  handle_sol_paused :
      (ctx : Deposit) → Deposit.handle_sol rt ctx amount receiver opts fee p w ≢ ok w'
  unfolding Deposit.handle_sol
  handle_sol_paused ctx h = ground arith

  handle_sol_with_call_paused :
      (ctx : Deposit) (message : Bytes)
      → Deposit.handle_sol_with_call rt ctx amount receiver message opts fee p w ≢ ok w'
  unfolding Deposit.handle_sol_with_call
  handle_sol_with_call_paused ctx message h = ground (arith, handle_sol_paused ctx)

  handle_spl_paused :
      (ctx : DepositSplToken) → Deposit.handle_spl rt ctx amount receiver opts fee p w ≢ ok w'
  unfolding Deposit.handle_spl
  handle_spl_paused ctx h = ground arith

  handle_spl_with_call_paused :
      (ctx : DepositSplToken) (message : Bytes)
      → Deposit.handle_spl_with_call rt ctx amount receiver message opts fee p w ≢ ok w'
  unfolding Deposit.handle_spl_with_call
  handle_spl_with_call_paused ctx message h = ground (arith, handle_spl_paused ctx)

module _ (rt : Runtime) (s s' : State) (p : Pda) (loaded : s.pda ≡ some p) where
  -- Where the gateway has been initialized and deposits are paused, no request of the four that
  -- deposit succeeds.
  pub deposit_paused_refuses :
      (r : Request) → p.deposit_paused ≡ true → is_deposit r ≡ true → process rt r s ≢ ok s'
  unfolding process Program.deposit Program.deposit_and_call Program.deposit_spl_token
      Program.deposit_spl_token_and_call
  deposit_paused_refuses (Request.deposit ctx amount receiver opts) paused d h =
      after (try_deposit rt ctx s) _ h λ p₀ e h₁.
        let same : p₀.deposit_paused ≡ true = ground (arith, try_deposit-loads rt s ctx e) in
        after (Deposit.handle_sol rt ctx amount receiver opts deposit_fee p₀ s.world) _ h₁
          λ w e' h₂. handle_sol_paused rt amount receiver opts deposit_fee p₀ same s.world w ctx e'
  deposit_paused_refuses (Request.deposit_and_call ctx amount receiver message opts) paused d h =
      after (try_deposit rt ctx s) _ h λ p₀ e h₁.
        let same : p₀.deposit_paused ≡ true = ground (arith, try_deposit-loads rt s ctx e) in
        after
          (Deposit.handle_sol_with_call rt ctx amount receiver message opts deposit_fee p₀ s.world)
          _ h₁
          λ w e' h₂.
            handle_sol_with_call_paused rt amount receiver opts deposit_fee p₀ same s.world w ctx
              message e'
  deposit_paused_refuses (Request.deposit_spl_token ctx amount receiver opts) paused d h =
      after (try_deposit_spl_token rt ctx s) _ h λ p₀ e h₁.
        let same : p₀.deposit_paused ≡ true =
          ground (arith, try_deposit_spl_token-loads rt s ctx e) in
        after (Deposit.handle_spl rt ctx amount receiver opts deposit_fee p₀ s.world) _ h₁
          λ w e' h₂. handle_spl_paused rt amount receiver opts deposit_fee p₀ same s.world w ctx e'
  deposit_paused_refuses (Request.deposit_spl_token_and_call ctx amount receiver message opts)
        paused d h =
      after (try_deposit_spl_token rt ctx s) _ h λ p₀ e h₁.
        let same : p₀.deposit_paused ≡ true =
          ground (arith, try_deposit_spl_token-loads rt s ctx e) in
        after
          (Deposit.handle_spl_with_call rt ctx amount receiver message opts deposit_fee p₀ s.world)
          _ h₁
          λ w e' h₂.
            handle_spl_with_call_paused rt amount receiver opts deposit_fee p₀ same s.world w ctx
              message e'
  deposit_paused_refuses _ paused d h = absurd (cc)

-- The accounts of the two instructions that deposit tokens.
abbrev pub token_deposit : Request → Option DepositSplToken
token_deposit (Request.deposit_spl_token ctx amount receiver opts) = some ctx
token_deposit (Request.deposit_spl_token_and_call ctx amount receiver message opts) = some ctx
token_deposit _ = none

module _ (rt : Runtime) (s s' : State) where
  try_deposit_spl_token-whitelisted :
      (ctx : DepositSplToken) {p : Pda}
      → try_deposit_spl_token rt ctx s ≡ ok p
      → (s.entries (whitelist_entry_of rt ctx.mint_account.key) ≡ true)
        × (mint_of s.world ctx.from.key ≡ ctx.mint_account.key)
  unfolding try_deposit_spl_token mint_of
  try_deposit_spl_token-whitelisted ctx h =
      let entry = whitelist_entry_of rt ctx.mint_account.key in
      let key : ctx.whitelist_entry.key ≡ entry =
        ground (arith, eqb_iff ctx.whitelist_entry.key entry) in
      let exists : s.entries ctx.whitelist_entry.key ≡ true = ground arith in
      (
        rw key at exists,
        elim (Option-cases (s.world.token ctx.from.key)) [
          | inl missing ↦ absurd (ground (arith, missing))
          | inr (t, found) ↦
              rw (found, mint_of) (ground (arith, found, eqb_iff t.mint ctx.mint_account.key))
        ],
      )

  -- Either deposit of tokens, with a call or without, succeeds only for a mint whose whitelist entry
  -- exists, and from a token account of that mint.
  pub deposit_spl_token_whitelisted :
      (r : Request) (ctx : DepositSplToken)
      → token_deposit r ≡ some ctx
      → process rt r s ≡ ok s'
      → (s.entries (whitelist_entry_of rt ctx.mint_account.key) ≡ true)
        × (mint_of s.world ctx.from.key ≡ ctx.mint_account.key)
  unfolding process Program.deposit_spl_token Program.deposit_spl_token_and_call
  deposit_spl_token_whitelisted (Request.deposit_spl_token ctx₀ amount receiver opts) ctx d h =
      after (try_deposit_spl_token rt ctx₀ s) _ h λ p e h₁.
        let same : ctx₀ ≡ ctx = cc in rw same at (try_deposit_spl_token-whitelisted ctx₀ e)
  deposit_spl_token_whitelisted
        (Request.deposit_spl_token_and_call ctx₀ amount receiver message opts) ctx d h =
      after (try_deposit_spl_token rt ctx₀ s) _ h λ p e h₁.
        let same : ctx₀ ≡ ctx = cc in rw same at (try_deposit_spl_token-whitelisted ctx₀ e)
  deposit_spl_token_whitelisted _ ctx d h = absurd (cc)

  -- The gateway is initialized once, by a signer who becomes its authority, with the nonce 0 and
  -- deposits open.
  pub initialize_once :
      (ctx : Initialize) (tss_address : Bytes) (chain_id : ℕ)
      → process rt (Request.initialize ctx tss_address chain_id) s ≡ ok s'
      → (s.pda ≡ none)
        × (ctx.signer.is_signer ≡ true)
        × (s'.pda
            ≡ some (record {
              nonce = 0;
              tss_address = tss_address;
              authority = ctx.signer.key;
              chain_id = chain_id;
              deposit_paused = false;
            }))
        × (s'.entries ≡ s.entries)
  unfolding process Program.initialize Admin.initialize try_initialize
  initialize_once ctx tss_address chain_id h = ground arith
