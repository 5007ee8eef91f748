-- ===== src/Gateway/Requests/Signing.antt =====
-- Who signs an instruction of the authority, over whole runs: the signer of each context in
-- programs/gateway/src/contexts.rs and programs/gateway/src/utils/verify_authority.rs.
use protocol_contracts_solan.Prelude.{
  ℕ, ◌≡◌, subst, Bool, true, Option, none, some, List, [], ◌∷◌, arith,
}
use protocol_contracts_solan.Prelude.Words.{Bytes}
use protocol_contracts_solan.Solana.Result.{Error, ok, err, after}
use protocol_contracts_solan.Solana.Account.{Pubkey, AccountInfo}
use protocol_contracts_solan.Solana.Runtime.{Runtime}
use protocol_contracts_solan.Gateway.Errors.{Errors}
use protocol_contracts_solan.Gateway.State.{Pda}
use protocol_contracts_solan.Gateway.Contexts.{State, SignerAndPda}
use protocol_contracts_solan.Gateway.Accounts.{try_signer_and_pda}
use protocol_contracts_solan.Gateway.Program
use protocol_contracts_solan.Gateway.Requests.{Request, process, settle}

-- Whether `a` has signed the transaction as this account of the instruction.
abbrev pub SignedBy : Pubkey → Option AccountInfo → Type 0
SignedBy a none = ⊥
SignedBy a (some info) = (info.key ≡ a) × (info.is_signer ≡ true)

-- The signer of the two instructions that set the nonce.
abbrev pub reset_signer : Request → Option AccountInfo
reset_signer (Request.update_tss ctx tss_address) = some ctx.signer
reset_signer (Request.reset_nonce ctx new_nonce) = some ctx.signer
reset_signer _ = none

-- The signer of the three instructions that set the pause, the TSS address or the authority.
abbrev pub config_signer : Request → Option AccountInfo
config_signer (Request.set_deposit_paused ctx paused) = some ctx.signer
config_signer (Request.update_tss ctx tss_address) = some ctx.signer
config_signer (Request.update_authority ctx new_authority) = some ctx.signer
config_signer _ = none

module _ (rt : Runtime) where
  -- Over the run from `s`, no instruction succeeds that `who` selects and that the authority of the
  -- account, as it stands by then, has signed. Those that fail or that others sign are not excluded.
  abbrev pub NoneSigned : (Request → Option AccountInfo) → List Request → State → Type 0
  NoneSigned who [] s = Unit
  NoneSigned who (r ∷ rs) s =
      ((p : Pda) (s' : State)
        → s.pda ≡ some p
        → process rt r s ≡ ok s'
        → ¬ SignedBy p.authority (who r))
      × NoneSigned who rs (settle rt (process rt r s) s)

  module _ (who : Request → Option AccountInfo) (r : Request) (rs : List Request) (s : State) where
    pub NoneSigned-ok :
        {s₁ : State} → process rt r s ≡ ok s₁ → NoneSigned who (r ∷ rs) s → NoneSigned who rs s₁
    unfolding NoneSigned
    NoneSigned-ok h (n, ns) = subst (λ o. NoneSigned who rs (settle rt o s)) h ns

    pub NoneSigned-err :
        {x : Error Errors}
        → process rt r s ≡ err x
        → NoneSigned who (r ∷ rs) s
        → NoneSigned who rs s
    unfolding NoneSigned
    NoneSigned-err h (n, ns) = subst (λ o. NoneSigned who rs (settle rt o s)) h ns

module _ (rt : Runtime) (s s' : State) (ctx : SignerAndPda) where
  try_signer_and_pda-is_signer :
      {p : Pda} → try_signer_and_pda rt ctx s ≡ ok p → ctx.signer.is_signer ≡ true
  unfolding try_signer_and_pda
  try_signer_and_pda-is_signer h = ground arith

  pub set_deposit_paused-is_signer :
      (paused : Bool)
      → Program.set_deposit_paused rt ctx paused s ≡ ok s'
      → ctx.signer.is_signer ≡ true
  unfolding Program.set_deposit_paused
  set_deposit_paused-is_signer paused h =
      after (try_signer_and_pda rt ctx s) _ h λ p e _. try_signer_and_pda-is_signer e

  pub update_tss-is_signer :
      (tss_address : Bytes)
      → Program.update_tss rt ctx tss_address s ≡ ok s'
      → ctx.signer.is_signer ≡ true
  unfolding Program.update_tss
  update_tss-is_signer tss_address h =
      after (try_signer_and_pda rt ctx s) _ h λ p e _. try_signer_and_pda-is_signer e

  pub update_authority-is_signer :
      (new_authority : Pubkey)
      → Program.update_authority rt ctx new_authority s ≡ ok s'
      → ctx.signer.is_signer ≡ true
  unfolding Program.update_authority
  update_authority-is_signer new_authority h =
      after (try_signer_and_pda rt ctx s) _ h λ p e _. try_signer_and_pda-is_signer e

  pub reset_nonce-is_signer :
      (new_nonce : ℕ) → Program.reset_nonce rt ctx new_nonce s ≡ ok s' → ctx.signer.is_signer ≡ true
  unfolding Program.reset_nonce
  reset_nonce-is_signer new_nonce h =
      after (try_signer_and_pda rt ctx s) _ h λ p e _. try_signer_and_pda-is_signer e
