-- ===== src/Gateway/Requests/Whitelisting.antt =====
-- Who may whitelist a mint, and which entries that leaves: `whitelist_spl_mint` and
-- `unwhitelist_spl_mint` of programs/gateway/src/instructions/admin.rs under their contexts.
use protocol_contracts_solan.Prelude.{
  ◌≡◌, sym, ◌∙◌, true, false, none, some, [], ◌∷◌, eqb, eqb_iff, arith,
}
use protocol_contracts_solan.Solana.Result.{ok, after, after_call}
use protocol_contracts_solan.Solana.Account.{Pubkey, World, update}
use protocol_contracts_solan.Solana.Runtime.{Runtime}
use protocol_contracts_solan.Gateway.State.{
  Pda, InstructionId, whitelist_spl_token, unwhitelist_spl_token,
}
use protocol_contracts_solan.Gateway.Utils.{Signed, verify_and_update_nonce}
use protocol_contracts_solan.Gateway.Utils.Nonce.{
  advanced, verify_and_update_nonce-eq-ok, verify_authority_iff,
}
use protocol_contracts_solan.Gateway.Utils.Message.{hash_and_recover-IsSigned}
use protocol_contracts_solan.Gateway.Utils.Authorized.{Authorized}
use protocol_contracts_solan.Gateway.Contexts.{State, Whitelist, Unwhitelist}
use protocol_contracts_solan.Gateway.Accounts.{whitelist_entry_of, try_whitelist, try_unwhitelist}
use protocol_contracts_solan.Gateway.Accounts.Loaded.{try_whitelist-loads, try_unwhitelist-loads}
use protocol_contracts_solan.Gateway.Admin
use protocol_contracts_solan.Gateway.Admin.{zero_signature, verify_tss_signed}
use protocol_contracts_solan.Gateway.Program
use protocol_contracts_solan.Gateway.Requests.{Request, process}

-- Either the TSS has signed the change of this mint, and its message is spent, or the signature is
-- all zeros, the account given as `authority` is the authority, and the stored account stays as it
-- is.
abbrev pub Admits : Runtime → InstructionId → Pubkey → Pubkey → Signed → Pda → Pda → Type 0
Admits rt id candidate authority m p p' =
    (eqb m.signature zero_signature ≡ false
      → Authorized rt p id none (candidate ∷ []) m × (p' ≡ advanced p))
    × (eqb m.signature zero_signature ≡ true → (authority ≡ p.authority) × (p' ≡ p))

module _ (rt : Runtime) (m : Signed) (p : Pda) {p' : Pda} where
  verify_tss_signed-Authorized :
      (id : InstructionId) (candidate : Pubkey)
      → verify_tss_signed rt id candidate p m ≡ ok p'
      → Authorized rt p id none (candidate ∷ []) m × (p' ≡ advanced p)
  unfolding verify_tss_signed
  verify_tss_signed-Authorized id candidate h =
      after (verify_and_update_nonce p m.nonce) _ h λ q e h₁.
        let (n, fits, adv) = verify_and_update_nonce-eq-ok p m.nonce e in
        let same : q ≡ p' = ground arith in
        let signed =
          hash_and_recover-IsSigned rt q id m.nonce none (candidate ∷ []) m.message_hash m.signature
            m.recovery_id (rw (← same) at h₁) in
        (record { expected = n; advances = fits; signed = rw adv at signed }, sym same ∙ adv)

  whitelist_spl_mint-Admits :
      (ctx : Whitelist)
      → Admin.whitelist_spl_mint rt ctx m p ≡ ok p'
      → Admits rt whitelist_spl_token ctx.whitelist_candidate.key ctx.authority.key m p p'
  unfolding Admin.whitelist_spl_mint
  whitelist_spl_mint-Admits ctx h = (
    λ real. verify_tss_signed-Authorized _ _ (rw real at h),
    λ zero. ground (arith, verify_authority_iff ctx.authority.key p),
  )

  unwhitelist_spl_mint-Admits :
      (ctx : Unwhitelist)
      → Admin.unwhitelist_spl_mint rt ctx m p ≡ ok p'
      → Admits rt unwhitelist_spl_token ctx.whitelist_candidate.key ctx.authority.key m p p'
  unfolding Admin.unwhitelist_spl_mint
  unwhitelist_spl_mint-Admits ctx h = (
    λ real. verify_tss_signed-Authorized _ _ (rw real at h),
    λ zero. ground (arith, verify_authority_iff ctx.authority.key p),
  )

module _ (rt : Runtime) (s s' : State) (p : Pda) (loaded : s.pda ≡ some p) where
  try_whitelist-entry :
      (ctx : Whitelist) {q : Pda} {w : World}
      → try_whitelist rt ctx s ≡ ok (q, w)
      → (ctx.whitelist_entry.key ≡ whitelist_entry_of rt ctx.whitelist_candidate.key)
        × (s.entries ctx.whitelist_entry.key ≡ false)
        × (ctx.authority.is_signer ≡ true)
  unfolding try_whitelist
  try_whitelist-entry ctx h =
      ground
        (arith, eqb_iff ctx.whitelist_entry.key (whitelist_entry_of rt ctx.whitelist_candidate.key))

  try_unwhitelist-entry :
      (ctx : Unwhitelist) {q : Pda}
      → try_unwhitelist rt ctx s ≡ ok q
      → (ctx.whitelist_entry.key ≡ whitelist_entry_of rt ctx.whitelist_candidate.key)
        × (s.entries ctx.whitelist_entry.key ≡ true)
        × (ctx.authority.is_signer ≡ true)
  unfolding try_unwhitelist
  try_unwhitelist-entry ctx h =
      ground
        (arith, eqb_iff ctx.whitelist_entry.key (whitelist_entry_of rt ctx.whitelist_candidate.key))

  -- Where the gateway has been initialized, a whitelisting that succeeds was signed by the account
  -- given as `authority`; it carries a message of the TSS for this mint under the expected nonce,
  -- which is spent, or else a signature of zeros, and then the signer is the authority; and it turns
  -- the missing entry of the mint, and no other, into an existing one.
  pub whitelist_adds :
      (ctx : Whitelist) (m : Signed)
      → process rt (Request.whitelist_spl_mint ctx m) s ≡ ok s'
      → let entry = whitelist_entry_of rt ctx.whitelist_candidate.key in
        (ctx.authority.is_signer ≡ true)
        × (s.entries entry ≡ false)
        × (s'.entries ≡ update s.entries entry true)
        × ((p' : Pda) × (s'.pda ≡ some p')
            × Admits rt whitelist_spl_token ctx.whitelist_candidate.key ctx.authority.key m p p')
  unfolding process Program.whitelist_spl_mint
  whitelist_adds ctx m h = after (try_whitelist rt ctx s) _ h λ (p₀, w₀) e h₁.
      after (Admin.whitelist_spl_mint rt ctx m p₀) _ h₁ λ p' e' h₂.
        let same : p₀ ≡ p = ground (arith, try_whitelist-loads rt s ctx e) in
        let (key, missing, signs) = try_whitelist-entry ctx e in
        let entries : s'.entries ≡ update s.entries ctx.whitelist_entry.key true = ground arith in
        (
          signs,
          rw key at missing,
          rw key at entries,
          (p', ground arith, rw same at (whitelist_spl_mint-Admits rt m p₀ ctx e')),
        )

  -- Where the gateway has been initialized, a removal that succeeds was signed by the account given
  -- as `authority`; it carries a message of the TSS for this mint, under its own number and the
  -- expected nonce, which is spent, or else a signature of zeros, and then the signer is the
  -- authority; and it removes the existing entry of the mint, and no other.
  pub unwhitelist_removes :
      (ctx : Unwhitelist) (m : Signed)
      → process rt (Request.unwhitelist_spl_mint ctx m) s ≡ ok s'
      → let entry = whitelist_entry_of rt ctx.whitelist_candidate.key in
        (ctx.authority.is_signer ≡ true)
        × (s.entries entry ≡ true)
        × (s'.entries ≡ update s.entries entry false)
        × ((p' : Pda) × (s'.pda ≡ some p')
            × Admits rt unwhitelist_spl_token ctx.whitelist_candidate.key ctx.authority.key m p p')
  unfolding process Program.unwhitelist_spl_mint
  unwhitelist_removes ctx m h = after (try_unwhitelist rt ctx s) _ h λ p₀ e h₁.
      after (Admin.unwhitelist_spl_mint rt ctx m p₀) _ h₁ λ p' e' h₂.
        after_call (rt.close_account ctx.whitelist_entry.key ctx.authority.key s.world) _ h₂
          λ w e'' h₃.
            let same : p₀ ≡ p = ground (arith, try_unwhitelist-loads rt s ctx e) in
            let (key, present, signs) = try_unwhitelist-entry ctx e in
            let entries : s'.entries ≡ update s.entries ctx.whitelist_entry.key false =
              ground arith in
            (
              signs,
              rw key at present,
              rw key at entries,
              (p', ground arith, rw same at (unwhitelist_spl_mint-Admits rt m p₀ ctx e')),
            )
