-- ===== src/Gateway/Utils/Nonce.antt =====
-- When a nonce or an authority is accepted: utils/verify_and_update_nonce.rs and
-- utils/verify_authority.rs.
use protocol_contracts_solan.Prelude.{ℕ, ◌+◌, ◌<◌, ◌≡◌, ◌↔◌, eqb_iff, arith}
use protocol_contracts_solan.Prelude.Words.{u64_mod}
use protocol_contracts_solan.Solana.Result.{ok}
use protocol_contracts_solan.Solana.Account.{Pubkey}
use protocol_contracts_solan.Gateway.State.{Pda}
use protocol_contracts_solan.Gateway.Utils.{verify_and_update_nonce, verify_authority}

-- The account after one accepted message.
abbrev pub advanced : Pda → Pda
advanced pda = record pda { nonce = pda.nonce + 1 }

module _ (pda : Pda) (nonce : ℕ) where
  pub verify_and_update_nonce-eq-ok :
      {pda' : Pda}
      → verify_and_update_nonce pda nonce ≡ ok pda'
      → (nonce ≡ pda.nonce) × (pda.nonce + 1 < u64_mod) × (pda' ≡ advanced pda)
  unfolding verify_and_update_nonce
  verify_and_update_nonce-eq-ok h = ground arith

  pub verify_and_update_nonce_accepts :
      nonce ≡ pda.nonce
      → pda.nonce + 1 < u64_mod
      → verify_and_update_nonce pda nonce ≡ ok (advanced pda)
  unfolding verify_and_update_nonce
  verify_and_update_nonce_accepts e h = ground arith

pub verify_authority_iff :
    (signer : Pubkey) (pda : Pda) → (verify_authority signer pda ≡ ok tt) ↔ (signer ≡ pda.authority)
unfolding verify_authority
verify_authority_iff signer pda = ground (arith, eqb_iff signer pda.authority)
