-- ===== src/Gateway/Utils/Metas.antt =====
-- What a called program may touch: utils/prepare_account_metas.rs.
use protocol_contracts_solan.Prelude.{
  ◌≡◌, refl, Bool, false, not, ◌&&◌, ◌||◌, List, [], ◌∷◌, map, eqb, if◌then◌else◌, arith,
}
use protocol_contracts_solan.Solana.Result.{ok, err, custom}
use protocol_contracts_solan.Solana.Account.{Pubkey, AccountInfo, AccountMeta, writable_in}
use protocol_contracts_solan.Gateway.Errors.{invalid_instruction_data}
use protocol_contracts_solan.Gateway.Utils.{prepare_account_metas}

abbrev pub has_key : Pubkey → List AccountInfo → Bool
has_key k [] = false
has_key k (info ∷ infos) = eqb info.key k || has_key k infos

-- An account is handed on as no signer, and writable if it was and is not the gateway's own.
abbrev pub as_meta : Pubkey → AccountInfo → AccountMeta
as_meta pda info = record {
  pubkey = info.key;
  is_signer = false;
  is_writable = info.is_writable && not (eqb info.key pda);
}

-- The metas are refused exactly when the signer is among the accounts; otherwise they are the
-- accounts in order, none a signer, and writable where the account was and is not the PDA.
pub prepare_account_metas_lem :
    (infos : List AccountInfo) (signer pda : Pubkey)
    → prepare_account_metas infos signer pda ≡ (
        if has_key signer infos
        then err (custom invalid_instruction_data)
        else ok (map (as_meta pda) infos))
unfolding prepare_account_metas
prepare_account_metas_lem [] signer pda = refl
prepare_account_metas_lem (info ∷ infos) signer pda =
    ground (arith, prepare_account_metas_lem infos signer pda)

writable_in-as_meta :
    (k pda : Pubkey) (infos : List AccountInfo)
    → has_key k infos ≡ false
    → writable_in k (map (as_meta pda) infos) ≡ false
unfolding writable_in
writable_in-as_meta k pda [] h = refl
writable_in-as_meta k pda (info ∷ infos) h = ground (arith, writable_in-as_meta k pda infos)

writable_in-as_meta_pda :
    (pda : Pubkey) (infos : List AccountInfo) → writable_in pda (map (as_meta pda) infos) ≡ false
unfolding writable_in
writable_in-as_meta_pda pda [] = refl
writable_in-as_meta_pda pda (info ∷ infos) = ground (arith, writable_in-as_meta_pda pda infos)

module _ (infos : List AccountInfo) (signer pda : Pubkey) {metas : List AccountMeta} where
  -- Where the metas are prepared, neither the gateway's account nor the signer's is writable in
  -- any of them.
  pub prepare_account_metas_protects :
      prepare_account_metas infos signer pda ≡ ok metas
      → (writable_in pda metas ≡ false) × (writable_in signer metas ≡ false)
  prepare_account_metas_protects h = ground (
    arith,
    prepare_account_metas_lem infos signer pda,
    writable_in-as_meta_pda pda infos,
    writable_in-as_meta signer pda infos,
  )

  pub prepare_account_metas-eq-ok :
      prepare_account_metas infos signer pda ≡ ok metas
      → (has_key signer infos ≡ false) × (metas ≡ map (as_meta pda) infos)
  prepare_account_metas-eq-ok h = ground (arith, prepare_account_metas_lem infos signer pda)
