-- ===== src/Gateway/Tests/Messages.antt =====
-- Messages and packed calls of programs/gateway at concrete inputs.
use protocol_contracts_solan.Prelude.{
  ℕ, ◌≡◌, ◌↔◌, refl, some, [], ◌∷◌, ◌++◌, map, length, eqb, arith,
}
use protocol_contracts_solan.Prelude.Words.{be_bytes}
use protocol_contracts_solan.Solana.Result.{ok}
use protocol_contracts_solan.Gateway.State.{withdraw, CallableInstruction, on_call, pack}
use protocol_contracts_solan.Gateway.State.Packing.{unpack, unpack-pack, length-pack}
use protocol_contracts_solan.Gateway.Utils.{
  zetachain_prefix, concatenated_buffer, prepare_account_metas, validate_message,
}
use protocol_contracts_solan.Gateway.Utils.Nonce.{advanced}
use protocol_contracts_solan.Gateway.Utils.Authorized.{Authorized, validate_message_iff}
use protocol_contracts_solan.Gateway.Utils.Message.{
  flatten, amount_bytes, concatenated_buffer_layout, concatenated_buffer-injective,
}
use protocol_contracts_solan.Gateway.Utils.Metas.{as_meta, prepare_account_metas_lem}
use protocol_contracts_solan.Gateway.Tests.Runtime.{test_runtime}
use protocol_contracts_solan.Gateway.Tests.Accounts.{
  pda, pda_key, signer_key, recipient_key, sender, signed, remaining,
}

concatenated_buffer_layout_example :
    concatenated_buffer withdraw 900 7 (some 100) (recipient_key ∷ [])
    ≡ zetachain_prefix
      ++ ((1 ∷ [])
          ++ (be_bytes 8 900 ++ (be_bytes 8 7 ++ (be_bytes 8 100 ++ (recipient_key ++ [])))))
concatenated_buffer_layout_example =
    concatenated_buffer_layout withdraw 900 7 (some 100) (recipient_key ∷ [])

-- The boundaries between the pieces are not in the signed bytes.
regrouped :
    concatenated_buffer withdraw 900 7 (some 100) ((1 ∷ 2 ∷ []) ∷ (3 ∷ []) ∷ [])
    ≡ concatenated_buffer withdraw 900 7 (some 100) ((1 ∷ []) ∷ (2 ∷ 3 ∷ []) ∷ [])
unfolding concatenated_buffer be_bytes
regrouped = refl

concatenated_buffer-injective_example :
    (withdraw ≡ withdraw)
    × ◌≡◌ {A = ℕ} 900 900
    × ◌≡◌ {A = ℕ} 7 7
    × (amount_bytes (some 100) ++ flatten ((1 ∷ 2 ∷ []) ∷ (3 ∷ []) ∷ [])
        ≡ amount_bytes (some 100) ++ flatten ((1 ∷ []) ∷ (2 ∷ 3 ∷ []) ∷ []))
concatenated_buffer-injective_example =
    concatenated_buffer-injective withdraw withdraw 900 900 7 7 (some 100) (some 100)
      ((1 ∷ 2 ∷ []) ∷ (3 ∷ []) ∷ []) ((1 ∷ []) ∷ (2 ∷ 3 ∷ []) ∷ []) (omega arith) (omega arith)
      (omega arith) (omega arith) regrouped

validate_message_iff_example :
    (validate_message test_runtime pda withdraw 7 100
        (recipient_key ∷ [])
        (signed withdraw (recipient_key ∷ [])).message_hash
        (signed withdraw (recipient_key ∷ [])).signature
        0
      ≡ ok (advanced pda))
    ↔ Authorized test_runtime pda withdraw
        (some 100)
        (recipient_key ∷ [])
        (signed withdraw (recipient_key ∷ []))
validate_message_iff_example =
    validate_message_iff test_runtime pda withdraw 100 (recipient_key ∷ [])
      (signed withdraw (recipient_key ∷ []))

prepare_account_metas_lem_example :
    prepare_account_metas remaining signer_key pda_key ≡ ok (map (as_meta pda_key) remaining)
unfolding eqb
prepare_account_metas_lem_example = prepare_account_metas_lem remaining signer_key pda_key

prepares : prepare_account_metas remaining signer_key pda_key ≡ ok (map (as_meta pda_key) remaining)
unfolding prepare_account_metas eqb
prepares = refl

abbrev packed : CallableInstruction
packed = on_call 300 sender (10 ∷ 20 ∷ [])

unpack-pack_example : unpack (pack packed) ≡ some packed
unpack-pack_example = unpack-pack packed (omega arith, refl, omega arith)

length-pack_example : length (pack packed) ≡ 42
length-pack_example = length-pack packed (omega arith, refl, omega arith)
