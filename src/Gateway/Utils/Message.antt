-- ===== src/Gateway/Utils/Message.antt =====
-- What a validated message says: utils/validate_message.rs, utils/validate_message_hash.rs and
-- utils/recover_and_verify_eth_address.rs.
use protocol_contracts_solan.Prelude.{
  ℕ, ◌+◌, ◌<◌, ◌≡◌, refl, sym, ◌∙◌, Option, none, some, inl, inr, List, [], ◌∷◌, ◌++◌, append_assoc,
  append-nil, append-injective, eqb_iff, Option-cases, arith,
}
use protocol_contracts_solan.Prelude.Words.{
  Bytes, IsU64, u64_mod, be_bytes, length-be_bytes, be_bytes-injective,
}
use protocol_contracts_solan.Solana.Result.{ok, ◌>>◌, >>=-eq-ok}
use protocol_contracts_solan.Solana.Runtime.{Runtime}
use protocol_contracts_solan.Gateway.State.{Pda, InstructionId, id_byte}
use protocol_contracts_solan.Gateway.Utils.{
  zetachain_prefix, extend_all, push_amount, concatenated_buffer, validate_message_hash,
  eth_address, recover_and_verify_eth_address, validate_message, verify_and_update_nonce,
}
use protocol_contracts_solan.Gateway.Utils.Nonce.{
  advanced, verify_and_update_nonce-eq-ok, verify_and_update_nonce_accepts,
}

abbrev pub flatten : List Bytes → Bytes
flatten [] = []
flatten (piece ∷ pieces) = piece ++ flatten pieces

abbrev pub amount_bytes : Option ℕ → Bytes
amount_bytes none = []
amount_bytes (some amount) = be_bytes 8 amount

extend_all-eq :
    (buffer : Bytes) (pieces : List Bytes) → extend_all buffer pieces ≡ buffer ++ flatten pieces
unfolding extend_all
extend_all-eq buffer [] = sym (append-nil buffer)
extend_all-eq buffer (piece ∷ pieces) =
    extend_all-eq (buffer ++ piece) pieces ∙ append_assoc buffer piece (flatten pieces)

push_amount-eq :
    (amount : Option ℕ) (buffer : Bytes) → push_amount amount buffer ≡ buffer ++ amount_bytes amount
unfolding push_amount
push_amount-eq none buffer = sym (append-nil buffer)
push_amount-eq (some amount) buffer = refl

-- The signed bytes are the prefix, the instruction's number, the chain, the nonce, the amount if
-- there is one, and the pieces in order.
pub concatenated_buffer_layout :
    (id : InstructionId) (chain_id nonce : ℕ) (amount : Option ℕ) (pieces : List Bytes)
    → concatenated_buffer id chain_id nonce amount pieces
      ≡ zetachain_prefix
        ++ ((id_byte id ∷ [])
            ++ (be_bytes 8 chain_id
                ++ (be_bytes 8 nonce ++ (amount_bytes amount ++ flatten pieces))))
unfolding concatenated_buffer
concatenated_buffer_layout id chain_id nonce amount pieces =
    simp (extend_all-eq, push_amount-eq, append_assoc)

module _ (rt : Runtime) where
  -- The TSS has signed the message: its hash is the one given, and the key that the signature
  -- recovers to has the address of the TSS.
  pub record IsSigned (tss_address message message_hash signature : Bytes) (recovery_id : ℕ)
      : Type 0 where
    pub hashed : message_hash ≡ rt.keccak message
    pub pubkey : Bytes
    pub recovered : rt.secp256k1_recover message_hash recovery_id signature ≡ some pubkey
    pub address : eth_address rt pubkey ≡ tss_address

  pub hash_and_recover-IsSigned :
      (pda : Pda) (id : InstructionId) (nonce : ℕ) (amount : Option ℕ) (pieces : List Bytes)
      (hash signature : Bytes) (recovery_id : ℕ) {pda' : Pda}
      → (validate_message_hash rt id pda.chain_id nonce amount pieces hash
          >> (recover_and_verify_eth_address rt pda hash recovery_id signature >> ok pda'))
        ≡ ok pda'
      → IsSigned pda.tss_address
          (concatenated_buffer id pda.chain_id nonce amount pieces)
          hash
          signature
          recovery_id
  unfolding validate_message_hash recover_and_verify_eth_address
  hash_and_recover-IsSigned pda id nonce amount pieces hash signature rid h =
      elim (Option-cases (rt.secp256k1_recover hash rid signature)) [
        | inl n ↦ absurd (ground arith)
        | inr (k, s) ↦ record {
          hashed = ground (
            arith,
            eqb_iff hash (rt.keccak (concatenated_buffer id pda.chain_id nonce amount pieces)),
          );
          pubkey = k;
          recovered = s;
          address = ground (arith, eqb_iff (eth_address rt k) pda.tss_address);
        }
      ]

  validate_message_rest :
      (pda : Pda) (id : InstructionId) (nonce : ℕ) (amount : Option ℕ) (pieces : List Bytes)
      (hash signature : Bytes) (recovery_id : ℕ) {pda' : Pda}
      → (validate_message_hash rt id pda.chain_id nonce amount pieces hash
          >> (recover_and_verify_eth_address rt pda hash recovery_id signature >> ok pda))
        ≡ ok pda'
      → pda ≡ pda'
  validate_message_rest pda id nonce amount pieces hash signature rid h = ground arith

  pub validate_message-eq-ok :
      (pda : Pda) (id : InstructionId) (nonce amount : ℕ) (pieces : List Bytes)
      (hash signature : Bytes) (recovery_id : ℕ) {pda' : Pda}
      → validate_message rt pda id nonce amount pieces hash signature recovery_id ≡ ok pda'
      → (nonce ≡ pda.nonce)
        × (pda.nonce + 1 < u64_mod)
        × (pda' ≡ advanced pda)
        × IsSigned pda.tss_address
            (concatenated_buffer id pda.chain_id nonce (some amount) pieces)
            hash
            signature
            recovery_id
  unfolding validate_message
  validate_message-eq-ok pda id nonce amount pieces hash signature rid h =
      let (p, e, t) = >>=-eq-ok (verify_and_update_nonce pda nonce) _ h in
      let (n, fits, adv) = verify_and_update_nonce-eq-ok pda nonce e in
      let same = validate_message_rest p id nonce (some amount) pieces hash signature rid t in
      let signed =
        hash_and_recover-IsSigned p id nonce (some amount) pieces hash signature rid
          (rw (← same) at t) in
      (n, fits, sym same ∙ adv, rw adv at signed)

  pub hash_and_recover_accepts :
      (pda : Pda) (id : InstructionId) (nonce : ℕ) (amount : Option ℕ) (pieces : List Bytes)
      (hash signature : Bytes) (recovery_id : ℕ)
      → IsSigned pda.tss_address
          (concatenated_buffer id pda.chain_id nonce amount pieces)
          hash
          signature
          recovery_id
      → (validate_message_hash rt id pda.chain_id nonce amount pieces hash ≡ ok tt)
        × (recover_and_verify_eth_address rt pda hash recovery_id signature ≡ ok tt)
  unfolding validate_message_hash recover_and_verify_eth_address
  hash_and_recover_accepts pda id nonce amount pieces hash signature rid s =
      let known = s.recovered in
      (
        ground (
          arith,
          s.hashed,
          eqb_iff hash (rt.keccak (concatenated_buffer id pda.chain_id nonce amount pieces)),
        ),
        ground (arith, known, s.address, eqb_iff (eth_address rt s.pubkey) pda.tss_address),
      )

  -- A signed message with the expected nonce is accepted.
  pub validate_message_accepts :
      (pda : Pda) (id : InstructionId) (amount : ℕ) (pieces : List Bytes) (hash signature : Bytes)
      (recovery_id : ℕ)
      → pda.nonce + 1 < u64_mod
      → IsSigned pda.tss_address
          (concatenated_buffer id pda.chain_id pda.nonce (some amount) pieces)
          hash
          signature
          recovery_id
      → validate_message rt pda id pda.nonce amount pieces hash signature recovery_id
        ≡ ok (advanced pda)
  unfolding validate_message
  validate_message_accepts pda id amount pieces hash signature rid fits s =
      let (h, r) =
        hash_and_recover_accepts (advanced pda) id pda.nonce (some amount) pieces hash signature rid
          s in
      rw (verify_and_update_nonce_accepts pda pda.nonce refl fits) (rw (h, r))

pub id_byte-injective : (i j : InstructionId) → id_byte i ≡ id_byte j → i ≡ j
id_byte-injective i j e = ground arith

module _ (id id' : InstructionId) (chain_id chain_id' nonce nonce' : ℕ) (amount amount' : Option ℕ)
    (pieces pieces' : List Bytes) where
  -- For chains and nonces of 64 bits, equal signed bytes name the same instruction, chain and
  -- nonce, and agree in what follows.
  pub concatenated_buffer-injective :
      IsU64 chain_id
      → IsU64 chain_id'
      → IsU64 nonce
      → IsU64 nonce'
      → concatenated_buffer id chain_id nonce amount pieces
        ≡ concatenated_buffer id' chain_id' nonce' amount' pieces'
      → (id ≡ id')
        × (chain_id ≡ chain_id')
        × (nonce ≡ nonce')
        × (amount_bytes amount ++ flatten pieces ≡ amount_bytes amount' ++ flatten pieces')
  concatenated_buffer-injective hc hc' hn hn' e =
      let rest = amount_bytes amount ++ flatten pieces in
      let rest' = amount_bytes amount' ++ flatten pieces' in
      let f =
        sym (concatenated_buffer_layout id chain_id nonce amount pieces)
        ∙ e
        ∙ concatenated_buffer_layout id' chain_id' nonce' amount' pieces' in
      let (_, f₁) = append-injective zetachain_prefix _ zetachain_prefix _ refl f in
      let (f₂, f₃) = append-injective (id_byte id ∷ []) _ (id_byte id' ∷ []) _ refl f₁ in
      let (f₄, f₅) =
        append-injective (be_bytes 8 chain_id) (be_bytes 8 nonce ++ rest) (be_bytes 8 chain_id')
          (be_bytes 8 nonce' ++ rest')
          (length-be_bytes 8 chain_id ∙ sym (length-be_bytes 8 chain_id')) f₃ in
      let (f₆, f₇) =
        append-injective (be_bytes 8 nonce) rest (be_bytes 8 nonce') rest'
          (length-be_bytes 8 nonce ∙ sym (length-be_bytes 8 nonce')) f₅ in
      (
        id_byte-injective id id' (cc f₂),
        be_bytes-injective 8 chain_id chain_id' hc hc' f₄,
        be_bytes-injective 8 nonce nonce' hn hn' f₆,
        f₇,
      )
