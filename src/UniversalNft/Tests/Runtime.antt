-- ===== src/UniversalNft/Tests/Runtime.antt =====
-- A runtime to run the NFT program on, which keeps its laws: an associated address is its owner and
-- its mint behind the owner's length, and a message is its kind, its nonce and its recipient.
use protocol_contracts_solan.Prelude.{
  append-injective, ℕ, ◌+◌, ◌≡◌, refl, Bool, true, false, Option, none, some, [], ◌∷◌, ◌++◌, inl,
  inr, length, eqb_refl, eqb_iff, ◌==◌, Option-cases, if◌then◌else◌, arith,
}
use protocol_contracts_solan.Prelude.Words.{Bytes}
use protocol_contracts_solan.Solana.Account.{Pubkey, TokenAccount, World, update}
use protocol_contracts_solan.Solana.Runtime.{Runtime}
use protocol_contracts_solan.Solana.Laws.{RuntimeLaws, AtaCreated}
use protocol_contracts_solan.UniversalNft.State.{CrossChainMessage, transfer, unlock}
use protocol_contracts_solan.UniversalNft.Runtime.{NftRuntime, NftLaws, TokensMinted}
use protocol_contracts_solan.Gateway.Tests.Runtime.{
  set_token, transfer_tokens, transfer_tokens-TokensMoved, test_runtime, test_laws,
}

abbrev pub ata : Pubkey → Pubkey → Pubkey
ata wallet mint = length wallet ∷ (wallet ++ mint)

abbrev create_ata : Pubkey → Pubkey → World → Option World
create_ata wallet mint w = elim (w.token (ata wallet mint)) [
  | none ↦ some (set_token (ata wallet mint) (record { mint = mint; owner = wallet; amount = 0 }) w)
  | some t ↦ none
]

abbrev pub set_mint : Pubkey → ℕ → World → World
set_mint mint supply w = record w { mint = update w.mint mint (some supply) }

abbrev new_mint : Pubkey → World → Option World
new_mint mint w = elim (w.mint mint) [ none ↦ some (set_mint mint 0 w) | some n ↦ none ]

abbrev minted : Pubkey → Pubkey → ℕ → World → ℕ → TokenAccount → World
minted mint to n w supply t =
    set_mint mint (supply + n) (set_token to (record t { amount = t.amount + n }) w)

abbrev mint_tokens : Pubkey → Pubkey → ℕ → World → Option World
mint_tokens mint to n w = elim (w.mint mint) [
  | none ↦ none
  | some supply ↦ elim (w.token to) [ none ↦ none | some t ↦ some (minted mint to n w supply t) ]
]

abbrev pub parse : Bytes → Option CrossChainMessage
parse [] = none
parse (kind ∷ []) = none
parse (kind ∷ nonce ∷ recipient) = some (record {
  message_type = if kind == 0 then transfer else unlock;
  mint = 9 ∷ [];
  recipient = recipient;
  metadata_uri = 7 ∷ [];
  name = 8 ∷ [];
  symbol = [];
  nonce = nonce;
})

abbrev is_empty : Pubkey → World → Bool
is_empty key w = elim (w.token key) [ none ↦ true | some t ↦ false ]

abbrev pub nft_base : Runtime
nft_base = record test_runtime {
  get_associated_token_address = ata;
  create_associated_token_account = λ payer wallet mint w. create_ata wallet mint w;
}

abbrev pub nft_runtime : NftRuntime
nft_runtime = record {
  base = nft_base;
  nft_id = b'n' ∷ [];
  token_metadata_program_id = b'm' ∷ [];
  rent_id = b'r' ∷ [];
  instructions_id = b'i' ∷ [];
  try_from_slice = parse;
  try_to_vec = λ m. some (m.nonce ∷ m.recipient);
  create_mint = λ payer mint decimals authority w. new_mint mint w;
  allocate_mint = λ payer mint space w. new_mint mint w;
  initialize_mint = λ mint seeds decimals authority freeze w. some w;
  mint_to = λ mint to authority seeds n w. mint_tokens mint to n w;
  transfer_signed = λ from to authority seeds n w. transfer_tokens from to n w;
  create_metadata = λ metadata mint authority payer seeds d w. some w;
  data_is_empty = is_empty;
}

module _ (wallet mint : Pubkey) (w w' : World) (h : create_ata wallet mint w ≡ some w') where
  create_ata-new : w.token (ata wallet mint) ≡ none
  create_ata-new = ground arith

  create_ata-AtaCreated : (payer : Pubkey) → AtaCreated payer (ata wallet mint) w w'
  create_ata-AtaCreated payer =
      let left : set_token (ata wallet mint) (record { mint = mint; owner = wallet; amount = 0 }) w
          ≡ w' =
        ground (arith, create_ata-new) in
      rw (← left) (record {
        paid = omega arith;
        lamports = λ k p q. refl;
        tokens = λ k p. ground (arith, eqb_iff k (ata wallet mint));
        empty = ground (arith, eqb_refl (ata wallet mint));
      })

new_mint_tokens : (mint : Pubkey) (w w' : World) → new_mint mint w ≡ some w' → w'.token ≡ w.token
new_mint_tokens mint w w' h = elim (Option-cases (w.mint mint)) [
  | inl missing ↦ ground (arith, missing)
  | inr (n, found) ↦ absurd (ground (arith, found))
]

module _ (mint to : Pubkey) (n : ℕ) (w w' : World) where
  minted-TokensMinted :
      (supply : ℕ) (t : TokenAccount)
      → w.mint mint ≡ some supply
      → w.token to ≡ some t
      → minted mint to n w supply t ≡ w'
      → TokensMinted mint to n w w'
  minted-TokensMinted supply t f g left = rw (← left) (record {
    supply = λ s e. ground (arith, f, e, eqb_refl mint);
    given = ground (arith, g, eqb_refl to);
    tokens = λ k p. ground (arith, eqb_iff k to);
  })

  mint_tokens-TokensMinted : mint_tokens mint to n w ≡ some w' → TokensMinted mint to n w w'
  mint_tokens-TokensMinted h = elim (Option-cases (w.mint mint)) [
    | inl f ↦ absurd (ground (arith, f))
    | inr (supply, f) ↦ elim (Option-cases (w.token to)) [
      | inl g ↦ absurd (ground (arith, f, g))
      | inr (t, g) ↦ minted-TokensMinted supply t f g (ground (arith, f, g))
    ]
  ]

base_laws : RuntimeLaws nft_base
base_laws = record {
  sub_lamports_eq = test_laws.sub_lamports_eq;
  add_lamports_eq = test_laws.add_lamports_eq;
  system_transfer_covered = test_laws.system_transfer_covered;
  system_transfer_eq = test_laws.system_transfer_eq;
  token_transfer_moves = test_laws.token_transfer_moves;
  transfer_checked_moves = test_laws.transfer_checked_moves;
  create_associated_token_account_pays =
      λ payer wallet mint w w' h. create_ata-AtaCreated wallet mint w w' h payer;
  invoke_lamports = test_laws.invoke_lamports;
  invoke_token = test_laws.invoke_token;
}

pub nft_laws : NftLaws nft_runtime
nft_laws = record {
  base = base_laws;
  mint_to_mints = λ mint to authority seeds n w w' h. mint_tokens-TokensMinted mint to n w w' h;
  transfer_signed_moves =
      λ from to authority seeds n w w' h. transfer_tokens-TokensMoved from to n w w' h;
  create_account_tokens = λ payer account space w w' h.
      ground (arith, test_laws.system_transfer_eq payer account 2_039_280 w w' h);
  create_mint_tokens = λ payer mint decimals authority w w' h. new_mint_tokens mint w w' h;
  allocate_mint_tokens = λ payer mint space w w' h. new_mint_tokens mint w w' h;
  initialize_mint_tokens = λ mint seeds decimals authority freeze w w' h. ground arith;
  create_metadata_tokens = λ metadata mint authority payer seeds d w w' h. ground arith;
  ata_new = λ payer wallet mint w w' h. create_ata-new wallet mint w w' h;
  ata-injective = λ wallet wallet' mint mint' e.
      append-injective wallet mint wallet' mint' (ground arith) (ground arith);
}
