-- ===== src/UniversalNft/Accounts.antt =====
-- programs/universal_nft/src/lib.rs: the constraints that are checked, and the accounts that are
-- created, before a handler runs. `try_x` is the check of the context `X`. The bump that an account
-- stores is the canonical one of its address, which is all that the handlers store.
pub mod Loaded
pub mod Created
use protocol_contracts_solan.Prelude.{
  ℕ, ◌+◌, ◌%◌, Bool, true, false, Option, none, some, List, [], ◌∷◌, ◌++◌, length, eqb,
  if◌then◌else◌,
}
use protocol_contracts_solan.Prelude.Words.{Bytes, le_bytes, u32_mod}
use protocol_contracts_solan.Solana.Result.{
  Result, ok, err, constraint, constraint_mut, constraint_signer, constraint_seeds, constraint_raw,
  constraint_address, constraint_associated, constraint_program, account_not_initialized,
  account_in_use, ◌>>=◌, ◌>>◌, constrain, external_call,
}
use protocol_contracts_solan.Solana.Account.{Pubkey, AccountInfo, TokenAccount, World}
use protocol_contracts_solan.UniversalNft.State.{
  NftProgramState, NftInfo, zero_info, program_space, info_space, NftError, Chain,
}
use protocol_contracts_solan.UniversalNft.Runtime.{NftRuntime}
use protocol_contracts_solan.UniversalNft.Contexts.{
  Initialize, MintNft, TransferToZetachain, HandleCrossChainCall, UnlockNft, OnCall,
}

abbrev pub nft_program_seed : Bytes
nft_program_seed = b'n' ∷ b'f' ∷ b't' ∷ b'-' ∷ b'p' ∷ b'r' ∷ b'o' ∷ b'g' ∷ b'r' ∷ b'a' ∷ b'm' ∷ []

abbrev pub nft_info_seed : Bytes
nft_info_seed = b'n' ∷ b'f' ∷ b't' ∷ b'-' ∷ b'i' ∷ b'n' ∷ b'f' ∷ b'o' ∷ []

abbrev pub nft_mint_seed : Bytes
nft_mint_seed = b'n' ∷ b'f' ∷ b't' ∷ b'-' ∷ b'm' ∷ b'i' ∷ b'n' ∷ b't' ∷ []

abbrev pub metadata_seed : Bytes
metadata_seed = b'm' ∷ b'e' ∷ b't' ∷ b'a' ∷ b'd' ∷ b'a' ∷ b't' ∷ b'a' ∷ []

-- `#[instruction(mint_key: Pubkey)]` reads by position: the first 32 bytes of the arguments of
-- `on_call` are the amount, the sender and the length of the data.
unfoldable pub mint_key : ℕ → Bytes → Bytes → Pubkey
mint_key amount sender input = le_bytes 8 amount ++ (sender ++ le_bytes 4 (length input % u32_mod))

-- An account that the context marks as a token account of a mint and an owner.
abbrev pub is_token_account : World → Pubkey → Pubkey → Pubkey → Bool
is_token_account w account mint owner = elim (w.token account) [
  | none ↦ false
  | some t ↦ if eqb t.mint mint then eqb t.owner owner else false
]

module _ (nrt : NftRuntime) where
  -- Addresses, each with its bump.
  unfoldable pub nft_program_pda : Pubkey × ℕ
  nft_program_pda = nrt.base.find_program_address (nft_program_seed ∷ []) nrt.nft_id

  unfoldable pub nft_info_pda : Pubkey → Pubkey × ℕ
  nft_info_pda mint = nrt.base.find_program_address (nft_info_seed ∷ mint ∷ []) nrt.nft_id

  unfoldable pub nft_mint_pda : Pubkey → Pubkey × ℕ
  nft_mint_pda key = nrt.base.find_program_address (nft_mint_seed ∷ key ∷ []) nrt.nft_id

  unfoldable pub metadata_pda : Pubkey → Pubkey × ℕ
  metadata_pda mint =
      nrt.base.find_program_address (metadata_seed ∷ nrt.token_metadata_program_id ∷ mint ∷ [])
        nrt.token_metadata_program_id

  abbrev pub try_key : AccountInfo → Pubkey → Result NftError (Unit {0})
  try_key info key = constrain (eqb info.key key) constraint_seeds

  -- `Program<..>` and `Sysvar<..>`.
  abbrev pub try_id : AccountInfo → Pubkey → Result NftError (Unit {0})
  try_id info id = constrain (eqb info.key id) constraint_program

  unfoldable pub try_nft_program : AccountInfo → Chain → Result NftError NftProgramState
  unfolding nft_program_pda
  try_nft_program info c = do
    constrain info.is_writable constraint_mut
    try_key info nft_program_pda.0
    elim c.program [ none ↦ err (constraint account_not_initialized) | some p ↦ ok p ]

  -- `mut, seeds = [b"nft-info", nft_info.mint], constraint = nft_info.owner == owner.key()`.
  unfoldable pub try_nft_info : AccountInfo → AccountInfo → Chain → Result NftError NftInfo
  unfolding nft_info_pda
  try_nft_info info owner c = do
    constrain info.is_writable constraint_mut
    i ← elim (c.infos info.key) [ none ↦ err (constraint account_not_initialized) | some i ↦ ok i ]
    try_key info (nft_info_pda i.mint).0
    constrain (eqb i.owner owner.key) constraint_raw
    constrain owner.is_signer constraint_signer
    ok i

  -- `mut, associated_token::mint = .., associated_token::authority = ..`.
  unfoldable pub try_token_account :
      AccountInfo → Pubkey → Pubkey → World → Result NftError (Unit {0})
  try_token_account info wallet mint w = do
    constrain info.is_writable constraint_mut
    constrain (is_token_account w info.key mint wallet) constraint_associated
    constrain (eqb info.key (nrt.base.get_associated_token_address wallet mint))
        constraint_associated

  -- `init` of an associated token account.
  unfoldable pub init_token_account :
      AccountInfo → Pubkey → Pubkey → Pubkey → World → Result NftError World
  init_token_account info payer wallet mint w = do
    constrain info.is_writable constraint_mut
    constrain (eqb info.key (nrt.base.get_associated_token_address wallet mint))
        constraint_associated
    external_call (nrt.base.create_associated_token_account payer wallet mint w)

  -- `init_if_needed` of an associated token account.
  unfoldable pub ensure_token_account :
      AccountInfo → Pubkey → Pubkey → Pubkey → World → Result NftError World
  unfolding init_token_account try_token_account
  ensure_token_account info payer wallet mint w = elim (w.token info.key) [
    | none ↦ init_token_account info payer wallet mint w
    | some t ↦ (do try_token_account info wallet mint w; ok w)
  ]

  -- `#[account(mut)] payer: Signer`.
  unfoldable pub try_payer : AccountInfo → Result NftError (Unit {0})
  try_payer info = do
    constrain info.is_signer constraint_signer
    constrain info.is_writable constraint_mut

  -- `init` of the info account of a mint.
  unfoldable pub init_nft_info :
      AccountInfo → Pubkey → Pubkey → Chain → World → Result NftError World
  unfolding nft_info_pda
  init_nft_info info payer mint c w = do
    constrain info.is_writable constraint_mut
    try_key info (nft_info_pda mint).0
    elim (c.infos info.key) [ none ↦ ok tt | some i ↦ err (constraint account_in_use) ]
    external_call (nrt.base.create_account payer info.key (8 + info_space) w)

  unfoldable pub try_metadata : AccountInfo → Pubkey → Result NftError (Unit {0})
  unfolding metadata_pda
  try_metadata info mint = do
    constrain info.is_writable constraint_mut
    try_key info (metadata_pda mint).0

  unfoldable pub try_initialize : Initialize → Chain → Result NftError World
  unfolding nft_program_pda try_payer
  try_initialize ctx c = do
    try_payer ctx.authority
    constrain ctx.nft_program.is_writable constraint_mut
    try_key ctx.nft_program nft_program_pda.0
    elim c.program [ none ↦ ok tt | some p ↦ err (constraint account_in_use) ]
    try_id ctx.system_program nrt.base.system_program_id
    external_call
        (nrt.base.create_account ctx.authority.key ctx.nft_program.key (8 + program_space) c.world)

  unfoldable pub try_mint_nft : MintNft → Pubkey → Chain → Result NftError (NftProgramState × World)
  unfolding try_payer try_nft_program init_token_account init_nft_info try_metadata
  try_mint_nft ctx recipient c = do
    try_payer ctx.payer
    program ← try_nft_program ctx.nft_program c
    constrain ctx.mint.is_writable constraint_mut
    w₁ ← external_call (nrt.create_mint ctx.payer.key ctx.mint.key 0 ctx.nft_program.key c.world)
    w₂ ← init_token_account ctx.token_account ctx.payer.key recipient ctx.mint.key w₁
    w₃ ← init_nft_info ctx.nft_info ctx.payer.key ctx.mint.key c w₂
    try_metadata ctx.metadata ctx.mint.key
    try_id ctx.rent nrt.rent_id
    try_id ctx.system_program nrt.base.system_program_id
    try_id ctx.token_program nrt.base.token_program_id
    try_id ctx.associated_token_program nrt.base.associated_token_program_id
    try_id ctx.token_metadata_program nrt.token_metadata_program_id
    ok (program, w₃)

  unfoldable pub try_transfer_to_zetachain :
      TransferToZetachain → Chain → Result NftError (NftProgramState × NftInfo × World)
  unfolding try_nft_program try_nft_info try_token_account ensure_token_account
  try_transfer_to_zetachain ctx c = do
    program ← try_nft_program ctx.nft_program c
    i ← try_nft_info ctx.nft_info ctx.owner c
    try_token_account ctx.owner_token_account ctx.owner.key i.mint c.world
    w ←
        ensure_token_account ctx.program_token_account ctx.owner.key ctx.nft_program.key i.mint
          c.world
    try_id ctx.token_program nrt.base.token_program_id
    try_id ctx.associated_token_program nrt.base.associated_token_program_id
    try_id ctx.system_program nrt.base.system_program_id
    ok (program, i, w)

  unfoldable pub try_handle_cross_chain_call :
      HandleCrossChainCall → Chain → Result NftError NftProgramState
  unfolding try_nft_program
  try_handle_cross_chain_call ctx c = try_nft_program ctx.nft_program c

  unfoldable pub try_unlock_nft : UnlockNft → Chain → Result NftError (NftProgramState × NftInfo)
  unfolding try_nft_program try_nft_info try_token_account
  try_unlock_nft ctx c = do
    program ← try_nft_program ctx.nft_program c
    i ← try_nft_info ctx.nft_info ctx.owner c
    try_token_account ctx.owner_token_account ctx.owner.key i.mint c.world
    try_token_account ctx.program_token_account ctx.nft_program.key i.mint c.world
    try_id ctx.token_program nrt.base.token_program_id
    ok (program, i)

  -- `init_if_needed` of the mint of `on_call` at the address of `key`, and its supply once it is
  -- loaded.
  unfoldable pub ensure_mint : AccountInfo → Pubkey → Pubkey → World → Result NftError (ℕ × World)
  unfolding nft_mint_pda
  ensure_mint info payer key w = do
    constrain info.is_writable constraint_mut
    try_key info (nft_mint_pda key).0
    w' ← elim (w.mint info.key) [
      | none ↦ external_call (nrt.allocate_mint payer info.key 82 w)
      | some supply ↦ ok w
    ]
    elim (w'.mint info.key) [
      | none ↦ err (constraint account_not_initialized)
      | some supply ↦ ok (supply, w')
    ]

  -- `init_if_needed` of the info account of `on_call`.
  unfoldable pub ensure_nft_info :
      AccountInfo → Pubkey → Pubkey → Chain → World → Result NftError (NftInfo × World)
  unfolding nft_info_pda
  ensure_nft_info info payer mint c w = do
    constrain info.is_writable constraint_mut
    try_key info (nft_info_pda mint).0
    elim (c.infos info.key) [
      | none ↦ (do
        w' ← external_call (nrt.base.create_account payer info.key (8 + info_space) w)
        ok (zero_info, w'))
      | some i ↦ ok (i, w)
    ]

  unfoldable pub try_on_call :
      OnCall → ℕ → Bytes → Bytes → Chain → Result NftError (NftProgramState × NftInfo × ℕ × World)
  unfolding try_payer try_nft_program ensure_mint ensure_nft_info mint_key try_metadata
  try_on_call ctx amount sender input c = do
    try_payer ctx.payer
    program ← try_nft_program ctx.nft_program c
    (supply, w₁) ← ensure_mint ctx.mint ctx.payer.key (mint_key amount sender input) c.world
    (i, w₂) ← ensure_nft_info ctx.nft_info ctx.payer.key ctx.mint.key c w₁
    try_metadata ctx.metadata ctx.mint.key
    try_id ctx.rent nrt.rent_id
    try_id ctx.system_program nrt.base.system_program_id
    try_id ctx.token_program nrt.base.token_program_id
    try_id ctx.associated_token_program nrt.base.associated_token_program_id
    try_id ctx.token_metadata_program nrt.token_metadata_program_id
    constrain (eqb ctx.instruction_sysvar_account.key nrt.instructions_id) constraint_address
    ok (program, i, supply, w₂)
