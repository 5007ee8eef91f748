-- ===== src/Gateway/Accounts.antt =====
-- programs/gateway/src/contexts.rs: the constraints that are checked before a handler runs.
-- `try_x` is the check of the context `X`; it loads the account of the gateway.
pub mod Loaded
use protocol_contracts_solan.Prelude.{
  ◌+◌, Bool, not, true, false, Option, none, some, List, [], ◌∷◌, eqb,
}
use protocol_contracts_solan.Prelude.Words.{Bytes}
use protocol_contracts_solan.Solana.Result.{
  Result, ok, err, constraint, constraint_mut, constraint_signer, constraint_seeds, constraint_raw,
  constraint_associated, constraint_program, account_not_initialized, account_in_use, ◌>>=◌, ◌>>◌,
  constrain, external_call,
}
use protocol_contracts_solan.Solana.Account.{Pubkey, AccountInfo, TokenAccount, World}
use protocol_contracts_solan.Solana.Runtime.{Runtime}
use protocol_contracts_solan.Gateway.Errors.{Errors}
use protocol_contracts_solan.Gateway.State.{Pda}
use protocol_contracts_solan.Gateway.Contexts.{
  State, Initialize, Execute, SignerAndPda, Deposit, DepositSplToken, Call, Withdraw,
  WithdrawSplToken, ExecuteSplToken, Whitelist, Unwhitelist,
}

abbrev pub meta_seed : Bytes
meta_seed = b'm' ∷ b'e' ∷ b't' ∷ b'a' ∷ []

abbrev pub whitelist_seed : Bytes
whitelist_seed = b'w' ∷ b'h' ∷ b'i' ∷ b't' ∷ b'e' ∷ b'l' ∷ b'i' ∷ b's' ∷ b't' ∷ []

abbrev pub connected_seed : Bytes
connected_seed = b'c' ∷ b'o' ∷ b'n' ∷ b'n' ∷ b'e' ∷ b'c' ∷ b't' ∷ b'e' ∷ b'd' ∷ []

-- `#[account(mut)] signer: Signer`.
unfoldable pub try_signer : AccountInfo → Result Errors (Unit {0})
try_signer info = do
  constrain info.is_signer constraint_signer
  constrain info.is_writable constraint_mut

abbrev pub is_token_of : World → AccountInfo → (TokenAccount → Bool) → Bool
is_token_of w info p = elim (w.token info.key) [ none ↦ false | some t ↦ p t ]

abbrev pub is_mint : World → AccountInfo → Bool
is_mint w info = elim (w.mint info.key) [ none ↦ false | some supply ↦ true ]

module _ (rt : Runtime) where
  -- The address of the account of the gateway.
  unfoldable pub gateway_pda : Pubkey
  gateway_pda = (rt.find_program_address (meta_seed ∷ []) rt.gateway_id).0

  unfoldable pub whitelist_entry_of : Pubkey → Pubkey
  whitelist_entry_of mint = (rt.find_program_address (whitelist_seed ∷ mint ∷ []) rt.gateway_id).0

  unfoldable pub connected_pda : Pubkey → Pubkey
  connected_pda program = (rt.find_program_address (connected_seed ∷ []) program).0

  -- `#[account(mut, seeds = [b"meta"], bump)] pda: Account<Pda>`.
  unfoldable pub try_pda : AccountInfo → State → Result Errors Pda
  unfolding gateway_pda
  try_pda info s = do
    constrain info.is_writable constraint_mut
    constrain (eqb info.key gateway_pda) constraint_seeds
    elim s.pda [ none ↦ err (constraint account_not_initialized) | some pda ↦ ok pda ]

  -- `Program<System>`, `Program<Token>` and `Program<AssociatedToken>`.
  unfoldable pub try_program : AccountInfo → Pubkey → Result Errors (Unit {0})
  try_program info id = constrain (eqb info.key id) constraint_program

  -- `init` pays for the account: 72 bytes of `size_of::<Pda>()` and 8 of the discriminator.
  unfoldable pub try_initialize : Initialize → State → Result Errors World
  unfolding try_signer try_program gateway_pda
  try_initialize ctx s = do
    try_signer ctx.signer
    constrain ctx.pda.is_writable constraint_mut
    constrain (eqb ctx.pda.key gateway_pda) constraint_seeds
    elim s.pda [ none ↦ ok tt | some pda ↦ err (constraint account_in_use) ]
    try_program ctx.system_program rt.system_program_id
    external_call (rt.create_account ctx.signer.key ctx.pda.key (72 + 8) s.world)

  -- `IncrementNonce`, `UpdateTss`, `UpdateAuthority`, `ResetNonce` and `UpdatePaused`.
  unfoldable pub try_signer_and_pda : SignerAndPda → State → Result Errors Pda
  unfolding try_signer try_pda
  try_signer_and_pda ctx s = do try_signer ctx.signer; try_pda ctx.pda s

  unfoldable pub try_execute : Execute → State → Result Errors Pda
  unfolding try_signer try_pda connected_pda
  try_execute ctx s = do
    try_signer ctx.signer
    pda ← try_pda ctx.pda s
    constrain ctx.destination_program_pda.is_writable constraint_mut
    constrain (eqb ctx.destination_program_pda.key (connected_pda ctx.destination_program.key))
        constraint_seeds
    ok pda

  unfoldable pub try_deposit : Deposit → State → Result Errors Pda
  unfolding try_signer try_pda try_program
  try_deposit ctx s = do
    try_signer ctx.signer
    pda ← try_pda ctx.pda s
    try_program ctx.system_program rt.system_program_id
    ok pda

  unfoldable pub try_deposit_spl_token : DepositSplToken → State → Result Errors Pda
  unfolding try_signer try_pda try_program whitelist_entry_of
  try_deposit_spl_token ctx s = do
    try_signer ctx.signer
    pda ← try_pda ctx.pda s
    constrain (eqb ctx.whitelist_entry.key (whitelist_entry_of ctx.mint_account.key))
        constraint_seeds
    constrain (s.entries ctx.whitelist_entry.key) account_not_initialized
    constrain (is_mint s.world ctx.mint_account) account_not_initialized
    try_program ctx.token_program rt.token_program_id
    constrain ctx.from.is_writable constraint_mut
    constrain (is_token_of s.world ctx.from (λ t. eqb t.mint ctx.mint_account.key)) constraint_raw
    constrain ctx.to.is_writable constraint_mut
    constrain (is_token_of s.world ctx.to (λ t. true)) account_not_initialized
    try_program ctx.system_program rt.system_program_id
    ok pda

  unfoldable pub try_call : Call → Result Errors (Unit {0})
  unfolding try_signer
  try_call ctx = try_signer ctx.signer

  unfoldable pub try_withdraw : Withdraw → State → Result Errors Pda
  unfolding try_signer try_pda
  try_withdraw ctx s = do
    try_signer ctx.signer
    pda ← try_pda ctx.pda s
    constrain ctx.recipient.is_writable constraint_mut
    ok pda

  -- `associated_token::mint = mint_account, associated_token::authority = pda`.
  unfoldable pub try_pda_ata :
      AccountInfo → AccountInfo → AccountInfo → State → Result Errors (Unit {0})
  try_pda_ata ata mint_account pda s = do
    constrain ata.is_writable constraint_mut
    constrain (is_token_of s.world ata (λ t. eqb t.owner pda.key)) constraint_associated
    constrain (eqb ata.key (rt.get_associated_token_address pda.key mint_account.key))
        constraint_associated
    constrain (is_mint s.world mint_account) account_not_initialized

  unfoldable pub try_withdraw_spl_token : WithdrawSplToken → State → Result Errors Pda
  unfolding try_signer try_pda try_program try_pda_ata
  try_withdraw_spl_token ctx s = do
    try_signer ctx.signer
    pda ← try_pda ctx.pda s
    try_pda_ata ctx.pda_ata ctx.mint_account ctx.pda s
    constrain ctx.recipient_ata.is_writable constraint_mut
    try_program ctx.token_program rt.token_program_id
    try_program ctx.associated_token_program rt.associated_token_program_id
    try_program ctx.system_program rt.system_program_id
    ok pda

  unfoldable pub try_execute_spl_token : ExecuteSplToken → State → Result Errors Pda
  unfolding try_signer try_pda try_program try_pda_ata connected_pda
  try_execute_spl_token ctx s = do
    try_signer ctx.signer
    pda ← try_pda ctx.pda s
    try_pda_ata ctx.pda_ata ctx.mint_account ctx.pda s
    constrain ctx.destination_program_pda.is_writable constraint_mut
    constrain (eqb ctx.destination_program_pda.key (connected_pda ctx.destination_program.key))
        constraint_seeds
    constrain ctx.destination_program_pda_ata.is_writable constraint_mut
    try_program ctx.token_program rt.token_program_id
    try_program ctx.associated_token_program rt.associated_token_program_id
    try_program ctx.system_program rt.system_program_id
    ok pda

  -- `init` pays for the entry, which holds 8 bytes.
  unfoldable pub try_whitelist : Whitelist → State → Result Errors (Pda × World)
  unfolding try_signer try_pda try_program whitelist_entry_of
  try_whitelist ctx s = do
    try_signer ctx.authority
    pda ← try_pda ctx.pda s
    constrain (eqb ctx.whitelist_entry.key (whitelist_entry_of ctx.whitelist_candidate.key))
        constraint_seeds
    constrain (not (s.entries ctx.whitelist_entry.key)) account_in_use
    constrain (is_mint s.world ctx.whitelist_candidate) account_not_initialized
    try_program ctx.system_program rt.system_program_id
    w ← external_call (rt.create_account ctx.authority.key ctx.whitelist_entry.key 8 s.world)
    ok (pda, w)

  unfoldable pub try_unwhitelist : Unwhitelist → State → Result Errors Pda
  unfolding try_signer try_pda whitelist_entry_of
  try_unwhitelist ctx s = do
    try_signer ctx.authority
    pda ← try_pda ctx.pda s
    constrain ctx.whitelist_entry.is_writable constraint_mut
    constrain (eqb ctx.whitelist_entry.key (whitelist_entry_of ctx.whitelist_candidate.key))
        constraint_seeds
    constrain (s.entries ctx.whitelist_entry.key) account_not_initialized
    constrain (is_mint s.world ctx.whitelist_candidate) account_not_initialized
    ok pda
