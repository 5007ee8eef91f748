-- ===== src/UniversalNft/Tests/Chains.antt =====
-- A chain with one NFT and what happens on it: its owner sends it away and takes it back, a second
-- NFT arrives by a message, is sent away by its recipient, and comes back by a message.
use protocol_contracts_solan.Prelude.{◌≡◌, refl, some, none, [], ◌∷◌, replicate, eqb, if◌then◌else◌}
use protocol_contracts_solan.Prelude.Words.{Bytes, le_bytes}
use protocol_contracts_solan.Solana.Result.{ok}
use protocol_contracts_solan.Solana.Account.{Pubkey}
use protocol_contracts_solan.UniversalNft.State.{NftProgramState, NftInfo, zero_info, Chain}
use protocol_contracts_solan.UniversalNft.Contexts.{MintNft, TransferToZetachain, UnlockNft, OnCall}
use protocol_contracts_solan.UniversalNft.Accounts.{
  mint_key, nft_program_pda, nft_info_pda, nft_mint_pda, metadata_pda, try_nft_program,
  try_nft_info, try_token_account, init_token_account, ensure_token_account, try_payer,
  try_metadata, ensure_mint, ensure_nft_info, init_nft_info, try_mint_nft,
  try_transfer_to_zetachain, try_unlock_nft, try_on_call,
}
use protocol_contracts_solan.UniversalNft.Handlers
use protocol_contracts_solan.UniversalNft.OnCall
use protocol_contracts_solan.UniversalNft.OnCall.{
  create_if_empty, initialize_mint_if_new, create_metadata_if_empty, on_transfer, on_unlock,
}
use protocol_contracts_solan.UniversalNft.Program.{Instruction, process, settle}
use protocol_contracts_solan.UniversalNft.Tests.Runtime.{ata, nft_runtime}
use protocol_contracts_solan.Gateway.Tests.Accounts.{account}

abbrev pub after_one : Instruction → Chain → Chain
after_one ix c = settle nft_runtime (process nft_runtime ix c) c

abbrev pub first_mint : Pubkey
first_mint = 9 ∷ []

abbrev pub owner_key : Pubkey
owner_key = 5 ∷ []

abbrev pub program_key : Pubkey
program_key = (nft_program_pda nft_runtime).0

abbrev pub program : NftProgramState
program = record {
  authority = owner_key;
  gateway = b'g' ∷ [];
  total_supply = 1;
  nonce = 4;
  bump = 255;
}

abbrev pub first : NftInfo
first = record zero_info { mint = first_mint; owner = owner_key; bump = 255 }

abbrev pub start : Chain
start = record {
  program = some program;
  infos = λ k. if eqb k (nft_info_pda nft_runtime first_mint).0 then some first else none;
  world = record {
    lamports = λ k. 5_000_000_000;
    account_owner = λ k. b't' ∷ [];
    token = λ k.
        if eqb k (ata owner_key first_mint)
        then some (record { mint = first_mint; owner = owner_key; amount = 1 })
        else none;
    mint = λ k. if eqb k first_mint then some 1 else none;
  };
}

abbrev pub leave : Pubkey → Pubkey → TransferToZetachain
leave mint owner = record {
  nft_program = account program_key;
  nft_info = account (nft_info_pda nft_runtime mint).0;
  owner = account owner;
  owner_token_account = account (ata owner mint);
  program_token_account = account (ata program_key mint);
  token_program = account (b't' ∷ []);
  associated_token_program = account (b'a' ∷ []);
  system_program = account (b's' ∷ []);
}

abbrev pub take_back : UnlockNft
take_back = record {
  nft_program = account program_key;
  nft_info = account (nft_info_pda nft_runtime first_mint).0;
  owner = account owner_key;
  owner_token_account = account (ata owner_key first_mint);
  program_token_account = account (ata program_key first_mint);
  token_program = account (b't' ∷ []);
}

abbrev pub sending : Instruction
sending = Instruction.transfer_to_zetachain (leave first_mint owner_key) 7000 (3 ∷ []) 6

abbrev pub sent : Chain
sent = after_one sending start

pub sending_succeeds : process nft_runtime sending start ≡ ok sent
unfolding process try_transfer_to_zetachain try_nft_program try_nft_info try_token_account
    ensure_token_account init_token_account nft_program_pda nft_info_pda
    Handlers.transfer_to_zetachain eqb
sending_succeeds = refl

abbrev pub taking : Instruction
taking = Instruction.unlock_nft take_back 7

abbrev pub taken : Chain
taken = after_one taking sent

pub taking_succeeds : process nft_runtime taking sent ≡ ok taken
unfolding process try_transfer_to_zetachain try_nft_program try_nft_info try_token_account
    ensure_token_account init_token_account nft_program_pda nft_info_pda try_unlock_nft
    Handlers.transfer_to_zetachain Handlers.unlock_nft eqb
taking_succeeds = refl

abbrev pub new_mint : Pubkey
new_mint = 2 ∷ 2 ∷ []

abbrev pub create : MintNft
create = record {
  nft_program = account program_key;
  mint = account new_mint;
  token_account = account (ata owner_key new_mint);
  nft_info = account (nft_info_pda nft_runtime new_mint).0;
  metadata = account (metadata_pda nft_runtime new_mint).0;
  payer = account owner_key;
  rent = account (b'r' ∷ []);
  system_program = account (b's' ∷ []);
  token_program = account (b't' ∷ []);
  associated_token_program = account (b'a' ∷ []);
  token_metadata_program = account (b'm' ∷ []);
}

abbrev pub creating : Instruction
creating = Instruction.mint_nft create (1 ∷ []) (2 ∷ []) (3 ∷ []) owner_key

abbrev pub created : Chain
created = after_one creating start

pub creating_succeeds : process nft_runtime creating start ≡ ok created
unfolding process try_mint_nft try_payer try_nft_program init_token_account init_nft_info
    try_metadata nft_program_pda nft_info_pda metadata_pda Handlers.mint_nft eqb
creating_succeeds = refl

abbrev pub visitor : Pubkey
visitor = 6 ∷ []

abbrev pub sender : Bytes
sender = replicate 20 6

-- A transfer under the nonce 8, and an unlock under the nonce 10.
abbrev pub arrival : Bytes
arrival = 0 ∷ 8 ∷ visitor

abbrev pub return : Bytes
return = 1 ∷ 10 ∷ visitor

abbrev pub second_mint : Pubkey
second_mint = (nft_mint_pda nft_runtime (mint_key 0 sender arrival)).0

abbrev pub call : OnCall
call = record {
  nft_program = account program_key;
  mint = account second_mint;
  nft_info = account (nft_info_pda nft_runtime second_mint).0;
  metadata = account (metadata_pda nft_runtime second_mint).0;
  recipient_token_account = account (ata visitor second_mint);
  program_token_account = account (ata program_key second_mint);
  owner_token_account = account (ata visitor second_mint);
  payer = account owner_key;
  rent = account (b'r' ∷ []);
  system_program = account (b's' ∷ []);
  token_program = account (b't' ∷ []);
  associated_token_program = account (b'a' ∷ []);
  token_metadata_program = account (b'm' ∷ []);
  instruction_sysvar_account = account (b'i' ∷ []);
}

abbrev pub arriving : Instruction
arriving = Instruction.on_call call (some (b'g' ∷ [])) 0 sender arrival

abbrev pub arrived_chain : Chain
arrived_chain = after_one arriving start

pub arriving_succeeds : process nft_runtime arriving start ≡ ok arrived_chain
unfolding process try_on_call try_payer try_nft_program ensure_mint ensure_nft_info try_metadata
    mint_key nft_program_pda nft_info_pda nft_mint_pda metadata_pda OnCall.on_call on_transfer
    create_if_empty initialize_mint_if_new create_metadata_if_empty eqb le_bytes
arriving_succeeds = refl

abbrev pub leaving : Instruction
leaving = Instruction.transfer_to_zetachain (leave second_mint visitor) 7000 (3 ∷ []) 9

abbrev pub away : Chain
away = after_one leaving arrived_chain

pub leaving_succeeds : process nft_runtime leaving arrived_chain ≡ ok away
unfolding process try_on_call try_payer try_nft_program ensure_mint ensure_nft_info try_metadata
    mint_key nft_program_pda nft_info_pda nft_mint_pda metadata_pda OnCall.on_call on_transfer
    create_if_empty initialize_mint_if_new create_metadata_if_empty eqb le_bytes
    try_transfer_to_zetachain try_nft_info try_token_account ensure_token_account init_token_account
    Handlers.transfer_to_zetachain
leaving_succeeds = refl

abbrev pub returning : Instruction
returning = Instruction.on_call call (some (b'g' ∷ [])) 0 sender return

abbrev pub home : Chain
home = after_one returning away

pub returning_succeeds : process nft_runtime returning away ≡ ok home
unfolding process try_on_call try_payer try_nft_program ensure_mint ensure_nft_info try_metadata
    mint_key nft_program_pda nft_info_pda nft_mint_pda metadata_pda OnCall.on_call on_transfer
    create_if_empty initialize_mint_if_new create_metadata_if_empty eqb le_bytes on_unlock
    try_transfer_to_zetachain try_nft_info try_token_account ensure_token_account init_token_account
    Handlers.transfer_to_zetachain
returning_succeeds = refl
