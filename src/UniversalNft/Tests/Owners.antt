-- ===== src/UniversalNft/Tests/Owners.antt =====
-- Runs of the owner's instructions of programs/universal_nft/src/lib.rs.
use protocol_contracts_solan.Prelude.{Option, none, ◌≡◌, true, false, some, [], ◌∷◌}
use protocol_contracts_solan.Solana.Account.{World}
use protocol_contracts_solan.UniversalNft.State.{NftProgramState, NftInfo}
use protocol_contracts_solan.UniversalNft.Accounts.{nft_info_pda}
use protocol_contracts_solan.UniversalNft.Handlers
use protocol_contracts_solan.UniversalNft.Program.Locking.{
  locked_to, unlocked, Took, custody_account, wallet_account, transfer_locks, unlock_returns,
}
use protocol_contracts_solan.UniversalNft.Program.Minting.{new_info, Fits, Minted, mint_nft_mints}
use protocol_contracts_solan.Gateway.Tests.Runtime.{set_token, transfer_tokens}
use protocol_contracts_solan.UniversalNft.Tests.Runtime.{nft_runtime, nft_laws, ata}
use protocol_contracts_solan.UniversalNft.Tests.Chains.{
  first_mint, owner_key, program_key, first, start, leave, take_back, sent, sending_succeeds, taken,
  taking_succeeds, new_mint, create, created, creating_succeeds,
}

transfer_locks_example :
    (p : NftProgramState) × (i : NftInfo) × (true ≡ true)
    × (i.is_locked ≡ false)
    × Took nft_runtime start sent
        (nft_info_pda nft_runtime first_mint).0
        owner_key
        6
        p
        i
        (locked_to (3 ∷ []) i)
        (wallet_account nft_runtime owner_key i.mint)
        (custody_account nft_runtime i.mint)
transfer_locks_example =
    transfer_locks nft_runtime nft_laws (leave first_mint owner_key) 7000 (3 ∷ []) 6 start sent
      sending_succeeds

unlock_returns_example :
    (p : NftProgramState) × (i : NftInfo) × (true ≡ true)
    × (i.is_locked ≡ true)
    × Took nft_runtime sent taken
        (nft_info_pda nft_runtime first_mint).0
        owner_key
        7
        p
        i
        (unlocked i)
        (custody_account nft_runtime i.mint)
        (wallet_account nft_runtime owner_key i.mint)
unlock_returns_example = unlock_returns nft_runtime nft_laws take_back 7 sent taken taking_succeeds

mint_nft_mints_example :
    (p : NftProgramState) × Fits (1 ∷ []) (2 ∷ []) (3 ∷ [])
    × Minted nft_runtime start created
        (nft_info_pda nft_runtime new_mint).0
        p
        (new_info new_mint
          (1 ∷ [])
          (2 ∷ [])
          (3 ∷ [])
          owner_key
          (nft_info_pda nft_runtime new_mint).1)
        (ata owner_key new_mint)
mint_nft_mints_example =
    mint_nft_mints nft_runtime nft_laws create (1 ∷ []) (2 ∷ []) (3 ∷ []) owner_key start created
      creating_succeeds

-- A world in which the program has an associated account for the NFT.
abbrev ready : World
ready =
    set_token (ata program_key first_mint)
      (record { mint = first_mint; owner = program_key; amount = 0 }) start.world

abbrev or_same : Option World → World → World
or_same none w = w
or_same (some w') w = w'

abbrev moved_away : World
moved_away =
    or_same (transfer_tokens (ata owner_key first_mint) (ata program_key first_mint) 1 ready) ready

abbrev moved_back : World
moved_back =
    or_same (transfer_tokens (ata program_key first_mint) (ata owner_key first_mint) 1 moved_away)
      ready

abbrev locked_first : NftInfo
locked_first = locked_to (3 ∷ []) first
