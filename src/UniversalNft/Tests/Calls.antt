-- ===== src/UniversalNft/Tests/Calls.antt =====
-- Runs of `on_call` of programs/universal_nft/src/lib.rs.
use protocol_contracts_solan.Prelude.{◌≢◌, ◌⊎◌, none, eqb, ◌≡◌, refl, some, [], ◌∷◌}
use protocol_contracts_solan.Prelude.Words.{Bytes}
use protocol_contracts_solan.Solana.Result.{err, custom}
use protocol_contracts_solan.UniversalNft.OnCall
use protocol_contracts_solan.UniversalNft.Program.Errors.{Refused, on_call_errors}
use protocol_contracts_solan.UniversalNft.State.{
  invalid_nonce, invalid_message, unauthorized, NftProgramState, NftInfo, CrossChainMessage,
  transfer, unlock,
}
use protocol_contracts_solan.UniversalNft.Accounts.{mint_key, nft_info_pda}
use protocol_contracts_solan.UniversalNft.Program.Calls.{arrived}
use protocol_contracts_solan.UniversalNft.Program.Messages.{
  Called, Arrived, Returned, on_call_mints, on_call_unlocks,
}
use protocol_contracts_solan.UniversalNft.Tests.Runtime.{nft_runtime, nft_laws, ata}
use protocol_contracts_solan.UniversalNft.Tests.Chains.{
  program, first, start, visitor, sender, arrival, return, second_mint, call, arrived_chain,
  arriving_succeeds, away, home, returning_succeeds,
}

abbrev arrival_message : CrossChainMessage
arrival_message = record {
  message_type = transfer;
  mint = 9 ∷ [];
  recipient = visitor;
  metadata_uri = 7 ∷ [];
  name = 8 ∷ [];
  symbol = [];
  nonce = 8;
}

abbrev return_message : CrossChainMessage
return_message = record arrival_message { message_type = unlock; nonce = 10 }

on_call_mints_example :
    (p : NftProgramState) × (i : NftInfo) × Called nft_runtime call
      (some (b'g' ∷ []))
      (mint_key 0 sender arrival)
      arrival
      start
      p
      i
      arrival_message
    × Arrived call start arrived_chain arrival_message p
        (ata visitor second_mint)
        (arrived nft_runtime call arrival_message)
on_call_mints_example =
    on_call_mints nft_runtime nft_laws call (some (b'g' ∷ [])) 0 sender arrival arrival_message
      start arrived_chain refl refl arriving_succeeds

on_call_unlocks_example :
    (p : NftProgramState) × (i : NftInfo) × Called nft_runtime call
      (some (b'g' ∷ []))
      (mint_key 0 sender return)
      return
      away
      p
      i
      return_message
    × (away.infos (nft_info_pda nft_runtime second_mint).0 ≡ some i)
    × Returned call away home return_message p i
on_call_unlocks_example =
    on_call_unlocks nft_runtime nft_laws call (some (b'g' ∷ [])) 0 sender return return_message away
      home refl refl returning_succeeds

-- The nonce 3, below the stored one.
abbrev stale_call : Bytes
stale_call = 0 ∷ 3 ∷ visitor

stale_fails :
    OnCall.on_call nft_runtime call
      (some (b'g' ∷ []))
      0
      sender
      stale_call
      program
      first
      0
      start.world
    ≡ err (custom invalid_nonce)
unfolding OnCall.on_call eqb
stale_fails = refl

on_call_errors_example :
    ((invalid_nonce ≡ unauthorized) × (some (b'g' ∷ []) ≢ some nft_runtime.base.gateway_id))
    ⊎ ((invalid_nonce ≡ invalid_message) × (nft_runtime.try_from_slice stale_call ≡ none))
    ⊎ ((m : CrossChainMessage) × (nft_runtime.try_from_slice stale_call ≡ some m)
        × Refused program first m invalid_nonce)
on_call_errors_example =
    on_call_errors nft_runtime call (some (b'g' ∷ [])) 0 sender stale_call program first 0
      start.world invalid_nonce stale_fails
