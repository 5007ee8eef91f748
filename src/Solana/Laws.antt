-- ===== src/Solana/Laws.antt =====
-- What the programs rely on of the runtime, as hypotheses.
use protocol_contracts_solan.Prelude.{
  ℕ, ◌+◌, ◌≤◌, ◌≡◌, ◌≢◌, false, none, some, List, leb, ltb, if◌then◌else◌,
}
use protocol_contracts_solan.Prelude.Words.{Bytes, u64_mod}
use protocol_contracts_solan.Solana.Account.{
  Pubkey, AccountInfo, Instruction, World, debit, credit, balance, writable_in,
}
use protocol_contracts_solan.Solana.Runtime.{Runtime}

-- `amount` tokens have moved between two accounts of one mint. A token account of wrapped SOL
-- holds its balance in lamports too, so the lamports of the two accounts are left open.
pub record TokensMoved (from to : Pubkey) (amount : ℕ) (w w' : World) : Type 0 where
  pub covered : amount ≤ balance w from
  pub taken : from ≢ to → balance w' from + amount ≡ balance w from
  pub given : from ≢ to → balance w' to ≡ balance w to + amount
  pub tokens : (k : Pubkey) → k ≢ from → k ≢ to → w'.token k ≡ w.token k
  pub lamports : (k : Pubkey) → k ≢ from → k ≢ to → w'.lamports k ≡ w.lamports k

-- The payer has paid for a new token account at `ata`; nothing else has changed.
pub record AtaCreated (payer ata : Pubkey) (w w' : World) : Type 0 where
  pub paid : w'.lamports payer ≤ w.lamports payer
  pub lamports : (k : Pubkey) → k ≢ payer → k ≢ ata → w'.lamports k ≡ w.lamports k
  pub tokens : (k : Pubkey) → k ≢ ata → w'.token k ≡ w.token k
  pub empty : balance w' ata ≡ 0

pub record RuntimeLaws (rt : Runtime) : Type 0 where
  -- A lamport move is checked against the balance, and against the range of `u64`.
  pub sub_lamports_eq :
      (k : Pubkey) (n : ℕ) (w : World)
      → rt.sub_lamports k n w ≡ (if leb n (w.lamports k) then some (debit k n w) else none)
  pub add_lamports_eq :
      (k : Pubkey) (n : ℕ) (w : World)
      → rt.add_lamports k n w
        ≡ (if ltb (w.lamports k + n) u64_mod then some (credit k n w) else none)
  -- A successful system transfer was covered.
  pub system_transfer_covered :
      (from to : Pubkey) (n : ℕ) (w w' : World)
      → rt.system_transfer from to n w ≡ some w'
      → n ≤ w.lamports from
  pub system_transfer_eq :
      (from to : Pubkey) (n : ℕ) (w w' : World)
      → rt.system_transfer from to n w ≡ some w'
      → w' ≡ credit to n (debit from n w)
  pub token_transfer_moves :
      (from to authority : Pubkey) (n : ℕ) (w w' : World)
      → rt.token_transfer from to authority n w ≡ some w'
      → TokensMoved from to n w w'
  pub transfer_checked_moves :
      (from mint to authority : Pubkey) (seeds : List Bytes) (n decimals : ℕ) (w w' : World)
      → rt.transfer_checked from mint to authority seeds n decimals w ≡ some w'
      → TokensMoved from to n w w'
  pub create_associated_token_account_pays :
      (payer wallet mint : Pubkey) (w w' : World)
      → rt.create_associated_token_account payer wallet mint w ≡ some w'
      → AtaCreated payer (rt.get_associated_token_address wallet mint) w w'
  -- A callee changes only the accounts that it was given as writable.
  pub invoke_lamports :
      (ix : Instruction) (infos : List AccountInfo) (w w' : World) (k : Pubkey)
      → rt.invoke ix infos w ≡ some w'
      → writable_in k ix.accounts ≡ false
      → w'.lamports k ≡ w.lamports k
  pub invoke_token :
      (ix : Instruction) (infos : List AccountInfo) (w w' : World) (k : Pubkey)
      → rt.invoke ix infos w ≡ some w'
      → writable_in k ix.accounts ≡ false
      → w'.token k ≡ w.token k
