-- ===== src/Solana/Account.antt =====
-- Accounts as an instruction sees them, and what the ledger holds of each.
use protocol_contracts_solan.Prelude.{
  ℕ, ◌+◌, ◌-◌, Bool, false, Option, List, [], ◌∷◌, ◌&&◌, ◌||◌, eqb, if◌then◌else◌,
}
use protocol_contracts_solan.Prelude.Words.{Bytes}

-- A public key is its 32 bytes.
abbrev pub Pubkey : Type 0
Pubkey = Bytes

pub record AccountInfo : Type 0 where
  pub key : Pubkey
  pub is_signer : Bool
  pub is_writable : Bool

pub record AccountMeta : Type 0 where
  pub pubkey : Pubkey
  pub is_signer : Bool
  pub is_writable : Bool

pub record Instruction : Type 0 where
  pub program_id : Pubkey
  pub accounts : List AccountMeta
  pub input : Bytes

-- An account of the token program: its mint, the authority over it, and its balance.
pub record TokenAccount : Type 0 where
  pub mint : Pubkey
  pub owner : Pubkey
  pub amount : ℕ

-- The ledger, but for the accounts whose data is a program's own record.
pub record World : Type 0 where
  pub lamports : Pubkey → ℕ
  pub account_owner : Pubkey → Pubkey
  pub token : Pubkey → Option TokenAccount
  -- the supply of each mint
  pub mint : Pubkey → Option ℕ

abbrev pub update {ℓ} : {A : Type ℓ} → (Pubkey → A) → Pubkey → A → Pubkey → A
update f k v j = if eqb j k then v else f j

abbrev pub debit : Pubkey → ℕ → World → World
debit k n w = record w { lamports = update w.lamports k (w.lamports k - n) }

abbrev pub credit : Pubkey → ℕ → World → World
credit k n w = record w { lamports = update w.lamports k (w.lamports k + n) }

abbrev pub balance : World → Pubkey → ℕ
balance w k = elim (w.token k) [ Option.none ↦ 0 | Option.some t ↦ t.amount ]

-- Whether the callee may change the account.
unfoldable pub writable_in : Pubkey → List AccountMeta → Bool
writable_in k [] = false
writable_in k (m ∷ ms) = (eqb m.pubkey k && m.is_writable) || writable_in k ms
