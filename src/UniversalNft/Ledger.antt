-- ===== src/UniversalNft/Ledger.antt =====
-- Token balances under the calls of programs/universal_nft/src/lib.rs.
use protocol_contracts_solan.Prelude.{
  ◌+◌, ◌≡◌, ◌≢◌, ◌∙◌, some, inl, inr, eqb, eqb→eq, eqb_iff, Bool-cases, arith,
}
use protocol_contracts_solan.Solana.Account.{Pubkey, World, balance}
use protocol_contracts_solan.Solana.Laws.{TokensMoved}
use protocol_contracts_solan.UniversalNft.Runtime.{NftRuntime, NftLaws, TokensMinted}

-- No token has moved, come or gone.
abbrev pub SameBalances : World → World → Type 0
SameBalances w w' = (k : Pubkey) → balance w' k ≡ balance w k

pub SameBalances-trans : (u v w : World) → SameBalances u v → SameBalances v w → SameBalances u w
SameBalances-trans u v w h h' k = h' k ∙ h k

pub SameBalances-of_token : (w w' : World) → w'.token ≡ w.token → SameBalances w w'
SameBalances-of_token w w' h k = rw (h, balance)

-- One token has moved between two accounts, and nothing else.
pub record OneMoved (from to : Pubkey) (w w' : World) : Type 0 where
  pub taken : from ≢ to → balance w' from + 1 ≡ balance w from
  pub given : from ≢ to → balance w' to ≡ balance w to + 1
  pub others : (k : Pubkey) → k ≢ from → k ≢ to → balance w' k ≡ balance w k

-- One token has been minted into an account, and nothing else.
pub record OneMinted (to : Pubkey) (w w' : World) : Type 0 where
  pub given : balance w' to ≡ balance w to + 1
  pub others : (k : Pubkey) → k ≢ to → balance w' k ≡ balance w k

pub TokensMoved-OneMoved :
    (from to : Pubkey) (u w w' : World)
    → SameBalances u w
    → TokensMoved from to 1 w w'
    → OneMoved from to u w'
TokensMoved-OneMoved from to u w w' same m = record {
  taken = λ ne. omega (arith, m.taken ne, same from);
  given = λ ne. omega (arith, m.given ne, same to);
  others = λ k ne ne'. (rw (m.tokens k ne ne', balance)) ∙ same k;
}

pub TokensMinted-OneMinted :
    (mint to : Pubkey) (u w w' : World)
    → SameBalances u w
    → TokensMinted mint to 1 w w'
    → OneMinted to u w'
TokensMinted-OneMinted mint to u w w' same m = record {
  given = omega (arith, m.given, same to);
  others = λ k ne. (rw (m.tokens k ne, balance)) ∙ same k;
}

pub OneMinted-then :
    (to : Pubkey) (u w w' : World) → OneMinted to u w → SameBalances w w' → OneMinted to u w'
OneMinted-then to u w w' m same = record {
  given = same to ∙ m.given;
  others = λ k ne. same k ∙ m.others k ne;
}

module _ (nrt : NftRuntime) (laws : NftLaws nrt) (payer wallet mint : Pubkey) (w w' : World) where
  -- A new associated account is empty, and there was none before it.
  pub create_ata-SameBalances :
      nrt.base.create_associated_token_account payer wallet mint w ≡ some w' → SameBalances w w'
  create_ata-SameBalances h k =
      let ata = nrt.base.get_associated_token_address wallet mint in
      let created = laws.base.create_associated_token_account_pays payer wallet mint w w' h in
      let missing = laws.ata_new payer wallet mint w w' h in
      elim (Bool-cases (eqb k ata)) [
        | inl here ↦ rw (eqb→eq k ata here) (created.empty ∙ rw (missing, balance))
        | inr away ↦ rw (created.tokens k (ground (arith, eqb_iff k ata)), balance)
      ]
