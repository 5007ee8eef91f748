-- ===== src/Gateway/Tests/Runtime.antt =====
-- A runtime to run the gateway on, which keeps the laws of the runtime: its hash is the identity,
-- a signature recovers to its second half, and an address is the list of its seeds.
use protocol_contracts_solan.Prelude.{
  ℕ, ◌+◌, ◌-◌, ◌≤◌, ◌≡◌, refl, true, Option, none, some, [], ◌∷◌, ◌++◌, inl, inr, leb, ltb, drop,
  eqb, eqb_refl, eqb_iff, Option-cases, Bool-cases, if◌then◌else◌, arith,
}
use protocol_contracts_solan.Prelude.Words.{u64_mod}
use protocol_contracts_solan.Solana.Account.{
  Pubkey, TokenAccount, World, update, debit, credit, balance,
}
use protocol_contracts_solan.Solana.Runtime.{Runtime}
use protocol_contracts_solan.Solana.Laws.{RuntimeLaws, TokensMoved, AtaCreated}
use protocol_contracts_solan.Solana.Moves.{credit-debit-LamportsMoved}
use protocol_contracts_solan.Gateway.Utils.Message.{flatten}

abbrev pub set_token : Pubkey → TokenAccount → World → World
set_token k t w = record w { token = update w.token k (some t) }

abbrev transfer_lamports : Pubkey → Pubkey → ℕ → World → Option World
transfer_lamports from to n w =
    if leb n (w.lamports from) then some (credit to n (debit from n w)) else none

abbrev transferred : Pubkey → Pubkey → ℕ → World → TokenAccount → TokenAccount → Option World
transferred from to n w t u =
    if leb n t.amount
    then some (
        set_token to (record u { amount = u.amount + n })
          (set_token from (record t { amount = t.amount - n }) w))
    else none

abbrev pub transfer_tokens : Pubkey → Pubkey → ℕ → World → Option World
transfer_tokens from to n w = elim (w.token from) [
  | none ↦ none
  | some t ↦ elim (w.token to) [ none ↦ none | some u ↦ transferred from to n w t u ]
]

abbrev rent : ℕ
rent = 2_039_280

abbrev create_ata : Pubkey → Pubkey → Pubkey → World → Option World
create_ata payer wallet mint w =
    if leb rent (w.lamports payer)
    then some (
        set_token (wallet ++ mint) (record { mint = mint; owner = wallet; amount = 0 })
          (credit (wallet ++ mint) rent (debit payer rent w)))
    else none

abbrev pub test_runtime : Runtime
test_runtime = record {
  keccak = λ b. b;
  secp256k1_recover = λ hash recovery_id signature. some (drop 32 signature);
  get_associated_token_address = λ wallet mint. wallet ++ mint;
  find_program_address = λ seeds program. (flatten seeds ++ program, 255);
  gateway_id = b'g' ∷ [];
  system_program_id = b's' ∷ [];
  token_program_id = b't' ∷ [];
  associated_token_program_id = b'a' ∷ [];
  sub_lamports = λ k n w. if leb n (w.lamports k) then some (debit k n w) else none;
  add_lamports = λ k n w. if ltb (w.lamports k + n) u64_mod then some (credit k n w) else none;
  system_transfer = transfer_lamports;
  token_transfer = λ from to authority n w. transfer_tokens from to n w;
  transfer_checked = λ from mint to authority seeds n decimals w. transfer_tokens from to n w;
  create_associated_token_account = create_ata;
  create_account = λ payer account space w. transfer_lamports payer account rent w;
  close_account = λ account destination w. transfer_lamports account destination rent w;
  invoke = λ ix infos w. some w;
}

module _ (from to : Pubkey) (n : ℕ) (w : World) where
  transferred-TokensMoved :
      (t u : TokenAccount) (w' : World)
      → w.token from ≡ some t
      → w.token to ≡ some u
      → transferred from to n w t u ≡ some w'
      → TokensMoved from to n w w'
  transferred-TokensMoved t u w' f g h =
      let facts : (leb n t.amount ≡ true)
          × (set_token to (record u { amount = u.amount + n })
                (set_token from (record t { amount = t.amount - n }) w)
              ≡ w') =
        ground arith in
      rw (← facts.1) (record {
        covered = rw (f, balance) (ground arith);
        taken = λ ne. ground (arith, f, eqb_iff from to, eqb_refl from);
        given = λ ne. ground (arith, g, eqb_refl to);
        tokens = λ k p q. ground (arith, eqb_iff k from, eqb_iff k to);
        lamports = λ k p q. refl;
      })

  pub transfer_tokens-TokensMoved :
      (w' : World) → transfer_tokens from to n w ≡ some w' → TokensMoved from to n w w'
  transfer_tokens-TokensMoved w' h = elim (Option-cases (w.token from)) [
    | inl f ↦ absurd (ground (arith, f))
    | inr (t, f) ↦ elim (Option-cases (w.token to)) [
      | inl g ↦ absurd (ground (arith, f, g))
      | inr (u, g) ↦ transferred-TokensMoved t u w' f g (ground (arith, f, g))
    ]
  ]

create_ata-AtaCreated :
    (payer wallet mint : Pubkey) (w w' : World)
    → create_ata payer wallet mint w ≡ some w'
    → AtaCreated payer (wallet ++ mint) w w'
create_ata-AtaCreated payer wallet mint w w' h =
    let ata = wallet ++ mint in
    let facts : (rent ≤ w.lamports payer)
        × (set_token ata (record { mint = mint; owner = wallet; amount = 0 })
              (credit ata rent (debit payer rent w))
            ≡ w') =
      ground arith in
    let moved = credit-debit-LamportsMoved payer ata rent w facts.0 in
    rw (← facts.1) (record {
      paid = elim (Bool-cases (eqb payer ata)) [
        | inl e ↦ ground (arith, moved.same, eqb_iff payer ata)
        | inr e ↦ ground (arith, moved.taken, eqb_iff payer ata)
      ];
      lamports = moved.others;
      tokens = λ k p. ground (arith, eqb_iff k ata);
      empty = ground (arith, eqb_refl ata);
    })

pub test_laws : RuntimeLaws test_runtime
test_laws = record {
  sub_lamports_eq = λ k n w. refl;
  add_lamports_eq = λ k n w. refl;
  system_transfer_covered = λ from to n w w' h. ground arith;
  system_transfer_eq = λ from to n w w' h. ground arith;
  token_transfer_moves = λ from to authority n w w' h. transfer_tokens-TokensMoved from to n w w' h;
  transfer_checked_moves = λ from mint to authority seeds n decimals w w' h.
      transfer_tokens-TokensMoved from to n w w' h;
  create_associated_token_account_pays = create_ata-AtaCreated;
  invoke_lamports = λ ix infos w w' k h n. ground arith;
  invoke_token = λ ix infos w w' k h n. ground arith;
}
