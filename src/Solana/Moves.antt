-- ===== src/Solana/Moves.antt =====
-- Lamport moves between accounts, under the laws of the runtime.
use protocol_contracts_solan.Prelude.{
  ℕ, ◌+◌, ◌≤◌, ◌<◌, ◌≡◌, ◌≢◌, refl, some, eqb, eqb_iff, eqb_refl, eqb→eq, ne→eqb, Bool-cases, inl,
  inr, arith,
}
use protocol_contracts_solan.Prelude.Words.{u64_mod}
use protocol_contracts_solan.Solana.Account.{Pubkey, World, debit, credit}
use protocol_contracts_solan.Solana.Runtime.{Runtime}
use protocol_contracts_solan.Solana.Laws.{RuntimeLaws}

-- `n` lamports have moved from one account to another; with one account for both, nothing has.
pub record LamportsMoved (from to : Pubkey) (n : ℕ) (w w' : World) : Type 0 where
  pub covered : n ≤ w.lamports from
  pub taken : from ≢ to → w'.lamports from + n ≡ w.lamports from
  pub given : from ≢ to → w'.lamports to ≡ w.lamports to + n
  pub others : (k : Pubkey) → k ≢ from → k ≢ to → w'.lamports k ≡ w.lamports k
  pub same : from ≡ to → w'.lamports from ≡ w.lamports from
  pub token : w'.token ≡ w.token
  pub mint : w'.mint ≡ w.mint

pub lamports-debit-le : (k a : Pubkey) (n : ℕ) (w : World) → (debit a n w).lamports k ≤ w.lamports k
lamports-debit-le k a n w = elim (Bool-cases (eqb k a)) [
  | inl e ↦ rw (e, eqb→eq k a e) (omega arith)
  | inr e ↦ rw e (omega arith)
]

pub credit-debit-LamportsMoved :
    (from to : Pubkey) (n : ℕ) (w : World)
    → n ≤ w.lamports from
    → LamportsMoved from to n w (credit to n (debit from n w))
credit-debit-LamportsMoved from to n w h = record {
  covered = h;
  taken = λ ne. rw (ne→eqb from to ne, eqb_refl from) (omega arith);
  given = λ ne. ground (arith, eqb_refl to, eqb_iff to from);
  others = λ k p q. rw (ne→eqb k to q, ne→eqb k from p);
  same = λ e. ground (arith, eqb_refl from, eqb_iff from to);
  token = refl;
  mint = refl;
}

module _ (rt : Runtime) (laws : RuntimeLaws rt) (k : Pubkey) (n : ℕ) (w : World) where
  pub sub_lamports-eq-some :
      {w' : World} → rt.sub_lamports k n w ≡ some w' → (n ≤ w.lamports k) × (w' ≡ debit k n w)
  sub_lamports-eq-some h = ground (arith, laws.sub_lamports_eq k n w)

  pub add_lamports-eq-some :
      {w' : World}
      → rt.add_lamports k n w ≡ some w'
      → (w.lamports k + n < u64_mod) × (w' ≡ credit k n w)
  add_lamports-eq-some h = ground (arith, laws.add_lamports_eq k n w)

  pub sub_lamports_accepts : n ≤ w.lamports k → rt.sub_lamports k n w ≡ some (debit k n w)
  sub_lamports_accepts h = ground (arith, laws.sub_lamports_eq k n w)

  pub add_lamports_accepts :
      w.lamports k + n < u64_mod → rt.add_lamports k n w ≡ some (credit k n w)
  add_lamports_accepts h = ground (arith, laws.add_lamports_eq k n w)

module _ (rt : Runtime) (laws : RuntimeLaws rt) (from to : Pubkey) (n : ℕ) (w : World) where
  -- `sub_lamports` and then `add_lamports`.
  pub sub_add-LamportsMoved :
      {w₁ w' : World}
      → rt.sub_lamports from n w ≡ some w₁
      → rt.add_lamports to n w₁ ≡ some w'
      → LamportsMoved from to n w w'
  sub_add-LamportsMoved {w₁} {w'} h h' =
      let (le, e) = sub_lamports-eq-some rt laws from n w h in
      let (_, e') = add_lamports-eq-some rt laws to n w₁ h' in
      rw (e', e) (credit-debit-LamportsMoved from to n w le)

  pub system_transfer-LamportsMoved :
      {w' : World} → rt.system_transfer from to n w ≡ some w' → LamportsMoved from to n w w'
  system_transfer-LamportsMoved {w'} h =
      rw (laws.system_transfer_eq from to n w w' h)
        (credit-debit-LamportsMoved from to n w (laws.system_transfer_covered from to n w w' h))
