-- ===== src/UniversalNft/Program/Refines.antt =====
-- The abstract view of programs/universal_nft/src/lib.rs: a nonce and a supply, and what one
-- instruction may do to them. The instructions implement it.
use protocol_contracts_solan.Prelude.{
  ℕ, ◌+◌, ◌<◌, ◌≡◌, ◌≢◌, refl, ap, ◌∙◌, Option, none, some, List, [], ◌∷◌, inl, inr, ltb, ◌==◌,
  Bool-cases, Option-cases, if◌then◌else◌, arith,
}
use protocol_contracts_solan.Prelude.Words.{u64_mod}
use protocol_contracts_solan.Solana.Result.{Error, Result, ok, err, Result-cases}
use protocol_contracts_solan.UniversalNft.State.{NftProgramState, Chain, NftError}
use protocol_contracts_solan.UniversalNft.Runtime.{NftRuntime, NftLaws}
use protocol_contracts_solan.UniversalNft.Program.{
  Instruction, process, settle, run, run-ok, run-err,
}
use protocol_contracts_solan.UniversalNft.Program.Counters.{nonce_taken, mints, Advances}
use protocol_contracts_solan.UniversalNft.Program.Advancing.{process-Advances}

pub record Counters : Type 0 where
  pub nonce : ℕ
  pub supply : ℕ

abbrev pub counters : NftProgramState → Counters
counters p = record { nonce = p.nonce; supply = p.total_supply }

-- A nonce is taken only above the last one.
abbrev pub take : Option ℕ → Counters → Option Counters
take none k = some k
take (some n) k = if ltb k.nonce n then some (record k { nonce = n }) else none

-- Tokens are counted only within a `u64`.
abbrev pub count : ℕ → Counters → Option Counters
count n k =
    if n == 0
    then some k
    else (if ltb (k.supply + n) u64_mod then some (record k { supply = k.supply + n }) else none)

abbrev pub tick : Option ℕ × ℕ → Counters → Option Counters
tick (taken, minted) k = elim (take taken k) [ none ↦ none | some k' ↦ count minted k' ]

unfoldable pub ticks : List (Option ℕ × ℕ) → Counters → Option Counters
ticks [] k = some k
ticks (t ∷ ts) k = elim (tick t k) [ none ↦ none | some k' ↦ ticks ts k' ]

module _ (nrt : NftRuntime) where
  abbrev step_of : Instruction → Option ℕ × ℕ
  step_of ix = (nonce_taken nrt ix, mints nrt ix)

  abbrev pub noted : Instruction → Result NftError Chain → List (Option ℕ × ℕ) → List (Option ℕ × ℕ)
  noted ix (ok c') ts = step_of ix ∷ ts
  noted ix (err e) ts = ts

  -- What the instructions of a run that succeed take and mint.
  unfoldable pub accepted : List Instruction → Chain → List (Option ℕ × ℕ)
  accepted [] c = []
  accepted (ix ∷ ixs) c =
      noted ix (process nrt ix c) (accepted ixs (settle nrt (process nrt ix c) c))

  accepted-ok :
      (ix : Instruction) (ixs : List Instruction) (c c₁ : Chain)
      → process nrt ix c ≡ ok c₁
      → accepted (ix ∷ ixs) c ≡ step_of ix ∷ accepted ixs c₁
  unfolding accepted
  accepted-ok ix ixs c c₁ h = ap (λ o. noted ix o (accepted ixs (settle nrt o c))) h

  accepted-err :
      (ix : Instruction) (ixs : List Instruction) (c : Chain) (x : Error NftError)
      → process nrt ix c ≡ err x
      → accepted (ix ∷ ixs) c ≡ accepted ixs c
  unfolding accepted
  accepted-err ix ixs c x h = ap (λ o. noted ix o (accepted ixs (settle nrt o c))) h

  counted :
      (n : ℕ) (k : Counters)
      → (n ≢ 0 → k.supply + n < u64_mod)
      → count n k ≡ some (record k { supply = k.supply + n })
  counted n k bounded = elim (Bool-cases (n == 0)) [
    | inl zero ↦ ground (arith, zero)
    | inr more ↦ ground (arith, more, bounded (λ z. ground (arith, more, z)))
  ]

  taken_above :
      (n : ℕ) (k : Counters) → k.nonce < n → take (some n) k ≡ some (record k { nonce = n })
  taken_above n k above = ground arith

  Advances-tick :
      (ix : Instruction) (p p' : NftProgramState)
      → Advances nrt ix p p'
      → tick (step_of ix) (counters p) ≡ some (counters p')
  Advances-tick ix p p' a =
      let bounded : mints nrt ix ≢ 0 → p.total_supply + mints nrt ix < u64_mod =
        λ ne. omega (arith, a.bounded ne, a.supply) in
      elim (Option-cases (nonce_taken nrt ix)) [
        | inl free ↦
            rw free
              (counted (mints nrt ix) (counters p) bounded ∙ ground (arith, a.kept free, a.supply))
        | inr (n, takes) ↦
            let k : Counters = record { nonce = n; supply = p.total_supply } in
            rw takes (
              ap (λ o. elim o [ none ↦ none | some k' ↦ count (mints nrt ix) k' ])
                (taken_above n (counters p) (a.taken n takes).0)
              ∙ counted (mints nrt ix) k bounded
              ∙ ground (arith, (a.taken n takes).1, a.supply))
      ]

module _ (nrt : NftRuntime) (laws : NftLaws nrt) where
  -- Under the laws of the runtime, the program refines the abstract view: over a run from an
  -- initialized program, failed instructions among the others, the nonce and the supply go exactly
  -- where the abstract machine goes on what the successful instructions take and mint, and it
  -- refuses none of it.
  pub run-ticks :
      (ixs : List Instruction) (c : Chain) (p : NftProgramState)
      → c.program ≡ some p
      → (p' : NftProgramState) × ((run nrt ixs c).program ≡ some p')
        × (ticks (accepted nrt ixs c) (counters p) ≡ some (counters p'))
  unfolding run ticks accepted
  run-ticks [] c p loaded = (p, loaded, refl)
  run-ticks (ix ∷ ixs) c p loaded = elim (Result-cases (process nrt ix c)) [
    | inl (c₁, passed) ↦
        let (p₁, left, a) = process-Advances nrt laws c c₁ p loaded ix passed in
        let (p', program, same) = run-ticks ixs c₁ p₁ left in
        (
          p',
          ap (λ d. d.program) (run-ok nrt ix ixs c c₁ passed) ∙ program,
          ap (λ ts. ticks ts (counters p)) (accepted-ok nrt ix ixs c c₁ passed)
              ∙ ap (λ o. elim o [ none ↦ none | some k' ↦ ticks (accepted nrt ixs c₁) k' ])
                  (Advances-tick nrt ix p p₁ a)
              ∙ same,
        )
    | inr (e, refused) ↦
        let (p', program, same) = run-ticks ixs c p loaded in
        (
          p',
          ap (λ d. d.program) (run-err nrt ix ixs c e refused) ∙ program,
          ap (λ ts. ticks ts (counters p)) (accepted-err nrt ix ixs c e refused) ∙ same,
        )
  ]
