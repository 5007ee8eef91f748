-- ===== src/UniversalNft/Program/Runs.antt =====
-- Runs of programs/universal_nft/src/lib.rs: its nonce and its supply over any list of
-- instructions, of which some may fail.
use protocol_contracts_solan.Prelude.{
  Option-cases, ℕ, ◌+◌, ◌-◌, ◌≤◌, ◌<◌, ◌≡◌, ◌≢◌, refl, ap, ◌∙◌, true, some, List, [], ◌∷◌, inl, inr,
  eqb_iff, arith,
}
use protocol_contracts_solan.Prelude.Words.{Bytes, u64_mod}
use protocol_contracts_solan.Solana.Result.{Error, Result, ok, err, Result-cases}
use protocol_contracts_solan.UniversalNft.State.{
  NftProgramState, Chain, CrossChainMessage, MessageType-cases, NftError,
}
use protocol_contracts_solan.UniversalNft.Runtime.{NftRuntime, NftLaws}
use protocol_contracts_solan.UniversalNft.Contexts.{HandleCrossChainCall}
use protocol_contracts_solan.UniversalNft.Accounts.{
  nft_program_pda, try_nft_program, try_handle_cross_chain_call,
}
use protocol_contracts_solan.UniversalNft.Handlers
use protocol_contracts_solan.UniversalNft.Program.{
  Instruction, process, settle, run, run-ok, run-err,
}
use protocol_contracts_solan.UniversalNft.Program.Counters.{nonce_taken, mints, Advances}
use protocol_contracts_solan.UniversalNft.Program.Advancing.{process-Advances}

module _ (nrt : NftRuntime) where
  abbrev pub minted_by : Instruction → Result NftError Chain → ℕ
  minted_by ix (ok c') = mints nrt ix
  minted_by ix (err e) = 0

  -- The tokens that a run mints: those of the instructions that succeed.
  unfoldable pub total_minted : List Instruction → Chain → ℕ
  total_minted [] c = 0
  total_minted (ix ∷ ixs) c =
      minted_by ix (process nrt ix c) + total_minted ixs (settle nrt (process nrt ix c) c)

  total_minted-ok :
      (ix : Instruction) (ixs : List Instruction) (c c₁ : Chain)
      → process nrt ix c ≡ ok c₁
      → total_minted (ix ∷ ixs) c ≡ mints nrt ix + total_minted ixs c₁
  unfolding total_minted
  total_minted-ok ix ixs c c₁ h = ap (λ o. minted_by ix o + total_minted ixs (settle nrt o c)) h

  total_minted-err :
      (ix : Instruction) (ixs : List Instruction) (c : Chain) (x : Error NftError)
      → process nrt ix c ≡ err x
      → total_minted (ix ∷ ixs) c ≡ 0 + total_minted ixs c
  unfolding total_minted
  total_minted-err ix ixs c x h = ap (λ o. minted_by ix o + total_minted ixs (settle nrt o c)) h

  handle_succeeds :
      (ctx : HandleCrossChainCall) (sender message : Bytes) (chain nonce : ℕ)
      (m : CrossChainMessage) (c : Chain) (p : NftProgramState)
      → c.program ≡ some p
      → ctx.nft_program.is_writable ≡ true
      → ctx.nft_program.key ≡ (nft_program_pda nrt).0
      → nrt.try_from_slice message ≡ some m
      → p.nonce < nonce
      → process nrt (Instruction.handle_cross_chain_call ctx sender chain message nonce) c
        ≡ ok (record c { program = some (record p { nonce = nonce }) })
  unfolding process try_handle_cross_chain_call try_nft_program Handlers.handle_cross_chain_call
  handle_succeeds ctx sender message chain nonce m c p loaded writable key parsed fresh =
      elim (MessageType-cases m.message_type) [
        | inl kind ↦ ground (
          arith,
          eqb_iff ctx.nft_program.key (nft_program_pda nrt).0,
          loaded,
          writable,
          key,
          parsed,
          fresh,
          kind,
        )
        | inr kind ↦ ground (
          arith,
          eqb_iff ctx.nft_program.key (nft_program_pda nrt).0,
          loaded,
          writable,
          key,
          parsed,
          fresh,
          kind,
        )
      ]

  -- What a run leaves of the state `p`.
  pub record RunFrom (ixs : List Instruction) (c : Chain) (p p' : NftProgramState) : Type 0 where
    pub program : (run nrt ixs c).program ≡ some p'
    pub nonce : p.nonce ≤ p'.nonce
    pub supply : p'.total_supply ≡ p.total_supply + total_minted ixs c
    pub authority : p'.authority ≡ p.authority
    pub gateway : p'.gateway ≡ p.gateway

module _ (nrt : NftRuntime) (laws : NftLaws nrt) where
  Advances-nonce :
      (ix : Instruction) (p p' : NftProgramState) → Advances nrt ix p p' → p.nonce ≤ p'.nonce
  Advances-nonce ix p p' a = elim (Option-cases (nonce_taken nrt ix)) [
    | inl free ↦ omega (arith, a.kept free)
    | inr (n, takes) ↦ omega (arith, a.taken n takes)
  ]

  -- Under the laws of the runtime, whatever instructions come once the program is initialized, in
  -- any order and failed ones among them: the nonce never falls, the supply is the one before plus
  -- the tokens that the successful ones minted, and the authority and the gateway stay.
  pub run-RunFrom :
      (ixs : List Instruction) (c : Chain) (p : NftProgramState)
      → c.program ≡ some p
      → (p' : NftProgramState) × RunFrom nrt ixs c p p'
  unfolding run total_minted
  run-RunFrom [] c p loaded = (
    p,
    record {
      program = loaded;
      nonce = omega arith;
      supply = omega arith;
      authority = refl;
      gateway = refl;
    },
  )
  run-RunFrom (ix ∷ ixs) c p loaded = elim (Result-cases (process nrt ix c)) [
    | inl (c₁, accepted) ↦
        let (p₁, left, a) = process-Advances nrt laws c c₁ p loaded ix accepted in
        let (p', r) = run-RunFrom ixs c₁ p₁ left in
        (
          p',
          record {
            program = ap (λ d. d.program) (run-ok nrt ix ixs c c₁ accepted) ∙ r.program;
            nonce = omega (arith, r.nonce, Advances-nonce ix p p₁ a);
            supply = omega (arith, r.supply, a.supply, total_minted-ok nrt ix ixs c c₁ accepted);
            authority = r.authority ∙ a.authority;
            gateway = r.gateway ∙ a.gateway;
          },
        )
    | inr (e, refused) ↦
        let (p', r) = run-RunFrom ixs c p loaded in
        (
          p',
          record {
            program = ap (λ d. d.program) (run-err nrt ix ixs c e refused) ∙ r.program;
            nonce = r.nonce;
            supply = omega (arith, r.supply, total_minted-err nrt ix ixs c e refused);
            authority = r.authority;
            gateway = r.gateway;
          },
        )
  ]

  -- Under the laws of the runtime, once an instruction that takes a nonce has succeeded, no
  -- instruction that takes this or a smaller nonce ever succeeds again, whatever comes between.
  pub nonce_accepted_once :
      (ix ix' : Instruction) (ixs : List Instruction) (c c' d : Chain) (p : NftProgramState)
      (n k : ℕ)
      → c.program ≡ some p
      → process nrt ix c ≡ ok c'
      → nonce_taken nrt ix ≡ some n
      → nonce_taken nrt ix' ≡ some k
      → k ≤ n
      → process nrt ix' (run nrt ixs c') ≢ ok d
  nonce_accepted_once ix ix' ixs c c' d p n k loaded accepted takes takes' le accepted' =
      let (p₁, left, a) = process-Advances nrt laws c c' p loaded ix accepted in
      let (p₂, r) = run-RunFrom ixs c' p₁ left in
      let (p₃, left', a') =
        process-Advances nrt laws (run nrt ixs c') d p₂ r.program ix' accepted' in
      omega (arith, le, (a.taken n takes).1, r.nonce, (a'.taken k takes').0)

  -- Under the laws of the runtime, anyone can take the largest nonce with a message that parses,
  -- since `handle_cross_chain_call` checks no caller: the call succeeds while a larger nonce is left,
  -- and no instruction that takes a `u64` nonce ever succeeds after it.
  pub anyone_may_exhaust :
      (ctx : HandleCrossChainCall) (sender message : Bytes) (chain : ℕ) (m : CrossChainMessage)
      (c d : Chain) (p : NftProgramState) (ixs : List Instruction) (ix : Instruction) (k : ℕ)
      → c.program ≡ some p
      → ctx.nft_program.is_writable ≡ true
      → ctx.nft_program.key ≡ (nft_program_pda nrt).0
      → nrt.try_from_slice message ≡ some m
      → p.nonce < u64_mod - 1
      → nonce_taken nrt ix ≡ some k
      → k < u64_mod
      → let largest = Instruction.handle_cross_chain_call ctx sender chain message (u64_mod - 1) in
        (c' : Chain) × (process nrt largest c ≡ ok c') × (process nrt ix (run nrt ixs c') ≢ ok d)
  unfolding nonce_taken
  anyone_may_exhaust ctx sender message chain m c d p ixs ix k loaded writable key parsed small
        takes bound =
      let largest = Instruction.handle_cross_chain_call ctx sender chain message (u64_mod - 1) in
      let c' : Chain = record c { program = some (record p { nonce = u64_mod - 1 }) } in
      let accepted =
        handle_succeeds nrt ctx sender message chain (u64_mod - 1) m c p loaded writable key parsed
          small in
      (
        c',
        accepted,
        nonce_accepted_once largest ix ixs c c' d p (u64_mod - 1) k loaded accepted refl takes
            (omega (arith, bound)),
      )
