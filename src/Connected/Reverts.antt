-- ===== src/Connected/Reverts.antt =====
-- `on_revert` of programs/examples/connected/src/lib.rs together with its context.
use protocol_contracts_solan.Prelude.{
  ℕ, ◌≤◌, ◌≡◌, ◌↔◌, refl, true, false, some, inl, inr, eqb_iff, leb, Bool-cases, arith,
}
use protocol_contracts_solan.Prelude.Words.{Bytes}
use protocol_contracts_solan.Solana.Result.{ok, after}
use protocol_contracts_solan.Solana.Account.{Pubkey}
use protocol_contracts_solan.Solana.Runtime.{Runtime}
use protocol_contracts_solan.Connected
use protocol_contracts_solan.Connected.{Pda, revert_word}
use protocol_contracts_solan.Connected.Text.{is_utf8, contains, Occurs, contains_iff}
use protocol_contracts_solan.Connected.Calls.{on_revert_iff}
use protocol_contracts_solan.Connected.Accounts.{
  Deployment, OnRevert, own_address, try_own, try_on_revert,
}
use protocol_contracts_solan.Connected.Program.{Chain, OtherDeposit, Instruction, process, pda_size}

contains-eq-false : (word bs : Bytes) → (contains word bs ≡ false) ↔ (¬ Occurs word bs)
contains-eq-false word bs = (
  λ absent occurs. let present = (contains_iff word bs).1 occurs in cc,
  λ none_occurs. elim (Bool-cases (contains word bs)) [
    | inl present ↦ absurd (none_occurs ((contains_iff word bs).0 present))
    | inr absent ↦ absent
  ],
)

abbrev pub reverted : Pubkey → Bytes → Pda → Pda
reverted sender input p = record p { last_revert_sender = sender; last_revert_message = input }

-- When a revert is taken, where the account of the program is `p`.
pub record Takes (rt : Runtime) (d : Deployment) (ctx : OnRevert) (sender input : Bytes) (c : Chain)
    (p : Pda) : Type 0 where
  pub loaded : c.stored ≡ some p
  pub writable : ctx.pda.is_writable ≡ true
  pub address : ctx.pda.key ≡ own_address rt d
  pub system : ctx.system_program.key ≡ rt.system_program_id
  pub text : is_utf8 input ≡ true
  pub quiet : ¬ Occurs revert_word input
  pub fits : pda_size (reverted sender input p) ≤ d.pda_space

module _ (rt : Runtime) (other : OtherDeposit) (d : Deployment) (ctx : OnRevert) where
  try_on_revert_iff :
      (c : Chain) (p : Pda)
      → (try_on_revert rt d ctx c.stored ≡ ok p) ↔ (
          (c.stored ≡ some p)
          × (ctx.pda.is_writable ≡ true)
          × (ctx.pda.key ≡ own_address rt d)
          × (ctx.system_program.key ≡ rt.system_program_id))
  unfolding try_on_revert try_own
  try_on_revert_iff c p = ground (
    arith,
    eqb_iff ctx.pda.key (own_address rt d),
    eqb_iff ctx.system_program.key rt.system_program_id,
  )

  module _ (amount : ℕ) (sender : Pubkey) (input : Bytes) (c c' : Chain) where
    takes :
        process rt other d (Instruction.on_revert ctx amount sender input) c ≡ ok c'
        → (p : Pda) × Takes rt d ctx sender input c p
          × (c' ≡ record c { stored = some (reverted sender input p) })
    unfolding process
    takes h = after (try_on_revert rt d ctx c.stored) _ h λ p e h₁.
        after (Connected.on_revert amount sender input p) _ h₁ λ p' e' h₂.
          let (loaded, writable, address, system) = (try_on_revert_iff c p).0 e in
          let (text, absent, left) = (on_revert_iff amount sender input p p').0 e' in
          let done : (pda_size p' ≤ d.pda_space) × (c' ≡ record c { stored = some p' }) =
            ground arith in
          (
            p,
            record {
              loaded = loaded;
              writable = writable;
              address = address;
              system = system;
              text = text;
              quiet = (contains-eq-false revert_word input).0 absent;
              fits = rw left at done.0;
            },
            rw left at done.1,
          )

    taken :
        (p : Pda)
        → Takes rt d ctx sender input c p
        → process rt other d (Instruction.on_revert ctx amount sender input) c
          ≡ ok (record c { stored = some (reverted sender input p) })
    unfolding process
    taken p t =
        let loads = (try_on_revert_iff c p).1 (t.loaded, t.writable, t.address, t.system) in
        let absent = (contains-eq-false revert_word input).1 t.quiet in
        let stores =
          (on_revert_iff amount sender input p (reverted sender input p)).1
            (t.text, absent, refl) in
        let fits : leb (pda_size (reverted sender input p)) d.pda_space ≡ true =
          ground (arith, t.fits) in
        rw (loads, stores, fits)

    -- A revert is taken exactly when the initialized account of the program is given, writable and
    -- at its derived address, with the system program, the message is UTF-8, `revert` occurs nowhere
    -- in it, and the account that results fits its space; it then stores the sender and the message,
    -- and nothing else of the chain changes.
    pub on_revert_stores :
        (process rt other d (Instruction.on_revert ctx amount sender input) c ≡ ok c') ↔ (
          (p : Pda) × Takes rt d ctx sender input c p
          × (c' ≡ record c { stored = some (reverted sender input p) }))
    on_revert_stores = (takes, λ (p, t, left). rw left (taken p t))
