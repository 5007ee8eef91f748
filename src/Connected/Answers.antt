-- ===== src/Connected/Answers.antt =====
-- `on_call` of programs/examples/connected/src/lib.rs together with its context.
use protocol_contracts_solan.Prelude.{ℕ, ◌/◌, ◌≡◌, refl, ap, true, false, some, eqb_iff, arith}
use protocol_contracts_solan.Prelude.Words.{Bytes}
use protocol_contracts_solan.Solana.Result.{ok, after}
use protocol_contracts_solan.Solana.Account.{Pubkey}
use protocol_contracts_solan.Solana.Runtime.{Runtime}
use protocol_contracts_solan.Solana.Laws.{RuntimeLaws}
use protocol_contracts_solan.Solana.Moves.{LamportsMoved}
use protocol_contracts_solan.Connected
use protocol_contracts_solan.Connected.{Pda, OnCall, revert_word}
use protocol_contracts_solan.Connected.Text.{is_utf8, contains}
use protocol_contracts_solan.Connected.Calls.{on_call_passes}
use protocol_contracts_solan.Connected.Accounts.{Deployment, own_address, try_own, try_on_call}
use protocol_contracts_solan.Connected.Program.{Chain, OtherDeposit, Instruction, process}

-- What a call leaves, where the account of the program was `p`.
pub record Answered (rt : Runtime) (d : Deployment) (ctx : OnCall) (caller : Pubkey) (amount : ℕ)
    (sender input : Bytes) (c c' : Chain) (p : Pda) : Type 0 where
  pub loaded : c.stored ≡ some p
  pub by_gateway : caller ≡ rt.gateway_id
  pub text : is_utf8 input ≡ true
  pub quiet : contains revert_word input ≡ false
  pub stored_left : c'.stored ≡ some (record p { last_sender = sender; last_message = input })
  pub moved :
      LamportsMoved
        (own_address rt d)
        ctx.random_wallet.key
        (amount / 2)
        c.gateway.world
        c'.gateway.world
  pub account_left : c'.gateway.pda ≡ c.gateway.pda

module _ (rt : Runtime) (laws : RuntimeLaws rt) (other : OtherDeposit) (d : Deployment) where
  try_on_call-loads :
      (ctx : OnCall) (c : Chain) (p : Pda)
      → try_on_call rt d ctx c.stored ≡ ok p
      → (c.stored ≡ some p) × (ctx.pda.key ≡ own_address rt d)
  unfolding try_on_call try_own
  try_on_call-loads ctx c p h = ground (arith, eqb_iff ctx.pda.key (own_address rt d))

  -- Under the laws of the runtime, an `on_call` that succeeds came from the gateway with a UTF-8
  -- message that does not contain `revert`; it stores the sender and the message in the account of
  -- the program and nothing else, passes half of the amount, rounded down, from the program's own
  -- address on to the wallet, and leaves the gateway's account alone.
  pub on_call_answers :
      (ctx : OnCall) (caller : Pubkey) (amount : ℕ) (sender input : Bytes) (c c' : Chain)
      → process rt other d (Instruction.on_call ctx caller amount sender input) c ≡ ok c'
      → (p : Pda) × Answered rt d ctx caller amount sender input c c' p
  unfolding process
  on_call_answers ctx caller amount sender input c c' h =
      after (try_on_call rt d ctx c.stored) _ h λ p e h₁.
        after (Connected.on_call rt ctx caller amount sender input p c.gateway.world) _ h₁
          λ (p', w') e' h₂.
            let (loaded, address) = try_on_call-loads ctx c p e in
            let (by_gateway, text, quiet, stored, moved) =
              on_call_passes rt laws ctx caller amount sender input p c.gateway.world e' in
            let left : c' ≡ record { stored = some p'; gateway = record c.gateway { world = w' } } =
              ground arith in
            (
              p,
              rw left (record {
                loaded = loaded;
                by_gateway = by_gateway;
                text = text;
                quiet = quiet;
                stored_left = ap some stored;
                moved = rw address at moved;
                account_left = refl;
              }),
            )
