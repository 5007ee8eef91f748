-- ===== src/ConnectedSpl/Calls.antt =====
-- What the instructions of programs/examples/connectedSPL/src/lib.rs do.
use protocol_contracts_solan.Prelude.{
  ap, ℕ, ◌/◌, ◌≡◌, ◌↔◌, true, false, some, eqb_iff, [], ◌∷◌, arith,
}
use protocol_contracts_solan.Prelude.Words.{Bytes}
use protocol_contracts_solan.Solana.Result.{ok, after}
use protocol_contracts_solan.Solana.Account.{Pubkey, World}
use protocol_contracts_solan.Solana.Runtime.{Runtime}
use protocol_contracts_solan.Solana.Laws.{RuntimeLaws, TokensMoved}
use protocol_contracts_solan.Connected.{revert_word}
use protocol_contracts_solan.Connected.Text.{is_utf8, contains}
use protocol_contracts_solan.ConnectedSpl.{
  Pda, OnCall, Chain, connected_seed, pda_address, try_pda, try_on_call,
}
use protocol_contracts_solan.ConnectedSpl.Handlers
use protocol_contracts_solan.ConnectedSpl.Program.{Instruction, process}

module _ (rt : Runtime) (program_id : Pubkey) (pda_space : ℕ) where
  -- A call of the handler succeeds exactly when the message is UTF-8 without the word `revert` and
  -- the token program moves half of the amount, rounded down and with six decimals, on to the wallet;
  -- it then stores the sender and the message and nothing else.
  on_call_iff :
      (ctx : OnCall) (amount : ℕ) (sender input : Bytes) (p p' : Pda) (w w' : World)
      → (Handlers.on_call rt program_id pda_space ctx amount sender input p w ≡ ok (p', w')) ↔ (
          (is_utf8 input ≡ true)
          × (contains revert_word input ≡ false)
          × (rt.transfer_checked ctx.pda_ata.key ctx.mint_account.key ctx.random_wallet_ata.key
                ctx.pda.key
                (connected_seed ∷ ((pda_address rt program_id pda_space).1 ∷ []) ∷ [])
                (amount / 2)
                6
                w
              ≡ some w')
          × (p' ≡ record p { last_sender = sender; last_message = input }))
  unfolding Handlers.on_call
  on_call_iff ctx amount sender input p p' w w' = ground arith

  loads :
      (ctx : OnCall) (c : Chain) (p : Pda)
      → try_on_call rt program_id pda_space ctx c ≡ ok p
      → (c.pda ≡ some p) × (ctx.pda.key ≡ (pda_address rt program_id pda_space).0)
  unfolding try_on_call try_pda
  loads ctx c p h = ground (arith, eqb_iff ctx.pda.key (pda_address rt program_id pda_space).0)

  pub record Passed (ctx : OnCall) (amount : ℕ) (sender input : Bytes) (c c' : Chain) (p : Pda)
      : Type 0 where
    pub loaded : c.pda ≡ some p
    pub address : ctx.pda.key ≡ (pda_address rt program_id pda_space).0
    pub text : is_utf8 input ≡ true
    pub quiet : contains revert_word input ≡ false
    pub stored : c'.pda ≡ some (record p { last_sender = sender; last_message = input })
    pub moved : TokensMoved ctx.pda_ata.key ctx.random_wallet_ata.key (amount / 2) c.world c'.world

  -- Under the laws of the runtime, an `on_call` that succeeds has a UTF-8 message without the word
  -- `revert`, stores the sender and the message in the account at its address, and nothing else, and
  -- moves half of the amount, rounded down, from the token account that is given to the wallet's.
  pub on_call_moves :
      (laws : RuntimeLaws rt) (ctx : OnCall) (amount : ℕ) (sender input : Bytes) (c c' : Chain)
      → process rt program_id pda_space (Instruction.on_call ctx amount sender input) c ≡ ok c'
      → (p : Pda) × Passed ctx amount sender input c c' p
  unfolding process
  on_call_moves laws ctx amount sender input c c' h =
      after (try_on_call rt program_id pda_space ctx c) _ h λ p e h₁.
        after (Handlers.on_call rt program_id pda_space ctx amount sender input p c.world) _ h₁
          λ (p', w') e' h₂.
            let (text, quiet, call, stored) =
              (on_call_iff ctx amount sender input p p' c.world w').0 e' in
            let left : c' ≡ record { pda = some p'; world = w' } = ground arith in
            let (loaded, address) = loads ctx c p e in
            (
              p,
              rw left (record {
                loaded = loaded;
                address = address;
                text = text;
                quiet = quiet;
                stored = ap some stored;
                moved = laws.transfer_checked_moves _ _ _ _ _ (amount / 2) 6 c.world w' call;
              }),
            )
