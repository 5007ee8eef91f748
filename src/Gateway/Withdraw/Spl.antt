-- ===== src/Gateway/Withdraw/Spl.antt =====
-- Withdrawals of tokens: `handle_spl` of programs/gateway/src/instructions/withdraw.rs.
use protocol_contracts_solan.Prelude.{
  ℕ, ◌+◌, ◌-◌, ◌≡◌, ◌≢◌, ◌∙◌, refl, sym, Bool, true, ◌||◌, some, inl, inr, [], ◌∷◌, eqb, ◌==◌,
  Bool-cases, if◌then◌else◌, arith,
}
use protocol_contracts_solan.Solana.Result.{ok, after, after_call, ok_pair-injective, add_u64}
use protocol_contracts_solan.Solana.Account.{World, balance}
use protocol_contracts_solan.Solana.Runtime.{Runtime}
use protocol_contracts_solan.Solana.Laws.{RuntimeLaws, TokensMoved, AtaCreated}
use protocol_contracts_solan.Solana.Moves.{LamportsMoved, sub_add-LamportsMoved}
use protocol_contracts_solan.Gateway.State.{Pda, withdraw_spl_token}
use protocol_contracts_solan.Gateway.Utils.{Signed, verify_ata_match}
use protocol_contracts_solan.Gateway.Utils.Nonce.{advanced}
use protocol_contracts_solan.Gateway.Utils.Authorized.{Authorized, validate_message-Authorized}
use protocol_contracts_solan.Gateway.Utils.Ata.{verify_ata_match_iff}
use protocol_contracts_solan.Gateway.Contexts.{WithdrawSplToken}
use protocol_contracts_solan.Gateway.Withdraw.{create_recipient_ata, signer_seeds, handle_spl}

-- The accounts whose balances change are five: the signer has a private key, the account of the
-- gateway has none, and the two token accounts belong to the token program.
pub record AreDistinct (ctx : WithdrawSplToken) : Type 0 where
  pub signer-ne-pda : ctx.signer.key ≢ ctx.pda.key
  pub signer-ne-pda_ata : ctx.signer.key ≢ ctx.pda_ata.key
  pub signer-ne-recipient_ata : ctx.signer.key ≢ ctx.recipient_ata.key
  pub pda-ne-pda_ata : ctx.pda.key ≢ ctx.pda_ata.key
  pub pda-ne-recipient_ata : ctx.pda.key ≢ ctx.recipient_ata.key
  pub pda_ata-ne-recipient_ata : ctx.pda_ata.key ≢ ctx.recipient_ata.key

-- The test for a missing token account.
abbrev pub is_missing : WithdrawSplToken → World → Bool
is_missing ctx w =
    w.lamports ctx.recipient_ata.key == 0
    || eqb (w.account_owner ctx.recipient_ata.key) ctx.system_program.key

-- What the recipient's token account holds before the transfer.
abbrev pub initial_balance : WithdrawSplToken → World → ℕ
initial_balance ctx w = if is_missing ctx w then 0 else balance w ctx.recipient_ata.key

pub record AtaReady (ctx : WithdrawSplToken) (cost : ℕ) (w w₁ : World) : Type 0 where
  pub paid : w₁.lamports ctx.signer.key + cost ≡ w.lamports ctx.signer.key
  pub gateway : w₁.lamports ctx.pda.key ≡ w.lamports ctx.pda.key
  pub source : balance w₁ ctx.pda_ata.key ≡ balance w ctx.pda_ata.key
  pub target : balance w₁ ctx.recipient_ata.key ≡ initial_balance ctx w

module _ (rt : Runtime) (laws : RuntimeLaws rt) (ctx : WithdrawSplToken)
    (distinct : AreDistinct ctx) (w : World) where
  created-AtaReady :
      (w₁ : World)
      → is_missing ctx w ≡ true
      → AtaCreated ctx.signer.key ctx.recipient_ata.key w w₁
      → AtaReady ctx (w.lamports ctx.signer.key - w₁.lamports ctx.signer.key) w w₁
  created-AtaReady w₁ missing c = record {
    paid = omega (arith, c.paid);
    gateway =
        c.lamports ctx.pda.key (λ e. distinct.signer-ne-pda (sym e)) distinct.pda-ne-recipient_ata;
    source = rw (c.tokens ctx.pda_ata.key distinct.pda_ata-ne-recipient_ata, balance);
    target = rw missing c.empty;
  }

  create_recipient_ata-AtaReady :
      rt.get_associated_token_address ctx.recipient.key ctx.mint_account.key ≡ ctx.recipient_ata.key
      → (cost : ℕ) (w₁ : World) → create_recipient_ata rt ctx w ≡ ok (cost, w₁)
      → AtaReady ctx cost w w₁
  unfolding create_recipient_ata
  create_recipient_ata-AtaReady ata cost w₁ h = elim (Bool-cases (is_missing ctx w)) [
    | inl missing ↦
        after_call
          (rt.create_associated_token_account ctx.signer.key ctx.recipient.key ctx.mint_account.key
            w)
          _ (rw missing at h)
          λ w₂ e r.
            let facts : (cost ≡ w.lamports ctx.signer.key - w₂.lamports ctx.signer.key)
                × (w₁ ≡ w₂) =
              ground arith in
            rw (facts.0, facts.1)
              (created-AtaReady w₂ missing
                (rw ata at (laws.create_associated_token_account_pays _ _ _ w w₂ e)))
    | inr present ↦
        let (same_cost, same_world) = ok_pair-injective (rw present at h) in
        rw (same_cost, same_world)
          (record { paid = omega arith; gateway = refl; source = refl; target = rw present })
  ]

-- What a successful `handle_spl` has done, when the signer paid `cost` for a token account.
pub record SplWithdrawn (ctx : WithdrawSplToken) (amount cost : ℕ) (w w' : World) : Type 0 where
  pub gateway_pays : w'.lamports ctx.pda.key + (5000 + cost) ≡ w.lamports ctx.pda.key
  pub signer_gains : w'.lamports ctx.signer.key ≡ w.lamports ctx.signer.key + 5000
  pub tokens_taken : balance w' ctx.pda_ata.key + amount ≡ balance w ctx.pda_ata.key
  pub tokens_given : balance w' ctx.recipient_ata.key ≡ initial_balance ctx w + amount

AtaReady-SplWithdrawn :
    (ctx : WithdrawSplToken) (amount cost : ℕ) (w w₁ w₂ w' : World)
    → AreDistinct ctx
    → AtaReady ctx cost w w₁
    → TokensMoved ctx.pda_ata.key ctx.recipient_ata.key amount w₁ w₂
    → LamportsMoved ctx.pda.key ctx.signer.key (5000 + cost) w₂ w'
    → SplWithdrawn ctx amount cost w w'
AtaReady-SplWithdrawn ctx amount cost w w₁ w₂ w' d r t l = record {
  gateway_pays = omega (
    arith,
    l.taken (λ e. d.signer-ne-pda (sym e)),
    t.lamports ctx.pda.key d.pda-ne-pda_ata d.pda-ne-recipient_ata,
    r.gateway,
  );
  signer_gains = omega (
    arith,
    l.given (λ e. d.signer-ne-pda (sym e)),
    t.lamports ctx.signer.key d.signer-ne-pda_ata d.signer-ne-recipient_ata,
    r.paid,
  );
  tokens_taken =
      rw (l.token, balance) (omega (arith, t.taken d.pda_ata-ne-recipient_ata, r.source));
  tokens_given =
      rw (l.token, balance) (omega (arith, t.given d.pda_ata-ne-recipient_ata, r.target));
}

module _ (rt : Runtime) (laws : RuntimeLaws rt) (ctx : WithdrawSplToken) (decimals amount : ℕ)
    (m : Signed) (pda : Pda) (w : World) where
  -- Under the laws of the runtime, a withdrawal of tokens that succeeds, between distinct accounts,
  -- was authorized by the TSS for this amount, mint and token account; both token accounts are the
  -- associated ones of the gateway and of the recipient; the tokens have moved; and the gateway has
  -- refunded the signer for the account that it created, if any, and 5000 lamports more.
  pub handle_spl_moves :
      {pda' : Pda} {w' : World}
      → AreDistinct ctx
      → handle_spl rt ctx decimals amount m pda w ≡ ok (pda', w')
      → Authorized rt pda withdraw_spl_token
          (some amount)
          (ctx.mint_account.key ∷ ctx.recipient_ata.key ∷ [])
          m
        × (pda' ≡ advanced pda)
        × (rt.get_associated_token_address ctx.pda.key ctx.mint_account.key ≡ ctx.pda_ata.key)
        × (rt.get_associated_token_address ctx.recipient.key ctx.mint_account.key
            ≡ ctx.recipient_ata.key)
        × ((cost : ℕ) × SplWithdrawn ctx amount cost w w')
  unfolding handle_spl
  handle_spl_moves distinct h =
      let mint = ctx.mint_account.key in
      let pieces = mint ∷ ctx.recipient_ata.key ∷ [] in
      after _ _ h λ p e h₁.
        after (verify_ata_match rt ctx.pda.key mint ctx.pda_ata.key) _ h₁ λ u₁ e₁ h₂.
          after (verify_ata_match rt ctx.recipient.key mint ctx.recipient_ata.key) _ h₂ λ u₂ e₂ h₃.
            after (create_recipient_ata rt ctx w) _ h₃ λ (cost, w₁) e₃ h₄.
              after_call
                (rt.transfer_checked ctx.pda_ata.key mint ctx.recipient_ata.key ctx.pda.key
                  (signer_seeds rt) amount decimals w₁)
                _ h₄
                λ w₂ e₄ h₅. after (add_u64 5000 cost) _ h₅ λ refund e₅ h₆.
                  after_call _ _ h₆ λ w₃ e₆ h₇. after_call _ _ h₇ λ w₄ e₇ h₈.
                    let (a, adv) =
                      validate_message-Authorized rt pda withdraw_spl_token amount pieces m e in
                    let ata₁ = (verify_ata_match_iff rt _ _ _).0 e₁ in
                    let ata₂ = (verify_ata_match_iff rt _ _ _).0 e₂ in
                    let ready =
                      create_recipient_ata-AtaReady rt laws ctx distinct w ata₂ cost w₁ e₃ in
                    let (same_pda, same_world) = ok_pair-injective h₈ in
                    let sum : refund ≡ 5000 + cost = ground arith in
                    let tokens = laws.transfer_checked_moves _ _ _ _ _ amount decimals w₁ w₂ e₄ in
                    let moved =
                      sub_add-LamportsMoved rt laws ctx.pda.key ctx.signer.key refund w₂ e₆ e₇ in
                    (
                      a,
                      same_pda ∙ adv,
                      ata₁,
                      ata₂,
                      (
                        cost,
                        rw same_world (
                            AtaReady-SplWithdrawn ctx amount cost w w₁ w₂ w₄ distinct ready tokens
                              (rw sum at moved)),
                      ),
                    )
