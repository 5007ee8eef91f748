-- ===== src/Solana/Result.antt =====
-- `anchor_lang::Result`, over the error codes `E` of a program. An instruction that fails leaves
-- no trace on the chain, so an error carries no state.
use protocol_contracts_solan.Prelude.{
  ℕ, ◌+◌, ◌-◌, ◌≡◌, refl, Bool, true, false, Option, none, some, ltb, leb, if◌then◌else◌, arith,
  ◌⊎◌, inl, inr,
}
use protocol_contracts_solan.Prelude.Words.{u64_mod}

-- What Anchor checks of the accounts of a context before the handler runs.
pub data Constraint : Type 0 where
  constraint_mut constraint_signer constraint_seeds constraint_raw constraint_address : Constraint
  constraint_associated constraint_program account_not_initialized account_in_use : Constraint

-- `custom` is an `error_code` of the program, `panicked` an arithmetic overflow under
-- `overflow-checks`, and `external` a failure of code that the program calls.
pub data Error (E : Type 0) : Type 0 where
  custom : E → Error E
  constraint : Constraint → Error E
  invalid_argument panicked external : Error E

pub data Result (E A : Type 0) : Type 0 where
  ok : A → Result E A
  err : Error E → Result E A

infixl 5 ◌>>=◌ ◌>>◌
-- The step after a `?`: an error is the result at once.
abbrev pub ◌>>=◌ : {E A B : Type 0} → Result E A → (A → Result E B) → Result E B
err failure >>= next = err failure
ok value >>= next = next value

abbrev pub ◌>>◌ : {E B : Type 0} → Result E (Unit {0}) → Result E B → Result E B
check >> rest = check >>= λ passed. rest

-- `require!(b, e)`.
abbrev pub require : {E : Type 0} → Bool → E → Result E (Unit {0})
require true e = ok tt
require false e = err (custom e)

abbrev pub constrain : {E : Type 0} → Bool → Constraint → Result E (Unit {0})
constrain true c = ok tt
constrain false c = err (constraint c)

-- `?` on the result of a call that leaves the program.
abbrev pub external_call : {E A : Type 0} → Option A → Result E A
external_call (some a) = ok a
external_call none = err external

-- `ok_or(e)?` and `map_err(|_| e)?`.
abbrev pub or_custom : {E A : Type 0} → Option A → E → Result E A
or_custom (some a) e = ok a
or_custom none e = err (custom e)

-- The exit of an instruction, which serializes an account into its data: what it stores has to fit.
abbrev pub store_if : {E A : Type 0} → Bool → A → Result E A
store_if true a = ok a
store_if false a = err external

-- `u64::checked_add`.
abbrev pub checked_add : ℕ → ℕ → Option ℕ
checked_add a b = if ltb (a + b) u64_mod then some (a + b) else none

-- `+` and `-` on `u64`, in a build with `overflow-checks = true`.
abbrev pub add_u64 : {E : Type 0} → ℕ → ℕ → Result E ℕ
add_u64 a b = if ltb (a + b) u64_mod then ok (a + b) else err panicked

abbrev pub sub_u64 : {E : Type 0} → ℕ → ℕ → Result E ℕ
sub_u64 a b = if leb b a then ok (a - b) else err panicked

module _ {E A B : Type 0} where
  pub >>=-eq-ok :
      (step : Result E A) (next : A → Result E B) {final : B}
      → (step >>= next) ≡ ok final
      → (value : A) × (step ≡ ok value) × (next value ≡ ok final)
  >>=-eq-ok (err failure) next h = cc
  >>=-eq-ok (ok value) next h = (value, refl, h)

  pub ok_pair-injective :
      {a c : A} {b d : B} → ◌≡◌ {A = Result E (A × B)} (ok (a, b)) (ok (c, d)) → (c ≡ a) × (d ≡ b)
  ok_pair-injective h = ground arith

-- To go through a successful block step by step: each step's value is a variable of what follows.
module _ {κ} {E A B : Type 0} {C : Type κ} where
  pub after :
      (m : Result E A) (f : A → Result E B) {b : B}
      → (m >>= f) ≡ ok b
      → ((a : A) → m ≡ ok a → f a ≡ ok b → C)
      → C
  after (ok a) f h k = k a refl h
  after (err e) f h k = absurd (cc)

  pub after_call :
      (m : Option A) (f : A → Result E B) {b : B}
      → (external_call m >>= f) ≡ ok b
      → ((a : A) → m ≡ some a → f a ≡ ok b → C)
      → C
  after_call (some a) f h k = k a refl h
  after_call none f h k = absurd (cc)

-- To go through a block that fails: either its first step fails, or what follows it does.
module _ {κ} {E A B : Type 0} {C : Type κ} where
  pub failing :
      (m : Result E A) (f : A → Result E B) {e : Error E}
      → (m >>= f) ≡ err e
      → (m ≡ err e → C)
      → ((a : A) → m ≡ ok a → f a ≡ err e → C)
      → C
  failing (ok a) f h here later = later a refl h
  failing (err x) f h here later = here (ground arith)

  -- A call that leaves the program raises none of its own errors.
  pub failing_call :
      (m : Option A) (f : A → Result E B) {x : E}
      → (external_call m >>= f) ≡ err (custom x)
      → ((a : A) → m ≡ some a → f a ≡ err (custom x) → C)
      → C
  failing_call (some a) f h later = later a refl h
  failing_call none f h later = absurd (cc)

module _ {E A : Type 0} where
  pub Result-cases : (r : Result E A) → ((a : A) × (r ≡ ok a)) ⊎ ((e : Error E) × (r ≡ err e))
  Result-cases (ok a) = inl (a, refl)
  Result-cases (err e) = inr (e, refl)
