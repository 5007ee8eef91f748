-- ===== src/Gateway/State/Packing.antt =====
-- The packed call as its reader sees it: programs/gateway/src/state.rs, `pack`.
use protocol_contracts_solan.Prelude.{
  ℕ, zero, suc, ◌+◌, ◌%◌, ◌<◌, ◌≡◌, refl, Option, none, some, [], ◌∷◌, ◌++◌, append_assoc, length,
  length-append, eqb, if◌then◌else◌, arith,
}
use protocol_contracts_solan.Prelude.Words.{
  Bytes, IsU64, le_bytes, le_value, le_value-le_bytes, length-le_bytes, u32_mod,
}
use protocol_contracts_solan.Gateway.State.{
  CallableInstruction, on_call, on_revert, pack_fields, pack, on_call_discriminator,
  on_revert_discriminator,
}

infixl 5 ◌>>=◌
abbrev ◌>>=◌ : {A B : Type 0} → Option A → (A → Option B) → Option B
none >>= f = none
some a >>= f = f a

-- The first `n` bytes and the rest, if there are so many.
pub split : ℕ → Bytes → Option (Bytes × Bytes)
split zero bs = some ([], bs)
split (suc n) [] = none
split (suc n) (b ∷ bs) = do (front, rest) ← split n bs; some (b ∷ front, rest)

-- The fields as Borsh reads them: a `u64`, a fixed array, a length in 32 bits, so many bytes.
pub read_fields : ℕ → (ℕ → Bytes → Bytes → CallableInstruction) → Bytes → Option CallableInstruction
read_fields width make bs = do
  (amount, bs₁) ← split 8 bs
  (sender, bs₂) ← split width bs₁
  (data_len, bs₃) ← split 4 bs₂
  (input, bs₄) ← split (le_value data_len) bs₃
  some (make (le_value amount) sender input)

-- The reader of a destination program, which tells the two calls apart by the discriminator.
unfoldable pub unpack : Bytes → Option CallableInstruction
unpack bs = do
  (discriminator, rest) ← split 8 bs
  if eqb discriminator on_call_discriminator
      then read_fields 20 on_call rest
      else (if eqb discriminator on_revert_discriminator
          then read_fields 32 on_revert rest
          else none)

split-append : (n : ℕ) (xs ys : Bytes) → length xs ≡ n → split n (xs ++ ys) ≡ some (xs, ys)
unfolding split
split-append zero [] ys h = refl
split-append zero (x ∷ xs) ys h = absurd (omega arith)
split-append (suc n) [] ys h = absurd (omega arith)
split-append (suc n) (x ∷ xs) ys h = rw (split-append n xs ys (omega arith))

split_all : (xs : Bytes) → split (length xs) xs ≡ some (xs, [])
unfolding split
split_all [] = refl
split_all (x ∷ xs) = rw (split_all xs)

-- Every field fits its type, and the payload its 32-bit length.
abbrev pub IsPackable : CallableInstruction → Type 0
IsPackable (on_call amount sender input) =
    IsU64 amount × (length sender ≡ 20) × (length input < u32_mod)
IsPackable (on_revert amount sender input) =
    IsU64 amount × (length sender ≡ 32) × (length input < u32_mod)

read_fields-pack_fields :
    (width : ℕ) (make : ℕ → Bytes → Bytes → CallableInstruction) (amount : ℕ) (sender input : Bytes)
    → IsU64 amount
    → length sender ≡ width
    → length input < u32_mod
    → read_fields width make
        (le_bytes 8 amount ++ (sender ++ (le_bytes 4 (length input % u32_mod) ++ input)))
      ≡ some (make amount sender input)
unfolding read_fields
read_fields-pack_fields width make amount sender input ha hs hi =
    let len : length input % u32_mod ≡ length input = omega arith in
    rw
      (
        split-append 8 (le_bytes 8 amount)
            (sender ++ (le_bytes 4 (length input % u32_mod) ++ input)) (length-le_bytes 8 amount),
        split-append width sender (le_bytes 4 (length input % u32_mod) ++ input) hs,
        split-append 4 (le_bytes 4 (length input % u32_mod)) input
            (length-le_bytes 4 (length input % u32_mod)),
        len,
        le_value-le_bytes 8 amount (omega arith),
        le_value-le_bytes 4 (length input) (omega arith),
      )
      (rw (split_all input))

regroup : (a b c d e : Bytes) → (((a ++ b) ++ c) ++ d) ++ e ≡ a ++ (b ++ (c ++ (d ++ e)))
regroup a b c d e = simp append_assoc

split-pack_fields :
    (d : Bytes) (amount : ℕ) (sender input : Bytes)
    → length d ≡ 8
    → split 8 (pack_fields d amount sender input)
      ≡ some (d, le_bytes 8 amount ++ (sender ++ (le_bytes 4 (length input % u32_mod) ++ input)))
unfolding pack_fields
split-pack_fields d amount sender input h =
    rw (regroup d (le_bytes 8 amount) sender (le_bytes 4 (length input % u32_mod)) input)
      (split-append 8 d _ h)

-- Every packable call is read back whole: its kind, amount, sender and payload.
pub unpack-pack : (c : CallableInstruction) → IsPackable c → unpack (pack c) ≡ some c
unfolding unpack pack eqb
unpack-pack (on_call amount sender input) (ha, hs, hi) =
    rw (split-pack_fields on_call_discriminator amount sender input refl)
      (read_fields-pack_fields 20 on_call amount sender input ha hs hi)
unpack-pack (on_revert amount sender input) (ha, hs, hi) =
    rw (split-pack_fields on_revert_discriminator amount sender input refl)
      (read_fields-pack_fields 32 on_revert amount sender input ha hs hi)

length-pack_fields :
    (d : Bytes) (amount : ℕ) (sender input : Bytes)
    → length (pack_fields d amount sender input) ≡ length d + 8 + length sender + 4 + length input
unfolding pack_fields
length-pack_fields d amount sender input =
    rw
      (length-append, length-append, length-append, length-append, length-le_bytes, length-le_bytes)

abbrev pub capacity : CallableInstruction → ℕ
capacity (on_call amount sender input) = 8 + 8 + 20 + 4 + length input
capacity (on_revert amount sender input) = 8 + 8 + 32 + 4 + length input

-- A packable call takes the discriminator, the amount, the sender, the length and the payload, and
-- no byte more.
pub length-pack : (c : CallableInstruction) → IsPackable c → length (pack c) ≡ capacity c
unfolding pack
length-pack (on_call amount sender input) (ha, hs, hi) =
    omega (arith, length-pack_fields on_call_discriminator amount sender input)
length-pack (on_revert amount sender input) (ha, hs, hi) =
    omega (arith, length-pack_fields on_revert_discriminator amount sender input)
