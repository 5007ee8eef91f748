-- ===== src/Prelude/Words.antt =====
-- Fixed-width words as bytes, little-endian and big-endian.
use protocol_contracts_solan.Prelude.Lists.{length, length-append, append-injective}
use Prim.Native.Nat.{ℕ, zero, suc, ◌+◌, ◌*◌, ◌/◌, ◌%◌, ◌<◌}
use mathlib.Core.Path.{◌≡◌, refl, ap}
use mathlib.Core.List.{List, [], ◌∷◌, ◌++◌}
use native.Mathlib.Omega.{arith}

abbrev pub Bytes : Type 0
Bytes = List ℕ

abbrev pub u64_mod : ℕ
u64_mod = 18446744073709551616

abbrev pub u32_mod : ℕ
u32_mod = 4294967296

abbrev pub IsU64 : ℕ → Type 0
IsU64 n = n < u64_mod

-- `to_le_bytes` of a word of `w` bytes.
unfoldable pub le_bytes : ℕ → ℕ → Bytes
le_bytes zero n = []
le_bytes (suc w) n = (n % 256) ∷ le_bytes w (n / 256)

-- `to_be_bytes` of a word of `w` bytes.
unfoldable pub be_bytes : ℕ → ℕ → Bytes
be_bytes zero n = []
be_bytes (suc w) n = be_bytes w (n / 256) ++ ((n % 256) ∷ [])

pub length-le_bytes : (w n : ℕ) → length (le_bytes w n) ≡ w
unfolding le_bytes
length-le_bytes zero n = refl
length-le_bytes (suc w) n = ap suc (length-le_bytes w (n / 256))

pub length-be_bytes : (w n : ℕ) → length (be_bytes w n) ≡ w
unfolding be_bytes
length-be_bytes zero n = refl
length-be_bytes (suc w) n =
    omega (
      arith,
      length-append {0} (be_bytes w (n / 256)) ((n % 256) ∷ []),
      length-be_bytes w (n / 256),
    )

-- What a little-endian byte string stands for.
unfoldable pub le_value : Bytes → ℕ
le_value [] = 0
le_value (b ∷ bs) = b + 256 * le_value bs

-- The modulus of a word of `w` bytes.
abbrev pub modulus : ℕ → ℕ
modulus zero = 1
modulus (suc w) = 256 * modulus w

pub le_value-le_bytes : (w n : ℕ) → n < modulus w → le_value (le_bytes w n) ≡ n
unfolding le_value le_bytes
le_value-le_bytes zero n h = omega arith
le_value-le_bytes (suc w) n h = omega (arith, le_value-le_bytes w (n / 256) (omega arith))

pub be_bytes-injective :
    (w m n : ℕ) → m < modulus w → n < modulus w → be_bytes w m ≡ be_bytes w n → m ≡ n
unfolding be_bytes
be_bytes-injective zero m n hm hn e = omega arith
be_bytes-injective (suc w) m n hm hn e =
    let (p, q) =
      append-injective (be_bytes w (m / 256)) ((m % 256) ∷ []) (be_bytes w (n / 256))
        ((n % 256) ∷ []) (omega (arith, length-be_bytes w (m / 256), length-be_bytes w (n / 256)))
        e in
    let r : m / 256 ≡ n / 256 =
      be_bytes-injective w (m / 256) (n / 256) (omega arith) (omega arith) p in
    let t : m % 256 ≡ n % 256 = cc in omega arith
