-- ===== src/Connected/Text.antt =====
-- `String::from_utf8` and `str::contains`, as programs/examples/connected/src/lib.rs uses them.
use protocol_contracts_solan.Prelude.{
  ℕ, zero, suc, ◌≡◌, ◌↔◌, refl, ap, Bool, true, false, ◌&&◌, ◌||◌, inl, inr, [], ◌∷◌, ◌++◌, leb,
  ◌==◌, if◌then◌else◌, Bool-cases, arith,
}
use protocol_contracts_solan.Prelude.Words.{Bytes}

-- The bytes that a lead byte asks for: how many, and the range of the first of them.
pub record Pending : Type 0 where
  pub count : ℕ
  pub low : ℕ
  pub high : ℕ

abbrev pub between : ℕ → ℕ → ℕ → Bool
between low high b = leb low b && leb b high

abbrev pending : ℕ → ℕ → ℕ → Pending
pending count low high = record { count = count; low = low; high = high }

-- Table 3-7 of the Unicode standard; a byte that leads nothing asks for one in an empty range.
unfoldable pub lead : ℕ → Pending
lead b =
    if leb b 127
    then pending 0 0 0
    else (if between 194 223 b
        then pending 1 128 191
        else (if b == 224
            then pending 2 160 191
            else (if b == 237
                then pending 2 128 159
                else (if between 225 239 b
                    then pending 2 128 191
                    else (if b == 240
                        then pending 3 144 191
                        else (if between 241 243 b
                            then pending 3 128 191
                            else (if b == 244 then pending 3 128 143 else pending 1 1 0)))))))

unfoldable pub is_utf8_from : ℕ → ℕ → ℕ → Bytes → Bool
is_utf8_from zero low high [] = true
is_utf8_from (suc n) low high [] = false
is_utf8_from zero low high (b ∷ bs) = is_utf8_from (lead b).count (lead b).low (lead b).high bs
is_utf8_from (suc n) low high (b ∷ bs) = between low high b && is_utf8_from n 128 191 bs

unfoldable pub is_utf8 : Bytes → Bool
is_utf8 = is_utf8_from 0 0 0

unfoldable pub starts_with : Bytes → Bytes → Bool
starts_with [] bs = true
starts_with (p ∷ ps) [] = false
starts_with (p ∷ ps) (b ∷ bs) = (p == b) && starts_with ps bs

-- On the bytes of two well-formed strings this is `str::contains`.
unfoldable pub contains : Bytes → Bytes → Bool
contains word [] = starts_with word []
contains word (b ∷ bs) = starts_with word (b ∷ bs) || contains word bs

starts_with-append : (word rest : Bytes) → starts_with word (word ++ rest) ≡ true
unfolding starts_with
starts_with-append [] rest = refl
starts_with-append (p ∷ ps) rest = ground (arith, starts_with-append ps rest)

starts_with-eq-true :
    (word bs : Bytes) → starts_with word bs ≡ true → (rest : Bytes) × (bs ≡ word ++ rest)
unfolding starts_with
starts_with-eq-true [] bs h = (bs, refl)
starts_with-eq-true (p ∷ ps) [] h = cc
starts_with-eq-true (p ∷ ps) (b ∷ bs) h =
    let facts : (p ≡ b) × (starts_with ps bs ≡ true) = ground arith in
    let (rest, e) = starts_with-eq-true ps bs facts.1 in (rest, cc)

abbrev pub Occurs : Bytes → Bytes → Type 0
Occurs word bs = (front : Bytes) × (rest : Bytes) × (bs ≡ front ++ (word ++ rest))

contains-Occurs : (word bs : Bytes) → contains word bs ≡ true → Occurs word bs
unfolding contains
contains-Occurs word [] h = let (rest, e) = starts_with-eq-true word [] h in ([], rest, e)
contains-Occurs word (b ∷ bs) h = elim (Bool-cases (starts_with word (b ∷ bs))) [
  | inl here ↦ let (rest, e) = starts_with-eq-true word (b ∷ bs) here in ([], rest, e)
  | inr absent ↦
      let (front, rest, e) = contains-Occurs word bs (ground arith) in
      (b ∷ front, rest, ap (λ r. b ∷ r) e)
]

contains-start : (word bs : Bytes) → starts_with word bs ≡ true → contains word bs ≡ true
unfolding contains
contains-start word [] h = h
contains-start word (b ∷ bs) h = ground arith

contains-append : (front word rest : Bytes) → contains word (front ++ (word ++ rest)) ≡ true
unfolding contains
contains-append [] word rest = contains-start word (word ++ rest) (starts_with-append word rest)
contains-append (b ∷ front) word rest = ground (arith, contains-append front word rest)

-- A word is contained in a text exactly when it occurs in it.
pub contains_iff : (word bs : Bytes) → (contains word bs ≡ true) ↔ Occurs word bs
contains_iff word bs =
    (contains-Occurs word bs, λ (front, rest, e). rw e (contains-append front word rest))
