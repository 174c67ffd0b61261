-- ===== src/Timeouts/Decimal.antt =====
-- Decimal numerals, and `cmm_convert_to_numeric` of them.
use cmm.Prelude.{
  ℕ, zero, suc, ◌+◌, ◌-◌, ◌*◌, ◌/◌, ◌%◌, ◌<◌, ◌≤◌, ◌≡◌, refl, true, List, [], ◌∷◌, ◌++◌, length,
  length-append, arith, ltb, leb, if◌then◌else◌, Bool-cases, inl, inr,
}
use cmm.Timeouts.{is_digit, all_digits, strtoll, convert_to_numeric, uint32_max}

-- The numeral of a number with at most `k + 1` digits.
unfoldable pub numeral : ℕ → ℕ → List ℕ
numeral zero n = (n % 10 + b'0') ∷ []
numeral (suc k) n =
    let rest = numeral k (n / 10) in
    if ltb n 10 then (n + b'0') ∷ [] else rest ++ (n % 10 + b'0') ∷ []

abbrev pub decimal : ℕ → List ℕ
decimal = numeral 9

strtoll-append :
    (acc : ℕ) (xs : List ℕ) (c : ℕ) → strtoll acc (xs ++ c ∷ []) ≡ strtoll acc xs * 10 + (c - b'0')
unfolding strtoll
strtoll-append acc [] c = refl
strtoll-append acc (x ∷ xs) c = strtoll-append (acc * 10 + (x - b'0')) xs c

all_digits-append :
    (xs : List ℕ) (c : ℕ)
    → all_digits xs ≡ true
    → is_digit c ≡ true
    → all_digits (xs ++ c ∷ []) ≡ true
unfolding all_digits
all_digits-append [] c h k = ground arith
all_digits-append (x ∷ xs) c h k = ground (arith, all_digits-append xs c)

digit : (n : ℕ) → is_digit (n % 10 + b'0') ≡ true
digit n = ground arith

length-numeral : (k n : ℕ) → length (numeral k n) ≤ k + 1
unfolding numeral
length-numeral zero n = omega arith
length-numeral (suc k) n =
    ground
      (arith, length-numeral k (n / 10), length-append (numeral k (n / 10)) ((n % 10 + b'0') ∷ []))

pub all_digits-numeral : (k n : ℕ) → all_digits (numeral k n) ≡ true
unfolding numeral all_digits
all_digits-numeral zero n = ground arith
all_digits-numeral (suc k) n = elim (Bool-cases (ltb n 10)) [
  | inl small ↦ ground arith
  | inr large ↦ rw large (
      all_digits-append (numeral k (n / 10)) (n % 10 + b'0') (all_digits-numeral k (n / 10))
        (digit n))
]

-- Ten to the power of `k + 1`.
abbrev ten_to : ℕ → ℕ
ten_to zero = 10
ten_to (suc k) = 10 * ten_to k

strtoll-numeral : (k n : ℕ) → n < ten_to k → strtoll 0 (numeral k n) ≡ n
unfolding numeral strtoll
strtoll-numeral zero n h = omega arith
strtoll-numeral (suc k) n h = elim (Bool-cases (ltb n 10)) [
  | inl small ↦ ground arith
  | inr large ↦
      let low : n / 10 < ten_to k = omega arith in
      rw
        (
          large,
          strtoll-append 0 (numeral k (n / 10)) (n % 10 + b'0'),
          strtoll-numeral k (n / 10) low,
        )
        (omega arith)
]

pub strtoll-decimal : (n : ℕ) → n < uint32_max → strtoll 0 (decimal n) ≡ n
strtoll-decimal n h = strtoll-numeral 9 n (omega arith)

-- A numeral of at most ten digits is read as its number.
pub convert_to_numeric-decimal : (n : ℕ) → n < uint32_max → convert_to_numeric (decimal n) ≡ n
unfolding convert_to_numeric
convert_to_numeric-decimal n h =
    let short : leb (length (decimal n)) 10 ≡ true = ground (arith, length-numeral 9 n) in
    rw (short, all_digits-numeral 9 n, strtoll-numeral 9 n (omega arith)) refl
