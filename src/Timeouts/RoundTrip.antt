-- ===== src/Timeouts/RoundTrip.antt =====
-- src/timeout.c, `timeoutSet` for numbers in decimal notation.
use cmm.Prelude.{
  ℕ, ◌<◌, ◌≡◌, ◌≢◌, ◌⊎◌, refl, true, false, List, [], ◌∷◌, arith, leb, ◌==◌, Bool-cases, inl, inr,
}
use cmm.Timeouts.{
  codes, names, all_digits, strtoll, convert_to_numeric, uint32_max, sent, ipproto_tcp, proto_of,
  options, send_timeout, set_values, timeout_set,
}
use cmm.Timeouts.Decimal.{
  decimal, numeral, all_digits-numeral, strtoll-decimal, convert_to_numeric-decimal,
}

-- A number that begins the keyword.
digits-names :
    (xs : List ℕ)
    → all_digits xs ≡ true
    → names xs (codes "4rd") ≡ true
    → (strtoll 0 xs ≡ 0) ⊎ (strtoll 0 xs ≡ 4)
unfolding all_digits names strtoll
digits-names [] d h = inl refl
digits-names (c ∷ []) d h = inr (ground arith)
digits-names (c ∷ c' ∷ xs) d h = absurd (ground arith)

keyword_or_number :
    (m : ℕ) → 0 < m → m ≢ 4 → m < uint32_max → names (decimal m) (codes "4rd") ≡ false
keyword_or_number m pos h big = elim (Bool-cases (names (decimal m) (codes "4rd"))) [
  | inr plain ↦ plain
  | inl keyword ↦
      let value : strtoll 0 (decimal m) ≡ m = strtoll-decimal m big in
      elim (digits-names (decimal m) (all_digits-numeral 9 m) keyword) [
        | inl none_left ↦ absurd (omega (arith, value))
        | inr four ↦ absurd (h (omega (arith, value)))
      ]
]

-- Two timeouts from 1 to 2^32 - 2 in decimal notation, the second one not 4, and the keyword 4rd
-- are read by timeoutSet as those numbers.
pub timeout_set-decimal :
    (n m : ℕ)
    → 0 < n
    → n < uint32_max
    → 0 < m
    → m < uint32_max
    → m ≢ 4
    → timeout_set (codes "tcp" ∷ decimal n ∷ decimal m ∷ codes "4rd" ∷ [])
      ≡ sent (record {
        protocol = ipproto_tcp;
        sam_4o6_timeout = 1;
        timeout_value1 = n;
        timeout_value2 = m;
      })
unfolding timeout_set set_values send_timeout options proto_of names
timeout_set-decimal n m pos big pos' big' h =
    let value : convert_to_numeric (decimal n) ≡ n = convert_to_numeric-decimal n big in
    let some_n : (n == 0) ≡ false = ground arith in
    let some_m : (m == 0) ≡ false = ground arith in
    let fits_n : leb uint32_max n ≡ false = ground arith in
    let fits_m : leb uint32_max m ≡ false = ground arith in
    rw (value, some_n, keyword_or_number m pos' h big', convert_to_numeric-decimal m big', some_m)
      (rw (value, some_n, fits_n, fits_m) refl)

-- timeoutSet takes an optional argument 4 for the keyword 4rd, whatever the other arguments.
timeout_set_four :
    (name value : List ℕ) (args : List (List ℕ))
    → timeout_set (name ∷ value ∷ decimal 4 ∷ args)
      ≡ timeout_set (name ∷ value ∷ codes "4rd" ∷ args)
unfolding timeout_set set_values options names numeral
timeout_set_four name value args = refl
