-- ===== src/Net.antt =====
-- Address families, addresses as the 32-bit words that the C arrays hold, and the hash functions of
-- src/route_cache.h and src/neighbor_resolution.h. The mixing functions `jhash` (of the
-- words that a call gives it), `jhash_1word` and `jhash_2words` of src/jhash.h, a copy of the Linux
-- kernel's, are parameters.
use cmm.Prelude.{
  ℕ, zero, suc, ◌+◌, ◌*◌, ◌%◌, ◌^◌, ◌<◌, ◌≤◌, ◌≡◌, ◌/◌, refl, ap, sym, ◌∙◌, Bool, true, false, ◌&&◌,
  List, [], ◌∷◌, length, arith, ◌==◌, if◌then◌else◌, bit_xor, Bool-cases, inl, inr,
}

-- The Linux values, which the code takes from <sys/socket.h>.
abbrev pub af_inet : ℕ
af_inet = 2

abbrev pub af_inet6 : ℕ
af_inet6 = 10

-- IPADDRLEN, in bytes.
abbrev pub ip_addr_len : ℕ → ℕ
ip_addr_len family = if family == af_inet then 4 else 16

abbrev pub route_hash_table_size : ℕ
route_hash_table_size = 2048

abbrev pub neighbor_hash_table_size : ℕ
neighbor_hash_table_size = 2048

pub record Jhash : Type 0 where
  pub jhash : List ℕ → ℕ → ℕ
  pub jhash_1word : ℕ → ℕ → ℕ
  pub jhash_2words : ℕ → ℕ → ℕ → ℕ

-- The word at an index of an array; the arrays are read within their bounds.
unfoldable pub word : List ℕ → ℕ → ℕ
word [] i = 0
word (x ∷ xs) zero = x
word (x ∷ xs) (suc i) = word xs i

-- `!memcmp` of the first `n` elements.
unfoldable pub mem_eq : ℕ → List ℕ → List ℕ → Bool
mem_eq zero xs ys = true
mem_eq (suc n) [] [] = true
mem_eq (suc n) [] (y ∷ ys) = false
mem_eq (suc n) (x ∷ xs) [] = false
mem_eq (suc n) (x ∷ xs) (y ∷ ys) = x == y && mem_eq n xs ys

-- `memcpy` of the first `n` elements of the first array over the second.
unfoldable pub mem_copy : ℕ → List ℕ → List ℕ → List ℕ
mem_copy zero xs ys = ys
mem_copy (suc n) [] ys = ys
mem_copy (suc n) (x ∷ xs) [] = []
mem_copy (suc n) (x ∷ xs) (y ∷ ys) = x ∷ mem_copy n xs ys

pub mem_eq_refl : (n : ℕ) (xs : List ℕ) → mem_eq n xs xs ≡ true
unfolding mem_eq
mem_eq_refl zero xs = refl
mem_eq_refl (suc n) [] = refl
mem_eq_refl (suc n) (x ∷ xs) = ground (arith, mem_eq_refl n xs)

pub mem_eq_symm : (n : ℕ) (xs ys : List ℕ) → mem_eq n xs ys ≡ true → mem_eq n ys xs ≡ true
unfolding mem_eq
mem_eq_symm zero xs ys h = refl
mem_eq_symm (suc n) [] [] h = refl
mem_eq_symm (suc n) [] (y ∷ ys) h = h
mem_eq_symm (suc n) (x ∷ xs) [] h = h
mem_eq_symm (suc n) (x ∷ xs) (y ∷ ys) h = ground (arith, mem_eq_symm n xs ys)

pub mem_eq_trans :
    (n : ℕ) (xs ys zs : List ℕ)
    → mem_eq n xs ys ≡ true
    → mem_eq n ys zs ≡ true
    → mem_eq n xs zs ≡ true
unfolding mem_eq
mem_eq_trans zero xs ys zs h k = refl
mem_eq_trans (suc n) [] [] zs h k = k
mem_eq_trans (suc n) [] (y ∷ ys) zs h k = ground arith
mem_eq_trans (suc n) (x ∷ xs) [] zs h k = ground arith
mem_eq_trans (suc n) (x ∷ xs) (y ∷ ys) [] h k = k
mem_eq_trans (suc n) (x ∷ xs) (y ∷ ys) (z ∷ zs) h k = ground (arith, mem_eq_trans n xs ys zs)

pub mem_eq-copy :
    (n : ℕ) (xs ys : List ℕ) → n ≤ length xs → n ≤ length ys → mem_eq n (mem_copy n xs ys) xs ≡ true
unfolding mem_eq mem_copy
mem_eq-copy zero xs ys h k = refl
mem_eq-copy (suc n) [] ys h k = absurd (omega arith)
mem_eq-copy (suc n) (x ∷ xs) [] h k = absurd (omega arith)
mem_eq-copy (suc n) (x ∷ xs) (y ∷ ys) h k =
    let rest = mem_eq-copy n xs ys (omega arith) (omega arith) in ground (arith, rest)

pub length-mem_copy : (n : ℕ) (xs ys : List ℕ) → length (mem_copy n xs ys) ≡ length ys
unfolding mem_copy
length-mem_copy zero xs ys = refl
length-mem_copy (suc n) [] ys = refl
length-mem_copy (suc n) (x ∷ xs) [] = refl
length-mem_copy (suc n) (x ∷ xs) (y ∷ ys) = ap suc (length-mem_copy n xs ys)

pub word-mem_eq : (n i : ℕ) (xs ys : List ℕ) → mem_eq n xs ys ≡ true → i < n → word xs i ≡ word ys i
unfolding mem_eq word
word-mem_eq zero i xs ys e h = absurd (omega arith)
word-mem_eq (suc n) i [] [] e h = refl
word-mem_eq (suc n) i [] (y ∷ ys) e h = absurd (ground arith)
word-mem_eq (suc n) i (x ∷ xs) [] e h = absurd (ground arith)
word-mem_eq (suc n) zero (x ∷ xs) (y ∷ ys) e h = ground arith
word-mem_eq (suc n) (suc i) (x ∷ xs) (y ∷ ys) e h =
    word-mem_eq n i xs ys (ground arith) (omega arith)

-- The words of an IPv6 address.
unfoldable pub four_words : List ℕ → List ℕ
unfolding word
four_words a = word a 0 ∷ word a 1 ∷ word a 2 ∷ word a 3 ∷ []

pub four_words-mem_eq : (a b : List ℕ) → mem_eq 4 a b ≡ true → four_words a ≡ four_words b
unfolding four_words
four_words-mem_eq a b e = rw (
  word-mem_eq 4 0 a b e (omega arith),
  word-mem_eq 4 1 a b e (omega arith),
  word-mem_eq 4 2 a b e (omega arith),
  word-mem_eq 4 3 a b e (omega arith),
)

-- An array of four words, `unsigned int [4]`, after `memset`.
abbrev pub no_addr : List ℕ
no_addr = 0 ∷ 0 ∷ 0 ∷ 0 ∷ []

-- The exclusive or of the four words of an IPv6 address.
fold_words : List ℕ → ℕ
unfolding word
fold_words a = bit_xor (bit_xor (bit_xor (word a 0) (word a 1)) (word a 2)) (word a 3)

-- The first four bytes of a MAC address as a little-endian word, and the other two.
unfoldable pub mac_key : List ℕ → ℕ
unfolding word
mac_key m =
    bit_xor (word m 0 + word m 1 * 2 ^ 8 + word m 2 * 2 ^ 16 + word m 3 * 2 ^ 24)
      (word m 4 + word m 5 * 2 ^ 8)

module _ ⦃jhash : Jhash⦄ where
  -- `x & (ROUTE_HASH_TABLE_SIZE - 1)` is `x % 2048`.
  unfoldable pub hash_rt : ℕ → List ℕ → List ℕ → ℕ
  unfolding fold_words word
  hash_rt family saddr daddr =
      if family == af_inet
      then jhash.jhash_2words (word daddr 0) (word saddr 0) 0x12563478 % route_hash_table_size
      else jhash.jhash_2words (fold_words daddr) (fold_words saddr) 0x12563478
          % route_hash_table_size
        + route_hash_table_size

  unfoldable pub hash_fpp_rt : ℕ → List ℕ → ℕ
  unfolding mac_key
  hash_fpp_rt ifindex mac =
      jhash.jhash_2words (mac_key mac) ifindex 0x12345678 % route_hash_table_size

  unfoldable pub hash_neighbor : ℕ → List ℕ → ℕ
  unfolding fold_words word
  hash_neighbor family addr =
      if family == af_inet6
      then jhash.jhash_1word (fold_words addr) 0x12345678 % neighbor_hash_table_size
        + neighbor_hash_table_size
      else jhash.jhash_1word (word addr 0) 0x12345678 % neighbor_hash_table_size

  unfoldable pub hash_mac : List ℕ → ℕ
  unfolding mac_key
  hash_mac mac = jhash.jhash_1word (mac_key mac) 0x12345678 % neighbor_hash_table_size

  -- Addresses that agree as far as their family reaches have one bucket.
  pub hash_rt_congr :
      (family : ℕ) (s s' d d' : List ℕ)
      → mem_eq (ip_addr_len family / 4) s s' ≡ true
      → mem_eq (ip_addr_len family / 4) d d' ≡ true
      → hash_rt family s d ≡ hash_rt family s' d'
  unfolding hash_rt fold_words
  hash_rt_congr family s s' d d' e h = elim (Bool-cases (family == af_inet)) [
    | inl v4 ↦ rw (
      v4,
      word-mem_eq 1 0 s s' (rw v4 at e) (omega arith),
      word-mem_eq 1 0 d d' (rw v4 at h) (omega arith),
    )
    | inr v6 ↦
        let e₆ : mem_eq 4 s s' ≡ true = rw v6 at e in
        let h₆ : mem_eq 4 d d' ≡ true = rw v6 at h in
        rw (
          v6,
          word-mem_eq 4 0 s s' e₆ (omega arith),
          word-mem_eq 4 1 s s' e₆ (omega arith),
          word-mem_eq 4 2 s s' e₆ (omega arith),
          word-mem_eq 4 3 s s' e₆ (omega arith),
          word-mem_eq 4 0 d d' h₆ (omega arith),
          word-mem_eq 4 1 d d' h₆ (omega arith),
          word-mem_eq 4 2 d d' h₆ (omega arith),
          word-mem_eq 4 3 d d' h₆ (omega arith),
        )
  ]

  pub hash_neighbor_congr :
      (family : ℕ) (a a' : List ℕ)
      → mem_eq (ip_addr_len family / 4) a a' ≡ true
      → hash_neighbor family a ≡ hash_neighbor family a'
  unfolding hash_neighbor fold_words
  hash_neighbor_congr family a a' e =
      let first : word a 0 ≡ word a' 0 =
        word-mem_eq (ip_addr_len family / 4) 0 a a' e (ground arith) in
      elim (Bool-cases (family == af_inet6)) [
        | inr v4 ↦ rw (v4, first)
        | inl v6 ↦
            let four : ip_addr_len family / 4 ≡ 4 = ground arith in
            let e₆ : mem_eq 4 a a' ≡ true = ap (λ n. mem_eq n a a') (sym four) ∙ e in
            rw (
              v6,
              first,
              word-mem_eq 4 1 a a' e₆ (omega arith),
              word-mem_eq 4 2 a a' e₆ (omega arith),
              word-mem_eq 4 3 a a' e₆ (omega arith),
            )
      ]

  -- Equal MAC addresses have one bucket.
  pub hash_mac_congr : (m m' : List ℕ) → mem_eq 6 m m' ≡ true → hash_mac m ≡ hash_mac m'
  unfolding hash_mac
  hash_mac_congr m m' e =
      let at : (i : ℕ) → i < 6 → word m i ≡ word m' i = λ i h. word-mem_eq 6 i m m' e h in
      rw (
        at 0 (omega arith),
        at 1 (omega arith),
        at 2 (omega arith),
        at 3 (omega arith),
        at 4 (omega arith),
        at 5 (omega arith),
      )
