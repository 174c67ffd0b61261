-- ===== src/Tests/Inputs.antt =====
-- Inputs that the tests share.
use cmm.Prelude.{◌+◌}
use cmm.Net.{Jhash, word}

-- A mixing function for the tests.
instance abbrev pub sum_jhash : Jhash
sum_jhash = record {
  jhash = λ words seed. word words 0 + seed;
  jhash_1word = λ a seed. a + seed;
  jhash_2words = λ a b seed. a + b + seed;
}
