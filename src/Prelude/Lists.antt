-- ===== src/Prelude/Lists.antt =====
-- Lists measured by native numbers, under the library's names, and predicates on lists of addresses.
use Prim.Native.Nat.{ℕ, suc, ◌+◌}
use mathlib.Core.Path.{◌≡◌, refl}
use mathlib.Core.Logic.{◌≢◌}
use mathlib.Core.Bool.{Bool, true, false, ◌||◌}
use mathlib.Core.List.{List, [], ◌∷◌, ◌++◌}
use native.Mathlib.Omega.{arith}
use cmm.Prelude.Tests.{◌==◌, if◌then◌else◌}

module _ {ℓ} {A : Type ℓ} where
  abbrev pub length : List A → ℕ
  length [] = 0
  length (x ∷ xs) = suc (length xs)

  pub length-append : (xs ys : List A) → length (xs ++ ys) ≡ length xs + length ys
  length-append [] ys = omega arith
  length-append (x ∷ xs) ys = omega (arith, length-append xs ys)

-- A predicate by recursion computes to tuples, which the tactics read and build.
abbrev pub All {ℓ κ} : {A : Type ℓ} → (A → Type κ) → List A → Type κ
All P [] = Unit
All P (x ∷ xs) = P x × All P xs

abbrev pub NotIn : ℕ → List ℕ → Type 0
NotIn p = All (λ q. p ≢ q)

abbrev pub Distinct : List ℕ → Type 0
Distinct [] = Unit {0}
Distinct (x ∷ xs) = NotIn x xs × Distinct xs

abbrev pub mem : ℕ → List ℕ → Bool
mem p [] = false
mem p (x ∷ xs) = p == x || mem p xs

pub mem-NotIn : (p : ℕ) (xs : List ℕ) → mem p xs ≡ false → NotIn p xs
mem-NotIn p [] h = tt
mem-NotIn p (x ∷ xs) h = ground (arith, mem-NotIn p xs)

pub NotIn-mem : (p : ℕ) (xs : List ℕ) → NotIn p xs → mem p xs ≡ false
NotIn-mem p [] h = refl
NotIn-mem p (x ∷ xs) h = ground (arith, NotIn-mem p xs h.1)

-- `list_del` by address, on the sequence that a list holds.
abbrev pub erase : ℕ → List ℕ → List ℕ
erase p [] = []
erase p (x ∷ xs) = if x == p then xs else x ∷ erase p xs

NotIn-erase : (q p : ℕ) (xs : List ℕ) → NotIn q xs → NotIn q (erase p xs)
NotIn-erase q p [] h = tt
NotIn-erase q p (x ∷ xs) h = ground (arith, NotIn-erase q p xs h.1)

pub Distinct-erase : (p : ℕ) (xs : List ℕ) → Distinct xs → Distinct (erase p xs)
Distinct-erase p [] h = tt
Distinct-erase p (x ∷ xs) h = ground (arith, Distinct-erase p xs h.1, NotIn-erase x p xs h.0, h.1)

pub mem-erase :
    (q p : ℕ) (xs : List ℕ)
    → Distinct xs
    → mem q (erase p xs) ≡ (if q == p then false else mem q xs)
mem-erase q p [] h = ground arith
mem-erase q p (x ∷ xs) h = ground (arith, mem-erase q p xs h.1, NotIn-mem x xs h.0)

pub length-erase : (p : ℕ) (xs : List ℕ) → mem p xs ≡ true → length (erase p xs) + 1 ≡ length xs
length-erase p [] h = absurd (cc)
length-erase p (x ∷ xs) h = ground (arith, length-erase p xs)
