-- ===== src/Prelude/Run.antt =====
-- What a C function does: it returns, it reads or writes memory that is not allocated (or fails an
-- assertion), or it stays in a loop for ever.
use mathlib.Core.Path.{◌≡◌, sym, ap, subst, ◌∙◌}
use mathlib.Core.Option.{Option, none, some}

pub data Run {ℓ} (A : Type ℓ) : Type ℓ where
  done : A → Run A
  fault : Run A
  spin : Run A

infixl 5 ◌>>=◌
abbrev pub ◌>>=◌ {ℓ κ} : {A : Type ℓ} {B : Type κ} → Run A → (A → Run B) → Run B
done a >>= f = f a
fault >>= f = fault
spin >>= f = spin

-- Reads through a pointer that may be dangling.
abbrev pub deref {ℓ} : {A : Type ℓ} → Option A → Run A
deref none = fault
deref (some a) = done a

-- The run returns, with a result of which `P` holds.
abbrev pub Returns {ℓ κ} : {A : Type ℓ} → Run A → (A → Type κ) → Type (ℓ ⊔ κ)
Returns {A} r P = (a : A) × (r ≡ done a) × P a

-- What a run returned, and a default where it did not return.
abbrev pub result_or {ℓ} : {A : Type ℓ} → Run A → A → A
result_or (done a) d = a
result_or fault d = d
result_or spin d = d

-- A run returns one result.
pub Returns-done {ℓ κ} :
    {A : Type ℓ} (P : A → Type κ) {r : Run A} {a : A} → r ≡ done a → Returns r P → P a
Returns-done {A} P {r} {a} e (b, run, h) =
    let same : b ≡ a = ap (λ s. result_or s a) (sym run ∙ e) in subst P same h
