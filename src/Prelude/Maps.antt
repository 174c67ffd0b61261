-- ===== src/Prelude/Maps.antt =====
-- Memory and tables as functions of an address or an index.
use Prim.Native.Nat.{ℕ}
use mathlib.Core.Path.{◌≡◌, sym, ap, subst, ◌∙◌}
use mathlib.Core.Logic.{◌≢◌, ◌⊎◌, inl, inr}
use mathlib.Core.Option.{Option, some, some-injective}
use native.Mathlib.Omega.{arith}
use cmm.Prelude.Tests.{◌==◌, Bool-cases, if◌then◌else◌}

module _ {ℓ} {A : Type ℓ} where
  abbrev pub update : (ℕ → A) → ℕ → A → ℕ → A
  update f k v q = if q == k then v else f q

  pub update_self : (f : ℕ → A) (k : ℕ) (v : A) → update f k v k ≡ v
  update_self f k v = ground arith

  pub update_ne : (f : ℕ → A) (k q : ℕ) (v : A) → q ≢ k → update f k v q ≡ f q
  update_ne f k q v h = ground arith

module _ {ℓ} {A : Type ℓ} where
  -- Where a value comes from that is read after a write.
  pub update-eq-some :
      (f : ℕ → Option A) (k : ℕ) (v : A) (q : ℕ) (a : A)
      → update f k (some v) q ≡ some a
      → ((q ≡ k) × (a ≡ v)) ⊎ ((q ≢ k) × (f q ≡ some a))
  update-eq-some f k v q a h = elim (Bool-cases (q == k)) [
    | inl same ↦ inl (ground arith, sym (some-injective _ _ (rw same at h)))
    | inr other ↦ inr (ground arith, rw other at h)
  ]

-- A pointer and what it points to are determined by where they are kept.
pub pointee_subst {ℓ κ} :
    {A : Type ℓ} (P : ℕ → A → Type κ) (o : Option ℕ) (f : ℕ → Option A) (p p' : ℕ) (a a' : A)
    → o ≡ some p
    → o ≡ some p'
    → f p ≡ some a
    → f p' ≡ some a'
    → P p a
    → P p' a'
pointee_subst P o f p p' a a' e e' h h' x =
    let at : p ≡ p' = some-injective _ _ (sym e ∙ e') in
    let same : a ≡ a' = some-injective _ _ (sym h ∙ ap f at ∙ h') in
    subst (P p') same (subst (λ q. P q a) at x)
