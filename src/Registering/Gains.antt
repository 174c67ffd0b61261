-- ===== src/Registering/Gains.antt =====
-- src/conntrack.c, `__cmmRouteRegister`: a holder joins the others of an entry, or makes the entry.
use cmm.Prelude.{
  ℕ, ◌+◌, ◌<◌, ◌≤◌, ◌≡◌, ◌≢◌, Option, some, List, ◌∷◌, arith, ◌==◌, if◌then◌else◌, Bool-cases, inl,
  inr,
}
use cmm.Holding.Counts.{pointers_to}

module _ {A : Type 0} (count : A → ℕ) where
  -- The entries that the pointers are to are there, and count each of them.
  abbrev pub Counted : List (Option ℕ) → (ℕ → Option A) → Type 0
  Counted xs es =
      (p : ℕ) → pointers_to p xs ≢ 0 → (a : A) × (es p ≡ some a) × (pointers_to p xs ≤ count a)

  -- The entry at `q` has a new holder; no other entry goes or loses one.
  pub record Gains (q : ℕ) (es es' : ℕ → Option A) : Type 0 where
    pub kept :
        (p : ℕ) (a : A)
        → es p ≡ some a
        → (a' : A) × (es' p ≡ some a') × ((if p == q then count a + 1 else count a) ≤ count a')
    pub held : (a : A) × (es' q ≡ some a) × (0 < count a)

  pub Gains-Counted :
      (q : ℕ) (xs : List (Option ℕ)) (es es' : ℕ → Option A)
      → Gains q es es'
      → Counted xs es
      → Counted (some q ∷ xs) es'
  Gains-Counted q xs es es' g c p some_left = elim (Bool-cases (pointers_to p xs == 0)) [
    | inr more ↦
        let (a, here, many) = c p (ground arith) in
        let (a', here', more') = g.kept p a here in (a', here', ground arith)
    | inl only ↦
        let (a, here, one) = g.held in
        let at : q ≡ p = ground arith in (a, ground arith, ground arith)
  ]
