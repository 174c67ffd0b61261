-- ===== src/Table/Placed.antt =====
-- Each entry on the heap is on the list of its own bucket, once, and no other entry is on a list.
use cmm.Prelude.{
  ℕ, ◌≡◌, ◌≢◌, refl, Bool, true, false, Option, none, some, List, [], ◌∷◌, arith, ◌⊎◌, inl, inr,
  ◌==◌, if◌then◌else◌, update, mem, mem-NotIn, mem-erase, Distinct, Distinct-erase, Bool-cases,
  Option-cases,
}
use cmm.Prelude.Run.{done}
use cmm.Table.{scan, link, unlink}

abbrev pub is_home : {A : Type 0} → (A → ℕ) → Option A → ℕ → Bool
is_home hash none k = false
is_home hash (some a) k = hash a == k

module _ {A : Type 0} (hash : A → ℕ) where
  pub record IsPlaced (heap : ℕ → Option A) (table : ℕ → List ℕ) : Type 0 where
    pub placed : (p k : ℕ) → mem p (table k) ≡ is_home hash (heap p) k
    pub distinct : (k : ℕ) → Distinct (table k)

  pub insert-IsPlaced :
      (heap : ℕ → Option A) (table : ℕ → List ℕ) (p : ℕ) (a : A)
      → heap p ≡ none
      → IsPlaced heap table
      → IsPlaced (update heap p (some a)) (link (hash a) p table)
  insert-IsPlaced heap table p a fresh t = record {
    placed = λ q k. ground (arith, t.placed q k, t.placed p k);
    distinct = λ k. ground (arith, t.distinct k, t.placed p k, mem-NotIn p (table k));
  }

  pub remove-IsPlaced :
      (heap : ℕ → Option A) (table : ℕ → List ℕ) (p : ℕ)
      → IsPlaced heap table
      → IsPlaced (update heap p none) (unlink p table)
  remove-IsPlaced heap table p t = record {
    placed = λ q k. ground (arith, t.placed q k, mem-erase q p (table k) (t.distinct k));
    distinct = λ k. Distinct-erase p (table k) (t.distinct k);
  }

  -- An entry may change so long as it stays in its bucket.
  pub modify-IsPlaced :
      (heap : ℕ → Option A) (table : ℕ → List ℕ) (p : ℕ) (a b : A)
      → heap p ≡ some a
      → hash b ≡ hash a
      → IsPlaced heap table
      → IsPlaced (update heap p (some b)) table
  modify-IsPlaced heap table p a b here same t = record {
    placed = λ q k. ground (arith, t.placed q k);
    distinct = t.distinct;
  }

module _ {A : Type 0} (test : A → Bool) (heap : ℕ → Option A) where
  -- What the loop over a list finds.
  abbrev pub Scanned : List ℕ → Type 0
  Scanned xs =
      ((scan test heap xs ≡ done none)
        × ((q : ℕ) (a : A) → mem q xs ≡ true → heap q ≡ some a → test a ≡ false))
      ⊎ ((p : ℕ) × (a : A) × (scan test heap xs ≡ done (some p))
          × (mem p xs ≡ true)
          × (heap p ≡ some a)
          × (test a ≡ true))

  scan-cons :
      (x : ℕ) (xs : List ℕ) (a : A)
      → heap x ≡ some a
      → scan test heap (x ∷ xs) ≡ (if test a then done (some x) else scan test heap xs)
  unfolding scan
  scan-cons x xs a e = rw (e, scan)

  cons-misses :
      (x : ℕ) (xs : List ℕ) (a : A)
      → heap x ≡ some a
      → test a ≡ false
      → ((q : ℕ) (b : A) → mem q xs ≡ true → heap q ≡ some b → test b ≡ false)
      → (q : ℕ) (b : A) → mem q (x ∷ xs) ≡ true
      → heap q ≡ some b
      → test b ≡ false
  cons-misses x xs a e miss all q b m h = elim (Bool-cases (q == x)) [
    | inl same ↦ ground (arith, e, h, miss)
    | inr other ↦ all q b (ground arith) h
  ]

  scan-Scanned : (xs : List ℕ) → ((q : ℕ) → mem q xs ≡ true → heap q ≢ none) → Scanned xs
  unfolding scan
  scan-Scanned [] live = inl (refl, λ q a m. cc)
  scan-Scanned (x ∷ xs) live = elim (Option-cases (heap x)) [
    | inl dead ↦ absurd (live x (ground arith) dead)
    | inr (a, e) ↦ elim (Bool-cases (test a)) [
      | inl hit ↦ inr (x, a, rw (scan-cons x xs a e, hit), ground arith, e, hit)
      | inr miss ↦ elim (scan-Scanned xs (λ q m. live q (ground arith))) [
        | inl (missed, all) ↦
            inl (rw (scan-cons x xs a e, miss) missed, cons-misses x xs a e miss all)
        | inr (p, b, found, m, h, t) ↦
            inr (p, b, rw (scan-cons x xs a e, miss) found, ground arith, h, t)
      ]
    ]
  ]

module _ {A : Type 0} (hash : A → ℕ) (test : A → Bool) (heap : ℕ → Option A)
    (table : ℕ → List ℕ) where
  -- On a placed table the loop over a bucket meets no freed entry. It finds an entry of that bucket
  -- that passes the test, or there is none.
  abbrev pub Finds : ℕ → Type 0
  Finds k =
      ((scan test heap (table k) ≡ done none)
        × ((q : ℕ) (a : A) → heap q ≡ some a → hash a ≡ k → test a ≡ false))
      ⊎ ((p : ℕ) × (a : A) × (scan test heap (table k) ≡ done (some p))
          × (heap p ≡ some a)
          × (hash a ≡ k)
          × (test a ≡ true))

  module _ (t : IsPlaced hash heap table) where
    listed-live : (k q : ℕ) → mem q (table k) ≡ true → heap q ≢ none
    listed-live k q m dead = ground (arith, t.placed q k)

    listed-home : (k q : ℕ) (a : A) → mem q (table k) ≡ true → heap q ≡ some a → hash a ≡ k
    listed-home k q a m h = ground (arith, t.placed q k)

    live-listed : (k q : ℕ) (a : A) → heap q ≡ some a → hash a ≡ k → mem q (table k) ≡ true
    live-listed k q a h e = ground (arith, t.placed q k)

    pub scan-Finds : (k : ℕ) → Finds k
    scan-Finds k = elim (scan-Scanned test heap (table k) (listed-live k)) [
      | inl (missed, all) ↦ inl (missed, λ q a h e. all q a (live-listed k q a h e) h)
      | inr (p, a, found, m, h, hit) ↦ inr (p, a, found, h, listed-home k p a m h, hit)
    ]
