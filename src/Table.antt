-- ===== src/Table.antt =====
-- The hash tables of cmm: entries on the heap, each threaded through the list of one bucket
-- (src/list.h). A bucket is the sequence of the addresses on its list, which ListHead justifies:
-- `link` is `list_add`, `unlink` is `list_del`, `scan` is the loop
-- `while (entry != &table[key]) { if (match) goto found; entry = list_next(entry); }`.
pub mod Placed
use cmm.Prelude.{
  ℕ, ◌≡◌, Bool, true, false, Option, none, some, List, [], ◌∷◌, ◌==◌, if◌then◌else◌, update, erase,
}
use cmm.Prelude.Run.{Run, done, fault, spin}

module _ {A : Type 0} where
  -- An entry that the loop visits after it was freed is a fault.
  unfoldable pub scan : (A → Bool) → (ℕ → Option A) → List ℕ → Run (Option ℕ)
  scan test heap [] = done none
  scan test heap (p ∷ ps) =
      let rest = scan test heap ps in
      elim (heap p) [ none ↦ fault | some a ↦ if test a then done (some p) else rest ]

-- `list_add(&table[key], &p->list)`
abbrev pub link : ℕ → ℕ → (ℕ → List ℕ) → ℕ → List ℕ
link key p table = update table key (p ∷ table key)

-- `list_del(&p->list)` takes `p` off whichever list it is on.
abbrev pub unlink : ℕ → (ℕ → List ℕ) → ℕ → List ℕ
unlink p table key = erase p (table key)
