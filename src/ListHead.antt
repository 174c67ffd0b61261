-- ===== src/ListHead.antt =====
-- src/list.h: circular doubly linked lists threaded through the entries that they hold.
pub mod Segments
pub mod Laws
pub mod Deletion
use cmm.Prelude.{
  ℕ, zero, suc, ◌≡◌, Bool, true, false, not, ◌&&◌, ◌||◌, Option, none, some, List, [], ◌∷◌, ◌==◌,
  if◌then◌else◌, update,
}

-- A null pointer is `none`.
pub record Node : Type 0 where
  pub prev : Option ℕ
  pub next : Option ℕ

-- The node at each address.
abbrev pub Memory : Type 0
Memory = ℕ → Node

abbrev pub set_next : ℕ → Option ℕ → Memory → Memory
set_next p v m = update m p (record { prev = (m p).prev; next = v })

abbrev pub set_prev : ℕ → Option ℕ → Memory → Memory
set_prev p v m = update m p (record { prev = v; next = (m p).next })

abbrev pub is_null : Option ℕ → Bool
is_null none = true
is_null (some p) = false

-- A write through a pointer; `none` stands for the fault at a null pointer.
abbrev pub write_prev : Option ℕ → Option ℕ → Memory → Option Memory
write_prev none v m = none
write_prev (some p) v m = some (set_prev p v m)

abbrev pub write_next : Option ℕ → Option ℕ → Memory → Option Memory
write_next none v m = none
write_next (some p) v m = some (set_next p v m)

infixl 5 ◌>>=◌
abbrev pub ◌>>=◌ : {A B : Type 0} → Option A → (A → Option B) → Option B
none >>= f = none
some a >>= f = f a

pub list_head_init : ℕ → Memory → Memory
list_head_init head m = set_next head (some head) (set_prev head (some head) m)

-- `none` is a failed assertion or a fault.
pub list_add : ℕ → ℕ → Memory → Option Memory
list_add head entry m =
    if is_null (m entry).next && is_null (m entry).prev
    then (do
      let m₁ = set_next entry (m head).next m
      m₂ ← write_prev (m₁ entry).next (some entry) m₁
      let m₃ = set_next head (some entry) m₂
      some (set_prev entry (some head) m₃))
    else none

pub list_del : ℕ → Memory → Option Memory
list_del entry m =
    if is_null (m entry).next && is_null (m entry).prev
    then some m
    else if is_null (m entry).next || is_null (m entry).prev
    then none
    else (do
      m₁ ← write_next (m entry).prev (m entry).next m
      m₂ ← write_prev (m₁ entry).next (m₁ entry).prev m₁
      let m₃ = set_prev entry none m₂
      some (set_next entry none m₃))

abbrev points_to : Option ℕ → ℕ → Bool
points_to none p = false
points_to (some q) p = q == p

pub list_empty : ℕ → Memory → Bool
list_empty head m = points_to (m head).next head

-- `for (entry = list_first(head); entry != head; entry = list_next(entry))`, with the entries met.
pub traverse : ℕ → ℕ → Option ℕ → Memory → Option (List ℕ)
traverse zero head entry m = none
traverse (suc fuel) head none m = none
traverse (suc fuel) head (some p) m =
    let rest = traverse fuel head (m p).next m >>= λ ps. some (p ∷ ps) in
    if p == head then some [] else rest
