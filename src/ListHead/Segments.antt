-- ===== src/ListHead/Segments.antt =====
-- src/list.h: what it is for a chain of nodes to be well linked, and what writes keep.
use cmm.Prelude.{ℕ, ◌≡◌, ◌≢◌, Option, some, List, [], ◌∷◌, arith, NotIn, Distinct}
use cmm.ListHead.{Memory, set_next, set_prev}

-- The nodes `xs` stand in this order between `a` and `b`, linked both ways.
abbrev pub Segment : Memory → ℕ → List ℕ → ℕ → Type 0
Segment m a [] b = ((m a).next ≡ some b) × ((m b).prev ≡ some a)
Segment m a (x ∷ xs) b = ((m a).next ≡ some x) × ((m x).prev ≡ some a) × Segment m x xs b

-- The list of a head: a ring through the head, each node once.
pub record IsRing (m : Memory) (head : ℕ) (xs : List ℕ) : Type 0 where
  pub linked : Segment m head xs head
  pub distinct : Distinct (head ∷ xs)

pub set_next-Segment :
    (m : Memory) (p : ℕ) (v : Option ℕ) (a : ℕ) (xs : List ℕ) (b : ℕ)
    → p ≢ a
    → NotIn p xs
    → Segment m a xs b
    → Segment (set_next p v m) a xs b
set_next-Segment m p v a [] b h k s = ground arith
set_next-Segment m p v a (x ∷ xs) b h k s =
    ground (arith, set_next-Segment m p v x xs b k.0 k.1 s.2)

pub set_prev-Segment :
    (m : Memory) (p : ℕ) (v : Option ℕ) (a : ℕ) (xs : List ℕ) (b : ℕ)
    → p ≢ b
    → NotIn p xs
    → Segment m a xs b
    → Segment (set_prev p v m) a xs b
set_prev-Segment m p v a [] b h k s = ground arith
set_prev-Segment m p v a (x ∷ xs) b h k s = ground (arith, set_prev-Segment m p v x xs b h k.1 s.2)
