-- ===== src/ListHead/Laws.antt =====
-- src/list.h: the operations seen as operations on a sequence.
use cmm.Prelude.{ℕ, ◌≡◌, ◌≢◌, sym, none, some, List, [], ◌∷◌, arith, NotIn}
use cmm.ListHead.{Memory, set_next, set_prev, list_head_init, list_add}
use cmm.ListHead.Segments.{Segment, IsRing, set_next-Segment, set_prev-Segment}

list_head_init_lem : (head : ℕ) (m : Memory) → IsRing (list_head_init head m) head []
unfolding list_head_init
list_head_init_lem head m = ground arith

-- A node that is in no list has a null pointer, so it is none of the nodes of a list.
Segment-NotIn :
    (m : Memory) (e a : ℕ) (xs : List ℕ) (b : ℕ)
    → (m e).next ≡ none
    → Segment m a xs b
    → (e ≢ a) × NotIn e xs
Segment-NotIn m e a [] b h s = ground arith
Segment-NotIn m e a (x ∷ xs) b h s = ground (arith, Segment-NotIn m e x xs b h s.2)

-- The four writes of `list_add`, where `f` is the first node after the head.
linked_in : ℕ → ℕ → ℕ → Memory → Memory
linked_in head entry f m =
    set_prev entry (some head)
      (set_next head (some entry) (set_prev f (some entry) (set_next entry (some f) m)))

list_add_linked :
    (m : Memory) (head entry f : ℕ)
    → (m entry).next ≡ none
    → (m entry).prev ≡ none
    → (m head).next ≡ some f
    → entry ≢ head
    → list_add head entry m ≡ some (linked_in head entry f m)
unfolding list_add linked_in
list_add_linked m head entry f hn hp hf ne = ground arith

abbrev first : ℕ → List ℕ → ℕ
first head [] = head
first head (x ∷ xs) = x

next-first :
    (m : Memory) (head : ℕ) (xs : List ℕ) → IsRing m head xs → (m head).next ≡ some (first head xs)
next-first m head [] r = r.linked.0
next-first m head (x ∷ xs) r = r.linked.0

linked_in-IsRing :
    (m : Memory) (head entry : ℕ) (xs : List ℕ)
    → entry ≢ head
    → NotIn entry xs
    → IsRing m head xs
    → IsRing (linked_in head entry (first head xs) m) head (entry ∷ xs)
unfolding linked_in
linked_in-IsRing m head entry [] ne k r = ground (arith, r.linked)
linked_in-IsRing m head entry (x ∷ xs) ne k r =
    let d = r.distinct in
    let s₁ = set_next-Segment m entry (some x) x xs head k.0 k.1 r.linked.2 in
    let s₂ = set_prev-Segment _ x (some entry) x xs head (λ e. d.0.0 (sym e)) d.1.0 s₁ in
    let s₃ = set_next-Segment _ head (some entry) x xs head d.0.0 d.0.1 s₂ in
    let s₄ = set_prev-Segment _ entry (some head) x xs head ne k.1 s₃ in
    record {
      linked = (ground arith, ground arith, (ground arith, ground arith, s₄));
      distinct = ((λ e. ne (sym e), d.0), (k, d.1));
    }

linked_in-frame :
    (m : Memory) (head entry f q : ℕ)
    → q ≢ head
    → q ≢ entry
    → q ≢ f
    → linked_in head entry f m q ≡ m q
unfolding linked_in
linked_in-frame m head entry f q h₁ h₂ h₃ = ground arith

first-NotIn : (q head : ℕ) (xs : List ℕ) → q ≢ head → NotIn q xs → q ≢ first head xs
first-NotIn q head [] h k = h
first-NotIn q head (x ∷ xs) h k = k.0

-- The node `entry` is in no list.
abbrev pub IsUnlinked : Memory → ℕ → Type 0
IsUnlinked m entry = ((m entry).next ≡ none) × ((m entry).prev ≡ none)

-- `list_add` does not fail on a node that is in no list: it puts the node first, keeps the other
-- nodes in their order, and writes to no node outside the list.
list_add-IsRing :
    (m : Memory) (head entry : ℕ) (xs : List ℕ)
    → IsRing m head xs
    → IsUnlinked m entry
    → (m' : Memory) × (list_add head entry m ≡ some m')
      × IsRing m' head (entry ∷ xs)
      × ((q : ℕ) → NotIn q (head ∷ entry ∷ xs) → m' q ≡ m q)
list_add-IsRing m head entry xs r u =
    let (ne, k) = Segment-NotIn m entry head xs head u.0 r.linked in
    (
      linked_in head entry (first head xs) m,
      list_add_linked m head entry _ u.0 u.1 (next-first m head xs r) ne,
      linked_in-IsRing m head entry xs ne k r,
      λ q n. linked_in-frame m head entry _ q n.0 n.1.0 (first-NotIn q head xs n.0 n.1.1),
    )
