-- ===== src/ListHead/Deletion.antt =====
-- src/list.h: `list_del`, the traversal and the emptiness test on the sequence of a list.
use cmm.Prelude.{
  ℕ, zero, suc, ◌<◌, ◌≡◌, ◌≢◌, sym, Bool, true, false, none, some, List, [], ◌∷◌, ◌++◌, arith,
  length, NotIn, Distinct, ◌==◌,
}
use cmm.ListHead.{Memory, set_next, set_prev, list_del, list_empty, traverse}
use cmm.ListHead.Segments.{Segment, IsRing, set_next-Segment, set_prev-Segment}
use cmm.ListHead.Laws.{IsUnlinked}

split-Segment :
    (m : Memory) (a : ℕ) (xs : List ℕ) (e : ℕ) (ys : List ℕ) (b : ℕ)
    → Segment m a (xs ++ e ∷ ys) b
    → Segment m a xs e × Segment m e ys b
split-Segment m a [] e ys b s = ((s.0, s.1), s.2)
split-Segment m a (x ∷ xs) e ys b s =
    let (l, r) = split-Segment m x xs e ys b s.2 in ((s.0, s.1, l), r)

abbrev first : List ℕ → ℕ → ℕ
first [] b = b
first (x ∷ xs) b = x

abbrev last : ℕ → List ℕ → ℕ
last a [] = a
last a (x ∷ xs) = last x xs

last-ne : (q a : ℕ) (xs : List ℕ) → q ≢ a → NotIn q xs → q ≢ last a xs
last-ne q a [] h k = h
last-ne q a (x ∷ xs) h k = last-ne q x xs k.0 k.1

first-ne : (q : ℕ) (xs : List ℕ) (b : ℕ) → q ≢ b → NotIn q xs → q ≢ first xs b
first-ne q [] b h k = h
first-ne q (x ∷ xs) b h k = k.0

NotIn-append : (q : ℕ) (xs ys : List ℕ) → NotIn q (xs ++ ys) → NotIn q xs × NotIn q ys
NotIn-append q [] ys h = (tt, h)
NotIn-append q (x ∷ xs) ys h = let (l, r) = NotIn-append q xs ys h.1 in ((h.0, l), r)

NotIn-middle :
    (q : ℕ) (xs : List ℕ) (e : ℕ) (ys : List ℕ)
    → NotIn q (xs ++ e ∷ ys)
    → (q ≢ e) × NotIn q (xs ++ ys)
NotIn-middle q [] e ys h = h
NotIn-middle q (x ∷ xs) e ys h = let (l, r) = NotIn-middle q xs e ys h.1 in (l, (h.0, r))

Distinct-middle :
    (xs : List ℕ) (e : ℕ) (ys : List ℕ)
    → Distinct (xs ++ e ∷ ys)
    → NotIn e (xs ++ ys) × Distinct (xs ++ ys)
Distinct-middle [] e ys d = d
Distinct-middle (x ∷ xs) e ys d =
    let (l, r) = Distinct-middle xs e ys d.1 in
    let (ne, k) = NotIn-middle x xs e ys d.0 in (((λ p. ne (sym p)), l), (k, r))

next-Segment :
    (m : Memory) (a : ℕ) (xs : List ℕ) (b : ℕ) → Segment m a xs b → (m a).next ≡ some (first xs b)
next-Segment m a [] b s = s.0
next-Segment m a (x ∷ xs) b s = s.0

prev-Segment :
    (m : Memory) (a : ℕ) (xs : List ℕ) (b : ℕ) → Segment m a xs b → (m b).prev ≡ some (last a xs)
prev-Segment m a [] b s = s.1
prev-Segment m a (x ∷ xs) b s = prev-Segment m x xs b s.2

-- The two writes that take out what stands between `p` and `n`.
abbrev joined : ℕ → ℕ → Memory → Memory
joined p n m = set_prev n (some p) (set_next p (some n) m)

joined-Segment :
    (m : Memory) (a : ℕ) (xs : List ℕ) (e : ℕ) (ys : List ℕ) (b : ℕ)
    → Segment m a xs e
    → Segment m e ys b
    → Distinct (a ∷ (xs ++ ys))
    → NotIn b (xs ++ ys)
    → Segment (joined (last a xs) (first ys b) m) a (xs ++ ys) b
joined-Segment m a [] e [] b s t d k = ground arith
joined-Segment m a [] e (y ∷ ys) b s t d k =
    let s₁ = set_next-Segment m a (some y) y ys b d.0.0 d.0.1 t.2 in
    let s₂ = set_prev-Segment _ y (some a) y ys b (λ q. k.0 (sym q)) d.1.0 s₁ in
    (ground arith, ground arith, s₂)
joined-Segment m a (x ∷ xs) e ys b s t d k =
    let a_xs = NotIn-append a xs ys d.0.1 in
    let x_ys = NotIn-append x xs ys d.1.0 in
    let p = last-ne a x xs d.0.0 a_xs.0 in
    let n = first-ne x ys b (λ q. k.0 (sym q)) x_ys.1 in
    let rest = joined-Segment m x xs e ys b s.2 t d.1 k.1 in
    (ground (arith, s.0, p), ground (arith, s.1, n), rest)

unlinked : ℕ → ℕ → ℕ → Memory → Memory
unlinked e p n m = set_next e none (set_prev e none (joined p n m))

list_del-unlinked :
    (m : Memory) (e p n : ℕ)
    → (m e).prev ≡ some p
    → (m e).next ≡ some n
    → e ≢ p
    → list_del e m ≡ some (unlinked e p n m)
unfolding list_del unlinked
list_del-unlinked m e p n hp hn ne =
    let off : (e == p) ≡ false = ground arith in simp (list_del, hp, hn, off)

unlinked-frame : (m : Memory) (e p n q : ℕ) → q ≢ e → q ≢ p → q ≢ n → unlinked e p n m q ≡ m q
unfolding unlinked
unlinked-frame m e p n q h₁ h₂ h₃ = ground arith

unlinked-IsUnlinked : (m : Memory) (e p n : ℕ) → IsUnlinked (unlinked e p n m) e
unfolding unlinked
unlinked-IsUnlinked m e p n = ground arith

-- `list_del` does not fail on a node of a list: it takes that node out, keeps the others in their
-- order, leaves the node unlinked, and writes to no node outside the list.
pub list_del-IsRing :
    (m : Memory) (head entry : ℕ) (xs ys : List ℕ)
    → IsRing m head (xs ++ entry ∷ ys)
    → (m' : Memory) × (list_del entry m ≡ some m')
      × IsRing m' head (xs ++ ys)
      × IsUnlinked m' entry
      × ((q : ℕ) → NotIn q (head ∷ (xs ++ entry ∷ ys)) → m' q ≡ m q)
unfolding unlinked
list_del-IsRing m head entry xs ys r =
    let (s, t) = split-Segment m head xs entry ys head r.linked in
    let (ne, k) = NotIn-middle head xs entry ys r.distinct.0 in
    let (ke, d) = Distinct-middle xs entry ys r.distinct.1 in
    let p = last head xs in
    let n = first ys head in
    let (kx, ky) = NotIn-append entry xs ys ke in
    let en = λ (q : entry ≡ head). ne (sym q) in
    let j = joined-Segment m head xs entry ys head s t (k, d) k in
    let j₁ = set_prev-Segment _ entry none head (xs ++ ys) head en ke j in
    let j₂ = set_next-Segment _ entry none head (xs ++ ys) head en ke j₁ in
    (
      unlinked entry p n m,
      list_del-unlinked m entry p n (prev-Segment m head xs entry s)
          (next-Segment m entry ys head t) (last-ne entry head xs en kx),
      record { linked = j₂; distinct = (k, d) },
      unlinked-IsUnlinked m entry p n,
      λ q h.
          let (he, hk) = NotIn-middle q xs entry ys h.1 in
          let (hx, hy) = NotIn-append q xs ys hk in
          unlinked-frame m entry p n q he (last-ne q head xs h.0 hx) (first-ne q ys head h.0 hy),
    )

-- A second `list_del` of the same node does nothing.
list_del-IsUnlinked : (m : Memory) (entry : ℕ) → IsUnlinked m entry → list_del entry m ≡ some m
unfolding list_del
list_del-IsUnlinked m entry u = ground (arith, u.0, u.1)

traverse-Segment :
    (m : Memory) (head a : ℕ) (xs : List ℕ) (fuel : ℕ)
    → Segment m a xs head
    → NotIn head xs
    → length xs < fuel
    → traverse fuel head (m a).next m ≡ some xs
unfolding traverse
traverse-Segment m head a xs zero s d h = elim h [ ]
traverse-Segment m head a [] (suc fuel) s d h = ground (arith, s.0)
traverse-Segment m head a (x ∷ xs) (suc fuel) s d h =
    ground (arith, s.0, d.0, traverse-Segment m head x xs fuel s.2 d.1)

-- The loop over a list ends at the head after a round for each node, and meets the nodes in order.
traverse-IsRing :
    (m : Memory) (head : ℕ) (xs : List ℕ) (fuel : ℕ)
    → IsRing m head xs
    → length xs < fuel
    → traverse fuel head (m head).next m ≡ some xs
traverse-IsRing m head xs fuel r h = traverse-Segment m head head xs fuel r.linked r.distinct.0 h

is_nil : List ℕ → Bool
is_nil [] = true
is_nil (x ∷ xs) = false

list_empty-IsRing :
    (m : Memory) (head : ℕ) (xs : List ℕ) → IsRing m head xs → list_empty head m ≡ is_nil xs
unfolding list_empty is_nil
list_empty-IsRing m head [] r = ground (arith, r.linked)
list_empty-IsRing m head (x ∷ xs) r = ground (arith, r.linked.0, r.distinct.0.0)
