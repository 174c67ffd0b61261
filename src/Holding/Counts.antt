-- ===== src/Holding/Counts.antt =====
-- src/conntrack.c and src/route_cache.c: the holders of an entry, counted. A route is held by those
-- that point to it, a neighbour by the routes.
use cmm.Prelude.{
  ℕ, suc, ◌≤◌, ◌≡◌, ◌≢◌, refl, sym, Bool, true, false, Option, none, some, List, [], ◌∷◌, arith,
  ◌==◌, if◌then◌else◌, mem, erase, NotIn, Distinct, Bool-cases, inl, inr,
}
use mathlib.Core.Path.{subst}
use cmm.RouteEntry.{RtEntry}
use cmm.Routes.{Routes}
use cmm.Neigh.{NeighborEntry, Neighs}

-- How many of the pointers are to an entry.
abbrev pub pointers_to : ℕ → List (Option ℕ) → ℕ
pointers_to p [] = 0
pointers_to p (none ∷ xs) = pointers_to p xs
pointers_to p (some q ∷ xs) = if q == p then suc (pointers_to p xs) else pointers_to p xs

abbrev pub points_to : Option ℕ → ℕ → Bool
points_to none q = false
points_to (some q') q = q' == q

pub points_to-some : (o : Option ℕ) (q : ℕ) → points_to o q ≡ true → o ≡ some q
points_to-some none q h = absurd (cc)
points_to-some (some q') q h = ground arith

abbrev pub has_neigh : Option RtEntry → ℕ → Bool
has_neigh none q = false
has_neigh (some r) q = points_to r.neigh_entry q

-- How many of the routes at some addresses have a neighbour.
abbrev pub routes_with : (ℕ → Option RtEntry) → ℕ → List ℕ → ℕ
routes_with entries q [] = 0
routes_with entries q (p ∷ ps) =
    if has_neigh (entries p) q then suc (routes_with entries q ps) else routes_with entries q ps

-- A neighbour that routes have is there, and it has at least that many holders.
pub record Neighbored (t : Routes) (ns : Neighs) : Type 0 where
  pub live : List ℕ
  pub distinct : Distinct live
  pub named : (p : ℕ) (r : RtEntry) → t.entries p ≡ some r → mem p live ≡ true
  pub alive :
      (q : ℕ)
      → routes_with t.entries q live ≢ 0
      → (n : NeighborEntry) × (ns.entries q ≡ some n) × (routes_with t.entries q live ≤ n.count)

-- The count reads only which neighbour a route has.
pub routes_with_congr :
    (es es' : ℕ → Option RtEntry) (q : ℕ) (ps : List ℕ)
    → ((p : ℕ) → has_neigh (es' p) q ≡ has_neigh (es p) q)
    → routes_with es' q ps ≡ routes_with es q ps
routes_with_congr es es' q [] h = refl
routes_with_congr es es' q (p ∷ ps) h = ground (arith, h p, routes_with_congr es es' q ps h)

routes_with_others :
    (es es' : ℕ → Option RtEntry) (q p : ℕ) (ps : List ℕ)
    → NotIn p ps
    → ((x : ℕ) → x ≢ p → es' x ≡ es x)
    → routes_with es' q ps ≡ routes_with es q ps
routes_with_others es es' q p [] n h = refl
routes_with_others es es' q p (x ∷ ps) n h =
    let apart : x ≢ p = λ e. n.0 (sym e) in
    rw (h x apart, routes_with_others es es' q p ps n.1 h) refl

-- A route that goes is one less for its neighbour.
pub routes_with-erase :
    (es es' : ℕ → Option RtEntry) (q p : ℕ) (ps : List ℕ)
    → mem p ps ≡ true
    → Distinct ps
    → ((x : ℕ) → x ≢ p → es' x ≡ es x)
    → routes_with es q ps ≡ (
        if has_neigh (es p) q
        then suc (routes_with es' q (erase p ps))
        else routes_with es' q (erase p ps))
routes_with-erase es es' q p [] m d h = absurd (cc)
routes_with-erase es es' q p (x ∷ ps) m d h = elim (Bool-cases (x == p)) [
  | inl here ↦
      let at : x ≡ p = ground arith in
      let out : NotIn p ps = subst (λ y. NotIn y ps) at d.0 in
      rw (here, routes_with_others es es' q p ps out h, at) refl
  | inr other ↦
      let apart : x ≢ p = ground arith in
      let rest = routes_with-erase es es' q p ps (ground arith) d.1 h in
      ground (arith, h x apart, rest)
]

-- A neighbour that a live route has is there.
pub neighbor_alive :
    (t : Routes) (ns : Neighs) (v : Neighbored t ns) (p q : ℕ) (r : RtEntry)
    → t.entries p ≡ some r
    → r.neigh_entry ≡ some q
    → routes_with t.entries q v.live ≢ 0
neighbor_alive t ns v p q r here e =
    let one =
      routes_with-erase t.entries t.entries q p v.live (v.named p r here) v.distinct
        (λ x ne. refl) in
    ground (arith, one, here, e)
