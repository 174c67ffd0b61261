-- ===== src/Registering/Holders.antt =====
-- src/conntrack.c, `__cmmRouteRegister`: the writes to a route and to the neighbours, and what they leave
-- of the holders that are counted.
use cmm.Prelude.{
  ℕ, suc, ◌+◌, ◌≤◌, ◌≡◌, ◌≢◌, ◌⊎◌, refl, none, some, arith, ◌==◌, if◌then◌else◌, Bool-cases, inl,
  inr,
}
use cmm.Net.{Jhash}
use cmm.Table.Placed.{modify-IsPlaced}
use cmm.RouteEntry.{RtEntry}
use cmm.Routes.{Routes, rt_home, gw_home}
use cmm.Neigh.{NeighborEntry, Neighs}
use cmm.Holding.Counts.{Neighbored, routes_with, routes_with_congr, routes_with-erase}
use cmm.Registering.{set_route}
use cmm.Routes.Valid as RoutesValid

-- The entries of a table of neighbours are there in another, with at least as many holders and
-- in the same state.
abbrev pub Stays : Neighs → Neighs → Type 0
Stays ns ns' =
    (q : ℕ) (n : NeighborEntry)
    → ns.entries q ≡ some n
    → (n' : NeighborEntry) × (ns'.entries q ≡ some n') × (n.count ≤ n'.count) × (n'.state ≡ n.state)

module _ ⦃jhash : Jhash⦄ where
  pub set_route-IsValid :
      (t : Routes) (p : ℕ) (r r' : RtEntry)
      → t.entries p ≡ some r
      → rt_home r' ≡ rt_home r
      → gw_home r' ≡ gw_home r
      → r'.rt_policy ≡ r.rt_policy
      → RoutesValid.IsValid t
      → RoutesValid.IsValid (set_route p r' t)
  set_route-IsValid t p r r' here home gw policy v = record {
    placed = modify-IsPlaced rt_home t.entries t.table p r r' here home v.placed;
    placed_by_gw = modify-IsPlaced gw_home t.entries t.by_gw p r r' here gw v.placed_by_gw;
    cached = λ q s h. ground (arith, v.cached q s, v.cached p r here);
  }

-- A route that keeps its neighbour.
pub set_route-Neighbored :
    (t : Routes) (ns ns' : Neighs) (p : ℕ) (r r' : RtEntry)
    → t.entries p ≡ some r
    → r'.neigh_entry ≡ r.neigh_entry
    → Stays ns ns'
    → Neighbored t ns
    → Neighbored (set_route p r' t) ns'
set_route-Neighbored t ns ns' p r r' here neigh stays v =
    let same = λ (q : ℕ).
      routes_with_congr t.entries (set_route p r' t).entries q v.live
        (λ x. ground (arith, here, neigh)) in
    record {
      live = v.live;
      distinct = v.distinct;
      named = λ x b there. ground (arith, v.named x b, v.named p r here);
      alive = λ q some_left.
          let (n, there, many) = v.alive q (ground (arith, same q)) in
          let (n', there', more, _) = stays q n there in (n', there', ground (arith, same q));
    }

pub stays-Neighbored :
    (t : Routes) (ns ns' : Neighs) → Stays ns ns' → Neighbored t ns → Neighbored t ns'
stays-Neighbored t ns ns' stays v = record {
  live = v.live;
  distinct = v.distinct;
  named = v.named;
  alive = λ q some_left.
      let (n, there, many) = v.alive q some_left in
      let (n', there', more, _) = stays q n there in (n', there', omega arith);
}

-- A route that had no neighbour gets one, which has one holder more.
module _ (t : Routes) (ns ns' : Neighs) (p q : ℕ) (r : RtEntry) (n : NeighborEntry)
    (here : t.entries p ≡ some r) (alone : r.neigh_entry ≡ none)
    (was : (ns.entries q ≡ some n) ⊎ (ns.entries q ≡ none))
    (held : ns'.entries q ≡ some (record n { count = n.count + 1 }))
    (others : (x : ℕ) (m : NeighborEntry) → x ≢ q → ns.entries x ≡ some m → ns'.entries x ≡ some m)
    (v : Neighbored t ns) where
  abbrev joined : RtEntry
  joined = record r { neigh_entry = some q }

  one_more :
      (x : ℕ)
      → routes_with (set_route p joined t).entries x v.live
        ≡ (if q == x then suc (routes_with t.entries x v.live) else routes_with t.entries x v.live)
  one_more x =
      let new = (set_route p joined t).entries in
      let before =
        routes_with-erase t.entries t.entries x p v.live (v.named p r here) v.distinct
          (λ y ne. refl) in
      let after =
        routes_with-erase new t.entries x p v.live (v.named p r here) v.distinct
          (λ y ne. ground arith) in
      ground (arith, before, after, here, alone)

  pub joined-Neighbored : Neighbored (set_route p joined t) ns'
  joined-Neighbored = record {
    live = v.live;
    distinct = v.distinct;
    named = λ x b there. ground (arith, v.named x b, v.named p r here);
    alive = λ x some_left. elim (Bool-cases (q == x)) [
      | inr other ↦
          let (m, there, many) = v.alive x (ground (arith, one_more x)) in
          (m, others x m (ground arith) there, ground (arith, one_more x))
      | inl same ↦
          let at : q ≡ x = ground arith in
          let counted : routes_with t.entries x v.live ≤ n.count =
            elim (Bool-cases (routes_with t.entries x v.live == 0)) [
              | inl zero ↦ ground arith
              | inr more ↦
                  let (m, there, many) = v.alive x (ground arith) in
                  elim was [
                    | inl old ↦ ground (arith, there, old, at)
                    | inr new ↦ absurd (ground (arith, there, new, at))
                  ]
            ] in
          (
            record n { count = n.count + 1 },
            ground (arith, held, at),
            ground (arith, one_more x, counted),
          )
    ];
  }
