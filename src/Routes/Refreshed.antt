-- ===== src/Routes/Refreshed.antt =====
-- src/route_cache.c, `__cmmRouteUpdate`: what a call leaves.
use cmm.Prelude.{
  ℕ, ◌/◌, ◌≡◌, ◌≢◌, refl, true, false, not, ◌&&◌, Option, none, some, arith, ◌==◌, if◌then◌else◌,
  update, mem, mem-NotIn, mem-erase, Distinct-erase, erase, Bool-cases, Option-cases, inl, inr,
}
use cmm.Prelude.Run.{◌>>=◌, Returns}
use cmm.Net.{Jhash, ip_addr_len, mem_eq, hash_neighbor_congr}
use cmm.Table.{link, unlink}
use cmm.Table.Placed.{IsPlaced, modify-IsPlaced}
use cmm.RouteEntry.{RtEntry, Kernel, refresh}
use cmm.Routes.{Routes, rt_home, gw_home}
use cmm.Routes.Valid.{IsValid}
use cmm.Routes.Reply.{IsSettled, settled-addresses, refresh-keeps}
use cmm.Routes.Update.{Outcome, rewrite, rerouted, regate, apply_change, route_update}

module _ ⦃jhash : Jhash⦄ where
  rewrite-IsValid :
      (t : Routes) (p : ℕ) (r r' : RtEntry)
      → t.entries p ≡ some r
      → rt_home r' ≡ rt_home r
      → gw_home r' ≡ gw_home r
      → r'.rt_policy ≡ r.rt_policy
      → IsValid t
      → IsValid (rewrite p r' t)
  rewrite-IsValid t p r r' here home gw plain v = record {
    placed = modify-IsPlaced rt_home t.entries t.table p r r' here home v.placed;
    placed_by_gw = modify-IsPlaced gw_home t.entries t.by_gw p r r' here gw v.placed_by_gw;
    cached = λ q s h. ground (arith, v.cached q s, v.cached p r here, plain);
  }

  -- An entry that moves to another list.
  move-IsPlaced :
      (t : Routes) (p : ℕ) (r r' : RtEntry)
      → t.entries p ≡ some r
      → IsPlaced gw_home t.entries t.by_gw
      → IsPlaced gw_home (update t.entries p (some r')) (link (gw_home r') p (unlink p t.by_gw))
  move-IsPlaced t p r r' here v = record {
    placed = λ q key. ground (arith, v.placed q key, mem-erase q p (t.by_gw key) (v.distinct key));
    distinct = λ key. ground (
      arith,
      v.distinct key,
      Distinct-erase p (t.by_gw key) (v.distinct key),
      mem-NotIn p (erase p (t.by_gw key)),
      mem-erase p p (t.by_gw key) (v.distinct key),
    );
  }

  regate-IsValid :
      (t : Routes) (p : ℕ) (r r' : RtEntry)
      → t.entries p ≡ some r
      → rt_home r' ≡ rt_home r
      → r'.rt_policy ≡ r.rt_policy
      → IsValid t
      → IsValid (regate p r' t)
  regate-IsValid t p r r' here home plain v = record {
    placed = modify-IsPlaced rt_home t.entries t.table p r (rerouted r') here home v.placed;
    placed_by_gw = move-IsPlaced t p r (rerouted r') here v.placed_by_gw;
    cached = λ q s h. ground (arith, v.cached q s, v.cached p r here, plain);
  }

  -- What a call leaves of the route, by what the look-up said.
  abbrev Leaves : RtEntry → Option RtEntry → Outcome → ℕ → Type 0
  Leaves r none o p =
      (o.routes.entries p ≡ some (record r { invalid = true }))
      × (o.users_updated ≡ true)
      × (o.neigh ≡ none)
  Leaves r (some r') o p =
      if mem_eq (ip_addr_len r.family / 4) r'.gw_addr r.gw_addr && r'.oifindex == r.oifindex
      then (o.routes.entries p ≡ some r')
        × (o.users_updated ≡ not (r'.mtu == r.mtu))
        × (o.neigh ≡ none)
      else (o.routes.entries p ≡ some (rerouted r'))
        × (o.users_updated ≡ true)
        × (o.neigh ≡ r.neigh_entry)

  pub record Updates (t : Routes) (k : Kernel) (p : ℕ) (r : RtEntry) (o : Outcome) : Type 0 where
    pub valid : IsValid o.routes
    pub leaves : Leaves r (refresh k r) o p
    pub others : (q : ℕ) → q ≢ p → o.routes.entries q ≡ t.entries q

  module _ (t : Routes) (p : ℕ) (r r' : RtEntry) (here : t.entries p ≡ some r) (v : IsValid t)
      (home : rt_home r' ≡ rt_home r) (family : r'.family ≡ r.family)
      (plain : r'.rt_policy ≡ r.rt_policy) (whole : r'.gw_addr_len ≡ ip_addr_len r.family)
      (neigh : r'.neigh_entry ≡ r.neigh_entry) where
    -- A route with the bytes of its old gateway stays on its list.
    same_gateway : mem_eq (r'.gw_addr_len / 4) r'.gw_addr r.gw_addr ≡ true → gw_home r' ≡ gw_home r
    same_gateway e = rw family (hash_neighbor_congr r.family r'.gw_addr r.gw_addr (rw whole at e))

    apply_change-IsValid : IsValid (apply_change p r r' t).routes
    unfolding apply_change
    apply_change-IsValid = elim (Bool-cases (mem_eq (r'.gw_addr_len / 4) r'.gw_addr r.gw_addr)) [
      | inr moved ↦ rw moved (regate-IsValid t p r r' here home plain v)
      | inl same ↦ elim (Bool-cases (r'.oifindex == r.oifindex)) [
        | inr other ↦
            rw (same, other)
              (rewrite-IsValid t p r (rerouted r') here home (same_gateway same) plain v)
        | inl still ↦
            rw (same, still) (rewrite-IsValid t p r r' here home (same_gateway same) plain v)
      ]
    ]

    apply_change-Leaves : Leaves r (some r') (apply_change p r r' t) p
    unfolding apply_change
    apply_change-Leaves = ground (arith, whole, neigh)

    apply_change-others : (q : ℕ) → q ≢ p → (apply_change p r r' t).routes.entries q ≡ t.entries q
    unfolding apply_change
    apply_change-others q h = ground arith

  -- On valid tables, where the kernel's answer keeps the family, the addresses and a whole
  -- gateway, the first part of __cmmRouteUpdate returns and keeps the tables valid: it flags the
  -- route invalid where the look-up fails; it forgets the neighbour and hands it on to be let go
  -- of exactly where the gateway or the interface changed; it has the users updated where one of
  -- these or the MTU changed, or the route is gone; and the other routes stay.
  pub route_update-Updates :
      (t : Routes) (k : Kernel) (p : ℕ) (r : RtEntry)
      → IsValid t
      → t.entries p ≡ some r
      → IsSettled k r
      → Returns (route_update k p t) (Updates t k p r)
  unfolding route_update
  route_update-Updates t k p r v here settled = elim (Option-cases (refresh k r)) [
    | inl lost ↦ (
      record {
        routes = rewrite p (record r { invalid = true }) t;
        users_updated = true;
        neigh = none;
      },
      rw here (rw (lost, ◌>>=◌) refl),
      record {
        valid = rewrite-IsValid t p r (record r { invalid = true }) here refl refl refl v;
        leaves = rw lost (ground arith, refl, refl);
        others = λ q h. ground arith;
      },
    )
    | inr (r', e) ↦
        let (family, saddr, daddr, whole) = settled-addresses k r r' settled e in
        let (neigh, plain, count) = refresh-keeps k r r' e in
        let home : rt_home r' ≡ rt_home r = rw (family, saddr, daddr) refl in
        (
          apply_change p r r' t,
          rw here (rw (e, ◌>>=◌) refl),
          record {
            valid = apply_change-IsValid t p r r' here v home family plain whole neigh;
            leaves = rw e (apply_change-Leaves t p r r' here v home family plain whole neigh);
            others = apply_change-others t p r r' here v home family plain whole neigh;
          },
        )
  ]

  -- The route is not on the list where its addresses are looked for.
  pub Misplaces : ℕ → RtEntry → Outcome → Type 0
  Misplaces p r' o = (mem p (o.routes.table (rt_home r')) ≡ false) × (¬ IsValid o.routes)

  misplaced :
      (t : Routes) (p : ℕ) (r r' r'' : RtEntry) (o : Outcome)
      → IsValid t
      → t.entries p ≡ some r
      → rt_home r' ≢ rt_home r
      → o.routes.table ≡ t.table
      → o.routes.entries p ≡ some r''
      → rt_home r'' ≡ rt_home r'
      → Misplaces p r' o
  unfolding Misplaces
  misplaced t p r r' r'' o v here moved table now same =
      let off : mem p (t.table (rt_home r')) ≡ false =
        ground (arith, v.placed.placed p (rt_home r')) in
      (rw table off, λ w. ground (arith, w.placed.placed p (rt_home r'), table, off))

  -- Where the look-up gives a route addresses of another list, as RTA_PREFSRC does, the first part
  -- of __cmmRouteUpdate leaves the route off the list of its addresses, and the tables are not
  -- valid.
  pub route_update-Misplaces :
      (t : Routes) (k : Kernel) (p : ℕ) (r r' : RtEntry)
      → IsValid t
      → t.entries p ≡ some r
      → refresh k r ≡ some r'
      → rt_home r' ≢ rt_home r
      → Returns (route_update k p t) (Misplaces p r')
  unfolding route_update apply_change
  route_update-Misplaces t k p r r' v here e moved = (
    apply_change p r r' t,
    rw here (rw (e, ◌>>=◌) refl),
    elim (Bool-cases (mem_eq (r'.gw_addr_len / 4) r'.gw_addr r.gw_addr)) [
      | inr other ↦
          misplaced t p r r' (rerouted r') (apply_change p r r' t) v here moved (ground arith)
            (ground arith) refl
      | inl same ↦ elim (Bool-cases (r'.oifindex == r.oifindex)) [
        | inr other ↦
            misplaced t p r r' (rerouted r') (apply_change p r r' t) v here moved (ground arith)
              (ground arith) refl
        | inl still ↦
            misplaced t p r r' r' (apply_change p r r' t) v here moved (ground arith) (ground arith)
              refl
      ]
    ],
  )
