-- ===== src/Registering/Bridged.antt =====
-- src/ffbridge.c, `cmmBrToFF`: a route takes the interface behind the port of its neighbour.
use cmm.Prelude.{
  ℕ, ◌≡◌, refl, ap, ◌∙◌, Bool, true, false, some, List, arith, Option-cases, inl, inr, ◌==◌,
  Bool-cases,
}
use cmm.Prelude.Run.{◌>>=◌, Returns}
use cmm.Net.{Jhash}
use cmm.RouteEntry.{RtEntry}
use cmm.Neigh.{NeighborEntry, Neighs}
use cmm.Engine.{FastPath}
use cmm.Holding.Counts.{neighbor_alive}
use cmm.Holding.Register.{CtRoute, Tables}
use cmm.Interfaces.Kinds.{itf_get_from_bridge_port}
use cmm.Registering.{Answers, set_route, through_port, through_neigh, br_to_ff}
use cmm.Registering.Holders.{Stays}
use cmm.Registering.Macs.{br_get_all_mac_port-Ports}
use cmm.Registering.Covers.{Covers, set_route-Covers, neighs-Covers}
use cmm.Neigh.Valid as NeighValid

module _ ⦃fast_path : FastPath⦄ ⦃jhash : Jhash⦄ (holds : fast_path.State → ℕ → Bool) (k : Answers)
    (p : ℕ) (rts : List CtRoute) where
  -- What a step leaves of the route `r` at `p`: its interfaces and the mark of the bridge port may change.
  pub record Settles (r : RtEntry) (s s' : Tables) : Type 0 where
    pub covers : Covers holds rts s'
    pub fpp : s'.fpp ≡ s.fpp
    pub stays : Stays s.neighs s'.neighs
    pub route : RtEntry
    pub here : s'.routes.entries p ≡ some route
    pub same_flags : route.flow_flags ≡ r.flow_flags
    pub same_oif : route.oifindex ≡ r.oifindex
    pub same_neigh : route.neigh_entry ≡ r.neigh_entry

  abbrev pub settled :
      (r : RtEntry) (s : Tables) → Covers holds rts s → s.routes.entries p ≡ some r → Settles r s s
  settled r s c here = record {
    covers = c;
    fpp = refl;
    stays = λ q n h. (n, h, omega arith, refl);
    route = r;
    here = here;
    same_flags = refl;
    same_oif = refl;
    same_neigh = refl;
  }

  -- A write of the physical interface.
  pub wired-Settles :
      (r : RtEntry) (s : Tables) (phys : ℕ)
      → Covers holds rts s
      → s.routes.entries p ≡ some r
      → Settles r s (record s { routes = set_route p (record r { phys_oifindex = phys }) s.routes })
  wired-Settles r s phys c here = record {
    covers =
        set_route-Covers holds rts s c p r (record r { phys_oifindex = phys }) here refl refl refl
          refl refl refl refl;
    fpp = refl;
    stays = λ q n h. (n, h, omega arith, refl);
    route = record r { phys_oifindex = phys };
    here = ground arith;
    same_flags = refl;
    same_oif = refl;
    same_neigh = refl;
  }

  through_port-Settles :
      (r : RtEntry) (q : ℕ) (n : NeighborEntry) (s : Tables)
      → Covers holds rts s
      → s.routes.entries p ≡ some r
      → s.neighs.entries q ≡ some n
      → Returns (through_port k p r q s) (λ res. Settles r s res.1)
  unfolding through_port
  through_port-Settles r q n s c here there = elim (Option-cases n.port) [
    | inl no_port ↦ ((false, s), rw (there, ◌>>=◌) (rw no_port refl), settled r s c here)
    | inr (port, e) ↦ elim (Option-cases (itf_get_from_bridge_port r.oifindex port k.interfaces)) [
      | inl no_itf ↦ ((false, s), rw (there, ◌>>=◌) (rw (e, no_itf) refl), settled r s c here)
      | inr (ifindex, e') ↦ elim (Bool-cases (ifindex == 0)) [
        | inl no_index ↦
            ((false, s), rw (there, ◌>>=◌) (rw (e, e', no_index) refl), settled r s c here)
        | inr index ↦ (
          (true, record s { routes = set_route p (record r { phys_oifindex = ifindex }) s.routes }),
          rw (there, ◌>>=◌) (rw (e, e', index) refl),
          wired-Settles r s ifindex c here,
        )
      ]
    ]
  ]

  unfoldable pub settles_trans :
      (r : RtEntry) (s s₁ s₂ : Tables) (a : Settles r s s₁) → Settles a.route s₁ s₂ → Settles r s s₂
  settles_trans r s s₁ s₂ a b = record {
    covers = b.covers;
    fpp = b.fpp ∙ a.fpp;
    stays = λ q n h.
        let (n₁, h₁, more₁, state₁) = a.stays q n h in
        let (n₂, h₂, more₂, state₂) = b.stays q n₁ h₁ in (n₂, h₂, omega arith, state₂ ∙ state₁);
    route = b.route;
    here = b.here;
    same_flags = b.same_flags ∙ a.same_flags;
    same_oif = b.same_oif ∙ a.same_oif;
    same_neigh = b.same_neigh ∙ a.same_neigh;
  }

  -- The ports of the neighbours are read again, if the neighbour of the route has none.
  ports-Settles :
      (r : RtEntry) (q : ℕ) (n : NeighborEntry) (s : Tables) (ns : Neighs)
      → Covers holds rts s
      → s.routes.entries p ≡ some r
      → s.neighs.entries q ≡ some n
      → NeighValid.IsValid ns
      → Stays s.neighs ns
      → Returns (through_port k p r q (record s { neighs = ns })) (λ res. Settles r s res.1)
  ports-Settles r q n s ns c here there v stays =
      let s₁ : Tables = record s { neighs = ns } in
      let c₁ = neighs-Covers holds rts s c ns v stays in
      let first : Settles r s s₁ = record {
        covers = c₁;
        fpp = refl;
        stays = stays;
        route = r;
        here = here;
        same_flags = refl;
        same_oif = refl;
        same_neigh = refl;
      } in
      let (n₁, there₁, more, state) = stays q n there in
      let (res, run, d) = through_port-Settles r q n₁ s₁ c₁ here there₁ in
      (res, run, settles_trans r s s₁ res.1 first d)

  through_neigh-Settles :
      (r : RtEntry) (q : ℕ) (n : NeighborEntry) (s : Tables)
      → Covers holds rts s
      → s.routes.entries p ≡ some r
      → s.neighs.entries q ≡ some n
      → Returns (through_neigh k p r (some q) s) (λ res. Settles r s res.1)
  unfolding through_neigh
  through_neigh-Settles r q n s c here there = elim (Option-cases n.port) [
    | inr (port, known) ↦
        let (res, run, d) =
          ports-Settles r q n s s.neighs c here there c.valid.neighs
            (λ q n h. (n, h, omega arith, refl)) in
        (res, rw (there, ◌>>=◌) (rw (known, ◌>>=◌) run), d)
    | inl unknown ↦
        let (ns, run₁, w) =
          br_get_all_mac_port-Ports r.oifindex (k.fdb r.oifindex) s.neighs c.valid.neighs in
        let (res, run, d) = ports-Settles r q n s ns c here there w.valid w.stays in
        (res, rw (there, ◌>>=◌) (rw unknown (rw (run₁, ◌>>=◌) run)), d)
  ]

  pub br_to_ff-Settles :
      (r : RtEntry) (s : Tables)
      → Covers holds rts s
      → s.routes.entries p ≡ some r
      → Returns (br_to_ff k p r s) (λ res. Settles r s res.1)
  unfolding br_to_ff through_neigh
  br_to_ff-Settles r s c here = elim (Option-cases r.neigh_entry) [
    | inl alone ↦ ((false, s), ap (λ o. through_neigh k p r o s) alone, settled r s c here)
    | inr (q, e) ↦
        let (n, there, many) =
          c.held.neighbored.alive q
            (neighbor_alive s.routes s.neighs c.held.neighbored p q r here e) in
        let (res, run, d) = through_neigh-Settles r q n s c here there in
        (res, ap (λ o. through_neigh k p r o s) e ∙ run, d)
  ]
