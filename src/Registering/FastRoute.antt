-- ===== src/Registering/FastRoute.antt =====
-- src/conntrack.c, `__cmmFPPRouteRegister`: a holder takes a route of the fast path.
use cmm.Prelude.{
  ℕ, ◌<◌, ◌≡◌, refl, sym, ap, ◌∙◌, Bool, true, false, Option, none, some, List, ◌∷◌, map, length,
  arith, Option-cases, inl, inr, ◌==◌, Bool-cases, ==_refl,
}
use mathlib.Core.Path.{subst}
use cmm.Prelude.Run.{done, ◌>>=◌, Returns}
use cmm.Net.{Jhash, four_words}
use cmm.RouteEntry.{RtEntry}
use cmm.RouteIds.{route_max_id, test_id}
use cmm.Fpp.{FppRt, FppTable, FppArgs, FppFlags, fpp_route_get, new_route}
use cmm.Fpp.Key.{IsArgs}
use cmm.Fpp.Get.{Gets, held, fpp_route_get-Gets}
use cmm.Fpp.Valid.{rewrite, rewrite-IsValid}
use cmm.Neigh.{null_mac}
use cmm.Engine.{FastPath}
use cmm.Engine.InStep.{IsInStep}
use cmm.Engine.Reachable.{get-IsInStep}
use cmm.Holding.Counts.{neighbor_alive}
use cmm.Holding.Register.{CtRoute, Tables}
use cmm.Registering.{
  Answers, fpp_args, six_bytes, is_local_route, mark_local, take_fpp_route, take_to_neigh,
  fpp_route_register,
}
use cmm.Registering.Covers.{Covers}
use cmm.Registering.Gains.{Gains, Gains-Counted}

-- Memory for a route of the fast path is free, and so is an identifier.
pub record FppAnswers (k : Answers) (t : FppTable) (j : ℕ) : Type 0 where
  pub memory : (p : ℕ) → k.fpp_memory ≡ some p → t.routes p ≡ none
  pub positive : 0 < j
  pub in_range : j < route_max_id
  pub free : test_id t.ids j ≡ false

fpp_args-IsArgs : (r : RtEntry) (mac : List ℕ) → length mac ≡ 6 → IsArgs (fpp_args r mac)
unfolding fpp_args four_words
fpp_args-IsArgs r mac l = elim (Bool-cases r.flow_flags.floating_tunnel) [
  | inl tunnel ↦ record { mtu = omega arith; mac = l; addr = ground arith; addr_len = ground arith }
  | inr plain ↦ record { mtu = omega arith; mac = l; addr = ground arith; addr_len = ground arith }
]

module _ ⦃jhash : Jhash⦄ where
  -- A call has one more holder for the route that it returns.
  get-Gains :
      (t : FppTable) (memory : Option ℕ) (a : FppArgs) (f : ℕ) (t' : FppTable)
      → Gets t memory a (some f, t')
      → Gains (λ (r : FppRt). r.count) f t.routes t'.routes
  unfolding new_route
  get-Gains t memory a f t' (v, inl (p, r, e, w)) = record {
    kept = λ q b h. elim (Bool-cases (q == p)) [
      | inl same ↦ (held r, ground (arith, w.route), ground (arith, w.was))
      | inr other ↦ (b, ground (arith, w.others q), ground (arith, e))
    ];
    held = (held r, ground (arith, w.route, e), omega arith);
  }
  get-Gains t memory a f t' (v, inr (inl (p, id, m, e, w))) = record {
    kept = λ q b h. elim (Bool-cases (q == p)) [
      | inl same ↦ absurd (ground (arith, w.was))
      | inr other ↦ (b, ground (arith, w.others q), ground (arith, e))
    ];
    held = (held (new_route a id), ground (arith, w.route, e), omega arith);
  }
  get-Gains t memory a f t' (v, inr (inr (m, same, miss))) = absurd (ground (arith, same))

module _ ⦃fast_path : FastPath⦄ ⦃jhash : Jhash⦄ (holds : fast_path.State → ℕ → Bool) where
  flagged-IsInStep :
      (t : FppTable) (p : ℕ) (r : FppRt) (f : FppFlags) (s : fast_path.State)
      → t.routes p ≡ some r
      → f.programmed ≡ r.flags.programmed
      → IsInStep holds t s
      → IsInStep holds (rewrite t p r r.count f) s
  flagged-IsInStep t p r f s here same i = record {
    programmed = λ q b h. elim (Bool-cases (q == p)) [
      | inl at ↦ ground (arith, i.programmed p r here)
      | inr other ↦ ground (arith, i.programmed q b)
    ];
    owned = λ j h.
        let (q, b, there, e) = i.owned j h in
        elim (Bool-cases (q == p)) [
          | inl at ↦
              (p, record r { flags = f }, ground (arith, ==_refl p), ground (arith, there, here))
          | inr other ↦ (q, b, ground (arith, there), e)
        ];
  }

  module _ (rts : List CtRoute) (p : ℕ) where
    -- What a call leaves to the holder of the kernel's route at `p` and to the others.
    pub record Takes (s : Tables) (res : Bool × CtRoute × Tables) : Type 0 where
      pub covers : Covers holds (res.1 ∷ rts) res.2
      pub route : res.1.route ≡ some p
      pub fast : res.0 ≡ true → (f : ℕ) × (res.1.fpp_route ≡ some f)
      pub routes : res.2.routes ≡ s.routes
      pub neighs : res.2.neighs ≡ s.neighs

    abbrev with_fast : Option ℕ → CtRoute
    with_fast o = record { route = some p; fpp_route = o }

    abbrev pub flag_local : FppFlags → FppFlags
    flag_local f = record f { is_local = true }

    mark_local-Covers :
        (b : Bool) (f : ℕ) (s : Tables)
        → Covers holds (with_fast (some f) ∷ rts) s
        → Returns (mark_local b f s) (λ s'.
          Covers holds (with_fast (some f) ∷ rts) s'
          × (s'.routes ≡ s.routes)
          × (s'.neighs ≡ s.neighs))
    unfolding mark_local
    mark_local-Covers false f s c = (s, refl, (c, refl, refl))
    mark_local-Covers true f s c =
        let (r, here, many) = c.held.fpp f (ground arith) in
        let t' = rewrite s.fpp f r r.count (flag_local r.flags) in
        (
          record s { fpp = t' },
          rw (here, ◌>>=◌) refl,
          (
            record {
              valid = record {
                fpp = rewrite-IsValid s.fpp f r r.count (flag_local r.flags) here c.valid.fpp;
                in_step =
                    flagged-IsInStep s.fpp f r (flag_local r.flags) s.fast here refl
                      c.valid.in_step;
                routes = c.valid.routes;
                neighs = c.valid.neighs;
              };
              held = record {
                fpp = λ q some_left.
                    let (b, there, more) = c.held.fpp q some_left in
                    elim (Bool-cases (q == f)) [
                      | inl same ↦ (
                        record r { flags = flag_local r.flags },
                        ground (arith, here),
                        ground (arith, here, there),
                      )
                      | inr other ↦ (b, ground (arith, there), more)
                    ];
                route = c.held.route;
                neighbored = c.held.neighbored;
              };
            },
            refl,
            refl,
          ),
        )

    module _ (k : Answers) (j : ℕ) where
      gained-Covers :
          (r : RtEntry) (mac : List ℕ) (s : Tables) (f : ℕ) (t : FppTable)
          → Gets s.fpp k.fpp_memory (fpp_args r mac) (some f, t)
          → Covers holds (with_fast none ∷ rts) s
          → Covers holds (with_fast (some f) ∷ rts) (record s { fpp = t })
      gained-Covers r mac s f t g c =
          let (v, i) =
            get-IsInStep holds s.fpp s.fast k.fpp_memory (fpp_args r mac) (some f, t) c.valid.fpp
              c.valid.in_step g in
          record {
            valid = record {
              fpp = v;
              in_step = i;
              routes = c.valid.routes;
              neighs = c.valid.neighs;
            };
            held = record {
              fpp =
                  Gains-Counted (λ (r : FppRt). r.count) f
                    (map (λ (rt : CtRoute). rt.fpp_route) rts) s.fpp.routes t.routes
                    (get-Gains s.fpp k.fpp_memory (fpp_args r mac) f t g) c.held.fpp;
              route = c.held.route;
              neighbored = c.held.neighbored;
            };
          }

      missed-Covers :
          (r : RtEntry) (mac : List ℕ) (s : Tables) (t : FppTable)
          → Gets s.fpp k.fpp_memory (fpp_args r mac) (none, t)
          → Covers holds (with_fast none ∷ rts) s
          → Covers holds (with_fast none ∷ rts) (record s { fpp = t })
      missed-Covers r mac s t (v, inl (p, b, e, w)) c = absurd (cc)
      missed-Covers r mac s t (v, inr (inl (p, id, m, e, w))) c = absurd (cc)
      missed-Covers r mac s t (v, inr (inr (m, same, miss))) c =
          subst
            (λ (x : Option ℕ × FppTable).
              Covers holds (with_fast none ∷ rts) (record s { fpp = x.1 }))
            (sym same) c

      take_fpp_route-Takes :
          (r : RtEntry) (mac : List ℕ) (s : Tables)
          → length mac ≡ 6
          → FppAnswers k s.fpp j
          → Covers holds (with_fast none ∷ rts) s
          → Returns (take_fpp_route k p r mac s) (Takes s)
      unfolding take_fpp_route
      take_fpp_route-Takes r mac s six w c =
          let (res, run, g) =
            fpp_route_get-Gets s.fpp k.fpp_memory (fpp_args r mac) j c.valid.fpp
              (fpp_args-IsArgs r mac six) w.memory w.positive w.in_range w.free in
          rest res run g
        where
          rest :
              (res : Option ℕ × FppTable)
              → fpp_route_get k.fpp_memory (fpp_args r mac) s.fpp ≡ done res
              → Gets s.fpp k.fpp_memory (fpp_args r mac) res
              → Returns (take_fpp_route k p r mac s) (Takes s)
          rest (none, t) run g = (
            (false, with_fast none, record s { fpp = t }),
            rw (run, ◌>>=◌) refl,
            record {
              covers = missed-Covers r mac s t g c;
              route = refl;
              fast = λ e. absurd (cc);
              routes = refl;
              neighs = refl;
            },
          )
          rest (some f, t) run g =
              let (s', marked, (c', same, same_neighs)) =
                mark_local-Covers (is_local_route r.flow_flags) f (record s { fpp = t })
                  (gained-Covers r mac s f t g c) in
              (
                (true, with_fast (some f), s'),
                rw (run, ◌>>=◌) (rw (marked, ◌>>=◌) refl),
                record {
                  covers = c';
                  route = refl;
                  fast = λ e. (f, refl);
                  routes = same;
                  neighs = same_neighs;
                },
              )

      pub fpp_route_register-Takes :
          (o : Option ℕ) (r : RtEntry) (s : Tables)
          → s.routes.entries p ≡ some r
          → FppAnswers k s.fpp j
          → Covers holds (with_fast o ∷ rts) s
          → Returns (fpp_route_register k p o s) (Takes s)
      unfolding fpp_route_register take_to_neigh
      fpp_route_register-Takes (some f) r s here w c = (
        (true, with_fast (some f), s),
        refl,
        record { covers = c; route = refl; fast = λ e. (f, refl); routes = refl; neighs = refl },
      )
      fpp_route_register-Takes none r s here w c = elim (Option-cases r.neigh_entry) [
        | inl alone ↦
            let (res, run, d) = take_fpp_route-Takes r null_mac s refl w c in
            (res, rw (here, ◌>>=◌) (ap (λ o. take_to_neigh k p r o s) alone ∙ run), d)
        | inr (q, e) ↦
            let (n, there, many) =
              c.held.neighbored.alive q
                (neighbor_alive s.routes s.neighs c.held.neighbored p q r here e) in
            let (res, run, d) = take_fpp_route-Takes r (six_bytes n.mac_addr) s refl w c in
            (res, rw (here, ◌>>=◌) (ap (λ o. take_to_neigh k p r o s) e ∙ rw (there, ◌>>=◌) run), d)
      ]
