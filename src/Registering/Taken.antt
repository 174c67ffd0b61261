-- ===== src/Registering/Taken.antt =====
-- src/conntrack.c, lines 1066-1102, `__cmmRouteRegister`: the route of the kernel.
use cmm.Prelude.{
  ℕ, ◌≡◌, refl, sym, Bool, Option, none, some, List, ◌∷◌, map, Option-cases, inl, inr,
}
use mathlib.Core.Path.{subst}
use cmm.Prelude.Run.{◌>>=◌, Returns}
use cmm.Net.{Jhash}
use cmm.RouteEntry.{RtEntry, Flow, Kernel}
use cmm.Routes.{Routes}
use cmm.Routes.Get.{Gets, failed, route_get-Gets}
use cmm.Engine.{FastPath}
use cmm.Holding.Register.{CtRoute, Tables}
use cmm.Registering.{Answers, take_route}
use cmm.Registering.Covers.{Covers}
use cmm.Registering.Resolved.{NeighAnswers}
use cmm.Registering.Gains.{Counted, Gains-Counted}
use cmm.Registering.FastRoute.{FppAnswers}
use cmm.Registering.Route.{route_get-Gains, route_get-Neighbored, flow_to_ask-Asks}
use cmm.Routes.Valid as RoutesValid
use cmm.Conntrack.Valid as ConntrackValid

same_routes :
    ⦃jhash : Jhash⦄ (t : Routes) (kernel : Kernel) (memory : Option ℕ) (f : Flow) (saddr : List ℕ)
    (t' : Routes)
    → Gets t kernel memory f saddr (none, t')
    → t'.entries ≡ t.entries
same_routes t kernel memory f saddr _ (failed why missed) = refl

module _ ⦃fast_path : FastPath⦄ ⦃jhash : Jhash⦄ (k : Answers) where
  -- The answers of the kernel and of `malloc` fit the tables: the memory is free, an identifier is left
  -- for a route of the fast path, and the table of connections is consistent.
  pub record Fits (s : Tables) : Type 0 where
    pub route_memory : (p : ℕ) → k.route_memory ≡ some p → s.routes.entries p ≡ none
    pub neighs : NeighAnswers k s.neighs
    pub id : ℕ
    pub fpp : FppAnswers k s.fpp id
    pub conntracks : ConntrackValid.IsValid k.conntracks

module _ ⦃fast_path : FastPath⦄ ⦃jhash : Jhash⦄ (holds : fast_path.State → ℕ → Bool) (k : Answers)
    (rts : List CtRoute) where
  -- What the first step leaves.
  pub record TakesRoute (rt : CtRoute) (s : Tables) (res : Option ℕ × Tables) : Type 0 where
    pub covers : Covers holds (record rt { route = res.0 } ∷ rts) res.1
    pub failed : res.0 ≡ none → Covers holds (rt ∷ rts) res.1
    pub fpp : res.1.fpp ≡ s.fpp
    pub neighs : res.1.neighs ≡ s.neighs

  got-Counted :
      (f : Flow) (saddr : List ℕ) (t t' : Routes) (got : Option ℕ) (xs : List (Option ℕ))
      → ((p : ℕ) → k.route_memory ≡ some p → t.entries p ≡ none)
      → Gets t k.kernel k.route_memory f saddr (got, t')
      → Counted (λ (r : RtEntry). r.count) xs t.entries
      → Counted (λ (r : RtEntry). r.count) (got ∷ xs) t'.entries
  got-Counted f saddr t t' (some q) xs fresh g c =
      Gains-Counted (λ (r : RtEntry). r.count) q xs t.entries t'.entries
        (route_get-Gains t k.kernel k.route_memory f saddr q t' fresh g) c
  got-Counted f saddr t t' none xs fresh g c =
      subst (λ es. Counted (λ (r : RtEntry). r.count) (none ∷ xs) es)
        (sym (same_routes t k.kernel k.route_memory f saddr t' g)) c

  got-TakesRoute :
      (o : Option ℕ) (f : Flow) (saddr : List ℕ) (s : Tables) (res : Option ℕ × Routes)
      → ((p : ℕ) → k.route_memory ≡ some p → s.routes.entries p ≡ none)
      → Covers holds (record { route = none; fpp_route = o } ∷ rts) s
      → RoutesValid.IsValid res.1
      → Gets s.routes k.kernel k.route_memory f saddr res
      → TakesRoute (record { route = none; fpp_route = o }) s (res.0, record s { routes = res.1 })
  got-TakesRoute o f saddr s res fresh c v g =
      let s' : Tables = record s { routes = res.1 } in
      let c' : Covers holds (record { route = res.0; fpp_route = o } ∷ rts) s' = record {
        valid = record {
          fpp = c.valid.fpp;
          in_step = c.valid.in_step;
          routes = v;
          neighs = c.valid.neighs;
        };
        held = record {
          fpp = c.held.fpp;
          route =
              got-Counted f saddr s.routes res.1 res.0 (map (λ (rt : CtRoute). rt.route) rts) fresh
                g c.held.route;
          neighbored =
              route_get-Neighbored s.routes k.kernel k.route_memory f saddr s.neighs res fresh g
                c.held.neighbored;
        };
      } in
      record {
        covers = c';
        failed = λ e. subst (λ g. Covers holds (record { route = g; fpp_route = o } ∷ rts) s') e c';
        fpp = refl;
        neighs = refl;
      }

  pub take_route-TakesRoute :
      (rt : CtRoute) (flow : Flow) (saddr : List ℕ) (s : Tables)
      → flow.saddr ≡ some saddr
      → Fits k s
      → Covers holds (rt ∷ rts) s
      → Returns (take_route k rt.route flow s) (TakesRoute rt s)
  unfolding take_route
  take_route-TakesRoute rt flow saddr s e w c = go rt.route rt.fpp_route c
    where
      go :
          (o o' : Option ℕ)
          → Covers holds (record { route = o; fpp_route = o' } ∷ rts) s
          → Returns (take_route k o flow s) (TakesRoute (record { route = o; fpp_route = o' }) s)
      go (some p) o' c = (
        (some p, s),
        refl,
        record { covers = c; failed = λ e. absurd (cc); fpp = refl; neighs = refl },
      )
      go none o' c =
          let (asked, run, source) = flow_to_ask-Asks k flow saddr e w.conntracks in
          elim (Option-cases asked) [
            | inl no_flow ↦ (
              (none, s),
              rw (run, ◌>>=◌) (rw no_flow refl),
              record { covers = c; failed = λ e. c; fpp = refl; neighs = refl },
            )
            | inr (f, some_flow) ↦
                let (res, runs, (v, g)) =
                  route_get-Gets s.routes k.kernel k.route_memory f saddr c.valid.routes
                    (source f some_flow) w.route_memory in
                (
                  (res.0, record s { routes = res.1 }),
                  rw (run, ◌>>=◌) (rw some_flow (rw (runs, ◌>>=◌) refl)),
                  got-TakesRoute o' f saddr s res w.route_memory c v g,
                )
          ]
