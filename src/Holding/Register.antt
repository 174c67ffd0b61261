-- ===== src/Holding/Register.antt =====
-- src/conntrack.c, lines 2147-2170, `__cmmRouteDeregister`: the holder of a `struct ct_route` lets go
-- of its fast-path route and of its kernel's route.
use cmm.Prelude.{
  ℕ, ◌<◌, ◌≡◌, ◌≢◌, ◌∙◌, refl, Bool, Option, none, some, arith, Option-cases, pointee_subst, inl,
  inr,
}
use cmm.Prelude.Run.{Run, done, ◌>>=◌, Returns}
use cmm.Net.{Jhash}
use cmm.RouteEntry.{RtEntry}
use cmm.Routes.{Routes}
use cmm.Neigh.{Neighs}
use cmm.Fpp.{FppRt, FppTable}
use cmm.Engine.{FastPath, fpp_route_deregister}
use cmm.Engine.InStep.{IsFaithful, IsInStep}
use cmm.Engine.Deregister.{Deregisters, fpp_route_deregister-Deregisters}
use cmm.Holding.{route_let_go, LetsGo, route_let_go-LetsGo}
use cmm.Fpp.Valid as FppValid
use cmm.Neigh.Valid as NeighValid
use cmm.Routes.Valid as RoutesValid

-- `struct ct_route`
pub record CtRoute : Type 0 where
  pub route : Option ℕ
  pub fpp_route : Option ℕ

abbrev pub no_ct_route : CtRoute
no_ct_route = record { route = none; fpp_route = none }

module _ ⦃fast_path : FastPath⦄ where
  -- The tables that a connection's routes are in.
  pub record Tables : Type 0 where
    pub fpp : FppTable
    pub fast : fast_path.State
    pub routes : Routes
    pub neighs : Neighs

  unfoldable pub let_go_fpp : Option ℕ → Tables → Run Tables
  let_go_fpp none s = done s
  let_go_fpp (some p) s = do
    (t, fast) ← fpp_route_deregister p s.fpp s.fast
    done (record s { fpp = t; fast = fast })

  unfoldable pub let_go_route : Option ℕ → Tables → Run Tables
  let_go_route none s = done s
  let_go_route (some p) s = do
    (t, ns) ← route_let_go p s.routes s.neighs
    done (record s { routes = t; neighs = ns })

  unfoldable pub route_deregister : CtRoute → Tables → Run (CtRoute × Tables)
  route_deregister rt s = do
    s₁ ← let_go_fpp rt.fpp_route s
    s₂ ← let_go_route rt.route s₁
    done (no_ct_route, s₂)

  module _ ⦃jhash : Jhash⦄ (holds : fast_path.State → ℕ → Bool) where
    pub record IsValid (s : Tables) : Type 0 where
      pub fpp : FppValid.IsValid s.fpp
      pub in_step : IsInStep holds s.fpp s.fast
      pub routes : RoutesValid.IsValid s.routes
      pub neighs : NeighValid.IsValid s.neighs

    -- The entries that a `struct ct_route` points to are there, and it counts as their holder.
    pub record Holds (s : Tables) (rt : CtRoute) : Type 0 where
      pub fpp :
          (p : ℕ) → rt.fpp_route ≡ some p → (r : FppRt) × (s.fpp.routes p ≡ some r) × (0 < r.count)
      pub route : (p : ℕ) → rt.route ≡ some p → (r : RtEntry) × (s.routes.entries p ≡ some r)
      pub neigh :
          (p q : ℕ) (r : RtEntry)
          → rt.route ≡ some p
          → s.routes.entries p ≡ some r
          → r.neigh_entry ≡ some q
          → s.neighs.entries q ≢ none

    -- What a call leaves.
    pub record LetGo (s : Tables) (rt : CtRoute) (res : CtRoute × Tables) : Type 0 where
      pub cleared : res.0 ≡ no_ct_route
      pub valid : IsValid res.1
      pub fpp :
          (p : ℕ) (r : FppRt)
          → rt.fpp_route ≡ some p
          → s.fpp.routes p ≡ some r
          → Deregisters holds p r s.fpp (res.1.fpp, res.1.fast)
      pub route :
          (p : ℕ) (r : RtEntry)
          → rt.route ≡ some p
          → s.routes.entries p ≡ some r
          → LetsGo s.routes s.neighs p r (res.1.routes, res.1.neighs)
      pub fpp_kept : rt.fpp_route ≡ none → res.1.fpp ≡ s.fpp
      pub route_kept : rt.route ≡ none → (res.1.routes ≡ s.routes) × (res.1.neighs ≡ s.neighs)

    module _ (s : Tables) (rt : CtRoute) (w : IsFaithful holds) (v : IsValid s)
        (h : Holds s rt) where
      record FppLetGo (s₁ : Tables) : Type 0 where
        valid : FppValid.IsValid s₁.fpp
        in_step : IsInStep holds s₁.fpp s₁.fast
        routes : s₁.routes ≡ s.routes
        neighs : s₁.neighs ≡ s.neighs
        kept : rt.fpp_route ≡ none → s₁.fpp ≡ s.fpp
        freed :
            (p : ℕ) (r : FppRt)
            → rt.fpp_route ≡ some p
            → s.fpp.routes p ≡ some r
            → Deregisters holds p r s.fpp (s₁.fpp, s₁.fast)

      let_go_fpp-FppLetGo : Returns (let_go_fpp rt.fpp_route s) FppLetGo
      unfolding let_go_fpp
      let_go_fpp-FppLetGo = elim (Option-cases rt.fpp_route) [
        | inl nothing ↦ (
          s,
          rw (nothing, let_go_fpp) refl,
          record {
            valid = v.fpp;
            in_step = v.in_step;
            routes = refl;
            neighs = refl;
            kept = λ e. refl;
            freed = λ p r e. absurd (ground (arith, nothing));
          },
        )
        | inr (p, e) ↦
            let (r, here, some_holder) = h.fpp p e in
            let (res, run, d) =
              fpp_route_deregister-Deregisters holds s.fpp p r s.fast w v.fpp v.in_step here
                some_holder in
            (
              record s { fpp = res.0; fast = res.1 },
              rw (e, let_go_fpp) (rw (run, ◌>>=◌) refl),
              record {
                valid = d.valid;
                in_step = d.in_step;
                routes = refl;
                neighs = refl;
                kept = λ e'. absurd (ground (arith, e));
                freed = λ p' r' e' here'.
                    pointee_subst (λ p r. Deregisters holds p r s.fpp res) rt.fpp_route s.fpp.routes
                      p p' r r' e e' here here' d;
              },
            )
      ]

      record RouteLetGo (s₁ s₂ : Tables) : Type 0 where
        fpp : s₂.fpp ≡ s₁.fpp
        fast : s₂.fast ≡ s₁.fast
        routes : RoutesValid.IsValid s₂.routes
        neighs : NeighValid.IsValid s₂.neighs
        kept : rt.route ≡ none → (s₂.routes ≡ s₁.routes) × (s₂.neighs ≡ s₁.neighs)
        freed :
            (p : ℕ) (r : RtEntry)
            → rt.route ≡ some p
            → s.routes.entries p ≡ some r
            → LetsGo s.routes s.neighs p r (s₂.routes, s₂.neighs)

      let_go_route-RouteLetGo :
          (s₁ : Tables)
          → s₁.routes ≡ s.routes
          → s₁.neighs ≡ s.neighs
          → Returns (let_go_route rt.route s₁) (RouteLetGo s₁)
      unfolding let_go_route
      let_go_route-RouteLetGo s₁ same same_neighs = elim (Option-cases rt.route) [
        | inl nothing ↦ (
          s₁,
          rw (nothing, let_go_route) refl,
          record {
            fpp = refl;
            fast = refl;
            routes = rw same v.routes;
            neighs = rw same_neighs v.neighs;
            kept = λ e. (refl, refl);
            freed = λ p r e. absurd (ground (arith, nothing));
          },
        )
        | inr (p, e) ↦
            let (r, here) = h.route p e in
            let (res, run, d) =
              route_let_go-LetsGo s.routes s.neighs p r v.routes v.neighs here
                (λ q. h.neigh p q r e here) in
            (
              record s₁ { routes = res.0; neighs = res.1 },
              rw (e, let_go_route) (rw (same, same_neighs) (rw (run, ◌>>=◌) refl)),
              record {
                fpp = refl;
                fast = refl;
                routes = d.valid;
                neighs = d.neighs_valid;
                kept = λ e'. absurd (ground (arith, e));
                freed = λ p' r' e' here'.
                    pointee_subst (λ p r. LetsGo s.routes s.neighs p r res) rt.route
                      s.routes.entries p p' r r' e e' here here' d;
              },
            )
      ]

      -- On valid tables in step with a fast path that keeps to its protocol, for a struct ct_route
      -- whose entries are there and whose neighbour is alive, __cmmRouteDeregister returns, clears
      -- the pointers and leaves the tables valid and in step: the fast-path route is deregistered,
      -- and the kernel's route and, with the last holder, its neighbour are let go of.
      pub route_deregister-LetGo : Returns (route_deregister rt s) (LetGo s rt)
      unfolding route_deregister
      route_deregister-LetGo =
          let (s₁, run₁, d₁) = let_go_fpp-FppLetGo in
          let (s₂, run₂, d₂) = let_go_route-RouteLetGo s₁ d₁.routes d₁.neighs in
          (
            (no_ct_route, s₂),
            rw (run₁, ◌>>=◌) (rw (run₂, ◌>>=◌) refl),
            record {
              cleared = refl;
              valid = record {
                fpp = rw d₂.fpp d₁.valid;
                in_step = rw (d₂.fpp, d₂.fast) d₁.in_step;
                routes = d₂.routes;
                neighs = d₂.neighs;
              };
              fpp = λ p r e here. rw (d₂.fpp, d₂.fast) (d₁.freed p r e here);
              route = d₂.freed;
              fpp_kept = λ e. d₂.fpp ∙ d₁.kept e;
              route_kept = λ e. ((d₂.kept e).0 ∙ d₁.routes, (d₂.kept e).1 ∙ d₁.neighs);
            },
          )
