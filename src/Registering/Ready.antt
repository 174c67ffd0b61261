-- ===== src/Registering/Ready.antt =====
-- src/conntrack.c, lines 1103-1120, `__cmmRouteRegister`: the flags, the neighbour, the interface and
-- the route of the fast path, once the route of the kernel is there.
use cmm.Prelude.{
  ℕ, ◌≡◌, refl, sym, ap, ◌∙◌, Bool, true, false, not, ◌&&◌, Option, some, List, ◌∷◌, arith, inl,
  inr, if◌then◌else◌, Bool-cases,
}
use mathlib.Core.Path.{subst}
use mathlib.Core.Bool.{false≢true}
use cmm.Prelude.Run.{done, ◌>>=◌, Returns}
use cmm.Net.{Jhash}
use cmm.RouteEntry.{RtEntry, Flow}
use cmm.Routes.{Routes}
use cmm.Engine.{FastPath}
use cmm.Interfaces.Kinds.{itf_is_noarp, itf_is_programmed}
use cmm.Holding.Register.{CtRoute, Tables}
use cmm.Registering.{Answers, set_route, neigh_register, register_itf, register_route}
use cmm.Registering.Holders.{Stays}
use cmm.Registering.Covers.{Covers, set_route-Covers}
use cmm.Registering.Resolved.{NeighAnswers, Resolved, Resolves, neigh_register-Resolves}
use cmm.Registering.Interface.{ct_itf_register-Programs}
use cmm.Registering.FastRoute.{FppAnswers, fpp_route_register-Takes}

must_hold : (a b : Bool) → (not a && not b) ≡ false → b ≡ false → a ≡ true
must_hold true b e h = refl
must_hold false true e h = sym h
must_hold false false e h = sym e

module _ ⦃fast_path : FastPath⦄ ⦃jhash : Jhash⦄ (holds : fast_path.State → ℕ → Bool) (k : Answers)
    (rts : List CtRoute) where
  -- A holder that can forward: its routes are there, the kernel's one has the flags of the flow and goes
  -- out by an interface that the fast path has, and its neighbour is usable if the flow asks for one.
  pub record IsReady (flow : Flow) (rt : CtRoute) (s : Tables) : Type 0 where
    pub at : ℕ
    pub fast : ℕ
    pub entry : RtEntry
    pub route : rt.route ≡ some at
    pub fpp_route : rt.fpp_route ≡ some fast
    pub here : s.routes.entries at ≡ some entry
    pub flagged : entry.flow_flags ≡ flow.flow_flags
    pub programmed : itf_is_programmed k.ports entry.phys_oifindex k.interfaces ≡ some true
    pub resolved : flow.flow_flags.ignore_neigh ≡ false → Resolved holds k entry s

  -- The tables stay valid and cover the holder, with what it has taken, and the others.
  pub record Registers (flow : Flow) (res : Bool × CtRoute × Tables) : Type 0 where
    pub covers : Covers holds (res.1 ∷ rts) res.2
    pub ready : res.0 ≡ true → IsReady flow res.1 res.2

  Resolved-Stays :
      (r r' : RtEntry) (s s' : Tables)
      → r'.oifindex ≡ r.oifindex
      → r'.neigh_entry ≡ r.neigh_entry
      → Stays s.neighs s'.neighs
      → Resolved holds k r s
      → Resolved holds k r' s'
  Resolved-Stays r r' s s' oif neigh stays (inl noarp) =
      inl (ap (λ i. itf_is_noarp i k.interfaces) oif ∙ noarp)
  Resolved-Stays r r' s s' oif neigh stays (inr (q, n, e, there, valid)) =
      let (n', there', more, state) = stays q n there in
      inr (q, n', neigh ∙ e, there', rw state valid)

  module _ (flow : Flow) (p : ℕ) (o : Option ℕ) where
    abbrev holder : CtRoute
    holder = record { route = some p; fpp_route = o }

    -- The interface and the route of the fast path, for a route that is resolved if it must be.
    register_itf-Registers :
        (r : RtEntry) (s : Tables) (j : ℕ)
        → Covers holds (holder ∷ rts) s
        → s.routes.entries p ≡ some r
        → r.flow_flags ≡ flow.flow_flags
        → (flow.flow_flags.ignore_neigh ≡ false → Resolved holds k r s)
        → FppAnswers k s.fpp j
        → Returns (register_itf k p o s) (Registers flow)
    unfolding register_itf
    register_itf-Registers r s j c here flags resolved w =
        let (res, run, d) = ct_itf_register-Programs holds k p (holder ∷ rts) r s c here in
        let a = d.settles in
        elim (Bool-cases res.0) [
          | inr refused ↦ (
            (false, holder, res.1),
            rw (run, ◌>>=◌) (rw refused refl),
            record { covers = a.covers; ready = λ e. absurd (false≢true e) },
          )
          | inl programmed ↦
              let w' : FppAnswers k res.1.fpp j = subst (λ t. FppAnswers k t j) (sym a.fpp) w in
              let (out, runs, t) =
                fpp_route_register-Takes holds rts p k j o a.route res.1 a.here w' a.covers in
              (
                out,
                rw (run, ◌>>=◌) (rw programmed runs),
                record {
                  covers = t.covers;
                  ready = λ e.
                      let (f, fast) = t.fast e in
                      record {
                        at = p;
                        fast = f;
                        entry = a.route;
                        route = t.route;
                        fpp_route = fast;
                        here = ap (λ (x : Routes). x.entries p) t.routes ∙ a.here;
                        flagged = a.same_flags ∙ flags;
                        programmed = d.programmed programmed;
                        resolved = λ strict.
                            Resolved-Stays a.route a.route res.1 out.2 refl refl
                              (λ q n h. (n, ap (λ x. x.entries q) t.neighs ∙ h, omega arith, refl))
                              (Resolved-Stays r a.route s res.1 a.same_oif a.same_neigh a.stays
                                (resolved strict));
                      };
                },
              )
        ]

    register_runs :
        (s : Tables) (r : RtEntry) (res : Bool × Tables) (b : Bool)
        → s.routes.entries p ≡ some r
        → neigh_register k p
            (record s { routes = set_route p (record r { flow_flags = flow.flow_flags }) s.routes })
          ≡ done res
        → (not res.0 && not flow.flow_flags.ignore_neigh) ≡ b
        → register_route k p o flow s
          ≡ (if b then done (false, holder, res.1) else register_itf k p o res.1)
    unfolding register_route
    register_runs s r res b here run e = rw (here, ◌>>=◌) (rw (run, ◌>>=◌) (rw e refl))

    abbrev flagged : RtEntry → RtEntry
    flagged r = record r { flow_flags = flow.flow_flags }

    abbrev with_flags : RtEntry → Tables → Tables
    with_flags r s = record s { routes = set_route p (flagged r) s.routes }

    -- The rest, after the neighbour.
    after_neigh :
        (s : Tables) (r : RtEntry) (res : Bool × Tables) (j : ℕ)
        → s.routes.entries p ≡ some r
        → neigh_register k p (with_flags r s) ≡ done res
        → Resolves holds k p (flagged r) (holder ∷ rts) (with_flags r s) res
        → FppAnswers k res.1.fpp j
        → Returns (register_route k p o flow s) (Registers flow)
    after_neigh s r res j here run d w =
        elim (Bool-cases (not res.0 && not flow.flow_flags.ignore_neigh)) [
          | inl stuck ↦ (
            (false, holder, res.1),
            register_runs s r res true here run stuck,
            record { covers = d.keeps.covers; ready = λ e. absurd (false≢true e) },
          )
          | inr passes ↦
              let (out, runs, t) =
                register_itf-Registers d.keeps.route res.1 j d.keeps.covers d.keeps.here
                  d.keeps.same_flags
                  (λ strict.
                    d.resolved (must_hold res.0 flow.flow_flags.ignore_neigh passes strict))
                  w in
              (out, register_runs s r res false here run passes ∙ runs, t)
        ]

    with_flags-Covers :
        (s : Tables) (r : RtEntry)
        → s.routes.entries p ≡ some r
        → Covers holds (holder ∷ rts) s
        → Covers holds (holder ∷ rts) (with_flags r s)
    with_flags-Covers s r here c =
        set_route-Covers holds (holder ∷ rts) s c p r (flagged r) here refl refl refl refl refl refl
          refl

    pub register_route-Registers :
        (s : Tables) (j : ℕ)
        → Covers holds (holder ∷ rts) s
        → NeighAnswers k s.neighs
        → FppAnswers k s.fpp j
        → Returns (register_route k p o flow s) (Registers flow)
    register_route-Registers s j c answers w =
        let (r, here, many) = c.held.route p (ground arith) in
        let (res, run, d) =
          neigh_register-Resolves holds k p (flagged r) (holder ∷ rts) (with_flags r s)
            (with_flags-Covers s r here c) (ground arith) answers in
        after_neigh s r res j here run d (subst (λ t. FppAnswers k t j) (sym d.keeps.fpp) w)
