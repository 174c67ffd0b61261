-- ===== src/Registering/Registered.antt =====
-- src/conntrack.c, `__cmmRouteRegister`: what a call returns and leaves.
use cmm.Prelude.{ℕ, ◌≡◌, refl, sym, Bool, false, some, List, ◌∷◌, Option-cases, inl, inr}
use mathlib.Core.Path.{subst}
use mathlib.Core.Bool.{false≢true}
use cmm.Prelude.Run.{◌>>=◌, Returns}
use cmm.Net.{Jhash}
use cmm.RouteEntry.{Flow}
use cmm.Engine.{FastPath}
use cmm.Holding.Register.{CtRoute, Tables}
use cmm.Registering.{Answers, route_register}
use cmm.Registering.Covers.{Covers}
use cmm.Registering.Resolved.{NeighAnswers}
use cmm.Registering.FastRoute.{FppAnswers}
use cmm.Registering.Ready.{Registers, register_route-Registers}
use cmm.Registering.Taken.{Fits, take_route-TakesRoute}

module _ ⦃fast_path : FastPath⦄ ⦃jhash : Jhash⦄ (holds : fast_path.State → ℕ → Bool) (k : Answers)
    (rts : List CtRoute) where
  -- On valid tables, whose flags are in step with the fast path and whose counts cover a holder
  -- and the others, for a flow with a source address, where the answers of the kernel and of
  -- malloc fit the tables and an identifier is left, __cmmRouteRegister returns, also where it
  -- fails: it meets no freed entry, keeps the tables valid and counts what the holder has taken;
  -- where the result is 0 the holder has a route with the flags of the flow and a route of the
  -- fast path, the physical interface is one that the fast path has, and the neighbour is usable
  -- unless the flow does not ask for one.
  pub route_register-Registers :
      (rt : CtRoute) (flow : Flow) (saddr : List ℕ) (s : Tables)
      → flow.saddr ≡ some saddr
      → Fits k s
      → Covers holds (rt ∷ rts) s
      → Returns (route_register k rt flow s) (Registers holds k rts flow)
  unfolding route_register
  route_register-Registers rt flow saddr s e w c =
      let ((got, s₁), run, t) = take_route-TakesRoute holds k rts rt flow saddr s e w c in
      elim (Option-cases got) [
        | inl nothing ↦ (
          (false, rt, s₁),
          rw (run, ◌>>=◌) (rw nothing refl),
          record { covers = t.failed nothing; ready = λ e. absurd (false≢true e) },
        )
        | inr (p, found) ↦
            let c₁ : Covers holds (record { route = some p; fpp_route = rt.fpp_route } ∷ rts) s₁ =
              rw found at (t.covers) in
            let answers : NeighAnswers k s₁.neighs =
              subst (λ x. NeighAnswers k x) (sym t.neighs) w.neighs in
            let left : FppAnswers k s₁.fpp w.id =
              subst (λ x. FppAnswers k x w.id) (sym t.fpp) w.fpp in
            let (out, runs, d) =
              register_route-Registers holds k rts flow p rt.fpp_route s₁ w.id c₁ answers left in
            (out, rw (run, ◌>>=◌) (rw found runs), d)
      ]
