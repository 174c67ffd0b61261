-- ===== src/Registering/Interface.antt =====
-- src/conntrack.c, `__cmmCtItfRegister`: a route takes its physical interface.
use cmm.Prelude.{
  ℕ, ◌≡◌, refl, Bool, true, false, ◌||◌, some, List, arith, Option-cases, inl, inr, ◌==◌,
  Bool-cases,
}
use cmm.Prelude.Run.{◌>>=◌, Returns}
use cmm.Net.{Jhash}
use cmm.RouteEntry.{RtEntry}
use cmm.Engine.{FastPath}
use cmm.Holding.Register.{CtRoute, Tables}
use cmm.Interfaces.Kinds.{itf_is_bridge, itf_is_programmed}
use cmm.Registering.{
  Answers, set_route, find_phys_itf, check_programmed, clear_check, ct_itf_register,
}
use cmm.Registering.Covers.{Covers, set_route-Covers}
use cmm.Registering.Bridged.{Settles, settled, wired-Settles, settles_trans, br_to_ff-Settles}

module _ ⦃fast_path : FastPath⦄ ⦃jhash : Jhash⦄ (holds : fast_path.State → ℕ → Bool) (k : Answers)
    (p : ℕ) (rts : List CtRoute) where
  -- The interface that a call leaves is one that the fast path has.
  pub record Programs (r : RtEntry) (s : Tables) (res : Bool × Tables) : Type 0 where
    pub settles : Settles holds k p rts r s res.1
    pub programmed :
        res.0 ≡ true
        → itf_is_programmed k.ports settles.route.phys_oifindex k.interfaces ≡ some true

  check_programmed-Programs :
      (r : RtEntry) (s : Tables)
      → Covers holds rts s
      → s.routes.entries p ≡ some r
      → Returns (check_programmed k p s) (Programs r s)
  unfolding check_programmed
  check_programmed-Programs r s c here =
      elim (Option-cases (itf_is_programmed k.ports r.phys_oifindex k.interfaces)) [
        | inl unknown ↦ (
          (false, s),
          rw (here, ◌>>=◌) (rw unknown refl),
          record { settles = settled holds k p rts r s c here; programmed = λ e. absurd (cc) },
        )
        | inr (programmed, e) ↦ (
          (programmed, s),
          rw (here, ◌>>=◌) (rw e refl),
          record { settles = settled holds k p rts r s c here; programmed = λ yes. rw yes at e },
        )
      ]

  find_phys_itf-Settles :
      (r : RtEntry) (s : Tables)
      → Covers holds rts s
      → s.routes.entries p ≡ some r
      → Returns (find_phys_itf k p r s) (λ res. Settles holds k p rts r s res.1)
  unfolding find_phys_itf
  find_phys_itf-Settles r s c here = elim (Option-cases (itf_is_bridge r.oifindex k.interfaces)) [
    | inl unknown ↦ ((false, s), rw (unknown, find_phys_itf) refl, settled holds k p rts r s c here)
    | inr (true, bridge) ↦
        let (res, run, d) = br_to_ff-Settles holds k p rts r s c here in
        (res, rw (bridge, find_phys_itf) run, d)
    | inr (false, plain) ↦ (
      (true, record s { routes = set_route p (record r { phys_oifindex = r.oifindex }) s.routes }),
      rw (plain, find_phys_itf) refl,
      wired-Settles holds k p rts r s r.oifindex c here,
    )
  ]

  Programs-after :
      (r : RtEntry) (s s₁ : Tables) (a : Settles holds k p rts r s s₁) (res : Bool × Tables)
      → Programs a.route s₁ res
      → Programs r s res
  unfolding settles_trans
  Programs-after r s s₁ a res b = record {
    settles = settles_trans holds k p rts r s s₁ res.1 a b.settles;
    programmed = b.programmed;
  }

  clear_check-Programs :
      (r : RtEntry) (s : Tables) (res : Bool × Tables)
      → Settles holds k p rts r s res.1
      → Returns (clear_check k p res) (Programs r s)
  unfolding clear_check
  clear_check-Programs r s (false, s₁) a =
      ((false, s₁), refl, record { settles = a; programmed = λ e. absurd (cc) })
  clear_check-Programs r s (true, s₁) a =
      let r₂ : RtEntry = record (a.route) { check_bridge_port = false } in
      let s₂ : Tables = record s₁ { routes = set_route p r₂ s₁.routes } in
      let c₂ =
        set_route-Covers holds rts s₁ a.covers p a.route r₂ a.here refl refl refl refl refl refl
          refl in
      let step : Settles holds k p rts a.route s₁ s₂ = record {
        covers = c₂;
        fpp = refl;
        stays = λ q n h. (n, h, omega arith, refl);
        route = r₂;
        here = ground arith;
        same_flags = refl;
        same_oif = refl;
        same_neigh = refl;
      } in
      let (res, run, b) = check_programmed-Programs r₂ s₂ c₂ (ground arith) in
      (
        res,
        rw (a.here, ◌>>=◌) run,
        Programs-after r s s₁ a res (Programs-after a.route s₁ s₂ step res b),
      )

  pub ct_itf_register-Programs :
      (r : RtEntry) (s : Tables)
      → Covers holds rts s
      → s.routes.entries p ≡ some r
      → Returns (ct_itf_register k p s) (Programs r s)
  unfolding ct_itf_register
  ct_itf_register-Programs r s c here =
      elim (Bool-cases (r.phys_oifindex == 0 || r.check_bridge_port)) [
        | inr known ↦
            let (res, run, d) = check_programmed-Programs r s c here in
            (res, rw (here, ◌>>=◌) (rw known run), d)
        | inl looks ↦
            let (res₁, run₁, a) = find_phys_itf-Settles r s c here in
            let (res, run, d) = clear_check-Programs r s res₁ a in
            (res, rw (here, ◌>>=◌) (rw looks (rw (run₁, ◌>>=◌) run)), d)
      ]
