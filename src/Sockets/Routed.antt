-- ===== src/Sockets/Routed.antt =====
-- src/module_socket.c, `__socket_open`: the tables of routes, before the command for the socket is sent.
use cmm.Prelude.{
  ℕ, ◌≡◌, refl, sym, ap, ◌∙◌, Bool, Option, none, some, List, ◌∷◌, map, arith, ◌==◌, Bool-cases,
  inl, inr,
}
use cmm.Prelude.Run.{◌>>=◌, Returns}
use cmm.Net.{Jhash}
use cmm.Fpp.{FppRt, FppTable}
use cmm.Engine.{FastPath, request_add}
use cmm.Engine.InStep.{IsFaithful}
use cmm.Engine.Update.{fe_route_update-Updates}
use cmm.Holding.Counts.{pointers_to}
use cmm.Holding.Register.{CtRoute, no_ct_route, Tables}
use cmm.Registering.{Answers}
use cmm.Registering.Covers.{Covers}
use cmm.Registering.Taken.{Fits}
use cmm.Registering.Registered.{route_register-Registers}
use cmm.Sockets.{Socket}
use cmm.Sockets.Open.{socket_flow, tell_fast_path, open_route}

module _ ⦃fast_path : FastPath⦄ ⦃jhash : Jhash⦄ (holds : fast_path.State → ℕ → Bool)
    (rts : List CtRoute) where
  -- A holder of nothing may be counted.
  pub blank-Covers : (ts : Tables) → Covers holds rts ts → Covers holds (no_ct_route ∷ rts) ts
  blank-Covers ts c = record {
    valid = c.valid;
    held = record { fpp = c.held.fpp; route = c.held.route; neighbored = c.held.neighbored };
  }

  pub swap-Covers :
      (a b : CtRoute) (ts : Tables) → Covers holds (a ∷ b ∷ rts) ts → Covers holds (b ∷ a ∷ rts) ts
  swap-Covers a b ts c = record {
    valid = c.valid;
    held = record {
      fpp = λ p.
          rw (swapped p a.fpp_route b.fpp_route (map (λ (rt : CtRoute). rt.fpp_route) rts))
            (c.held.fpp p);
      route = λ p.
          rw (swapped p a.route b.route (map (λ (rt : CtRoute). rt.route) rts)) (c.held.route p);
      neighbored = c.held.neighbored;
    };
  }
    where
      swapped :
          (p : ℕ) (a b : Option ℕ) (xs : List (Option ℕ))
          → pointers_to p (b ∷ a ∷ xs) ≡ pointers_to p (a ∷ b ∷ xs)
      swapped p none none xs = refl
      swapped p none (some b) xs = refl
      swapped p (some a) none xs = refl
      swapped p (some a) (some b) xs = ground arith

  -- The fast path may change in what is not a route.
  pub fast-Covers :
      (ts : Tables) (fast : fast_path.State)
      → ((j : ℕ) → holds fast j ≡ holds ts.fast j)
      → Covers holds rts ts
      → Covers holds rts (record ts { fast = fast })
  fast-Covers ts fast same c = record {
    valid = record {
      fpp = c.valid.fpp;
      in_step = record {
        programmed = λ p r h. same r.id ∙ c.valid.in_step.programmed p r h;
        owned = λ j h. c.valid.in_step.owned j (sym (same j) ∙ h);
      };
      routes = c.valid.routes;
      neighs = c.valid.neighs;
    };
    held = record { fpp = c.held.fpp; route = c.held.route; neighbored = c.held.neighbored };
  }

  -- The fast path is told of a route that is there.
  tell_fast_path-Covers :
      (p : ℕ) (r : FppRt) (ts : Tables)
      → IsFaithful holds
      → ts.fpp.routes p ≡ some r
      → Covers holds rts ts
      → Returns (tell_fast_path (some p) ts) (Covers holds rts)
  unfolding tell_fast_path
  tell_fast_path-Covers p r ts w here c =
      let ((t, fast, ok), run, u) =
        fe_route_update-Updates holds request_add ts.fpp p r ts.fast w c.valid.fpp c.valid.in_step
          here in
      (
        record ts { fpp = t; fast = fast },
        rw (run, ◌>>=◌) refl,
        record {
          valid = record {
            fpp = u.valid;
            in_step = u.in_step;
            routes = c.valid.routes;
            neighs = c.valid.neighs;
          };
          held = record {
            fpp = λ q some_left.
                let (r₁, there, many) = c.held.fpp q some_left in
                elim (Bool-cases (q == p)) [
                  | inl same ↦ (
                    record r { flags = u.flags },
                    ground (arith, u.routes q),
                    ground (arith, here, there),
                  )
                  | inr other ↦ (r₁, ground (arith, u.routes q, there), many)
                ];
            route = c.held.route;
            neighbored = c.held.neighbored;
          };
        },
      )

module _ ⦃fast_path : FastPath⦄ ⦃jhash : Jhash⦄ (holds : fast_path.State → ℕ → Bool) (k : Answers)
    (rts : List CtRoute) (w : IsFaithful holds) where
  -- The socket keeps all but its routes, and the tables cover them.
  pub record Routed (s : Socket) (res : Socket × Tables) : Type 0 where
    pub rt : CtRoute
    pub socket : res.0 ≡ record s { rt = rt }
    pub covers : Covers holds (rt ∷ rts) res.1

  tell-Covers :
      (rt : CtRoute) (p : ℕ) (ts : Tables)
      → rt.fpp_route ≡ some p
      → Covers holds (rt ∷ rts) ts
      → Returns (tell_fast_path rt.fpp_route ts) (Covers holds (rt ∷ rts))
  tell-Covers rt p ts e c =
      let (r, here, many) = c.held.fpp p (ground (arith, e)) in
      let (ts', run, d) = tell_fast_path-Covers holds (rt ∷ rts) p r ts w here c in
      (ts', ap (λ o. tell_fast_path o ts) e ∙ run, d)

  pub open_route-Routed :
      (s : Socket) (ts : Tables)
      → Fits k ts
      → Covers holds (s.rt ∷ rts) ts
      → Returns (open_route k s ts) (Routed s)
  unfolding open_route
  open_route-Routed s ts fits c =
      let ((registered, rt, ts₁), run, d) =
        route_register-Registers holds k rts s.rt (socket_flow s) s.daddr ts refl fits c in
      elim (Bool-cases registered) [
        | inr failed ↦ (
          (record s { rt = rt }, ts₁),
          rw (run, ◌>>=◌) (rw (failed, ◌>>=◌) refl),
          record { rt = rt; socket = refl; covers = d.covers },
        )
        | inl ok ↦
            let ready = d.ready ok in
            let (ts₂, run₂, c₂) = tell-Covers rt ready.fast ts₁ ready.fpp_route d.covers in
            (
              (record s { rt = rt }, ts₂),
              rw (run, ◌>>=◌) (rw ok (rw (run₂, ◌>>=◌) refl)),
              record { rt = rt; socket = refl; covers = c₂ },
            )
      ]

-- The identifier of the route that the socket gives to the fast path.
abbrev pub Agrees : Socket → FppTable → Type 0
Agrees s t =
    (s.rt.fpp_route ≡ none → s.fpp_route_id ≡ 0)
    × ((p : ℕ) (r : FppRt) → s.rt.fpp_route ≡ some p → t.routes p ≡ some r → s.fpp_route_id ≡ r.id)
