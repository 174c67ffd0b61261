-- ===== src/Holding/Teardown.antt =====
-- src/conntrack.c, `____cmmCtDeregister`: what is left when a connection has let go of its routes.
use cmm.Prelude.{
  ℕ, ◌≤◌, ◌≡◌, refl, Bool, Option, none, some, List, ◌∷◌, map, arith, Option-cases, inl, inr,
}
use cmm.Prelude.Run.{done, ◌>>=◌, Returns}
use cmm.Net.{Jhash}
use cmm.Table.{unlink}
use cmm.Engine.{FastPath}
use cmm.Engine.InStep.{IsFaithful}
use cmm.Holding.Counts.{pointers_to}
use cmm.Holding.Register.{
  CtRoute, no_ct_route, Tables, route_deregister, IsValid, LetGo, route_deregister-LetGo,
}
use cmm.Holding.Connection.{Connection, tunnel_deregister, routes_deregister, Held, held-Holds}
use cmm.Holding.Left.{held_left}

pointers_to-cons :
    (p : ℕ) (x : Option ℕ) (xs : List (Option ℕ)) → pointers_to p xs ≤ pointers_to p (x ∷ xs)
pointers_to-cons p none xs = omega arith
pointers_to-cons p (some q) xs = ground arith

module _ ⦃fast_path : FastPath⦄ ⦃jhash : Jhash⦄ (holds : fast_path.State → ℕ → Bool)
    (w : IsFaithful holds) where
  -- What a call for one holder leaves to the others.
  pub record Leaves (rts : List CtRoute) (res : CtRoute × Tables) : Type 0 where
    pub valid : IsValid holds res.1
    pub held : Held holds res.1 rts
    pub cleared : res.0.route ≡ none

  pub record Clears (s : Tables) (rt : CtRoute) (rts : List CtRoute) (res : CtRoute × Tables)
      : Type 0 where
    pub leaves : Leaves rts res
    pub empty : res.0 ≡ no_ct_route
    pub lets_go : LetGo holds s rt res

  pub deregister-Clears :
      (s : Tables) (rt : CtRoute) (rts : List CtRoute)
      → IsValid holds s
      → Held holds s (rt ∷ rts)
      → Returns (route_deregister rt s) (Clears s rt rts)
  deregister-Clears s rt rts v h =
      let (res, run, d) = route_deregister-LetGo holds s rt w v (held-Holds holds s rt rts h) in
      (
        res,
        run,
        record {
          leaves = record {
            valid = d.valid;
            held = held_left holds s rt rts res h d;
            cleared = rw d.cleared refl;
          };
          empty = d.cleared;
          lets_go = d;
        },
      )

  held-tail :
      (s : Tables) (rt : CtRoute) (rts : List CtRoute) → Held holds s (rt ∷ rts) → Held holds s rts
  held-tail s rt rts h = record {
    fpp = λ p some_left.
        let more = pointers_to-cons p rt.fpp_route (map (λ (rt : CtRoute). rt.fpp_route) rts) in
        let (r, here, many) = h.fpp p (λ e. some_left (omega arith)) in (r, here, omega arith);
    route = λ p some_left.
        let more = pointers_to-cons p rt.route (map (λ (rt : CtRoute). rt.route) rts) in
        let (r, here, many) = h.route p (λ e. some_left (omega arith)) in (r, here, omega arith);
    neighbored = h.neighbored;
  }

  -- The list of a tunnel's route, without the entry of the connection if there was a route.
  abbrev pub without : ℕ → CtRoute → (ℕ → List ℕ) → ℕ → List ℕ
  without ct rt by_tunnel = elim rt.route [ none ↦ by_tunnel | some p ↦ unlink ct by_tunnel ]

  record TunnelLeaves (ct : ℕ) (rt : CtRoute) (by_tunnel : ℕ → List ℕ) (rts : List CtRoute)
      (res : CtRoute × (ℕ → List ℕ) × Tables) : Type 0 where
    valid : IsValid holds res.2
    held : Held holds res.2 rts
    cleared : res.0.route ≡ none
    unlinked : res.1 ≡ without ct rt by_tunnel

  tunnel_absent :
      (ct : ℕ) (rt : CtRoute) (by_tunnel : ℕ → List ℕ) (s : Tables)
      → rt.route ≡ none
      → tunnel_deregister ct rt by_tunnel s ≡ done (rt, by_tunnel, s)
  unfolding tunnel_deregister
  tunnel_absent ct rt by_tunnel s nothing = ground (arith, nothing)

  tunnel-Leaves :
      (ct : ℕ) (rt : CtRoute) (by_tunnel : ℕ → List ℕ) (s : Tables) (rts : List CtRoute)
      → IsValid holds s
      → Held holds s (rt ∷ rts)
      → Returns (tunnel_deregister ct rt by_tunnel s) (TunnelLeaves ct rt by_tunnel rts)
  unfolding tunnel_deregister
  tunnel-Leaves ct rt by_tunnel s rts v h = elim (Option-cases rt.route) [
    | inl nothing ↦ (
      (rt, by_tunnel, s),
      tunnel_absent ct rt by_tunnel s nothing,
      record {
        valid = v;
        held = held-tail s rt rts h;
        cleared = nothing;
        unlinked = ground (arith, nothing);
      },
    )
    | inr (p, e) ↦
        let (res, run, c) = deregister-Clears s rt rts v h in
        (
          (res.0, unlink ct by_tunnel, res.1),
          rw (e, tunnel_deregister) (rw (run, ◌>>=◌) refl),
          record {
            valid = c.leaves.valid;
            held = c.leaves.held;
            cleared = c.leaves.cleared;
            unlinked = ground (arith, e);
          },
        )
  ]

  -- The tables, the routes and the lists after a connection has let go of its routes.
  pub record TornDown (ct : ℕ) (c : Connection) (rest : List CtRoute) (res : Connection)
      : Type 0 where
    pub valid : IsValid holds res.tables
    pub held : Held holds res.tables rest
    pub orig : res.routes.orig ≡ no_ct_route
    pub rep : res.routes.rep ≡ no_ct_route
    pub orig_tunnel : res.routes.orig_tunnel.route ≡ none
    pub rep_tunnel : res.routes.rep_tunnel.route ≡ none
    pub by_orig_tunnel : res.by_orig_tunnel ≡ without ct c.routes.orig_tunnel c.by_orig_tunnel
    pub by_rep_tunnel : res.by_rep_tunnel ≡ without ct c.routes.rep_tunnel c.by_rep_tunnel

  -- On valid tables in step with a fast path that keeps to its protocol, where the counts of the
  -- fast-path routes, of the routes and of the neighbours cover all their holders, the part of
  -- ____cmmCtDeregister that lets go of a connection's four routes returns: it meets no freed
  -- entry, though the routes may share entries, leaves the tables valid, in step and with counts
  -- that cover the other holders, clears the routes, and takes the connection off the list of each
  -- tunnel's route that it had.
  pub routes_deregister-TornDown :
      (ct : ℕ) (c : Connection) (rest : List CtRoute)
      → IsValid holds c.tables
      → Held holds c.tables
          (c.routes.rep ∷ c.routes.orig ∷ c.routes.rep_tunnel ∷ c.routes.orig_tunnel ∷ rest)
      → Returns (routes_deregister ct c) (TornDown ct c rest)
  unfolding routes_deregister
  routes_deregister-TornDown ct c rest v h =
      let o = c.routes in
      let (r₁, run₁, d₁) =
        deregister-Clears c.tables o.rep (o.orig ∷ o.rep_tunnel ∷ o.orig_tunnel ∷ rest) v h in
      let (r₂, run₂, d₂) =
        deregister-Clears r₁.1 o.orig (o.rep_tunnel ∷ o.orig_tunnel ∷ rest) d₁.leaves.valid
          d₁.leaves.held in
      let (r₃, run₃, d₃) =
        tunnel-Leaves ct o.rep_tunnel c.by_rep_tunnel r₂.1 (o.orig_tunnel ∷ rest) d₂.leaves.valid
          d₂.leaves.held in
      let (r₄, run₄, d₄) =
        tunnel-Leaves ct o.orig_tunnel c.by_orig_tunnel r₃.2 rest d₃.valid d₃.held in
      (
        record {
          routes = record { orig = r₂.0; rep = r₁.0; orig_tunnel = r₄.0; rep_tunnel = r₃.0 };
          by_orig_tunnel = r₄.1;
          by_rep_tunnel = r₃.1;
          tables = r₄.2;
        },
        rw (run₁, ◌>>=◌) (rw run₂ (rw run₃ (rw run₄ refl))),
        record {
          valid = d₄.valid;
          held = d₄.held;
          orig = d₂.empty;
          rep = d₁.empty;
          orig_tunnel = d₄.cleared;
          rep_tunnel = d₃.cleared;
          by_orig_tunnel = d₄.unlinked;
          by_rep_tunnel = d₃.unlinked;
        },
      )
