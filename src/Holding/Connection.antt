-- ===== src/Holding/Connection.antt =====
-- src/conntrack.c, `____cmmCtDeregister`, lines 2209-2229: a connection that goes away lets go of its
-- routes.
use cmm.Prelude.{ℕ, ◌≤◌, ◌≡◌, ◌≢◌, Bool, none, some, List, ◌∷◌, map, arith}
use cmm.Prelude.Run.{Run, done, ◌>>=◌}
use cmm.Net.{Jhash}
use cmm.Table.{unlink}
use cmm.RouteEntry.{RtEntry}
use cmm.Fpp.{FppRt}
use cmm.Engine.{FastPath}
use cmm.Holding.Counts.{pointers_to, Neighbored, neighbor_alive}
use cmm.Holding.Register.{CtRoute, Tables, route_deregister, Holds}

-- The routes of a `struct ctTable`.
pub record CtRoutes : Type 0 where
  pub orig : CtRoute
  pub rep : CtRoute
  pub orig_tunnel : CtRoute
  pub rep_tunnel : CtRoute

module _ ⦃fast_path : FastPath⦄ where
  -- A tunnel's routes are let go of if there is a kernel's route; then the entry of the connection is
  -- taken off the list of that route.
  unfoldable pub tunnel_deregister :
      ℕ → CtRoute → (ℕ → List ℕ) → Tables → Run (CtRoute × (ℕ → List ℕ) × Tables)
  tunnel_deregister ct rt by_tunnel s = elim rt.route [
    | none ↦ done (rt, by_tunnel, s)
    | some p ↦ do (rt', s') ← route_deregister rt s; done (rt', unlink ct by_tunnel, s')
  ]

  -- The routes of an entry, the lists of the tunnels' routes, and the tables.
  pub record Connection : Type 0 where
    pub routes : CtRoutes
    pub by_orig_tunnel : ℕ → List ℕ
    pub by_rep_tunnel : ℕ → List ℕ
    pub tables : Tables

  -- The first argument is the address of the entry.
  unfoldable pub routes_deregister : ℕ → Connection → Run Connection
  routes_deregister ct c = do
    (rep, s₁) ← route_deregister c.routes.rep c.tables
    (orig, s₂) ← route_deregister c.routes.orig s₁
    (rep_tunnel, by_rep, s₃) ← tunnel_deregister ct c.routes.rep_tunnel c.by_rep_tunnel s₂
    (orig_tunnel, by_orig, s₄) ← tunnel_deregister ct c.routes.orig_tunnel c.by_orig_tunnel s₃
    done (record {
      routes = record {
        orig = orig;
        rep = rep;
        orig_tunnel = orig_tunnel;
        rep_tunnel = rep_tunnel;
      };
      by_orig_tunnel = by_orig;
      by_rep_tunnel = by_rep;
      tables = s₄;
    })

  module _ ⦃jhash : Jhash⦄ (holds : fast_path.State → ℕ → Bool) where
    -- The entries that some holders point to are there, and count each of them.
    pub record Held (s : Tables) (rts : List CtRoute) : Type 0 where
      pub fpp :
          (p : ℕ)
          → pointers_to p (map (λ (rt : CtRoute). rt.fpp_route) rts) ≢ 0
          → (r : FppRt) × (s.fpp.routes p ≡ some r)
            × (pointers_to p (map (λ (rt : CtRoute). rt.fpp_route) rts) ≤ r.count)
      pub route :
          (p : ℕ)
          → pointers_to p (map (λ (rt : CtRoute). rt.route) rts) ≢ 0
          → (r : RtEntry) × (s.routes.entries p ≡ some r)
            × (pointers_to p (map (λ (rt : CtRoute). rt.route) rts) ≤ r.count)
      pub neighbored : Neighbored s.routes s.neighs

    pub held-Holds :
        (s : Tables) (rt : CtRoute) (rts : List CtRoute) → Held s (rt ∷ rts) → Holds holds s rt
    held-Holds s rt rts h = record {
      fpp =
          λ p e. let (r, here, many) = h.fpp p (ground (arith, e)) in (r, here, ground (arith, e));
      route = λ p e. let (r, here, many) = h.route p (ground (arith, e)) in (r, here);
      neigh = λ p q r e here e' gone.
          let (n, there, many) =
            h.neighbored.alive q (neighbor_alive s.routes s.neighs h.neighbored p q r here e') in
          ground (arith, gone, there);
    }
