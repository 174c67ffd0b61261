-- ===== src/Registering/Covers.antt =====
-- src/conntrack.c, `__cmmRouteRegister`: tables whose counts cover the holders, and the writes that keep
-- them so.
use cmm.Prelude.{ℕ, ◌≡◌, refl, Bool, some, List, arith, inl, inr, ◌==◌, Bool-cases}
use cmm.Net.{Jhash}
use cmm.RouteEntry.{RtEntry}
use cmm.Neigh.{Neighs}
use cmm.Engine.{FastPath}
use cmm.Holding.Register.{CtRoute, Tables, IsValid}
use cmm.Holding.Connection.{Held}
use cmm.Registering.{set_route}
use cmm.Neigh.Valid as NeighValid
use cmm.Registering.Holders.{Stays, set_route-IsValid, set_route-Neighbored, stays-Neighbored}

module _ ⦃fast_path : FastPath⦄ ⦃jhash : Jhash⦄ (holds : fast_path.State → ℕ → Bool) where
  -- Valid tables, whose counts cover some holders.
  pub record Covers (rts : List CtRoute) (s : Tables) : Type 0 where
    pub valid : IsValid holds s
    pub held : Held holds s rts

  module _ (rts : List CtRoute) (s : Tables) (c : Covers rts s) where
    -- A write to a route that leaves its holders, its neighbour and its places alone.
    pub set_route-Covers :
        (p : ℕ) (r r' : RtEntry)
        → s.routes.entries p ≡ some r
        → r'.family ≡ r.family
        → r'.saddr ≡ r.saddr
        → r'.daddr ≡ r.daddr
        → r'.gw_addr ≡ r.gw_addr
        → r'.rt_policy ≡ r.rt_policy
        → r'.neigh_entry ≡ r.neigh_entry
        → r'.count ≡ r.count
        → Covers rts (record s { routes = set_route p r' s.routes })
    set_route-Covers p r r' here family saddr daddr gw policy neigh count = record {
      valid = record {
        fpp = c.valid.fpp;
        in_step = c.valid.in_step;
        routes =
            set_route-IsValid s.routes p r r' here (rw (family, saddr, daddr) refl)
              (rw (family, gw) refl) policy c.valid.routes;
        neighs = c.valid.neighs;
      };
      held = record {
        fpp = c.held.fpp;
        route = λ q some_left.
            let (r₁, there, many) = c.held.route q some_left in
            elim (Bool-cases (q == p)) [
              | inl same ↦ (r', ground arith, ground (arith, here, there))
              | inr other ↦ (r₁, ground (arith, there), many)
            ];
        neighbored =
            set_route-Neighbored s.routes s.neighs s.neighs p r r' here neigh
              (λ q n h. (n, h, omega arith, refl)) c.held.neighbored;
      };
    }

    pub neighs-Covers :
        (ns : Neighs)
        → NeighValid.IsValid ns
        → Stays s.neighs ns
        → Covers rts (record s { neighs = ns })
    neighs-Covers ns v stays = record {
      valid = record {
        fpp = c.valid.fpp;
        in_step = c.valid.in_step;
        routes = c.valid.routes;
        neighs = v;
      };
      held = record {
        fpp = c.held.fpp;
        route = c.held.route;
        neighbored = stays-Neighbored s.routes s.neighs ns stays c.held.neighbored;
      };
    }
