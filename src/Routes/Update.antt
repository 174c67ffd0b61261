-- ===== src/Routes/Update.antt =====
-- src/route_cache.c, `__cmmRouteUpdate`, lines 861-951 and 1006-1007: a route is looked up again after
-- the kernel's tables have changed. The loops over what uses the route stand between the two parts;
-- of them the model says only whether they run. The build is the one without LS1043.
use cmm.Prelude.{ℕ, ◌/◌, Bool, true, not, Option, none, some, ◌==◌, if◌then◌else◌, update}
use cmm.Prelude.Run.{Run, done, ◌>>=◌, deref}
use cmm.Net.{Jhash, mem_eq}
use cmm.Table.{link, unlink}
use cmm.RouteEntry.{RtEntry, Kernel, refresh}
use cmm.Routes.{Routes, gw_home}
use cmm.Neigh.{Neighs, neigh_put}

-- A write to the entry at an address.
abbrev pub rewrite : ℕ → RtEntry → Routes → Routes
rewrite p r t = record t { entries = update t.entries p (some r) }

-- Whether the users of the route are updated, and the neighbour that the route no longer has.
pub record Outcome : Type 0 where
  pub routes : Routes
  pub users_updated : Bool
  pub neigh : Option ℕ

-- What a new gateway or a new interface resets.
abbrev pub rerouted : RtEntry → RtEntry
rerouted r = record r { phys_oifindex = 0; neigh_entry = none }

module _ ⦃jhash : Jhash⦄ where
  -- The route moves to the list of its new gateway.
  abbrev pub regate : ℕ → RtEntry → Routes → Routes
  regate p r t = record t {
    entries = update t.entries p (some (rerouted r));
    by_gw = link (gw_home r) p (unlink p t.by_gw);
  }

  -- The tests on what has changed, for the route before and after the look-up.
  unfoldable pub apply_change : ℕ → RtEntry → RtEntry → Routes → Outcome
  apply_change p r r' t =
      if not (mem_eq (r'.gw_addr_len / 4) r'.gw_addr r.gw_addr)
      then record { routes = regate p r' t; users_updated = true; neigh = r'.neigh_entry }
      else if not (r'.oifindex == r.oifindex)
      then record {
        routes = rewrite p (rerouted r') t;
        users_updated = true;
        neigh = r'.neigh_entry;
      }
      else record { routes = rewrite p r' t; users_updated = not (r'.mtu == r.mtu); neigh = none }

  -- The first part.
  unfoldable pub route_update : Kernel → ℕ → Routes → Run Outcome
  route_update k p t = do
    r ← deref (t.entries p)
    elim (refresh k r) [
      | none ↦ done (record {
        routes = rewrite p (record r { invalid = true }) t;
        users_updated = true;
        neigh = none;
      })
      | some r' ↦ done (apply_change p r r' t)
    ]

-- The last part.
unfoldable pub put_dropped : Option ℕ → Neighs → Run Neighs
put_dropped none ns = done ns
put_dropped (some q) ns = neigh_put q ns
