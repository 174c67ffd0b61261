-- ===== src/Routes.antt =====
-- src/route_cache.c, lines 189-382: the cache of the kernel's routes, without the policy routes that
-- src/module_route.c makes. Counts do not wrap.
pub mod Valid
pub mod Put
pub mod Lookup
pub mod Get
pub mod Again
pub mod Reply
pub mod Update
pub mod Refreshed
use cmm.Prelude.{
  ℕ, ◌+◌, ◌-◌, ◌*◌, ◌/◌, ◌%◌, ◌^◌, Bool, true, false, ◌&&◌, Option, none, some, List, [], length,
  leb, ◌==◌, if◌then◌else◌, update,
}
use cmm.Prelude.Run.{Run, done, ◌>>=◌, deref}
use cmm.Net.{Jhash, ip_addr_len, word, mem_eq, mem_copy, no_addr, hash_rt, hash_neighbor}
use cmm.Table.{scan, link, unlink}
use cmm.RouteEntry.{RtEntry, Flow, Kernel, blank, netlink_lookup}

-- The entries by address, `rt_table` and `rt_table_by_gw_ip`.
pub record Routes : Type 0 where
  pub entries : ℕ → Option RtEntry
  pub table : ℕ → List ℕ
  pub by_gw : ℕ → List ℕ

-- `cmmRouteEqual` with the addresses and the mark of a flow.
unfoldable pub route_equal : ℕ → List ℕ → List ℕ → ℕ → RtEntry → Bool
route_equal n saddr daddr fwmark r =
    mem_eq n r.saddr saddr && (mem_eq n r.daddr daddr && r.fwmark == fwmark)

-- The end of `__cmmRouteFind`: an invalid route is not returned.
unfoldable pub if_usable : (ℕ → Option RtEntry) → Option ℕ → Run (Option ℕ)
if_usable entries none = done none
if_usable entries (some p) = do
  r ← deref (entries p)
  if r.invalid then done none else done (some p)

module _ ⦃jhash : Jhash⦄ where
  unfoldable pub route_find : Flow → Routes → Run (Option ℕ)
  route_find f t = do
    saddr ← deref f.saddr
    let key = hash_rt f.family saddr f.daddr
    found ←
        scan (route_equal (ip_addr_len f.family / 4) saddr f.daddr f.fwmark) t.entries (t.table key)
    if_usable t.entries found

  abbrev pub rt_home : RtEntry → ℕ
  rt_home r = hash_rt r.family r.saddr r.daddr

  abbrev pub gw_home : RtEntry → ℕ
  gw_home r = hash_neighbor r.family r.gw_addr

  -- The tables with a new entry at an address.
  abbrev pub enter : ℕ → RtEntry → Routes → Routes
  enter p r t = record {
    entries = update t.entries p (some r);
    table = link (rt_home r) p t.table;
    by_gw = link (gw_home r) p t.by_gw;
  }

  -- The second argument is the address that `malloc` returns.
  unfoldable pub route_add : Kernel → Option ℕ → Flow → Routes → Option ℕ × Routes
  route_add k none f t = (none, t)
  route_add k (some p) f t = elim (netlink_lookup k f blank) [
    | none ↦ (none, t)
    | some r ↦ (some p, enter p r t)
  ]

unfoldable pub route_remove : ℕ → Routes → Run Routes
route_remove p t = do
  r ← deref (t.entries p)
  done (record {
    entries = update t.entries p none;
    table = if r.rt_policy then t.table else unlink p t.table;
    by_gw = unlink p t.by_gw;
  })

-- A new number of holders for the entry at an address.
abbrev pub recount : ℕ → RtEntry → ℕ → Routes → Routes
recount p r n t = record t { entries = update t.entries p (some (record r { count = n })) }

unfoldable pub route_put : ℕ → Routes → Run Routes
route_put p t = do
  r ← deref (t.entries p)
  let t' = recount p r (r.count - 1) t
  if leb (r.count - 1) 0 then route_remove p t' else done t'

-- `route->count++` and the result of `__cmmRouteGet`.
unfoldable pub hold_route : Option ℕ × Routes → Run (Option ℕ × Routes)
hold_route (none, t) = done (none, t)
hold_route (some p, t) = do r ← deref (t.entries p); done (some p, recount p r (r.count + 1) t)

module _ ⦃jhash : Jhash⦄ where
  unfoldable pub route_get : Kernel → Option ℕ → Flow → Routes → Run (Option ℕ × Routes)
  route_get k memory f t = do
    found ← route_find f t
    hold_route (elim found [ none ↦ route_add k memory f t | some p ↦ (some p, t) ])
