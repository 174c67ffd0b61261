-- ===== src/Fpp.antt =====
-- src/route_cache.c, lines 380-532, with `struct fpp_rt` of src/route_cache.h: the cache of the routes
-- that the fast path is told of. Counts and interface indices do not wrap.
pub mod Key
pub mod Valid
pub mod Put
pub mod Add
pub mod Get
pub mod RoundTrip
use cmm.Prelude.{
  ℕ, ◌+◌, ◌-◌, ◌/◌, ◌%◌, ◌^◌, ◌≡◌, Bool, true, false, ◌&&◌, ◌||◌, Option, none, some, List, [], ◌∷◌,
  leb, ◌==◌, if◌then◌else◌, update,
}
use cmm.Prelude.Run.{Run, done, fault, spin, ◌>>=◌, deref}
use cmm.Net.{Jhash, mem_eq, mem_copy, no_addr, hash_fpp_rt}
use cmm.Table.{scan, link, unlink}
use cmm.RouteIds.{RouteIds, no_ids, route_max_id, new_route_id, del_route_id}

-- The bits of `flags` that the routes of the fast path use.
pub record FppFlags : Type 0 where
  pub programmed : Bool
  pub needs_update : Bool
  pub is_local : Bool

pub record FppRt : Type 0 where
  pub oifindex : ℕ
  pub iifindex : ℕ
  pub underlying_iifindex : ℕ
  pub mtu : ℕ
  pub dst_mac : List ℕ
  pub dst_addr : List ℕ
  pub dst_addr_len : ℕ
  pub count : ℕ
  pub flags : FppFlags
  pub id : ℕ

-- The parameters of `__cmmFPPRouteGet`. The null `dst_addr` is the empty array.
pub record FppArgs : Type 0 where
  pub oifindex : ℕ
  pub iifindex : ℕ
  pub underlying_iifindex : ℕ
  pub dst_mac : List ℕ
  pub mtu : ℕ
  pub dst_addr : List ℕ
  pub dst_addr_len : ℕ

-- `fpp_rt_table`, the routes that are allocated, by address, and the identifiers.
pub record FppTable : Type 0 where
  pub routes : ℕ → Option FppRt
  pub table : ℕ → List ℕ
  pub ids : RouteIds

abbrev pub no_mac : List ℕ
no_mac = 0 ∷ 0 ∷ 0 ∷ 0 ∷ 0 ∷ 0 ∷ []

abbrev pub no_flags : FppFlags
no_flags = record { programmed = false; needs_update = false; is_local = false }

abbrev pub empty : FppTable
empty = record { routes = λ p. none; table = λ k. []; ids = no_ids }

-- The test in the loop of `__cmmFPPRouteFind`.
unfoldable pub fpp_match : FppArgs → FppRt → Bool
fpp_match a r =
    mem_eq 6 r.dst_mac a.dst_mac
    && (r.oifindex == a.oifindex
        && (r.iifindex == a.iifindex
            && (r.mtu == a.mtu
                && (a.dst_addr_len == r.dst_addr_len
                    && (a.dst_addr_len == 0
                        || mem_eq (a.dst_addr_len / 4) r.dst_addr a.dst_addr)))))

module _ ⦃jhash : Jhash⦄ where
  unfoldable pub fpp_route_find : FppArgs → FppTable → Run (Option ℕ)
  fpp_route_find a t = scan (fpp_match a) t.routes (t.table (hash_fpp_rt a.oifindex a.dst_mac))

unfoldable pub fpp_route_remove : ℕ → FppTable → Run FppTable
fpp_route_remove p t = do
  r ← deref (t.routes p)
  let ids = del_route_id t.ids r.id
  done (record { routes = update t.routes p none; table = unlink p t.table; ids = ids })

unfoldable pub fpp_route_put : ℕ → FppTable → Run FppTable
fpp_route_put p t = do
  r ← deref (t.routes p)
  let t' = record t { routes = update t.routes p (some (record r { count = r.count - 1 })) }
  if leb (r.count - 1) 0 then fpp_route_remove p t' else done t'

-- `new_route_id` with the fuel of a round for each identifier; a search that goes further is one that
-- does not end.
unfoldable pub take_id : RouteIds → Run (ℕ × RouteIds)
take_id ids = elim (new_route_id route_max_id ids) [ none ↦ spin | some r ↦ done r ]

-- The entry that `__cmmFPPRouteAdd` fills in.
unfoldable pub new_route : FppArgs → ℕ → FppRt
new_route a id = record {
  oifindex = a.oifindex;
  iifindex = a.iifindex;
  underlying_iifindex = a.underlying_iifindex;
  mtu = a.mtu % 2 ^ 16;
  dst_mac = mem_copy 6 a.dst_mac no_mac;
  dst_addr =
      if a.dst_addr_len == 0 then no_addr else mem_copy (a.dst_addr_len / 4) a.dst_addr no_addr;
  dst_addr_len = a.dst_addr_len;
  count = 0;
  flags = no_flags;
  id = id;
}

module _ ⦃jhash : Jhash⦄ where
  -- The first argument is the address that `malloc` returns.
  unfoldable pub fpp_route_add : Option ℕ → FppArgs → FppTable → Run (Option ℕ × FppTable)
  unfolding take_id new_route
  fpp_route_add none a t = done (none, t)
  fpp_route_add (some p) a t = do
    (id, ids) ← take_id t.ids
    let r = new_route a id
    let table = link (hash_fpp_rt r.oifindex r.dst_mac) p t.table
    done (some p, record { routes = update t.routes p (some r); table = table; ids = ids })

  -- `route->count++` and the result of `__cmmFPPRouteGet`.
  hold : Option ℕ × FppTable → Run (Option ℕ × FppTable)
  hold (none, t) = done (none, t)
  hold (some p, t) = do
    r ← deref (t.routes p)
    done (some p, record t { routes = update t.routes p (some (record r { count = r.count + 1 })) })

  unfoldable pub fpp_route_get : Option ℕ → FppArgs → FppTable → Run (Option ℕ × FppTable)
  unfolding hold
  fpp_route_get memory a t = do
    found ← fpp_route_find a t
    result ← elim found [ none ↦ fpp_route_add memory a t | some p ↦ done (some p, t) ]
    hold result
