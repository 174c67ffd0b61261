-- ===== src/Registering.antt =====
-- src/conntrack.c, lines 881-1123, and src/ffbridge.c, lines 153-251: a holder takes its routes.
-- `__cmmRouteRegister` takes the kernel's route, the neighbour of that route, the physical interface and
-- the route of the fast path. What the kernel and `malloc` answer is the record `Answers`; the tables of
-- interfaces and of connections are only read.
pub mod Holders
pub mod Covers
pub mod Resolved
pub mod Macs
pub mod Bridged
pub mod Interface
pub mod Gains
pub mod FastRoute
pub mod Route
pub mod Ready
pub mod Taken
pub mod Registered
use cmm.Prelude.{
  ℕ, ◌%◌, ◌^◌, Bool, true, false, not, ◌&&◌, ◌||◌, Option, none, some, List, [], ◌∷◌, ◌==◌,
  if◌then◌else◌, update,
}
use cmm.Prelude.Run.{Run, done, ◌>>=◌, deref}
use cmm.Net.{Jhash, word, four_words, ip_addr_len}
use cmm.RouteEntry.{RtEntry, Flow, FlowFlags, Kernel}
use cmm.Routes.{Routes, route_get}
use cmm.Neigh.{Neighs, nud_valid, null_mac}
use cmm.Neigh.Update.{NeighMessage}
use cmm.Neigh.Ports.{neigh_update_all_macs}
use cmm.Neigh.Obtain.{neigh_get}
use cmm.Fpp.{FppArgs, fpp_route_get}
use cmm.Engine.{FastPath}
use cmm.Interfaces.{Interfaces}
use cmm.Interfaces.Kinds.{
  GemacPort, itf_is_bridge, itf_is_noarp, itf_get_from_bridge_port, itf_is_programmed,
}
use cmm.Conntrack.{Conntracks}
use cmm.Conntrack.FromFlow.{ct_find_local_from_flow}
use cmm.Holding.Register.{CtRoute, Tables}
use cmm.FdbPorts.{FdbEntry, br_get_all_mac_port}

-- The kernel's routes and neighbours, the entries of a bridge that the calls of `ioctl` give before one
-- of them fails or gives none, the addresses that `malloc` returns, and the tables that are only read.
pub record Answers : Type 0 where
  pub kernel : Kernel
  pub route_memory : Option ℕ
  pub own : ℕ → ℕ → List ℕ → Bool
  pub dump : Option (List (Option ℕ × NeighMessage))
  pub neigh_memory : Option ℕ
  pub fpp_memory : Option ℕ
  pub fdb : ℕ → List FdbEntry
  pub ports : List GemacPort
  pub interfaces : Interfaces
  pub conntracks : Conntracks

-- A write to the route at an address.
abbrev pub set_route : ℕ → RtEntry → Routes → Routes
set_route p r t = record t { entries = update t.entries p (some r) }

module _ ⦃fast_path : FastPath⦄ ⦃jhash : Jhash⦄ (k : Answers) where
  -- The end of `cmmBrToFF`: the interface behind the port of the neighbour.
  unfoldable pub through_port : ℕ → RtEntry → ℕ → Tables → Run (Bool × Tables)
  through_port p r q s = do
    n ← deref (s.neighs.entries q)
    elim n.port [
      | none ↦ done (false, s)
      | some port ↦ elim (itf_get_from_bridge_port r.oifindex port k.interfaces) [
        | none ↦ done (false, s)
        | some ifindex ↦
            if ifindex == 0
            then done (false, s)
            else done (
              true,
              record s { routes = set_route p (record r { phys_oifindex = ifindex }) s.routes },
            )
      ]
    ]

  -- With the neighbour of the route, whose port may be looked for first.
  unfoldable pub through_neigh : ℕ → RtEntry → Option ℕ → Tables → Run (Bool × Tables)
  through_neigh p r none s = done (false, s)
  through_neigh p r (some q) s = do
    n ← deref (s.neighs.entries q)
    ns ← elim n.port [
      | some port ↦ done s.neighs
      | none ↦ br_get_all_mac_port r.oifindex (k.fdb r.oifindex) s.neighs
    ]
    through_port p r q (record s { neighs = ns })

  unfoldable pub br_to_ff : ℕ → RtEntry → Tables → Run (Bool × Tables)
  br_to_ff p r s = through_neigh p r r.neigh_entry s

  -- The first part of `__cmmCtItfRegister`: the physical interface of the route.
  unfoldable pub find_phys_itf : ℕ → RtEntry → Tables → Run (Bool × Tables)
  find_phys_itf p r s = elim (itf_is_bridge r.oifindex k.interfaces) [
    | none ↦ done (false, s)
    | some true ↦ br_to_ff p r s
    | some false ↦
        done (
          true,
          record s { routes = set_route p (record r { phys_oifindex = r.oifindex }) s.routes },
        )
  ]

  -- Its end: the interface must be one that the fast path has.
  unfoldable pub check_programmed : ℕ → Tables → Run (Bool × Tables)
  check_programmed p s = do
    r ← deref (s.routes.entries p)
    elim (itf_is_programmed k.ports r.phys_oifindex k.interfaces) [
      | none ↦ done (false, s)
      | some programmed ↦ done (programmed, s)
    ]

  -- `route->flags &= ~CHECK_BRIDGE_PORT`, and the end.
  unfoldable pub clear_check : ℕ → Bool × Tables → Run (Bool × Tables)
  clear_check p (false, s) = done (false, s)
  clear_check p (true, s) = do
    r ← deref (s.routes.entries p)
    check_programmed p
        (record s { routes = set_route p (record r { check_bridge_port = false }) s.routes })

  unfoldable pub ct_itf_register : ℕ → Tables → Run (Bool × Tables)
  ct_itf_register p s = do
    r ← deref (s.routes.entries p)
    if r.phys_oifindex == 0 || r.check_bridge_port
        then find_phys_itf p r s >>= clear_check p
        else check_programmed p s

  -- The end of `__cmmNeighRegister`: the neighbour must have a usable state.
  unfoldable pub check_resolved : ℕ → Tables → Run (Bool × Tables)
  check_resolved q s = do n ← deref (s.neighs.entries q); done (nud_valid n.state, s)

  -- `route->neighEntry = __cmmNeighGet(...)`, of a route that has none.
  unfoldable pub take_neigh : ℕ → RtEntry → Tables → Run (Bool × Tables)
  take_neigh p r s = do
    (got, ns) ←
        neigh_get k.own k.dump k.neigh_memory r.family (four_words r.gw_addr) r.oifindex s.neighs
    elim got [
      | none ↦ done (false, record s { neighs = ns })
      | some q ↦ check_resolved q (record s {
        neighs = ns;
        routes = set_route p (record r { neigh_entry = some q }) s.routes;
      })
    ]

  unfoldable pub neigh_register : ℕ → Tables → Run (Bool × Tables)
  neigh_register p s = do
    r ← deref (s.routes.entries p)
    elim (itf_is_noarp r.oifindex k.interfaces) [
      | none ↦ done (false, s)
      | some true ↦ done (true, s)
      | some false ↦ elim r.neigh_entry [ none ↦ take_neigh p r s | some q ↦ check_resolved q s ]
    ]

module _ ⦃jhash : Jhash⦄ (k : Answers) where
  -- The flow of a local connection is looked up with the mark of its connection, or, from no address,
  -- with none; `none` is the error.
  unfoldable pub local_flow_from : Option (List ℕ) → Flow → Run (Option Flow)
  local_flow_from none flow = done none
  local_flow_from (some saddr) flow = do
    found ← ct_find_local_from_flow flow k.conntracks
    elim found [
      | none ↦
          if word saddr 0 == 0
          then done (some (record flow { iifindex = 0; fwmark = 0 }))
          else done none
      | some p ↦ do
        e ← deref (k.conntracks.entries p)
        let fwmark = if e.local_conn_orig then e.ct.orig_fp_mark else e.ct.repl_fp_mark
        done (some (record flow { iifindex = 0; fwmark = fwmark }))
    ]

  unfoldable pub local_flow : Flow → Run (Option Flow)
  local_flow flow = local_flow_from flow.saddr flow

  unfoldable pub flow_to_ask : Flow → Run (Option Flow)
  flow_to_ask flow = if flow.flow_flags.local then local_flow flow else done (some flow)

-- The arguments of `__cmmFPPRouteGet`: the key of a route of the fast path. The pointers are to arrays of
-- four words, and `mtu` has 16 bits.
unfoldable pub fpp_args : RtEntry → List ℕ → FppArgs
fpp_args r dst_mac = record {
  oifindex = r.phys_oifindex;
  iifindex = r.iifindex;
  underlying_iifindex = r.underlying_iifindex;
  dst_mac = dst_mac;
  mtu = r.mtu % 2 ^ 16;
  dst_addr = if r.flow_flags.floating_tunnel then four_words r.daddr else [];
  dst_addr_len = if r.flow_flags.floating_tunnel then ip_addr_len r.family else 0;
}

-- The six bytes that a pointer to a MAC address is to.
abbrev pub six_bytes : List ℕ → List ℕ
six_bytes m = word m 0 ∷ word m 1 ∷ word m 2 ∷ word m 3 ∷ word m 4 ∷ word m 5 ∷ []

abbrev pub is_local_route : FlowFlags → Bool
is_local_route f = f.socket_route || f.floating_tunnel || f.local || f.sa_route

module _ ⦃fast_path : FastPath⦄ where
  -- `rt->fpp_route->flags |= IS_LOCAL`
  unfoldable pub mark_local : Bool → ℕ → Tables → Run Tables
  mark_local false p s = done s
  mark_local true p s = do
    f ← deref (s.fpp.routes p)
    let flagged = record f { flags = record (f.flags) { is_local = true } }
    done (record s { fpp = record (s.fpp) { routes = update s.fpp.routes p (some flagged) } })

module _ ⦃fast_path : FastPath⦄ ⦃jhash : Jhash⦄ (k : Answers) where
  unfoldable pub take_fpp_route : ℕ → RtEntry → List ℕ → Tables → Run (Bool × CtRoute × Tables)
  take_fpp_route p r dst_mac s = do
    (got, t) ← fpp_route_get k.fpp_memory (fpp_args r dst_mac) s.fpp
    elim got [
      | none ↦ done (false, record { route = some p; fpp_route = none }, record s { fpp = t })
      | some f ↦ do
        s' ← mark_local (is_local_route r.flow_flags) f (record s { fpp = t })
        done (true, record { route = some p; fpp_route = some f }, s')
    ]

  -- With the MAC address of the route's neighbour.
  unfoldable pub take_to_neigh : ℕ → RtEntry → Option ℕ → Tables → Run (Bool × CtRoute × Tables)
  take_to_neigh p r none s = take_fpp_route p r null_mac s
  take_to_neigh p r (some q) s = do
    n ← deref (s.neighs.entries q)
    take_fpp_route p r (six_bytes n.mac_addr) s

  -- For a `struct ct_route` with the kernel's route at `p`.
  unfoldable pub fpp_route_register : ℕ → Option ℕ → Tables → Run (Bool × CtRoute × Tables)
  fpp_route_register p (some f) s = done (true, record { route = some p; fpp_route = some f }, s)
  fpp_route_register p none s = do r ← deref (s.routes.entries p); take_to_neigh p r r.neigh_entry s

  -- `rt->route`, or the result of `__cmmRouteGet`.
  unfoldable pub take_route : Option ℕ → Flow → Tables → Run (Option ℕ × Tables)
  take_route (some p) flow s = done (some p, s)
  take_route none flow s = do
    asked ← flow_to_ask k flow
    elim asked [
      | none ↦ done (none, s)
      | some f ↦ do
        (got, t) ← route_get k.kernel k.route_memory f s.routes
        done (got, record s { routes = t })
    ]

  -- The interface and the route of the fast path, for the kernel's route at `p`; the holder may have the
  -- route `o` of the fast path.
  unfoldable pub register_itf : ℕ → Option ℕ → Tables → Run (Bool × CtRoute × Tables)
  register_itf p o s = do
    (programmed, s') ← ct_itf_register k p s
    if programmed
        then fpp_route_register p o s'
        else done (false, record { route = some p; fpp_route = o }, s')

  -- The rest, with a route: the neighbour, the interface and the route of the fast path.
  unfoldable pub register_route : ℕ → Option ℕ → Flow → Tables → Run (Bool × CtRoute × Tables)
  register_route p o flow s = do
    r ← deref (s.routes.entries p)
    let flagged = set_route p (record r { flow_flags = flow.flow_flags }) s.routes
    (resolved, s₁) ← neigh_register k p (record s { routes = flagged })
    if not resolved && not flow.flow_flags.ignore_neigh
        then done (false, record { route = some p; fpp_route = o }, s₁)
        else register_itf p o s₁

  -- Whether the result is 0, the `struct ct_route` and the tables.
  unfoldable pub route_register : CtRoute → Flow → Tables → Run (Bool × CtRoute × Tables)
  route_register rt flow s = do
    (got, s₁) ← take_route rt.route flow s
    elim got [ none ↦ done (false, rt, s₁) | some p ↦ register_route p rt.fpp_route flow s₁ ]
