-- ===== src/Sockets/Open.antt =====
-- src/module_socket.c, lines 653-989: a socket is opened, updated and closed. `unsigned short rc` is the
-- result of the fast path modulo 2^16. A socket is read out of the heap and written back, as the tables of
-- routes do not point to it.
use cmm.Prelude.{
  ℕ, ◌/◌, ◌%◌, ◌^◌, Bool, true, false, not, ◌&&◌, ◌||◌, Option, none, some, List, [], ◌∷◌, ◌==◌,
  update, if◌then◌else◌,
}
use cmm.Prelude.Run.{Run, done, fault, ◌>>=◌, deref}
use cmm.Net.{Jhash, ip_addr_len, mem_eq, mem_copy}
use cmm.RouteEntry.{Flow, no_flow_flags}
use cmm.Fpp.{FppTable}
use cmm.Engine.{FastPath, request_add, request_remove, fe_route_update}
use cmm.Holding.Register.{CtRoute, no_ct_route, Tables, route_deregister}
use cmm.Registering.{Answers, route_register}
use cmm.Sockets.{Socket, SocketOpenCmd, Sockets, socket_find, socket_add, socket_remove}
use cmm.Sockets.Command.{SocketCmd, socket_send_cmd}

abbrev pub cmmd_err_wrong_command_param : ℕ
cmmd_err_wrong_command_param = 3

abbrev pub cmmd_err_not_found : ℕ
cmmd_err_not_found = 32001

-- CMMD_SOCKET_TYPE_LANWAN and CMMD_SOCKET_TYPE_L2TP: the sockets that have a route.
abbrev pub is_routed : ℕ → Bool
is_routed sock_type = sock_type == 0 || sock_type == 3

-- The flow of `__socket_open`, back to the peer.
abbrev pub socket_flow : Socket → Flow
socket_flow s = record {
  family = s.family;
  saddr = some s.daddr;
  daddr = s.saddr;
  fwmark = s.fwmark;
  iifindex = s.iifindex;
  underlying_iif = 0;
  proto = 0;
  flow_flags = record no_flow_flags { socket_route = true };
}

-- `__cmmCheckFPPRouteIdUpdate`, with the route of the fast path and the socket's flags.
unfoldable pub check_fpp_route_id_update : Option ℕ → Socket → FppTable → Run Socket
check_fpp_route_id_update none s t =
    done (if s.fpp_route_id == 0 then s else record s { needs_update = true; fpp_route_id = 0 })
check_fpp_route_id_update (some p) s t = do
  r ← deref (t.routes p)
  done (if s.fpp_route_id == r.id then s else record s { needs_update = true; fpp_route_id = r.id })

-- The arguments of `cmmFeRouteUpdate`, whose result is not looked at.
module _ ⦃fast_path : FastPath⦄ where
  unfoldable pub tell_fast_path : Option ℕ → Tables → Run Tables
  tell_fast_path none ts = fault
  tell_fast_path (some p) ts = do
    (t, fast, ok) ← fe_route_update request_add p ts.fpp ts.fast
    done (record ts { fpp = t; fast = fast })

  -- The old routes of a socket are let go of, if its source has changed.
  unfoldable pub drop_route : Bool → CtRoute → Tables → Run Tables
  drop_route false rt ts = done ts
  drop_route true rt ts = do (rt', ts') ← route_deregister rt ts; done ts'

  -- After the command of `__socket_close`.
  unfoldable pub let_go_socket : Socket → Tables → Run (Socket × Tables × ℕ × Bool)
  let_go_socket s ts = do
    (rt, ts') ← route_deregister s.rt ts
    done (record s { rt = rt }, ts', 0, not s.programmed)

abbrev pub set_socket : ℕ → Socket → Sockets → Sockets
set_socket p s t = record t { entries = update t.entries p (some s) }

module _ ⦃fast_path : FastPath⦄
    (socket_write : SocketCmd → fast_path.State → fast_path.State × ℕ) where
  -- `__socket_close` before `socket_remove`: the socket, the tables, the result and whether the socket is
  -- to be removed.
  unfoldable pub close_socket : Socket → Tables → Run (Socket × Tables × ℕ × Bool)
  close_socket s ts =
      let (s₁, fast, rc) = socket_send_cmd socket_write request_remove s ts.fast in
      let ts₁ = record ts { fast = fast } in
      if rc == 0 then let_go_socket s₁ ts₁ else done (s₁, ts₁, rc, false)

  -- `__socket_close` of the socket at an address.
  unfoldable pub close_at : ℕ → Sockets → Tables → Run (Sockets × Tables × ℕ)
  close_at p t ts = do
    s ← deref (t.entries p)
    (s', ts', rc, removed) ← close_socket s ts
    t' ← if removed then socket_remove p (set_socket p s' t) else done (set_socket p s' t)
    done (t', ts', rc)

  -- The socket is closed again; the result is that of the opening.
  unfoldable pub give_up : ℕ → ℕ → Sockets → Tables → Run (Sockets × Tables × ℕ)
  give_up p ret t ts = do (t', ts', rc) ← close_at p t ts; done (t', ts', ret)

  unfoldable pub socket_close : ℕ → Sockets → Tables → Run (Sockets × Tables × ℕ)
  socket_close id t ts = do
    found ← socket_find id t
    elim found [ none ↦ done (t, ts, cmmd_err_not_found) | some p ↦ close_at p t ts ]

module _ ⦃fast_path : FastPath⦄ ⦃jhash : Jhash⦄ (k : Answers) where
  -- The first part of `__socket_open`: the routes of a socket that has them.
  unfoldable pub open_route : Socket → Tables → Run (Socket × Tables)
  open_route s ts = do
    (registered, rt, ts₁) ← route_register k s.rt (socket_flow s) ts
    ts₂ ← if registered then tell_fast_path rt.fpp_route ts₁ else done ts₁
    done (record s { rt = rt }, ts₂)

module _ ⦃fast_path : FastPath⦄ ⦃jhash : Jhash⦄
    (socket_write : SocketCmd → fast_path.State → fast_path.State × ℕ) (k : Answers) where
  -- `__socket_open`: the socket, the tables and the result.
  unfoldable pub open_socket : Socket → Tables → Run (Socket × Tables × ℕ)
  open_socket s ts = do
    (s₁, ts₁) ← if is_routed s.sock_type then open_route k s ts else done (s, ts)
    s₂ ← check_fpp_route_id_update s₁.rt.fpp_route s₁ ts₁.fpp
    let (s₃, fast, rc) = socket_send_cmd socket_write request_add s₂ ts₁.fast
    done (s₃, record ts₁ { fast = fast }, rc)

  -- `__socket_open` of the socket at an address, which is closed again where the result is not 0.
  unfoldable pub open_at : ℕ → Sockets → Tables → Run (Sockets × Tables × ℕ)
  open_at p t ts = do
    s ← deref (t.entries p)
    (s', ts', ret) ← open_socket s ts
    let t' = set_socket p s' t
    if ret % 2 ^ 16 == 0 then done (t', ts', 0) else give_up socket_write p (ret % 2 ^ 16) t' ts'

  -- `socket_open`; the second argument is the address that `malloc` returns.
  unfoldable pub socket_open :
      SocketOpenCmd → Option ℕ → Sockets → Tables → Run (Sockets × Tables × ℕ)
  socket_open cmd memory t ts = do
    found ← socket_find cmd.id t
    elim found [
      | some p ↦ done (t, ts, 0)
      | none ↦
          let (got, t') = socket_add memory cmd t in
          elim got [ none ↦ done (t', ts, 0xffff) | some p ↦ open_at p t' ts ]
    ]

-- `cmmd_socket_update_cmd_t`
pub record SocketUpdateCmd : Type 0 where
  pub id : ℕ
  pub family : ℕ
  pub saddr : List ℕ
  pub sport : ℕ
  pub queue : ℕ
  pub dscp : ℕ

abbrev pub null_addr : List ℕ
null_addr = 0xffffffff ∷ 0xffffffff ∷ 0xffffffff ∷ 0xffffffff ∷ []

-- Whether a command gives a socket another source.
unfoldable pub source_changes : SocketUpdateCmd → Socket → Bool
source_changes cmd s =
    not (mem_eq (ip_addr_len s.family / 4) cmd.saddr null_addr)
    && not (mem_eq (ip_addr_len s.family / 4) cmd.saddr s.saddr)

-- The writes of `socket_update`.
unfoldable pub with_source : Bool → SocketUpdateCmd → Socket → Socket
with_source false cmd s = s
with_source true cmd s = record s {
  saddr = mem_copy (ip_addr_len s.family / 4) cmd.saddr s.saddr;
  rt = no_ct_route;
}

unfoldable pub updated_socket : SocketUpdateCmd → Socket → Socket
updated_socket cmd s = record (with_source (source_changes cmd s) cmd s) {
  sport = if cmd.sport == 0xffff then s.sport else cmd.sport;
  queue = if cmd.queue == 0xff then s.queue else cmd.queue;
  dscp = if cmd.dscp == 0xffff then s.dscp else cmd.dscp;
  needs_update = true;
}

module _ ⦃fast_path : FastPath⦄ ⦃jhash : Jhash⦄
    (socket_write : SocketCmd → fast_path.State → fast_path.State × ℕ) (k : Answers) where
  -- The end of `socket_update`: the socket `a` is opened, and the old routes are let go of if they are not
  -- its routes any more.
  unfoldable pub reopen : Bool → CtRoute → Socket → Tables → Run (Socket × Tables × ℕ)
  reopen changed old a ts = do
    (a', ts', rc) ← open_socket socket_write k a ts
    ts'' ← drop_route changed old ts'
    done (a', ts'', rc % 2 ^ 16)

  -- `socket_update` of the socket at an address.
  unfoldable pub change_at : SocketUpdateCmd → ℕ → Sockets → Tables → Run (Sockets × Tables × ℕ)
  change_at cmd p t ts = do
    s ← deref (t.entries p)
    (s', ts', rc) ← reopen (source_changes cmd s) s.rt (updated_socket cmd s) ts
    done (set_socket p s' t, ts', rc)

  unfoldable pub family_checked :
      SocketUpdateCmd → ℕ → Sockets → Tables → Run (Sockets × Tables × ℕ)
  family_checked cmd p t ts = do
    s ← deref (t.entries p)
    if s.family == cmd.family
        then change_at cmd p t ts
        else done (t, ts, cmmd_err_wrong_command_param)

  unfoldable pub socket_update : SocketUpdateCmd → Sockets → Tables → Run (Sockets × Tables × ℕ)
  socket_update cmd t ts = do
    found ← socket_find cmd.id t
    elim found [ none ↦ done (t, ts, cmmd_err_not_found) | some p ↦ family_checked cmd p t ts ]
