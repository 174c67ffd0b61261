-- ===== src/Sockets/Command.antt =====
-- src/module_socket.c, lines 246-651: how cmm tells the fast path of a socket. The commands for IPv4 and
-- for IPv6 are one record, whose addresses have one word or four. The fast path is a parameter.
use cmm.Prelude.{ℕ, true, false, not, ◌&&◌, Option, none, some, List, [], ◌∷◌, ◌==◌, if◌then◌else◌}
use cmm.Net.{af_inet, af_inet6, word, four_words}
use cmm.Engine.{
  Action, action_register, action_update, action_deregister, Request, request_add, request_update,
  request_remove, FastPath, fpp_err_ok,
}
use cmm.Sockets.{Socket}

abbrev pub cmmd_err_unknown : ℕ
cmmd_err_unknown = 32000

pub record SocketCmd : Type 0 where
  pub action : Action
  pub family : ℕ
  pub id : ℕ
  pub sock_type : ℕ
  pub mode : ℕ
  pub saddr : List ℕ
  pub daddr : List ℕ
  pub sport : ℕ
  pub dport : ℕ
  pub proto : ℕ
  pub queue : ℕ
  pub dscp : ℕ
  pub route_id : ℕ

-- The words of an address that a command has.
abbrev pub cmd_addr : ℕ → List ℕ → List ℕ
cmd_addr family addr = if family == af_inet then word addr 0 ∷ [] else four_words addr

-- A command after `memset`, with the identifier.
abbrev pub blank_cmd : Action → Socket → SocketCmd
blank_cmd action s = record {
  action = action;
  family = s.family;
  id = s.id;
  sock_type = 0;
  mode = 0;
  saddr = cmd_addr s.family [];
  daddr = cmd_addr s.family [];
  sport = 0;
  dport = 0;
  proto = 0;
  queue = 0;
  dscp = 0;
  route_id = 0;
}

unfoldable pub socket_command : Action → Socket → SocketCmd
socket_command action_register s = record {
  action = action_register;
  family = s.family;
  id = s.id;
  sock_type = s.sock_type;
  mode = s.mode;
  saddr = cmd_addr s.family s.saddr;
  daddr = cmd_addr s.family s.daddr;
  sport = s.sport;
  dport = s.dport;
  proto = s.proto;
  queue = s.queue;
  dscp = s.dscp;
  route_id = s.fpp_route_id;
}
socket_command action_update s = record (blank_cmd action_update s) {
  saddr = cmd_addr s.family s.saddr;
  sport = s.sport;
  queue = s.queue;
  dscp = s.dscp;
  route_id = s.fpp_route_id;
}
socket_command action_deregister s = blank_cmd action_deregister s

-- The flags after the return code of a command.
unfoldable pub socket_answered : Action → ℕ → Socket → Socket
socket_answered action_register ret s =
    if ret == fpp_err_ok then record s { programmed = true; needs_update = false } else s
socket_answered action_update ret s =
    if ret == fpp_err_ok then record s { needs_update = false } else s
socket_answered action_deregister ret s =
    if ret == fpp_err_ok then record s { programmed = false } else s

-- The action of a request, if one is needed.
unfoldable pub socket_action : Request → Socket → Option Action
socket_action request_add s =
    if s.programmed && not s.needs_update
    then none
    else if s.programmed && s.needs_update
    then some action_update
    else some action_register
socket_action request_update s =
    if not (s.programmed && s.needs_update) then none else some action_update
socket_action request_remove s = if not s.programmed then none else some action_deregister

module _ ⦃fast_path : FastPath⦄
    (socket_write : SocketCmd → fast_path.State → fast_path.State × ℕ) where
  -- `socket4_send_cmd` and `socket6_send_cmd`: the socket, the fast path and the result.
  unfoldable pub socket_send : Action → Socket → fast_path.State → Socket × fast_path.State × ℕ
  socket_send action s fast =
      let (fast', ret) = socket_write (socket_command action s) fast in
      (socket_answered action ret s, fast', ret)

  unfoldable pub socket_send_cmd : Request → Socket → fast_path.State → Socket × fast_path.State × ℕ
  socket_send_cmd request s fast = elim (socket_action request s) [
    | none ↦ (s, fast, 0)
    | some action ↦
        if s.family == af_inet
        then socket_send action s fast
        else if s.family == af_inet6
        then socket_send action s fast
        else (s, fast, cmmd_err_unknown)
  ]
