-- ===== src/Sockets/Told.antt =====
-- src/module_socket.c, lines 246-651: what a command that was answered with 0 said of the socket.
use cmm.Prelude.{ℕ, ◌≡◌, refl}
use cmm.Engine.{Action, action_register, action_update, action_deregister, FastPath}
use cmm.Sockets.{Socket}
use cmm.Sockets.Command.{SocketCmd, cmd_addr, socket_command}

-- A command that registers or updates the socket has its values; only the registering one has those that
-- do not change.
pub record Describes (a : Action) (s : Socket) (c : SocketCmd) : Type 0 where
  pub action : c.action ≡ a
  pub family : c.family ≡ s.family
  pub id : c.id ≡ s.id
  pub saddr : c.saddr ≡ cmd_addr s.family s.saddr
  pub sport : c.sport ≡ s.sport
  pub queue : c.queue ≡ s.queue
  pub dscp : c.dscp ≡ s.dscp
  pub route_id : c.route_id ≡ s.fpp_route_id
  pub fixed :
      a ≡ action_register
      → (c.sock_type ≡ s.sock_type)
        × (c.mode ≡ s.mode)
        × (c.daddr ≡ cmd_addr s.family s.daddr)
        × (c.dport ≡ s.dport)
        × (c.proto ≡ s.proto)

pub register-Describes :
    (s : Socket) → Describes action_register s (socket_command action_register s)
unfolding socket_command
register-Describes s = record {
  action = refl;
  family = refl;
  id = refl;
  saddr = refl;
  sport = refl;
  queue = refl;
  dscp = refl;
  route_id = refl;
  fixed = λ e. (refl, refl, refl, refl, refl);
}

pub update-Describes : (s : Socket) → Describes action_update s (socket_command action_update s)
unfolding socket_command
update-Describes s = record {
  action = refl;
  family = refl;
  id = refl;
  saddr = refl;
  sport = refl;
  queue = refl;
  dscp = refl;
  route_id = refl;
  fixed = λ e. absurd (cc);
}

module _ ⦃fast_path : FastPath⦄
    (socket_write : SocketCmd → fast_path.State → fast_path.State × ℕ) where
  -- The fast path is as a command with the values of the socket left it, which it answered with 0.
  pub record Told (a : Action) (s : Socket) (fast : fast_path.State) : Type 0 where
    pub cmd : SocketCmd
    pub before : fast_path.State
    pub describes : Describes a s cmd
    pub accepted : socket_write cmd before ≡ (fast, 0)

  -- The fast path is as a command that ends the socket left it, which it answered with 0.
  pub record Ended (s : Socket) (before fast : fast_path.State) : Type 0 where
    pub cmd : SocketCmd
    pub action : cmd.action ≡ action_deregister
    pub family : cmd.family ≡ s.family
    pub id : cmd.id ≡ s.id
    pub accepted : socket_write cmd before ≡ (fast, 0)

  pub deregister-Ended :
      (s : Socket) (before fast : fast_path.State)
      → socket_write (socket_command action_deregister s) before ≡ (fast, 0)
      → Ended s before fast
  unfolding socket_command
  deregister-Ended s before fast e = record {
    cmd = socket_command action_deregister s;
    action = refl;
    family = refl;
    id = refl;
    accepted = e;
  }
