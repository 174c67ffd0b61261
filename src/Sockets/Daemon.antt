-- ===== src/Sockets/Daemon.antt =====
-- src/module_socket.c, lines 988-1076, `socket_daemon`: the commands of a client that change the sockets.
-- The result is `res_buf[0]`, the answer to the client; a negative result of `socket_close` leaves there
-- what was written first.
use cmm.Prelude.{ℕ, ◌%◌, ◌^◌, Option, ltb, if◌then◌else◌}
use cmm.Prelude.Run.{Run, done, ◌>>=◌}
use cmm.Net.{Jhash}
use cmm.Engine.{FastPath}
use cmm.Holding.Register.{Tables}
use cmm.Registering.{Answers}
use cmm.Sockets.{Sockets, SocketOpenCmd, is_private}
use cmm.Sockets.Command.{SocketCmd}
use cmm.Sockets.Open.{SocketUpdateCmd, socket_open, socket_update, socket_close}

abbrev pub cmmd_err_wrong_command_size : ℕ
cmmd_err_wrong_command_size = 2

abbrev pub cmmd_err_wrong_sockid : ℕ
cmmd_err_wrong_sockid = 1209

-- What a client sends: a command that is too short, or the command of one of three codes.
pub data SocketRequest : Type 0 where
  too_small : SocketRequest
  open_request : SocketOpenCmd → SocketRequest
  update_request : SocketUpdateCmd → SocketRequest
  close_request : ℕ → SocketRequest

abbrev pub close_answer : ℕ → ℕ
close_answer rc = if ltb rc (2 ^ 31) then rc % 2 ^ 16 else cmmd_err_wrong_command_size

module _ ⦃fast_path : FastPath⦄
    (socket_write : SocketCmd → fast_path.State → fast_path.State × ℕ) where
  unfoldable pub answer_close : ℕ → Sockets → Tables → Run (Sockets × Tables × ℕ)
  answer_close id t ts = do
    (t', ts', rc) ← socket_close socket_write id t ts
    done (t', ts', close_answer rc)

module _ ⦃fast_path : FastPath⦄ ⦃jhash : Jhash⦄
    (socket_write : SocketCmd → fast_path.State → fast_path.State × ℕ) (k : Answers) where
  unfoldable pub socket_daemon :
      SocketRequest → Option ℕ → Sockets → Tables → Run (Sockets × Tables × ℕ)
  socket_daemon too_small memory t ts = done (t, ts, cmmd_err_wrong_command_size)
  socket_daemon (open_request cmd) memory t ts =
      if is_private cmd.id
      then done (t, ts, cmmd_err_wrong_sockid)
      else socket_open socket_write k cmd memory t ts
  socket_daemon (update_request cmd) memory t ts =
      if is_private cmd.id
      then done (t, ts, cmmd_err_wrong_sockid)
      else socket_update socket_write k cmd t ts
  socket_daemon (close_request id) memory t ts =
      if is_private id
      then done (t, ts, cmmd_err_wrong_sockid)
      else answer_close socket_write id t ts
