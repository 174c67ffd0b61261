-- ===== src/Tests/Sockets.antt =====
-- A socket of a client is opened, updated and closed.
use cmm.Prelude.{inr, Bool-cases, ℕ, ◌≡◌, ◌≢◌, refl, true, none, some, [], ◌∷◌, arith, ◌==◌, inl}
use cmm.Prelude.Run.{done, Returns}
use cmm.Net.{word, mem_eq, mem_copy}
use cmm.Registering.Covers.{Covers}
use cmm.SocketIds.{SocketIds, new_socket_id}
use cmm.SocketIds.Alloc.{Allocates, new_socket_id-Allocates}
use cmm.Sockets.{
  Socket, SocketOpenCmd, Sockets, hash_sock_addr, addr_home, new_socket, enlist_socket,
}
use cmm.Sockets.Command.{SocketCmd}
use cmm.Sockets.Open.{
  SocketUpdateCmd, source_changes, with_source, updated_socket, socket_update, socket_close,
}
use cmm.Sockets.Sent.{IsSeparate}
use cmm.Sockets.Valid.{IsValid, enlist_socket-IsValid}
use cmm.Sockets.Closed.{ClosesAt, socket_close-ClosesAt}
use cmm.Sockets.Misplaced.{matches, find_socket, socket_update-Misplaces}
use cmm.Sockets.Routed.{blank-Covers}
use cmm.Sockets.Daemon.{close_request, socket_daemon}
use cmm.Sockets.Private.{KeepsPrivate, Served, socket_daemon-KeepsPrivate}
use cmm.Holding.Register.{no_ct_route}
use cmm.Tests.Inputs.{sum_jhash}
use cmm.Tests.Engine.{id_set, holds, faithful}
use cmm.Tests.Holding.{tables}
use cmm.Tests.Registering.{answers, holder, answers-Fits, holder-Covers}

abbrev sock_ids : SocketIds
sock_ids = record { internal_sock_id = 254; internal_sock_ids = λ offset bit. offset == 7 }

new_socket_id-Allocates_example : Allocates sock_ids (new_socket_id sock_ids)
new_socket_id-Allocates_example = new_socket_id-Allocates sock_ids

-- Every command succeeds.
abbrev accepting : SocketCmd → id_set.State → id_set.State × ℕ
accepting cmd fast = (fast, 0)

accepting-IsSeparate : IsSeparate holds accepting
accepting-IsSeparate = record { routes = λ cmd fast j. refl; codes = λ cmd fast. inl (omega arith) }

abbrev open_cmd : SocketOpenCmd
open_cmd = record {
  id = 300;
  sock_type = 0;
  mode = 0;
  family = 2;
  saddr = 20 ∷ [];
  daddr = 10 ∷ [];
  sport = 1000;
  dport = 2000;
  proto = 17;
  queue = 0;
  dscp = 0;
  fwmark = 0;
}

abbrev no_sockets : Sockets
no_sockets = record { entries = λ p. none; table = λ key. []; by_addr = λ key. []; ids = sock_ids }

no_sockets-IsValid : IsValid no_sockets
no_sockets-IsValid = record {
  indexed = record {
    placed = record { placed = λ p k. refl; distinct = λ k. tt };
    unique = λ p q a b h. absurd (cc);
  };
  by_addr = record { placed = λ p k. refl; distinct = λ k. tt };
}

unheld-Covers : Covers holds [] tables
unheld-Covers = record {
  valid = holder-Covers.valid;
  held = record {
    fpp = λ p some_left. absurd (some_left refl);
    route = λ p some_left. absurd (some_left refl);
    neighbored = holder-Covers.held.neighbored;
  };
}

-- A socket with a route.
abbrev sock : Socket
sock = record (new_socket open_cmd) { rt = holder; programmed = true }

abbrev one_socket : Sockets
one_socket = enlist_socket 900 sock no_sockets

one_socket-IsValid : IsValid one_socket
one_socket-IsValid =
    enlist_socket-IsValid 900 sock no_sockets refl (λ q b h. absurd (cc)) no_sockets-IsValid

socket_close-ClosesAt_example :
    Returns
      (socket_close accepting 300 one_socket tables)
      (ClosesAt holds accepting [] faithful accepting-IsSeparate 900 sock one_socket tables)
socket_close-ClosesAt_example =
    socket_close-ClosesAt holds accepting [] faithful accepting-IsSeparate 900 sock one_socket
      tables refl one_socket-IsValid holder-Covers

-- Another source.
abbrev update_cmd : SocketUpdateCmd
update_cmd = record {
  id = 300;
  family = 2;
  saddr = 21 ∷ [];
  sport = 0xffff;
  queue = 0xff;
  dscp = 5;
}

other_bucket : addr_home (updated_socket update_cmd sock) ≢ addr_home sock
unfolding updated_socket source_changes with_source hash_sock_addr mem_copy mem_eq word
other_bucket e = ground (arith, e)

socket_update-Misplaces_example :
    Returns (socket_update accepting answers update_cmd one_socket tables) (λ res.
      (s' : Socket) × (res.0.entries 900 ≡ some s')
      × (matches (updated_socket update_cmd sock) s' ≡ true)
      × (find_socket (updated_socket update_cmd sock) res.0 ≢ done (some 900)))
socket_update-Misplaces_example =
    socket_update-Misplaces holds accepting answers [] faithful accepting-IsSeparate update_cmd 900
      sock one_socket tables refl refl refl one_socket-IsValid answers-Fits holder-Covers
      other_bucket

-- A socket of cmm itself beside it.
abbrev own_sock : Socket
own_sock = record (new_socket open_cmd) { id = 5; sport = 1001 }

abbrev two_sockets : Sockets
two_sockets = enlist_socket 901 own_sock one_socket

two_sockets-IsValid : IsValid two_sockets
two_sockets-IsValid =
    enlist_socket-IsValid 901 own_sock one_socket refl (λ q b h e. ground (arith, h, e))
      one_socket-IsValid

two_sockets-Served :
    Served holds accepting answers [] faithful accepting-IsSeparate two_sockets tables
two_sockets-Served = record {
  valid = two_sockets-IsValid;
  fits = answers-Fits;
  covers = unheld-Covers;
  each = λ p s h. elim (Bool-cases (p == 901)) [
    | inl own ↦
        let same : s.rt ≡ no_ct_route = ground (arith, h) in
        ([], rw same (blank-Covers holds [] tables unheld-Covers))
    | inr other ↦ let same : s.rt ≡ holder = ground (arith, h) in ([], rw same holder-Covers)
  ];
}

socket_daemon-KeepsPrivate_example :
    Returns
      (socket_daemon accepting answers (close_request 300) none two_sockets tables)
      (λ res. KeepsPrivate two_sockets res.0)
socket_daemon-KeepsPrivate_example =
    socket_daemon-KeepsPrivate holds accepting answers [] faithful accepting-IsSeparate
      (close_request 300) none two_sockets tables (λ p e. absurd (cc)) two_sockets-Served
