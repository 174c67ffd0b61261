-- ===== src/Sockets.antt =====
-- src/module_socket.h and src/module_socket.c, lines 15-240: the sockets that clients open on the fast
-- path, in a table by identifier and one by addresses, with the bitmap of the identifiers that cmm keeps
-- for itself.

pub mod Command
pub mod Open
pub mod Valid
pub mod Sent
pub mod Told
pub mod Routed
pub mod Opened
pub mod Closing
pub mod Closed
pub mod Managed
pub mod Reopened
pub mod Updated
pub mod Misplaced
pub mod Daemon
pub mod Private
use cmm.Prelude.{
  ℕ, ◌+◌, ◌*◌, ◌/◌, ◌%◌, ◌^◌, Bool, false, ◌&&◌, Option, none, some, List, [], ◌∷◌, ◌==◌, leb,
  update, if◌then◌else◌,
}
use cmm.Prelude.Run.{Run, done, ◌>>=◌, deref}
use cmm.Net.{Jhash, af_inet, ip_addr_len, word, four_words, mem_eq, mem_copy, no_addr}
use cmm.Table.{scan, link, unlink}
use cmm.Holding.Register.{CtRoute, no_ct_route}
use cmm.SocketIds.{SocketIds, sock_id_private_start, sock_id_private_end, del_socket_id}

-- `struct socket`; `fpp_route_id` is of its `struct ct_route`, and of the flags there are FPP_PROGRAMMED
-- and FPP_NEEDS_UPDATE. The addresses are arrays of four words.
pub record Socket : Type 0 where
  pub family : ℕ
  pub id : ℕ
  pub sock_type : ℕ
  pub mode : ℕ
  pub saddr : List ℕ
  pub daddr : List ℕ
  pub sport : ℕ
  pub dport : ℕ
  pub proto : ℕ
  pub queue : ℕ
  pub dscp : ℕ
  pub rt : CtRoute
  pub fpp_route_id : ℕ
  pub iifindex : ℕ
  pub programmed : Bool
  pub needs_update : Bool
  pub fwmark : ℕ

-- `cmmd_socket_open_cmd_t`
pub record SocketOpenCmd : Type 0 where
  pub id : ℕ
  pub sock_type : ℕ
  pub mode : ℕ
  pub family : ℕ
  pub saddr : List ℕ
  pub daddr : List ℕ
  pub sport : ℕ
  pub dport : ℕ
  pub proto : ℕ
  pub queue : ℕ
  pub dscp : ℕ
  pub fwmark : ℕ

-- The heap of sockets, their two tables and the identifiers.
pub record Sockets : Type 0 where
  pub entries : ℕ → Option Socket
  pub table : ℕ → List ℕ
  pub by_addr : ℕ → List ℕ
  pub ids : SocketIds

abbrev pub hash_socket_size : ℕ
hash_socket_size = 32

-- HASH_SOCKET; the mask of the low five bits is a remainder.
abbrev pub hash_socket : ℕ → ℕ
hash_socket id = id % hash_socket_size

abbrev pub id_home : Socket → ℕ
id_home s = hash_socket s.id

-- The test of `socket_find_by_addr`.
unfoldable pub sock_addr_match : ℕ → List ℕ → List ℕ → ℕ → ℕ → ℕ → Socket → Bool
sock_addr_match family saddr daddr sport dport proto s =
    family == s.family
    && proto == s.proto
    && sport == s.sport
    && dport == s.dport
    && mem_eq (ip_addr_len family / 4) saddr s.saddr
    && mem_eq (ip_addr_len family / 4) daddr s.daddr

unfoldable pub socket_find : ℕ → Sockets → Run (Option ℕ)
socket_find id t = scan (λ s. s.id == id) t.entries (t.table (hash_socket id))

-- The socket of a command, after `memset` and the writes of `socket_add`; the family has 8 bits.
abbrev pub new_socket : SocketOpenCmd → Socket
new_socket cmd = record {
  family = cmd.family % 2 ^ 8;
  id = cmd.id;
  sock_type = cmd.sock_type;
  mode = cmd.mode;
  saddr = mem_copy (ip_addr_len (cmd.family % 2 ^ 8) / 4) cmd.saddr no_addr;
  daddr = mem_copy (ip_addr_len (cmd.family % 2 ^ 8) / 4) cmd.daddr no_addr;
  sport = cmd.sport;
  dport = cmd.dport;
  proto = cmd.proto;
  queue = cmd.queue;
  dscp = cmd.dscp;
  rt = no_ct_route;
  fpp_route_id = 0;
  iifindex = 0;
  programmed = false;
  needs_update = false;
  fwmark = cmd.fwmark;
}

module _ ⦃jhash : Jhash⦄ where
  -- A shift by 16 and an `or` with a 16-bit value is a sum.
  unfoldable pub hash_sock_addr : ℕ → List ℕ → List ℕ → ℕ → ℕ → ℕ → ℕ
  hash_sock_addr family saddr daddr sport dport proto =
      if family == af_inet
      then jhash.jhash_2words (jhash.jhash (word saddr 0 ∷ []) (proto * 2 ^ 16 + proto))
          (jhash.jhash (word daddr 0 ∷ []) (sport * 2 ^ 16 + dport)) 0x48375934
        % hash_socket_size
      else jhash.jhash_2words (jhash.jhash (four_words saddr) (proto * 2 ^ 16 + proto))
          (jhash.jhash (four_words daddr) (sport * 2 ^ 16 + dport)) 0x48375934
        % hash_socket_size

  abbrev pub addr_home : Socket → ℕ
  addr_home s = hash_sock_addr s.family s.saddr s.daddr s.sport s.dport s.proto

  unfoldable pub socket_find_by_addr : ℕ → List ℕ → List ℕ → ℕ → ℕ → ℕ → Sockets → Run (Option ℕ)
  socket_find_by_addr family saddr daddr sport dport proto t =
      scan (sock_addr_match family saddr daddr sport dport proto) t.entries
        (t.by_addr (hash_sock_addr family saddr daddr sport dport proto))

  -- `__socket_add` of the socket `s`, which is at the address `p`.
  abbrev pub enlist_socket : ℕ → Socket → Sockets → Sockets
  enlist_socket p s t = record t {
    entries = update t.entries p (some s);
    table = link (id_home s) p t.table;
    by_addr = link (addr_home s) p t.by_addr;
  }

  -- The first argument is the address that `malloc` returns.
  unfoldable pub socket_add : Option ℕ → SocketOpenCmd → Sockets → Option ℕ × Sockets
  socket_add memory cmd t = elim memory [
    | none ↦ (none, t)
    | some p ↦ (some p, enlist_socket p (new_socket cmd) t)
  ]

abbrev pub is_private : ℕ → Bool
is_private id = leb sock_id_private_start id && leb id sock_id_private_end

-- The tables without the socket `s`, which is at the address `p`.
abbrev pub delist_socket : ℕ → Socket → Sockets → Sockets
delist_socket p s t = record {
  entries = update t.entries p none;
  table = unlink p t.table;
  by_addr = unlink p t.by_addr;
  ids = if is_private s.id then del_socket_id s.id t.ids else t.ids;
}

unfoldable pub socket_remove : ℕ → Sockets → Run Sockets
socket_remove p t = do s ← deref (t.entries p); done (delist_socket p s t)
