-- ===== src/SocketIds.antt =====
-- src/module_socket.c, lines 22-59, and src/module_socket.h: the identifiers of the sockets that cmm opens
-- itself, kept in a bitmap.
pub mod Alloc
use cmm.Prelude.{
  ℕ, zero, suc, ◌+◌, ◌-◌, ◌/◌, ◌%◌, Bool, true, false, ◌&&◌, leb, ◌==◌, if◌then◌else◌,
}

abbrev pub sock_id_private_start : ℕ
sock_id_private_start = 1

abbrev pub sock_id_private_end : ℕ
sock_id_private_end = 255

abbrev pub num_internal_socket_id : ℕ
num_internal_socket_id = sock_id_private_end - sock_id_private_start + 1

-- A 32-bit word of the bitmap is the function from a bit's position to the bit.
pub record SocketIds : Type 0 where
  pub internal_sock_id : ℕ
  pub internal_sock_ids : ℕ → ℕ → Bool

-- `internal_sock_ids[offset] & mask`, with the offset and the mask of an identifier.
unfoldable pub test_sock_id : ℕ → SocketIds → Bool
test_sock_id i t = t.internal_sock_ids (i / 32) (i % 32)

unfoldable pub write_sock_id : ℕ → Bool → SocketIds → SocketIds
write_sock_id i v t = record t {
  internal_sock_ids = λ o b. if o == i / 32 && b == i % 32 then v else t.internal_sock_ids o b;
}

-- Where the search stands at the start of a round.
abbrev pub wrapped : ℕ → ℕ
wrapped i = if leb num_internal_socket_id i then 0 else i

-- The rounds of the loop that are left.
unfoldable pub search : ℕ → SocketIds → ℕ × SocketIds
search zero t = (0, t)
search (suc rounds) t =
    let i = wrapped t.internal_sock_id in
    let rest = search rounds (record t { internal_sock_id = i + 1 }) in
    if test_sock_id i t
    then rest
    else (i + sock_id_private_start, write_sock_id i true (record t { internal_sock_id = i }))

-- The identifier, or 0 where none is left.
unfoldable pub new_socket_id : SocketIds → ℕ × SocketIds
new_socket_id t = search num_internal_socket_id t

unfoldable pub del_socket_id : ℕ → SocketIds → SocketIds
del_socket_id id t = write_sock_id (id - sock_id_private_start) false t
