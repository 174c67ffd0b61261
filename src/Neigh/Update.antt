-- ===== src/Neigh/Update.antt =====
-- src/neighbor_resolution.c, lines 752-990: what a message of the kernel changes.
use cmm.Prelude.{
  ℕ, Bool, true, false, not, ◌&&◌, Option, none, some, List, [], length, leb, ltb, if◌then◌else◌,
  erase,
}
use Prim.Native.Nat.{min}
use cmm.Prelude.Run.{Run, done, ◌>>=◌, deref}
use cmm.Net.{Jhash, mem_eq, mem_copy, hash_mac}
use cmm.Table.{unlink}
use cmm.Neigh.{
  NudState, nud_valid, Neighs, null_mac, store, add_by_mac, add_by_state, neigh_find, neigh_remove,
}

pub data MessageType : Type 0 where
  newneigh delneigh : MessageType

-- A neighbour message of the kernel: the fields of `struct ndmsg` and the attributes NDA_DST and
-- NDA_LLADDR that the code reads.
pub record NeighMessage : Type 0 where
  pub message_type : MessageType
  pub family : ℕ
  pub ifindex : ℕ
  pub state : NudState
  pub dst : Option (List ℕ)
  pub lladdr : Option (List ℕ)

-- What `cmmNeighborUpdate` ends with: the routes that use the neighbour are updated, or not.
pub data Notice : Type 0 where
  quiet : Notice
  resolved : ℕ → Notice
  unresolved : ℕ → Notice

abbrev pub is_del : MessageType → Bool
is_del newneigh = false
is_del delneigh = true

-- `macAddr`, whose length `macAddrLen` is 0 where the attribute is missing.
abbrev pub mac_of : Option (List ℕ) → List ℕ
mac_of none = []
mac_of (some mac) = mac

module _ ⦃jhash : Jhash⦄ where
  -- `__cmmNeighborResolved` and `__cmmNeighborUnresolved` up to their loops over the routes.
  unfoldable pub neighbor_resolved : ℕ → Neighs → Run (Neighs × Notice)
  neighbor_resolved p t = do
    n ← deref (t.entries p)
    t' ← add_by_mac (hash_mac n.mac_addr) p (store p (record n { port = none }) t)
    done (t', resolved p)

unfoldable pub neighbor_unresolved : ℕ → Neighs → Run (Neighs × Notice)
neighbor_unresolved p t = do
  n ← deref (t.entries p)
  let t' = record t { by_mac = unlink p t.by_mac }
  done (store p (record n { port = none }) t', unresolved p)

-- The entry leaves the list of solicitations when it is reachable.
unfoldable pub stop_solicit : ℕ → NudState → Neighs → Run Neighs
stop_solicit p s t = do
  n ← deref (t.entries p)
  if s.reachable && n.needs_solicit
      then (let t' = record t { by_state = erase p t.by_state } in
          done (store p (record n { needs_solicit = false; nr_probes = 0 }) t'))
      else done t

-- A stale entry that is in use goes on it.
unfoldable pub start_solicit : ℕ → NudState → Neighs → Run Neighs
start_solicit p s t = do
  n ← deref (t.entries p)
  if s.stale && (not n.needs_solicit && ltb 0 n.count)
      then add_by_state p (store p (record n { needs_solicit = true }) t)
      else done t

module _ ⦃jhash : Jhash⦄ where
  -- What follows the removal of an unused entry in `cmmNeighborUpdate`.
  unfoldable pub update_mac : ℕ → NudState → NeighMessage → Neighs → Run (Neighs × Notice)
  update_mac p old m t = do
    n ← deref (t.entries p)
    let mac = mac_of m.lladdr
    let len = min (length mac) 6
    let copied = store p (record n { mac_addr = mem_copy len mac n.mac_addr }) t
    let cleared = store p (record n { mac_addr = null_mac }) t
    let moved = record copied { by_mac = unlink p t.by_mac }
    if nud_valid m.state
        then (if not (nud_valid old)
            then neighbor_resolved p copied
            else if mem_eq len n.mac_addr mac
            then done (t, quiet)
            else neighbor_resolved p moved)
        else (if nud_valid old then neighbor_unresolved p cleared else done (cleared, quiet))

  -- `cmmNeighborUpdate` for an entry that was found.
  unfoldable pub update_found : ℕ → NeighMessage → Neighs → Run (Neighs × Notice)
  update_found p m t = do
    n ← deref (t.entries p)
    t₁ ← stop_solicit p m.state (store p (record n { state = m.state }) t)
    t₂ ← start_solicit p m.state t₁
    n₂ ← deref (t₂.entries p)
    if is_del m.message_type && leb n₂.count 0
        then neigh_remove p t₂ >>= (λ t₃. done (t₃, quiet))
        else update_mac p n.state m t₂

  update_at : List ℕ → NeighMessage → Neighs → Run (Neighs × Notice)
  update_at dst m t = do
    found ← neigh_find m.family dst m.ifindex t
    elim found [ none ↦ done (t, quiet) | some p ↦ update_found p m t ]

  unfoldable pub neighbor_update : NeighMessage → Neighs → Run (Neighs × Notice)
  unfolding update_at
  neighbor_update m t = elim m.dst [
    | none ↦ done (t, quiet)
    | some dst ↦ if m.state.noarp then done (t, quiet) else update_at dst m t
  ]
