-- ===== src/Neigh/Dump.antt =====
-- src/neighbor_resolution.c, `cmmNeighborNetlinkLookupAllFilter`: an entry that cmm makes of a message
-- of the kernel's dump. Whether an address is the interface's own, `itf_match_src_ipaddr`, is an
-- argument.
use cmm.Prelude.{ℕ, Bool, not, ◌||◌, Option, none, some, List, [], ◌∷◌, ◌==◌, if◌then◌else◌}
use cmm.Prelude.Run.{Run, done, fault, ◌>>=◌, deref}
use cmm.Net.{Jhash, hash_mac}
use cmm.Neigh.{NeighborEntry, Neighs, nud_valid, null_mac, store, add_by_mac, neigh_find, neigh_add}
use cmm.Neigh.Update.{NeighMessage, is_del}

-- `memcpy` of the whole first array into the second one, which has no room beyond its end.
unfoldable pub mem_write : List ℕ → List ℕ → Run (List ℕ)
mem_write [] ys = done ys
mem_write (x ∷ xs) [] = fault
mem_write (x ∷ xs) (y ∷ ys) = do rest ← mem_write xs ys; done (x ∷ rest)

unfoldable pub write_mac : Option (List ℕ) → List ℕ → Run (List ℕ)
write_mac none old = done null_mac
write_mac (some mac) old = mem_write mac old

module _ ⦃jhash : Jhash⦄ where
  unfoldable pub settle_usable : NeighMessage → ℕ → NeighborEntry → Neighs → Run Neighs
  settle_usable m p n t = do
    mac ← write_mac m.lladdr n.mac_addr
    add_by_mac (hash_mac mac) p (store p (record n { state = m.state; mac_addr = mac }) t)

  -- What is written to the entry that was added, if there was memory for it.
  unfoldable pub settle : NeighMessage → Option ℕ × Neighs → Run Neighs
  settle m (none, t) = done t
  settle m (some p, t) = do
    n ← deref (t.entries p)
    let unusable = store p (record n { state = m.state; mac_addr = null_mac }) t
    if nud_valid m.state then settle_usable m p n t else done unusable

  unfoldable pub add_found :
      (ℕ → ℕ → List ℕ → Bool) → ℕ → Option ℕ → NeighMessage → List ℕ → Neighs → Run Neighs
  unfolding settle
  add_found own ifindex memory m dst t = do
    found ← neigh_find m.family dst ifindex t
    elim found [
      | some q ↦ done t
      | none ↦
          if own ifindex m.family dst
          then done t
          else settle m (neigh_add memory m.family dst ifindex t)
    ]

  -- The third argument is the address that `malloc` returns.
  unfoldable pub lookup_all_filter :
      (ℕ → ℕ → List ℕ → Bool) → ℕ → Option ℕ → NeighMessage → Neighs → Run Neighs
  unfolding add_found
  lookup_all_filter own ifindex memory m t =
      if is_del m.message_type || (m.state.noarp || not (m.ifindex == ifindex))
      then done t
      else elim m.dst [ none ↦ done t | some dst ↦ add_found own ifindex memory m dst t ]
