-- ===== src/Neigh/Ports.antt =====
-- src/neighbor_resolution.c, `__cmmNeighUpdateAllMacs`: the bridge port behind a MAC address.
use cmm.Prelude.{ℕ, Bool, ◌&&◌, Option, List, [], ◌∷◌, ◌==◌, if◌then◌else◌}
use cmm.Prelude.Run.{Run, done, ◌>>=◌, deref}
use cmm.Net.{Jhash, mem_eq, hash_mac}
use cmm.Neigh.{NeighborEntry, Neighs, store}

-- The test in the loop.
unfoldable pub has_mac : ℕ → List ℕ → NeighborEntry → Bool
has_mac ifindex mac n = n.ifindex == ifindex && mem_eq 6 n.mac_addr mac

-- A round of the loop.
unfoldable pub set_port : ℕ → List ℕ → Option ℕ → ℕ → Neighs → Run Neighs
set_port ifindex mac port p t = do
  n ← deref (t.entries p)
  done (if has_mac ifindex mac n then store p (record n { port = port }) t else t)

unfoldable pub set_ports : ℕ → List ℕ → Option ℕ → List ℕ → Neighs → Run Neighs
set_ports ifindex mac port [] t = done t
set_ports ifindex mac port (p ∷ ps) t =
    set_port ifindex mac port p t >>= set_ports ifindex mac port ps

module _ ⦃jhash : Jhash⦄ where
  unfoldable pub neigh_update_all_macs : ℕ → List ℕ → Option ℕ → Neighs → Run Neighs
  neigh_update_all_macs ifindex mac port t = set_ports ifindex mac port (t.by_mac (hash_mac mac)) t
