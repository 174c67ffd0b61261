-- ===== src/FdbPorts.antt =====
-- src/ffbridge.c, lines 82-150, and src/ffbridge.h: the ports of a bridge's forwarding database are given
-- to the neighbours. The entries are those that the calls of `ioctl` return.
use cmm.Prelude.{ℕ, Bool, some, List, [], ◌∷◌, if◌then◌else◌}
use cmm.Prelude.Run.{Run, done, ◌>>=◌}
use cmm.Net.{Jhash}
use cmm.Neigh.{Neighs}
use cmm.Neigh.Ports.{neigh_update_all_macs}

-- An entry of a bridge's forwarding database.
pub record FdbEntry : Type 0 where
  pub mac_addr : List ℕ
  pub port_no : ℕ
  pub is_local : Bool

module _ ⦃jhash : Jhash⦄ where
  -- The loops of `cmmBrgetAllMacPort`.
  unfoldable pub br_get_all_mac_port : ℕ → List FdbEntry → Neighs → Run Neighs
  br_get_all_mac_port br_ifindex [] ns = done ns
  br_get_all_mac_port br_ifindex (fe ∷ fdb) ns = do
    ns' ←
        if fe.is_local
        then done ns
        else neigh_update_all_macs br_ifindex fe.mac_addr (some fe.port_no) ns
    br_get_all_mac_port br_ifindex fdb ns'
