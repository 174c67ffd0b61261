-- ===== src/Registering/Macs.antt =====
-- src/ffbridge.c, `cmmBrgetAllMacPort`: the neighbours stay where they are and change their port only.
use cmm.Prelude.{ℕ, refl, ◌∙◌, Option, some, List, [], ◌∷◌, arith, inl, inr, Bool-cases}
use cmm.Prelude.Run.{◌>>=◌, Returns}
use cmm.Net.{Jhash}
use cmm.Neigh.{Neighs}
use cmm.Neigh.Ports.{has_mac}
use cmm.Neigh.AllMacs.{is_usable, Moves, neigh_update_all_macs-Moves}
use cmm.FdbPorts.{FdbEntry, br_get_all_mac_port}
use cmm.Registering.Holders.{Stays}
use cmm.Neigh.Valid as NeighValid

module _ ⦃jhash : Jhash⦄ where
  Moves-Stays :
      (ifindex : ℕ) (mac : List ℕ) (port : Option ℕ) (ns ns' : Neighs)
      → Moves ifindex mac port ns ns'
      → Stays ns ns'
  Moves-Stays ifindex mac port ns ns' m q n here = elim (Bool-cases (has_mac ifindex mac n)) [
    | inl hit ↦ elim (Bool-cases (is_usable (some n))) [
      | inl usable ↦ (
        record n { port = port },
        ground (arith, m.entries q, here, hit, usable),
        omega arith,
        refl,
      )
      | inr not_usable ↦ (n, ground (arith, m.entries q, here, not_usable), omega arith, refl)
    ]
    | inr miss ↦ (n, ground (arith, m.entries q, here, miss), omega arith, refl)
  ]

  pub record Ports (ns ns' : Neighs) : Type 0 where
    pub valid : NeighValid.IsValid ns'
    pub stays : Stays ns ns'

  pub br_get_all_mac_port-Ports :
      (br_ifindex : ℕ) (fdb : List FdbEntry) (ns : Neighs)
      → NeighValid.IsValid ns
      → Returns (br_get_all_mac_port br_ifindex fdb ns) (Ports ns)
  unfolding br_get_all_mac_port
  br_get_all_mac_port-Ports br_ifindex [] ns v =
      (ns, refl, record { valid = v; stays = λ q n h. (n, h, omega arith, refl) })
  br_get_all_mac_port-Ports br_ifindex (fe ∷ fdb) ns v = elim (Bool-cases fe.is_local) [
    | inl own ↦
        let (ns', run, w) = br_get_all_mac_port-Ports br_ifindex fdb ns v in
        (ns', rw (own, ◌>>=◌) run, w)
    | inr other ↦
        let (ns₁, run₁, m) =
          neigh_update_all_macs-Moves br_ifindex fe.mac_addr (some fe.port_no) ns v in
        let (ns', run, w) = br_get_all_mac_port-Ports br_ifindex fdb ns₁ m.valid in
        (
          ns',
          rw (other, run₁, ◌>>=◌) run,
          record {
            valid = w.valid;
            stays = λ q n h.
                let (n₁, h₁, more₁, state₁) =
                  Moves-Stays br_ifindex fe.mac_addr (some fe.port_no) ns ns₁ m q n h in
                let (n₂, h₂, more₂, state₂) = w.stays q n₁ h₁ in
                (n₂, h₂, omega arith, state₂ ∙ state₁);
          },
        )
  ]
