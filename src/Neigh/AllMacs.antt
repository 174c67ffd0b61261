-- ===== src/Neigh/AllMacs.antt =====
-- src/neighbor_resolution.c, `__cmmNeighUpdateAllMacs`: what a call leaves.
use cmm.Prelude.{
  ℕ, ◌≡◌, ◌≢◌, refl, ◌∙◌, Bool, true, false, Option, none, some, List, [], ◌∷◌, arith,
  if◌then◌else◌, mem, Distinct, NotIn-mem, Bool-cases, Option-cases, inl, inr,
}
use cmm.Prelude.Run.{◌>>=◌, Returns}
use cmm.Net.{Jhash, hash_mac, hash_mac_congr, mem_eq}
use cmm.Table.Placed.{modify-IsPlaced}
use cmm.Neigh.{NeighborEntry, Neighs, nud_valid, store}
use cmm.Neigh.Valid.{IsValid, ip_home}
use cmm.Neigh.Ports.{has_mac, set_port, set_ports, neigh_update_all_macs}

-- What a round does to an entry.
abbrev pub moved : ℕ → List ℕ → Option ℕ → Option NeighborEntry → Option NeighborEntry
moved ifindex mac port none = none
moved ifindex mac port (some n) =
    some (if has_mac ifindex mac n then record n { port = port } else n)

-- Whether an entry has a usable state, and with it a place in the index of MAC addresses.
abbrev pub is_usable : Option NeighborEntry → Bool
is_usable none = false
is_usable (some n) = nud_valid n.state

module _ ⦃jhash : Jhash⦄ (ifindex : ℕ) (mac : List ℕ) (port : Option ℕ) where
  store-IsValid :
      (t : Neighs) (p : ℕ) (n : NeighborEntry)
      → t.entries p ≡ some n
      → IsValid t
      → IsValid (store p (record n { port = port }) t)
  store-IsValid t p n here v = record {
    placed =
        modify-IsPlaced ip_home t.entries t.table p n (record n { port = port }) here refl v.placed;
    macs = λ q k. ground (arith, v.macs q k, here);
    macs_distinct = v.macs_distinct;
    states = λ q. ground (arith, v.states q, here);
    states_distinct = v.states_distinct;
  }

  record Loops (ps : List ℕ) (t t' : Neighs) : Type 0 where
    valid : IsValid t'
    entries :
        (q : ℕ)
        → t'.entries q ≡ (if mem q ps then moved ifindex mac port (t.entries q) else t.entries q)

  set_port-Loops :
      (t : Neighs) (p : ℕ) (n : NeighborEntry)
      → t.entries p ≡ some n
      → IsValid t
      → Returns (set_port ifindex mac port p t) (Loops (p ∷ []) t)
  unfolding set_port
  set_port-Loops t p n here v = elim (Bool-cases (has_mac ifindex mac n)) [
    | inl hit ↦ (
      store p (record n { port = port }) t,
      rw (here, hit),
      record { valid = store-IsValid t p n here v; entries = λ q. ground (arith, here, hit) },
    )
    | inr miss ↦
        (t, rw (here, miss), record { valid = v; entries = λ q. ground (arith, here, miss) })
  ]

  set_ports-Loops :
      (ps : List ℕ) (t : Neighs)
      → Distinct ps
      → ((q : ℕ) → mem q ps ≡ true → t.entries q ≢ none)
      → IsValid t
      → Returns (set_ports ifindex mac port ps t) (Loops ps t)
  unfolding set_ports
  set_ports-Loops [] t d live v = (t, refl, record { valid = v; entries = λ q. refl })
  set_ports-Loops (p ∷ ps) t d live v = elim (Option-cases (t.entries p)) [
    | inl dead ↦ absurd (live p (ground arith) dead)
    | inr (n, here) ↦
        let (t₁, run₁, one) = set_port-Loops t p n here v in
        let (t', run, w) =
          set_ports-Loops ps t₁ d.1 (λ q m e. ground (arith, live q, one.entries q)) one.valid in
        (
          t',
          rw (run₁, ◌>>=◌) run,
          record {
            valid = w.valid;
            entries = λ q. ground (arith, w.entries q, one.entries q, NotIn-mem p ps d.0);
          },
        )
  ]

  -- What a call leaves.
  pub record Moves (t t' : Neighs) : Type 0 where
    pub valid : IsValid t'
    pub entries :
        (q : ℕ)
        → t'.entries q
          ≡ (if is_usable (t.entries q) then moved ifindex mac port (t.entries q) else t.entries q)

  on_list :
      (t : Neighs)
      → IsValid t
      → (q : ℕ)
      → (if mem q (t.by_mac (hash_mac mac))
          then moved ifindex mac port (t.entries q)
          else t.entries q)
        ≡ (if is_usable (t.entries q) then moved ifindex mac port (t.entries q) else t.entries q)
  unfolding has_mac
  on_list t v q = elim (Option-cases (t.entries q)) [
    | inl dead ↦ ground (arith, v.macs q (hash_mac mac), dead)
    | inr (n, here) ↦ elim (Bool-cases (mem_eq 6 n.mac_addr mac)) [
      | inl same ↦ ground (arith, v.macs q (hash_mac mac), here, hash_mac_congr n.mac_addr mac same)
      | inr other ↦ ground (arith, here, other)
    ]
  ]

  -- A call meets no freed entry and keeps the indexes consistent. It writes the port to every usable
  -- entry of the interface with the MAC address, and to no other.
  pub neigh_update_all_macs-Moves :
      (t : Neighs) → IsValid t → Returns (neigh_update_all_macs ifindex mac port t) (Moves t)
  unfolding neigh_update_all_macs
  neigh_update_all_macs-Moves t v =
      let (t', run, w) =
        set_ports-Loops (t.by_mac (hash_mac mac)) t (v.macs_distinct (hash_mac mac))
          (λ q m e. ground (arith, v.macs q (hash_mac mac))) v in
      (t', run, record { valid = w.valid; entries = λ q. w.entries q ∙ on_list t v q })
