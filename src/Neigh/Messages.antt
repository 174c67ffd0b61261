-- ===== src/Neigh/Messages.antt =====
-- src/neighbor_resolution.c, `cmmNeighborUpdate`: what a message of the kernel leaves.
use cmm.Prelude.{
  ℕ, ◌≡◌, refl, ◌∙◌, Bool, true, false, ◌&&◌, Option, none, some, List, arith, ◌⊎◌, if◌then◌else◌,
  update, Bool-cases, Option-cases, inl, inr, mem, erase, leb,
}
use cmm.Prelude.Run.{done, ◌>>=◌, Returns}
use cmm.Net.{Jhash, hash_mac, hash_neighbor}
use cmm.Table.{unlink}
use cmm.Table.Placed.{scan-Finds}
use cmm.Neigh.{nud_valid, NeighborEntry, Neighs, store, neigh_find, neigh_match, neigh_remove}
use cmm.Neigh.Update.{NeighMessage, quiet, is_del, update_mac, update_found, neighbor_update}
use cmm.Neigh.Valid.{IsValid, IsMid, ip_home, IsMid-of_IsValid, store-IsMid}
use cmm.Neigh.Preserve.{stop_solicit_lem, start_solicit_lem, neigh_remove_lem, update_mac_lem}

-- The message deletes a neighbour that nobody uses.
abbrev pub drops : NeighMessage → NeighborEntry → Bool
drops m n = is_del m.message_type && leb n.count 0

module _ ⦃jhash : Jhash⦄ where
  -- The entry when the tests on the solicitations are behind.
  pub record Prepared (t : Neighs) (p : ℕ) (n : NeighborEntry) (m : NeighMessage) : Type 0 where
    pub t₂ : Neighs
    pub n₂ : NeighborEntry
    pub mid : IsMid p (nud_valid n.state) (hash_mac n.mac_addr) t₂
    pub here : t₂.entries p ≡ some n₂
    pub state : n₂.state ≡ m.state
    pub mac : n₂.mac_addr ≡ n.mac_addr
    pub count : n₂.count ≡ n.count
    pub run : update_found p m t ≡ (
        if drops m n₂
        then neigh_remove p t₂ >>= (λ t₃. done (t₃, quiet))
        else update_mac p n.state m t₂)

  prepare :
      (t : Neighs) (p : ℕ) (n : NeighborEntry) (m : NeighMessage)
      → t.entries p ≡ some n
      → IsValid t
      → Prepared t p n m
  unfolding update_found
  prepare t p n m here v =
      let linked = nud_valid n.state in
      let key = hash_mac n.mac_addr in
      let n₀ : NeighborEntry = record n { state = m.state } in
      let v₀ = store-IsMid t p n n₀ linked key here refl refl (IsMid-of_IsValid t p n here v) in
      let (t₁, run₁, (v₁, (n₁, h₁, s₁, a₁, c₁, f₁, i₁))) =
        stop_solicit_lem p linked key (store p n₀ t) n₀ m.state (ground arith) v₀ in
      let (t₂, run₂, (v₂, (n₂, h₂, s₂, a₂, c₂, f₂, i₂))) =
        start_solicit_lem p linked key t₁ n₁ m.state h₁ v₁ in
      record {
        t₂ = t₂;
        n₂ = n₂;
        mid = v₂;
        here = h₂;
        state = s₂ ∙ s₁;
        mac = a₂ ∙ a₁;
        count = c₂ ∙ c₁;
        run = rw (here, ◌>>=◌) (rw (run₁, ◌>>=◌) (rw (run₂, ◌>>=◌) (rw (h₂, ◌>>=◌))));
      }

  -- A message whose deletion of an unused entry finds the entry's new state as usable as the old one.
  abbrev pub Consistent : NeighborEntry → NeighMessage → Type 0
  Consistent n m = drops m n ≡ true → nud_valid n.state ≡ true → nud_valid m.state ≡ true

  update_found-IsValid :
      (t : Neighs) (p : ℕ) (n : NeighborEntry) (m : NeighMessage)
      → t.entries p ≡ some n
      → Consistent n m
      → IsValid t
      → Returns (update_found p m t) (λ r. IsValid r.0)
  update_found-IsValid t p n m here ok v =
      let s = prepare t p n m here v in
      let same : drops m s.n₂ ≡ drops m n = rw s.count in
      elim (Bool-cases (drops m n)) [
        | inl dropped ↦
            let (t₃, run, (w, _)) =
              neigh_remove_lem s.t₂ p s.n₂ (nud_valid n.state) (hash_mac n.mac_addr) s.here
                (λ was. rw s.state (ok dropped was)) s.mid in
            ((t₃, quiet), s.run ∙ rw (same, dropped) (rw run), w)
        | inr kept ↦
            let (r, run, w) =
              update_mac_lem s.t₂ p s.n₂ n.state m s.here s.state (rw s.mac s.mid) in
            (r, s.run ∙ rw (same, kept) run, w)
      ]

  pub find_cases :
      (t : Neighs) (family : ℕ) (addr : List ℕ) (ifindex : ℕ)
      → IsValid t
      → (neigh_find family addr ifindex t ≡ done none)
        ⊎ ((p : ℕ) × (n : NeighborEntry) × (neigh_find family addr ifindex t ≡ done (some p))
            × (t.entries p ≡ some n)
            × (neigh_match family addr ifindex n ≡ true))
  unfolding neigh_find
  find_cases t family addr ifindex v =
      elim (scan-Finds ip_home (neigh_match family addr ifindex) t.entries t.table v.placed
        (hash_neighbor family addr)) [
          | inl (missed, _) ↦ inl missed
          | inr (p, n, found, here, _, hit) ↦ inr (p, n, found, here, hit)
        ]

  ignored :
      (t : Neighs) (m : NeighMessage)
      → IsValid t
      → neighbor_update m t ≡ done (t, quiet)
      → Returns (neighbor_update m t) (λ r. IsValid r.0)
  ignored t m v run = ((t, quiet), run, v)

  update_runs :
      (t : Neighs) (m : NeighMessage) (dst : List ℕ) (found : Option ℕ)
      → m.dst ≡ some dst
      → m.state.noarp ≡ false
      → neigh_find m.family dst m.ifindex t ≡ done found
      → neighbor_update m t ≡ (elim found [ none ↦ done (t, quiet) | some p ↦ update_found p m t ])
  unfolding neighbor_update
  update_runs t m dst found e arp run = rw (e, neighbor_update) (rw arp (rw (run, ◌>>=◌)))

  no_dst : (t : Neighs) (m : NeighMessage) → m.dst ≡ none → neighbor_update m t ≡ done (t, quiet)
  unfolding neighbor_update
  no_dst t m e = rw (e, neighbor_update)

  no_arp :
      (t : Neighs) (m : NeighMessage) (dst : List ℕ)
      → m.dst ≡ some dst
      → m.state.noarp ≡ true
      → neighbor_update m t ≡ done (t, quiet)
  unfolding neighbor_update
  no_arp t m dst e arp = rw (e, neighbor_update) (rw arp)

  -- On consistent indexes the part of cmmNeighborUpdate up to its loops over the routes that use
  -- the neighbour returns and keeps the three neighbour indexes consistent: it meets no freed
  -- entry and no failed list assertion, unless the message deletes the entry for its address and
  -- interface, that entry is unused and was usable, and the state of the message is not usable.
  pub neighbor_update-IsValid :
      (t : Neighs) (m : NeighMessage)
      → IsValid t
      → ((dst : List ℕ) (p : ℕ) (n : NeighborEntry)
          → m.dst ≡ some dst
          → neigh_find m.family dst m.ifindex t ≡ done (some p)
          → t.entries p ≡ some n
          → Consistent n m)
      → Returns (neighbor_update m t) (λ r. IsValid r.0)
  neighbor_update-IsValid t m v ok = elim (Option-cases m.dst) [
    | inl e ↦ ignored t m v (no_dst t m e)
    | inr (dst, e) ↦ elim (Bool-cases m.state.noarp) [
      | inl arp ↦ ignored t m v (no_arp t m dst e arp)
      | inr arp ↦ elim (find_cases t m.family dst m.ifindex v) [
        | inl missed ↦ ignored t m v (update_runs t m dst none e arp missed)
        | inr (p, n, found, here, _) ↦
            let (r, run, w) = update_found-IsValid t p n m here (ok dst p n e found here) v in
            (r, update_runs t m dst (some p) e arp found ∙ run, w)
      ]
    ]
  ]

  -- A message that deletes an unused entry under a state that is not usable, though the entry was,
  -- frees the entry and leaves its address on the list of its MAC address.
  pub neighbor_update_dangles :
      (t : Neighs) (m : NeighMessage) (dst : List ℕ) (p : ℕ) (n : NeighborEntry)
      → IsValid t
      → m.dst ≡ some dst
      → neigh_find m.family dst m.ifindex t ≡ done (some p)
      → t.entries p ≡ some n
      → drops m n ≡ true
      → nud_valid n.state ≡ true
      → nud_valid m.state ≡ false
      → Returns
          (neighbor_update m t)
          λ r. (r.0.entries p ≡ none) × (mem p (r.0.by_mac (hash_mac n.mac_addr)) ≡ true)
  unfolding neigh_remove
  neighbor_update_dangles t m dst p n v e found here dropped was is_not =
      let arp : m.state.noarp ≡ false = ground arith in
      let s = prepare t p n m here v in
      let same : drops m s.n₂ ≡ true = rw s.count dropped in
      let lost : nud_valid s.n₂.state ≡ false = rw s.state is_not in
      (
        (
          record {
            entries = update s.t₂.entries p none;
            table = unlink p s.t₂.table;
            by_mac = s.t₂.by_mac;
            by_state = if s.n₂.needs_solicit then erase p s.t₂.by_state else s.t₂.by_state;
          },
          quiet,
        ),
        update_runs t m dst (some p) e arp found ∙ s.run ∙ rw same (rw (s.here, ◌>>=◌, lost)),
        (ground arith, ground (arith, s.mid.macs p (hash_mac n.mac_addr), was)),
      )
