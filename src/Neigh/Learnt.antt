-- ===== src/Neigh/Learnt.antt =====
-- src/neighbor_resolution.c, `cmmNeighborNetlinkLookupAllFilter`: what a call leaves.
use cmm.Prelude.{
  ℕ, ◌/◌, ◌≤◌, ◌≡◌, ◌≢◌, refl, sym, ap, ◌∙◌, Bool, true, false, not, ◌||◌, Option, none, some, List,
  [], ◌∷◌, length, arith, leb, ◌==◌, ==_refl, Bool-cases, Option-cases, inl, inr,
}
use mathlib.Core.Path.{subst}
use cmm.Table.{link}
use cmm.Prelude.Run.{done, ◌>>=◌, Returns}
use cmm.Net.{Jhash, ip_addr_len, hash_mac}
use cmm.Neigh.{◌∷◌, NeighborEntry, Neighs, nud_valid, null_mac, store, new_neigh, neigh_add}
use cmm.Neigh.Update.{NeighMessage, is_del, mac_of}
use cmm.Neigh.Valid.{
  IsValid, IsMid, IsMid-of_IsValid, store-IsMid, IsValid-of_IsMid, add_by_mac_runs, link_mac-IsMid,
}
use cmm.Neigh.Holders.{neigh_add-IsValid}
use cmm.Neigh.Messages.{find_cases}
use cmm.Neigh.Dump.{mem_write, write_mac, settle_usable, settle, add_found, lookup_all_filter}

mem_write_fits :
    (xs ys : List ℕ) → length xs ≤ length ys → (zs : List ℕ) × (mem_write xs ys ≡ done zs)
unfolding mem_write
mem_write_fits [] ys h = (ys, refl)
mem_write_fits (x ∷ xs) [] h = absurd (omega (arith, h))
mem_write_fits (x ∷ xs) (y ∷ ys) h =
    let (zs, run) = mem_write_fits xs ys (omega (arith, h)) in (x ∷ zs, rw (run, ◌>>=◌) refl)

write_mac_returns :
    (lladdr : Option (List ℕ)) (old : List ℕ)
    → length old ≡ 6
    → leb (length (mac_of lladdr)) 6 ≡ true
    → (mac : List ℕ) × (write_mac lladdr old ≡ done mac)
unfolding write_mac
write_mac_returns none old room short = (null_mac, refl)
write_mac_returns (some mac) old room short = mem_write_fits mac old (ground (arith, room, short))

module _ ⦃jhash : Jhash⦄ where
  -- The indexes are consistent, the entries that there were are as they were, and nothing changes but
  -- at the address of the new entry.
  pub record Extends (memory : Option ℕ) (t t' : Neighs) : Type 0 where
    pub valid : IsValid t'
    pub kept : (q : ℕ) (n : NeighborEntry) → t.entries q ≡ some n → t'.entries q ≡ some n
    pub elsewhere : (q : ℕ) → memory ≢ some q → t'.entries q ≡ t.entries q

  unchanged : (memory : Option ℕ) (t : Neighs) → IsValid t → Extends memory t t
  unchanged memory t v = record { valid = v; kept = λ q n h. h; elsewhere = λ q ne. refl }

  settle_lem :
      (t : Neighs) (m : NeighMessage) (p : ℕ) (n : NeighborEntry)
      → IsValid t
      → t.entries p ≡ some n
      → nud_valid n.state ≡ false
      → leb (length (mac_of m.lladdr)) 6 ≡ true
      → length n.mac_addr ≡ 6
      → Returns
          (settle m (some p, t))
          (λ t'. IsValid t' × ((q : ℕ) → q ≢ p → t'.entries q ≡ t.entries q))
  unfolding settle settle_usable
  settle_lem t m p n v here unusable short room =
      let (mac, written) = write_mac_returns m.lladdr n.mac_addr room short in
      let known : NeighborEntry = record n { state = m.state; mac_addr = mac } in
      let unknown : NeighborEntry = record n { state = m.state; mac_addr = null_mac } in
      let key = hash_mac n.mac_addr in
      let mid = subst (λ b. IsMid p b key t) unusable (IsMid-of_IsValid t p n here v) in
      elim (Bool-cases (nud_valid m.state)) [
        | inl good ↦
            let t₁ = store p known t in
            let mid₁ = store-IsMid t p n known false key here refl refl mid in
            let mid₂ = link_mac-IsMid t₁ p key (hash_mac mac) mid₁ in
            (
              record t₁ { by_mac = link (hash_mac mac) p t₁.by_mac },
              rw (here, ◌>>=◌, good)
                  (rw (written, ◌>>=◌) (add_by_mac_runs t₁ p key (hash_mac mac) mid₁)),
              (
                IsValid-of_IsMid _ p known true (hash_mac mac) (ground arith)
                    (λ j. ground (arith, good)) mid₂,
                λ q ne. ground arith,
              ),
            )
        | inr bad ↦
            let mid₁ = store-IsMid t p n unknown false key here refl refl mid in
            (
              store p unknown t,
              rw (here, ◌>>=◌, bad),
              (
                IsValid-of_IsMid _ p unknown false key (ground arith) (λ j. ground (arith, bad))
                    mid₁,
                λ q ne. ground arith,
              ),
            )
      ]

  settle-Extends :
      (t : Neighs) (m : NeighMessage) (memory : Option ℕ) (family ifindex : ℕ) (dst : List ℕ)
      → IsValid t
      → ((p : ℕ) → memory ≡ some p → t.entries p ≡ none)
      → ip_addr_len family / 4 ≤ length dst
      → leb (length (mac_of m.lladdr)) 6 ≡ true
      → Returns (settle m (neigh_add memory family dst ifindex t)) (Extends memory t)
  unfolding settle neigh_add new_neigh
  settle-Extends t m none family ifindex dst v fresh whole short = (t, refl, unchanged none t v)
  settle-Extends t m (some p) family ifindex dst v fresh whole short =
      let n = new_neigh family dst ifindex in
      let t₁ = (neigh_add (some p) family dst ifindex t).1 in
      let (_, v₁, entries) = neigh_add-IsValid t p family ifindex dst v (fresh p refl) whole in
      let here : t₁.entries p ≡ some n = entries p ∙ rw (==_refl p) refl in
      let (t', run, (v', others)) = settle_lem t₁ m p n v₁ here refl short refl in
      (
        t',
        run,
        record {
          valid = v';
          kept = λ q s h.
              let ne : q ≢ p = λ e. ground (arith, fresh p refl, h) in
              others q ne ∙ (entries q ∙ ground (arith, h));
          elsewhere = λ q ne.
              let apart : q ≢ p = λ e. ne (ap some (sym e)) in
              others q apart ∙ (entries q ∙ ground arith);
        },
      )

  add_found-Extends :
      (own : ℕ → ℕ → List ℕ → Bool) (ifindex : ℕ) (memory : Option ℕ) (m : NeighMessage)
      (dst : List ℕ) (t : Neighs)
      → IsValid t
      → ((p : ℕ) → memory ≡ some p → t.entries p ≡ none)
      → ip_addr_len m.family / 4 ≤ length dst
      → leb (length (mac_of m.lladdr)) 6 ≡ true
      → Returns (add_found own ifindex memory m dst t) (Extends memory t)
  unfolding add_found
  add_found-Extends own ifindex memory m dst t v fresh whole short =
      elim (find_cases t m.family dst ifindex v) [
        | inr (p, n, found, _, _) ↦ (t, rw (add_found, found), unchanged memory t v)
        | inl missed ↦ elim (Bool-cases (own ifindex m.family dst)) [
          | inl mine ↦ (t, rw (add_found, missed, ◌>>=◌, mine), unchanged memory t v)
          | inr foreign ↦
              let (t', run, w) =
                settle-Extends t m memory m.family ifindex dst v fresh whole short in
              (t', rw (add_found, missed, ◌>>=◌, foreign) run, w)
        ]
      ]

  filter_runs :
      (own : ℕ → ℕ → List ℕ → Bool) (ifindex : ℕ) (memory : Option ℕ) (m : NeighMessage)
      (dst : List ℕ) (t : Neighs)
      → (is_del m.message_type || (m.state.noarp || not (m.ifindex == ifindex))) ≡ false
      → m.dst ≡ some dst
      → lookup_all_filter own ifindex memory m t ≡ add_found own ifindex memory m dst t
  unfolding lookup_all_filter
  filter_runs own ifindex memory m dst t ours e = simp (lookup_all_filter, ours, e)

  -- A message of the dump meets no freed entry, keeps the indexes consistent and leaves the entries
  -- that there are as they were, if its address is whole and its MAC address fits into the field.
  pub lookup_all_filter-Extends :
      (own : ℕ → ℕ → List ℕ → Bool) (ifindex : ℕ) (memory : Option ℕ) (m : NeighMessage)
      (t : Neighs)
      → IsValid t
      → ((p : ℕ) → memory ≡ some p → t.entries p ≡ none)
      → ((dst : List ℕ) → m.dst ≡ some dst → ip_addr_len m.family / 4 ≤ length dst)
      → length (mac_of m.lladdr) ≤ 6
      → Returns (lookup_all_filter own ifindex memory m t) (Extends memory t)
  unfolding lookup_all_filter add_found
  lookup_all_filter-Extends own ifindex memory m t v fresh whole short =
      elim (Bool-cases (is_del m.message_type || (m.state.noarp || not (m.ifindex == ifindex)))) [
        | inl other ↦ (t, rw (lookup_all_filter, other), unchanged memory t v)
        | inr ours ↦ elim (Option-cases m.dst) [
          | inl no_dst ↦ (t, rw (lookup_all_filter, ours, no_dst), unchanged memory t v)
          | inr (dst, e) ↦
              let (t', run, w) =
                add_found-Extends own ifindex memory m dst t v fresh (whole dst e) (ground arith) in
              (t', filter_runs own ifindex memory m dst t ours e ∙ run, w)
        ]
      ]
