-- ===== src/Neigh/Holders.antt =====
-- src/neighbor_resolution.c, `__cmmNeighAdd` and `__cmmNeighPut`: an entry from its first holder to
-- its last.
use cmm.Prelude.{
  ◌≤◌, ℕ, ◌-◌, ◌/◌, ◌≡◌, ◌≢◌, refl, ◌∙◌, Option, none, some, List, length, arith, leb, ◌==◌,
  if◌then◌else◌, Bool-cases, inl, inr,
}
use cmm.Prelude.Run.{done, ◌>>=◌, Returns}
use cmm.Net.{Jhash, ip_addr_len, hash_neighbor, hash_neighbor_congr, mem_eq-copy, no_addr}
use cmm.Table.Placed.{insert-IsPlaced}
use cmm.Neigh.{
  NeighborEntry, Neighs, nud_valid, store, neigh_remove, neigh_put, neigh_add, new_neigh,
}
use cmm.Neigh.Valid.{IsValid, ip_home, IsMid-of_IsValid, store-IsMid, IsValid-of_IsMid}
use cmm.Neigh.Preserve.{neigh_remove_lem}

-- What is left of an entry when one holder has let go of it.
abbrev pub released : NeighborEntry → Option NeighborEntry
released n = if leb n.count 1 then none else some (record n { count = n.count - 1 })

neigh_remove_others :
    (t t' : Neighs) (p q : ℕ) (n : NeighborEntry)
    → t.entries p ≡ some n
    → neigh_remove p t ≡ done t'
    → q ≢ p
    → t'.entries q ≡ t.entries q
unfolding neigh_remove
neigh_remove_others t t' p q n here run ne = ground arith

module _ ⦃jhash : Jhash⦄ where
  pub record Puts (t : Neighs) (p : ℕ) (n : NeighborEntry) (t' : Neighs) : Type 0 where
    pub valid : IsValid t'
    pub released : t'.entries p ≡ released n
    pub others : (q : ℕ) → q ≢ p → t'.entries q ≡ t.entries q

  -- On consistent indexes a call returns and keeps them consistent. The last holder frees the entry
  -- and takes it off every list it is on; before that the entry stays, with one holder less. The
  -- other entries stay.
  pub neigh_put-Puts :
      (t : Neighs) (p : ℕ) (n : NeighborEntry)
      → IsValid t
      → t.entries p ≡ some n
      → Returns (neigh_put p t) (Puts t p n)
  unfolding neigh_put
  neigh_put-Puts t p n v here =
      let n₁ : NeighborEntry = record n { count = n.count - 1 } in
      let t₁ = store p n₁ t in
      let here₁ : t₁.entries p ≡ some n₁ = ground arith in
      let low : leb (n.count - 1) 0 ≡ leb n.count 1 = ground arith in
      let mid =
        store-IsMid t p n n₁ (nud_valid n.state) _ here refl refl (IsMid-of_IsValid t p n here v) in
      elim (Bool-cases (leb n.count 1)) [
        | inl last ↦
            let (t', run, (v', gone)) =
              neigh_remove_lem t₁ p n₁ (nud_valid n.state) _ here₁ (λ e. e) mid in
            (
              t',
              rw (neigh_put, here, ◌>>=◌, low, last) run,
              record {
                valid = v';
                released = rw last gone;
                others = λ q ne. neigh_remove_others t₁ t' p q n₁ here₁ run ne ∙ (ground arith);
              },
            )
        | inr more ↦ (
          t₁,
          rw (neigh_put, here, ◌>>=◌, low, more),
          record {
            valid = IsValid-of_IsMid t₁ p n₁ (nud_valid n.state) _ here₁ (λ k. refl) mid;
            released = rw more here₁;
            others = λ q ne. ground arith;
          },
        )
      ]

  -- A call for a whole address, with memory, keeps the indexes consistent. The new entry is unusable,
  -- has no holder and needs no solicitation, and the other entries stay.
  pub neigh_add-IsValid :
      (t : Neighs) (p family ifindex : ℕ) (addr : List ℕ)
      → IsValid t
      → t.entries p ≡ none
      → ip_addr_len family / 4 ≤ length addr
      → let res = neigh_add (some p) family addr ifindex t in
        (res.0 ≡ some p)
        × IsValid res.1
        × ((q : ℕ)
            → res.1.entries q
              ≡ (if q == p then some (new_neigh family addr ifindex) else t.entries q))
  unfolding neigh_add new_neigh
  neigh_add-IsValid t p family ifindex addr v fresh whole =
      let n = new_neigh family addr ifindex in
      let home : ip_home n ≡ hash_neighbor family addr =
        hash_neighbor_congr family n.ip_addr addr (
          mem_eq-copy (ip_addr_len family / 4) addr no_addr (omega (arith, whole))
            (ground arith)) in
      (
        refl,
        record {
          placed = rw⁻¹ home (insert-IsPlaced ip_home t.entries t.table p n fresh v.placed);
          macs = λ q k. ground (arith, v.macs q k);
          macs_distinct = v.macs_distinct;
          states = λ q. ground (arith, v.states q, v.states p);
          states_distinct = v.states_distinct;
        },
        λ q. refl,
      )
