-- ===== src/Neigh/Preserve.antt =====
-- src/neighbor_resolution.c, `cmmNeighborUpdate`: its steps on the invariant of the tables.
use cmm.Prelude.{
  ℕ, ◌≡◌, refl, Bool, true, false, not, ◌&&◌, none, some, ◌∷◌, arith, if◌then◌else◌, update,
  Bool-cases, inl, inr, mem, mem-NotIn, mem-erase, erase, Distinct-erase, ltb, length,
}
use Prim.Native.Nat.{min}
use cmm.Prelude.Run.{◌>>=◌, Returns}
use cmm.Net.{Jhash, hash_mac, mem_copy, mem_eq}
use cmm.Table.{link, unlink}
use cmm.Table.Placed.{remove-IsPlaced, modify-IsPlaced}
use cmm.Neigh.{
  NudState, nud_valid, NeighborEntry, Neighs, null_mac, store, add_by_state, neigh_remove,
}
use cmm.Neigh.Update.{
  NeighMessage, quiet, resolved, unresolved, mac_of, neighbor_resolved, neighbor_unresolved,
  stop_solicit, start_solicit, update_mac,
}
use cmm.Neigh.Valid.{
  IsValid, IsMid, ip_home, IsValid-of_IsMid, store-IsMid, unlink_mac-IsMid, link_mac-IsMid,
  add_by_mac_runs,
}

-- The entry after a step that may change its flag and its probes only.
abbrev pub Kept : Neighs → ℕ → NeighborEntry → Type 0
Kept t p n =
    (n' : NeighborEntry) × (t.entries p ≡ some n')
    × (n'.state ≡ n.state)
    × (n'.mac_addr ≡ n.mac_addr)
    × (n'.count ≡ n.count)
    × (n'.family ≡ n.family)
    × (n'.ip_addr ≡ n.ip_addr)

module _ ⦃jhash : Jhash⦄ (p : ℕ) (linked : Bool) (key : ℕ) where
  unlisted-IsMid :
      (t : Neighs) (n : NeighborEntry)
      → t.entries p ≡ some n
      → IsMid p linked key t
      → IsMid p linked key (
          store p
            (record n { needs_solicit = false; nr_probes = 0 })
            (record t { by_state = erase p t.by_state }))
  unlisted-IsMid t n here v = record {
    placed = modify-IsPlaced ip_home t.entries t.table p n _ here refl v.placed;
    macs = λ q k. ground (arith, v.macs q k);
    macs_distinct = v.macs_distinct;
    states = λ q. ground (arith, v.states q, mem-erase q p t.by_state v.states_distinct);
    states_distinct = Distinct-erase p t.by_state v.states_distinct;
  }

  listed-IsMid :
      (t : Neighs) (n : NeighborEntry)
      → t.entries p ≡ some n
      → n.needs_solicit ≡ false
      → IsMid p linked key t
      → IsMid p linked key
          (store p (record n { needs_solicit = true }) (record t { by_state = p ∷ t.by_state }))
  listed-IsMid t n here off v = record {
    placed = modify-IsPlaced ip_home t.entries t.table p n _ here refl v.placed;
    macs = λ q k. ground (arith, v.macs q k);
    macs_distinct = v.macs_distinct;
    states = λ q. ground (arith, v.states q);
    states_distinct =
        ground (arith, v.states p, here, off, mem-NotIn p t.by_state, v.states_distinct);
  }

  pub stop_solicit_lem :
      (t : Neighs) (n : NeighborEntry) (s : NudState)
      → t.entries p ≡ some n
      → IsMid p linked key t
      → Returns (stop_solicit p s t) (λ t'. IsMid p linked key t' × Kept t' p n)
  unfolding stop_solicit
  stop_solicit_lem t n s here v = elim (Bool-cases (s.reachable && n.needs_solicit)) [
    | inl go ↦ (
      _,
      rw (here, ◌>>=◌, go),
      (
        unlisted-IsMid t n here v,
        (
          record n { needs_solicit = false; nr_probes = 0 },
          ground arith,
          refl,
          refl,
          refl,
          refl,
          refl,
        ),
      ),
    )
    | inr stay ↦ (t, rw (here, ◌>>=◌, stay), (v, (n, here, refl, refl, refl, refl, refl)))
  ]

  pub start_solicit_lem :
      (t : Neighs) (n : NeighborEntry) (s : NudState)
      → t.entries p ≡ some n
      → IsMid p linked key t
      → Returns (start_solicit p s t) (λ t'. IsMid p linked key t' × Kept t' p n)
  unfolding start_solicit add_by_state
  start_solicit_lem t n s here v =
      elim (Bool-cases (s.stale && (not n.needs_solicit && ltb 0 n.count))) [
        | inl go ↦
            let off : n.needs_solicit ≡ false = ground arith in
            let out : mem p t.by_state ≡ false = ground (arith, v.states p) in
            (
              _,
              rw (here, ◌>>=◌, go) (rw out),
              (
                listed-IsMid t n here off v,
                (record n { needs_solicit = true }, ground arith, refl, refl, refl, refl, refl),
              ),
            )
        | inr stay ↦ (t, rw (here, ◌>>=◌, stay), (v, (n, here, refl, refl, refl, refl, refl)))
      ]

module _ ⦃jhash : Jhash⦄ where
  pub neigh_remove_lem :
      (t : Neighs) (p : ℕ) (n : NeighborEntry) (linked : Bool) (key : ℕ)
      → t.entries p ≡ some n
      → (linked ≡ true → nud_valid n.state ≡ true)
      → IsMid p linked key t
      → Returns (neigh_remove p t) (λ t'. IsValid t' × (t'.entries p ≡ none))
  unfolding neigh_remove
  neigh_remove_lem t p n linked key here seen v = (
    record {
      entries = update t.entries p none;
      table = unlink p t.table;
      by_mac = if nud_valid n.state then unlink p t.by_mac else t.by_mac;
      by_state = if n.needs_solicit then erase p t.by_state else t.by_state;
    },
    rw (here, ◌>>=◌),
    (
      record {
        placed = remove-IsPlaced ip_home t.entries t.table p v.placed;
        macs =
            λ q k. ground (arith, v.macs q k, seen, mem-erase q p (t.by_mac k) (v.macs_distinct k));
        macs_distinct = λ k.
            ground (arith, v.macs_distinct k, Distinct-erase p (t.by_mac k) (v.macs_distinct k));
        states = λ q. ground (arith, v.states q, here, mem-erase q p t.by_state v.states_distinct);
        states_distinct =
            ground (arith, v.states_distinct, Distinct-erase p t.by_state v.states_distinct);
      },
      ground arith,
    ),
  )

  neighbor_resolved_lem :
      (t : Neighs) (p : ℕ) (n : NeighborEntry) (key : ℕ)
      → t.entries p ≡ some n
      → nud_valid n.state ≡ true
      → IsMid p false key t
      → Returns (neighbor_resolved p t) (λ r. IsValid r.0)
  unfolding neighbor_resolved
  neighbor_resolved_lem t p n key here usable v =
      let n' : NeighborEntry = record n { port = none } in
      let t₁ = store p n' t in
      let v₁ = store-IsMid t p n n' false key here refl refl v in
      let run = add_by_mac_runs t₁ p key (hash_mac n.mac_addr) v₁ in
      let v₂ = link_mac-IsMid t₁ p key (hash_mac n.mac_addr) v₁ in
      (
        (record t₁ { by_mac = link (hash_mac n.mac_addr) p t₁.by_mac }, resolved p),
        rw (here, ◌>>=◌) (rw run),
        IsValid-of_IsMid _ p n' true (hash_mac n.mac_addr) (ground arith)
            (λ k. ground (arith, usable)) v₂,
      )

  neighbor_unresolved_lem :
      (t : Neighs) (p : ℕ) (n : NeighborEntry) (linked : Bool) (key : ℕ)
      → t.entries p ≡ some n
      → nud_valid n.state ≡ false
      → IsMid p linked key t
      → Returns (neighbor_unresolved p t) (λ r. IsValid r.0)
  unfolding neighbor_unresolved
  neighbor_unresolved_lem t p n linked key here unusable v =
      let n' : NeighborEntry = record n { port = none } in
      let t₁ : Neighs = record t { by_mac = unlink p t.by_mac } in
      let v₁ = unlink_mac-IsMid t p linked key 0 v in
      let v₂ = store-IsMid t₁ p n n' false 0 here refl refl v₁ in
      (
        (store p n' t₁, unresolved p),
        rw (here, ◌>>=◌),
        IsValid-of_IsMid _ p n' false 0 (ground arith) (λ k. ground (arith, unusable)) v₂,
      )

  pub update_mac_lem :
      (t : Neighs) (p : ℕ) (n : NeighborEntry) (old : NudState) (m : NeighMessage)
      → t.entries p ≡ some n
      → n.state ≡ m.state
      → IsMid p (nud_valid old) (hash_mac n.mac_addr) t
      → Returns (update_mac p old m t) (λ r. IsValid r.0)
  unfolding update_mac
  update_mac_lem t p n old m here state v =
      let mac = mac_of m.lladdr in
      let len = min (length mac) 6 in
      let n₁ : NeighborEntry = record n { mac_addr = mem_copy len mac n.mac_addr } in
      let n₂ : NeighborEntry = record n { mac_addr = null_mac } in
      let key = hash_mac n.mac_addr in
      let copied = store-IsMid t p n n₁ (nud_valid old) key here refl refl v in
      let cleared = store-IsMid t p n n₂ (nud_valid old) key here refl refl v in
      elim (Bool-cases (nud_valid m.state)) [
        | inl usable ↦ elim (Bool-cases (nud_valid old)) [
          | inr was_not ↦
              let (r, run, w) =
                neighbor_resolved_lem (store p n₁ t) p n₁ key (ground arith) (rw state usable)
                  (rw was_not at copied) in
              (r, rw (here, ◌>>=◌, usable, was_not) run, w)
          | inl was ↦ elim (Bool-cases (mem_eq len n.mac_addr mac)) [
            | inl same ↦ (
              (t, quiet),
              rw (here, ◌>>=◌, usable, was) (rw same),
              IsValid-of_IsMid t p n (nud_valid old) key here
                  (λ k. ground (arith, was, usable, state)) v,
            )
            | inr differs ↦
                let moved = unlink_mac-IsMid (store p n₁ t) p (nud_valid old) key key copied in
                let (r, run, w) =
                  neighbor_resolved_lem _ p n₁ key (ground arith) (rw state usable) moved in
                (r, rw (here, ◌>>=◌, usable, was) (rw differs run), w)
          ]
        ]
        | inr unusable ↦ elim (Bool-cases (nud_valid old)) [
          | inl was ↦
              let (r, run, w) =
                neighbor_unresolved_lem (store p n₂ t) p n₂ (nud_valid old) key (ground arith)
                  (rw state unusable) cleared in
              (r, rw (here, ◌>>=◌, unusable, was) run, w)
          | inr was_not ↦ (
            (store p n₂ t, quiet),
            rw (here, ◌>>=◌, unusable, was_not),
            IsValid-of_IsMid _ p n₂ (nud_valid old) key (ground arith)
                (λ k. ground (arith, was_not, unusable, state)) cleared,
          )
        ]
      ]
