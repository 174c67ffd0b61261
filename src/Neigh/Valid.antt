-- ===== src/Neigh/Valid.antt =====
-- src/neighbor_resolution.c: the invariant of the neighbour tables.
use cmm.Prelude.{
  ℕ, zero, suc, ◌≡◌, refl, Bool, true, false, ◌&&◌, Option, none, some, List, arith, ◌==◌,
  if◌then◌else◌, mem, mem-NotIn, mem-erase, Distinct, Distinct-erase,
}
use cmm.Prelude.Run.{done}
use cmm.Net.{Jhash, hash_neighbor, hash_mac, neighbor_hash_table_size}
use cmm.Table.{link, unlink}
use cmm.Table.Placed.{IsPlaced, modify-IsPlaced}
use cmm.Neigh.{nud_valid, NeighborEntry, Neighs, store, is_linked, add_by_mac}

abbrev pub wants_solicit : Option NeighborEntry → Bool
wants_solicit none = false
wants_solicit (some n) = n.needs_solicit

-- An entry that is on no list passes the assertion of `list_add`.
is_linked-eq-false :
    (size p : ℕ) (table : ℕ → List ℕ)
    → ((k : ℕ) → mem p (table k) ≡ false)
    → is_linked size p table ≡ false
unfolding is_linked
is_linked-eq-false zero p table h = refl
is_linked-eq-false (suc size) p table h = ground (arith, h size, is_linked-eq-false size p table h)

module _ ⦃jhash : Jhash⦄ where
  abbrev pub ip_home : NeighborEntry → ℕ
  ip_home n = hash_neighbor n.family n.ip_addr

  abbrev pub on_mac_list : Option NeighborEntry → ℕ → Bool
  on_mac_list none k = false
  on_mac_list (some n) k = nud_valid n.state && hash_mac n.mac_addr == k

  -- Each entry is on the list of its address; on the list of its MAC address exactly when its state
  -- is a valid one; on the list of solicitations exactly when its flag says so. Nothing else is on
  -- a list.
  pub record IsValid (t : Neighs) : Type 0 where
    pub placed : IsPlaced ip_home t.entries t.table
    pub macs : (p k : ℕ) → mem p (t.by_mac k) ≡ on_mac_list (t.entries p) k
    pub macs_distinct : (k : ℕ) → Distinct (t.by_mac k)
    pub states : (p : ℕ) → mem p t.by_state ≡ wants_solicit (t.entries p)
    pub states_distinct : Distinct t.by_state

  -- The same, but that the entry at `p` is on the list of the MAC bucket `key` if `linked` says so.
  pub record IsMid (p : ℕ) (linked : Bool) (key : ℕ) (t : Neighs) : Type 0 where
    pub placed : IsPlaced ip_home t.entries t.table
    pub macs :
        (q k : ℕ)
        → mem q (t.by_mac k) ≡ (if q == p then linked && key == k else on_mac_list (t.entries q) k)
    pub macs_distinct : (k : ℕ) → Distinct (t.by_mac k)
    pub states : (q : ℕ) → mem q t.by_state ≡ wants_solicit (t.entries q)
    pub states_distinct : Distinct t.by_state

  pub IsMid-of_IsValid :
      (t : Neighs) (p : ℕ) (n : NeighborEntry)
      → t.entries p ≡ some n
      → IsValid t
      → IsMid p (nud_valid n.state) (hash_mac n.mac_addr) t
  IsMid-of_IsValid t p n here v = record {
    placed = v.placed;
    macs = λ q k. ground (arith, v.macs q k, here);
    macs_distinct = v.macs_distinct;
    states = v.states;
    states_distinct = v.states_distinct;
  }

  pub IsValid-of_IsMid :
      (t : Neighs) (p : ℕ) (n : NeighborEntry) (linked : Bool) (key : ℕ)
      → t.entries p ≡ some n
      → ((k : ℕ) → (linked && key == k) ≡ on_mac_list (some n) k)
      → IsMid p linked key t
      → IsValid t
  IsValid-of_IsMid t p n linked key here same v = record {
    placed = v.placed;
    macs = λ q k. ground (arith, v.macs q k, here, same k);
    macs_distinct = v.macs_distinct;
    states = v.states;
    states_distinct = v.states_distinct;
  }

  -- A write to the entry that keeps its address and its flag.
  pub store-IsMid :
      (t : Neighs) (p : ℕ) (n n' : NeighborEntry) (linked : Bool) (key : ℕ)
      → t.entries p ≡ some n
      → ip_home n' ≡ ip_home n
      → n'.needs_solicit ≡ n.needs_solicit
      → IsMid p linked key t
      → IsMid p linked key (store p n' t)
  store-IsMid t p n n' linked key here home flag v = record {
    placed = modify-IsPlaced ip_home t.entries t.table p n n' here home v.placed;
    macs = λ q k. ground (arith, v.macs q k);
    macs_distinct = v.macs_distinct;
    states = λ q. ground (arith, v.states q, here, flag);
    states_distinct = v.states_distinct;
  }

  -- The entry leaves or joins the list of its MAC address.
  pub unlink_mac-IsMid :
      (t : Neighs) (p : ℕ) (linked : Bool) (key key' : ℕ)
      → IsMid p linked key t
      → IsMid p false key' (record t { by_mac = unlink p t.by_mac })
  unlink_mac-IsMid t p linked key key' v = record {
    placed = v.placed;
    macs = λ q k. ground (arith, v.macs q k, mem-erase q p (t.by_mac k) (v.macs_distinct k));
    macs_distinct = λ k. Distinct-erase p (t.by_mac k) (v.macs_distinct k);
    states = v.states;
    states_distinct = v.states_distinct;
  }

  not_linked : (t : Neighs) (p key : ℕ) → IsMid p false key t → (k : ℕ) → mem p (t.by_mac k) ≡ false
  not_linked t p key v k = ground (arith, v.macs p k)

  pub link_mac-IsMid :
      (t : Neighs) (p key key' : ℕ)
      → IsMid p false key t
      → IsMid p true key' (record t { by_mac = link key' p t.by_mac })
  link_mac-IsMid t p key key' v = record {
    placed = v.placed;
    macs = λ q k. ground (arith, v.macs q k);
    macs_distinct =
        λ k. ground (arith, v.macs_distinct k, mem-NotIn p (t.by_mac k), not_linked t p key v k);
    states = v.states;
    states_distinct = v.states_distinct;
  }

  pub add_by_mac_runs :
      (t : Neighs) (p key key' : ℕ)
      → IsMid p false key t
      → add_by_mac key' p t ≡ done (record t { by_mac = link key' p t.by_mac })
  unfolding add_by_mac
  add_by_mac_runs t p key key' v =
      rw (is_linked-eq-false neighbor_hash_table_size p t.by_mac (not_linked t p key v))
