-- ===== src/Neigh.antt =====
-- src/neighbor_resolution.c and src/neighbor_resolution.h: the neighbour entries, found by address,
-- by MAC address and by the need of a solicitation. Counts and interface indices do not wrap.
-- `port` is `none` for -1.
pub mod Update
pub mod Solicit
pub mod Preserve
pub mod Messages
pub mod Probes
pub mod GiveUp
pub mod Holders
pub mod Dump
pub mod Learnt
pub mod Obtain
pub mod Listed
pub mod Obtained
pub mod Ports
pub mod AllMacs
pub mod Valid
use cmm.Prelude.{
  ℕ, zero, suc, ◌+◌, ◌-◌, ◌/◌, ◌≡◌, Bool, true, false, not, ◌&&◌, ◌||◌, Option, none, some, List,
  [], ◌∷◌, length, leb, ltb, ◌==◌, if◌then◌else◌, update, erase, mem,
}
use cmm.Prelude.Run.{Run, done, fault, spin, ◌>>=◌, deref}
use cmm.Net.{
  Jhash, ip_addr_len, mem_eq, mem_copy, no_addr, hash_neighbor, hash_mac, neighbor_hash_table_size,
}
use cmm.Table.{scan, link, unlink}

-- The bits of the kernel's NUD_ states.
pub record NudState : Type 0 where
  pub incomplete : Bool
  pub reachable : Bool
  pub stale : Bool
  pub delay : Bool
  pub probe : Bool
  pub failed : Bool
  pub noarp : Bool
  pub permanent : Bool

-- `state & NUD_VALID`
abbrev pub nud_valid : NudState → Bool
nud_valid s = s.permanent || (s.noarp || (s.reachable || (s.probe || (s.stale || s.delay))))

abbrev pub nud_none : NudState
nud_none = record {
  incomplete = false;
  reachable = false;
  stale = false;
  delay = false;
  probe = false;
  failed = false;
  noarp = false;
  permanent = false;
}

-- Of the flags a neighbour uses NEEDS_SOLICIT.
pub record NeighborEntry : Type 0 where
  pub count : ℕ
  pub mac_addr : List ℕ
  pub ip_addr : List ℕ
  pub ip_addr_len : ℕ
  pub state : NudState
  pub family : ℕ
  pub ifindex : ℕ
  pub port : Option ℕ
  pub needs_solicit : Bool
  pub nr_probes : ℕ

-- The entries by address; `neigh_table`, `neigh_table_by_mac` and `neigh_state_table`.
pub record Neighs : Type 0 where
  pub entries : ℕ → Option NeighborEntry
  pub table : ℕ → List ℕ
  pub by_mac : ℕ → List ℕ
  pub by_state : List ℕ

abbrev pub null_mac : List ℕ
null_mac = 0 ∷ 0 ∷ 0 ∷ 0 ∷ 0 ∷ 0 ∷ []

-- A write to the entry at an address.
abbrev pub store : ℕ → NeighborEntry → Neighs → Neighs
store p n t = record t { entries = update t.entries p (some n) }

-- Whether an entry is on one of the first `size` lists.
pub is_linked : ℕ → ℕ → (ℕ → List ℕ) → Bool
is_linked zero p table = false
is_linked (suc size) p table = mem p (table size) || is_linked size p table

-- `list_add` with its assertion, on an index by MAC address and on the list of solicitations.
unfoldable pub add_by_mac : ℕ → ℕ → Neighs → Run Neighs
add_by_mac key p t =
    if is_linked neighbor_hash_table_size p t.by_mac
    then fault
    else done (record t { by_mac = link key p t.by_mac })

unfoldable pub add_by_state : ℕ → Neighs → Run Neighs
add_by_state p t = if mem p t.by_state then fault else done (record t { by_state = p ∷ t.by_state })

-- The test in the loop of `__cmmNeighFind`.
unfoldable pub neigh_match : ℕ → List ℕ → ℕ → NeighborEntry → Bool
neigh_match family addr ifindex n =
    mem_eq (ip_addr_len family / 4) n.ip_addr addr && n.ifindex == ifindex

module _ ⦃jhash : Jhash⦄ where
  unfoldable pub neigh_find : ℕ → List ℕ → ℕ → Neighs → Run (Option ℕ)
  neigh_find family addr ifindex t =
      scan (neigh_match family addr ifindex) t.entries (t.table (hash_neighbor family addr))

unfoldable pub neigh_remove : ℕ → Neighs → Run Neighs
neigh_remove p t = do
  n ← deref (t.entries p)
  done (record {
    entries = update t.entries p none;
    table = unlink p t.table;
    by_mac = if nud_valid n.state then unlink p t.by_mac else t.by_mac;
    by_state = if n.needs_solicit then erase p t.by_state else t.by_state;
  })

unfoldable pub neigh_put : ℕ → Neighs → Run Neighs
neigh_put p t = do
  n ← deref (t.entries p)
  let t' = store p (record n { count = n.count - 1 }) t
  if leb (n.count - 1) 0 then neigh_remove p t' else done t'

-- The entry that `__cmmNeighAdd` fills in.
unfoldable pub new_neigh : ℕ → List ℕ → ℕ → NeighborEntry
new_neigh family addr ifindex = record {
  count = 0;
  mac_addr = null_mac;
  ip_addr = mem_copy (ip_addr_len family / 4) addr no_addr;
  ip_addr_len = ip_addr_len family;
  state = nud_none;
  family = family;
  ifindex = ifindex;
  port = none;
  needs_solicit = false;
  nr_probes = 0;
}

module _ ⦃jhash : Jhash⦄ where
  -- The first argument is the address that `malloc` returns.
  unfoldable pub neigh_add : Option ℕ → ℕ → List ℕ → ℕ → Neighs → Option ℕ × Neighs
  neigh_add none family addr ifindex t = (none, t)
  neigh_add (some p) family addr ifindex t = (
    some p,
    record t {
      entries = update t.entries p (some (new_neigh family addr ifindex));
      table = link (hash_neighbor family addr) p t.table;
    },
  )
