-- ===== src/Conntrack/Valid.antt =====
-- src/conntrack.c: the invariant of the table of connections.
use cmm.Prelude.{
  ℕ, ◌+◌, ◌-◌, ◌≡◌, Bool, true, false, Option, none, some, List, ◌∷◌, arith, length, mem, mem-NotIn,
  mem-erase, Distinct, Distinct-erase, erase, length-erase, update,
}
use cmm.Net.{Jhash}
use cmm.Table.{unlink}
use cmm.Table.Placed.{IsPlaced, insert-IsPlaced, remove-IsPlaced}
use cmm.Conntrack.{
  CtTable, Conntracks, orig_home, rep_home, orig_route_home, rep_route_home, enlist, delist,
}

abbrev pub is_some : Option CtTable → Bool
is_some none = false
is_some (some e) = true

-- The entries on the heap, each named once.
pub record Counts (entries : ℕ → Option CtTable) (n : ℕ) : Type 0 where
  pub live : List ℕ
  pub distinct : Distinct live
  pub many : length live ≡ n
  pub named : (p : ℕ) → mem p live ≡ is_some (entries p)

-- Lists that name each entry at most once, and nothing else.
pub record Threads (entries : ℕ → Option CtTable) (table : ℕ → List ℕ) : Type 0 where
  pub once : (key : ℕ) → Distinct (table key)
  pub alive : (p key : ℕ) → mem p (table key) ≡ true → is_some (entries p) ≡ true

enter-Counts :
    (entries : ℕ → Option CtTable) (n p : ℕ) (e : CtTable)
    → entries p ≡ none
    → Counts entries n
    → Counts (update entries p (some e)) (n + 1)
enter-Counts entries n p e fresh c = record {
  live = p ∷ c.live;
  distinct = (mem-NotIn p c.live (ground (arith, c.named p, fresh)), c.distinct);
  many = omega (arith, c.many);
  named = λ q. ground (arith, c.named q);
}

leave-Counts :
    (entries : ℕ → Option CtTable) (n p : ℕ) (e : CtTable)
    → entries p ≡ some e
    → Counts entries n
    → Counts (update entries p none) (n - 1)
leave-Counts entries n p e here c = record {
  live = erase p c.live;
  distinct = Distinct-erase p c.live c.distinct;
  many = omega (arith, c.many, length-erase p c.live (ground (arith, c.named p, here)));
  named = λ q. ground (arith, c.named q, mem-erase q p c.live c.distinct);
}

enter-Threads :
    (entries : ℕ → Option CtTable) (table : ℕ → List ℕ) (p : ℕ) (e : CtTable)
    → Threads entries table
    → Threads (update entries p (some e)) table
enter-Threads entries table p e t = record {
  once = t.once;
  alive = λ q key m. ground (arith, t.alive q key m);
}

leave-Threads :
    (entries : ℕ → Option CtTable) (table : ℕ → List ℕ) (p : ℕ)
    → Threads entries table
    → Threads (update entries p none) (unlink p table)
leave-Threads entries table p t = record {
  once = λ key. Distinct-erase p (table key) (t.once key);
  alive = λ q key m. ground (arith, t.alive q key, mem-erase q p (table key) (t.once key));
}

-- Lists that do not name the entry.
spare-Threads :
    (entries : ℕ → Option CtTable) (table : ℕ → List ℕ) (p : ℕ)
    → ((key : ℕ) → mem p (table key) ≡ false)
    → Threads entries table
    → Threads (update entries p none) table
spare-Threads entries table p off t = record {
  once = t.once;
  alive = λ q key m. ground (arith, t.alive q key m, off key);
}

-- The entry is on no list of a tunnel's route.
abbrev pub OffTunnels : ℕ → Conntracks → Type 0
OffTunnels p t =
    ((key : ℕ) → mem p (t.by_orig_tunnel key) ≡ false)
    × ((key : ℕ) → mem p (t.by_rep_tunnel key) ≡ false)

module _ ⦃jhash : Jhash⦄ where
  -- Each entry is on the four lists of its addresses, and nothing else is; the lists of the security
  -- associations and of the tunnels' routes name entries only; `current` counts the entries.
  pub record IsValid (t : Conntracks) : Type 0 where
    pub placed : IsPlaced orig_home t.entries t.table
    pub placed_rep : IsPlaced rep_home t.entries t.by_rep
    pub placed_orig_route : IsPlaced orig_route_home t.entries t.by_orig_route
    pub placed_rep_route : IsPlaced rep_route_home t.entries t.by_rep_route
    pub by_sa : (i : ℕ) → Threads t.entries (t.by_sa i)
    pub no_sa : Threads t.entries t.no_sa
    pub by_orig_tunnel : Threads t.entries t.by_orig_tunnel
    pub by_rep_tunnel : Threads t.entries t.by_rep_tunnel
    pub family : (p : ℕ) (e : CtTable) → t.entries p ≡ some e → e.family ≡ e.ct.orig_l3proto
    pub counts : Counts t.entries t.current

  pub enlist-IsValid :
      (t : Conntracks) (p : ℕ) (e : CtTable)
      → t.entries p ≡ none
      → e.family ≡ e.ct.orig_l3proto
      → IsValid t
      → IsValid (enlist p e t)
  enlist-IsValid t p e fresh own v = record {
    placed = insert-IsPlaced orig_home t.entries t.table p e fresh v.placed;
    placed_rep = insert-IsPlaced rep_home t.entries t.by_rep p e fresh v.placed_rep;
    placed_orig_route =
        insert-IsPlaced orig_route_home t.entries t.by_orig_route p e fresh v.placed_orig_route;
    placed_rep_route =
        insert-IsPlaced rep_route_home t.entries t.by_rep_route p e fresh v.placed_rep_route;
    by_sa = λ i. enter-Threads t.entries (t.by_sa i) p e (v.by_sa i);
    no_sa = enter-Threads t.entries t.no_sa p e v.no_sa;
    by_orig_tunnel = enter-Threads t.entries t.by_orig_tunnel p e v.by_orig_tunnel;
    by_rep_tunnel = enter-Threads t.entries t.by_rep_tunnel p e v.by_rep_tunnel;
    family = λ q d h. ground (arith, v.family q d, own);
    counts = enter-Counts t.entries t.current p e fresh v.counts;
  }

  pub delist-IsValid :
      (t : Conntracks) (p : ℕ) (e : CtTable)
      → t.entries p ≡ some e
      → OffTunnels p t
      → IsValid t
      → IsValid (delist p t)
  delist-IsValid t p e here off v = record {
    placed = remove-IsPlaced orig_home t.entries t.table p v.placed;
    placed_rep = remove-IsPlaced rep_home t.entries t.by_rep p v.placed_rep;
    placed_orig_route =
        remove-IsPlaced orig_route_home t.entries t.by_orig_route p v.placed_orig_route;
    placed_rep_route = remove-IsPlaced rep_route_home t.entries t.by_rep_route p v.placed_rep_route;
    by_sa = λ i. leave-Threads t.entries (t.by_sa i) p (v.by_sa i);
    no_sa = leave-Threads t.entries t.no_sa p v.no_sa;
    by_orig_tunnel = spare-Threads t.entries t.by_orig_tunnel p off.0 v.by_orig_tunnel;
    by_rep_tunnel = spare-Threads t.entries t.by_rep_tunnel p off.1 v.by_rep_tunnel;
    family = λ q d h. ground (arith, v.family q d);
    counts = leave-Counts t.entries t.current p e here v.counts;
  }
