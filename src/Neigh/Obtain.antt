-- ===== src/Neigh/Obtain.antt =====
-- src/neighbor_resolution.c, lines 103-132 and 623-659, `cmmNeighborNetlinkLookupAll` and
-- `__cmmNeighGet`: the neighbour for an address, from the table, from the kernel's dump or made. The
-- messages of the dump are an argument, each with the address that `malloc` returns for its entry.
use cmm.Prelude.{ℕ, ◌+◌, Bool, Option, none, some, List, [], ◌∷◌}
use cmm.Prelude.Run.{Run, done, ◌>>=◌, deref}
use cmm.Net.{Jhash}
use cmm.Neigh.{Neighs, store, neigh_find, neigh_add}
use cmm.Neigh.Update.{NeighMessage}
use cmm.Neigh.Dump.{lookup_all_filter}

-- `neigh->count++` and the result.
unfoldable pub hold_neigh : Option ℕ × Neighs → Run (Option ℕ × Neighs)
hold_neigh (none, t) = done (none, t)
hold_neigh (some p, t) = do
  n ← deref (t.entries p)
  done (some p, store p (record n { count = n.count + 1 }) t)

module _ ⦃jhash : Jhash⦄ where
  -- The rest after the dump.
  unfoldable pub find_or_add : Option ℕ → ℕ → List ℕ → ℕ → Neighs → Run (Option ℕ × Neighs)
  find_or_add memory family addr ifindex t = do
    found ← neigh_find family addr ifindex t
    elim found [
      | some p ↦ hold_neigh (some p, t)
      | none ↦ hold_neigh (neigh_add memory family addr ifindex t)
    ]

module _ ⦃jhash : Jhash⦄ (own : ℕ → ℕ → List ℕ → Bool) where
  unfoldable pub lookup_all : ℕ → List (Option ℕ × NeighMessage) → Neighs → Run Neighs
  lookup_all ifindex [] t = done t
  lookup_all ifindex ((memory, m) ∷ dump) t =
      lookup_all_filter own ifindex memory m t >>= lookup_all ifindex dump

  -- There is no dump where a netlink call fails.
  unfoldable pub neigh_get :
      Option (List (Option ℕ × NeighMessage))
      → Option ℕ
      → ℕ
      → List ℕ
      → ℕ
      → Neighs
      → Run (Option ℕ × Neighs)
  neigh_get dump memory family addr ifindex t = do
    found ← neigh_find family addr ifindex t
    elim found [
      | some p ↦ hold_neigh (some p, t)
      | none ↦ elim dump [
        | none ↦ done (none, t)
        | some messages ↦ do
          t' ← lookup_all ifindex messages t
          find_or_add memory family addr ifindex t'
      ]
    ]
