-- ===== src/Tests/Neigh.antt =====
-- The neighbour tables with one stale neighbour.
use mathlib.Core.Path.{subst}
use mathlib.Core.Option.{some-injective}
use cmm.Prelude.{
  Option, ℕ, ◌≡◌, refl, Bool, true, false, none, some, List, [], ◌∷◌, if◌then◌else◌, update, mem,
  arith,
}
use cmm.Prelude.Run.{Returns}
use cmm.Net.{hash_neighbor, hash_mac, mem_eq}
use cmm.Table.{scan, link}
use cmm.Table.Placed.{IsPlaced, insert-IsPlaced}
use cmm.Neigh.{nud_none, NeighborEntry, Neighs, neigh_find, neigh_match}
use cmm.Neigh.Update.{NeighMessage, newneigh, delneigh, neighbor_update}
use cmm.Neigh.Valid.{IsValid, ip_home}
use cmm.Neigh.Messages.{neighbor_update-IsValid, neighbor_update_dangles}
use cmm.Neigh.Obtain.{neigh_get}
use cmm.Neigh.Listed.{AllProper, Apart, Fresh}
use cmm.Neigh.Obtained.{Gets, neigh_get-Gets}
use cmm.Neigh.GiveUp.{send_rounds, send_rounds_ends}
use cmm.Tests.Inputs.{sum_jhash}

abbrev pub peer : ℕ → Bool → NeighborEntry
peer count flag = record {
  count = count;
  mac_addr = 2 ∷ 0 ∷ 0 ∷ 0 ∷ 0 ∷ 9 ∷ [];
  ip_addr = 77 ∷ 0 ∷ 0 ∷ 0 ∷ [];
  ip_addr_len = 4;
  state = record nud_none { stale = true };
  family = 2;
  ifindex = 3;
  port = none;
  needs_solicit = flag;
  nr_probes = 0;
}

abbrev pub neighs : ℕ → Bool → Neighs
neighs count flag = record {
  entries = update (λ p. none) 500 (some (peer count flag));
  table = link (ip_home (peer count flag)) 500 (λ k. []);
  by_mac = link (hash_mac (peer count flag).mac_addr) 500 (λ k. []);
  by_state = if flag then 500 ∷ [] else [];
}

nothing-IsPlaced : IsPlaced ip_home (λ p. none) (λ k. [])
nothing-IsPlaced = record { placed = λ p k. refl; distinct = λ k. tt }

pub neighs-IsValid : (count : ℕ) (flag : Bool) → IsValid (neighs count flag)
neighs-IsValid count flag = record {
  placed =
      insert-IsPlaced ip_home (λ p. none) (λ k. []) 500 (peer count flag) refl nothing-IsPlaced;
  macs = λ q k. ground arith;
  macs_distinct = λ k. ground arith;
  states = λ q. ground arith;
  states_distinct = ground arith;
}

abbrev gone : NeighMessage
gone = record {
  message_type = delneigh;
  family = 2;
  ifindex = 3;
  state = record nud_none { failed = true };
  dst = some (77 ∷ []);
  lladdr = none;
}

neighbor_update-IsValid_example : Returns (neighbor_update gone (neighs 1 true)) (λ r. IsValid r.0)
neighbor_update-IsValid_example =
    neighbor_update-IsValid (neighs 1 true) gone (neighs-IsValid 1 true)
      (λ dst p n e f h d was. ground arith)

neighbor_update_dangles_example :
    Returns (neighbor_update gone (neighs 0 false)) λ r.
      (r.0.entries 500 ≡ none) × (mem 500 (r.0.by_mac (hash_mac (peer 0 false).mac_addr)) ≡ true)
unfolding neigh_find scan neigh_match mem_eq hash_neighbor
neighbor_update_dangles_example =
    neighbor_update_dangles (neighs 0 false) gone (77 ∷ []) 500 (peer 0 false)
      (neighs-IsValid 0 false) refl refl refl refl refl refl

send_rounds_ends_example :
    Returns (send_rounds 7 (neighs 1 true)) (λ t'. IsValid t' × (t'.by_state ≡ []))
send_rounds_ends_example = send_rounds_ends (neighs 1 true) (neighs-IsValid 1 true)

-- A neighbour of the kernel's dump, with a MAC address.
abbrev known : List ℕ → NeighMessage
known mac = record {
  message_type = newneigh;
  family = 2;
  ifindex = 3;
  state = record nud_none { reachable = true };
  dst = some (88 ∷ []);
  lladdr = some mac;
}

abbrev no_own : ℕ → ℕ → List ℕ → Bool
no_own ifindex family addr = false

-- A dump with the neighbour that is asked for.
abbrev dump : List (Option ℕ × NeighMessage)
dump = (some 501, known (2 ∷ 0 ∷ 0 ∷ 0 ∷ 0 ∷ 8 ∷ [])) ∷ []

dump-IsTold : AllProper dump × Fresh (neighs 1 true) dump × Apart (some 502) dump
dump-IsTold = (
  (record { whole = λ dst e. ground arith; short = omega arith }, tt),
  (λ p e. ground arith, tt, tt),
  (λ p e. ground arith, tt),
)

neigh_get-Gets_example :
    Returns
      (neigh_get no_own (some dump) (some 502) 2 (88 ∷ []) 3 (neighs 1 true))
      (Gets no_own (neighs 1 true) (some dump) (some 502) 2 (88 ∷ []) 3)
neigh_get-Gets_example =
    neigh_get-Gets no_own (neighs 1 true) (some dump) (some 502) 2 (88 ∷ []) 3
      (neighs-IsValid 1 true) (omega arith)
      (λ messages e.
        subst (λ ms. AllProper ms × Fresh (neighs 1 true) ms × Apart (some 502) ms)
          (some-injective _ _ e) dump-IsTold)
      (λ p e. ground arith)
