-- ===== src/Tests/Lists.antt =====
-- list.h at a list of two nodes.
use cmm.Prelude.{ℕ, ◌≡◌, refl, none, some, [], ◌∷◌, ◌==◌, if◌then◌else◌, NotIn, arith}
use cmm.ListHead.{Memory, list_del}
use cmm.ListHead.Segments.{IsRing}
use cmm.ListHead.Laws.{IsUnlinked}
use cmm.ListHead.Deletion.{list_del-IsRing}

-- A head at 1 with the nodes 2 and 3.
abbrev two_nodes : Memory
two_nodes p =
    if p == 1
    then record { prev = some 3; next = some 2 }
    else if p == 2
    then record { prev = some 1; next = some 3 }
    else if p == 3
    then record { prev = some 2; next = some 1 }
    else record { prev = none; next = none }

two_nodes-IsRing : IsRing two_nodes 1 (2 ∷ 3 ∷ [])
two_nodes-IsRing = record {
  linked = (refl, refl, (refl, refl, (refl, refl)));
  distinct = omega arith;
}

list_del-IsRing_example :
    (m' : Memory) × (list_del 2 two_nodes ≡ some m')
    × IsRing m' 1 (3 ∷ [])
    × IsUnlinked m' 2
    × ((q : ℕ) → NotIn q (1 ∷ 2 ∷ 3 ∷ []) → m' q ≡ two_nodes q)
list_del-IsRing_example = list_del-IsRing two_nodes 1 2 [] (3 ∷ []) two_nodes-IsRing
