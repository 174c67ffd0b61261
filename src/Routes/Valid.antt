-- ===== src/Routes/Valid.antt =====
-- src/route_cache.c: the invariant of the two indexes of the kernel's routes.
use cmm.Prelude.{ℕ, ◌≡◌, refl, false, none, some, arith, update}
use cmm.Net.{Jhash}
use cmm.Table.{unlink}
use cmm.Table.Placed.{IsPlaced, insert-IsPlaced, remove-IsPlaced, modify-IsPlaced}
use cmm.RouteEntry.{RtEntry}
use cmm.Routes.{Routes, rt_home, gw_home, enter, recount}

module _ ⦃jhash : Jhash⦄ where
  -- Each route is on the list of its addresses and on the list of its gateway, and nothing else is.
  pub record IsValid (t : Routes) : Type 0 where
    pub placed : IsPlaced rt_home t.entries t.table
    pub placed_by_gw : IsPlaced gw_home t.entries t.by_gw
    pub cached : (p : ℕ) (r : RtEntry) → t.entries p ≡ some r → r.rt_policy ≡ false

  pub enter-IsValid :
      (t : Routes) (p : ℕ) (r : RtEntry)
      → t.entries p ≡ none
      → r.rt_policy ≡ false
      → IsValid t
      → IsValid (enter p r t)
  enter-IsValid t p r fresh plain v = record {
    placed = insert-IsPlaced rt_home t.entries t.table p r fresh v.placed;
    placed_by_gw = insert-IsPlaced gw_home t.entries t.by_gw p r fresh v.placed_by_gw;
    cached = λ q s h. ground (arith, v.cached q s);
  }

  pub recount-IsValid :
      (t : Routes) (p : ℕ) (r : RtEntry) (n : ℕ)
      → t.entries p ≡ some r
      → IsValid t
      → IsValid (recount p r n t)
  recount-IsValid t p r n here v = record {
    placed =
        modify-IsPlaced rt_home t.entries t.table p r (record r { count = n }) here refl v.placed;
    placed_by_gw =
        modify-IsPlaced gw_home t.entries t.by_gw p r (record r { count = n }) here refl
          v.placed_by_gw;
    cached = λ q s h. ground (arith, v.cached q s, v.cached p r here);
  }

  -- The tables without the route at an address.
  abbrev pub without : ℕ → Routes → Routes
  without p t = record {
    entries = update t.entries p none;
    table = unlink p t.table;
    by_gw = unlink p t.by_gw;
  }

  pub without-IsValid : (t : Routes) (p : ℕ) → IsValid t → IsValid (without p t)
  without-IsValid t p v = record {
    placed = remove-IsPlaced rt_home t.entries t.table p v.placed;
    placed_by_gw = remove-IsPlaced gw_home t.entries t.by_gw p v.placed_by_gw;
    cached = λ q s h. ground (arith, v.cached q s);
  }
