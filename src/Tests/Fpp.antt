-- ===== src/Tests/Fpp.antt =====
-- The identifiers and the fast-path routes at a table with one route.
use cmm.Prelude.{ℕ, ◌≡◌, refl, true, false, Option, none, some, [], ◌∷◌, arith}
use cmm.Prelude.Run.{Run, done, ◌>>=◌, Returns, result_or, Returns-done}
use cmm.Net.{hash_fpp_rt, mem_eq, mem_copy}
use cmm.Table.{scan}
use cmm.RouteIds.{RouteIds, no_ids, route_max_id, test_id, set_id, new_route_id}
use cmm.RouteIds.Alloc.{Allocates, new_route_id_total, new_route_id_exhausted}
use cmm.Fpp.{
  FppRt, FppArgs, FppTable, empty, fpp_match, fpp_route_find, fpp_route_add, fpp_route_get,
  fpp_route_put, new_route, take_id,
}
use cmm.Fpp.Key.{IsArgs}
use cmm.Fpp.Valid.{IsValid, empty-IsValid}
use cmm.Fpp.Put.{Puts, fpp_route_put-Puts}
use cmm.Fpp.Get.{held, Gets, fpp_route_get-Gets}
use cmm.Fpp.RoundTrip.{AllHeld, SameRoutes, let_go, fpp_route_get-put}
use cmm.Tests.Inputs.{sum_jhash}

new_route_id_total_example :
    (id : ℕ) × (t' : RouteIds) × (new_route_id route_max_id no_ids ≡ some (id, t'))
    × Allocates no_ids id t'
unfolding test_id
new_route_id_total_example =
    new_route_id_total no_ids 5 (omega arith) (omega arith) (omega arith) refl

abbrev all_ids : RouteIds
all_ids = record { route_id = 7; route_ids = λ offset bit. true }

new_route_id_exhausted_example : new_route_id 1000 all_ids ≡ none
unfolding test_id
new_route_id_exhausted_example = new_route_id_exhausted all_ids (λ j lo hi. refl) 1000

abbrev pub next_hop : FppArgs
next_hop = record {
  oifindex = 3;
  iifindex = 2;
  underlying_iifindex = 2;
  dst_mac = 2 ∷ 0 ∷ 0 ∷ 0 ∷ 0 ∷ 9 ∷ [];
  mtu = 1500;
  dst_addr = [];
  dst_addr_len = 0;
}

pub next_hop-IsArgs : IsArgs next_hop
next_hop-IsArgs = omega arith

abbrev pub got : Run (Option ℕ × FppTable)
got = fpp_route_get (some 100) next_hop empty

fpp_route_get-Gets_example : Returns got (Gets empty (some 100) next_hop)
unfolding test_id
fpp_route_get-Gets_example =
    fpp_route_get-Gets empty (some 100) next_hop 5 empty-IsValid next_hop-IsArgs (λ p e. refl)
      (omega arith) (omega arith) refl

abbrev pub one_route : FppTable
one_route = (result_or got (none, empty)).1

abbrev pub route : FppRt
route = held (new_route next_hop 1)

-- What the tests compute with.
program : Unit {0}
unfolding fpp_route_get fpp_route_find fpp_route_add take_id new_route_id set_id test_id scan
    hash_fpp_rt new_route mem_copy fpp_match mem_eq
program = tt

pub got_runs : got ≡ done (some 100, one_route)
unfolding program
got_runs = refl

got-IsValid : Returns got (λ res. IsValid res.1)
unfolding test_id
got-IsValid =
    let (res, run, gets) =
      fpp_route_get-Gets empty (some 100) next_hop 5 empty-IsValid next_hop-IsArgs (λ p e. refl)
        (omega arith) (omega arith) refl in
    (res, run, gets.0)

pub one_route-IsValid : IsValid one_route
one_route-IsValid = Returns-done (λ res. IsValid res.1) got_runs got-IsValid

pub one_route_at : one_route.routes 100 ≡ some route
unfolding program
one_route_at = refl

pub one_route-flags : (p : ℕ) (r : FppRt) → one_route.routes p ≡ some r → r.flags.programmed ≡ false
unfolding program
one_route-flags p r h = ground arith

pub one_route_free : one_route.routes 200 ≡ none
unfolding program
one_route_free = refl

pub one_route_ids : test_id one_route.ids 5 ≡ false
unfolding program
one_route_ids = refl

fpp_route_put-Puts_example : Returns (fpp_route_put 100 one_route) (Puts one_route 100 route)
fpp_route_put-Puts_example = fpp_route_put-Puts one_route 100 route one_route-IsValid one_route_at

one_route-AllHeld : AllHeld one_route
unfolding program
one_route-AllHeld q s h = ground arith

fpp_route_get-put_example :
    Returns
      (fpp_route_get (some 200) (record next_hop { mtu = 1400 }) one_route >>= let_go)
      (λ t'. IsValid t' × SameRoutes one_route t')
unfolding program
fpp_route_get-put_example =
    fpp_route_get-put one_route (some 200) (record next_hop { mtu = 1400 }) 5 one_route-IsValid
      one_route-AllHeld (omega arith) (λ p e. ground arith) (omega arith) (omega arith) refl
