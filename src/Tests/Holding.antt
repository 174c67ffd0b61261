-- ===== src/Tests/Holding.antt =====
-- A route with one holder and a neighbour.
use cmm.Prelude.{
  List, [], ◌∷◌, ◌==◌, Bool-cases, inl, inr, ◌≡◌, refl, sym, ap, ◌∙◌, true, some, arith,
}
use cmm.Prelude.Run.{Returns}
use cmm.RouteEntry.{RtEntry, fill_route, fall_back_mtu, note_flow}
use cmm.Routes.{Routes, enter}
use cmm.Routes.Valid.{IsValid, enter-IsValid}
use cmm.Holding.Register
use cmm.Holding.Register.{
  CtRoute, no_ct_route, Tables, Holds, LetGo, route_deregister, route_deregister-LetGo,
}
use cmm.Holding.Connection.{Connection, routes_deregister, Held}
use cmm.Holding.Teardown.{TornDown, routes_deregister-TornDown}
use cmm.Tests.Fpp.{one_route, route, one_route-IsValid, one_route_at}
use cmm.Tests.Engine.{id_set, holds, faithful, nothing, one_route-IsInStep}
use cmm.Tests.Inputs.{sum_jhash}
use cmm.Tests.Routes.{entry, no_routes, nothing_cached-IsValid}
use cmm.Tests.Neigh.{peer, neighs, neighs-IsValid}

abbrev pub neighbored : RtEntry
neighbored = record entry { count = 1; neigh_entry = some 500 }

abbrev routes : Routes
routes = enter 60 neighbored no_routes

routes-IsValid : IsValid routes
unfolding note_flow fall_back_mtu fill_route
routes-IsValid = enter-IsValid no_routes 60 neighbored refl refl nothing_cached-IsValid

-- A holder of this route and of a fast-path route.
abbrev pub tables : Tables
tables = record { fpp = one_route; fast = nothing; routes = routes; neighs = neighs 1 true }

abbrev ct_route : CtRoute
ct_route = record { route = some 60; fpp_route = some 100 }

pub tables-IsValid : Register.IsValid holds tables
tables-IsValid = record {
  fpp = one_route-IsValid;
  in_step = one_route-IsInStep;
  routes = routes-IsValid;
  neighs = neighs-IsValid 1 true;
}

-- A connection whose replier has these routes.
abbrev connection : Connection
connection = record {
  routes = record {
    orig = no_ct_route;
    rep = ct_route;
    orig_tunnel = no_ct_route;
    rep_tunnel = no_ct_route;
  };
  by_orig_tunnel = λ key. [];
  by_rep_tunnel = λ key. [];
  tables = tables;
}

abbrev holders : List CtRoute
holders = ct_route ∷ no_ct_route ∷ no_ct_route ∷ no_ct_route ∷ []

connection-Held : Held holds tables holders
connection-Held = record {
  fpp = λ p some_left. elim (Bool-cases (100 == p)) [
    | inl same ↦
        let at : 100 ≡ p = ground arith in
        (route, ap one_route.routes (sym at) ∙ one_route_at, ground arith)
    | inr other ↦ absurd (some_left (rw other refl))
  ];
  route = λ p some_left. elim (Bool-cases (60 == p)) [
    | inl same ↦ (neighbored, ground arith, ground arith)
    | inr other ↦ absurd (some_left (rw other refl))
  ];
  neighbored = record {
    live = 60 ∷ [];
    distinct = (tt, tt);
    named = λ p r here. ground (arith, here);
    alive = λ q some_left. (peer 1 true, ground arith, ground arith);
  };
}

routes_deregister-TornDown_example :
    Returns (routes_deregister 70 connection) (TornDown holds faithful 70 connection [])
routes_deregister-TornDown_example =
    routes_deregister-TornDown holds faithful 70 connection [] tables-IsValid connection-Held
