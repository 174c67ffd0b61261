-- ===== src/Tests/Registering.antt =====
-- A holder of a route of the kernel takes a route of the fast path.
use cmm.Prelude.{sym, [], ◌∷◌, ◌==◌, Bool-cases, inl, inr, refl, none, some, true, false, arith}
use mathlib.Core.Option.{some-injective}
use cmm.Prelude.Run.{Returns}
use cmm.RouteEntry.{Flow, no_flow_flags}
use cmm.Holding.Register.{CtRoute}
use cmm.Registering.{Answers, route_register}
use cmm.Registering.Covers.{Covers}
use cmm.Registering.Taken.{Fits}
use cmm.Registering.Ready.{Registers}
use cmm.Registering.Registered.{route_register-Registers}
use cmm.Tests.Inputs.{sum_jhash}
use cmm.Tests.Fpp.{one_route_free, one_route_ids}
use cmm.Tests.Engine.{id_set, holds}
use cmm.Tests.Routes.{kernel}
use cmm.Tests.Neigh.{peer}
use cmm.Tests.Conntrack.{no_conntracks, no_conntracks-IsValid}
use cmm.Tests.Interfaces.{eth2}
use cmm.Tests.Holding.{tables, tables-IsValid, neighbored}

-- Every interface is programmed.
abbrev pub answers : Answers
answers = record {
  kernel = kernel;
  route_memory = none;
  own = λ family ifindex addr. false;
  dump = none;
  neigh_memory = none;
  fpp_memory = some 200;
  fdb = λ ifindex. [];
  ports = [];
  interfaces = λ key. record eth2 { ifindex = 3; programmed = true } ∷ [];
  conntracks = no_conntracks;
}

abbrev flow : Flow
flow = record {
  family = 2;
  saddr = some (10 ∷ []);
  daddr = 20 ∷ [];
  fwmark = 0;
  iifindex = 0;
  underlying_iif = 0;
  proto = 0;
  flow_flags = no_flow_flags;
}

abbrev pub holder : CtRoute
holder = record { route = some 60; fpp_route = none }

pub answers-Fits : Fits answers tables
answers-Fits = record {
  route_memory = λ p e. absurd (cc);
  neighs = record { dump = λ messages e. absurd (cc); memory = λ p e. absurd (cc) };
  id = 5;
  fpp = record {
    memory = λ p e. rw (sym (some-injective _ _ e), one_route_free) refl;
    positive = omega arith;
    in_range = omega arith;
    free = one_route_ids;
  };
  conntracks = no_conntracks-IsValid;
}

pub holder-Covers : Covers holds (holder ∷ []) tables
holder-Covers = record {
  valid = tables-IsValid;
  held = record {
    fpp = λ p some_left. absurd (some_left refl);
    route = λ p some_left. elim (Bool-cases (60 == p)) [
      | inl same ↦ (neighbored, ground arith, ground arith)
      | inr other ↦ absurd (some_left (rw other refl))
    ];
    neighbored = record {
      live = 60 ∷ [];
      distinct = (tt, tt);
      named = λ p r here. ground (arith, here);
      alive = λ q some_left. (peer 1 true, ground arith, ground arith);
    };
  };
}

route_register-Registers_example :
    Returns (route_register answers holder flow tables) (Registers holds answers [] flow)
route_register-Registers_example =
    route_register-Registers holds answers [] holder flow (10 ∷ []) tables refl answers-Fits
      holder-Covers
