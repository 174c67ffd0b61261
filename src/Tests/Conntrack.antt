-- ===== src/Tests/Conntrack.antt =====
-- The table of connections with one connection, and the events for it.
use cmm.Prelude.{◌≡◌, ◌↔◌, refl, false, none, some, [], ◌∷◌, arith}
use cmm.Prelude.Run.{done, Returns}
use cmm.Conntrack.{NfConntrack, Conntracks, new_entry, ct_add, ct_remove}
use cmm.Conntrack.Valid.{IsValid}
use cmm.Conntrack.Added.{Adds, new_entry-Holds, ct_add-Adds, Removes, ct_remove-Removes}
use cmm.Conntrack.Find.{ct_find}
use cmm.Conntrack.Found.{IsProper, Finds, ct_find_cases}
use cmm.Conntrack.FromFlow.{FlowKey, turned, ct_find_from_flow}
use cmm.Conntrack.FlowFound
use cmm.Conntrack.BothWays.{ct_find_from_flow-turned}
use cmm.Conntrack.Again.{ct_add-find}
use cmm.Conntrack.Event.{destroyed, check_event}
use cmm.Conntrack.Events.{Agrees, specified, check_event-Agrees}
use cmm.Tests.Inputs.{sum_jhash}

abbrev pub no_conntracks : Conntracks
no_conntracks = record {
  entries = λ p. none;
  table = λ key. [];
  by_rep = λ key. [];
  by_orig_route = λ key. [];
  by_rep_route = λ key. [];
  by_orig_tunnel = λ key. [];
  by_rep_tunnel = λ key. [];
  by_sa = λ i key. [];
  no_sa = λ key. [];
  current = 0;
  max = 1;
}

pub no_conntracks-IsValid : IsValid no_conntracks
no_conntracks-IsValid = record {
  placed = record { placed = λ p key. refl; distinct = λ key. tt };
  placed_rep = record { placed = λ p key. refl; distinct = λ key. tt };
  placed_orig_route = record { placed = λ p key. refl; distinct = λ key. tt };
  placed_rep_route = record { placed = λ p key. refl; distinct = λ key. tt };
  by_sa = λ i. record { once = λ key. tt; alive = λ p key m. cc };
  no_sa = record { once = λ key. tt; alive = λ p key m. cc };
  by_orig_tunnel = record { once = λ key. tt; alive = λ p key m. cc };
  by_rep_tunnel = record { once = λ key. tt; alive = λ p key m. cc };
  family = λ p e h. cc;
  counts = record { live = []; distinct = tt; many = refl; named = λ p. refl };
}

-- A TCP connection behind a translation of its source.
abbrev connection : NfConntrack
connection = record {
  id = 77;
  orig_l3proto = 2;
  repl_l3proto = 2;
  orig_l4proto = 6;
  repl_l4proto = 6;
  orig_src = 10 ∷ [];
  orig_dst = 20 ∷ [];
  repl_src = 20 ∷ [];
  repl_dst = 11 ∷ [];
  orig_port_src = 4000;
  orig_port_dst = 80;
  repl_port_src = 80;
  repl_port_dst = 5000;
  orig_fp_ifindex = 3;
  repl_fp_ifindex = 4;
  orig_fp_mark = 0;
  repl_fp_mark = 0;
}

connection-IsProper : IsProper connection
connection-IsProper = record { l3proto = refl; l4proto = refl }

abbrev one_connection : Conntracks
one_connection = (ct_add (some 50) connection no_conntracks).1

one_connection-IsValid : IsValid one_connection
one_connection-IsValid =
    (ct_add-Adds no_conntracks (some 50) connection no_conntracks-IsValid (λ p e. refl)
      (omega arith)).0

ct_add-Adds_example :
    IsValid one_connection
    × Adds no_conntracks (some 50) connection (ct_add (some 50) connection no_conntracks)
ct_add-Adds_example =
    ct_add-Adds no_conntracks (some 50) connection no_conntracks-IsValid (λ p e. refl) (omega arith)

ct_remove-Removes_example : Returns (ct_remove 50 one_connection) (Removes one_connection 50)
unfolding ct_add
ct_remove-Removes_example =
    ct_remove-Removes one_connection 50 (new_entry connection) one_connection-IsValid refl
      (λ key. refl, λ key. refl)

ct_find_cases_example : Finds connection one_connection
ct_find_cases_example =
    ct_find_cases one_connection connection one_connection-IsValid connection-IsProper

ct_add-find_example : ct_find connection one_connection ≡ done (some 50)
unfolding ct_find cmm.Table.scan
ct_add-find_example =
    ct_add-find no_conntracks 50 connection no_conntracks-IsValid connection-IsProper (omega arith)
      refl (omega arith) refl

-- A packet of the reply.
abbrev reply : FlowKey
reply = record {
  family = 2;
  saddr = 20 ∷ [];
  daddr = 11 ∷ [];
  sport = 80;
  dport = 5000;
  proto = 6;
  local = false;
}

ct_find_from_flow_cases_example : FlowFound.Finds reply one_connection
ct_find_from_flow_cases_example =
    FlowFound.ct_find_from_flow_cases reply one_connection one_connection-IsValid

ct_find_from_flow-turned_example :
    (ct_find_from_flow reply one_connection ≡ done none)
    ↔ (ct_find_from_flow (turned reply) one_connection ≡ done none)
ct_find_from_flow-turned_example =
    ct_find_from_flow-turned reply one_connection one_connection-IsValid

check_event-Agrees_example :
    Agrees
      (check_event destroyed false 77 (some (new_entry connection)))
      (specified destroyed false 77 (some (77 ∷ [])))
check_event-Agrees_example =
    check_event-Agrees destroyed false 77 (some (new_entry connection)) (some (77 ∷ []))
      (omega arith) (new_entry-Holds connection (omega arith))
