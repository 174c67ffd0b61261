-- ===== src/Tests/Engine.antt =====
-- A fast path that holds routes by their identifiers, and the table with one route.
use cmm.Prelude.{
  ℕ, ◌%◌, ◌^◌, ◌≡◌, refl, sym, Bool, true, false, some, [], ◌∷◌, arith, ◌==◌, if◌then◌else◌, update,
}
use cmm.Prelude.Run.{Returns}
use cmm.RouteIds.{test_id}
use cmm.Fpp.{empty}
use cmm.Fpp.Valid.{IsValid}
use cmm.Engine.{
  Action, action_register, action_update, action_deregister, FastPath, request_add, fe_route_update,
  fpp_route_deregister,
}
use cmm.Engine.InStep.{held_after, IsFaithful, IsInStep}
use cmm.Engine.Update.{Updates, fe_route_update-Updates}
use cmm.Engine.Deregister.{Deregisters, fpp_route_deregister-Deregisters}
use cmm.Engine.Reachable.{Reachable, start, get, Reachable-IsInStep}
use cmm.Tests.Inputs.{sum_jhash}
use cmm.Tests.Fpp.{
  next_hop, next_hop-IsArgs, got_runs, one_route, route, one_route-IsValid, one_route_at,
  one_route-flags,
}

abbrev answer : Action → ℕ → (ℕ → Bool) → (ℕ → Bool) × ℕ
answer action_register id s = if s id then (s, 200) else (update s id true, 0)
answer action_update id s = if s id then (s, 0) else (s, 201)
answer action_deregister id s = if s id then (update s id false, 0) else (s, 201)

instance abbrev pub id_set : FastPath
id_set = record {
  State = ℕ → Bool;
  cpal_write = λ cmd s. answer cmd.action cmd.id s;
  itf_get_name = λ ifindex. some (ifindex ∷ []);
}

abbrev pub holds : (ℕ → Bool) → ℕ → Bool
holds s j = s j

answer_lem :
    (action : Action) (id : ℕ) (s : ℕ → Bool) (j : ℕ)
    → (answer action id s).0 j
      ≡ (if j == id then held_after action ((answer action id s).1 % 2 ^ 16) (s j) else s j)
answer_lem action_register id s j = ground arith
answer_lem action_update id s j = ground arith
answer_lem action_deregister id s j = ground arith

pub faithful : IsFaithful holds
faithful = record { answers = λ cmd s j. answer_lem cmd.action cmd.id s j }

abbrev pub nothing : ℕ → Bool
nothing j = false

pub one_route-IsInStep : IsInStep holds one_route nothing
one_route-IsInStep = record { programmed = λ p r h. sym (one_route-flags p r h); owned = λ j h. cc }

fpp_route_deregister-Deregisters_example :
    Returns (fpp_route_deregister 100 one_route nothing) (Deregisters holds 100 route one_route)
fpp_route_deregister-Deregisters_example =
    fpp_route_deregister-Deregisters holds one_route 100 route nothing faithful one_route-IsValid
      one_route-IsInStep one_route_at (omega arith)

fe_route_update-Updates_example :
    Returns
      (fe_route_update request_add 100 one_route nothing)
      (Updates holds request_add 100 route one_route)
fe_route_update-Updates_example =
    fe_route_update-Updates holds request_add one_route 100 route nothing faithful one_route-IsValid
      one_route-IsInStep one_route_at

one_route-Reachable : Reachable holds one_route nothing
unfolding test_id
one_route-Reachable =
    get empty one_route nothing (some 100) (some 100) next_hop 5 (start nothing (λ j. refl))
      next_hop-IsArgs (λ p e. refl) (omega arith) (omega arith) refl got_runs

Reachable-IsInStep_example : IsValid one_route × IsInStep holds one_route nothing
Reachable-IsInStep_example = Reachable-IsInStep holds one_route nothing faithful one_route-Reachable
