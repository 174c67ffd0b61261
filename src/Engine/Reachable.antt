-- ===== src/Engine/Reachable.antt =====
-- src/route_cache.c, src/forward_engine.c and src/conntrack.c: the calls that holders of fast-path
-- routes make, in any order.
use cmm.Prelude.{
  ℕ, ◌<◌, ◌≡◌, sym, Bool, false, Option, none, some, arith, ◌==◌, Bool-cases, inl, inr,
}
use mathlib.Core.Path.{subst}
use cmm.Prelude.Run.{done, Returns-done}
use cmm.Net.{Jhash}
use cmm.RouteIds.{route_max_id, test_id}
use cmm.Fpp.{FppRt, FppArgs, FppTable, empty, new_route, fpp_route_get}
use cmm.Fpp.Key.{IsArgs}
use cmm.Fpp.Valid.{IsValid, empty-IsValid}
use cmm.Fpp.Get.{held, Shares, Creates, Gets, fpp_route_get-Gets}
use cmm.Engine.{Request, FastPath, fe_route_update, fpp_route_deregister}
use cmm.Engine.InStep.{IsFaithful, IsInStep}
use cmm.Engine.Update.{Updates, fe_route_update-Updates}
use cmm.Engine.Deregister.{Deregisters, fpp_route_deregister-Deregisters, free_id}

module _ ⦃jhash : Jhash⦄ ⦃fast_path : FastPath⦄ (holds : fast_path.State → ℕ → Bool) where
  Shares-IsInStep :
      (t t' : FppTable) (a : FppArgs) (p : ℕ) (r : FppRt) (s : fast_path.State)
      → Shares t a p r t'
      → IsInStep holds t s
      → IsInStep holds t' s
  Shares-IsInStep t t' a p r s w i = record {
    programmed = λ q r' h. elim (Bool-cases (q == p)) [
      | inl same ↦ ground (arith, w.route, i.programmed p r w.was)
      | inr other ↦ ground (arith, w.others q, i.programmed q r')
    ];
    owned = λ j h.
        let (q, r', at, e) = i.owned j h in
        elim (Bool-cases (q == p)) [
          | inl same ↦ (p, held r, w.route, ground (arith, w.was))
          | inr other ↦ (q, r', ground (arith, w.others q), e)
        ];
  }

  Creates-IsInStep :
      (t t' : FppTable) (a : FppArgs) (p id : ℕ) (s : fast_path.State)
      → Creates t a p id t'
      → IsValid t
      → IsInStep holds t s
      → IsInStep holds t' s
  unfolding new_route
  Creates-IsInStep t t' a p id s w v i = record {
    programmed = λ q r' h. elim (Bool-cases (q == p)) [
      | inl same ↦ ground (arith, w.route, free_id holds t s id v i w.was_free)
      | inr other ↦ ground (arith, w.others q, i.programmed q r')
    ];
    owned = λ j h.
        let (q, r', at, e) = i.owned j h in
        elim (Bool-cases (q == p)) [
          | inl same ↦ absurd (ground (arith, w.was))
          | inr other ↦ (q, r', ground (arith, w.others q), e)
        ];
  }

  -- The states that the calls lead to, from no route and a fast path that holds none. A call of
  -- `__cmmFPPRouteGet` is made while an identifier is left, and a route is deregistered by a holder.
  pub data Reachable : FppTable → fast_path.State → Type 0 where
    start : (s : fast_path.State) → ((j : ℕ) → holds s j ≡ false) → Reachable empty s
    get :
        (t t' : FppTable) (s : fast_path.State) (memory result : Option ℕ) (a : FppArgs) (j : ℕ)
        → Reachable t s
        → IsArgs a
        → ((p : ℕ) → memory ≡ some p → t.routes p ≡ none)
        → 0 < j
        → j < route_max_id
        → test_id t.ids j ≡ false
        → fpp_route_get memory a t ≡ done (result, t')
        → Reachable t' s
    command :
        (request : Request) (t t' : FppTable) (s s' : fast_path.State) (p : ℕ) (r : FppRt)
        (ok : Bool)
        → Reachable t s
        → t.routes p ≡ some r
        → fe_route_update request p t s ≡ done (t', s', ok)
        → Reachable t' s'
    deregister :
        (t t' : FppTable) (s s' : fast_path.State) (p : ℕ) (r : FppRt)
        → Reachable t s
        → t.routes p ≡ some r
        → 0 < r.count
        → fpp_route_deregister p t s ≡ done (t', s')
        → Reachable t' s'

  pub get-IsInStep :
      (t : FppTable) (s : fast_path.State) (memory : Option ℕ) (a : FppArgs)
      (res : Option ℕ × FppTable)
      → IsValid t
      → IsInStep holds t s
      → Gets t memory a res
      → IsValid res.1 × IsInStep holds res.1 s
  get-IsInStep t s memory a res v i (v', inl (p, r, _, w)) =
      (v', Shares-IsInStep t res.1 a p r s w i)
  get-IsInStep t s memory a res v i (v', inr (inl (p, id, _, _, w))) =
      (v', Creates-IsInStep t res.1 a p id s w v i)
  get-IsInStep t s memory a res v i (v', inr (inr (_, same, _))) =
      (v', subst (λ x. IsInStep holds x.1 s) (sym same) i)

  -- In every state that can be reached the table is valid, and the fast path holds exactly the
  -- routes that are flagged as programmed, so long as it keeps to its protocol.
  pub Reachable-IsInStep :
      (t : FppTable) (s : fast_path.State)
      → IsFaithful holds
      → Reachable t s
      → IsValid t × IsInStep holds t s
  Reachable-IsInStep _ _ w (start s nothing) =
      (empty-IsValid, record { programmed = λ p r h. cc; owned = λ j h. ground (arith, nothing j) })
  Reachable-IsInStep _ _ w (get t t' s memory result a j before args fresh lo hi free run) =
      let (v, i) = Reachable-IsInStep t s w before in
      let got = fpp_route_get-Gets t memory a j v args fresh lo hi free in
      get-IsInStep t s memory a (result, t') v i (Returns-done (Gets t memory a) run got)
  Reachable-IsInStep _ _ w (command request t t' s s' p r ok before here run) =
      let (v, i) = Reachable-IsInStep t s w before in
      let u =
        Returns-done (Updates holds request p r t) run
          (fe_route_update-Updates holds request t p r s w v i here) in
      (u.valid, u.in_step)
  Reachable-IsInStep _ _ w (deregister t t' s s' p r before here some_holder run) =
      let (v, i) = Reachable-IsInStep t s w before in
      let d =
        Returns-done (Deregisters holds p r t) run
          (fpp_route_deregister-Deregisters holds t p r s w v i here some_holder) in
      (d.valid, d.in_step)
