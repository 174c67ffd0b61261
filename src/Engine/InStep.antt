-- ===== src/Engine/InStep.antt =====
-- src/forward_engine.h and src/forward_engine.c: the agreement of the flags of the routes with the
-- routes that the fast path holds.
use cmm.Prelude.{
  ℕ, ◌%◌, ◌^◌, ◌≡◌, ◌≢◌, refl, sym, ◌∙◌, Bool, true, false, ◌&&◌, ◌||◌, none, some, arith, ◌==◌,
  if◌then◌else◌, Bool-cases, Option-cases, ==_refl, inl, inr,
}
use mathlib.Core.Bool.{false≢true}
use cmm.Net.{Jhash}
use cmm.Fpp.{FppFlags, FppRt, FppTable}
use cmm.Fpp.Valid.{IsValid}
use cmm.Engine.{
  Action, action_register, action_update, action_deregister, Request, request_add, request_update,
  request_remove, RtCmd, FastPath, route_command, answered, route_action, send_command, set_flags,
  fpp_err_ok, fpp_err_rt_entry_already_registered, fpp_err_rt_entry_not_found,
}

-- The routes that the fast path holds after it answered a command on the route `id` with `ret`.
abbrev pub held_after : Action → ℕ → Bool → Bool
held_after action_register ret old =
    if ret == fpp_err_ok || ret == fpp_err_rt_entry_already_registered then true else old
held_after action_update ret old = old
held_after action_deregister ret old =
    if ret == fpp_err_ok || ret == fpp_err_rt_entry_not_found then false else old

module _ ⦃fast_path : FastPath⦄ (holds : fast_path.State → ℕ → Bool) where
  -- The fast path registers and deregisters the route of a command, or says that it was registered
  -- or absent already. A command with another return code changes nothing.
  pub record IsFaithful : Type 0 where
    pub answers :
        (cmd : RtCmd) (s : fast_path.State) (j : ℕ)
        → let res = fast_path.cpal_write cmd s in
          holds res.0 j
          ≡ (if j == cmd.id then held_after cmd.action (res.1 % 2 ^ 16) (holds s j) else holds s j)

  -- The fast path holds exactly the routes that are flagged as programmed.
  pub record IsInStep (t : FppTable) (s : fast_path.State) : Type 0 where
    pub programmed : (p : ℕ) (r : FppRt) → t.routes p ≡ some r → holds s r.id ≡ r.flags.programmed
    pub owned :
        (j : ℕ) → holds s j ≡ true → (p : ℕ) × (r : FppRt) × (t.routes p ≡ some r) × (r.id ≡ j)

  -- What the flags say when a call of `cmmFeRouteUpdate` returns 0.
  abbrev pub Done : Request → FppFlags → Type 0
  Done request_add f = (f.programmed ≡ true) × (f.needs_update ≡ false)
  Done request_update f = (f.programmed && f.needs_update) ≡ false
  Done request_remove f = f.programmed ≡ false

  route_command_lem :
      (action : Action) (r : FppRt) (cmd : RtCmd)
      → route_command action r ≡ some cmd
      → (cmd.action ≡ action) × (cmd.id ≡ r.id)
  unfolding route_command
  route_command_lem action_register r cmd e = ground arith
  route_command_lem action_update r cmd e = ground arith
  route_command_lem action_deregister r cmd e = ground arith

  answered_lem :
      (action : Action) (ret : ℕ) (f : FppFlags) (old : Bool)
      → old ≡ f.programmed
      → held_after action ret old ≡ (answered action ret f).0.programmed
  unfolding answered
  answered_lem action_register ret f old e = ground arith
  answered_lem action_update ret f old e = ground arith
  answered_lem action_deregister ret f old e = ground arith

  -- A command for the route `r` leaves its flags in step, and the other routes alone.
  pub send_command_lem :
      (action : Action) (r : FppRt) (s : fast_path.State)
      → IsFaithful
      → holds s r.id ≡ r.flags.programmed
      → (holds (send_command action r s).0 r.id ≡ (send_command action r s).1.programmed)
        × ((j : ℕ) → j ≢ r.id → holds (send_command action r s).0 j ≡ holds s j)
  unfolding send_command
  send_command_lem action r s w e = elim (Option-cases (route_command action r)) [
    | inl none_made ↦ rw (send_command, none_made) (e, λ j ne. refl)
    | inr (cmd, made) ↦
        let (same_action, same_id) = route_command_lem action r cmd made in
        let ret = (fast_path.cpal_write cmd s).1 % 2 ^ 16 in
        let own : holds (fast_path.cpal_write cmd s).0 r.id ≡ held_after action ret (holds s r.id) =
          w.answers cmd s r.id ∙ simp (same_action, same_id, ==_refl r.id) in
        let flags = answered_lem action ret r.flags (holds s r.id) e in
        rw (send_command, made) (own ∙ flags, λ j ne. ground (arith, w.answers cmd s j, same_id))
  ]

  -- Where no command is needed the flags say so already.
  pub quiet_lem :
      (request : Request) (f : FppFlags) → route_action request f ≡ none → Done request f
  unfolding route_action
  quiet_lem request_add f e = ground arith
  quiet_lem request_update f e = ground arith
  quiet_lem request_remove f e = ground arith

  answered-Done :
      (request : Request) (action : Action) (ret : ℕ) (f : FppFlags)
      → route_action request f ≡ some action
      → (answered action ret f).1 ≡ true
      → Done request (answered action ret f).0
  unfolding route_action answered
  answered-Done request_add action_register ret f e ok = ground arith
  answered-Done request_add action_update ret f e ok = ground arith
  answered-Done request_add action_deregister ret f e ok = ground arith
  answered-Done request_update action_register ret f e ok = ground arith
  answered-Done request_update action_update ret f e ok = ground arith
  answered-Done request_update action_deregister ret f e ok = ground arith
  answered-Done request_remove action_register ret f e ok = ground arith
  answered-Done request_remove action_update ret f e ok = ground arith
  answered-Done request_remove action_deregister ret f e ok = ground arith

  pub sent-Done :
      (request : Request) (action : Action) (r : FppRt) (s : fast_path.State)
      → route_action request r.flags ≡ some action
      → (send_command action r s).2 ≡ true
      → Done request (send_command action r s).1
  unfolding send_command
  sent-Done request action r s e ok = elim (Option-cases (route_command action r)) [
    | inl none_made ↦ absurd (false≢true (sym (rw (send_command, none_made) refl) ∙ ok))
    | inr (cmd, made) ↦
        rw (send_command, made)
          (answered-Done request action ((fast_path.cpal_write cmd s).1 % 2 ^ 16) r.flags e
            (rw (send_command, made) at ok))
  ]

  -- The tables after a command for the route `r` at `p`.
  pub set_flags-IsInStep :
      ⦃jhash : Jhash⦄
      → (t : FppTable) (p : ℕ) (r : FppRt) (s s' : fast_path.State) (f : FppFlags)
      → t.routes p ≡ some r
      → holds s' r.id ≡ f.programmed
      → ((j : ℕ) → j ≢ r.id → holds s' j ≡ holds s j)
      → IsValid t
      → IsInStep t s
      → IsInStep (set_flags p r f t) s'
  set_flags-IsInStep t p r s s' f here flag others v i = record {
    programmed = λ q r' h. elim (Bool-cases (q == p)) [
      | inl same ↦ ground (arith, flag)
      | inr other ↦
          let there : t.routes q ≡ some r' = ground arith in
          let ne : r'.id ≢ r.id = λ e. ground (arith, v.unique q p r' r there here e) in
          others r'.id ne ∙ i.programmed q r' there
    ];
    owned = λ j h. elim (Bool-cases (j == r.id)) [
      | inl same ↦ (p, record r { flags = f }, ground arith, ground arith)
      | inr other ↦
          let (q, r', at, e) = i.owned j (ground (arith, others j)) in (q, r', ground arith, e)
    ];
  }
