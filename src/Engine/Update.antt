-- ===== src/Engine/Update.antt =====
-- src/forward_engine.h, `cmmFeRouteUpdate`: what a call leaves.
use cmm.Prelude.{
  ℕ, ◌≡◌, refl, ◌∙◌, Bool, true, none, some, arith, ◌==◌, if◌then◌else◌, Option-cases, inl, inr,
}
use cmm.Prelude.Run.{done, Returns}
use cmm.Net.{Jhash}
use cmm.Fpp.{FppFlags, FppRt, FppTable}
use cmm.Fpp.Valid.{IsValid, rewrite-IsValid}
use cmm.Engine.{Request, FastPath, route_action, send_command, set_flags, fe_route_update}
use cmm.Engine.InStep.{
  IsFaithful, IsInStep, Done, send_command_lem, quiet_lem, sent-Done, set_flags-IsInStep,
}

module _ ⦃jhash : Jhash⦄ ⦃fast_path : FastPath⦄ (holds : fast_path.State → ℕ → Bool) where
  -- What a call of `cmmFeRouteUpdate` for the route `r` leaves.
  pub record Updates (request : Request) (p : ℕ) (r : FppRt) (t : FppTable)
      (res : FppTable × fast_path.State × Bool) : Type 0 where
    pub flags : FppFlags
    pub routes :
        (q : ℕ)
        → res.0.routes q ≡ (if q == p then some (record r { flags = flags }) else t.routes q)
    pub ids : res.0.ids ≡ t.ids
    pub valid : IsValid res.0
    pub in_step : IsInStep holds res.0 res.1
    pub success : res.2 ≡ true → Done holds request flags

  update_sent :
      (request : Request) (t : FppTable) (p : ℕ) (r : FppRt) (s : fast_path.State)
      → t.routes p ≡ some r
      → fe_route_update request p t s ≡ (elim (route_action request r.flags) [
        | none ↦ done (t, s, true)
        | some action ↦
            let sent = send_command action r s in done (set_flags p r sent.1 t, sent.0, sent.2)
      ])
  unfolding fe_route_update
  update_sent request t p r s here = rw (fe_route_update, here) refl

  -- On a valid table in step with a fast path that keeps to its protocol, cmmFeRouteUpdate of a
  -- route returns, changes at most the flags of that route, and keeps the table valid and in step,
  -- also where the command fails; where it returns 0 the flags are as the request asks: registered
  -- and up to date, not in need of an update, or not registered.
  pub fe_route_update-Updates :
      (request : Request) (t : FppTable) (p : ℕ) (r : FppRt) (s : fast_path.State)
      → IsFaithful holds
      → IsValid t
      → IsInStep holds t s
      → t.routes p ≡ some r
      → Returns (fe_route_update request p t s) (Updates request p r t)
  fe_route_update-Updates request t p r s w v i here =
      elim (Option-cases (route_action request r.flags)) [
        | inl none_needed ↦ (
          (t, s, true),
          update_sent request t p r s here ∙ (rw none_needed refl),
          record {
            flags = r.flags;
            routes = λ q. ground (arith, here);
            ids = refl;
            valid = v;
            in_step = i;
            success = λ ok. quiet_lem holds request r.flags none_needed;
          },
        )
        | inr (action, needed) ↦
            let (own, others) = send_command_lem holds action r s w (i.programmed p r here) in
            let sent = send_command action r s in
            (
              (set_flags p r sent.1 t, sent.0, sent.2),
              update_sent request t p r s here ∙ (rw needed refl),
              record {
                flags = sent.1;
                routes = λ q. refl;
                ids = refl;
                valid = rewrite-IsValid t p r r.count sent.1 here v;
                in_step = set_flags-IsInStep holds t p r s sent.0 sent.1 here own others v i;
                success = sent-Done holds request action r s needed;
              },
            )
      ]
