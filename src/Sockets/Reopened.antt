-- ===== src/Sockets/Reopened.antt =====
-- src/module_socket.c, the end of `socket_update`: the socket is opened again and lets go of its old routes.
use cmm.Prelude.{
  ℕ, ◌%◌, ◌^◌, ◌≡◌, refl, sym, ap, ◌∙◌, Bool, true, false, List, ◌∷◌, Bool-cases, inl, inr,
  if◌then◌else◌,
}
use cmm.Prelude.Run.{done, ◌>>=◌, Returns}
use cmm.Net.{Jhash}
use cmm.Engine.{action_register, action_update, FastPath}
use mathlib.Core.Path.{subst}
use cmm.Engine.InStep.{IsFaithful}
use cmm.Holding.Register.{CtRoute, no_ct_route, Tables, LetGo}
use cmm.Holding.Teardown.{deregister-Clears}
use cmm.Registering.{Answers}
use cmm.Registering.Covers.{Covers}
use cmm.Registering.Taken.{Fits}
use cmm.Sockets.{Socket}
use cmm.Sockets.Command.{SocketCmd, socket_action}
use cmm.Sockets.Told.{Told}
use cmm.Sockets.Open.{drop_route, reopen, open_socket}
use cmm.Sockets.Sent.{IsSeparate, with_flags}
use cmm.Sockets.Routed.{blank-Covers, swap-Covers, Agrees}
use cmm.Sockets.Opened.{Opens, open_socket-Opens}

module _ ⦃fast_path : FastPath⦄ ⦃jhash : Jhash⦄ (holds : fast_path.State → ℕ → Bool)
    (socket_write : SocketCmd → fast_path.State → fast_path.State × ℕ) (k : Answers)
    (rts : List CtRoute) (w : IsFaithful holds) (sep : IsSeparate holds socket_write) where
  -- After the opening, the old routes are let go of if the source has changed.
  pub record Reopens (changed : Bool) (old : CtRoute) (a : Socket) (ts : Tables)
      (res : Socket × Tables × ℕ) : Type 0 where
    pub rt : CtRoute
    pub id : ℕ
    pub programmed : Bool
    pub needs_update : Bool
    pub socket :
        res.0 ≡ record (with_flags a programmed needs_update) { rt = rt; fpp_route_id = id }
    pub covers : Covers holds (rt ∷ rts) res.1
    pub fulfilled : res.2 ≡ 0 → (programmed ≡ true) × (needs_update ≡ false)
    pub reopened : Socket × Tables × ℕ
    pub same_socket : res.0 ≡ reopened.0
    pub run : open_socket socket_write k a ts ≡ done reopened
    pub code : res.2 ≡ reopened.2 % 2 ^ 16
    pub told :
        res.2 ≡ 0
        → Told socket_write
            (if a.programmed then action_update else action_register)
            reopened.0
            reopened.1.fast
    pub agrees : Agrees reopened.0 reopened.1.fpp
    pub same : changed ≡ false → res.1 ≡ reopened.1
    pub lets_go : changed ≡ true → LetGo holds reopened.1 old (no_ct_route, res.1)

  -- A socket that needs an update has a command sent.
  Opens-Told :
      (rts' : List CtRoute) (a : Socket) (res : Socket × Tables × ℕ)
      (d : Opens holds socket_write k rts' w sep a res)
      → a.needs_update ≡ true
      → res.2 % 2 ^ 16 ≡ 0
      → Told socket_write (if a.programmed then action_update else action_register) res.0 res.1.fast
  unfolding socket_action
  Opens-Told rts' a res d stale low = elim (Bool-cases a.programmed) [
    | inl on ↦ rw on (d.updates (rw (on, stale) refl) (d.code low))
    | inr off ↦ rw off (d.registers (rw off refl) (d.code low))
  ]

  Opens-flags :
      (rts' : List CtRoute) (a : Socket) (res : Socket × Tables × ℕ)
      (d : Opens holds socket_write k rts' w sep a res)
      → res.2 % 2 ^ 16 ≡ 0
      → (d.programmed ≡ true) × (d.needs_update ≡ false)
  Opens-flags rts' a res d low =
      let (on, off) = d.fulfilled (d.code low) in
      (
        sym (ap (λ (x : Socket). x.programmed) d.socket) ∙ on,
        sym (ap (λ (x : Socket). x.needs_update) d.socket) ∙ off,
      )

  pub reopen-Reopens :
      (changed : Bool) (old : CtRoute) (a : Socket) (ts : Tables)
      → a.rt ≡ (if changed then no_ct_route else old)
      → a.needs_update ≡ true
      → Fits k ts
      → Covers holds (old ∷ rts) ts
      → Returns (reopen socket_write k changed old a ts) (Reopens changed old a ts)
  unfolding reopen drop_route
  reopen-Reopens false old a ts e stale fits c =
      let (res, run, d) = open_socket-Opens holds socket_write k rts w sep a ts fits (rw e c) in
      (
        (res.0, res.1, res.2 % 2 ^ 16),
        rw (run, ◌>>=◌) refl,
        record {
          rt = d.rt;
          id = d.id;
          programmed = d.programmed;
          needs_update = d.needs_update;
          socket = d.socket;
          covers = d.covers;
          fulfilled = Opens-flags rts a res d;
          reopened = res;
          same_socket = refl;
          run = run;
          code = refl;
          told = Opens-Told rts a res d stale;
          agrees = d.agrees;
          same = λ e'. refl;
          lets_go = λ e'. absurd (cc);
        },
      )
  reopen-Reopens true old a ts e stale fits c =
      let (res, run, d) =
        open_socket-Opens holds socket_write k (old ∷ rts) w sep a ts fits
          (rw e (blank-Covers holds (old ∷ rts) ts c)) in
      let c' = swap-Covers holds rts d.rt old res.1 d.covers in
      let (out, run', h) = deregister-Clears holds w res.1 old (d.rt ∷ rts) c'.valid c'.held in
      (
        (res.0, out.1, res.2 % 2 ^ 16),
        rw (run, ◌>>=◌) (rw (run', ◌>>=◌) refl),
        record {
          rt = d.rt;
          id = d.id;
          programmed = d.programmed;
          needs_update = d.needs_update;
          socket = d.socket;
          covers = record { valid = h.leaves.valid; held = h.leaves.held };
          fulfilled = Opens-flags (old ∷ rts) a res d;
          reopened = res;
          same_socket = refl;
          run = run;
          code = refl;
          told = Opens-Told (old ∷ rts) a res d stale;
          agrees = d.agrees;
          same = λ e'. absurd (cc);
          lets_go = λ e'. subst (λ x. LetGo holds res.1 old (x, out.1)) h.empty h.lets_go;
        },
      )
