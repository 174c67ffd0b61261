-- ===== src/Sockets/Updated.antt =====
-- src/module_socket.c, `socket_update`: what it leaves of the sockets and of the tables of routes.
use cmm.Prelude.{
  ℕ, ◌%◌, ◌^◌, ◌≡◌, refl, sym, ap, ◌∙◌, Bool, true, false, some, List, ◌∷◌, arith, ◌==◌,
  if◌then◌else◌,
}
use mathlib.Core.Path.{subst}
use cmm.Prelude.Run.{done, ◌>>=◌, Returns}
use cmm.Net.{Jhash}
use cmm.Engine.{action_register, action_update, FastPath}
use cmm.Engine.InStep.{IsFaithful}
use cmm.Holding.Register.{CtRoute, no_ct_route, Tables, LetGo}
use cmm.Registering.{Answers}
use cmm.Registering.Covers.{Covers}
use cmm.Registering.Taken.{Fits}
use cmm.Sockets.{Socket, Sockets, socket_find}
use cmm.Sockets.Command.{SocketCmd}
use cmm.Sockets.Told.{Told}
use cmm.Sockets.Open.{
  SocketUpdateCmd, source_changes, with_source, updated_socket, change_at, family_checked,
  socket_update, set_socket, open_socket,
}
use cmm.Sockets.Sent.{IsSeparate, with_flags}
use cmm.Sockets.Routed.{Agrees}
use cmm.Sockets.Valid.{IsIndexed, set_socket-IsIndexed, socket_find_here}
use cmm.Sockets.Reopened.{reopen-Reopens}

updated_id : (cmd : SocketUpdateCmd) (s : Socket) → (updated_socket cmd s).id ≡ s.id
unfolding updated_socket with_source
updated_id cmd s = go (source_changes cmd s)
  where
    go : (b : Bool) → (with_source b cmd s).id ≡ s.id
    go false = refl
    go true = refl

updated_stale : (cmd : SocketUpdateCmd) (s : Socket) → (updated_socket cmd s).needs_update ≡ true
unfolding updated_socket
updated_stale cmd s = refl

updated_programmed :
    (cmd : SocketUpdateCmd) (s : Socket) → (updated_socket cmd s).programmed ≡ s.programmed
unfolding updated_socket with_source
updated_programmed cmd s = go (source_changes cmd s)
  where
    go : (b : Bool) → (with_source b cmd s).programmed ≡ s.programmed
    go false = refl
    go true = refl

module _ ⦃fast_path : FastPath⦄ ⦃jhash : Jhash⦄ (holds : fast_path.State → ℕ → Bool)
    (socket_write : SocketCmd → fast_path.State → fast_path.State × ℕ) (k : Answers)
    (rts : List CtRoute) (w : IsFaithful holds) (sep : IsSeparate holds socket_write) where
  -- The socket with the new values and the routes that it has taken; `reopened` is what `__socket_open` gave,
  -- before the old routes are let go of.
  pub record Changes (cmd : SocketUpdateCmd) (p : ℕ) (s : Socket) (t : Sockets) (ts : Tables)
      (res : Sockets × Tables × ℕ) : Type 0 where
    pub rt : CtRoute
    pub id : ℕ
    pub programmed : Bool
    pub needs_update : Bool
    pub entries :
        res.0
        ≡ set_socket p
            (record (with_flags (updated_socket cmd s) programmed needs_update) {
              rt = rt;
              fpp_route_id = id;
            })
            t
    pub indexed : IsIndexed res.0
    pub covers : Covers holds (rt ∷ rts) res.1
    pub fulfilled : res.2 ≡ 0 → (programmed ≡ true) × (needs_update ≡ false)
    pub reopened : Socket × Tables × ℕ
    pub opened :
        (res.0.entries p ≡ some reopened.0)
        × (open_socket socket_write k (updated_socket cmd s) ts ≡ done reopened)
        × (res.2 ≡ reopened.2 % 2 ^ 16)
    pub told :
        res.2 ≡ 0
        → Told socket_write
            (if s.programmed then action_update else action_register)
            reopened.0
            reopened.1.fast
    pub agrees : Agrees reopened.0 reopened.1.fpp
    pub same : source_changes cmd s ≡ false → res.1 ≡ reopened.1
    pub lets_go : source_changes cmd s ≡ true → LetGo holds reopened.1 s.rt (no_ct_route, res.1)

  updated_rt :
      (cmd : SocketUpdateCmd) (s : Socket)
      → (updated_socket cmd s).rt ≡ (if source_changes cmd s then no_ct_route else s.rt)
  unfolding updated_socket with_source
  updated_rt cmd s = go (source_changes cmd s)
    where
      go : (b : Bool) → (with_source b cmd s).rt ≡ (if b then no_ct_route else s.rt)
      go false = refl
      go true = refl

  change_at-Changes :
      (cmd : SocketUpdateCmd) (p : ℕ) (s : Socket) (t : Sockets) (ts : Tables)
      → t.entries p ≡ some s
      → IsIndexed t
      → Fits k ts
      → Covers holds (s.rt ∷ rts) ts
      → Returns (change_at socket_write k cmd p t ts) (Changes cmd p s t ts)
  unfolding change_at
  change_at-Changes cmd p s t ts here v fits c =
      let a = updated_socket cmd s in
      let (res, run, d) =
        reopen-Reopens holds socket_write k rts w sep (source_changes cmd s) s.rt a ts
          (updated_rt cmd s) (updated_stale cmd s) fits c in
      (
        (set_socket p res.0 t, res.1, res.2),
        rw (here, ◌>>=◌) (rw (run, ◌>>=◌) refl),
        record {
          rt = d.rt;
          id = d.id;
          programmed = d.programmed;
          needs_update = d.needs_update;
          entries = ap (λ x. set_socket p x t) d.socket;
          indexed =
              set_socket-IsIndexed p s res.0 t here
                (ap (λ (x : Socket). x.id) d.socket ∙ updated_id cmd s) v;
          covers = d.covers;
          fulfilled = d.fulfilled;
          reopened = d.reopened;
          opened = (rw d.same_socket (ground arith), d.run, d.code);
          told = λ ok.
              subst
                (λ on.
                  Told socket_write (if on then action_update else action_register) d.reopened.0
                    d.reopened.1.fast)
                (updated_programmed cmd s) (d.told ok);
          agrees = d.agrees;
          same = d.same;
          lets_go = d.lets_go;
        },
      )

  pub socket_update-Changes :
      (cmd : SocketUpdateCmd) (p : ℕ) (s : Socket) (t : Sockets) (ts : Tables)
      → t.entries p ≡ some s
      → s.id ≡ cmd.id
      → s.family ≡ cmd.family
      → IsIndexed t
      → Fits k ts
      → Covers holds (s.rt ∷ rts) ts
      → Returns (socket_update socket_write k cmd t ts) (Changes cmd p s t ts)
  unfolding socket_update family_checked
  socket_update-Changes cmd p s t ts here same family v fits c =
      let (res, run, d) = change_at-Changes cmd p s t ts here v fits c in
      let at : socket_find cmd.id t ≡ done (some p) =
        rw (sym same) (socket_find_here p s t v here) in
      let same_family : (s.family == cmd.family) ≡ true = ground (arith, family) in
      (res, rw (at, ◌>>=◌) (rw (here, ◌>>=◌) (rw same_family run)), d)
