-- ===== src/Sockets/Managed.antt =====
-- src/module_socket.c, `socket_open`: what it leaves of the sockets and of the tables of routes.
use cmm.Prelude.{
  ℕ, ◌%◌, ◌^◌, ◌≡◌, ◌≢◌, refl, sym, ap, ◌∙◌, Bool, true, false, Option, none, some, List, ◌∷◌,
  arith, ◌==◌, Bool-cases, inl, inr, if◌then◌else◌,
}
use cmm.Prelude.Run.{done, ◌>>=◌, Returns}
use cmm.Net.{Jhash}
use cmm.Engine.{action_register, request_add, FastPath}
use cmm.Engine.InStep.{IsFaithful}
use cmm.Holding.Register.{CtRoute, no_ct_route, Tables, LetGo}
use cmm.Registering.{Answers}
use cmm.Registering.Covers.{Covers}
use cmm.Registering.Taken.{Fits}
use cmm.Sockets.{
  Socket, SocketOpenCmd, Sockets, addr_home, new_socket, enlist_socket, socket_find, socket_add,
}
use cmm.Sockets.Command.{SocketCmd, socket_action}
use cmm.Sockets.Told.{Told}
use cmm.Sockets.Open.{open_socket, set_socket, give_up, open_at, socket_open}
use cmm.Sockets.Sent.{IsSeparate, with_flags}
use cmm.Sockets.Routed.{blank-Covers, Agrees}
use cmm.Sockets.Opened.{Opens, open_socket-Opens}
use cmm.Sockets.Closed.{close_at-ClosesAt}
use cmm.Sockets.Valid.{IsValid, set_socket-IsValid, enlist_socket-IsValid, socket_find_cases}

is_new : (cmd : SocketOpenCmd) → socket_action request_add (new_socket cmd) ≡ some action_register
unfolding socket_action
is_new cmd = refl

module _ ⦃fast_path : FastPath⦄ ⦃jhash : Jhash⦄ (holds : fast_path.State → ℕ → Bool)
    (socket_write : SocketCmd → fast_path.State → fast_path.State × ℕ) (k : Answers)
    (rts : List CtRoute) (w : IsFaithful holds) (sep : IsSeparate holds socket_write) where
  -- What an opening leaves: the socket of the command, which the fast path has and whose routes are
  -- counted, or what was there before.
  pub data Outcome (cmd : SocketOpenCmd) (memory : Option ℕ) (t : Sockets) (ts : Tables)
      (res : Sockets × Tables × ℕ) : Type 0 where
    opened :
        (p id : ℕ) (s : Socket)
        → memory ≡ some p
        → res.2 ≡ 0
        → ((q : ℕ) → res.0.entries q ≡ (if q == p then some s else t.entries q))
        → s ≡ record (with_flags (new_socket cmd) true false) { rt = s.rt; fpp_route_id = id }
        → Covers holds (s.rt ∷ rts) res.1
        → Agrees s res.1.fpp
        → Told socket_write action_register s res.1.fast
        → Outcome cmd memory t ts res
    refused :
        (p : ℕ) (tried : Socket × Tables × ℕ)
        → memory ≡ some p
        → res.2 ≢ 0
        → ((q : ℕ) → res.0.entries q ≡ t.entries q)
        → Covers holds rts res.1
        → open_socket socket_write k (new_socket cmd) ts ≡ done tried
        → res.2 ≡ tried.2 % 2 ^ 16
        → LetGo holds tried.1 tried.0.rt (no_ct_route, res.1)
        → Outcome cmd memory t ts res
    no_memory :
        memory ≡ none → res ≡ (t, ts, 0xffff) → Covers holds rts res.1 → Outcome cmd memory t ts res

  fully :
      (a : Socket) (p u : Bool) (s : Socket) (rt : CtRoute) (id : ℕ)
      → s ≡ record (with_flags a p u) { rt = rt; fpp_route_id = id }
      → s.programmed ≡ true
      → s.needs_update ≡ false
      → s ≡ record (with_flags a true false) { rt = s.rt; fpp_route_id = id }
  fully a p u s rt id e on off =
      let on' : p ≡ true = sym (ap (λ (x : Socket). x.programmed) e) ∙ on in
      let off' : u ≡ false = sym (ap (λ (x : Socket). x.needs_update) e) ∙ off in
      let route : s.rt ≡ rt = ap (λ (x : Socket). x.rt) e in e ∙ rw (on', off', route) refl

  Opens-home :
      (s : Socket) (res : Socket × Tables × ℕ)
      → Opens holds socket_write k rts w sep s res
      → (res.0.id ≡ s.id) × (addr_home res.0 ≡ addr_home s)
  Opens-home s res d = rw d.socket (refl, refl)

  module _ (cmd : SocketOpenCmd) (p : ℕ) (t : Sockets) (ts : Tables) where
    abbrev listed : Sockets
    listed = enlist_socket p (new_socket cmd) t

    -- A socket that could not be opened goes.
    gives_up :
        (s : Socket) (rc : ℕ) (ts' : Tables)
        → open_socket socket_write k (new_socket cmd) ts ≡ done (s, ts', rc)
        → t.entries p ≡ none
        → IsValid (set_socket p s listed)
        → s.programmed ≡ false
        → rc % 2 ^ 16 ≢ 0
        → Covers holds (s.rt ∷ rts) ts'
        → Returns
            (give_up socket_write p (rc % 2 ^ 16) (set_socket p s listed) ts')
            (λ res. IsValid res.0 × Outcome cmd (some p) t ts res)
    unfolding give_up
    gives_up s rc ts' tried free v off ne c =
        let (res, run, (d, idle)) =
          close_at-ClosesAt holds socket_write rts w sep p s (set_socket p s listed) ts'
            (ground arith) v c in
        let (gone, c', lets_go) = d.closed (idle off) in
        (
          (res.0, res.1, rc % 2 ^ 16),
          rw (run, ◌>>=◌) refl,
          (
            d.valid,
            refused p (s, ts', rc) refl ne (λ q. ground (arith, gone q, free)) c' tried refl
                lets_go,
          ),
        )

    opens_at :
        t.entries p ≡ none
        → IsValid listed
        → Fits k ts
        → Covers holds rts ts
        → Returns
            (open_at socket_write k p listed ts)
            (λ res. IsValid res.0 × Outcome cmd (some p) t ts res)
    unfolding open_at
    opens_at free v fits c =
        let a : Socket = new_socket cmd in
        let (res, run, d) =
          open_socket-Opens holds socket_write k rts w sep a ts fits
            (blank-Covers holds rts ts c) in
        let (same, home) = Opens-home a res d in
        let here : listed.entries p ≡ some a = ground arith in
        let v' = set_socket-IsValid p a res.0 listed here same home v in
        let route : res.0.rt ≡ d.rt = ap (λ (x : Socket). x.rt) d.socket in
        let c' : Covers holds (res.0.rt ∷ rts) res.1 = rw route d.covers in
        elim (Bool-cases (res.2 % 2 ^ 16 == 0)) [
          | inl ok ↦
              let (on, off) = d.fulfilled (d.code (ground (arith, ok))) in
              (
                (set_socket p res.0 listed, res.1, 0),
                rw (here, ◌>>=◌) (rw (run, ◌>>=◌) (rw ok refl)),
                (
                  v',
                  opened p d.id res.0 refl refl (λ q. ground arith)
                      (fully a d.programmed d.needs_update res.0 d.rt d.id d.socket on off) c'
                      d.agrees (d.registers (is_new cmd) (d.code (ground (arith, ok)))),
                ),
              )
          | inr failed ↦
              let ne : res.2 % 2 ^ 16 ≢ 0 = λ e. ground (arith, failed, e) in
              let off = d.failed (λ e. ne (ap (λ x. x % 2 ^ 16) e)) in
              let (out, runs, h) = gives_up res.0 res.2 res.1 run free v' off ne c' in
              (out, rw (here, ◌>>=◌) (rw (run, ◌>>=◌) (rw failed runs)), h)
        ]

  misses :
      (cmd : SocketOpenCmd) (t : Sockets)
      → ((q : ℕ) (a : Socket) → t.entries q ≡ some a → a.id ≢ cmd.id)
      → IsValid t
      → socket_find cmd.id t ≡ done none
  misses cmd t fresh v = elim (socket_find_cases cmd.id t v.indexed) [
    | inl (missed, all) ↦ missed
    | inr (q, a, found, h, e) ↦ absurd (fresh q a h e)
  ]

  pub socket_open-Outcome :
      (cmd : SocketOpenCmd) (memory : Option ℕ) (t : Sockets) (ts : Tables)
      → ((q : ℕ) (a : Socket) → t.entries q ≡ some a → a.id ≢ cmd.id)
      → ((p : ℕ) → memory ≡ some p → t.entries p ≡ none)
      → IsValid t
      → Fits k ts
      → Covers holds rts ts
      → Returns
          (socket_open socket_write k cmd memory t ts)
          (λ res. IsValid res.0 × Outcome cmd memory t ts res)
  unfolding socket_open socket_add
  socket_open-Outcome cmd none t ts fresh free v fits c =
      ((t, ts, 0xffff), rw (misses cmd t fresh v, ◌>>=◌) refl, (v, no_memory refl refl c))
  socket_open-Outcome cmd (some p) t ts fresh free v fits c =
      let v' = enlist_socket-IsValid p (new_socket cmd) t (free p refl) fresh v in
      let (res, run, d) = opens_at cmd p t ts (free p refl) v' fits c in
      (res, rw (misses cmd t fresh v, ◌>>=◌) run, d)
