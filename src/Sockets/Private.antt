-- ===== src/Sockets/Private.antt =====
-- src/module_socket.c, `socket_daemon`: what a client can do to the sockets of cmm itself.
use cmm.Prelude.{
  ℕ, ◌≡◌, refl, sym, ap, ◌∙◌, Bool, true, false, Option, none, some, List, ◌∷◌, arith, ◌==◌,
  Bool-cases, inl, inr, if◌then◌else◌,
}
use cmm.Prelude.Run.{◌>>=◌, Returns}
use cmm.Net.{Jhash}
use cmm.Engine.{FastPath}
use cmm.Engine.InStep.{IsFaithful}
use cmm.Holding.Register.{CtRoute, Tables}
use cmm.Registering.{Answers}
use cmm.Registering.Covers.{Covers}
use cmm.Registering.Taken.{Fits}
use cmm.Sockets.{Socket, SocketOpenCmd, Sockets, is_private}
use cmm.Sockets.Command.{SocketCmd}
use cmm.Sockets.Open.{
  SocketUpdateCmd, socket_open, socket_update, family_checked, socket_close, cmmd_err_not_found,
  cmmd_err_wrong_command_param,
}
use cmm.Sockets.Sent.{IsSeparate}
use cmm.Sockets.Valid.{IsValid, socket_find_cases}
use cmm.Sockets.Closed.{ClosesAt, socket_close-ClosesAt}
use cmm.Sockets.Managed.{Outcome, opened, refused, no_memory, socket_open-Outcome}
use cmm.Sockets.Updated.{Changes, socket_update-Changes}
use cmm.Sockets.Daemon.{
  SocketRequest, too_small, open_request, update_request, close_request, close_answer, answer_close,
  socket_daemon, cmmd_err_wrong_command_size, cmmd_err_wrong_sockid,
}

-- The sockets with an identifier of cmm's own are as they were.
abbrev pub KeepsPrivate : Sockets → Sockets → Type 0
KeepsPrivate t t' =
    (q : ℕ) (a : Socket) → t.entries q ≡ some a → is_private a.id ≡ true → t'.entries q ≡ some a

keeps_others :
    (p : ℕ) (s : Socket) (o : Option Socket) (t t' : Sockets)
    → t.entries p ≡ some s
    → is_private s.id ≡ false
    → ((q : ℕ) → t'.entries q ≡ (if q == p then o else t.entries q))
    → KeepsPrivate t t'
keeps_others p s o t t' here public entries q a h own = elim (Bool-cases (q == p)) [
  | inl at ↦
      let same : t.entries q ≡ some s = ground (arith, here) in
      absurd (ground (arith, same, h, own, public))
  | inr off ↦ entries q ∙ rw off h
]

module _ ⦃fast_path : FastPath⦄ ⦃jhash : Jhash⦄ (holds : fast_path.State → ℕ → Bool)
    (socket_write : SocketCmd → fast_path.State → fast_path.State × ℕ) (k : Answers)
    (rts : List CtRoute) (w : IsFaithful holds) (sep : IsSeparate holds socket_write) where
  -- Valid tables, whose counts cover every socket.
  pub record Served (t : Sockets) (ts : Tables) : Type 0 where
    pub valid : IsValid t
    pub fits : Fits k ts
    pub covers : Covers holds rts ts
    pub each :
        (p : ℕ) (s : Socket)
        → t.entries p ≡ some s
        → (others : List CtRoute) × Covers holds (s.rt ∷ others) ts

  module _ (t : Sockets) (ts : Tables) (v : Served t ts) where
    abbrev Kept : Sockets × Tables × ℕ → Type 0
    Kept res = KeepsPrivate t res.0

    changed-Kept :
        (cmd : SocketUpdateCmd) (p : ℕ) (s : Socket) (others : List CtRoute)
        → t.entries p ≡ some s
        → is_private s.id ≡ false
        → (res : Sockets × Tables × ℕ) → Changes holds socket_write k others w sep cmd p s t ts res
        → Kept res
    changed-Kept cmd p s others here public res d =
        keeps_others p s _ t res.0 here public (λ q. ap (λ (x : Sockets). x.entries q) d.entries)

    opened-Kept :
        (cmd : SocketOpenCmd) (memory : Option ℕ)
        → ((p : ℕ) → memory ≡ some p → t.entries p ≡ none)
        → (res : Sockets × Tables × ℕ) → Outcome holds socket_write k rts w sep cmd memory t ts res
        → Kept res
    opened-Kept cmd memory free res (opened p id s from ok entries made c agrees told) q a h own =
        entries q ∙ elim (Bool-cases (q == p)) [
          | inl at ↦ absurd (ground (arith, free p from, h))
          | inr off ↦ rw off h
        ]
    opened-Kept cmd memory free res (refused p tried from ne entries c run code lets_go) q a h own =
        entries q ∙ h
    opened-Kept cmd memory free res (no_memory from same c) q a h own = rw same h

    open-Kept :
        (cmd : SocketOpenCmd) (memory : Option ℕ)
        → ((p : ℕ) → memory ≡ some p → t.entries p ≡ none)
        → Returns (socket_open socket_write k cmd memory t ts) Kept
    unfolding socket_open
    open-Kept cmd memory free = elim (socket_find_cases cmd.id t v.valid.indexed) [
      | inr (p, a, found, here, e) ↦ ((t, ts, 0), rw (found, ◌>>=◌) refl, λ q b h own. h)
      | inl (missed, fresh) ↦
          let (res, run, (valid, d)) =
            socket_open-Outcome holds socket_write k rts w sep cmd memory t ts fresh free v.valid
              v.fits v.covers in
          (res, run, opened-Kept cmd memory free res d)
    ]

    update-Kept :
        (cmd : SocketUpdateCmd)
        → is_private cmd.id ≡ false
        → Returns (socket_update socket_write k cmd t ts) Kept
    unfolding socket_update family_checked
    update-Kept cmd public = elim (socket_find_cases cmd.id t v.valid.indexed) [
      | inl (missed, fresh) ↦ ((t, ts, cmmd_err_not_found), rw (missed, ◌>>=◌) refl, λ q b h own. h)
      | inr (p, s, found, here, e) ↦ elim (Bool-cases (s.family == cmd.family)) [
        | inr other ↦ (
          (t, ts, cmmd_err_wrong_command_param),
          rw (found, ◌>>=◌) (rw (here, ◌>>=◌) (rw other refl)),
          λ q b h own. h,
        )
        | inl same ↦
            let (others, c) = v.each p s here in
            let (res, run, d) =
              socket_update-Changes holds socket_write k others w sep cmd p s t ts here e
                (ground (arith, same)) v.valid.indexed v.fits c in
            (res, run, changed-Kept cmd p s others here (rw e public) res d)
      ]
    ]

    closed-Kept :
        (p : ℕ) (s : Socket) (others : List CtRoute)
        → t.entries p ≡ some s
        → is_private s.id ≡ false
        → (res : Sockets × Tables × ℕ) → ClosesAt holds socket_write others w sep p s t ts res
        → Kept res
    closed-Kept p s others here public res d = elim (Bool-cases (res.2 == 0)) [
      | inl ok ↦ keeps_others p s none t res.0 here public (d.closed (ground (arith, ok))).0
      | inr failed ↦ λ q a h own. (d.kept (λ e. ground (arith, failed, e))).0 q ∙ h
    ]

    close-Kept : (id : ℕ) → is_private id ≡ false → Returns (answer_close socket_write id t ts) Kept
    unfolding answer_close socket_close
    close-Kept id public = elim (socket_find_cases id t v.valid.indexed) [
      | inl (missed, fresh) ↦
          ((t, ts, close_answer cmmd_err_not_found), rw (missed, ◌>>=◌) refl, λ q b h own. h)
      | inr (p, s, found, here, e) ↦
          let (others, c) = v.each p s here in
          let (res, run, d) =
            socket_close-ClosesAt holds socket_write others w sep p s t ts here v.valid c in
          (
            (res.0, res.1, close_answer res.2),
            rw (sym e) (rw (run, ◌>>=◌) refl),
            closed-Kept p s others here (rw e public) res d,
          )
    ]

  -- On valid tables of sockets, and tables of routes that are valid, in step with a fast path that
  -- keeps to its protocol and count the routes of every socket, where the answers of the kernel
  -- and of malloc fit the tables, socket_daemon returns for every command of a client that opens,
  -- updates or closes a socket, and leaves each socket whose identifier is one of cmm itself as it
  -- was.
  pub socket_daemon-KeepsPrivate :
      (request : SocketRequest) (memory : Option ℕ) (t : Sockets) (ts : Tables)
      → ((p : ℕ) → memory ≡ some p → t.entries p ≡ none)
      → Served t ts
      → Returns (socket_daemon socket_write k request memory t ts) (λ res. KeepsPrivate t res.0)
  unfolding socket_daemon
  socket_daemon-KeepsPrivate too_small memory t ts free v =
      ((t, ts, cmmd_err_wrong_command_size), refl, λ q a h own. h)
  socket_daemon-KeepsPrivate (open_request cmd) memory t ts free v =
      elim (Bool-cases (is_private cmd.id)) [
        | inl private ↦ ((t, ts, cmmd_err_wrong_sockid), rw private refl, λ q a h own. h)
        | inr public ↦
            let (res, run, d) = open-Kept t ts v cmd memory free in (res, rw public run, d)
      ]
  socket_daemon-KeepsPrivate (update_request cmd) memory t ts free v =
      elim (Bool-cases (is_private cmd.id)) [
        | inl private ↦ ((t, ts, cmmd_err_wrong_sockid), rw private refl, λ q a h own. h)
        | inr public ↦ let (res, run, d) = update-Kept t ts v cmd public in (res, rw public run, d)
      ]
  socket_daemon-KeepsPrivate (close_request id) memory t ts free v =
      elim (Bool-cases (is_private id)) [
        | inl private ↦ ((t, ts, cmmd_err_wrong_sockid), rw private refl, λ q a h own. h)
        | inr public ↦ let (res, run, d) = close-Kept t ts v id public in (res, rw public run, d)
      ]
