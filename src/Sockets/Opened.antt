-- ===== src/Sockets/Opened.antt =====
-- src/module_socket.c, `__socket_open`: what it leaves of the socket and of the tables of routes.
use cmm.Prelude.{
  ℕ, ◌%◌, ◌^◌, ◌≡◌, ◌≢◌, refl, sym, ap, ◌∙◌, Bool, true, Option, none, some, List, ◌∷◌, arith, ◌==◌,
  Bool-cases, inl, inr, if◌then◌else◌,
}
use mathlib.Core.Path.{subst}
use cmm.Prelude.Run.{Run, done, ◌>>=◌, Returns}
use cmm.Net.{Jhash}
use cmm.Fpp.{FppRt, FppTable}
use cmm.Engine.{Action, action_register, action_update, FastPath, request_add}
use cmm.Engine.InStep.{IsFaithful}
use cmm.Holding.Register.{CtRoute, Tables}
use cmm.Registering.{Answers}
use cmm.Registering.Covers.{Covers}
use cmm.Registering.Taken.{Fits}
use cmm.Sockets.{Socket}
use cmm.Sockets.Command.{SocketCmd, socket_command, socket_action, socket_send_cmd}
use cmm.Sockets.Told.{Describes, register-Describes, update-Describes, Told}
use cmm.Sockets.Open.{is_routed, check_fpp_route_id_update, open_route, open_socket}
use cmm.Sockets.Sent.{Fulfilled, with_flags, IsSeparate, socket_send_cmd-Sends}
use cmm.Sockets.Routed.{fast-Covers, Routed, open_route-Routed, Agrees}

-- The identifier is that of the route, which may make an update necessary.
record ChecksId (o : Option ℕ) (s : Socket) (t : FppTable) (s' : Socket) : Type 0 where
  needs_update : Bool
  id : ℕ
  socket : s' ≡ record s { needs_update = needs_update; fpp_route_id = id }
  nothing : o ≡ none → id ≡ 0
  agrees : (p : ℕ) (r : FppRt) → o ≡ some p → t.routes p ≡ some r → id ≡ r.id
  needed :
      (action : Action)
      → socket_action request_add s ≡ some action
      → socket_action request_add s' ≡ some action

check-ChecksId :
    (o : Option ℕ) (s : Socket) (t : FppTable)
    → ((p : ℕ) → o ≡ some p → (r : FppRt) × (t.routes p ≡ some r))
    → Returns (check_fpp_route_id_update o s t) (ChecksId o s t)
unfolding check_fpp_route_id_update socket_action
check-ChecksId none s t there = elim (Bool-cases (s.fpp_route_id == 0)) [
  | inl zero_id ↦ (
    s,
    rw zero_id refl,
    record {
      needs_update = s.needs_update;
      id = s.fpp_route_id;
      socket = refl;
      nothing = λ e. ground arith;
      agrees = λ p r e. absurd (cc);
      needed = λ action e. e;
    },
  )
  | inr other ↦ (
    record s { needs_update = true; fpp_route_id = 0 },
    rw other refl,
    record {
      needs_update = true;
      id = 0;
      socket = refl;
      nothing = λ e. refl;
      agrees = λ p r e. absurd (cc);
      needed = λ action e. ground (arith, e);
    },
  )
]
check-ChecksId (some p) s t there =
    let (r, here) = there p refl in
    elim (Bool-cases (s.fpp_route_id == r.id)) [
      | inl same ↦ (
        s,
        rw (here, ◌>>=◌) (rw same refl),
        record {
          needs_update = s.needs_update;
          id = s.fpp_route_id;
          socket = refl;
          nothing = λ e. absurd (cc);
          agrees = λ q r' e h. ground (arith, here);
          needed = λ action e. e;
        },
      )
      | inr other ↦ (
        record s { needs_update = true; fpp_route_id = r.id },
        rw (here, ◌>>=◌) (rw other refl),
        record {
          needs_update = true;
          id = r.id;
          socket = refl;
          nothing = λ e. absurd (cc);
          agrees = λ q r' e h. ground (arith, here);
          needed = λ action e. ground (arith, e);
        },
      )
    ]

flags-Describes :
    {action : Action} {c : SocketCmd} (s : Socket) (programmed needs_update : Bool)
    → Describes action s c
    → Describes action (with_flags s programmed needs_update) c
flags-Describes s programmed needs_update d = record {
  action = d.action;
  family = d.family;
  id = d.id;
  saddr = d.saddr;
  sport = d.sport;
  queue = d.queue;
  dscp = d.dscp;
  route_id = d.route_id;
  fixed = d.fixed;
}

module _ ⦃fast_path : FastPath⦄ ⦃jhash : Jhash⦄ (holds : fast_path.State → ℕ → Bool)
    (socket_write : SocketCmd → fast_path.State → fast_path.State × ℕ) (k : Answers)
    (rts : List CtRoute) (w : IsFaithful holds) (sep : IsSeparate holds socket_write) where
  -- What an opening leaves: the socket keeps all but its routes and its flags, and the fast path is told
  -- of the route that the socket has.
  pub record Opens (s : Socket) (res : Socket × Tables × ℕ) : Type 0 where
    pub rt : CtRoute
    pub id : ℕ
    pub programmed : Bool
    pub needs_update : Bool
    pub socket :
        res.0 ≡ record (with_flags s programmed needs_update) { rt = rt; fpp_route_id = id }
    pub covers : Covers holds (rt ∷ rts) res.1
    pub agrees : Agrees res.0 res.1.fpp
    pub fulfilled : res.2 ≡ 0 → Fulfilled request_add res.0
    pub failed : res.2 ≢ 0 → res.0.programmed ≡ s.programmed
    pub code : res.2 % 2 ^ 16 ≡ 0 → res.2 ≡ 0
    pub registers :
        socket_action request_add s ≡ some action_register
        → res.2 ≡ 0
        → Told socket_write action_register res.0 res.1.fast
    pub updates :
        socket_action request_add s ≡ some action_update
        → res.2 ≡ 0
        → Told socket_write action_update res.0 res.1.fast

  abbrev routed_run : Socket → Tables → Run (Socket × Tables)
  routed_run s ts = if is_routed s.sock_type then open_route k s ts else done (s, ts)

  routed_run-Routed :
      (s : Socket) (ts : Tables)
      → Fits k ts
      → Covers holds (s.rt ∷ rts) ts
      → Returns (routed_run s ts) (Routed holds k rts w s)
  routed_run-Routed s ts fits c = elim (Bool-cases (is_routed s.sock_type)) [
    | inl routed ↦
        let (res, run, d) = open_route-Routed holds k rts w s ts fits c in (res, rw routed run, d)
    | inr plain ↦ ((s, ts), rw plain refl, record { rt = s.rt; socket = refl; covers = c })
  ]

  -- After the routes.
  sent-Opens :
      (s : Socket) (rt : CtRoute) (ts : Tables) (s₂ : Socket)
      → Covers holds (rt ∷ rts) ts
      → ChecksId rt.fpp_route (record s { rt = rt }) ts.fpp s₂
      → let sent = socket_send_cmd socket_write request_add s₂ ts.fast in
        Opens s (sent.0, record ts { fast = sent.1 }, sent.2)
  unfolding socket_action
  sent-Opens s rt ts s₂ c d =
      let e = socket_send_cmd-Sends holds socket_write sep request_add s₂ ts.fast in
      let sent = socket_send_cmd socket_write request_add s₂ ts.fast in
      let same : sent.0
          ≡ record (with_flags s e.programmed e.needs_update) { rt = rt; fpp_route_id = d.id } =
        e.socket ∙ ap (λ x. with_flags x e.programmed e.needs_update) d.socket in
      record {
        rt = rt;
        id = d.id;
        programmed = e.programmed;
        needs_update = e.needs_update;
        socket = same;
        covers = fast-Covers holds (rt ∷ rts) ts sent.1 e.routes c;
        agrees = subst (λ x. Agrees x ts.fpp) (sym same) (d.nothing, d.agrees);
        fulfilled = e.fulfilled;
        failed = λ ne. ap (λ (x : Socket). x.programmed) (e.failed ne ∙ d.socket);
        code = e.code;
        registers = λ needed ok. rw e.socket (record {
          cmd = socket_command action_register s₂;
          before = ts.fast;
          describes = flags-Describes s₂ e.programmed e.needs_update (register-Describes s₂);
          accepted = e.told action_register (d.needed action_register needed) ok;
        });
        updates = λ needed ok. rw e.socket (record {
          cmd = socket_command action_update s₂;
          before = ts.fast;
          describes = flags-Describes s₂ e.programmed e.needs_update (update-Describes s₂);
          accepted = e.told action_update (d.needed action_update needed) ok;
        });
      }

  pub open_socket-Opens :
      (s : Socket) (ts : Tables)
      → Fits k ts
      → Covers holds (s.rt ∷ rts) ts
      → Returns (open_socket socket_write k s ts) (Opens s)
  unfolding open_socket
  open_socket-Opens s ts fits c =
      let ((s₁, ts₁), run, d) = routed_run-Routed s ts fits c in
      let there : (p : ℕ) → d.rt.fpp_route ≡ some p → (r : FppRt) × (ts₁.fpp.routes p ≡ some r) =
        λ p e. let (r, here, many) = d.covers.held.fpp p (ground (arith, e)) in (r, here) in
      let (s₂, run₂, h) = check-ChecksId d.rt.fpp_route (record s { rt = d.rt }) ts₁.fpp there in
      let sent = socket_send_cmd socket_write request_add s₂ ts₁.fast in
      (
        (sent.0, record ts₁ { fast = sent.1 }, sent.2),
        rw (run, ◌>>=◌)
            (rw (ap (λ (x : Socket). check_fpp_route_id_update x.rt.fpp_route x ts₁.fpp) d.socket)
              (rw (run₂, ◌>>=◌) refl)),
        sent-Opens s d.rt ts₁ s₂ d.covers h,
      )
