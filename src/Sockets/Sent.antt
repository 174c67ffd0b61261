-- ===== src/Sockets/Sent.antt =====
-- src/module_socket.c, `socket_send_cmd`: what a call leaves.
use cmm.Prelude.{
  ℕ, ◌%◌, ◌^◌, ◌-◌, ◌<◌, ◌≡◌, ◌≢◌, ◌⊎◌, refl, ap, Bool, true, false, ◌&&◌, none, some, arith, ◌==◌,
  Bool-cases, Option-cases, inl, inr,
}
use cmm.Net.{af_inet, af_inet6}
use cmm.Engine.{
  Action, action_register, action_update, action_deregister, Request, request_add, request_update,
  request_remove, FastPath, fpp_err_ok,
}
use cmm.Sockets.{Socket}
use cmm.Sockets.Command.{
  SocketCmd, socket_command, socket_answered, socket_action, socket_send, socket_send_cmd,
}

-- What the flags say when a request is fulfilled.
abbrev pub Fulfilled : Request → Socket → Type 0
Fulfilled request_add s = (s.programmed ≡ true) × (s.needs_update ≡ false)
Fulfilled request_update s = (s.programmed && s.needs_update) ≡ false
Fulfilled request_remove s = s.programmed ≡ false

abbrev pub with_flags : Socket → Bool → Bool → Socket
with_flags s programmed needs_update = record s {
  programmed = programmed;
  needs_update = needs_update;
}

answered_same :
    (action : Action) (ret : ℕ) (s : Socket)
    → (p : Bool) × (u : Bool) × (socket_answered action ret s ≡ with_flags s p u)
unfolding socket_answered
answered_same action_register ret s = elim (Bool-cases (ret == fpp_err_ok)) [
  | inl ok ↦ (true, false, rw ok refl)
  | inr failed ↦ (s.programmed, s.needs_update, rw failed refl)
]
answered_same action_update ret s = elim (Bool-cases (ret == fpp_err_ok)) [
  | inl ok ↦ (s.programmed, false, rw ok refl)
  | inr failed ↦ (s.programmed, s.needs_update, rw failed refl)
]
answered_same action_deregister ret s = elim (Bool-cases (ret == fpp_err_ok)) [
  | inl ok ↦ (false, s.needs_update, rw ok refl)
  | inr failed ↦ (s.programmed, s.needs_update, rw failed refl)
]

answered_failed :
    (action : Action) (ret : ℕ) (s : Socket) → ret ≢ 0 → socket_answered action ret s ≡ s
unfolding socket_answered
answered_failed action_register ret s ne = ground arith
answered_failed action_update ret s ne = ground arith
answered_failed action_deregister ret s ne = ground arith

answered-Fulfilled :
    (request : Request) (action : Action) (ret : ℕ) (s : Socket)
    → socket_action request s ≡ some action
    → ret ≡ 0
    → Fulfilled request (socket_answered action ret s)
unfolding socket_action socket_answered
answered-Fulfilled request_add action_register ret s e ok = ground arith
answered-Fulfilled request_add action_update ret s e ok = ground arith
answered-Fulfilled request_add action_deregister ret s e ok = ground arith
answered-Fulfilled request_update action_register ret s e ok = ground arith
answered-Fulfilled request_update action_update ret s e ok = ground arith
answered-Fulfilled request_update action_deregister ret s e ok = ground arith
answered-Fulfilled request_remove action_register ret s e ok = ground arith
answered-Fulfilled request_remove action_update ret s e ok = ground arith
answered-Fulfilled request_remove action_deregister ret s e ok = ground arith

quiet-Fulfilled :
    (request : Request) (s : Socket) → socket_action request s ≡ none → Fulfilled request s
unfolding socket_action
quiet-Fulfilled request_add s e = ground arith
quiet-Fulfilled request_update s e = ground arith
quiet-Fulfilled request_remove s e = ground arith

module _ ⦃fast_path : FastPath⦄ (holds : fast_path.State → ℕ → Bool)
    (socket_write : SocketCmd → fast_path.State → fast_path.State × ℕ) where
  -- A command for a socket leaves the routes of the fast path alone, and is answered with a return code of
  -- 16 bits or with -1.
  pub record IsSeparate : Type 0 where
    pub routes :
        (cmd : SocketCmd) (fast : fast_path.State) (j : ℕ)
        → holds (socket_write cmd fast).0 j ≡ holds fast j
    pub codes :
        (cmd : SocketCmd) (fast : fast_path.State)
        → ((socket_write cmd fast).1 < 2 ^ 16) ⊎ ((socket_write cmd fast).1 ≡ 2 ^ 32 - 1)

  -- What a call leaves of the socket `s`.
  pub record Sends (request : Request) (s : Socket) (fast : fast_path.State)
      (res : Socket × fast_path.State × ℕ) : Type 0 where
    pub programmed : Bool
    pub needs_update : Bool
    pub socket : res.0 ≡ with_flags s programmed needs_update
    pub routes : (j : ℕ) → holds res.1 j ≡ holds fast j
    pub failed : res.2 ≢ 0 → res.0 ≡ s
    pub fulfilled : res.2 ≡ 0 → Fulfilled request res.0
    pub code : res.2 % 2 ^ 16 ≡ 0 → res.2 ≡ 0
    pub told :
        (action : Action)
        → socket_action request s ≡ some action
        → res.2 ≡ 0
        → socket_write (socket_command action s) fast ≡ (res.1, 0)

  -- There is no command for a socket that the fast path does not have.
  pub remove_idle :
      (s : Socket) (fast : fast_path.State)
      → s.programmed ≡ false
      → (socket_send_cmd socket_write request_remove s fast).2 ≡ 0
  unfolding socket_send_cmd socket_action
  remove_idle s fast e = rw (e, socket_send_cmd) refl

  module _ (w : IsSeparate) where
    sent-Sends :
        (request : Request) (action : Action) (s : Socket) (fast : fast_path.State)
        → socket_action request s ≡ some action
        → Sends request s fast (socket_send socket_write action s fast)
    unfolding socket_send
    sent-Sends request action s fast e =
        let sent = socket_send socket_write action s fast in
        let (p, u, same) = answered_same action sent.2 s in
        record {
          programmed = p;
          needs_update = u;
          socket = same;
          routes = λ j. w.routes (socket_command action s) fast j;
          failed = answered_failed action sent.2 s;
          fulfilled = answered-Fulfilled request action sent.2 s e;
          code = λ low. elim (w.codes (socket_command action s) fast) [
            | inl small ↦ omega arith
            | inr minus ↦ omega arith
          ];
          told = λ a e' ok.
              let same : a ≡ action = ground (arith, e, e') in
              rw same (ap (λ ret. ((socket_write (socket_command action s) fast).0, ret)) ok);
        }

    pub socket_send_cmd-Sends :
        (request : Request) (s : Socket) (fast : fast_path.State)
        → Sends request s fast (socket_send_cmd socket_write request s fast)
    unfolding socket_send_cmd
    socket_send_cmd-Sends request s fast = elim (Option-cases (socket_action request s)) [
      | inl quiet ↦
          rw (socket_send_cmd, quiet)
            (record {
              programmed = s.programmed;
              needs_update = s.needs_update;
              socket = refl;
              routes = λ j. refl;
              failed = λ ne. refl;
              fulfilled = λ ok. quiet-Fulfilled request s quiet;
              code = λ low. refl;
              told = λ a e ok. absurd (ground (arith, quiet, e));
            })
      | inr (action, e) ↦ elim (Bool-cases (s.family == af_inet)) [
        | inl v4 ↦ rw (socket_send_cmd, e, v4) (sent-Sends request action s fast e)
        | inr not_v4 ↦ elim (Bool-cases (s.family == af_inet6)) [
          | inl v6 ↦ rw (socket_send_cmd, e, not_v4, v6) (sent-Sends request action s fast e)
          | inr unknown ↦
              rw (socket_send_cmd, e, not_v4, unknown)
                (record {
                  programmed = s.programmed;
                  needs_update = s.needs_update;
                  socket = refl;
                  routes = λ j. refl;
                  failed = λ ne. refl;
                  fulfilled = λ ok. absurd (ground (arith, ok));
                  code = λ low. absurd (ground (arith, low));
                  told = λ a e' ok. absurd (ground (arith, ok));
                })
        ]
      ]
    ]
