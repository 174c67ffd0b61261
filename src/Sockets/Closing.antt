-- ===== src/Sockets/Closing.antt =====
-- src/module_socket.c, `__socket_close` before `socket_remove`: what it leaves of the socket and of the tables
-- of routes.
use cmm.Prelude.{
  ℕ, ◌≡◌, ◌≢◌, refl, sym, ap, ◌∙◌, Bool, true, false, List, ◌∷◌, arith, ◌==◌, Bool-cases, inl, inr,
}
use mathlib.Core.Path.{subst}
use cmm.Prelude.Run.{done, ◌>>=◌, Returns}
use cmm.Net.{Jhash}
use cmm.Engine.{action_deregister, FastPath, request_remove}
use cmm.Engine.InStep.{IsFaithful}
use cmm.Holding.Register.{CtRoute, no_ct_route, Tables, LetGo, route_deregister}
use cmm.Holding.Teardown.{deregister-Clears}
use cmm.Registering.Covers.{Covers}
use cmm.Sockets.{Socket}
use cmm.Sockets.Command.{SocketCmd, socket_action, socket_send_cmd}
use cmm.Sockets.Told.{Ended, deregister-Ended}
use cmm.Sockets.Open.{let_go_socket, close_socket}
use cmm.Sockets.Sent.{IsSeparate, remove_idle, socket_send_cmd-Sends}
use cmm.Sockets.Routed.{fast-Covers}

-- What a call leaves does not depend on what the fast path was before.
fast_changed-LetGo :
    ⦃fast_path : FastPath⦄ ⦃jhash : Jhash⦄ (holds : fast_path.State → ℕ → Bool) (ts : Tables)
    (fast : fast_path.State) (rt : CtRoute) (ts' : Tables)
    → LetGo holds (record ts { fast = fast }) rt (no_ct_route, ts')
    → LetGo holds ts rt (no_ct_route, ts')
fast_changed-LetGo holds ts fast rt ts' d = record {
  cleared = d.cleared;
  valid = d.valid;
  fpp = d.fpp;
  route = d.route;
  fpp_kept = d.fpp_kept;
  route_kept = d.route_kept;
}

module _ ⦃fast_path : FastPath⦄ ⦃jhash : Jhash⦄ (holds : fast_path.State → ℕ → Bool)
    (socket_write : SocketCmd → fast_path.State → fast_path.State × ℕ) (rts : List CtRoute)
    (w : IsFaithful holds) (sep : IsSeparate holds socket_write) where
  -- What a closing leaves: the socket lets go of its routes where the fast path has it no more, and stays
  -- as it was where the command failed.
  pub record Closes (s : Socket) (ts : Tables) (res : Socket × Tables × ℕ × Bool) : Type 0 where
    pub removed : res.3 ≡ (res.2 == 0)
    pub closed :
        res.2 ≡ 0
        → (res.0.programmed ≡ false)
          × Covers holds rts res.1
          × LetGo holds ts s.rt (no_ct_route, res.1)
    pub ended :
        s.programmed ≡ true
        → res.2 ≡ 0
        → (fast : fast_path.State) × Ended socket_write s ts.fast fast
          × (route_deregister s.rt (record ts { fast = fast }) ≡ done (no_ct_route, res.1))
    pub kept : res.2 ≢ 0 → (res.0 ≡ s) × Covers holds (s.rt ∷ rts) res.1
    pub idle : s.programmed ≡ false → res.2 ≡ 0
    pub same_id : res.0.id ≡ s.id
    pub same_addr :
        (res.0.family ≡ s.family)
        × (res.0.saddr ≡ s.saddr)
        × (res.0.daddr ≡ s.daddr)
        × (res.0.sport ≡ s.sport)
        × (res.0.dport ≡ s.dport)
        × (res.0.proto ≡ s.proto)

  pub close_socket-Closes :
      (s : Socket) (ts : Tables)
      → Covers holds (s.rt ∷ rts) ts
      → Returns (close_socket socket_write s ts) (Closes s ts)
  unfolding close_socket let_go_socket socket_action
  close_socket-Closes s ts c =
      let e = socket_send_cmd-Sends holds socket_write sep request_remove s ts.fast in
      let sent = socket_send_cmd socket_write request_remove s ts.fast in
      let ts₁ : Tables = record ts { fast = sent.1 } in
      let c₁ = fast-Covers holds (s.rt ∷ rts) ts sent.1 e.routes c in
      let same_rt : sent.0.rt ≡ s.rt = ap (λ (x : Socket). x.rt) e.socket in
      elim (Bool-cases (sent.2 == 0)) [
        | inr failed ↦ (
          (sent.0, ts₁, sent.2, false),
          rw failed refl,
          record {
            removed = sym failed;
            closed = λ ok. absurd (ground (arith, ok, failed));
            ended = λ on ok. absurd (ground (arith, ok, failed));
            kept = λ ne. (e.failed ne, c₁);
            idle = remove_idle holds socket_write s ts.fast;
            same_id = ap (λ (x : Socket). x.id) e.socket;
            same_addr = rw e.socket (refl, refl, refl, refl, refl, refl);
          },
        )
        | inl ok ↦
            let zero_code : sent.2 ≡ 0 = ground (arith, ok) in
            let off : sent.0.programmed ≡ false = e.fulfilled zero_code in
            let ((rt, ts₂), run, d) = deregister-Clears holds w ts₁ s.rt rts c₁.valid c₁.held in
            let runs : route_deregister sent.0.rt ts₁ ≡ done (rt, ts₂) =
              ap (λ x. route_deregister x ts₁) same_rt ∙ run in
            (
              (record (sent.0) { rt = rt }, ts₂, 0, true),
              rw (ok, runs, ◌>>=◌, off) refl,
              record {
                removed = refl;
                closed = λ x. (
                  off,
                  record { valid = d.leaves.valid; held = d.leaves.held },
                  fast_changed-LetGo holds ts sent.1 s.rt ts₂
                      (subst (λ x. LetGo holds ts₁ s.rt (x, ts₂)) d.empty d.lets_go),
                );
                ended = λ on x. (
                  sent.1,
                  deregister-Ended socket_write s ts.fast sent.1
                      (e.told action_deregister (rw (socket_action, on) refl) zero_code),
                  run ∙ ap (λ x. done (x, ts₂)) d.empty,
                );
                kept = λ ne. absurd (ne refl);
                idle = λ off'. refl;
                same_id = ap (λ (x : Socket). x.id) e.socket;
                same_addr = rw e.socket (refl, refl, refl, refl, refl, refl);
              },
            )
      ]
