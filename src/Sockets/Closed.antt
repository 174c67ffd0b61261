-- ===== src/Sockets/Closed.antt =====
-- src/module_socket.c, `__socket_close` and `socket_close`: what they leave of the sockets and of the
-- tables of routes.
use cmm.Prelude.{
  ℕ, ◌≡◌, ◌≢◌, refl, Bool, true, false, none, some, List, ◌∷◌, arith, ◌==◌, Bool-cases, inl, inr,
  if◌then◌else◌,
}
use cmm.Prelude.Run.{done, ◌>>=◌, Returns}
use cmm.Net.{Jhash}
use cmm.Engine.{FastPath}
use cmm.Engine.InStep.{IsFaithful}
use cmm.Holding.Register.{CtRoute, no_ct_route, Tables, LetGo, route_deregister}
use cmm.Registering.Covers.{Covers}
use cmm.Sockets.{Socket, Sockets, addr_home}
use cmm.Sockets.Command.{SocketCmd}
use cmm.Sockets.Open.{set_socket, close_at, socket_close}
use cmm.Sockets.Sent.{IsSeparate}
use cmm.Sockets.Told.{Ended}
use cmm.Sockets.Closing.{Closes, close_socket-Closes}
use cmm.Sockets.Valid.{IsValid, set_socket-IsValid, socket_remove-Removes, socket_find_here}

module _ ⦃fast_path : FastPath⦄ ⦃jhash : Jhash⦄ (holds : fast_path.State → ℕ → Bool)
    (socket_write : SocketCmd → fast_path.State → fast_path.State × ℕ) (rts : List CtRoute)
    (w : IsFaithful holds) (sep : IsSeparate holds socket_write) where
  -- A socket that the fast path has no more is gone; where the command failed nothing has changed.
  pub record ClosesAt (p : ℕ) (s : Socket) (t : Sockets) (ts : Tables) (res : Sockets × Tables × ℕ)
      : Type 0 where
    pub valid : IsValid res.0
    pub closed :
        res.2 ≡ 0
        → ((q : ℕ) → res.0.entries q ≡ (if q == p then none else t.entries q))
          × Covers holds rts res.1
          × LetGo holds ts s.rt (no_ct_route, res.1)
    pub ended :
        s.programmed ≡ true
        → res.2 ≡ 0
        → (fast : fast_path.State) × Ended socket_write s ts.fast fast
          × (route_deregister s.rt (record ts { fast = fast }) ≡ done (no_ct_route, res.1))
    pub kept :
        res.2 ≢ 0 → ((q : ℕ) → res.0.entries q ≡ t.entries q) × Covers holds (s.rt ∷ rts) res.1

  same_home :
      (s : Socket) (ts : Tables) (res : Socket × Tables × ℕ × Bool)
      → Closes holds socket_write rts w sep s ts res
      → addr_home res.0 ≡ addr_home s
  same_home s ts res d =
      let (family, saddr, daddr, sport, dport, proto) = d.same_addr in
      rw (family, saddr, daddr, sport, dport, proto) refl

  pub close_at-ClosesAt :
      (p : ℕ) (s : Socket) (t : Sockets) (ts : Tables)
      → t.entries p ≡ some s
      → IsValid t
      → Covers holds (s.rt ∷ rts) ts
      → Returns
          (close_at socket_write p t ts)
          (λ res. ClosesAt p s t ts res × (s.programmed ≡ false → res.2 ≡ 0))
  unfolding close_at
  close_at-ClosesAt p s t ts here v c =
      let (res, run, d) = close_socket-Closes holds socket_write rts w sep s ts c in
      let v' = set_socket-IsValid p s res.0 t here d.same_id (same_home s ts res d) v in
      elim (Bool-cases (res.2 == 0)) [
        | inr failed ↦
            let ne : res.2 ≢ 0 = λ e. ground (arith, failed) in
            (
              (set_socket p res.0 t, res.1, res.2),
              rw (here, ◌>>=◌) (rw (run, ◌>>=◌) (rw (d.removed, failed) refl)),
              (
                record {
                  valid = v';
                  closed = λ e. absurd (ne e);
                  ended = λ on e. absurd (ne e);
                  kept = λ ne'.
                      (λ q. let same = (d.kept ne).0 in ground (arith, same, here), (d.kept ne).1);
                },
                d.idle,
              ),
            )
        | inl ok ↦
            let zero_code : res.2 ≡ 0 = ground (arith, ok) in
            let (t', run', r) =
              socket_remove-Removes p res.0 (set_socket p res.0 t) (ground arith) v' in
            (
              (t', res.1, res.2),
              rw (here, ◌>>=◌) (rw (run, ◌>>=◌) (rw (d.removed, ok) (rw (run', ◌>>=◌) refl))),
              (
                record {
                  valid = r.valid;
                  closed = λ e. (
                    λ q. ground (arith, r.entries q),
                    (d.closed zero_code).1,
                    (d.closed zero_code).2,
                  );
                  ended = d.ended;
                  kept = λ ne. absurd (ne zero_code);
                },
                d.idle,
              ),
            )
      ]

  -- On valid tables of sockets, and tables of routes that are valid and in step with a fast path
  -- that keeps to its protocol, socket_close of a socket returns and keeps the tables of sockets
  -- valid. Where the result is 0 the socket is gone, the others stay, and its routes are let go
  -- of, so that their entries lose one holder each and the counts cover the other holders; if the
  -- fast path had the socket it has answered with 0 a command that ends it. Where the result is
  -- not 0 the sockets are as before and the routes of the socket stay counted.
  pub socket_close-ClosesAt :
      (p : ℕ) (s : Socket) (t : Sockets) (ts : Tables)
      → t.entries p ≡ some s
      → IsValid t
      → Covers holds (s.rt ∷ rts) ts
      → Returns (socket_close socket_write s.id t ts) (ClosesAt p s t ts)
  unfolding socket_close
  socket_close-ClosesAt p s t ts here v c =
      let (res, run, (d, idle)) = close_at-ClosesAt p s t ts here v c in
      (res, rw (socket_find_here p s t v.indexed here, ◌>>=◌) run, d)
