-- ===== src/Sockets/Misplaced.antt =====
-- src/module_socket.c, `socket_update` and `socket_find_by_addr`: a socket that gets another source or
-- another port stays in the bucket of its old addresses.
use cmm.Prelude.{
  ℕ, ◌/◌, ◌≡◌, ◌≢◌, ap, ◌∙◌, Bool, true, Option, some, List, [], ◌∷◌, arith, ◌==◌, ==_refl,
  Bool-cases, Option-cases, inl, inr, mem,
}
use cmm.Prelude.Run.{Run, done, Returns}
use cmm.Net.{Jhash, ip_addr_len, mem_eq_refl}
use cmm.Table.{scan}
use cmm.Engine.{FastPath}
use cmm.Engine.InStep.{IsFaithful}
use cmm.Holding.Register.{CtRoute, Tables}
use cmm.Registering.{Answers}
use cmm.Registering.Covers.{Covers}
use cmm.Registering.Taken.{Fits}
use cmm.Sockets.{Socket, Sockets, addr_home, sock_addr_match, socket_find_by_addr}
use cmm.Sockets.Command.{SocketCmd}
use cmm.Sockets.Open.{SocketUpdateCmd, updated_socket, set_socket, socket_update}
use cmm.Sockets.Sent.{IsSeparate, with_flags}
use cmm.Sockets.Valid.{IsValid}
use cmm.Sockets.Updated.{socket_update-Changes}

-- What the loop finds is on the list.
scan-mem :
    {A : Type 0} (test : A → Bool) (heap : ℕ → Option A) (xs : List ℕ) (p : ℕ)
    → scan test heap xs ≡ done (some p)
    → mem p xs ≡ true
unfolding scan
scan-mem test heap [] p e = absurd (cc)
scan-mem test heap (x ∷ xs) p e = elim (Option-cases (heap x)) [
  | inl dead ↦ absurd (ground (arith, e, dead))
  | inr (a, here) ↦ elim (Bool-cases (test a)) [
    | inl hit ↦ ground (arith, e, here, hit)
    | inr miss ↦
        let m = scan-mem test heap xs p (ground (arith, e, here, miss)) in ground (arith, m)
  ]
]

set_here : (p : ℕ) (a : Socket) (t : Sockets) → (set_socket p a t).entries p ≡ some a
set_here p a t = ground arith

abbrev pub matches : Socket → Socket → Bool
matches a s = sock_addr_match a.family a.saddr a.daddr a.sport a.dport a.proto s

matches_own :
    (a : Socket) (programmed needs_update : Bool) (rt : CtRoute) (id : ℕ)
    → matches a (record (with_flags a programmed needs_update) { rt = rt; fpp_route_id = id })
      ≡ true
unfolding sock_addr_match
matches_own a programmed needs_update rt id = simp (
  ==_refl a.family,
  ==_refl a.proto,
  ==_refl a.sport,
  ==_refl a.dport,
  mem_eq_refl (ip_addr_len a.family / 4) a.saddr,
  mem_eq_refl (ip_addr_len a.family / 4) a.daddr,
)

module _ ⦃jhash : Jhash⦄ where
  abbrev pub find_socket : Socket → Sockets → Run (Option ℕ)
  find_socket a t = socket_find_by_addr a.family a.saddr a.daddr a.sport a.dport a.proto t

  not_found :
      (p : ℕ) (a s : Socket) (t t' : Sockets)
      → t.entries p ≡ some s
      → IsValid t
      → t'.by_addr ≡ t.by_addr
      → addr_home a ≢ addr_home s
      → find_socket a t' ≢ done (some p)
  unfolding socket_find_by_addr
  not_found p a s t t' here v same moved e =
      let m = scan-mem (λ x. matches a x) t'.entries (t'.by_addr (addr_home a)) p e in
      let m' : mem p (t.by_addr (addr_home a)) ≡ true = rw same at m in
      let home : (addr_home s == addr_home a) ≡ true =
        ground (arith, v.by_addr.placed p (addr_home a), here, m') in
      moved (ground (arith, home))

module _ ⦃fast_path : FastPath⦄ ⦃jhash : Jhash⦄ (holds : fast_path.State → ℕ → Bool)
    (socket_write : SocketCmd → fast_path.State → fast_path.State × ℕ) (k : Answers)
    (rts : List CtRoute) (w : IsFaithful holds) (sep : IsSeparate holds socket_write) where
  -- On valid tables, where socket_update gives a socket a source or a port that belongs to another
  -- bucket, the socket matches a search for its new addresses, but socket_find_by_addr does not
  -- find it.
  pub socket_update-Misplaces :
      (cmd : SocketUpdateCmd) (p : ℕ) (s : Socket) (t : Sockets) (ts : Tables)
      → t.entries p ≡ some s
      → s.id ≡ cmd.id
      → s.family ≡ cmd.family
      → IsValid t
      → Fits k ts
      → Covers holds (s.rt ∷ rts) ts
      → addr_home (updated_socket cmd s) ≢ addr_home s
      → Returns (socket_update socket_write k cmd t ts) (λ res.
        (s' : Socket) × (res.0.entries p ≡ some s')
        × (matches (updated_socket cmd s) s' ≡ true)
        × (find_socket (updated_socket cmd s) res.0 ≢ done (some p)))
  socket_update-Misplaces cmd p s t ts here same family v fits c moved =
      let a : Socket = updated_socket cmd s in
      let (res, run, d) =
        socket_update-Changes holds socket_write k rts w sep cmd p s t ts here same family v.indexed
          fits c in
      let s' : Socket = record (with_flags a d.programmed d.needs_update) {
        rt = d.rt;
        fpp_route_id = d.id;
      } in
      (
        res,
        run,
        (
          s',
          ap (λ (x : Sockets). x.entries p) d.entries ∙ set_here p s' t,
          matches_own a d.programmed d.needs_update d.rt d.id,
          not_found p a s t res.0 here v (ap (λ (x : Sockets). x.by_addr) d.entries) moved,
        ),
      )
