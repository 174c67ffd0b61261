-- ===== src/Engine/Deregister.antt =====
-- src/conntrack.c, `__cmmFPPRouteDeregister`: what a call leaves.
use cmm.Prelude.{
  ℕ, ◌<◌, ◌-◌, ◌≡◌, ◌≢◌, ◌⊎◌, refl, sym, ◌∙◌, ap, Bool, true, false, none, some, arith, ◌==◌,
  ==_refl, leb, Bool-cases, inl, inr,
}
use mathlib.Core.Bool.{false≢true}
use cmm.Prelude.Run.{◌>>=◌, Returns}
use cmm.Net.{Jhash}
use cmm.RouteIds.{test_id}
use cmm.Fpp.{FppRt, FppTable}
use cmm.Fpp.Valid.{IsValid, rewrite, rewrite-IsValid}
use cmm.Fpp.Put.{Puts, fpp_route_put-Puts}
use cmm.Engine.{request_remove, FastPath, let_go_of, fpp_route_deregister}
use cmm.Engine.Update.{fe_route_update-Updates}
use cmm.Engine.InStep.{IsFaithful, IsInStep}

module _ ⦃jhash : Jhash⦄ ⦃fast_path : FastPath⦄ (holds : fast_path.State → ℕ → Bool) where
  put-IsInStep :
      (t t' : FppTable) (p : ℕ) (r : FppRt) (s : fast_path.State)
      → IsInStep holds t s
      → t.routes p ≡ some r
      → (leb r.count 1 ≡ true → r.flags.programmed ≡ false)
      → Puts t p r t'
      → IsInStep holds t' s
  put-IsInStep t t' p r s i here idle w = record {
    programmed = λ q r' h. elim (Bool-cases (q == p)) [
      | inl same ↦ ground (arith, w.released, i.programmed p r here)
      | inr other ↦ ground (arith, w.others q, i.programmed q r')
    ];
    owned = λ j h.
        let (q, r', at, e) = i.owned j h in
        elim (Bool-cases (q == p)) [
          | inl same ↦ elim (Bool-cases (leb r.count 1)) [
            | inl last ↦ absurd (ground (arith, idle last, i.programmed p r here))
            | inr more ↦
                (p, record r { count = r.count - 1 }, ground (arith, w.released), ground arith)
          ]
          | inr other ↦ (q, r', ground (arith, w.others q), e)
        ];
  }

  -- A route that the fast path was not rid of stays, with no holder.
  keep-IsInStep :
      (t : FppTable) (p : ℕ) (r : FppRt) (s : fast_path.State) (n : ℕ)
      → t.routes p ≡ some r
      → IsInStep holds t s
      → IsInStep holds (rewrite t p r n r.flags) s
  keep-IsInStep t p r s n here i = record {
    programmed = λ q r' h. ground (arith, i.programmed q r', i.programmed p r here);
    owned = λ j h.
        let (q, r', at, e) = i.owned j h in
        elim (Bool-cases (q == p)) [
          | inl same ↦ (p, record r { count = n }, ground arith, ground arith)
          | inr other ↦ (q, r', ground arith, e)
        ];
  }

  -- What a call of `__cmmFPPRouteDeregister` for the route `r` leaves.
  pub record Deregisters (p : ℕ) (r : FppRt) (t : FppTable) (res : FppTable × fast_path.State)
      : Type 0 where
    pub valid : IsValid res.0
    pub in_step : IsInStep holds res.0 res.1
    pub others : (q : ℕ) → q ≢ p → res.0.routes q ≡ t.routes q
    pub freed : test_id res.0.ids r.id ≡ false → holds res.1 r.id ≡ false
    pub more : 1 < r.count → res.0.routes p ≡ some (record r { count = r.count - 1 })
    pub last :
        r.count ≡ 1
        → (res.0.routes p ≡ none) ⊎ ((r' : FppRt) × (res.0.routes p ≡ some r') × (r'.count ≡ 0))

  pub free_id :
      (t : FppTable) (s : fast_path.State) (j : ℕ)
      → IsValid t
      → IsInStep holds t s
      → test_id t.ids j ≡ false
      → holds s j ≡ false
  free_id t s j v i free = elim (Bool-cases (holds s j)) [
    | inr not_held ↦ not_held
    | inl held ↦
        let (q, r, at, e) = i.owned j held in
        absurd (false≢true (sym free ∙ ap (test_id t.ids) (sym e) ∙ (v.owned q r at).2))
  ]

  put_holder :
      (t : FppTable) (p : ℕ) (r : FppRt) (s : fast_path.State)
      → IsValid t
      → IsInStep holds t s
      → t.routes p ≡ some r
      → (leb r.count 1 ≡ true → r.flags.programmed ≡ false)
      → Returns (let_go_of p (t, s, true)) (Deregisters p r t)
  unfolding let_go_of
  put_holder t p r s v i here idle =
      let (t', run, w) = fpp_route_put-Puts t p r v here in
      let i' = put-IsInStep t t' p r s i here idle w in
      (
        (t', s),
        rw (run, ◌>>=◌),
        record {
          valid = w.valid;
          in_step = i';
          others = w.others;
          freed = λ free. free_id t' s r.id w.valid i' free;
          more = λ held. ground (arith, w.released);
          last = λ one. inl (ground (arith, w.released));
        },
      )

  keep_holder :
      (t : FppTable) (p : ℕ) (r : FppRt) (s : fast_path.State)
      → IsValid t
      → IsInStep holds t s
      → t.routes p ≡ some r
      → Returns (let_go_of p (t, s, false)) (Deregisters p r t)
  unfolding let_go_of
  keep_holder t p r s v i here =
      let t' = rewrite t p r (r.count - 1) r.flags in
      let v' = rewrite-IsValid t p r (r.count - 1) r.flags here v in
      let i' = keep-IsInStep t p r s (r.count - 1) here i in
      (
        (t', s),
        rw (here, ◌>>=◌),
        record {
          valid = v';
          in_step = i';
          others = λ q ne. ground arith;
          freed = λ free. free_id t' s r.id v' i' free;
          more = λ held. ground arith;
          last = λ one. inr (record r { count = r.count - 1 }, ground arith, ground arith);
        },
      )

  after_command :
      (res : FppTable × fast_path.State × Bool) (p : ℕ) (r : FppRt)
      → IsValid res.0
      → IsInStep holds res.0 res.1
      → res.0.routes p ≡ some r
      → (res.2 ≡ true → r.flags.programmed ≡ false)
      → Returns (let_go_of p res) (Deregisters p r res.0)
  after_command (t, s, true) p r v i here success =
      put_holder t p r s v i here (λ low. success refl)
  after_command (t, s, false) p r v i here success = keep_holder t p r s v i here

  -- A holder that deregisters its route leaves a valid table in step with a fast path that keeps to
  -- its protocol, also where the command fails. No identifier that is given up is still held by the
  -- fast path, and the other routes stay.
  pub fpp_route_deregister-Deregisters :
      (t : FppTable) (p : ℕ) (r : FppRt) (s : fast_path.State)
      → IsFaithful holds
      → IsValid t
      → IsInStep holds t s
      → t.routes p ≡ some r
      → 0 < r.count
      → Returns (fpp_route_deregister p t s) (Deregisters p r t)
  unfolding fpp_route_deregister
  fpp_route_deregister-Deregisters t p r s w v i here some_holder =
      elim (Bool-cases (r.count == 1)) [
        | inr more ↦
            let (res, run, d) = put_holder t p r s v i here (λ low. ground arith) in
            (res, rw (fpp_route_deregister, here, ◌>>=◌, more) run, d)
        | inl last ↦
            let (res₁, sent, u) = fe_route_update-Updates holds request_remove t p r s w v i here in
            let r₁ : FppRt = record r { flags = u.flags } in
            let here₁ : res₁.0.routes p ≡ some r₁ = u.routes p ∙ rw (==_refl p) in
            let (res, run, d) = after_command res₁ p r₁ u.valid u.in_step here₁ u.success in
            (
              res,
              rw (fpp_route_deregister, here, ◌>>=◌, last) (rw sent run),
              record {
                valid = d.valid;
                in_step = d.in_step;
                others = λ q ne. d.others q ne ∙ u.routes q ∙ (ground arith);
                freed = d.freed;
                more = λ held. absurd (ground arith);
                last = λ one. d.last one;
              },
            )
      ]
