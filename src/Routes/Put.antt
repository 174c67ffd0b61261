-- ===== src/Routes/Put.antt =====
-- src/route_cache.c, `__cmmRoutePut` and `__cmmRouteRemove`.
use cmm.Prelude.{
  ℕ, ◌-◌, ◌≡◌, ◌≢◌, ◌∙◌, false, Option, none, some, arith, leb, ==_refl, if◌then◌else◌, Bool-cases,
  inl, inr,
}
use cmm.Prelude.Run.{done, Returns}
use cmm.Net.{Jhash}
use cmm.RouteEntry.{RtEntry}
use cmm.Routes.{Routes, recount, route_put, route_remove}
use cmm.Routes.Valid.{IsValid, recount-IsValid, without, without-IsValid}

-- What is left of a route when one holder has let go of it.
abbrev pub released : RtEntry → Option RtEntry
released r = if leb r.count 1 then none else some (record r { count = r.count - 1 })

module _ ⦃jhash : Jhash⦄ where
  pub record Puts (t : Routes) (p : ℕ) (r : RtEntry) (t' : Routes) : Type 0 where
    pub valid : IsValid t'
    pub released : t'.entries p ≡ released r
    pub others : (q : ℕ) → q ≢ p → t'.entries q ≡ t.entries q

  route_put_runs :
      (t : Routes) (p : ℕ) (r : RtEntry)
      → t.entries p ≡ some r
      → r.rt_policy ≡ false
      → route_put p t ≡ (
          let t' = recount p r (r.count - 1) t in
          if leb r.count 1 then done (without p t') else done t')
  unfolding route_put route_remove
  route_put_runs t p r here plain =
      let low : leb (r.count - 1) 0 ≡ leb r.count 1 = ground arith in
      rw (here, route_put)
        (rw low (elim (Bool-cases (leb r.count 1)) [
          | inl last ↦ rw last (rw (==_refl p, plain))
          | inr more ↦ rw more
        ]))

  -- On valid tables a call returns and keeps them valid. The last holder frees the route and takes it
  -- off both lists; before that the route stays, with one holder less. The other routes stay.
  pub route_put-Puts :
      (t : Routes) (p : ℕ) (r : RtEntry)
      → IsValid t
      → t.entries p ≡ some r
      → Returns (route_put p t) (Puts t p r)
  route_put-Puts t p r v here =
      let t₁ = recount p r (r.count - 1) t in
      let v₁ = recount-IsValid t p r (r.count - 1) here v in
      let run = route_put_runs t p r here (v.cached p r here) in
      elim (Bool-cases (leb r.count 1)) [
        | inl last ↦ (
          without p t₁,
          run ∙ rw last,
          record {
            valid = without-IsValid t₁ p v₁;
            released = rw last (ground arith);
            others = λ q ne. ground arith;
          },
        )
        | inr more ↦ (
          t₁,
          run ∙ rw more,
          record { valid = v₁; released = rw more (ground arith); others = λ q ne. ground arith },
        )
      ]
