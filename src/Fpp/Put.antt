-- ===== src/Fpp/Put.antt =====
-- src/route_cache.c, `__cmmFPPRoutePut` and `__cmmFPPRouteRemove`.
use cmm.Prelude.{
  ℕ, ◌-◌, ◌≡◌, ◌≢◌, ◌∙◌, false, ◌&&◌, Option, none, some, arith, leb, ◌==◌, if◌then◌else◌,
  Bool-cases, ==_refl, inl, inr,
}
use cmm.Prelude.Run.{done, fault, ◌>>=◌, Returns}
use cmm.Net.{Jhash}
use cmm.RouteIds.{test_id}
use cmm.RouteIds.Alloc.{test_id-del}
use cmm.Fpp.{FppRt, FppTable, fpp_route_put, fpp_route_remove}
use cmm.Fpp.Valid.{IsValid, rewrite, removed, rewrite-IsValid, removed-IsValid}

-- What is left of a route when one holder has let go of it.
abbrev pub released : FppRt → Option FppRt
released r = if leb r.count 1 then none else some (record r { count = r.count - 1 })

module _ ⦃jhash : Jhash⦄ where
  pub record Puts (t : FppTable) (p : ℕ) (r : FppRt) (t' : FppTable) : Type 0 where
    pub valid : IsValid t'
    pub released : t'.routes p ≡ released r
    pub others : (q : ℕ) → q ≢ p → t'.routes q ≡ t.routes q
    pub ids :
        (j : ℕ) → test_id t'.ids j ≡ (if leb r.count 1 && j == r.id then false else test_id t.ids j)

  put_runs :
      (t : FppTable) (p : ℕ) (r : FppRt)
      → t.routes p ≡ some r
      → fpp_route_put p t ≡ (
          let r' : FppRt = record r { count = r.count - 1 } in
          let t' = rewrite t p r (r.count - 1) r.flags in
          if leb r.count 1 then done (removed t' p r') else done t')
  unfolding fpp_route_put fpp_route_remove
  put_runs t p r here =
      let low : leb (r.count - 1) 0 ≡ leb r.count 1 = ground arith in
      rw (here, fpp_route_put)
        (rw low (elim (Bool-cases (leb r.count 1)) [
          | inl last ↦ rw last (rw (==_refl p))
          | inr more ↦ rw more
        ]))

  -- Letting go of a route keeps the table valid. The last holder frees the route and its identifier;
  -- before that the route stays, with one holder less. Nothing else changes.
  pub fpp_route_put-Puts :
      (t : FppTable) (p : ℕ) (r : FppRt)
      → IsValid t
      → t.routes p ≡ some r
      → Returns (fpp_route_put p t) (Puts t p r)
  fpp_route_put-Puts t p r v here =
      let v₁ = rewrite-IsValid t p r (r.count - 1) r.flags here v in
      let t₁ = rewrite t p r (r.count - 1) r.flags in
      let r₁ : FppRt = record r { count = r.count - 1 } in
      let here₁ : t₁.routes p ≡ some r₁ = ground arith in
      elim (Bool-cases (leb r.count 1)) [
        | inl last ↦ (
          removed t₁ p r₁,
          put_runs t p r here ∙ rw last,
          record {
            valid = removed-IsValid t₁ p r₁ here₁ v₁;
            released = rw last (ground arith);
            others = λ q ne. ground arith;
            ids = λ j. rw (test_id-del, last);
          },
        )
        | inr more ↦ (
          t₁,
          put_runs t p r here ∙ rw more,
          record {
            valid = v₁;
            released = rw more here₁;
            others = λ q ne. ground arith;
            ids = λ j. rw more;
          },
        )
      ]

-- Letting go of a route that was freed is a use after free.
fpp_route_put_freed : (t : FppTable) (p : ℕ) → t.routes p ≡ none → fpp_route_put p t ≡ fault
unfolding fpp_route_put
fpp_route_put_freed t p gone = rw (gone, ◌>>=◌)
