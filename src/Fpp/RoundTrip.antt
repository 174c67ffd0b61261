-- ===== src/Fpp/RoundTrip.antt =====
-- src/route_cache.c: `__cmmFPPRoutePut` after `__cmmFPPRouteGet`.
use cmm.Prelude.{
  ℕ, ◌+◌, ◌<◌, ◌≡◌, ◌≢◌, refl, sym, ◌∙◌, false, Option, none, some, arith, leb, ◌==◌, Bool-cases,
  inl, inr, ==_iff,
}
use cmm.Prelude.Run.{Run, done, ◌>>=◌, Returns}
use cmm.Net.{Jhash}
use cmm.RouteIds.{test_id, route_max_id}
use cmm.Fpp.{FppRt, FppArgs, FppTable, fpp_route_get, fpp_route_put, new_route}
use cmm.Fpp.Key.{IsArgs}
use cmm.Fpp.Valid.{IsValid}
use cmm.Fpp.Put.{released, fpp_route_put-Puts}
use cmm.Fpp.Add.{new_route-id}
use cmm.Fpp.Get.{held, Shares, Creates, fpp_route_get-Gets}

-- A holder lets go of the route that a call returned, if it returned one.
abbrev pub let_go : Option ℕ × FppTable → Run FppTable
let_go (none, t) = done t
let_go (some p, t) = fpp_route_put p t

-- Each route that is allocated has a holder.
abbrev pub AllHeld : FppTable → Type 0
AllHeld t = (q : ℕ) (s : FppRt) → t.routes q ≡ some s → 0 < s.count

-- The same routes at the same addresses, and the same identifiers.
abbrev pub SameRoutes : FppTable → FppTable → Type 0
SameRoutes t t' =
    ((q : ℕ) → t'.routes q ≡ t.routes q) × ((i : ℕ) → test_id t'.ids i ≡ test_id t.ids i)

new_route-count : (a : FppArgs) (id : ℕ) → (new_route a id).count ≡ 0
unfolding new_route
new_route-count a id = refl

released-held : (r : FppRt) → 0 < r.count → released (held r) ≡ some r
released-held r h = ground arith

released-new : (a : FppArgs) (id : ℕ) → released (held (new_route a id)) ≡ none
released-new a id = ground (arith, new_route-count a id)

-- To show that two tables agree everywhere, at one address and at the others.
agree :
    (t t' : FppTable) (p : ℕ)
    → t'.routes p ≡ t.routes p
    → ((q : ℕ) → q ≢ p → t'.routes q ≡ t.routes q)
    → (q : ℕ) → t'.routes q ≡ t.routes q
agree t t' p at_p others q = elim (Bool-cases (q == p)) [
  | inl same ↦ let e : q ≡ p = (==_iff q p).0 same in rw e at_p
  | inr other ↦ others q (ground arith)
]

module _ ⦃jhash : Jhash⦄ where
  put_shared :
      (t t₁ : FppTable) (a : FppArgs) (p : ℕ) (r : FppRt)
      → AllHeld t
      → IsValid t₁
      → Shares t a p r t₁
      → Returns (fpp_route_put p t₁) (λ t'. IsValid t' × SameRoutes t t')
  put_shared t t₁ a p r all v s =
      let (t', run, w) = fpp_route_put-Puts t₁ p _ v s.route in
      let kept =
        agree t t' p (w.released ∙ released-held r (all p r s.was) ∙ sym s.was)
          (λ q ne. w.others q ne ∙ s.others q ne) in
      let alive : leb (r.count + 1) 1 ≡ false = ground (arith, all p r s.was) in
      (t', run, (w.valid, (kept, λ i. w.ids i ∙ rw alive (s.ids i))))

  put_created :
      (t t₁ : FppTable) (a : FppArgs) (p id : ℕ)
      → IsValid t₁
      → Creates t a p id t₁
      → Returns (fpp_route_put p t₁) (λ t'. IsValid t' × SameRoutes t t')
  put_created t t₁ a p id v c =
      let (t', run, w) = fpp_route_put-Puts t₁ p _ v c.route in
      let kept =
        agree t t' p (w.released ∙ released-new a id ∙ sym c.was)
          (λ q ne. w.others q ne ∙ c.others q ne) in
      let zero_held = new_route-count a id in
      let same_id = new_route-id a id in
      (
        t',
        run,
        (w.valid, (kept, λ i. ground (arith, w.ids i, c.ids i, c.was_free, zero_held, same_id))),
      )

  -- A holder that takes a route and lets go of it leaves the routes, their counts and the
  -- identifiers as they were.
  pub fpp_route_get-put :
      (t : FppTable) (memory : Option ℕ) (a : FppArgs) (j : ℕ)
      → IsValid t
      → AllHeld t
      → IsArgs a
      → ((p : ℕ) → memory ≡ some p → t.routes p ≡ none)
      → 0 < j
      → j < route_max_id
      → test_id t.ids j ≡ false
      → Returns (fpp_route_get memory a t >>= let_go) (λ t'. IsValid t' × SameRoutes t t')
  fpp_route_get-put t memory a j v all args fresh lo hi free =
      let (res, run, (v₁, cases)) = fpp_route_get-Gets t memory a j v args fresh lo hi free in
      elim cases [
        | inl (p, r, e, s) ↦ rw run (rw (e, let_go) (put_shared t res.1 a p r all v₁ s))
        | inr (inl (p, id, _, e, c)) ↦ rw run (rw (e, let_go) (put_created t res.1 a p id v₁ c))
        | inr (inr (out, e, miss)) ↦
            rw (run, ◌>>=◌) (rw (e, let_go) (t, refl, (v, ((λ q. refl), λ i. refl))))
      ]
