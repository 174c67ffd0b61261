-- ===== src/Fpp/Add.antt =====
-- src/route_cache.c, `__cmmFPPRouteFind` and `__cmmFPPRouteAdd`.
use cmm.Prelude.{
  ℕ, ◌≡◌, ◌≢◌, ◌⊎◌, refl, sym, ◌∙◌, ap, true, false, none, some, arith, ◌==◌, update,
  update-eq-some, Bool-cases, inl, inr,
}
use mathlib.Core.Bool.{false≢true}
use cmm.Prelude.Run.{done}
use cmm.Net.{Jhash}
use cmm.Table.{link}
use cmm.Table.Placed.{insert-IsPlaced, scan-Finds}
use cmm.RouteIds.{RouteIds}
use cmm.RouteIds.Alloc.{Allocates}
use cmm.Fpp.{FppRt, FppArgs, FppTable, fpp_match, fpp_route_find, new_route}
use cmm.Fpp.Key.{args_of, home, args_home, home-match, IsArgs, match_symm, match_trans, match-new}
use cmm.Fpp.Valid.{IsValid}

-- No route of the table passes the test for `a`.
abbrev pub Misses : FppTable → FppArgs → Type 0
Misses t a = (q : ℕ) (s : FppRt) → t.routes q ≡ some s → fpp_match a s ≡ false

abbrev id_of : FppRt → ℕ
id_of r = r.id

module _ ⦃jhash : Jhash⦄ where
  -- On a valid table the search visits no freed route, and it misses no route.
  pub fpp_route_find_cases :
      (t : FppTable) (a : FppArgs)
      → IsValid t
      → ((fpp_route_find a t ≡ done none) × Misses t a)
        ⊎ ((p : ℕ) × (r : FppRt) × (fpp_route_find a t ≡ done (some p))
            × (t.routes p ≡ some r)
            × (fpp_match a r ≡ true))
  unfolding fpp_route_find
  fpp_route_find_cases t a v =
      elim (scan-Finds home (fpp_match a) t.routes t.table v.placed (args_home a)) [
        | inl (missed, all) ↦ inl (
          missed,
          λ q s e. elim (Bool-cases (fpp_match a s)) [
            | inl hit ↦ absurd (false≢true (sym (all q s e (home-match a s hit)) ∙ hit))
            | inr miss ↦ miss
          ],
        )
        | inr (p, r, found, e, h, hit) ↦ inr (p, r, found, e, hit)
      ]

  -- The table that `__cmmFPPRouteAdd` leaves.
  abbrev pub added : FppTable → ℕ → FppRt → RouteIds → FppTable
  added t p r ids = record {
    routes = update t.routes p (some r);
    table = link (home r) p t.table;
    ids = ids;
  }

  pub new_route-id : (a : FppArgs) (id : ℕ) → (new_route a id).id ≡ id
  unfolding new_route
  new_route-id a id = refl

  -- The new identifier is not the one of a route that was there.
  new_id-ne :
      (t : FppTable) (a : FppArgs) (id : ℕ) (ids : RouteIds) (q : ℕ) (s : FppRt)
      → IsValid t
      → Allocates t.ids id ids
      → t.routes q ≡ some s
      → s.id ≢ id
  new_id-ne t a id ids q s v al h e =
      absurd (false≢true (sym (rw e al.was_free) ∙ (v.owned q s h).2))

  -- The new route and a route that was there have different keys.
  new_key-ne :
      (t : FppTable) (a : FppArgs) (id : ℕ) (q : ℕ) (s : FppRt)
      → IsArgs a
      → Misses t a
      → t.routes q ≡ some s
      → (fpp_match (args_of (new_route a id)) s ≢ true)
        × (fpp_match (args_of s) (new_route a id) ≢ true)
  new_key-ne t a id q s args miss h =
      let r = new_route a id in
      let apart = λ (e : fpp_match (args_of r) s ≡ true).
        false≢true (sym (miss q s h) ∙ match_trans a r s (match-new a id args) e) in
      (λ e. apart e, λ e. apart (match_symm s r e))

  pub added-IsValid :
      (t : FppTable) (a : FppArgs) (p id : ℕ) (ids : RouteIds)
      → IsValid t
      → IsArgs a
      → t.routes p ≡ none
      → Misses t a
      → Allocates t.ids id ids
      → IsValid (added t p (new_route a id) ids)
  added-IsValid t a p id ids v args fresh miss al = record {
    placed = insert-IsPlaced home t.routes t.table p (new_route a id) fresh v.placed;
    cursor = rw al.next al.below;
    owned = λ q s h. elim (update-eq-some t.routes p r q s h) [
      | inl (_, new) ↦ rw (new, new_route-id) (ground (arith, al.positive, al.below, al.marks id))
      | inr (_, old) ↦ ground (arith, v.owned q s old, al.marks s.id)
    ];
    unique = λ q₁ q₂ s₁ s₂ h₁ h₂ e. elim (update-eq-some t.routes p r q₁ s₁ h₁) [
      | inl (here₁, new₁) ↦ elim (update-eq-some t.routes p r q₂ s₂ h₂) [
        | inl (here₂, new₂) ↦ here₁ ∙ sym here₂
        | inr (_, old₂) ↦
            absurd
              (new_id-ne t a id ids q₂ s₂ v al old₂ (sym e ∙ ap id_of new₁ ∙ new_route-id a id))
      ]
      | inr (_, old₁) ↦ elim (update-eq-some t.routes p r q₂ s₂ h₂) [
        | inl (here₂, new₂) ↦
            absurd (new_id-ne t a id ids q₁ s₁ v al old₁ (e ∙ ap id_of new₂ ∙ new_route-id a id))
        | inr (_, old₂) ↦ v.unique q₁ q₂ s₁ s₂ old₁ old₂ e
      ]
    ];
    used = λ i h. elim (Bool-cases (i == id)) [
      | inl new ↦ (p, r, ground arith, ground (arith, new_route-id a id))
      | inr old ↦
          let (q, s, here, j) = v.used i (ground (arith, al.marks i)) in
          (q, s, ground (arith, fresh, here), j)
    ];
    keyed = λ q₁ q₂ s₁ s₂ h₁ h₂ e. elim (update-eq-some t.routes p r q₁ s₁ h₁) [
      | inl (here₁, new₁) ↦ elim (update-eq-some t.routes p r q₂ s₂ h₂) [
        | inl (here₂, new₂) ↦ here₁ ∙ sym here₂
        | inr (_, old₂) ↦ absurd ((new_key-ne t a id q₂ s₂ args miss old₂).0 (rw new₁ at e))
      ]
      | inr (_, old₁) ↦ elim (update-eq-some t.routes p r q₂ s₂ h₂) [
        | inl (here₂, new₂) ↦ absurd ((new_key-ne t a id q₁ s₁ args miss old₁).1 (rw new₂ at e))
        | inr (_, old₂) ↦ v.keyed q₁ q₂ s₁ s₂ old₁ old₂ e
      ]
    ];
  }
    where
      r : FppRt
      r = new_route a id
