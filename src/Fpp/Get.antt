-- ===== src/Fpp/Get.antt =====
-- src/route_cache.c, `__cmmFPPRouteGet`: a route for each key, shared by its holders.
use cmm.Prelude.{
  ℕ, ◌+◌, ◌<◌, ◌≡◌, ◌≢◌, ◌⊎◌, refl, sym, ◌∙◌, true, false, Option, none, some, arith, ◌==◌,
  if◌then◌else◌, Option-cases, inl, inr,
}
use mathlib.Core.Bool.{false≢true}
use cmm.Prelude.Run.{done, ◌>>=◌, Returns}
use cmm.Net.{Jhash}
use cmm.RouteIds.{RouteIds, test_id, new_route_id, route_max_id}
use cmm.RouteIds.Alloc.{Allocates, new_route_id_total}
use cmm.Fpp.{
  FppRt, FppArgs, FppTable, fpp_match, fpp_route_find, fpp_route_add, fpp_route_get, take_id, hold,
  new_route,
}
use cmm.Fpp.Key.{IsArgs, match_join}
use cmm.Fpp.Valid.{IsValid, rewrite, rewrite-IsValid}
use cmm.Fpp.Add.{Misses, fpp_route_find_cases, added, added-IsValid}

-- One more holder.
abbrev pub held : FppRt → FppRt
held r = record r { count = r.count + 1 }

module _ ⦃jhash : Jhash⦄ where
  -- The result of a call that found the route `r` at `p`.
  pub record Shares (t : FppTable) (a : FppArgs) (p : ℕ) (r : FppRt) (t' : FppTable) : Type 0 where
    pub was : t.routes p ≡ some r
    pub key : fpp_match a r ≡ true
    pub route : t'.routes p ≡ some (held r)
    pub others : (q : ℕ) → q ≢ p → t'.routes q ≡ t.routes q
    pub ids : (j : ℕ) → test_id t'.ids j ≡ test_id t.ids j

  -- The result of a call that made a route at `p` with the identifier `id`.
  pub record Creates (t : FppTable) (a : FppArgs) (p id : ℕ) (t' : FppTable) : Type 0 where
    pub missed : Misses t a
    pub was : t.routes p ≡ none
    pub was_free : test_id t.ids id ≡ false
    pub route : t'.routes p ≡ some (held (new_route a id))
    pub others : (q : ℕ) → q ≢ p → t'.routes q ≡ t.routes q
    pub ids : (j : ℕ) → test_id t'.ids j ≡ (if j == id then true else test_id t.ids j)

  abbrev pub Gets : FppTable → Option ℕ → FppArgs → Option ℕ × FppTable → Type 0
  Gets t memory a res =
      IsValid res.1
      × (((p : ℕ) × (r : FppRt) × (res.0 ≡ some p) × Shares t a p r res.1)
          ⊎ (((p : ℕ) × (id : ℕ) × (memory ≡ some p) × (res.0 ≡ some p) × Creates t a p id res.1)
              ⊎ ((memory ≡ none) × (res ≡ (none, t)) × Misses t a)))

  hold_runs :
      (t : FppTable) (p : ℕ) (r : FppRt)
      → t.routes p ≡ some r
      → hold (some p, t) ≡ done (some p, rewrite t p r (r.count + 1) r.flags)
  unfolding hold
  hold_runs t p r here = rw (here, hold)

  add_runs :
      (t : FppTable) (a : FppArgs) (p id : ℕ) (ids : RouteIds)
      → new_route_id route_max_id t.ids ≡ some (id, ids)
      → fpp_route_add (some p) a t ≡ done (some p, added t p (new_route a id) ids)
  unfolding fpp_route_add
  add_runs t a p id ids e = rw (e, take_id)

  get_runs :
      (t : FppTable) (memory : Option ℕ) (a : FppArgs) (found : Option ℕ)
      (res : Option ℕ × FppTable)
      → fpp_route_find a t ≡ done found
      → (elim found [ none ↦ fpp_route_add memory a t | some p ↦ done (some p, t) ]) ≡ done res
      → fpp_route_get memory a t ≡ hold res
  unfolding fpp_route_get
  get_runs t memory a found res e k = rw (e, ◌>>=◌, k)

  create_lem :
      (t : FppTable) (a : FppArgs) (p id : ℕ) (ids : RouteIds)
      → IsValid t
      → IsArgs a
      → t.routes p ≡ none
      → fpp_route_find a t ≡ done none
      → Misses t a
      → new_route_id route_max_id t.ids ≡ some (id, ids)
      → Allocates t.ids id ids
      → Returns (fpp_route_get (some p) a t) (Gets t (some p) a)
  create_lem t a p id ids v args fresh missed miss run al =
      let r = new_route a id in
      let t₁ = added t p r ids in
      let here : t₁.routes p ≡ some r = ground arith in
      (
        (some p, rewrite t₁ p r (r.count + 1) r.flags),
        get_runs t (some p) a none (some p, t₁) missed (add_runs t a p id ids run)
            ∙ hold_runs t₁ p r here,
        (
          rewrite-IsValid t₁ p r _ r.flags here (added-IsValid t a p id ids v args fresh miss al),
          inr (
              inl (
                p,
                id,
                refl,
                refl,
                record {
                  missed = miss;
                  was = fresh;
                  was_free = al.was_free;
                  route = ground arith;
                  others = λ q ne. ground arith;
                  ids = al.marks;
                },
              )),
        ),
      )

  -- The call returns so long as an identifier is free, and keeps the table valid. It shares the
  -- route of the key if there is one. Otherwise it makes one, with one holder and a new identifier,
  -- unless no memory is left: then it changes nothing.
  pub fpp_route_get-Gets :
      (t : FppTable) (memory : Option ℕ) (a : FppArgs) (j : ℕ)
      → IsValid t
      → IsArgs a
      → ((p : ℕ) → memory ≡ some p → t.routes p ≡ none)
      → 0 < j
      → j < route_max_id
      → test_id t.ids j ≡ false
      → Returns (fpp_route_get memory a t) (Gets t memory a)
  unfolding fpp_route_add hold
  fpp_route_get-Gets t memory a j v args fresh lo hi free = elim (fpp_route_find_cases t a v) [
    | inr (p, r, found, here, hit) ↦ (
      (some p, rewrite t p r (r.count + 1) r.flags),
      get_runs t memory a (some p) (some p, t) found refl ∙ hold_runs t p r here,
      (
        rewrite-IsValid t p r (r.count + 1) r.flags here v,
        inl (
          p,
          r,
          refl,
          record {
            was = here;
            key = hit;
            route = ground arith;
            others = λ q ne. ground arith;
            ids = λ i. refl;
          },
        ),
      ),
    )
    | inl (missed, miss) ↦ elim (Option-cases memory) [
      | inl out ↦ (
        (none, t),
        get_runs t memory a none (none, t) missed (rw (out, fpp_route_add)),
        (v, inr (inr (out, refl, miss))),
      )
      | inr (p, some_left) ↦
          let (id, ids, run, al) = new_route_id_total t.ids j v.cursor lo hi free in
          rw some_left (create_lem t a p id ids v args (fresh p some_left) missed miss run al)
    ]
  ]

  -- A call for a key that a route has returns that route, also where memory has run out.
  fpp_route_get_shares :
      (t : FppTable) (memory : Option ℕ) (a : FppArgs) (p : ℕ) (r : FppRt)
      → IsValid t
      → t.routes p ≡ some r
      → fpp_match a r ≡ true
      → fpp_route_get memory a t ≡ done (some p, rewrite t p r (r.count + 1) r.flags)
  unfolding hold
  fpp_route_get_shares t memory a p r v here hit = elim (fpp_route_find_cases t a v) [
    | inl (missed, miss) ↦ absurd (false≢true (sym (miss p r here) ∙ hit))
    | inr (q, s, found, there, hit') ↦
        let same : q ≡ p = sym (v.keyed p q r s here there (match_join a r s hit hit')) in
        get_runs t memory a (some p) (some p, t) (rw same at found) refl ∙ hold_runs t p r here
  ]
