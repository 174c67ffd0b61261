-- ===== src/Routes/Get.antt =====
-- src/route_cache.c, `__cmmRouteGet`: a route of the kernel for a flow.
use cmm.Prelude.{
  ℕ, ◌+◌, ◌/◌, ◌≡◌, ◌⊎◌, refl, ap, ◌∙◌, Bool, true, false, Option, none, some, List, arith, ◌==◌,
  if◌then◌else◌, Bool-cases, Option-cases, inl, inr,
}
use cmm.Prelude.Run.{done, ◌>>=◌, Returns}
use cmm.Net.{Jhash, ip_addr_len, hash_rt}
use cmm.Table.{link}
use cmm.Table.Placed.{scan-Finds}
use cmm.RouteEntry.{RtEntry, Flow, Kernel, blank, netlink_lookup}
use cmm.Routes.{
  Routes, route_equal, if_usable, route_find, rt_home, gw_home, enter, route_add, recount,
  hold_route, route_get,
}
use cmm.Routes.Valid.{IsValid, enter-IsValid, recount-IsValid}
use cmm.Routes.Lookup.{netlink_lookup-flags}

-- The test of `cmmRouteEqual`.
abbrev pub is_route_of : Flow → List ℕ → RtEntry → Bool
is_route_of f saddr r = route_equal (ip_addr_len f.family / 4) saddr f.daddr f.fwmark r

module _ ⦃jhash : Jhash⦄ where
  -- What `__cmmRouteFind` returns: a usable route of the flow, or none where the first route of the
  -- flow on its list is invalid, or where its list has no route of the flow.
  abbrev pub Finds : Flow → List ℕ → Routes → Type 0
  Finds f saddr t =
      ((route_find f t ≡ done none)
        × (((q : ℕ) (r : RtEntry)
              → t.entries q ≡ some r
              → rt_home r ≡ hash_rt f.family saddr f.daddr
              → is_route_of f saddr r ≡ false)
            ⊎ ((q : ℕ) × (r : RtEntry) × (t.entries q ≡ some r)
                × (is_route_of f saddr r ≡ true)
                × (r.invalid ≡ true))))
      ⊎ ((p : ℕ) × (r : RtEntry) × (route_find f t ≡ done (some p))
          × (t.entries p ≡ some r)
          × (is_route_of f saddr r ≡ true)
          × (r.invalid ≡ false))

  -- On valid tables __cmmRouteFind for a flow with a source address visits no freed route: it
  -- returns a usable route of the flow, or none where it met an invalid route of the flow or the
  -- list has no route of the flow.
  route_find_cases :
      (t : Routes) (f : Flow) (saddr : List ℕ) → f.saddr ≡ some saddr → IsValid t → Finds f saddr t
  unfolding route_find if_usable
  route_find_cases t f saddr e v =
      elim (scan-Finds rt_home (is_route_of f saddr) t.entries t.table v.placed
        (hash_rt f.family saddr f.daddr)) [
          | inl (missed, all) ↦ inl (rw (route_find, e, ◌>>=◌, missed), inl all)
          | inr (p, r, found, here, home, hit) ↦ elim (Bool-cases r.invalid) [
            | inl bad ↦
                inl (
                  rw (route_find, e, ◌>>=◌, found, if_usable, here, bad),
                  inr (p, r, here, hit, bad),
                )
            | inr good ↦
                inr (p, r, rw (route_find, e, ◌>>=◌, found, if_usable, here, good), here, hit, good)
          ]
        ]

  -- A call of `__cmmRouteGet` that found the route `r` at `p`.
  pub record Shares (t : Routes) (f : Flow) (saddr : List ℕ) (p : ℕ) (r : RtEntry) (t' : Routes)
      : Type 0 where
    pub was : t.entries p ≡ some r
    same_flow : is_route_of f saddr r ≡ true
    pub usable : r.invalid ≡ false
    pub after : t' ≡ recount p r (r.count + 1) t

  -- A call that made the route `r` of the kernel's answer at `p`.
  pub record Creates (t : Routes) (k : Kernel) (f : Flow) (p : ℕ) (r : RtEntry) (t' : Routes)
      : Type 0 where
    pub missed : route_find f t ≡ done none
    pub learnt : netlink_lookup k f blank ≡ some r
    pub entries :
        (q : ℕ) → t'.entries q ≡ (if q == p then some (record r { count = 1 }) else t.entries q)
    pub table : t'.table ≡ link (rt_home r) p t.table
    pub by_gw : t'.by_gw ≡ link (gw_home r) p t.by_gw

  pub data Gets (t : Routes) (k : Kernel) (memory : Option ℕ) (f : Flow) (saddr : List ℕ)
      : Option ℕ × Routes → Type 0 where
    shared :
        (p : ℕ) (r : RtEntry) (t' : Routes)
        → Shares t f saddr p r t'
        → Gets t k memory f saddr (some p, t')
    created :
        (p : ℕ) (r : RtEntry) (t' : Routes)
        → memory ≡ some p
        → Creates t k f p r t'
        → Gets t k memory f saddr (some p, t')
    failed :
        (memory ≡ none) ⊎ (netlink_lookup k f blank ≡ none)
        → route_find f t ≡ done none
        → Gets t k memory f saddr (none, t)

  pub get_runs :
      (t : Routes) (k : Kernel) (memory : Option ℕ) (f : Flow) (found : Option ℕ)
      (res : Option ℕ × Routes)
      → route_find f t ≡ done found
      → (elim found as (λ o. Option ℕ × Routes) [
        | none ↦ route_add k memory f t
        | some p ↦ (some p, t)
      ])
        ≡ res
      → route_get k memory f t ≡ hold_route res
  unfolding route_get
  get_runs t k memory f found res e h = rw (route_get, e, ◌>>=◌) (ap hold_route h)

  pub hold_runs :
      (t : Routes) (p : ℕ) (r : RtEntry)
      → t.entries p ≡ some r
      → hold_route (some p, t) ≡ done (some p, recount p r (r.count + 1) t)
  unfolding hold_route
  hold_runs t p r here = rw (hold_route, here)

  -- On valid tables a call for a flow with a source address returns and keeps the tables valid. It
  -- shares a usable route of the flow; or it makes one of the kernel's answer, with one holder; or
  -- no memory or no answer was to be had, and nothing changes.
  pub route_get-Gets :
      (t : Routes) (k : Kernel) (memory : Option ℕ) (f : Flow) (saddr : List ℕ)
      → IsValid t
      → f.saddr ≡ some saddr
      → ((p : ℕ) → memory ≡ some p → t.entries p ≡ none)
      → Returns (route_get k memory f t) (λ res. IsValid res.1 × Gets t k memory f saddr res)
  unfolding route_add hold_route
  route_get-Gets t k memory f saddr v e fresh = elim (route_find_cases t f saddr e v) [
    | inr (p, r, found, here, hit, good) ↦
        let t' = recount p r (r.count + 1) t in
        (
          (some p, t'),
          get_runs t k memory f (some p) (some p, t) found refl ∙ hold_runs t p r here,
          (
            recount-IsValid t p r (r.count + 1) here v,
            shared p r t' (record { was = here; same_flow = hit; usable = good; after = refl }),
          ),
        )
    | inl (missed, _) ↦ elim (Option-cases memory) [
      | inl out ↦ (
        (none, t),
        get_runs t k memory f none (none, t) missed (rw (out, route_add)),
        (v, failed (inl out) missed),
      )
      | inr (p, left) ↦ elim (Option-cases (netlink_lookup k f blank)) [
        | inl no_answer ↦ (
          (none, t),
          get_runs t k memory f none (none, t) missed (rw (left, route_add, no_answer)),
          (v, failed (inr no_answer) missed),
        )
        | inr (r, learnt) ↦
            let (zero_held, _, plain) = netlink_lookup-flags k f r learnt in
            let v₁ = enter-IsValid t p r (fresh p left) plain v in
            let t₁ = enter p r t in
            let here₁ : t₁.entries p ≡ some r = ground arith in
            (
              (some p, recount p r (r.count + 1) t₁),
              get_runs t k memory f none (some p, t₁) missed (rw (left, route_add, learnt))
                  ∙ hold_runs t₁ p r here₁,
              (
                recount-IsValid t₁ p r (r.count + 1) here₁ v₁,
                created p r (recount p r (r.count + 1) t₁) left (record {
                  missed = missed;
                  learnt = learnt;
                  entries = λ q. ground arith;
                  table = refl;
                  by_gw = refl;
                }),
              ),
            )
      ]
    ]
  ]
