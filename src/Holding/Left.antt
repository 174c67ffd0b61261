-- ===== src/Holding/Left.antt =====
-- src/conntrack.c, `__cmmRouteDeregister`: what a holder leaves to the other holders.
use cmm.Prelude.{
  ℕ, ◌-◌, ◌<◌, ◌≤◌, ◌≡◌, ◌≢◌, refl, sym, ◌∙◌, Bool, true, false, none, some, List, ◌∷◌, map, arith,
  ◌==◌, erase, mem-erase, Distinct-erase, Bool-cases, Option-cases, inl, inr,
}
use cmm.Net.{Jhash}
use cmm.RouteEntry.{RtEntry}
use cmm.Fpp.{FppRt}
use cmm.Engine.{FastPath}
use cmm.Holding.{LetsGo}
use cmm.Holding.Counts.{
  pointers_to, points_to, points_to-some, routes_with, Neighbored, routes_with_congr,
  routes_with-erase,
}
use cmm.Holding.Register.{CtRoute, Tables, LetGo}
use cmm.Holding.Connection.{Held}

module _ ⦃fast_path : FastPath⦄ ⦃jhash : Jhash⦄ (holds : fast_path.State → ℕ → Bool) (s : Tables)
    (rt : CtRoute) (rts : List CtRoute) (res : CtRoute × Tables) (h : Held holds s (rt ∷ rts))
    (d : LetGo holds s rt res) where
  fpp_left :
      (p : ℕ)
      → pointers_to p (map (λ (rt : CtRoute). rt.fpp_route) rts) ≢ 0
      → (r : FppRt) × (res.1.fpp.routes p ≡ some r)
        × (pointers_to p (map (λ (rt : CtRoute). rt.fpp_route) rts) ≤ r.count)
  fpp_left p some_left = elim (Option-cases rt.fpp_route) [
    | inl nothing ↦
        let (r, here, many) = h.fpp p (ground (arith, nothing)) in
        (r, ground (arith, here, d.fpp_kept nothing), ground (arith, nothing))
    | inr (q, e) ↦ elim (Bool-cases (q == p)) [
      | inl same ↦
          let (r, here, many) = h.fpp p (ground (arith, e)) in
          let at : rt.fpp_route ≡ some p = ground (arith, e) in
          let more = (d.fpp p r at here).more (ground (arith, e)) in
          (record r { count = r.count - 1 }, more, ground (arith, e))
      | inr other ↦
          let (r, here, many) = h.fpp p (ground (arith, e)) in
          let (r₀, here₀, many₀) = h.fpp q (ground (arith, e)) in
          let kept = (d.fpp q r₀ e here₀).others p (ground arith) in
          (r, kept ∙ here, ground (arith, e))
    ]
  ]

  route_left :
      (p : ℕ)
      → pointers_to p (map (λ (rt : CtRoute). rt.route) rts) ≢ 0
      → (r : RtEntry) × (res.1.routes.entries p ≡ some r)
        × (pointers_to p (map (λ (rt : CtRoute). rt.route) rts) ≤ r.count)
  route_left p some_left = elim (Option-cases rt.route) [
    | inl nothing ↦
        let (r, here, many) = h.route p (ground (arith, nothing)) in
        let (kept, kept_neighs) = d.route_kept nothing in
        (r, ground (arith, here, kept), ground (arith, nothing))
    | inr (q, e) ↦ elim (Bool-cases (q == p)) [
      | inl same ↦
          let (r, here, many) = h.route p (ground (arith, e)) in
          let at : rt.route ≡ some p = ground (arith, e) in
          let released = (d.route p r at here).route in
          (record r { count = r.count - 1 }, ground (arith, released, e), ground (arith, e))
      | inr other ↦
          let (r, here, many) = h.route p (ground (arith, e)) in
          let (r₀, here₀, many₀) = h.route q (ground (arith, e)) in
          let kept = (d.route q r₀ e here₀).others p (ground arith) in
          (r, kept ∙ here, ground (arith, e))
    ]
  ]

  module _ (p : ℕ) (r : RtEntry) (e : rt.route ≡ some p) (here : s.routes.entries p ≡ some r)
      (some_holder : 0 < r.count) where
    after : LetsGo s.routes s.neighs p r (res.1.routes, res.1.neighs)
    after = d.route p r e here

    -- The last holder of a route, and one holder of its neighbour.
    freed-Neighbored : (r.count == 1) ≡ true → Neighbored res.1.routes res.1.neighs
    freed-Neighbored last =
        let v = h.neighbored in
        let gone : res.1.routes.entries p ≡ none = ground (arith, after.route) in
        let less = λ (q : ℕ).
          routes_with-erase s.routes.entries res.1.routes.entries q p v.live (v.named p r here)
            v.distinct after.others in
        record {
          live = erase p v.live;
          distinct = Distinct-erase p v.live v.distinct;
          named = λ x b there. elim (Bool-cases (x == p)) [
            | inl same ↦ absurd (ground (arith, there, gone))
            | inr other ↦
                let was : s.routes.entries x ≡ some b =
                  sym (after.others x (ground arith)) ∙ there in
                ground (arith, mem-erase x p v.live v.distinct, v.named x b was)
          ];
          alive = λ q some_left. elim (Bool-cases (points_to r.neigh_entry q)) [
            | inl mine ↦
                let own : r.neigh_entry ≡ some q = points_to-some r.neigh_entry q mine in
                let (n, there, many) = v.alive q (ground (arith, less q, here, mine)) in
                let two : routes_with res.1.routes.entries q (erase p v.live) < n.count =
                  ground (arith, less q, here, mine) in
                (
                  record n { count = n.count - 1 },
                  ground (arith, after.neighbor q n own there, last),
                  omega arith,
                )
            | inr not_mine ↦
                let (n, there, many) = v.alive q (ground (arith, less q, here, not_mine)) in
                (
                  n,
                  after.other_neighs q (λ own. ground (arith, own, not_mine)) ∙ there,
                  ground (arith, less q, here, not_mine),
                )
          ];
        }

    kept-Neighbored : (r.count == 1) ≡ false → Neighbored res.1.routes res.1.neighs
    kept-Neighbored more =
        let v = h.neighbored in
        let now : res.1.routes.entries p ≡ some (record r { count = r.count - 1 }) =
          ground (arith, after.route) in
        let same = λ (q : ℕ). routes_with_congr s.routes.entries res.1.routes.entries q v.live (λ x.
          elim (Bool-cases (x == p)) [
            | inl at ↦ ground (arith, now, here)
            | inr other ↦ rw (after.others x (ground arith)) refl
          ]) in
        record {
          live = v.live;
          distinct = v.distinct;
          named = λ x b there. elim (Bool-cases (x == p)) [
            | inl at ↦ ground (arith, v.named p r here)
            | inr other ↦ v.named x b (sym (after.others x (ground arith)) ∙ there)
          ];
          alive = λ q some_left.
              let (n, there, many) = v.alive q (ground (arith, same q)) in
              elim (Bool-cases (points_to r.neigh_entry q)) [
                | inl mine ↦
                    let own : r.neigh_entry ≡ some q = points_to-some r.neigh_entry q mine in
                    (n, ground (arith, after.neighbor q n own there, more), ground (arith, same q))
                | inr not_mine ↦ (
                  n,
                  after.other_neighs q (λ own. ground (arith, own, not_mine)) ∙ there,
                  ground (arith, same q),
                )
              ];
        }

  neighbored_left : Neighbored res.1.routes res.1.neighs
  neighbored_left = elim (Option-cases rt.route) [
    | inl nothing ↦
        let (kept, kept_neighs) = d.route_kept nothing in rw (kept, kept_neighs) h.neighbored
    | inr (p, e) ↦
        let (r, here, many) = h.route p (ground (arith, e)) in
        let some_holder : 0 < r.count = ground (arith, e) in
        elim (Bool-cases (r.count == 1)) [
          | inl last ↦ freed-Neighbored p r e here some_holder last
          | inr more ↦ kept-Neighbored p r e here some_holder more
        ]
  ]

  pub held_left : Held holds res.1 rts
  held_left = record { fpp = fpp_left; route = route_left; neighbored = neighbored_left }
