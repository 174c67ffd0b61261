-- ===== src/Holding.antt =====
-- src/conntrack.c, lines 2125-2144, `____cmmRouteDeregister`: a holder of a kernel's route lets go of
-- it, and of the route's neighbour with the last holder.
pub mod Counts
pub mod Register
pub mod Connection
pub mod Left
pub mod Teardown
use cmm.Prelude.{
  ℕ, ◌≡◌, ◌≢◌, refl, sym, ap, ◌∙◌, none, some, arith, ◌==◌, if◌then◌else◌, update, Bool-cases,
  Option-cases, inl, inr,
}
use mathlib.Core.Option.{some-injective}
use cmm.Prelude.Run.{Run, done, ◌>>=◌, deref, Returns}
use cmm.Net.{Jhash}
use cmm.Table.Placed.{modify-IsPlaced}
use cmm.RouteEntry.{RtEntry}
use cmm.Routes.{Routes, route_put, rt_home, gw_home}
use cmm.Neigh.{NeighborEntry, Neighs, neigh_put}
use cmm.Routes.Valid.{IsValid}
use cmm.Routes.Put.{route_put-Puts}
use cmm.Neigh.Holders.{neigh_put-Puts}
use cmm.Neigh.Valid
use cmm.Neigh.Holders
use cmm.Routes.Put

-- `route->neighEntry = NULL`
abbrev pub forget : ℕ → RtEntry → Routes → Routes
forget p r t = record t { entries = update t.entries p (some (record r { neigh_entry = none })) }

unfoldable pub put_neighbor : ℕ → RtEntry → Routes → Neighs → Run (Routes × Neighs)
put_neighbor p r t ns =
    if r.count == 1
    then elim r.neigh_entry [
      | none ↦ done (t, ns)
      | some q ↦ neigh_put q ns >>= (λ ns'. done (forget p r t, ns'))
    ]
    else done (t, ns)

unfoldable pub route_let_go : ℕ → Routes → Neighs → Run (Routes × Neighs)
route_let_go p t ns = do
  r ← deref (t.entries p)
  (t', ns') ← put_neighbor p r t ns
  t'' ← route_put p t'
  done (t'', ns')

module _ ⦃jhash : Jhash⦄ where
  forget-IsValid :
      (t : Routes) (p : ℕ) (r : RtEntry) → t.entries p ≡ some r → IsValid t → IsValid (forget p r t)
  forget-IsValid t p r here v = record {
    placed =
        modify-IsPlaced rt_home t.entries t.table p r (record r { neigh_entry = none }) here refl
          v.placed;
    placed_by_gw =
        modify-IsPlaced gw_home t.entries t.by_gw p r (record r { neigh_entry = none }) here refl
          v.placed_by_gw;
    cached = λ q s h. ground (arith, v.cached q s, v.cached p r here);
  }

  -- What a call for the route `r` at `p` leaves.
  pub record LetsGo (t : Routes) (ns : Neighs) (p : ℕ) (r : RtEntry) (res : Routes × Neighs)
      : Type 0 where
    pub valid : IsValid res.0
    pub neighs_valid : Valid.IsValid res.1
    pub route : res.0.entries p ≡ Put.released r
    pub neighbor :
        (q : ℕ) (n : NeighborEntry)
        → r.neigh_entry ≡ some q
        → ns.entries q ≡ some n
        → res.1.entries q ≡ (if r.count == 1 then Holders.released n else some n)
    pub others : (q : ℕ) → q ≢ p → res.0.entries q ≡ t.entries q
    pub other_neighs : (q : ℕ) → r.neigh_entry ≢ some q → res.1.entries q ≡ ns.entries q

  held_by_route :
      (ns ns' : Neighs) (q q' : ℕ) (n n' : NeighborEntry) (r : RtEntry)
      → r.neigh_entry ≡ some q
      → r.neigh_entry ≡ some q'
      → ns.entries q ≡ some n
      → ns.entries q' ≡ some n'
      → ns'.entries q ≡ Holders.released n
      → ns'.entries q' ≡ Holders.released n'
  held_by_route ns ns' q q' n n' r e e' there there' released =
      let same : q ≡ q' = some-injective _ _ (sym e ∙ e') in
      let same_entry : n ≡ n' = some-injective _ _ (sym there ∙ ap ns.entries same ∙ there') in
      ap ns'.entries (sym same) ∙ released ∙ ap Holders.released same_entry

  -- The rest of a call, after the neighbour.
  finish :
      (t t₁ : Routes) (ns ns₁ : Neighs) (p : ℕ) (r r₁ : RtEntry)
      → t.entries p ≡ some r
      → put_neighbor p r t ns ≡ done (t₁, ns₁)
      → IsValid t₁
      → t₁.entries p ≡ some r₁
      → Put.released r₁ ≡ Put.released r
      → ((q : ℕ) → q ≢ p → t₁.entries q ≡ t.entries q)
      → Valid.IsValid ns₁
      → ((q : ℕ) (n : NeighborEntry)
          → r.neigh_entry ≡ some q
          → ns.entries q ≡ some n
          → ns₁.entries q ≡ (if r.count == 1 then Holders.released n else some n))
      → ((q : ℕ) → r.neigh_entry ≢ some q → ns₁.entries q ≡ ns.entries q)
      → Returns (route_let_go p t ns) (LetsGo t ns p r)
  unfolding route_let_go
  finish t t₁ ns ns₁ p r r₁ here first v₁ here₁ same others w₁ neighbor apart =
      let (t', run, w) = route_put-Puts t₁ p r₁ v₁ here₁ in
      (
        (t', ns₁),
        rw (route_let_go, here, ◌>>=◌, first) (rw run),
        record {
          valid = w.valid;
          neighs_valid = w₁;
          route = w.released ∙ same;
          others = λ q ne. w.others q ne ∙ others q ne;
          neighbor = neighbor;
          other_neighs = apart;
        },
      )

  -- On valid tables, for a route whose neighbour is alive, a call returns and keeps both tables
  -- valid. The last holder frees the route and lets go of its neighbour; before that the route
  -- stays, with one holder less, and so does its neighbour. The other routes stay.
  pub route_let_go-LetsGo :
      (t : Routes) (ns : Neighs) (p : ℕ) (r : RtEntry)
      → IsValid t
      → Valid.IsValid ns
      → t.entries p ≡ some r
      → ((q : ℕ) → r.neigh_entry ≡ some q → ns.entries q ≢ none)
      → Returns (route_let_go p t ns) (LetsGo t ns p r)
  unfolding put_neighbor
  route_let_go-LetsGo t ns p r v w here alive = elim (Bool-cases (r.count == 1)) [
    | inr more ↦
        finish t t ns ns p r r here (rw (put_neighbor, more)) v here refl (λ q ne. refl) w
          (λ q n e h. rw more h) (λ q ne. refl)
    | inl last ↦ elim (Option-cases r.neigh_entry) [
      | inl alone ↦
          finish t t ns ns p r r here (rw (put_neighbor, last, alone)) v here refl (λ q ne. refl) w
            (λ q n e h. cc) (λ q ne. refl)
      | inr (q, e) ↦ elim (Option-cases (ns.entries q)) [
        | inl dead ↦ absurd (alive q e dead)
        | inr (n, there) ↦
            let (ns', run, puts) = neigh_put-Puts ns q n w there in
            let r₁ : RtEntry = record r { neigh_entry = none } in
            finish t (forget p r t) ns ns' p r r₁ here (rw (put_neighbor, last, e) (rw run refl))
              (forget-IsValid t p r here v) (ground arith) (ground arith) (λ j ne. ground arith)
              puts.valid
              (λ q' n' e' h'.
                rw last (held_by_route ns ns' q q' n n' r e e' there h' puts.released))
              (λ q' ne. puts.others q' (λ at. ne (e ∙ ap some (sym at))))
      ]
    ]
  ]
