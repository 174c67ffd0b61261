-- ===== src/Fpp/Valid.antt =====
-- src/route_cache.c: the invariant of the table of fast-path routes.
use cmm.Prelude.{
  ℕ, ◌<◌, ◌≡◌, ◌≢◌, refl, sym, ◌∙◌, ap, Bool, true, ◌&&◌, ◌||◌, ◌/◌, Option, none, some, arith,
  ◌==◌, update, Bool-cases, inl, inr,
}
use mathlib.Core.Path.{ap₂}
use cmm.Net.{Jhash, mem_eq}
use cmm.Table.Placed.{IsPlaced, remove-IsPlaced, modify-IsPlaced}
use cmm.Table.{unlink}
use cmm.RouteIds.{route_max_id, test_id, del_route_id}
use cmm.RouteIds.Alloc.{test_id-del, route_id-del}
use cmm.Fpp.{FppRt, FppArgs, FppTable, FppFlags, empty, fpp_match}
use cmm.Fpp.Key.{args_of, home}

module _ ⦃jhash : Jhash⦄ where
  -- Each route is on the list of its bucket. Its identifier is in range, marked, and its own; no
  -- other identifier is marked. No two routes have one key.
  pub record IsValid (t : FppTable) : Type 0 where
    pub placed : IsPlaced home t.routes t.table
    pub cursor : t.ids.route_id < route_max_id
    pub owned :
        (p : ℕ) (r : FppRt)
        → t.routes p ≡ some r
        → (0 < r.id) × (r.id < route_max_id) × (test_id t.ids r.id ≡ true)
    pub unique :
        (p q : ℕ) (r s : FppRt) → t.routes p ≡ some r → t.routes q ≡ some s → r.id ≡ s.id → p ≡ q
    pub used :
        (i : ℕ)
        → test_id t.ids i ≡ true
        → (p : ℕ) × (r : FppRt) × (t.routes p ≡ some r) × (r.id ≡ i)
    pub keyed :
        (p q : ℕ) (r s : FppRt)
        → t.routes p ≡ some r
        → t.routes q ≡ some s
        → fpp_match (args_of r) s ≡ true
        → p ≡ q

  pub empty-IsValid : IsValid empty
  unfolding test_id
  empty-IsValid = record {
    placed = record { placed = λ p k. refl; distinct = λ k. tt };
    cursor = omega arith;
    owned = λ p r h. cc;
    unique = λ p q r s h. cc;
    used = λ i h. cc;
    keyed = λ p q r s h. cc;
  }

-- A new count and new flags for the route at an address.
abbrev pub rewrite : FppTable → ℕ → FppRt → ℕ → FppFlags → FppTable
rewrite t p r n f = record t {
  routes = update t.routes p (some (record r { count = n; flags = f }));
}

-- A route that is read after such a change was there before, up to its count and flags.
before :
    (t : FppTable) (p : ℕ) (r : FppRt) (n : ℕ) (f : FppFlags) (q : ℕ) (s : FppRt)
    → t.routes p ≡ some r
    → (rewrite t p r n f).routes q ≡ some s
    → (s' : FppRt) × (t.routes q ≡ some s') × (s'.id ≡ s.id) × (args_of s' ≡ args_of s)
before t p r n f q s here h = elim (Bool-cases (q == p)) [
  | inl same ↦ (r, ground arith, ground arith, ground arith)
  | inr other ↦ (s, ground arith, refl, refl)
]

-- The test of `fpp_match` on the key of the route.
abbrev key_match : FppArgs → FppArgs → Bool
key_match a r =
    mem_eq 6 r.dst_mac a.dst_mac
    && (r.oifindex == a.oifindex
        && (r.iifindex == a.iifindex
            && (r.mtu == a.mtu
                && (a.dst_addr_len == r.dst_addr_len
                    && (a.dst_addr_len == 0
                        || mem_eq (a.dst_addr_len / 4) r.dst_addr a.dst_addr)))))

match_congr :
    (a b : FppArgs) (r s : FppRt) → a ≡ b → args_of r ≡ args_of s → fpp_match a r ≡ fpp_match b s
unfolding fpp_match
match_congr a b r s e h = ap₂ key_match e h

after :
    (t : FppTable) (p : ℕ) (r : FppRt) (n : ℕ) (f : FppFlags) (q : ℕ) (s : FppRt)
    → t.routes p ≡ some r
    → t.routes q ≡ some s
    → (s' : FppRt) × ((rewrite t p r n f).routes q ≡ some s') × (s'.id ≡ s.id)
after t p r n f q s here h = elim (Bool-cases (q == p)) [
  | inl same ↦ (record r { count = n; flags = f }, rw same, ground arith)
  | inr other ↦ (s, rw other h, refl)
]

abbrev id_of : Option FppRt → ℕ
id_of none = 0
id_of (some r) = r.id

module _ ⦃jhash : Jhash⦄ where
  -- A change of the count or the flags of a route keeps the invariant.
  pub rewrite-IsValid :
      (t : FppTable) (p : ℕ) (r : FppRt) (n : ℕ) (f : FppFlags)
      → t.routes p ≡ some r
      → IsValid t
      → IsValid (rewrite t p r n f)
  rewrite-IsValid t p r n f here v = record {
    placed = modify-IsPlaced home t.routes t.table p r _ here refl v.placed;
    cursor = v.cursor;
    owned =
        λ q s h. let (s', e, i, a) = before t p r n f q s here h in ground (arith, v.owned q s' e);
    unique = λ q₁ q₂ s₁ s₂ h₁ h₂ e.
        let (s₁', e₁, i₁, a₁) = before t p r n f q₁ s₁ here h₁ in
        let (s₂', e₂, i₂, a₂) = before t p r n f q₂ s₂ here h₂ in
        v.unique q₁ q₂ s₁' s₂' e₁ e₂ (i₁ ∙ e ∙ sym i₂);
    used = λ i h.
        let (q, s, e, j) = v.used i h in
        let (s', e', j') = after t p r n f q s here e in (q, s', e', j' ∙ j);
    keyed = λ q₁ q₂ s₁ s₂ h₁ h₂ e.
        let (s₁', e₁, i₁, a₁) = before t p r n f q₁ s₁ here h₁ in
        let (s₂', e₂, i₂, a₂) = before t p r n f q₂ s₂ here h₂ in
        v.keyed q₁ q₂ s₁' s₂' e₁ e₂ (match_congr _ _ s₂' s₂ a₁ a₂ ∙ e);
  }

-- The table that `__cmmFPPRouteRemove` leaves.
abbrev pub removed : FppTable → ℕ → FppRt → FppTable
removed t p r = record {
  routes = update t.routes p none;
  table = unlink p t.table;
  ids = del_route_id t.ids r.id;
}

survives :
    (t : FppTable) (p : ℕ) (r : FppRt) (q : ℕ) (s : FppRt)
    → (removed t p r).routes q ≡ some s
    → (q ≢ p) × (t.routes q ≡ some s)
survives t p r q s h = (λ e. ground arith, ground arith)

module _ ⦃jhash : Jhash⦄ where
  pub removed-IsValid :
      (t : FppTable) (p : ℕ) (r : FppRt) → t.routes p ≡ some r → IsValid t → IsValid (removed t p r)
  removed-IsValid t p r here v = record {
    placed = remove-IsPlaced home t.routes t.table p v.placed;
    cursor = rw (route_id-del t.ids r.id) v.cursor;
    owned = λ q s h.
        let (ne, e) = survives t p r q s h in
        ground (arith, v.owned q s e, v.unique q p s r e here, test_id-del t.ids r.id s.id);
    unique = λ q₁ q₂ s₁ s₂ h₁ h₂ e.
        v.unique q₁ q₂ s₁ s₂ (survives t p r q₁ s₁ h₁).1 (survives t p r q₂ s₂ h₂).1 e;
    used = λ i h.
        let old : test_id t.ids i ≡ true = ground (arith, test_id-del t.ids r.id i) in
        let other : i ≢ r.id = ground (arith, test_id-del t.ids r.id i) in
        let (q, s, e, j) = v.used i old in
        let ne : q ≢ p = λ same. other (sym j ∙ ap id_of (sym e ∙ ap t.routes same ∙ here)) in
        (q, s, ground arith, j);
    keyed = λ q₁ q₂ s₁ s₂ h₁ h₂ e.
        v.keyed q₁ q₂ s₁ s₂ (survives t p r q₁ s₁ h₁).1 (survives t p r q₂ s₂ h₂).1 e;
  }
