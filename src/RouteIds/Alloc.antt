-- ===== src/RouteIds/Alloc.antt =====
-- src/route_cache.c, `new_route_id` and `del_route_id`: what they do to the set of identifiers.
use cmm.Prelude.{
  ℕ, zero, suc, ◌+◌, ◌-◌, ◌/◌, ◌%◌, ◌≤◌, ◌<◌, ◌≡◌, ◌≢◌, refl, Bool, true, false, arith, ltb, ◌==◌,
  if◌then◌else◌, none, some, Bool-cases, Option-cases, ◌⊎◌, inl, inr, sym, ◌∙◌,
}
use mathlib.Core.Path.{subst}
use mathlib.Core.Bool.{false≢true}
use mathlib.Core.Option.{some-injective}
use cmm.RouteIds.{
  RouteIds, route_max_id, test_id, write_bit, set_id, next_id, new_route_id, del_route_id,
}

-- An identifier is its word and its bit.
same_bit : (a b : ℕ) → a / 32 ≡ b / 32 → a % 32 ≡ b % 32 → a ≡ b
same_bit a b h k = omega arith

test_id-write :
    (w : ℕ → ℕ → Bool) (n id j : ℕ) (v : Bool)
    → test_id (record { route_id = n; route_ids = write_bit w (id / 32) (id % 32) v }) j
      ≡ (if j == id then v else w (j / 32) (j % 32))
unfolding test_id write_bit
test_id-write w n id j v = ground (arith, same_bit j id)

test_id-set :
    (t : RouteIds) (id j : ℕ) → test_id (set_id t id) j ≡ (if j == id then true else test_id t j)
unfolding set_id test_id
test_id-set t id j = test_id-write t.route_ids t.route_id id j true

-- `del_route_id` gives up one identifier and no other.
pub test_id-del :
    (t : RouteIds) (id j : ℕ)
    → test_id (del_route_id t id) j ≡ (if j == id then false else test_id t j)
unfolding del_route_id test_id
test_id-del t id j = test_id-write t.route_ids t.route_id id j false

pub route_id-del : (t : RouteIds) (id : ℕ) → (del_route_id t id).route_id ≡ t.route_id
unfolding del_route_id
route_id-del t id = refl

-- The rounds from `cur` until `j` is tried.
abbrev pub rounds : ℕ → ℕ → ℕ
rounds cur j = if ltb cur j then j - cur else j + (route_max_id - 1) - cur

-- What a call that returned the identifier `id` and the bitmap `t'` has done.
pub record Allocates (t : RouteIds) (id : ℕ) (t' : RouteIds) : Type 0 where
  pub positive : 0 < id
  pub below : id < route_max_id
  pub was_free : test_id t id ≡ false
  pub next : t'.route_id ≡ id
  pub marks : (j : ℕ) → test_id t' j ≡ (if j == id then true else test_id t j)

next_id_bounds : (id : ℕ) → (0 < next_id id) × (next_id id < route_max_id)
unfolding next_id
next_id_bounds id = ground arith

rounds-next :
    (cur j : ℕ)
    → cur < route_max_id
    → 0 < j
    → j < route_max_id
    → next_id cur ≢ j
    → rounds (next_id cur) j + 1 ≡ rounds cur j
unfolding next_id
rounds-next cur j h lo hi ne = ground arith

-- The bitmap does not depend on where the search stands.
test_id-from : (t : RouteIds) (n j : ℕ) → test_id (record t { route_id = n }) j ≡ test_id t j
unfolding test_id
test_id-from t n j = refl

Allocates-from :
    (t : RouteIds) (n id : ℕ) (t' : RouteIds)
    → Allocates (record t { route_id = n }) id t'
    → Allocates t id t'
unfolding test_id
Allocates-from t n id t' a = record {
  positive = a.positive;
  below = a.below;
  was_free = a.was_free;
  next = a.next;
  marks = a.marks;
}

set_id-Allocates :
    (t : RouteIds)
    → test_id t (next_id t.route_id) ≡ false
    → Allocates t
        (next_id t.route_id)
        (set_id (record t { route_id = next_id t.route_id }) (next_id t.route_id))
unfolding test_id set_id
set_id-Allocates t free = record {
  positive = (next_id_bounds t.route_id).0;
  below = (next_id_bounds t.route_id).1;
  was_free = free;
  next = refl;
  marks = λ j. test_id-set (record t { route_id = next_id t.route_id }) (next_id t.route_id) j;
}

-- The search stops in the current round, or goes on.
new_route_id-cases :
    (fuel : ℕ) (t : RouteIds)
    → let id = next_id t.route_id in
      let t' = record t { route_id = id } in
      ((test_id t id ≡ true) × (new_route_id (suc fuel) t ≡ new_route_id fuel t'))
      ⊎ ((test_id t id ≡ false) × (new_route_id (suc fuel) t ≡ some (id, set_id t' id)))
unfolding new_route_id
new_route_id-cases fuel t = elim (Bool-cases (test_id t (next_id t.route_id))) [
  | inl e ↦ inl (e, rw e)
  | inr e ↦ inr (e, rw e)
]

-- An identifier that is returned was free, is in range, and is the only one that is marked.
new_route_id-Allocates :
    (fuel : ℕ) (t : RouteIds) (id : ℕ) (t' : RouteIds)
    → new_route_id fuel t ≡ some (id, t')
    → Allocates t id t'
unfolding new_route_id
new_route_id-Allocates zero t id t' h = cc
new_route_id-Allocates (suc fuel) t id t' h = elim (new_route_id-cases fuel t) [
  | inl (e, step) ↦ Allocates-from t _ id t' (
      new_route_id-Allocates fuel (record t { route_id = next_id t.route_id }) id t' (sym step ∙ h))
  | inr (e, step) ↦
      subst (λ r. Allocates t r.0 r.1) (some-injective _ _ (sym step ∙ h)) (set_id-Allocates t e)
]

-- A free identifier `j` ends the search after at most `rounds` rounds.
search_ends :
    (fuel : ℕ) (t : RouteIds) (j : ℕ)
    → t.route_id < route_max_id
    → 0 < j
    → j < route_max_id
    → test_id t j ≡ false
    → rounds t.route_id j ≤ fuel
    → new_route_id fuel t ≢ none
unfolding new_route_id
search_ends zero t j h lo hi free r e = ground arith
search_ends (suc fuel) t j h lo hi free r e = elim (new_route_id-cases fuel t) [
  | inl (used, step) ↦
      let miss : next_id t.route_id ≢ j = λ q. cc in
      let t' : RouteIds = record t { route_id = next_id t.route_id } in
      search_ends fuel t' j (next_id_bounds t.route_id).1 lo hi
        (test_id-from t (next_id t.route_id) j ∙ free)
        (omega (arith, rounds-next t.route_id j h lo hi miss)) (sym step ∙ e)
  | inr (_, step) ↦ cc
]

-- With the fuel of one round for each identifier, the search returns whenever an identifier is free.
pub new_route_id_total :
    (t : RouteIds) (j : ℕ)
    → t.route_id < route_max_id
    → 0 < j
    → j < route_max_id
    → test_id t j ≡ false
    → (id : ℕ) × (t' : RouteIds) × (new_route_id route_max_id t ≡ some (id, t')) × Allocates t id t'
new_route_id_total t j h lo hi free = elim (Option-cases (new_route_id route_max_id t)) [
  | inl e ↦ absurd (search_ends route_max_id t j h lo hi free (ground arith) e)
  | inr (r, e) ↦ (r.0, r.1, e, new_route_id-Allocates route_max_id t r.0 r.1 e)
]

-- Where every identifier is taken no fuel is enough: the loop of the source never ends.
pub new_route_id_exhausted :
    (t : RouteIds)
    → ((j : ℕ) → 0 < j → j < route_max_id → test_id t j ≡ true)
    → (fuel : ℕ) → new_route_id fuel t ≡ none
unfolding new_route_id
new_route_id_exhausted t full zero = refl
new_route_id_exhausted t full (suc fuel) =
    let (lo, hi) = next_id_bounds t.route_id in
    let rest =
      new_route_id_exhausted (record t { route_id = next_id t.route_id })
        (λ j l h. test_id-from t (next_id t.route_id) j ∙ full j l h) fuel in
    elim (new_route_id-cases fuel t) [
      | inl (used, step) ↦ step ∙ rest
      | inr (free, step) ↦ absurd (false≢true (sym free ∙ full _ lo hi))
    ]
