-- ===== src/Conntrack/Ids.antt =====
-- src/conntrack.c, lines 334-389: the identifiers under which the kernel knows a connection. The
-- array keeps a set, with 0 for a free place.
use cmm.Prelude.{
  ℕ, ◌+◌, ◌-◌, ◌≤◌, ◌<◌, ◌≡◌, ◌≢◌, refl, Bool, true, false, Option, none, some, List, [], ◌∷◌,
  arith, ◌==◌, if◌then◌else◌, length, mem, Distinct, mem-NotIn, NotIn-mem, Bool-cases, Option-cases,
  inl, inr,
}
use cmm.Conntrack.{CtTable, max_ct_id, store_id}

unfoldable pub ct_find_id : ℕ → CtTable → Bool
ct_find_id id e = mem id e.ids

-- The loop of `__cmmCtDelId`: the array without the first place that has the identifier.
unfoldable pub clear_id : ℕ → List ℕ → Option (List ℕ)
clear_id id [] = none
clear_id id (x ∷ xs) =
    let rest : Option (List ℕ) = elim (clear_id id xs) [ none ↦ none | some ys ↦ some (x ∷ ys) ] in
    if id == x then some (0 ∷ xs) else rest

unfoldable pub ct_del_id : ℕ → CtTable → Bool × CtTable
ct_del_id id e = elim (clear_id id e.ids) [
  | none ↦ (false, e)
  | some xs ↦ (true, record e { ids = xs; n_id = e.n_id - 1 })
]

-- The places that are taken.
abbrev pub taken : List ℕ → List ℕ
taken [] = []
taken (x ∷ xs) = if x == 0 then taken xs else x ∷ taken xs

-- An entry that holds a set of identifiers.
pub record Holds (e : CtTable) (ks : List ℕ) : Type 0 where
  pub places : length e.ids ≡ max_ct_id
  pub counted : e.n_id ≡ length ks
  pub distinct : Distinct ks
  pub no_zero : mem 0 ks ≡ false
  pub single : Distinct (taken e.ids)
  pub size : length (taken e.ids) ≡ length ks
  pub same : (q : ℕ) → mem q (taken e.ids) ≡ mem q ks

pub length-taken : (xs : List ℕ) → length (taken xs) ≤ length xs
length-taken [] = omega arith
length-taken (x ∷ xs) = ground (arith, length-taken xs)

pub mem-taken : (q : ℕ) (xs : List ℕ) → q ≢ 0 → mem q (taken xs) ≡ mem q xs
mem-taken q [] h = refl
mem-taken q (x ∷ xs) h = ground (arith, mem-taken q xs h)

-- What the loops leave, of an array that may be full or may lack the identifier.
pub store_id-none : (id : ℕ) (xs : List ℕ) → store_id id xs ≡ none → length (taken xs) ≡ length xs
unfolding store_id
store_id-none id [] h = refl
store_id-none id (x ∷ xs) h = elim (Option-cases (store_id id xs)) [
  | inl full ↦ ground (arith, store_id-none id xs full, full)
  | inr (ys, e) ↦ ground (arith, e)
]

pub record Stores (id : ℕ) (xs ys : List ℕ) : Type 0 where
  pub long : length ys ≡ length xs
  pub more : length (taken ys) ≡ length (taken xs) + 1
  pub room : length (taken xs) < length xs
  pub same : (q : ℕ) → mem q (taken ys) ≡ (if q == id then true else mem q (taken xs))
  pub single : mem id (taken xs) ≡ false → Distinct (taken xs) → Distinct (taken ys)

pub store_id-Stores :
    (id : ℕ) (xs ys : List ℕ) → id ≢ 0 → store_id id xs ≡ some ys → Stores id xs ys
unfolding store_id
store_id-Stores id [] ys h e = absurd (cc)
store_id-Stores id (x ∷ xs) ys h e = elim (Bool-cases (x == 0)) [
  | inl free ↦ record {
    long = ground (arith, e);
    more = ground (arith, e);
    room = ground (arith, length-taken xs);
    same = λ q. ground (arith, e);
    single = λ new d. ground (arith, e, mem-NotIn id (taken xs) (rw free at new));
  }
  | inr used ↦ elim (Option-cases (store_id id xs)) [
    | inl full ↦ absurd (ground (arith, full))
    | inr (zs, f) ↦
        let s = store_id-Stores id xs zs h f in
        record {
          long = ground (arith, e, f, s.long);
          more = ground (arith, e, f, s.more);
          room = ground (arith, s.room);
          same = λ q. ground (arith, e, f, s.same q);
          single = λ new d.
              let d' : Distinct (x ∷ taken xs) = rw used at d in
              let apart : (x == id) ≡ false = ground arith in
              let other : mem x (taken zs) ≡ false =
                ground (arith, s.same x, NotIn-mem x (taken xs) d'.0) in
              let rest : Distinct (taken zs) = s.single (ground arith) d'.1 in
              let here : ys ≡ x ∷ zs = ground (arith, e, f) in
              rw (here, used) (mem-NotIn x (taken zs) other, rest);
        }
  ]
]

pub clear_id-none : (id : ℕ) (xs : List ℕ) → clear_id id xs ≡ none → mem id xs ≡ false
unfolding clear_id
clear_id-none id [] h = refl
clear_id-none id (x ∷ xs) h = elim (Option-cases (clear_id id xs)) [
  | inl absent ↦ ground (arith, clear_id-none id xs absent, absent)
  | inr (ys, e) ↦ absurd (ground (arith, e))
]

pub record Clears (id : ℕ) (xs ys : List ℕ) : Type 0 where
  pub long : length ys ≡ length xs
  pub less : length (taken ys) + 1 ≡ length (taken xs)
  pub here : mem id xs ≡ true
  pub same : (q : ℕ) → mem q (taken ys) ≡ (if q == id then false else mem q (taken xs))
  pub single : Distinct (taken ys)

pub clear_id-Clears :
    (id : ℕ) (xs ys : List ℕ)
    → id ≢ 0
    → Distinct (taken xs)
    → clear_id id xs ≡ some ys
    → Clears id xs ys
unfolding clear_id
clear_id-Clears id [] ys h d e = absurd (cc)
clear_id-Clears id (x ∷ xs) ys h d e = elim (Bool-cases (id == x)) [
  | inl found ↦
      let used : (x == 0) ≡ false = ground arith in
      let d' : Distinct (x ∷ taken xs) = rw used at d in
      let now : ys ≡ 0 ∷ xs = ground (arith, e) in
      record {
        long = ground (arith, now);
        less = ground (arith, now);
        here = ground arith;
        same = λ q. ground (arith, now, NotIn-mem x (taken xs) d'.0);
        single = ground (arith, now, d'.1);
      }
  | inr other ↦ elim (Option-cases (clear_id id xs)) [
    | inl absent ↦ absurd (ground (arith, absent))
    | inr (zs, f) ↦
        let now : ys ≡ x ∷ zs = ground (arith, e, f) in
        elim (Bool-cases (x == 0)) [
          | inl free ↦
              let c = clear_id-Clears id xs zs h (rw free at d) f in
              record {
                long = ground (arith, now, c.long);
                less = ground (arith, now, c.less);
                here = ground (arith, c.here);
                same = λ q. ground (arith, now, c.same q);
                single = ground (arith, now, c.single);
              }
          | inr used ↦
              let d' : Distinct (x ∷ taken xs) = rw used at d in
              let c = clear_id-Clears id xs zs h d'.1 f in
              record {
                long = ground (arith, now, c.long);
                less = ground (arith, now, c.less);
                here = ground (arith, c.here);
                same = λ q. ground (arith, now, c.same q);
                single =
                    let apart : mem x (taken zs) ≡ false =
                      ground (arith, c.same x, NotIn-mem x (taken xs) d'.0) in
                    rw (now, used) (mem-NotIn x (taken zs) apart, c.single);
              }
        ]
  ]
]
