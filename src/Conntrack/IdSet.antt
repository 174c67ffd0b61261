-- ===== src/Conntrack/IdSet.antt =====
-- src/conntrack.c, lines 334-389: the identifiers of an entry as a set.
use cmm.Prelude.{
  ℕ, ◌<◌, ◌≡◌, ◌≢◌, refl, true, false, List, ◌∷◌, arith, length, mem, erase, length-erase,
  mem-erase, Distinct-erase, mem-NotIn, Option-cases, inl, inr,
}
use cmm.Conntrack.{CtTable, max_ct_id, store_id, ct_add_id}
use cmm.Conntrack.Ids.{
  ct_find_id, clear_id, ct_del_id, Holds, mem-taken, store_id-none, store_id-Stores, clear_id-none,
  clear_id-Clears,
}

-- What the operations do to the set.
module _ (e : CtTable) (ks : List ℕ) (id : ℕ) (h : id ≢ 0) (v : Holds e ks) where
  pub ct_find_id-mem : ct_find_id id e ≡ mem id ks
  unfolding ct_find_id
  ct_find_id-mem = ground (arith, v.same id, mem-taken id e.ids h)

  pub ct_add_id-Holds :
      mem id ks ≡ false
      → length ks < max_ct_id
      → ((ct_add_id id e).0 ≡ true) × Holds (ct_add_id id e).1 (id ∷ ks)
  unfolding ct_add_id
  ct_add_id-Holds new room = elim (Option-cases (store_id id e.ids)) [
    | inl full ↦ absurd (omega (arith, store_id-none id e.ids full, v.places, v.size))
    | inr (xs, s) ↦
        let a = store_id-Stores id e.ids xs h s in
        rw (s, ct_add_id)
          (
            refl,
            record {
              places = ground (arith, a.long, v.places);
              counted = ground (arith, v.counted);
              distinct = (mem-NotIn id ks new, v.distinct);
              no_zero = ground (arith, v.no_zero);
              single = a.single (ground (arith, v.same id)) v.single;
              size = ground (arith, a.more, v.size);
              same = λ q. ground (arith, a.same q, v.same q);
            },
          )
  ]

  pub ct_add_id_full : length ks ≡ max_ct_id → ct_add_id id e ≡ (false, e)
  unfolding ct_add_id
  ct_add_id_full full = elim (Option-cases (store_id id e.ids)) [
    | inl none_free ↦ rw (none_free, ct_add_id) refl
    | inr (xs, s) ↦ absurd (omega (arith, (store_id-Stores id e.ids xs h s).room, v.places, v.size))
  ]

  pub ct_del_id-Holds :
      mem id ks ≡ true → ((ct_del_id id e).0 ≡ true) × Holds (ct_del_id id e).1 (erase id ks)
  unfolding ct_del_id
  ct_del_id-Holds known = elim (Option-cases (clear_id id e.ids)) [
    | inl absent ↦
        absurd (ground (arith, clear_id-none id e.ids absent, v.same id, mem-taken id e.ids h))
    | inr (xs, s) ↦
        let c = clear_id-Clears id e.ids xs h v.single s in
        rw (s, ct_del_id)
          (
            refl,
            record {
              places = ground (arith, c.long, v.places);
              counted = ground (arith, v.counted, length-erase id ks known);
              distinct = Distinct-erase id ks v.distinct;
              no_zero = ground (arith, mem-erase 0 id ks v.distinct, v.no_zero);
              single = c.single;
              size = ground (arith, c.less, v.size, length-erase id ks known);
              same = λ q. ground (arith, c.same q, v.same q, mem-erase q id ks v.distinct);
            },
          )
  ]

  pub ct_del_id_unknown : mem id ks ≡ false → ct_del_id id e ≡ (false, e)
  unfolding ct_del_id
  ct_del_id_unknown unknown = elim (Option-cases (clear_id id e.ids)) [
    | inl absent ↦ rw (absent, ct_del_id) refl
    | inr (xs, s) ↦
        let c = clear_id-Clears id e.ids xs h v.single s in
        absurd (ground (arith, c.here, v.same id, mem-taken id e.ids h))
  ]
