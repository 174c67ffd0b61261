-- ===== src/Conntrack/Added.antt =====
-- src/conntrack.c, `__cmmCtAdd` and `__cmmCtRemove`: what the calls do to the table.
use cmm.Prelude.{
  ℕ, ◌+◌, ◌≡◌, ◌≢◌, ◌≤◌, ◌<◌, refl, false, Option, none, some, [], ◌∷◌, arith, ◌⊎◌, length-erase,
  mem-erase, leb, mem, Bool-cases, Option-cases, inl, inr,
}
use cmm.Prelude.Run.{Returns}
use cmm.Net.{Jhash}
use cmm.Conntrack.{
  NfConntrack, CtTable, Conntracks, ct_add_id, store_id, new_entry, delist, ct_add, ct_remove,
}
use cmm.Conntrack.Ids.{Holds}
use cmm.Conntrack.Valid.{IsValid, OffTunnels, enlist-IsValid, delist-IsValid}

new_entry-fields :
    (ct : NfConntrack)
    → ((new_entry ct).ct ≡ ct) × ((new_entry ct).family ≡ (new_entry ct).ct.orig_l3proto)
unfolding ct_add_id store_id
new_entry-fields ct = (refl, refl)

-- The new entry holds the identifier of the connection, if that is not 0.
pub new_entry-Holds : (ct : NfConntrack) → ct.id ≢ 0 → Holds (new_entry ct) (ct.id ∷ [])
unfolding ct_add_id store_id
new_entry-Holds ct h = record {
  places = refl;
  counted = refl;
  distinct = (tt, tt);
  no_zero = ground arith;
  single = ground arith;
  size = ground arith;
  same = λ q. ground arith;
}

module _ ⦃jhash : Jhash⦄ where
  pub record Creates (t : Conntracks) (p : ℕ) (ct : NfConntrack) (e : CtTable) (t' : Conntracks)
      : Type 0 where
    pub room : t.current < t.max
    pub new : t.entries p ≡ none
    pub entry : t'.entries p ≡ some e
    pub tracks : e.ct ≡ ct
    pub holds : Holds e (ct.id ∷ [])
    pub others : (q : ℕ) → q ≢ p → t'.entries q ≡ t.entries q
    pub counted : t'.current ≡ t.current + 1

  -- A new entry, or none at the limit and without memory.
  abbrev pub Adds : Conntracks → Option ℕ → NfConntrack → Option ℕ × Conntracks → Type 0
  Adds t memory ct res =
      ((res ≡ (none, t)) × ((t.max ≤ t.current) ⊎ (memory ≡ none)))
      ⊎ ((p : ℕ) × (e : CtTable) × (memory ≡ some p) × (res.0 ≡ some p) × Creates t p ct e res.1)

  -- On a valid table __cmmCtAdd, for a connection whose identifier is not 0, keeps the table
  -- valid, its count included: below the limit and with memory it makes one entry, which holds
  -- that identifier and no other; at the limit or without memory it changes nothing.
  pub ct_add-Adds :
      (t : Conntracks) (memory : Option ℕ) (ct : NfConntrack)
      → IsValid t
      → ((p : ℕ) → memory ≡ some p → t.entries p ≡ none)
      → ct.id ≢ 0
      → IsValid (ct_add memory ct t).1 × Adds t memory ct (ct_add memory ct t)
  unfolding ct_add
  ct_add-Adds t memory ct v fresh h = elim (Bool-cases (leb t.max t.current)) [
    | inl limit ↦ rw limit (v, inl (refl, inl (ground arith)))
    | inr room ↦ elim (Option-cases memory) [
      | inl exhausted ↦ rw (room, exhausted) (v, inl (refl, inr refl))
      | inr (p, got) ↦
          let (ct_same, own) = new_entry-fields ct in
          rw (room, got)
            (
              enlist-IsValid t p (new_entry ct) (fresh p got) own v,
              inr (
                p,
                new_entry ct,
                refl,
                refl,
                record {
                  room = ground arith;
                  new = fresh p got;
                  entry = ground arith;
                  tracks = ct_same;
                  holds = new_entry-Holds ct h;
                  others = λ q ne. ground arith;
                  counted = refl;
                },
              ),
            )
    ]
  ]

  pub record Removes (t : Conntracks) (p : ℕ) (t' : Conntracks) : Type 0 where
    pub valid : IsValid t'
    pub gone : t'.entries p ≡ none
    pub others : (q : ℕ) → q ≢ p → t'.entries q ≡ t.entries q
    pub counted : t'.current + 1 ≡ t.current
    pub nowhere :
        (key : ℕ)
        → (mem p (t'.table key) ≡ false)
          × (mem p (t'.by_rep key) ≡ false)
          × (mem p (t'.by_orig_route key) ≡ false)
          × (mem p (t'.by_rep_route key) ≡ false)
          × (mem p (t'.by_orig_tunnel key) ≡ false)
          × (mem p (t'.by_rep_tunnel key) ≡ false)
    pub unlinked : (i key : ℕ) → mem p (t'.by_sa i key) ≡ false
    pub no_sa : (key : ℕ) → mem p (t'.no_sa key) ≡ false

  -- On a valid table __cmmCtRemove of an entry that is on neither list of a tunnel's route, from
  -- which the function does not take it, returns and keeps the table valid, its count included:
  -- the entry is gone from its four lists, is still on none of a tunnel's route, and is on none of
  -- the security associations or of the entries without one; and the other entries stay.
  pub ct_remove-Removes :
      (t : Conntracks) (p : ℕ) (e : CtTable)
      → IsValid t
      → t.entries p ≡ some e
      → OffTunnels p t
      → Returns (ct_remove p t) (Removes t p)
  unfolding ct_remove
  ct_remove-Removes t p e v here off = (
    delist p t,
    rw here refl,
    record {
      valid = delist-IsValid t p e here off v;
      gone = ground arith;
      others = λ q ne. ground arith;
      counted = omega (
        arith,
        v.counts.many,
        length-erase p v.counts.live (ground (arith, v.counts.named p, here)),
      );
      nowhere = λ key. (
        ground (arith, mem-erase p p (t.table key) (v.placed.distinct key)),
        ground (arith, mem-erase p p (t.by_rep key) (v.placed_rep.distinct key)),
        ground (arith, mem-erase p p (t.by_orig_route key) (v.placed_orig_route.distinct key)),
        ground (arith, mem-erase p p (t.by_rep_route key) (v.placed_rep_route.distinct key)),
        off.0 key,
        off.1 key,
      );
      no_sa = λ key. ground (arith, mem-erase p p (t.no_sa key) (v.no_sa.once key));
      unlinked = λ i key. ground (arith, mem-erase p p (t.by_sa i key) ((v.by_sa i).once key));
    },
  )
