-- ===== src/Conntrack/Again.antt =====
-- src/conntrack.c: `__cmmCtFind` after `__cmmCtAdd`.
use cmm.Prelude.{
  ℕ, ◌≡◌, ◌≢◌, ◌<◌, refl, sym, ◌∙◌, List, true, none, some, arith, ◌==◌, Bool-cases, inl, inr,
}
use mathlib.Core.Path.{subst}
use cmm.Prelude.Run.{done}
use cmm.Net.{Jhash, mem_eq_refl}
use cmm.Conntrack.{NfConntrack, CtTable, Conntracks, ct_add}
use cmm.Conntrack.Find.{addr_equal, ct_compare, ct_find}
use cmm.Conntrack.Valid.{IsValid}
use cmm.Conntrack.Added.{Creates, ct_add-Adds}
use cmm.Conntrack.Found.{IsProper, ct_find_cases}

addr_equal_refl : (family : ℕ) (a : List ℕ) → addr_equal family a a ≡ true
unfolding addr_equal
addr_equal_refl family a = ground (arith, mem_eq_refl 4 a)

ct_compare_refl : (ct : NfConntrack) → ct_compare ct ct ≡ true
unfolding ct_compare
ct_compare_refl ct =
    rw
      (
        addr_equal_refl ct.orig_l3proto ct.orig_src,
        addr_equal_refl ct.orig_l3proto ct.orig_dst,
        addr_equal_refl ct.orig_l3proto ct.repl_src,
        addr_equal_refl ct.orig_l3proto ct.repl_dst,
      )
      (ground arith)

module _ ⦃jhash : Jhash⦄ where
  found_created :
      (t t' : Conntracks) (p : ℕ) (ct : NfConntrack) (e : CtTable)
      → IsValid t
      → IsValid t'
      → IsProper ct
      → ct_find ct t ≡ done none
      → Creates t p ct e t'
      → ct_find ct t' ≡ done (some p)
  found_created t t' p ct e v v' proper absent c = elim (ct_find_cases t' ct v' proper) [
    | inl (missed, all) ↦ absurd (ground (arith, all p e c.entry, c.tracks, ct_compare_refl ct))
    | inr (q, d, found, here, hit) ↦ elim (Bool-cases (q == p)) [
      | inl same ↦ let at : q ≡ p = ground arith in rw found (rw at refl)
      | inr other ↦ elim (ct_find_cases t ct v proper) [
        | inl (missed, all) ↦
            let before : t.entries q ≡ some d = sym (c.others q (ground arith)) ∙ here in
            absurd (ground (arith, all q d before, hit))
        | inr (r, b, found', live, match) ↦ absurd (ground (arith, absent, found'))
      ]
    ]
  ]

  -- On a valid table below its limit, a connection that __cmmCtFind does not find and __cmmCtAdd
  -- gives an entry is found at that entry, if its identifier is not 0 and its protocols are the
  -- same in both directions.
  pub ct_add-find :
      (t : Conntracks) (p : ℕ) (ct : NfConntrack)
      → IsValid t
      → IsProper ct
      → ct.id ≢ 0
      → t.entries p ≡ none
      → t.current < t.max
      → ct_find ct t ≡ done none
      → ct_find ct (ct_add (some p) ct t).1 ≡ done (some p)
  ct_add-find t p ct v proper h fresh room absent =
      let (v', adds) = ct_add-Adds t (some p) ct v (λ q e. ground (arith, fresh)) h in
      elim adds [
        | inl (same, inl limit) ↦ absurd (omega arith)
        | inl (same, inr exhausted) ↦ absurd (cc)
        | inr (q, e, at, got, c) ↦
            let here : p ≡ q = ground (arith, at) in
            found_created t (ct_add (some p) ct t).1 p ct e v v' proper absent
              (subst (λ x. Creates t x ct e (ct_add (some p) ct t).1) (sym here) c)
      ]
