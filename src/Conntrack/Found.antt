-- ===== src/Conntrack/Found.antt =====
-- src/conntrack.c, `__cmmCtFind`: what the search finds.
use cmm.Prelude.{
  ℕ, ◌≡◌, refl, Bool, true, false, ◌||◌, ◌⊎◌, inl, inr, none, some, List, arith, ◌==◌, Bool-cases,
}
use cmm.Prelude.Run.{done, ◌>>=◌}
use cmm.Net.{Jhash, af_inet, word, four_words-mem_eq}
use cmm.Table.Placed.{scan-Finds}
use cmm.Conntrack.{NfConntrack, CtTable, Conntracks, hash_ct, orig_home, rep_home}
use cmm.Conntrack.Find.{addr_equal, ct_compare, ct_compare_inv, ct_key, ct_find}
use cmm.Conntrack.Valid.{IsValid}

-- The equations that a comparison tests.
record Compares (ct₁ ct₂ : NfConntrack) : Type 0 where
  family : ct₁.orig_l3proto ≡ ct₂.orig_l3proto
  src : addr_equal ct₁.orig_l3proto ct₁.orig_src ct₂.orig_src ≡ true
  dst : addr_equal ct₁.orig_l3proto ct₁.orig_dst ct₂.orig_dst ≡ true
  sport : ct₁.orig_port_src ≡ ct₂.orig_port_src
  dport : ct₁.orig_port_dst ≡ ct₂.orig_port_dst
  proto : ct₁.orig_l4proto ≡ ct₂.orig_l4proto

ct_compare-Compares : (ct₁ ct₂ : NfConntrack) → ct_compare ct₁ ct₂ ≡ true → Compares ct₁ ct₂
unfolding ct_compare
ct_compare-Compares ct₁ ct₂ h = ground arith

record Inverts (ct₁ ct₂ : NfConntrack) : Type 0 where
  family : ct₁.orig_l3proto ≡ ct₂.repl_l3proto
  src : addr_equal ct₁.orig_l3proto ct₁.repl_src ct₂.orig_src ≡ true
  dst : addr_equal ct₁.orig_l3proto ct₁.repl_dst ct₂.orig_dst ≡ true
  sport : ct₁.repl_port_src ≡ ct₂.orig_port_src
  dport : ct₁.repl_port_dst ≡ ct₂.orig_port_dst
  proto : ct₁.orig_l4proto ≡ ct₂.repl_l4proto

ct_compare_inv-Inverts : (ct₁ ct₂ : NfConntrack) → ct_compare_inv ct₁ ct₂ ≡ true → Inverts ct₁ ct₂
unfolding ct_compare_inv
ct_compare_inv-Inverts ct₁ ct₂ h = ground arith

-- The kernel gives both directions of a connection the same protocols.
pub record IsProper (ct : NfConntrack) : Type 0 where
  pub l3proto : ct.repl_l3proto ≡ ct.orig_l3proto
  pub l4proto : ct.repl_l4proto ≡ ct.orig_l4proto

module _ ⦃jhash : Jhash⦄ where
  -- Addresses that agree as far as their family reaches have one bucket.
  pub hash_ct_congr :
      (family : ℕ) (s s' d d' : List ℕ) (sport dport proto : ℕ)
      → addr_equal family s s' ≡ true
      → addr_equal family d d' ≡ true
      → hash_ct family s d sport dport proto ≡ hash_ct family s' d' sport dport proto
  unfolding hash_ct addr_equal
  hash_ct_congr family s s' d d' sport dport proto e h = elim (Bool-cases (family == af_inet)) [
    | inl v4 ↦
        let first : word s 0 ≡ word s' 0 = ground arith in
        let second : word d 0 ≡ word d' 0 = ground arith in rw (v4, first, second)
    | inr v6 ↦ rw (v6, four_words-mem_eq s s' (rw v6 at e), four_words-mem_eq d d' (rw v6 at h))
  ]

  ct_compare-home :
      (e : CtTable) (ct : NfConntrack)
      → e.family ≡ e.ct.orig_l3proto
      → ct_compare e.ct ct ≡ true
      → orig_home e ≡ ct_key ct
  ct_compare-home e ct own h =
      let c = ct_compare-Compares e.ct ct h in
      rw (own, c.sport, c.dport, c.proto, ← c.family)
        (hash_ct_congr e.ct.orig_l3proto e.ct.orig_src ct.orig_src e.ct.orig_dst ct.orig_dst
          ct.orig_port_src ct.orig_port_dst ct.orig_l4proto c.src c.dst)

  ct_compare_inv-home :
      (e : CtTable) (ct : NfConntrack)
      → e.family ≡ e.ct.orig_l3proto
      → IsProper ct
      → ct_compare_inv e.ct ct ≡ true
      → rep_home e ≡ ct_key ct
  ct_compare_inv-home e ct own proper h =
      let c = ct_compare_inv-Inverts e.ct ct h in
      rw (own, c.sport, c.dport, c.proto, proper.l4proto, ← proper.l3proto, ← c.family)
        (hash_ct_congr e.ct.orig_l3proto e.ct.repl_src ct.orig_src e.ct.repl_dst ct.orig_dst
          ct.orig_port_src ct.orig_port_dst ct.orig_l4proto c.src c.dst)

  -- The entry is the connection's, seen from one of its ends.
  abbrev pub matches : NfConntrack → CtTable → Bool
  matches ct e = ct_compare e.ct ct || ct_compare_inv e.ct ct

  abbrev pub Finds : NfConntrack → Conntracks → Type 0
  Finds ct t =
      ((ct_find ct t ≡ done none)
        × ((q : ℕ) (e : CtTable) → t.entries q ≡ some e → matches ct e ≡ false))
      ⊎ ((p : ℕ) × (e : CtTable) × (ct_find ct t ≡ done (some p))
          × (t.entries p ≡ some e)
          × (matches ct e ≡ true))

  module _ (t : Conntracks) (ct : NfConntrack) (v : IsValid t) (proper : IsProper ct) where
    no_match :
        ((q : ℕ) (e : CtTable)
          → t.entries q ≡ some e
          → orig_home e ≡ ct_key ct
          → ct_compare e.ct ct ≡ false)
        → ((q : ℕ) (e : CtTable)
            → t.entries q ≡ some e
            → rep_home e ≡ ct_key ct
            → ct_compare_inv e.ct ct ≡ false)
        → (q : ℕ) (e : CtTable) → t.entries q ≡ some e
        → matches ct e ≡ false
    no_match first second q e here = elim (Bool-cases (ct_compare e.ct ct)) [
      | inl same ↦
          absurd
            (ground (arith, first q e here (ct_compare-home e ct (v.family q e here) same), same))
      | inr other ↦ elim (Bool-cases (ct_compare_inv e.ct ct)) [
        | inl turned ↦ absurd (
            ground (
              arith,
              second q e here (ct_compare_inv-home e ct (v.family q e here) proper turned),
              turned,
            ))
        | inr neither ↦ rw (other, neither) refl
      ]
    ]

    -- On a valid table, for a connection with the same protocols in both directions, __cmmCtFind
    -- meets no freed entry: it returns an entry that cmmCtCompare or cmmCtCompareInv matches, or
    -- none where no entry of the table is matched.
    pub ct_find_cases : Finds ct t
    unfolding ct_find
    ct_find_cases =
        elim (scan-Finds orig_home (λ e. ct_compare e.ct ct) t.entries t.table v.placed
          (ct_key ct)) [
            | inr (p, e, found, here, home, hit) ↦
                inr (p, e, rw (found, ◌>>=◌) refl, here, rw hit refl)
            | inl (missed, first) ↦
                elim (scan-Finds rep_home (λ e. ct_compare_inv e.ct ct) t.entries t.by_rep
                  v.placed_rep (ct_key ct)) [
                    | inr (p, e, found, here, home, hit) ↦
                        inr (p, e, rw (missed, ◌>>=◌) found, here, ground (arith, hit))
                    | inl (missed', second) ↦
                        inl (rw (missed, ◌>>=◌) missed', no_match first second)
                  ]
          ]
