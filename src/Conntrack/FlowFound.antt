-- ===== src/Conntrack/FlowFound.antt =====
-- src/conntrack.c, `__cmmCtFindFromFlow`: what the search finds.
use cmm.Prelude.{
  ℕ, ◌/◌, ◌≡◌, refl, sym, ◌∙◌, Bool, true, false, not, ◌||◌, ◌⊎◌, inl, inr, none, some, List, arith,
  ◌==◌, if◌then◌else◌, Bool-cases,
}
use cmm.Prelude.Run.{done, ◌>>=◌}
use cmm.Net.{Jhash, af_inet, ip_addr_len, mem_eq, word-mem_eq}
use cmm.Table.Placed.{scan-Finds}
use cmm.Conntrack.{CtTable, Conntracks, hash_ct, orig_home, rep_home}
use cmm.Conntrack.Find.{addr_equal}
use cmm.Conntrack.FromFlow.{
  FlowKey, turned, same_kind, is_orig, is_repl, of_orig, of_repl, with_direction, ct_pass, flow_key,
  ct_find_from_flow,
}
use cmm.Conntrack.Valid.{IsValid}
use cmm.Conntrack.Found.{hash_ct_congr}

-- `memcmp` over the length of the family's addresses is the comparison of the hash function.
addr_equal-mem_eq :
    (family : ℕ) (a b : List ℕ)
    → mem_eq (ip_addr_len family / 4) a b ≡ true
    → addr_equal family a b ≡ true
unfolding addr_equal
addr_equal-mem_eq family a b h = elim (Bool-cases (family == af_inet)) [
  | inl v4 ↦ rw v4 (ground (arith, word-mem_eq 1 0 a b (rw v4 at h) (omega arith)))
  | inr v6 ↦ rw v6 (rw v6 at h)
]

record IsOn (f : FlowKey) (e : CtTable) (src dst : List ℕ) (sport dport : ℕ) : Type 0 where
  src_equal : mem_eq (ip_addr_len f.family / 4) src f.saddr ≡ true
  dst_equal : mem_eq (ip_addr_len f.family / 4) dst f.daddr ≡ true
  sport_equal : sport ≡ f.sport
  dport_equal : dport ≡ f.dport
  proto_equal : e.ct.orig_l4proto ≡ f.proto

is_orig-IsOn :
    (f : FlowKey) (e : CtTable)
    → is_orig f e ≡ true
    → IsOn f e e.ct.orig_src e.ct.orig_dst e.ct.orig_port_src e.ct.orig_port_dst
unfolding is_orig
is_orig-IsOn f e h = ground arith

is_repl-IsOn :
    (f : FlowKey) (e : CtTable)
    → is_repl f e ≡ true
    → IsOn f e e.ct.repl_src e.ct.repl_dst e.ct.repl_port_src e.ct.repl_port_dst
unfolding is_repl
is_repl-IsOn f e h = ground arith

same_kind-family : (f : FlowKey) (e : CtTable) → same_kind f e ≡ true → e.ct.orig_l3proto ≡ f.family
unfolding same_kind
same_kind-family f e h = ground arith

-- What the entry is for the flow, by the direction that the search gives.
abbrev pub in_direction : FlowKey → CtTable → Bool → Bool
in_direction f e orig =
    if orig then is_orig f e || is_repl (turned f) e else is_orig (turned f) e || is_repl f e

-- The entry is of the flow or of the same flow in the other direction, seen from either end.
abbrev pub of_flow : FlowKey → CtTable → Bool
of_flow f e = of_orig f e || of_repl f e

module _ ⦃jhash : Jhash⦄ where
  IsOn-home :
      (f : FlowKey) (e : CtTable) (src dst : List ℕ) (sport dport : ℕ)
      → e.family ≡ f.family
      → IsOn f e src dst sport dport
      → hash_ct e.family src dst sport dport e.ct.orig_l4proto ≡ flow_key f
  IsOn-home f e src dst sport dport own o =
      rw (own, o.sport_equal, o.dport_equal, o.proto_equal)
        (hash_ct_congr f.family src f.saddr dst f.daddr f.sport f.dport f.proto
          (addr_equal-mem_eq f.family src f.saddr o.src_equal)
          (addr_equal-mem_eq f.family dst f.daddr o.dst_equal))

  -- What one pass finds.
  abbrev PassFinds : FlowKey → ℕ → Conntracks → Type 0
  PassFinds f key t =
      ((ct_pass f key t ≡ done none)
        × ((q : ℕ) (e : CtTable) → t.entries q ≡ some e → orig_home e ≡ key → of_orig f e ≡ false)
        × ((q : ℕ) (e : CtTable) → t.entries q ≡ some e → rep_home e ≡ key → of_repl f e ≡ false))
      ⊎ ((p : ℕ) × (e : CtTable) × (orig : Bool) × (ct_pass f key t ≡ done (some (p, orig)))
          × (t.entries p ≡ some e)
          × (same_kind f e ≡ true)
          × (in_direction f e orig ≡ true))

  ct_pass_cases : (f : FlowKey) (key : ℕ) (t : Conntracks) → IsValid t → PassFinds f key t
  unfolding ct_pass with_direction
  ct_pass_cases f key t v = elim (scan-Finds orig_home (of_orig f) t.entries t.table v.placed key) [
    | inr (p, e, found, here, home, hit) ↦ inr (
      p,
      e,
      is_orig f e,
      rw (found, ◌>>=◌) (rw here refl),
      here,
      ground (arith, hit),
      ground (arith, hit),
    )
    | inl (missed, first) ↦
        elim (scan-Finds rep_home (of_repl f) t.entries t.by_rep v.placed_rep key) [
          | inr (p, e, found, here, home, hit) ↦ inr (
            p,
            e,
            not (is_repl f e),
            rw (missed, ◌>>=◌) (rw found (rw here refl)),
            here,
            ground (arith, hit),
            ground (arith, hit),
          )
          | inl (missed', second) ↦ inl (rw (missed, ◌>>=◌) (rw missed' refl), first, second)
        ]
  ]

  abbrev pub Finds : FlowKey → Conntracks → Type 0
  Finds f t =
      ((ct_find_from_flow f t ≡ done none)
        × ((q : ℕ) (e : CtTable) → t.entries q ≡ some e → of_flow f e ≡ false))
      ⊎ ((p : ℕ) × (e : CtTable) × (orig : Bool) × (ct_find_from_flow f t ≡ done (some (p, orig)))
          × (t.entries p ≡ some e)
          × (same_kind f e ≡ true)
          × (in_direction f e orig ≡ true))

  module _ (f : FlowKey) (t : Conntracks) (v : IsValid t)
      (first : (q : ℕ) (e : CtTable)
        → t.entries q ≡ some e
        → orig_home e ≡ flow_key f
        → of_orig f e ≡ false)
      (first_rep : (q : ℕ) (e : CtTable)
        → t.entries q ≡ some e
        → rep_home e ≡ flow_key f
        → of_repl f e ≡ false)
      (second : (q : ℕ) (e : CtTable)
        → t.entries q ≡ some e
        → orig_home e ≡ flow_key (turned f)
        → of_orig f e ≡ false)
      (second_rep : (q : ℕ) (e : CtTable)
        → t.entries q ≡ some e
        → rep_home e ≡ flow_key (turned f)
        → of_repl f e ≡ false) where
    -- Two passes look at every entry of the flow.
    not_orig : (q : ℕ) (e : CtTable) → t.entries q ≡ some e → of_orig f e ≡ false
    not_orig q e here = elim (Bool-cases (same_kind f e)) [
      | inr other ↦ rw other refl
      | inl kind ↦
          let own : e.family ≡ f.family = v.family q e here ∙ same_kind-family f e kind in
          elim (Bool-cases (is_orig f e)) [
            | inl on ↦ first q e here (
                IsOn-home f e e.ct.orig_src e.ct.orig_dst e.ct.orig_port_src e.ct.orig_port_dst own
                  (is_orig-IsOn f e on))
            | inr off ↦ elim (Bool-cases (is_orig (turned f) e)) [
              | inl back ↦ second q e here (
                  IsOn-home (turned f) e e.ct.orig_src e.ct.orig_dst e.ct.orig_port_src
                    e.ct.orig_port_dst own (is_orig-IsOn (turned f) e back))
              | inr neither ↦ rw (kind, off, neither) refl
            ]
          ]
    ]

    not_repl : (q : ℕ) (e : CtTable) → t.entries q ≡ some e → of_repl f e ≡ false
    not_repl q e here = elim (Bool-cases (same_kind f e)) [
      | inr other ↦ rw other refl
      | inl kind ↦
          let own : e.family ≡ f.family = v.family q e here ∙ same_kind-family f e kind in
          elim (Bool-cases (is_repl f e)) [
            | inl on ↦ first_rep q e here (
                IsOn-home f e e.ct.repl_src e.ct.repl_dst e.ct.repl_port_src e.ct.repl_port_dst own
                  (is_repl-IsOn f e on))
            | inr off ↦ elim (Bool-cases (is_repl (turned f) e)) [
              | inl back ↦ second_rep q e here (
                  IsOn-home (turned f) e e.ct.repl_src e.ct.repl_dst e.ct.repl_port_src
                    e.ct.repl_port_dst own (is_repl-IsOn (turned f) e back))
              | inr neither ↦ rw (kind, off, neither) refl
            ]
          ]
    ]

    not_of_flow : (q : ℕ) (e : CtTable) → t.entries q ≡ some e → of_flow f e ≡ false
    not_of_flow q e here = rw (not_orig q e here, not_repl q e here) refl

  -- On a valid table __cmmCtFindFromFlow meets no freed entry: it returns an entry of the flow's
  -- family and kind with the direction in which the flow is the entry's, or none where no such
  -- entry is of the flow, in either direction and seen from either end.
  pub ct_find_from_flow_cases : (f : FlowKey) (t : Conntracks) → IsValid t → Finds f t
  unfolding ct_find_from_flow
  ct_find_from_flow_cases f t v = elim (ct_pass_cases f (flow_key f) t v) [
    | inr (p, e, orig, found, here, kind, hit) ↦
        inr (p, e, orig, rw (found, ◌>>=◌) refl, here, kind, hit)
    | inl (missed, first, first_rep) ↦ elim (Bool-cases (flow_key f == flow_key (turned f))) [
      | inl one ↦
          let same : flow_key f ≡ flow_key (turned f) = ground arith in
          inl (
            rw (missed, ◌>>=◌) (rw one refl),
            not_of_flow f t v first first_rep (λ q e here home. first q e here (home ∙ sym same))
                (λ q e here home. first_rep q e here (home ∙ sym same)),
          )
      | inr two ↦ elim (ct_pass_cases f (flow_key (turned f)) t v) [
        | inr (p, e, orig, found, here, kind, hit) ↦
            inr (p, e, orig, rw (missed, ◌>>=◌) (rw two found), here, kind, hit)
        | inl (missed', second, second_rep) ↦ inl (
          rw (missed, ◌>>=◌) (rw two missed'),
          not_of_flow f t v first first_rep second second_rep,
        )
      ]
    ]
  ]
