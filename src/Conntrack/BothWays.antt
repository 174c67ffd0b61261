-- ===== src/Conntrack/BothWays.antt =====
-- src/conntrack.c, `__cmmCtFindFromFlow`: the two directions of a flow.
use cmm.Prelude.{◌≡◌, ◌↔◌, Bool, true, false, none, arith, inl, inr}
use cmm.Prelude.Run.{done}
use cmm.Net.{Jhash}
use cmm.Conntrack.{CtTable, Conntracks}
use cmm.Conntrack.FromFlow.{FlowKey, turned, same_kind, ct_find_from_flow}
use cmm.Conntrack.Valid.{IsValid}
use cmm.Conntrack.FlowFound.{in_direction, of_flow, ct_find_from_flow_cases}

in_direction-of_flow :
    (f : FlowKey) (e : CtTable) (orig : Bool)
    → same_kind f e ≡ true
    → in_direction f e orig ≡ true
    → of_flow f e ≡ true
in_direction-of_flow f e true kind hit = ground arith
in_direction-of_flow f e false kind hit = ground arith

of_flow-turned : (f : FlowKey) (e : CtTable) → of_flow (turned f) e ≡ of_flow f e
unfolding same_kind
of_flow-turned f e = ground arith

module _ ⦃jhash : Jhash⦄ where
  missed_turned :
      (f : FlowKey) (t : Conntracks)
      → IsValid t
      → ct_find_from_flow f t ≡ done none
      → ct_find_from_flow (turned f) t ≡ done none
  missed_turned f t v absent = elim (ct_find_from_flow_cases (turned f) t v) [
    | inl (missed, all) ↦ missed
    | inr (p, e, orig, found, here, kind, hit) ↦ elim (ct_find_from_flow_cases f t v) [
      | inl (missed, all) ↦
          let back : of_flow (turned f) e ≡ true =
            in_direction-of_flow (turned f) e orig kind hit in
          absurd (ground (arith, all p e here, back, of_flow-turned f e))
      | inr (q, d, way, found', live, kind', match) ↦ absurd (ground (arith, absent, found'))
    ]
  ]

  -- On a valid table __cmmCtFindFromFlow misses a flow exactly if it misses the flow in the other
  -- direction.
  pub ct_find_from_flow-turned :
      (f : FlowKey) (t : Conntracks)
      → IsValid t
      → (ct_find_from_flow f t ≡ done none) ↔ (ct_find_from_flow (turned f) t ≡ done none)
  ct_find_from_flow-turned f t v = (missed_turned f t v, missed_turned (turned f) t v)
