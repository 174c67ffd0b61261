-- ===== src/Routes/Lookup.antt =====
-- src/route_cache.c, `cmmRouteNetlinkLookup`: the entry that an answer of the kernel makes.
use cmm.Prelude.{
  ℕ, ◌≡◌, refl, sym, ◌∙◌, false, some, List, arith, Bool-cases, Option-cases, inl, inr,
}
use mathlib.Core.Option.{some-injective}
use cmm.RouteEntry.{
  RtEntry, Flow, RouteMessage, Kernel, blank, fill_route, fall_back_mtu, lookup_filter, note_flow,
  netlink_lookup,
}

-- The entry for a complete message.
abbrev pub learnt : Kernel → Flow → RouteMessage → List ℕ → ℕ → RtEntry
learnt k f m dst oif = note_flow f (fall_back_mtu k (fill_route m dst oif blank))

-- The message that an entry comes from.
pub record Learns (k : Kernel) (f : Flow) (r : RtEntry) : Type 0 where
  pub message : RouteMessage
  pub dst : List ℕ
  pub oif : ℕ
  pub answered : k.answer f ≡ some message
  pub has_dst : message.dst ≡ some dst
  pub entry : r ≡ learnt k f message dst oif

pub filter_lem :
    (k : Kernel) (m : RouteMessage) (r r' : RtEntry)
    → lookup_filter k m r ≡ some r'
    → (dst : List ℕ) × (oif : ℕ) × (m.dst ≡ some dst)
      × (r' ≡ fall_back_mtu k (fill_route m dst oif r))
unfolding lookup_filter fill_route
filter_lem k m r r' e = elim (Bool-cases m.is_newroute) [
  | inr other ↦ absurd (ground arith)
  | inl new ↦ elim (Option-cases m.dst) [
    | inl no_dst ↦ absurd (ground arith)
    | inr (dst, d) ↦ elim (Option-cases m.oif) [
      | inl no_oif ↦ absurd (ground arith)
      | inr (oif, o) ↦ (dst, oif, d, some-injective _ _ (sym e ∙ rw (new, d, o) refl))
    ]
  ]
]

pub netlink_lookup-Learns :
    (k : Kernel) (f : Flow) (r : RtEntry) → netlink_lookup k f blank ≡ some r → Learns k f r
unfolding netlink_lookup
netlink_lookup-Learns k f r e = elim (Option-cases (k.answer f)) [
  | inl silent ↦ absurd (ground arith)
  | inr (m, a) ↦ elim (Option-cases (lookup_filter k m blank)) [
    | inl rejected ↦ absurd (ground arith)
    | inr (r', some_route) ↦
        let (dst, oif, d, same) = filter_lem k m blank r' some_route in
        let here : note_flow f r' ≡ r =
          some-injective _ _ (rw (netlink_lookup, a, some_route) at e) in
        record {
          message = m;
          dst = dst;
          oif = oif;
          answered = a;
          has_dst = d;
          entry = sym here ∙ rw same refl;
        }
  ]
]

-- An entry that was just made has no holder, is valid and is no policy route.
pub netlink_lookup-flags :
    (k : Kernel) (f : Flow) (r : RtEntry)
    → netlink_lookup k f blank ≡ some r
    → (r.count ≡ 0) × (r.invalid ≡ false) × (r.rt_policy ≡ false)
unfolding note_flow fall_back_mtu fill_route
netlink_lookup-flags k f r e = let l = netlink_lookup-Learns k f r e in ground (arith, l.entry)
