-- ===== src/Routes/Reply.antt =====
-- src/route_cache.c, `cmmRouteNetlinkLookup` for a route that is in the cache: what an answer of the
-- kernel may change of it.
use cmm.Prelude.{
  ℕ, zero, suc, ◌*◌, ◌/◌, ◌≤◌, ◌≡◌, refl, sym, ap, ◌∙◌, true, some, List, [], ◌∷◌, length, arith,
  Option-cases, inl, inr,
}
use mathlib.Core.Option.{some-injective}
use cmm.Net.{ip_addr_len, mem_eq, mem_copy}
use cmm.RouteEntry.{
  RtEntry, RouteMessage, Kernel, flow_of, refresh, fill_route, fall_back_mtu, lookup_filter,
  note_flow,
}
use cmm.Routes.Lookup.{filter_lem}

-- `note_flow` for the flow of a route, whose addresses are the route's own.
abbrev noted : RtEntry → RtEntry → RtEntry
noted r r' = note_flow (record (flow_of r) { saddr = some r'.saddr; daddr = r'.daddr }) r'

-- The entry for a complete message, in place of the entry that is there.
abbrev relearnt : Kernel → RtEntry → RouteMessage → List ℕ → ℕ → RtEntry
relearnt k r m dst oif = noted r (fall_back_mtu k (fill_route m dst oif r))

record Relearns (k : Kernel) (r r' : RtEntry) : Type 0 where
  message : RouteMessage
  dst : List ℕ
  oif : ℕ
  answered : k.answer (flow_of r) ≡ some message
  has_dst : message.dst ≡ some dst
  entry : r' ≡ relearnt k r message dst oif

refresh-Relearns : (k : Kernel) (r r' : RtEntry) → refresh k r ≡ some r' → Relearns k r r'
unfolding refresh
refresh-Relearns k r r' e = elim (Option-cases (k.answer (flow_of r))) [
  | inl silent ↦ absurd (ground arith)
  | inr (m, a) ↦ elim (Option-cases (lookup_filter k m r)) [
    | inl rejected ↦ absurd (ground arith)
    | inr (r'', some_route) ↦
        let (dst, oif, d, same) = filter_lem k m r r'' some_route in
        let here : noted r r'' ≡ r' = some-injective _ _ (rw (refresh, a, some_route) at e) in
        record {
          message = m;
          dst = dst;
          oif = oif;
          answered = a;
          has_dst = d;
          entry = sym here ∙ rw same refl;
        }
  ]
]

-- What the look-up never writes.
pub refresh-keeps :
    (k : Kernel) (r r' : RtEntry)
    → refresh k r ≡ some r'
    → (r'.neigh_entry ≡ r.neigh_entry) × (r'.rt_policy ≡ r.rt_policy) × (r'.count ≡ r.count)
unfolding note_flow fall_back_mtu fill_route
refresh-keeps k r r' e = let l = refresh-Relearns k r r' e in ground (arith, l.entry)

mem_copy-equal :
    (n : ℕ) (xs ys : List ℕ) → n ≤ length xs → mem_eq n xs ys ≡ true → mem_copy n xs ys ≡ ys
unfolding mem_eq mem_copy
mem_copy-equal zero xs ys h e = refl
mem_copy-equal (suc n) [] ys h e = refl
mem_copy-equal (suc n) (x ∷ xs) [] h e = refl
mem_copy-equal (suc n) (x ∷ xs) (y ∷ ys) h e =
    let rest = mem_copy-equal n xs ys (omega arith) in ground (arith, rest)

mem_copy_self : (n : ℕ) (xs : List ℕ) → mem_copy n xs xs ≡ xs
unfolding mem_copy
mem_copy_self zero xs = refl
mem_copy_self (suc n) [] = refl
mem_copy_self (suc n) (x ∷ xs) = ap (λ zs. x ∷ zs) (mem_copy_self n xs)

-- What an answer is for a route that keeps its addresses: one for the family and the destination that
-- were asked for, with a whole gateway, and no preferred source but the route's own.
pub record IsSettled (k : Kernel) (r : RtEntry) : Type 0 where
  pub family : (m : RouteMessage) → k.answer (flow_of r) ≡ some m → m.family ≡ r.family
  pub source :
      (m : RouteMessage) (s : List ℕ)
      → k.answer (flow_of r) ≡ some m
      → m.prefsrc ≡ some s
      → mem_eq (length s) s r.saddr ≡ true
  pub dst_whole :
      (m : RouteMessage) (d : List ℕ)
      → k.answer (flow_of r) ≡ some m
      → m.dst ≡ some d
      → 4 * length d ≡ ip_addr_len r.family
  pub dst_same :
      (m : RouteMessage) (d : List ℕ)
      → k.answer (flow_of r) ≡ some m
      → m.dst ≡ some d
      → mem_eq (length d) d r.daddr ≡ true
  pub gateway :
      (m : RouteMessage) (g : List ℕ)
      → k.answer (flow_of r) ≡ some m
      → m.gateway ≡ some g
      → 4 * length g ≡ ip_addr_len r.family

-- The destination and the source of an entry that such an answer fills.
module _ (k : Kernel) (r : RtEntry) (m : RouteMessage) (dst : List ℕ) (oif : ℕ) where
  relearnt-saddr :
      ((s : List ℕ) → m.prefsrc ≡ some s → mem_eq (length s) s r.saddr ≡ true)
      → (relearnt k r m dst oif).saddr ≡ r.saddr
  unfolding note_flow fall_back_mtu fill_route
  relearnt-saddr all = elim (Option-cases m.prefsrc) [
    | inl plain ↦ ground (arith, mem_copy_self (ip_addr_len r.family / 4) r.saddr)
    | inr (s, prefers) ↦
        let same : mem_copy (length s) s r.saddr ≡ r.saddr =
          mem_copy-equal (length s) s r.saddr (omega arith) (all s prefers) in
        ground (arith, same, mem_copy_self (ip_addr_len r.family / 4) r.saddr)
  ]

  relearnt-daddr : mem_eq (length dst) dst r.daddr ≡ true → (relearnt k r m dst oif).daddr ≡ r.daddr
  unfolding note_flow fall_back_mtu fill_route
  relearnt-daddr e = ground (arith, mem_copy-equal (length dst) dst r.daddr (omega arith) e)

  relearnt-family : (relearnt k r m dst oif).family ≡ m.family
  unfolding note_flow fall_back_mtu fill_route
  relearnt-family = ground arith

  relearnt-gateway :
      (n : ℕ)
      → 4 * length dst ≡ n
      → ((g : List ℕ) → m.gateway ≡ some g → 4 * length g ≡ n)
      → (relearnt k r m dst oif).gw_addr_len ≡ n
  unfolding note_flow fall_back_mtu fill_route
  relearnt-gateway n h all = elim (Option-cases m.gateway) [
    | inl direct ↦ ground arith
    | inr (g, via) ↦ ground (arith, all g)
  ]

module _ (k : Kernel) (r r' : RtEntry) (settled : IsSettled k r) (e : refresh k r ≡ some r') where
  pub settled-addresses :
      (r'.family ≡ r.family)
      × (r'.saddr ≡ r.saddr)
      × (r'.daddr ≡ r.daddr)
      × (r'.gw_addr_len ≡ ip_addr_len r.family)
  settled-addresses =
      let l = refresh-Relearns k r r' e in
      let m = l.message in
      let a = l.answered in
      rw l.entry (
        relearnt-family k r m l.dst l.oif ∙ settled.family m a,
        relearnt-saddr k r m l.dst l.oif (λ s. settled.source m s a),
        relearnt-daddr k r m l.dst l.oif (settled.dst_same m l.dst a l.has_dst),
        relearnt-gateway k r m l.dst l.oif (ip_addr_len r.family)
            (settled.dst_whole m l.dst a l.has_dst) (λ g. settled.gateway m g a),
      )
