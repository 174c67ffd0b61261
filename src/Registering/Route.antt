-- ===== src/Registering/Route.antt =====
-- src/conntrack.c, `__cmmRouteRegister`: a holder takes a route of the kernel.
use cmm.Prelude.{
  ℕ, ◌+◌, ◌≡◌, refl, sym, ap, ◌∙◌, true, ◌&&◌, Option, none, some, List, ◌∷◌, arith, Option-cases,
  inl, inr, ◌==◌, if◌then◌else◌, Bool-cases, mem, mem-NotIn,
}
use mathlib.Core.Path.{subst}
use cmm.Prelude.Run.{done, ◌>>=◌, Returns}
use cmm.Net.{Jhash, word}
use cmm.RouteEntry.{
  RtEntry, Flow, Kernel, blank, fill_route, fall_back_mtu, note_flow, netlink_lookup,
}
use cmm.Routes.{Routes}
use cmm.Routes.Get.{Gets, shared, created, failed}
use cmm.Routes.Lookup.{netlink_lookup-Learns}
use cmm.Neigh.{Neighs}
use cmm.Conntrack.{CtTable, Conntracks}
use cmm.Conntrack.FromFlow.{FlowKey, ct_find_local_from_flow}
use cmm.Conntrack.FlowFound.{ct_find_from_flow_cases}
use cmm.Holding.Counts.{Neighbored, routes_with, routes_with_congr}
use cmm.Registering.{Answers, local_flow_from, local_flow, flow_to_ask}
use cmm.Registering.Holders.{set_route-Neighbored}
use cmm.Registering.Gains.{Gains}
use cmm.Conntrack.Valid as ConntrackValid

netlink_lookup-alone :
    (k : Kernel) (f : Flow) (r : RtEntry) → netlink_lookup k f blank ≡ some r → r.neigh_entry ≡ none
unfolding note_flow fall_back_mtu fill_route
netlink_lookup-alone k f r e = let l = netlink_lookup-Learns k f r e in ground (arith, l.entry)

abbrev saddr_of : Option Flow → Option (List ℕ)
saddr_of none = none
saddr_of (some f) = f.saddr

module _ ⦃jhash : Jhash⦄ where
  -- A call has one more holder for the route that it returns.
  pub route_get-Gains :
      (t : Routes) (k : Kernel) (memory : Option ℕ) (f : Flow) (saddr : List ℕ) (p : ℕ)
      (t' : Routes)
      → ((q : ℕ) → memory ≡ some q → t.entries q ≡ none)
      → Gets t k memory f saddr (some p, t')
      → Gains (λ (r : RtEntry). r.count) p t.entries t'.entries
  route_get-Gains t k memory f saddr _ _ fresh (shared p r t' w) = record {
    kept = λ q b h. elim (Bool-cases (q == p)) [
      | inl same ↦
          (record r { count = r.count + 1 }, ground (arith, w.after), ground (arith, w.was))
      | inr other ↦ (b, ground (arith, w.after), ground arith)
    ];
    held = (record r { count = r.count + 1 }, ground (arith, w.after), omega arith);
  }
  route_get-Gains t k memory f saddr _ _ fresh (created p r t' e w) = record {
    kept = λ q b h. elim (Bool-cases (q == p)) [
      | inl same ↦ absurd (ground (arith, fresh p e))
      | inr other ↦ (b, ground (arith, w.entries q), ground arith)
    ];
    held = (record r { count = 1 }, ground (arith, w.entries p), omega arith);
  }

  created-Neighbored :
      (t t' : Routes) (ns : Neighs) (p : ℕ) (r : RtEntry)
      → t.entries p ≡ none
      → r.neigh_entry ≡ none
      → ((q : ℕ) → t'.entries q ≡ (if q == p then some r else t.entries q))
      → Neighbored t ns
      → Neighbored t' ns
  created-Neighbored t t' ns p r fresh alone entries v =
      let same = λ (q : ℕ).
        routes_with_congr t.entries t'.entries q v.live
          (λ x. ground (arith, entries x, fresh, alone)) in
      elim (Bool-cases (mem p v.live)) [
        | inl named ↦ record {
          live = v.live;
          distinct = v.distinct;
          named = λ x b there. ground (arith, entries x, v.named x b);
          alive = λ q some_left.
              let (n, there, many) = v.alive q (ground (arith, same q)) in
              (n, there, ground (arith, same q));
        }
        | inr new ↦ record {
          live = p ∷ v.live;
          distinct = (mem-NotIn p v.live new, v.distinct);
          named = λ x b there. ground (arith, entries x, v.named x b);
          alive = λ q some_left.
              let less : routes_with t'.entries q (p ∷ v.live) ≡ routes_with t.entries q v.live =
                ground (arith, same q, entries p, alone) in
              let (n, there, many) = v.alive q (ground (arith, less)) in
              (n, there, ground (arith, less));
        }
      ]

  pub route_get-Neighbored :
      (t : Routes) (k : Kernel) (memory : Option ℕ) (f : Flow) (saddr : List ℕ) (ns : Neighs)
      (res : Option ℕ × Routes)
      → ((q : ℕ) → memory ≡ some q → t.entries q ≡ none)
      → Gets t k memory f saddr res
      → Neighbored t ns
      → Neighbored res.1 ns
  route_get-Neighbored t k memory f saddr ns _ fresh (shared p r t' w) v =
      subst (λ x. Neighbored x ns) (sym w.after)
        (set_route-Neighbored t ns ns p r (record r { count = r.count + 1 }) w.was refl
          (λ q n h. (n, h, omega arith, refl)) v)
  route_get-Neighbored t k memory f saddr ns _ fresh (created p r t' e w) v =
      created-Neighbored t t' ns p (record r { count = 1 }) (fresh p e)
        (netlink_lookup-alone k f r w.learnt) w.entries v
  route_get-Neighbored t k memory f saddr ns _ fresh (failed why missed) v = v

  -- A search for a local connection meets no freed entry, and what it returns is in the table.
  ct_find_local_total :
      (flow : Flow) (saddr : List ℕ) (t : Conntracks)
      → flow.saddr ≡ some saddr
      → ConntrackValid.IsValid t
      → Returns
          (ct_find_local_from_flow flow t)
          (λ o. (p : ℕ) → o ≡ some p → (e : CtTable) × (t.entries p ≡ some e))
  unfolding ct_find_local_from_flow
  ct_find_local_total flow saddr t e v =
      let key : FlowKey = record {
        family = flow.family;
        saddr = saddr;
        daddr = flow.daddr;
        sport = 0;
        dport = 0;
        proto = flow.proto;
        local = true;
      } in
      elim (ct_find_from_flow_cases key t v) [
        | inl (missed, _) ↦ (none, rw (e, ◌>>=◌) (rw (missed, ◌>>=◌) refl), λ p h. absurd (cc))
        | inr (p, c, orig, found, here, _, _) ↦
            let index = if orig then c.ct.orig_fp_ifindex else c.ct.repl_fp_ifindex in
            elim (Bool-cases (c.local_conn && flow.iifindex == index)) [
              | inl mine ↦ (
                some p,
                rw (e, ◌>>=◌) (rw (found, ◌>>=◌) (rw (here, ◌>>=◌) (rw mine refl))),
                λ q h. (c, ground (arith, here)),
              )
              | inr other ↦ (
                none,
                rw (e, ◌>>=◌) (rw (found, ◌>>=◌) (rw (here, ◌>>=◌) (rw other refl))),
                λ q h. absurd (cc),
              )
            ]
      ]

  module _ (k : Answers) (flow : Flow) (saddr : List ℕ) (e : flow.saddr ≡ some saddr)
      (v : ConntrackValid.IsValid k.conntracks) where
    -- The flow that is looked up has the source address of the flow.
    abbrev pub Asks : Option Flow → Type 0
    Asks o = (f : Flow) → o ≡ some f → f.saddr ≡ some saddr

    local_flow-Asks : Returns (local_flow k flow) Asks
    unfolding local_flow local_flow_from
    local_flow-Asks =
        let (o, run, alive) = ct_find_local_total flow saddr k.conntracks e v in
        elim (Option-cases o) [
          | inr (p, found) ↦
              let (c, here) = alive p found in
              let mark = if c.local_conn_orig then c.ct.orig_fp_mark else c.ct.repl_fp_mark in
              let asked : Flow = record flow { iifindex = 0; fwmark = mark } in
              (
                some asked,
                ap (λ o. local_flow_from k o flow) e
                    ∙ (rw (run, ◌>>=◌) (rw (found, here, ◌>>=◌) refl)),
                λ f h. ap (λ (x : Option Flow). saddr_of x) (sym h) ∙ e,
              )
          | inl missed ↦ elim (Bool-cases (word saddr 0 == 0)) [
            | inl nowhere ↦
                let asked : Flow = record flow { iifindex = 0; fwmark = 0 } in
                (
                  some asked,
                  ap (λ o. local_flow_from k o flow) e
                      ∙ (rw (run, ◌>>=◌) (rw (missed, nowhere) refl)),
                  λ f h. ap (λ (x : Option Flow). saddr_of x) (sym h) ∙ e,
                )
            | inr somewhere ↦ (
              none,
              ap (λ o. local_flow_from k o flow) e
                  ∙ (rw (run, ◌>>=◌) (rw (missed, somewhere) refl)),
              λ f h. absurd (cc),
            )
          ]
        ]

    pub flow_to_ask-Asks : Returns (flow_to_ask k flow) Asks
    unfolding flow_to_ask
    flow_to_ask-Asks = elim (Bool-cases flow.flow_flags.local) [
      | inl local ↦
          let (o, run, d) = local_flow-Asks in
          (o, ap (λ b. if b then local_flow k flow else done (some flow)) local ∙ run, d)
      | inr other ↦ (
        some flow,
        ap (λ b. if b then local_flow k flow else done (some flow)) other,
        λ f h. ap (λ (x : Option Flow). saddr_of x) (sym h) ∙ e,
      )
    ]
