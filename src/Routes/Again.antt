-- ===== src/Routes/Again.antt =====
-- src/route_cache.c: a second call of `__cmmRouteGet` for a flow.
use cmm.Prelude.{
  ℕ, ◌/◌, ◌≤◌, ◌≡◌, refl, sym, ap, ◌∙◌, true, false, Option, none, some, List, ◌∷◌, length, arith,
  ◌==◌, ==_refl,
}
use mathlib.Core.Option.{some-injective}
use cmm.Prelude.Run.{done, ◌>>=◌}
use cmm.Net.{
  Jhash, ip_addr_len, word, mem_eq, mem_copy, mem_eq-copy, length-mem_copy, no_addr, hash_rt,
  hash_rt_congr,
}
use cmm.Table.{scan}
use cmm.RouteEntry.{
  RtEntry, Flow, RouteMessage, Kernel, copied, fill_route, fall_back_mtu, note_flow,
}
use cmm.Routes.{Routes, route_equal, if_usable, route_find, rt_home, recount, route_get}
use cmm.Routes.Lookup.{Learns, learnt, netlink_lookup-Learns, netlink_lookup-flags}
use cmm.Routes.Get.{is_route_of, Creates, get_runs, hold_runs}

-- A flow with whole addresses and a source that is not 0, and a kernel that answers for it.
pub record IsAnswered (k : Kernel) (f : Flow) (saddr : List ℕ) : Type 0 where
  pub source : f.saddr ≡ some saddr
  pub not_any : (word saddr 0 == 0) ≡ false
  pub source_whole : ip_addr_len f.family / 4 ≤ length saddr
  pub whole : length f.daddr ≡ ip_addr_len f.family / 4
  pub family : (m : RouteMessage) → k.answer f ≡ some m → m.family ≡ f.family
  pub dst : (m : RouteMessage) → k.answer f ≡ some m → m.dst ≡ some f.daddr

length-copied : (a : Option (List ℕ)) → length (copied a no_addr) ≡ 4
length-copied none = refl
length-copied (some a) = length-mem_copy (length a) a no_addr

words_bound : (family : ℕ) → ip_addr_len family / 4 ≤ 4
words_bound family = ground arith

learnt_fields :
    (k : Kernel) (f : Flow) (m : RouteMessage) (dst : List ℕ) (oif : ℕ)
    → let r = learnt k f m dst oif in
      (r.family ≡ m.family) × (r.fwmark ≡ f.fwmark) × (r.daddr ≡ mem_copy (length dst) dst no_addr)
unfolding note_flow fall_back_mtu fill_route
learnt_fields k f m dst oif = ground arith

learnt_saddr :
    (k : Kernel) (f : Flow) (m : RouteMessage) (dst saddr : List ℕ) (oif : ℕ)
    → f.saddr ≡ some saddr
    → (word saddr 0 == 0) ≡ false
    → (learnt k f m dst oif).saddr
      ≡ mem_copy (ip_addr_len f.family / 4) saddr (copied m.prefsrc no_addr)
unfolding note_flow fall_back_mtu fill_route
learnt_saddr k f m dst saddr oif e ne = ground arith

record IsFor (f : Flow) (saddr : List ℕ) (r : RtEntry) : Type 0 where
  family : r.family ≡ f.family
  mark : r.fwmark ≡ f.fwmark
  source : mem_eq (ip_addr_len f.family / 4) r.saddr saddr ≡ true
  target : mem_eq (ip_addr_len f.family / 4) r.daddr f.daddr ≡ true

learnt-IsFor :
    (k : Kernel) (f : Flow) (saddr : List ℕ) (r : RtEntry)
    → IsAnswered k f saddr
    → Learns k f r
    → IsFor f saddr r
learnt-IsFor k f saddr r w l =
    let (fam, mark, daddr) = learnt_fields k f l.message l.dst l.oif in
    let same : l.dst ≡ f.daddr = some-injective _ _ (sym l.has_dst ∙ w.dst l.message l.answered) in
    let n = ip_addr_len f.family / 4 in
    let src = learnt_saddr k f l.message l.dst saddr l.oif w.source w.not_any in
    let room : n ≤ length (copied l.message.prefsrc no_addr) =
      omega (arith, words_bound f.family, length-copied l.message.prefsrc) in
    record {
      family = ap (λ s. s.family) l.entry ∙ fam ∙ w.family l.message l.answered;
      mark = ap (λ s. s.fwmark) l.entry ∙ mark;
      source =
          ap (λ x. mem_eq n x saddr) (ap (λ s. s.saddr) l.entry ∙ src)
          ∙ mem_eq-copy n saddr (copied l.message.prefsrc no_addr) w.source_whole room;
      target =
          ap (λ x. mem_eq n x f.daddr)
            (ap (λ s. s.daddr) l.entry ∙ daddr ∙ ap (λ d. mem_copy (length d) d no_addr) same)
          ∙ ap (λ j. mem_eq n (mem_copy j f.daddr no_addr) f.daddr) w.whole
          ∙ mem_eq-copy n f.daddr no_addr (omega (arith, w.whole)) (words_bound f.family);
    }

module _ ⦃jhash : Jhash⦄ where
  found_first :
      (t : Routes) (f : Flow) (saddr : List ℕ) (p : ℕ) (r : RtEntry) (rest : List ℕ)
      → f.saddr ≡ some saddr
      → t.entries p ≡ some r
      → t.table (hash_rt f.family saddr f.daddr) ≡ p ∷ rest
      → is_route_of f saddr r ≡ true
      → r.invalid ≡ false
      → route_find f t ≡ done (some p)
  unfolding route_find if_usable scan
  found_first t f saddr p r rest e here first hit good =
      let met : scan (is_route_of f saddr) t.entries (p ∷ rest) ≡ done (some p) =
        rw (scan, here, hit) in
      rw (route_find, e, ◌>>=◌, first, met, if_usable, here, good)

  -- After a call that made a route for a flow that the kernel answers for, a flow with the same
  -- addresses and mark finds that route. The next call shares it, also where no memory is left.
  pub route_get_again :
      (t t' : Routes) (k : Kernel) (memory : Option ℕ) (f : Flow) (saddr : List ℕ) (p : ℕ)
      (r : RtEntry)
      → IsAnswered k f saddr
      → Creates t k f p r t'
      → route_get k memory f t' ≡ done (some p, recount p (record r { count = 1 }) 2 t')
  unfolding route_find if_usable scan route_equal
  route_get_again t t' k memory f saddr p r w c =
      let l = learnt-IsFor k f saddr r w (netlink_lookup-Learns k f r c.learnt) in
      let (zero_held, good, plain) = netlink_lookup-flags k f r c.learnt in
      let here : t'.entries p ≡ some (record r { count = 1 }) = c.entries p ∙ rw (==_refl p) refl in
      let key : hash_rt f.family saddr f.daddr ≡ rt_home r = sym (
        ap (λ x. hash_rt x r.saddr r.daddr) l.family
        ∙ hash_rt_congr f.family r.saddr saddr r.daddr f.daddr l.source l.target) in
      let first : t'.table (rt_home r) ≡ p ∷ t.table (rt_home r) =
        ap (λ b. b (rt_home r)) c.table ∙ rw (==_refl (rt_home r)) refl in
      let hit : is_route_of f saddr r ≡ true = ground (arith, l.source, l.target, l.mark) in
      get_runs t' k memory f (some p) (some p, t')
        (found_first t' f saddr p (record r { count = 1 }) (t.table (rt_home r)) w.source here
          (ap t'.table key ∙ first) hit good)
        refl
      ∙ hold_runs t' p (record r { count = 1 }) here
