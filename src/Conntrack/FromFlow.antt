-- ===== src/Conntrack/FromFlow.antt =====
-- src/conntrack.c, lines 517-671 and 776-808: the search for the entry of a packet flow, in either
-- direction.
use cmm.Prelude.{ℕ, ◌/◌, Bool, true, not, ◌&&◌, ◌||◌, Option, none, some, List, ◌==◌, if◌then◌else◌}
use cmm.Prelude.Run.{Run, done, ◌>>=◌, deref}
use cmm.Net.{Jhash, ip_addr_len, mem_eq}
use cmm.Table.{scan}
use cmm.RouteEntry.{Flow}
use cmm.Conntrack.{CtTable, Conntracks, hash_ct}

-- The arguments of `__cmmCtFindFromFlow`.
pub record FlowKey : Type 0 where
  pub family : ℕ
  pub saddr : List ℕ
  pub daddr : List ℕ
  pub sport : ℕ
  pub dport : ℕ
  pub proto : ℕ
  pub local : Bool

-- The same flow in the other direction.
abbrev pub turned : FlowKey → FlowKey
turned f = record f { saddr = f.daddr; daddr = f.saddr; sport = f.dport; dport = f.sport }

-- The tests that lead to the next entry.
unfoldable pub same_kind : FlowKey → CtTable → Bool
same_kind f e =
    e.ct.orig_l3proto == f.family && (if f.local then e.local_conn else not e.local_conn)

unfoldable pub is_orig : FlowKey → CtTable → Bool
is_orig f e =
    mem_eq (ip_addr_len f.family / 4) e.ct.orig_src f.saddr
    && mem_eq (ip_addr_len f.family / 4) e.ct.orig_dst f.daddr
    && e.ct.orig_port_src == f.sport
    && e.ct.orig_port_dst == f.dport
    && e.ct.orig_l4proto == f.proto

unfoldable pub is_repl : FlowKey → CtTable → Bool
is_repl f e =
    mem_eq (ip_addr_len f.family / 4) e.ct.repl_src f.saddr
    && mem_eq (ip_addr_len f.family / 4) e.ct.repl_dst f.daddr
    && e.ct.repl_port_src == f.sport
    && e.ct.repl_port_dst == f.dport
    && e.ct.orig_l4proto == f.proto

-- What the loops over the two lists look for.
abbrev pub of_orig : FlowKey → CtTable → Bool
of_orig f e = same_kind f e && (is_orig f e || is_orig (turned f) e)

abbrev pub of_repl : FlowKey → CtTable → Bool
of_repl f e = same_kind f e && (is_repl f e || is_repl (turned f) e)

-- The entry with `*orig`.
abbrev pub Direction : Type 0
Direction = Option (ℕ × Bool)

unfoldable pub with_direction : (CtTable → Bool) → (ℕ → Option CtTable) → Option ℕ → Run Direction
with_direction orig entries none = done none
with_direction orig entries (some p) = do e ← deref (entries p); done (some (p, orig e))

-- One pass over the lists of a key.
unfoldable pub ct_pass : FlowKey → ℕ → Conntracks → Run Direction
ct_pass f key t = do
  found ← scan (of_orig f) t.entries (t.table key)
  elim found [
    | some p ↦ with_direction (is_orig f) t.entries (some p)
    | none ↦ do
      found ← scan (of_repl f) t.entries (t.by_rep key)
      with_direction (λ e. not (is_repl f e)) t.entries found
  ]

module _ ⦃jhash : Jhash⦄ where
  abbrev pub flow_key : FlowKey → ℕ
  flow_key f = hash_ct f.family f.saddr f.daddr f.sport f.dport f.proto

  unfoldable pub ct_find_from_flow : FlowKey → Conntracks → Run Direction
  ct_find_from_flow f t = do
    found ← ct_pass f (flow_key f) t
    elim found [
      | some hit ↦ done (some hit)
      | none ↦
          if flow_key f == flow_key (turned f) then done none else ct_pass f (flow_key (turned f)) t
    ]

  -- The local connection of a flow, which must come in by the interface of the flow.
  unfoldable pub ct_find_local_from_flow : Flow → Conntracks → Run (Option ℕ)
  ct_find_local_from_flow flow t = do
    saddr ← deref flow.saddr
    found ←
        ct_find_from_flow
          (record {
            family = flow.family;
            saddr = saddr;
            daddr = flow.daddr;
            sport = 0;
            dport = 0;
            proto = flow.proto;
            local = true;
          })
          t
    elim found [
      | none ↦ done none
      | some (p, orig) ↦ do
        e ← deref (t.entries p)
        let iifindex = if orig then e.ct.orig_fp_ifindex else e.ct.repl_fp_ifindex
        if e.local_conn && flow.iifindex == iifindex then done (some p) else done none
    ]
