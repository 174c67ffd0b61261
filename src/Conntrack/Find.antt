-- ===== src/Conntrack/Find.antt =====
-- src/conntrack.c, lines 677-764 and 815-871: the search for the entry of a connection of the kernel.
use cmm.Prelude.{ℕ, Bool, ◌&&◌, Option, none, some, List, ◌==◌, if◌then◌else◌}
use cmm.Prelude.Run.{Run, done, ◌>>=◌}
use cmm.Net.{Jhash, af_inet, word, mem_eq}
use cmm.Table.{scan}
use cmm.Conntrack.{NfConntrack, Conntracks, hash_ct}

-- The comparison of two addresses by `nfct_get_attr_u32` or `memcmp`.
unfoldable pub addr_equal : ℕ → List ℕ → List ℕ → Bool
addr_equal family a b = if family == af_inet then word a 0 == word b 0 else mem_eq 4 a b

unfoldable pub ct_compare : NfConntrack → NfConntrack → Bool
ct_compare ct₁ ct₂ =
    ct₁.orig_l3proto == ct₂.orig_l3proto
    && addr_equal ct₁.orig_l3proto ct₁.orig_src ct₂.orig_src
    && addr_equal ct₁.orig_l3proto ct₁.orig_dst ct₂.orig_dst
    && addr_equal ct₁.orig_l3proto ct₁.repl_src ct₂.repl_src
    && addr_equal ct₁.orig_l3proto ct₁.repl_dst ct₂.repl_dst
    && ct₁.orig_port_src == ct₂.orig_port_src
    && ct₁.orig_port_dst == ct₂.orig_port_dst
    && ct₁.repl_port_src == ct₂.repl_port_src
    && ct₁.repl_port_dst == ct₂.repl_port_dst
    && ct₁.orig_l4proto == ct₂.orig_l4proto

-- The first connection is the second one, seen from the other end.
unfoldable pub ct_compare_inv : NfConntrack → NfConntrack → Bool
ct_compare_inv ct₁ ct₂ =
    ct₁.orig_l3proto == ct₂.repl_l3proto
    && addr_equal ct₁.orig_l3proto ct₁.orig_src ct₂.repl_src
    && addr_equal ct₁.orig_l3proto ct₁.orig_dst ct₂.repl_dst
    && addr_equal ct₁.orig_l3proto ct₁.repl_src ct₂.orig_src
    && addr_equal ct₁.orig_l3proto ct₁.repl_dst ct₂.orig_dst
    && ct₁.orig_port_src == ct₂.repl_port_src
    && ct₁.orig_port_dst == ct₂.repl_port_dst
    && ct₁.repl_port_src == ct₂.orig_port_src
    && ct₁.repl_port_dst == ct₂.orig_port_dst
    && ct₁.orig_l4proto == ct₂.repl_l4proto

module _ ⦃jhash : Jhash⦄ where
  -- HASH_CT of the original direction.
  abbrev pub ct_key : NfConntrack → ℕ
  ct_key ct =
      hash_ct ct.orig_l3proto ct.orig_src ct.orig_dst ct.orig_port_src ct.orig_port_dst
        ct.orig_l4proto

  unfoldable pub ct_find : NfConntrack → Conntracks → Run (Option ℕ)
  ct_find ct t = do
    found ← scan (λ e. ct_compare e.ct ct) t.entries (t.table (ct_key ct))
    elim found [
      | none ↦ scan (λ e. ct_compare_inv e.ct ct) t.entries (t.by_rep (ct_key ct))
      | some p ↦ done (some p)
    ]
