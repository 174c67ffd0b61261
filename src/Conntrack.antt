-- ===== src/Conntrack.antt =====
-- src/conntrack.h and src/conntrack.c, lines 395-510: the table of the connections that cmm tracks, in
-- the build without IPSEC_FLOW_CACHE. Counts do not wrap.
pub mod Ids
pub mod IdSet
pub mod Valid
pub mod Find
pub mod FromFlow
pub mod Added
pub mod Found
pub mod FlowFound
pub mod BothWays
pub mod Again
pub mod Event
pub mod Events
use cmm.Prelude.{
  ℕ, ◌+◌, ◌-◌, ◌*◌, ◌%◌, ◌^◌, Bool, true, false, Option, none, some, List, [], ◌∷◌, leb, ◌==◌,
  if◌then◌else◌, update,
}
use cmm.Prelude.Run.{Run, done, ◌>>=◌, deref}
use cmm.Net.{Jhash, af_inet, word, four_words, hash_rt}
use cmm.Table.{link, unlink}

-- The attributes of a `struct nf_conntrack` that the table reads; the library of netfilter keeps them.
pub record NfConntrack : Type 0 where
  pub id : ℕ
  pub orig_l3proto : ℕ
  pub repl_l3proto : ℕ
  pub orig_l4proto : ℕ
  pub repl_l4proto : ℕ
  pub orig_src : List ℕ
  pub orig_dst : List ℕ
  pub repl_src : List ℕ
  pub repl_dst : List ℕ
  pub orig_port_src : ℕ
  pub orig_port_dst : ℕ
  pub repl_port_src : ℕ
  pub repl_port_dst : ℕ
  pub orig_fp_ifindex : ℕ
  pub repl_fp_ifindex : ℕ
  pub orig_fp_mark : ℕ
  pub repl_fp_mark : ℕ

-- The fields that the operations on the table use; `local_conn` is the test of
-- LOCAL_CONN, `local_conn_orig` that of LOCAL_CONN_ORIG, and a
-- `tlast` of -1 is `none`.
pub record CtTable : Type 0 where
  pub ct : NfConntrack
  pub family : ℕ
  pub local_conn : Bool
  pub local_conn_orig : Bool
  pub ids : List ℕ
  pub n_id : ℕ
  pub timeout : ℕ
  pub tlast : Option ℕ

-- The entries by address, the tables that thread them, the lists of the tunnels' routes, which
-- `__cmmCtRemove` does not touch, and for the build without a flow cache the lists of the security
-- associations and of the entries that wait for one.
pub record Conntracks : Type 0 where
  pub entries : ℕ → Option CtTable
  pub table : ℕ → List ℕ
  pub by_rep : ℕ → List ℕ
  pub by_orig_route : ℕ → List ℕ
  pub by_rep_route : ℕ → List ℕ
  pub by_orig_tunnel : ℕ → List ℕ
  pub by_rep_tunnel : ℕ → List ℕ
  pub by_sa : ℕ → ℕ → List ℕ
  pub no_sa : ℕ → List ℕ
  pub current : ℕ
  pub max : ℕ

abbrev pub max_ct_id : ℕ
max_ct_id = 8

abbrev pub free_ids : List ℕ
free_ids = 0 ∷ 0 ∷ 0 ∷ 0 ∷ 0 ∷ 0 ∷ 0 ∷ 0 ∷ []

-- The loop of `__cmmCtAddId`: the array with the identifier in its first free place.
unfoldable pub store_id : ℕ → List ℕ → Option (List ℕ)
store_id id [] = none
store_id id (x ∷ xs) =
    let rest : Option (List ℕ) = elim (store_id id xs) [ none ↦ none | some ys ↦ some (x ∷ ys) ] in
    if x == 0 then some (id ∷ xs) else rest

-- 0 and the entry, or -1.
unfoldable pub ct_add_id : ℕ → CtTable → Bool × CtTable
ct_add_id id e = elim (store_id id e.ids) [
  | none ↦ (false, e)
  | some xs ↦ (true, record e { ids = xs; n_id = e.n_id + 1 })
]

-- The entry after `memset` and the writes of `__cmmCtAdd`.
abbrev pub new_entry : NfConntrack → CtTable
new_entry ct =
    (ct_add_id ct.id (record {
      ct = ct;
      family = ct.orig_l3proto;
      local_conn = false;
      local_conn_orig = false;
      ids = free_ids;
      n_id = 0;
      timeout = 0;
      tlast = none;
    })).1

module _ ⦃jhash : Jhash⦄ where
  -- A shift by 16 and an `or` with a 16-bit value is a sum.
  unfoldable pub hash_ct : ℕ → List ℕ → List ℕ → ℕ → ℕ → ℕ → ℕ
  hash_ct family saddr daddr sport dport proto =
      if family == af_inet
      then jhash.jhash_2words (jhash.jhash (word saddr 0 ∷ []) (proto * 2 ^ 16 + proto))
          (jhash.jhash (word daddr 0 ∷ []) (sport * 2 ^ 16 + dport)) 0x48375934
        % 16384
      else jhash.jhash_2words (jhash.jhash (four_words saddr) (proto * 2 ^ 16 + proto))
          (jhash.jhash (four_words daddr) (sport * 2 ^ 16 + dport)) 0x48375934
        % 16384

  -- The buckets of an entry.
  abbrev pub orig_home : CtTable → ℕ
  orig_home e =
      hash_ct e.family e.ct.orig_src e.ct.orig_dst e.ct.orig_port_src e.ct.orig_port_dst
        e.ct.orig_l4proto

  abbrev pub rep_home : CtTable → ℕ
  rep_home e =
      hash_ct e.family e.ct.repl_src e.ct.repl_dst e.ct.repl_port_src e.ct.repl_port_dst
        e.ct.orig_l4proto

  abbrev pub orig_route_home : CtTable → ℕ
  orig_route_home e = hash_rt e.family e.ct.orig_src e.ct.repl_src

  abbrev pub rep_route_home : CtTable → ℕ
  rep_route_home e = hash_rt e.family e.ct.repl_src e.ct.orig_src

  abbrev pub enlist : ℕ → CtTable → Conntracks → Conntracks
  enlist p e t = record t {
    entries = update t.entries p (some e);
    table = link (orig_home e) p t.table;
    by_rep = link (rep_home e) p t.by_rep;
    by_orig_route = link (orig_route_home e) p t.by_orig_route;
    by_rep_route = link (rep_route_home e) p t.by_rep_route;
    current = t.current + 1;
  }

  -- The first argument is the address that `malloc` returns.
  unfoldable pub ct_add : Option ℕ → NfConntrack → Conntracks → Option ℕ × Conntracks
  ct_add memory ct t =
      if leb t.max t.current
      then (none, t)
      else elim memory [ none ↦ (none, t) | some p ↦ (some p, enlist p (new_entry ct) t) ]

-- The tables without the entry at an address.
abbrev pub delist : ℕ → Conntracks → Conntracks
delist p t = record t {
  entries = update t.entries p none;
  table = unlink p t.table;
  by_rep = unlink p t.by_rep;
  by_orig_route = unlink p t.by_orig_route;
  by_rep_route = unlink p t.by_rep_route;
  by_sa = λ i. unlink p (t.by_sa i);
  no_sa = unlink p t.no_sa;
  current = t.current - 1;
}

unfoldable pub ct_remove : ℕ → Conntracks → Run Conntracks
ct_remove p t = do e ← deref (t.entries p); done (delist p t)
