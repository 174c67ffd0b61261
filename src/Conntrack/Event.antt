-- ===== src/Conntrack/Event.antt =====
-- src/conntrack.c, lines 2402-2474, `cmmCheckEvent`: whether an event of the kernel's connection
-- tracking is processed. Events may come late or out of order, so the entry for a connection may hold
-- the identifiers of several connections of the kernel.
use cmm.Prelude.{ℕ, Bool, true, false, not, ◌&&◌, Option, none, some, ltb, ◌==◌, if◌then◌else◌}
use cmm.Conntrack.{CtTable, ct_add_id}
use cmm.Conntrack.Ids.{ct_find_id, ct_del_id}

-- NFCT_T_NEW, NFCT_T_UPDATE, NFCT_T_DESTROY and the others.
pub data EventType : Type 0 where
  created : EventType
  updated : EventType
  destroyed : EventType
  unknown : EventType

-- What a call returns, the entry, and whether `cmmCtForceUpdate` was called.
pub record Checked : Type 0 where
  pub processed : Bool
  pub entry : Option CtTable
  pub forced : Bool

abbrev pub not_processed : Option CtTable → Checked
not_processed entry = record { processed = false; entry = entry; forced = false }

abbrev pub not_tracked : ℕ → Option CtTable → Bool
not_tracked id none = true
not_tracked id (some e) = not (ct_find_id id e)

-- The first pass; `gone` is the result of `cmmCheckUpdateEvent`, which asks the kernel.
unfoldable pub passes : EventType → Bool → ℕ → Option CtTable → Bool
passes created gone id entry = true
passes updated gone id entry = not (not_tracked id entry && gone)
passes destroyed gone id none = false
passes destroyed gone id (some e) = true
passes unknown gone id entry = true

-- The case of an update in the second pass.
unfoldable pub admit : ℕ → CtTable → Checked
admit id e =
    let e' = if ct_find_id id e then e else (ct_add_id id e).1 in
    record { processed = not (ltb 1 e'.n_id); entry = some e'; forced = false }

unfoldable pub discard : ℕ → CtTable → Checked
discard id e =
    let (deleted, e') = ct_del_id id e in
    if deleted
    then record { processed = not (ltb 1 e'.n_id); entry = some e'; forced = e'.n_id == 1 }
    else not_processed (some e')

unfoldable pub second_pass : EventType → ℕ → CtTable → Checked
second_pass created id e = if ct_find_id id e then not_processed (some e) else admit id e
second_pass updated id e = admit id e
second_pass destroyed id e = discard id e
second_pass unknown id e = record { processed = true; entry = some e; forced = false }

unfoldable pub check_event : EventType → Bool → ℕ → Option CtTable → Checked
check_event event gone id entry =
    if passes event gone id entry
    then elim entry [
      | none ↦ record { processed = true; entry = none; forced = false }
      | some e ↦ second_pass event id e
    ]
    else not_processed entry
