-- ===== src/Conntrack/Events.antt =====
-- src/conntrack.c, `cmmCheckEvent` against a specification that knows a connection by the set of the
-- kernel's identifiers for it.
use cmm.Prelude.{
  ℕ, ◌≡◌, ◌≢◌, refl, Bool, true, false, not, Option, none, some, List, ◌∷◌, arith, length, mem,
  erase, ltb, ◌==◌, if◌then◌else◌, Bool-cases, inl, inr,
}
use cmm.Conntrack.{CtTable, max_ct_id}
use cmm.Conntrack.Ids.{Holds, length-taken}
use cmm.Conntrack.IdSet.{
  ct_find_id-mem, ct_add_id-Holds, ct_add_id_full, ct_del_id-Holds, ct_del_id_unknown,
}
use cmm.Conntrack.Event.{
  EventType, created, updated, destroyed, unknown, Checked, passes, admit, discard, second_pass,
  check_event,
}

-- What the specification says of an event: whether it is processed, the identifiers that are known
-- then, and whether the kernel is asked for an update.
pub record Verdict : Type 0 where
  pub processed : Bool
  pub known : Option (List ℕ)
  pub forced : Bool

-- An event under an identifier that is new. There is room for eight.
abbrev pub joined : ℕ → List ℕ → List ℕ
joined id ks = if ltb (length ks) max_ct_id then id ∷ ks else ks

-- An event counts if it leaves at most one identifier.
abbrev pub settled : List ℕ → Verdict
settled ks = record { processed = not (ltb 1 (length ks)); known = some ks; forced = false }

abbrev pub pass_over : Option (List ℕ) → Verdict
pass_over known = record { processed = false; known = known; forced = false }

-- An end of one of several connections leaves the entry out of date.
abbrev pub drop_id : ℕ → List ℕ → Verdict
drop_id id ks = let ks' = erase id ks in record (settled ks') { forced = length ks' == 1 }

pub specified : EventType → Bool → ℕ → Option (List ℕ) → Verdict
specified created gone id none = record { processed = true; known = none; forced = false }
specified updated gone id none = record { processed = not gone; known = none; forced = false }
specified destroyed gone id none = pass_over none
specified unknown gone id none = record { processed = true; known = none; forced = false }
specified created gone id (some ks) =
    if mem id ks then pass_over (some ks) else settled (joined id ks)
specified updated gone id (some ks) =
    if mem id ks then settled ks else if gone then pass_over (some ks) else settled (joined id ks)
specified destroyed gone id (some ks) = if mem id ks then drop_id id ks else pass_over (some ks)
specified unknown gone id (some ks) = record { processed = true; known = some ks; forced = false }

-- An entry stands for a set of identifiers.
abbrev pub StandsFor : Option CtTable → Option (List ℕ) → Type 0
StandsFor none none = Unit {0}
StandsFor none (some ks) = ⊥
StandsFor (some e) none = ⊥
StandsFor (some e) (some ks) = Holds e ks

pub record Agrees (c : Checked) (v : Verdict) : Type 0 where
  pub processed : c.processed ≡ v.processed
  pub forced : c.forced ≡ v.forced
  pub entry : StandsFor c.entry v.known

module _ (id : ℕ) (h : id ≢ 0) (e : CtTable) (ks : List ℕ) (v : Holds e ks) where
  admit_known : mem id ks ≡ true → Agrees (admit id e) (settled ks)
  unfolding admit
  admit_known known =
      rw (ct_find_id-mem e ks id h v, known)
        (record { processed = rw v.counted refl; forced = refl; entry = v })

  admit_new : mem id ks ≡ false → Agrees (admit id e) (settled (joined id ks))
  unfolding admit
  admit_new new = elim (Bool-cases (ltb (length ks) max_ct_id)) [
    | inl room ↦
        let (ok, more) = ct_add_id-Holds e ks id h v new (ground arith) in
        rw (ct_find_id-mem e ks id h v, new, room)
          (record { processed = rw more.counted refl; forced = refl; entry = more })
    | inr full ↦
        let all : length ks ≡ max_ct_id = ground (arith, v.size, v.places, length-taken e.ids) in
        rw (ct_find_id-mem e ks id h v, new, full, ct_add_id_full e ks id h v all)
          (record { processed = rw v.counted refl; forced = refl; entry = v })
  ]

  discard_known : mem id ks ≡ true → Agrees (discard id e) (drop_id id ks)
  unfolding discard
  discard_known known =
      let (ok, less) = ct_del_id-Holds e ks id h v known in
      rw ok
        (record { processed = rw less.counted refl; forced = rw less.counted refl; entry = less })

  discard_unknown : mem id ks ≡ false → Agrees (discard id e) (pass_over (some ks))
  unfolding discard
  discard_unknown foreign =
      rw (ct_del_id_unknown e ks id h v foreign)
        (record { processed = refl; forced = refl; entry = v })

  admits :
      (gone : Bool)
      → Agrees (check_event updated gone id (some e)) (specified updated gone id (some ks))
  unfolding check_event passes second_pass specified
  admits gone = elim (Bool-cases (mem id ks)) [
    | inl known ↦ rw (ct_find_id-mem e ks id h v, known) (admit_known known)
    | inr new ↦ elim (Bool-cases gone) [
      | inl stale ↦
          rw (ct_find_id-mem e ks id h v, new, stale)
            (record { processed = refl; forced = refl; entry = v })
      | inr fresh ↦ rw (ct_find_id-mem e ks id h v, new, fresh) (admit_new new)
    ]
  ]

  begins :
      (gone : Bool)
      → Agrees (check_event created gone id (some e)) (specified created gone id (some ks))
  unfolding check_event passes second_pass specified
  begins gone = elim (Bool-cases (mem id ks)) [
    | inl known ↦
        rw (ct_find_id-mem e ks id h v, known)
          (record { processed = refl; forced = refl; entry = v })
    | inr new ↦ rw (ct_find_id-mem e ks id h v, new) (admit_new new)
  ]

  ends :
      (gone : Bool)
      → Agrees (check_event destroyed gone id (some e)) (specified destroyed gone id (some ks))
  unfolding check_event passes second_pass specified
  ends gone = elim (Bool-cases (mem id ks)) [
    | inl known ↦ rw known (discard_known known)
    | inr foreign ↦ rw foreign (discard_unknown foreign)
  ]

-- cmmCheckEvent refines a specification that knows a connection by the set of the kernel's
-- identifiers for it: for an identifier that is not 0 and an entry that holds a set, it processes
-- an event, asks the kernel for an update and changes the set exactly as the specification says.
pub check_event-Agrees :
    (event : EventType) (gone : Bool) (id : ℕ) (entry : Option CtTable) (known : Option (List ℕ))
    → id ≢ 0
    → StandsFor entry known
    → Agrees (check_event event gone id entry) (specified event gone id known)
unfolding check_event passes second_pass specified
check_event-Agrees event gone id none (some ks) h v = absurd v
check_event-Agrees event gone id (some e) none h v = absurd v
check_event-Agrees created gone id none none h v = record {
  processed = refl;
  forced = refl;
  entry = tt;
}
check_event-Agrees updated true id none none h v = record {
  processed = refl;
  forced = refl;
  entry = tt;
}
check_event-Agrees updated false id none none h v = record {
  processed = refl;
  forced = refl;
  entry = tt;
}
check_event-Agrees destroyed gone id none none h v = record {
  processed = refl;
  forced = refl;
  entry = tt;
}
check_event-Agrees unknown gone id none none h v = record {
  processed = refl;
  forced = refl;
  entry = tt;
}
check_event-Agrees created gone id (some e) (some ks) h v = begins id h e ks v gone
check_event-Agrees updated gone id (some e) (some ks) h v = admits id h e ks v gone
check_event-Agrees destroyed gone id (some e) (some ks) h v = ends id h e ks v gone
check_event-Agrees unknown gone id (some e) (some ks) h v = record {
  processed = refl;
  forced = refl;
  entry = v;
}
