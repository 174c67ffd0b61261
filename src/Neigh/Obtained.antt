-- ===== src/Neigh/Obtained.antt =====
-- src/neighbor_resolution.c, `__cmmNeighGet`: what a call returns and leaves.
use cmm.Prelude.{
  ◌≤◌, ℕ, ◌+◌, ◌/◌, ◌≡◌, ◌≢◌, ◌⊎◌, refl, sym, ap, ◌∙◌, Bool, true, Option, none, some, List, length,
  arith, ==_refl, Option-cases, inl, inr,
}
use cmm.Prelude.Run.{done, ◌>>=◌, Returns}
use cmm.Table.Placed.{modify-IsPlaced}
use cmm.Net.{Jhash, ip_addr_len, mem_eq-copy, no_addr}
use cmm.Neigh.{NeighborEntry, Neighs, store, new_neigh, neigh_match, neigh_find, neigh_add}
use cmm.Neigh.Update.{NeighMessage}
use cmm.Neigh.Valid.{IsValid, ip_home}
use cmm.Neigh.Holders.{neigh_add-IsValid}
use cmm.Neigh.Messages.{find_cases}
use cmm.Neigh.Listed.{AllProper, Apart, Fresh, Lists, lookup_all-Lists}
use cmm.Neigh.Obtain.{hold_neigh, find_or_add, neigh_get}

module _ ⦃jhash : Jhash⦄ (own : ℕ → ℕ → List ℕ → Bool) where
  hold_neigh-IsValid :
      (t : Neighs) (p : ℕ) (n : NeighborEntry)
      → t.entries p ≡ some n
      → IsValid t
      → IsValid (store p (record n { count = n.count + 1 }) t)
  hold_neigh-IsValid t p n here v = record {
    placed =
        modify-IsPlaced ip_home t.entries t.table p n (record n { count = n.count + 1 }) here refl
          v.placed;
    macs = λ q k. ground (arith, v.macs q k, here);
    macs_distinct = v.macs_distinct;
    states = λ q. ground (arith, v.states q, here);
    states_distinct = v.states_distinct;
  }

  -- What a call for an address returns and leaves: an entry for it, held once more, or none where
  -- there was none and the kernel did not answer or no memory was left.
  pub record Gets (t : Neighs) (dump : Option (List (Option ℕ × NeighMessage))) (memory : Option ℕ)
      (family : ℕ) (addr : List ℕ) (ifindex : ℕ) (res : Option ℕ × Neighs) : Type 0 where
    pub valid : IsValid res.1
    pub got :
        (p : ℕ)
        → res.0 ≡ some p
        → (n : NeighborEntry) × (neigh_match family addr ifindex n ≡ true)
          × (res.1.entries p ≡ some (record n { count = n.count + 1 }))
          × ((t.entries p ≡ some n) ⊎ (t.entries p ≡ none))
    pub none_got :
        res.0 ≡ none
        → (neigh_find family addr ifindex t ≡ done none) × ((dump ≡ none) ⊎ (memory ≡ none))
    pub others :
        (q : ℕ) (n : NeighborEntry)
        → res.0 ≢ some q
        → t.entries q ≡ some n
        → res.1.entries q ≡ some n

  module _ (t : Neighs) (memory : Option ℕ) (family : ℕ) (addr : List ℕ) (ifindex : ℕ)
      (v : IsValid t) (whole : ip_addr_len family / 4 ≤ length addr) where
    hold_found :
        (dump : Option (List (Option ℕ × NeighMessage))) (p : ℕ) (n : NeighborEntry)
        → t.entries p ≡ some n
        → neigh_match family addr ifindex n ≡ true
        → Returns (hold_neigh (some p, t)) (Gets t dump memory family addr ifindex)
    unfolding hold_neigh
    hold_found dump p n here hit = (
      (some p, store p (record n { count = n.count + 1 }) t),
      rw (here, ◌>>=◌) refl,
      record {
        valid = hold_neigh-IsValid t p n here v;
        got = λ q e. (n, hit, ground (arith, e), inl (ground (arith, e, here)));
        none_got = λ e. absurd (cc);
        others = λ q m ne h. ground arith;
      },
    )

    new_matches : neigh_match family addr ifindex (new_neigh family addr ifindex) ≡ true
    unfolding neigh_match new_neigh
    new_matches =
        let copied =
          mem_eq-copy (ip_addr_len family / 4) addr no_addr (omega (arith, whole)) (ground arith) in
        ground (arith, copied)

    adds :
        (p : ℕ)
        → memory ≡ some p
        → neigh_find family addr ifindex t ≡ done none
        → find_or_add memory family addr ifindex t
          ≡ hold_neigh (neigh_add (some p) family addr ifindex t)
    unfolding find_or_add
    adds p e missed = rw (missed, ◌>>=◌) (rw e refl)

    holds :
        (t₁ : Neighs) (p : ℕ) (n : NeighborEntry)
        → t₁.entries p ≡ some n
        → hold_neigh (some p, t₁) ≡ done (some p, store p (record n { count = n.count + 1 }) t₁)
    unfolding hold_neigh
    holds t₁ p n here = rw (here, ◌>>=◌) refl

    find_or_add-Gets :
        (dump : Option (List (Option ℕ × NeighMessage)))
        → ((p : ℕ) → memory ≡ some p → t.entries p ≡ none)
        → Returns
            (find_or_add memory family addr ifindex t)
            (Gets t dump memory family addr ifindex)
    unfolding find_or_add hold_neigh neigh_add
    find_or_add-Gets dump fresh = elim (find_cases t family addr ifindex v) [
      | inr (p, n, found, here, hit) ↦
          let (res, run, g) = hold_found dump p n here hit in (res, rw (found, ◌>>=◌) run, g)
      | inl missed ↦ elim (Option-cases memory) [
        | inl exhausted ↦ (
          (none, t),
          rw (missed, ◌>>=◌) (rw exhausted refl),
          record {
            valid = v;
            got = λ q e. absurd (cc);
            none_got = λ e. (missed, inr exhausted);
            others = λ q n ne h. h;
          },
        )
        | inr (p, e) ↦
            let n = new_neigh family addr ifindex in
            let t₁ = (neigh_add (some p) family addr ifindex t).1 in
            let (got_p, v₁, entries) =
              neigh_add-IsValid t p family ifindex addr v (fresh p e) whole in
            let here : t₁.entries p ≡ some n = entries p ∙ rw (==_refl p) refl in
            (
              (some p, store p (record n { count = n.count + 1 }) t₁),
              adds p e missed ∙ holds t₁ p n here,
              record {
                valid = hold_neigh-IsValid t₁ p n here v₁;
                got = λ q e'.
                    (n, new_matches, ground (arith, e'), inr (ground (arith, e', fresh p e)));
                none_got = λ e'. absurd (cc);
                others = λ q m ne h.
                    let apart : q ≢ p = λ at. ne (ap some (sym at)) in ground (arith, h, entries q);
              },
            )
      ]
    ]

  -- A call after the dump, seen from before it.
  after_dump :
      (t t' : Neighs) (messages : List (Option ℕ × NeighMessage)) (memory : Option ℕ) (family : ℕ)
      (addr : List ℕ) (ifindex : ℕ) (res : Option ℕ × Neighs)
      → Lists own messages t t'
      → neigh_find family addr ifindex t ≡ done none
      → Gets t' (some messages) memory family addr ifindex res
      → Gets t (some messages) memory family addr ifindex res
  after_dump t t' messages memory family addr ifindex res l missed g = record {
    valid = g.valid;
    got = λ p e.
        let (n, hit, now, was) = g.got p e in
        (
          n,
          hit,
          now,
          elim (Option-cases (t.entries p)) [
            | inl absent ↦ inr absent
            | inr (m, before) ↦ elim was [
              | inl later ↦ inl (before ∙ sym (l.kept p m before) ∙ later)
              | inr gone ↦ absurd (ground (arith, gone, l.kept p m before))
            ]
          ],
        );
    none_got = λ e. (missed, (g.none_got e).1);
    others = λ q n ne h. g.others q n ne (l.kept q n h);
  }

  -- On consistent indexes, for a whole address, a dump of whole addresses and MAC addresses that
  -- fit, and free memory that is handed out once, __cmmNeighGet returns and keeps the indexes
  -- consistent: it returns an entry for the address with one holder more, which was there or is
  -- new, or none where there was none and there is no dump or no memory; and the other entries
  -- that there were are as they were.
  pub neigh_get-Gets :
      (t : Neighs) (dump : Option (List (Option ℕ × NeighMessage))) (memory : Option ℕ) (family : ℕ)
      (addr : List ℕ) (ifindex : ℕ)
      → IsValid t
      → ip_addr_len family / 4 ≤ length addr
      → ((messages : List (Option ℕ × NeighMessage))
          → dump ≡ some messages
          → AllProper messages × Fresh t messages × Apart memory messages)
      → ((p : ℕ) → memory ≡ some p → t.entries p ≡ none)
      → Returns
          (neigh_get own dump memory family addr ifindex t)
          (Gets t dump memory family addr ifindex)
  unfolding neigh_get
  neigh_get-Gets t dump memory family addr ifindex v whole proper fresh =
      elim (find_cases t family addr ifindex v) [
        | inr (p, n, found, here, hit) ↦
            let (res, run, g) = hold_found t memory family addr ifindex v whole dump p n here hit in
            (res, rw (found, ◌>>=◌) run, g)
        | inl missed ↦ elim (Option-cases dump) [
          | inl silent ↦ (
            (none, t),
            rw (missed, ◌>>=◌) (rw silent refl),
            record {
              valid = v;
              got = λ q e. absurd (cc);
              none_got = λ e. (missed, inl silent);
              others = λ q n ne h. h;
            },
          )
          | inr (messages, told) ↦
              let (well, free, apart) = proper messages told in
              let (t', run, l) = lookup_all-Lists own ifindex messages t v well free in
              let (res, runs, g) =
                find_or_add-Gets t' memory family addr ifindex l.valid whole (some messages)
                  (λ p e. l.elsewhere memory p e apart ∙ fresh p e) in
              (
                res,
                rw (missed, ◌>>=◌) (rw told (rw (run, ◌>>=◌) runs)),
                rw told (after_dump t t' messages memory family addr ifindex res l missed g),
              )
        ]
      ]
