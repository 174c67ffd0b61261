-- ===== src/Neigh/Probes.antt =====
-- src/neighbor_resolution.c, `cmmNeighSendSolicit`: what a call does to each entry.
use cmm.Prelude.{
  ℕ, ◌+◌, ◌≡◌, ◌≢◌, refl, sym, ◌∙◌, ap, fun_ext, Bool, true, false, Option, none, some, List, [],
  ◌∷◌, arith, ltb, ◌==◌, ==_iff, if◌then◌else◌, update, erase, mem, mem-erase, Distinct,
  Distinct-erase, NotIn, NotIn-mem, Bool-cases, Option-cases, inl, inr, map,
}
use cmm.Prelude.Run.{done, ◌>>=◌, Returns}
use cmm.Net.{Jhash}
use cmm.Table.Placed.{modify-IsPlaced}
use cmm.Neigh.{NeighborEntry, Neighs}
use cmm.Neigh.Valid.{IsValid, ip_home, wants_solicit}
use cmm.Neigh.Solicit.{
  NeighReq, Packet, add_solicit_q, packet_of, send_solicit_q, solicit_entry, solicit_loop,
  neigh_send_solicit,
}

-- What a call does to an entry that needs solicitation.
abbrev pub probe : Bool → NeighborEntry → NeighborEntry
probe memory n =
    if ltb n.nr_probes 6
    then (if memory then record n { nr_probes = n.nr_probes + 1 } else n)
    else record n { needs_solicit = false; nr_probes = 0 }

abbrev pub probed : Bool → Option NeighborEntry → Option NeighborEntry
probed memory none = none
probed memory (some n) = some (probe memory n)

-- The request for an entry: unicast for the first three probes, multicast for the next three.
abbrev pub requests : Bool → NeighborEntry → List NeighReq → List NeighReq
requests memory n queue =
    elim (add_solicit_q memory n.family n.ifindex n.ip_addr
      (if ltb n.nr_probes 3 then some n.mac_addr else none) queue) [
        | none ↦ queue
        | some queue' ↦ if ltb n.nr_probes 6 then queue' else queue
      ]

-- The tables after a round for the entry `n` at `p`.
abbrev pub after : Bool → ℕ → NeighborEntry → Neighs → Neighs
after memory p n t = record t {
  entries = update t.entries p (some (probe memory n));
  by_state = if ltb n.nr_probes 6 then t.by_state else erase p t.by_state;
}

-- A write of what stands there already.
same_at :
    (f : ℕ → Option NeighborEntry) (p : ℕ) (n : NeighborEntry) (q : ℕ)
    → f p ≡ some n
    → update f p (some n) q ≡ f q
same_at f p n q h = elim (Bool-cases (q == p)) [
  | inl same ↦ let e : q ≡ p = (==_iff q p).0 same in rw (same, e) (sym h)
  | inr other ↦ rw other
]

solicit_entry_lem :
    (memory : Bool) (p : ℕ) (t : Neighs) (n : NeighborEntry) (queue : List NeighReq)
    → t.entries p ≡ some n
    → solicit_entry memory p (t, queue) ≡ done (after memory p n t, requests memory n queue)
unfolding solicit_entry add_solicit_q
solicit_entry_lem true p t n queue here = elim (Bool-cases (ltb n.nr_probes 3)) [
  | inl few ↦
      let some_left : ltb n.nr_probes 6 ≡ true = ground arith in rw (here, ◌>>=◌, few, some_left)
  | inr more ↦ elim (Bool-cases (ltb n.nr_probes 6)) [
    | inl some_left ↦ rw (here, ◌>>=◌, more, some_left)
    | inr over ↦ rw (here, ◌>>=◌, more, over)
  ]
]
solicit_entry_lem false p t n queue here =
    let same : update t.entries p (some n) ≡ t.entries =
      fun_ext (λ q. same_at t.entries p n q here) in
    elim (Bool-cases (ltb n.nr_probes 3)) [
      | inl few ↦
          let some_left : ltb n.nr_probes 6 ≡ true = ground arith in
          rw (here, ◌>>=◌, few, some_left)
            (ap (λ e. done (record t { entries = e }, queue)) (sym same))
      | inr more ↦ elim (Bool-cases (ltb n.nr_probes 6)) [
        | inl some_left ↦
            rw (here, ◌>>=◌, more, some_left)
              (ap (λ e. done (record t { entries = e }, queue)) (sym same))
        | inr over ↦ rw (here, ◌>>=◌, more, over)
      ]
    ]

-- The requests for the entries at `ps`, in the order of the loop, before those that were queued.
abbrev pub queued : (ℕ → Bool) → (ℕ → Option NeighborEntry) → List ℕ → List NeighReq → List NeighReq
queued memory f [] queue = queue
queued memory f (p ∷ ps) queue =
    queued memory f ps (elim (f p) [ none ↦ queue | some n ↦ requests (memory p) n queue ])

queued_congr :
    (memory : ℕ → Bool) (f : ℕ → Option NeighborEntry) (p : ℕ) (v : Option NeighborEntry)
    (ps : List ℕ) (queue : List NeighReq)
    → NotIn p ps
    → queued memory (update f p v) ps queue ≡ queued memory f ps queue
queued_congr memory f p v [] queue h = refl
queued_congr memory f p v (q ∷ ps) queue h =
    let off : (q == p) ≡ false = ground (arith, h.0) in rw off (queued_congr memory f p v ps _ h.1)

module _ ⦃jhash : Jhash⦄ where
  after-IsValid :
      (memory : Bool) (p : ℕ) (t : Neighs) (n : NeighborEntry)
      → t.entries p ≡ some n
      → IsValid t
      → IsValid (after memory p n t)
  after-IsValid memory p t n here v = record {
    placed =
        modify-IsPlaced ip_home t.entries t.table p n (probe memory n) here (ground arith) v.placed;
    macs = λ q k. ground (arith, v.macs q k, here);
    macs_distinct = v.macs_distinct;
    states = λ q. ground (arith, v.states q, here, mem-erase q p t.by_state v.states_distinct);
    states_distinct =
        ground (arith, v.states_distinct, Distinct-erase p t.by_state v.states_distinct);
  }

  -- The loop over the entries at `ps`.
  record Loops (memory : ℕ → Bool) (ps : List ℕ) (t : Neighs) (queue : List NeighReq)
      (r : Neighs × List NeighReq) : Type 0 where
    valid : IsValid r.0
    entries :
        (q : ℕ)
        → r.0.entries q ≡ (if mem q ps then probed (memory q) (t.entries q) else t.entries q)
    requests : r.1 ≡ queued memory t.entries ps queue

  solicit_loop_lem :
      (memory : ℕ → Bool) (ps : List ℕ) (t : Neighs) (queue : List NeighReq)
      → Distinct ps
      → ((q : ℕ) → mem q ps ≡ true → t.entries q ≢ none)
      → IsValid t
      → Returns (solicit_loop memory ps (t, queue)) (Loops memory ps t queue)
  unfolding solicit_loop
  solicit_loop_lem memory [] t queue d live v =
      ((t, queue), refl, record { valid = v; entries = λ q. refl; requests = refl })
  solicit_loop_lem memory (p ∷ ps) t queue d live v = elim (Option-cases (t.entries p)) [
    | inl dead ↦ absurd (live p (ground arith) dead)
    | inr (n, here) ↦
        let t₁ = after (memory p) p n t in
        let (r, run, w) =
          solicit_loop_lem memory ps t₁ (requests (memory p) n queue) d.1
            (λ q m e. ground (arith, live q)) (after-IsValid (memory p) p t n here v) in
        (
          r,
          rw (solicit_entry_lem (memory p) p t n queue here) run,
          record {
            valid = w.valid;
            entries = λ q. ground (arith, w.entries q, here, NotIn-mem p ps d.0);
            requests = w.requests ∙ queued_congr memory t.entries p _ ps _ d.0 ∙ (rw here);
          },
        )
  ]

send_solicit_q_lem : (queue : List NeighReq) → send_solicit_q queue ≡ (map packet_of queue, [])
unfolding send_solicit_q
send_solicit_q_lem [] = refl
send_solicit_q_lem (r ∷ queue) = rw (send_solicit_q_lem queue)

module _ ⦃jhash : Jhash⦄ where
  listed-live : (t : Neighs) → IsValid t → (q : ℕ) → mem q t.by_state ≡ true → t.entries q ≢ none
  listed-live t v q m e = ground (arith, v.states q)

  -- What a call of `cmmNeighSendSolicit` leaves and sends.
  pub record Sends (memory : ℕ → Bool) (t : Neighs) (queue : List NeighReq)
      (r : Neighs × List Packet × List NeighReq) : Type 0 where
    pub valid : IsValid r.0
    pub entries :
        (q : ℕ)
        → r.0.entries q
          ≡ (if wants_solicit (t.entries q) then probed (memory q) (t.entries q) else t.entries q)
    pub packets : r.1 ≡ map packet_of (queued memory t.entries t.by_state queue)
    pub empty : r.2 ≡ []

  pub neigh_send_solicit-Sends :
      (memory : ℕ → Bool) (t : Neighs) (queue : List NeighReq)
      → IsValid t
      → Returns (neigh_send_solicit memory t queue) (Sends memory t queue)
  unfolding neigh_send_solicit
  neigh_send_solicit-Sends memory t queue v =
      let (r, run, w) =
        solicit_loop_lem memory t.by_state t queue v.states_distinct (listed-live t v) v in
      (
        (r.0, map packet_of r.1, []),
        rw (run, ◌>>=◌) (rw (send_solicit_q_lem r.1)),
        record {
          valid = w.valid;
          entries = λ q. w.entries q ∙ rw (v.states q);
          packets = ap (map packet_of) w.requests;
          empty = refl;
        },
      )
