-- ===== src/Neigh/GiveUp.antt =====
-- src/neighbor_resolution.c: the solicitation of neighbours that do not answer.
use cmm.Prelude.{
  ℕ, zero, suc, ◌+◌, ◌≤◌, ◌≡◌, ◌≢◌, refl, sym, ◌∙◌, true, false, Option, none, some, List, [], ◌∷◌,
  arith, if◌then◌else◌, mem,
}
use cmm.Prelude.Run.{Run, done, ◌>>=◌, Returns}
use cmm.Net.{Jhash}
use cmm.Neigh.{NeighborEntry, Neighs}
use cmm.Neigh.Valid.{IsValid, wants_solicit}
use cmm.Neigh.Solicit.{neigh_send_solicit}
use cmm.Neigh.Probes.{probed, neigh_send_solicit-Sends}

-- So many calls in a row, with memory for every request.
pub send_rounds : ℕ → Neighs → Run Neighs
send_rounds zero t = done t
send_rounds (suc k) t = neigh_send_solicit (λ q. true) t [] >>= (λ r. send_rounds k r.0)

-- Each entry on the list has had so many probes, or no more than so many.
abbrev pub AtLeast : ℕ → Neighs → Type 0
AtLeast j t =
    (q : ℕ) (n : NeighborEntry) → t.entries q ≡ some n → n.needs_solicit ≡ true → j ≤ n.nr_probes

abbrev pub AtMost : ℕ → Neighs → Type 0
AtMost j t =
    (q : ℕ) (n : NeighborEntry) → t.entries q ≡ some n → n.needs_solicit ≡ true → n.nr_probes ≤ j

probe_grows :
    (o : Option NeighborEntry) (n : NeighborEntry)
    → (if wants_solicit o then probed true o else o) ≡ some n
    → n.needs_solicit ≡ true
    → (n' : NeighborEntry) × (o ≡ some n')
      × (n'.needs_solicit ≡ true)
      × (n.nr_probes ≡ n'.nr_probes + 1)
      × (n.nr_probes ≤ 6)
probe_grows none n e w = cc
probe_grows (some n') n e w = ground arith

mem-nil : (xs : List ℕ) → ((q : ℕ) → mem q xs ≡ false) → xs ≡ []
mem-nil [] h = refl
mem-nil (x ∷ xs) h = ground (arith, h x)

module _ ⦃jhash : Jhash⦄ where
  one_round :
      (j : ℕ) (t : Neighs)
      → IsValid t
      → AtLeast j t
      → Returns
          (neigh_send_solicit (λ q. true) t [])
          (λ r. IsValid r.0 × AtLeast (j + 1) r.0 × AtMost 6 r.0)
  one_round j t v low =
      let (r, run, s) = neigh_send_solicit-Sends (λ q. true) t [] v in
      (
        r,
        run,
        (
          s.valid,
          (λ q n e w.
              let (n', old, w', grown, few) =
                probe_grows (t.entries q) n (sym (s.entries q) ∙ e) w in
              omega (arith, low q n' old w')),
          λ q n e w. (probe_grows (t.entries q) n (sym (s.entries q) ∙ e) w).4,
        ),
      )

  rounds_lem :
      (k j : ℕ) (t : Neighs)
      → IsValid t
      → AtLeast j t
      → Returns (send_rounds (suc k) t) (λ t'. IsValid t' × AtLeast (j + suc k) t' × AtMost 6 t')
  unfolding send_rounds
  rounds_lem zero j t v low = let (r, run, w) = one_round j t v low in (r.0, rw (run, ◌>>=◌), w)
  rounds_lem (suc k) j t v low =
      let (r, run, (v₁, low₁, high₁)) = one_round j t v low in
      let (t', run', (v', low', high')) = rounds_lem k (j + 1) r.0 v₁ low₁ in
      (t', rw (run, ◌>>=◌) run', (v', (λ q n e w. omega (arith, low' q n e w)), high'))

  nothing_wanted :
      (o : Option NeighborEntry)
      → ((n : NeighborEntry) → o ≡ some n → n.needs_solicit ≢ true)
      → wants_solicit o ≡ false
  nothing_wanted none h = refl
  nothing_wanted (some n) h = ground (arith, h n refl)

  -- From any consistent tables, seven calls leave no entry on the list of solicitations, if no
  -- message of the kernel comes in between and memory for the requests is left.
  pub send_rounds_ends :
      (t : Neighs) → IsValid t → Returns (send_rounds 7 t) (λ t'. IsValid t' × (t'.by_state ≡ []))
  send_rounds_ends t v =
      let (t', run, (v', low, high)) = rounds_lem 6 0 t v (λ q n e w. omega arith) in
      let quiet = λ (q : ℕ).
        nothing_wanted (t'.entries q)
          (λ n e w. absurd (omega (arith, low q n e w, high q n e w))) in
      (t', run, (v', mem-nil t'.by_state (λ q. v'.states q ∙ quiet q)))
