-- ===== src/Registering/Resolved.antt =====
-- src/conntrack.c, `__cmmNeighRegister`: a route takes its neighbour.
use cmm.Prelude.{
  ℕ, ◌+◌, ◌/◌, ◌≤◌, ◌≡◌, ◌⊎◌, refl, Bool, true, false, Option, none, some, List, arith,
  Option-cases, inl, inr, length, ◌==◌, Bool-cases,
}
use cmm.Prelude.Run.{done, ◌>>=◌, Returns}
use cmm.Net.{Jhash, ip_addr_len, four_words}
use cmm.RouteEntry.{RtEntry}
use cmm.Neigh.{NeighborEntry, Neighs, nud_valid}
use cmm.Neigh.Update.{NeighMessage}
use cmm.Neigh.Listed.{AllProper, Apart, Fresh}
use cmm.Neigh.Obtain.{neigh_get}
use cmm.Neigh.Obtained.{Gets, neigh_get-Gets}
use cmm.Engine.{FastPath}
use cmm.Holding.Counts.{neighbor_alive}
use cmm.Holding.Register.{CtRoute, Tables}
use cmm.Interfaces.Kinds.{itf_is_noarp}
use cmm.Registering.{Answers, set_route, neigh_register, take_neigh, check_resolved}
use cmm.Registering.Holders.{set_route-IsValid, joined-Neighbored}
use cmm.Registering.Covers.{Covers, neighs-Covers}

-- What the kernel says of the neighbours, and the memory for them: an address is whole, a MAC address
-- fits, and free memory is handed out once.
pub record NeighAnswers (k : Answers) (ns : Neighs) : Type 0 where
  pub dump :
      (messages : List (Option ℕ × NeighMessage))
      → k.dump ≡ some messages
      → AllProper messages × Fresh ns messages × Apart k.neigh_memory messages
  pub memory : (p : ℕ) → k.neigh_memory ≡ some p → ns.entries p ≡ none

whole : (family : ℕ) (a : List ℕ) → ip_addr_len family / 4 ≤ length (four_words a)
unfolding four_words
whole family a = ground arith

module _ ⦃fast_path : FastPath⦄ ⦃jhash : Jhash⦄ (holds : fast_path.State → ℕ → Bool)
    (k : Answers) where
  -- The interface needs no neighbour, or the route has one whose state is usable.
  abbrev pub Resolved : RtEntry → Tables → Type 0
  Resolved r s =
      (itf_is_noarp r.oifindex k.interfaces ≡ some true)
      ⊎ ((q : ℕ) × (n : NeighborEntry) × (r.neigh_entry ≡ some q)
          × (s.neighs.entries q ≡ some n)
          × (nud_valid n.state ≡ true))

  -- What a step leaves of the route `r` at `p` and of the tables.
  pub record Keeps (p : ℕ) (r : RtEntry) (rts : List CtRoute) (s s' : Tables) : Type 0 where
    pub covers : Covers holds rts s'
    pub fpp : s'.fpp ≡ s.fpp
    pub route : RtEntry
    pub here : s'.routes.entries p ≡ some route
    pub same_flags : route.flow_flags ≡ r.flow_flags
    pub same_oif : route.oifindex ≡ r.oifindex

  pub record Resolves (p : ℕ) (r : RtEntry) (rts : List CtRoute) (s : Tables) (res : Bool × Tables)
      : Type 0 where
    pub keeps : Keeps p r rts s res.1
    pub resolved : res.0 ≡ true → Resolved keeps.route res.1

  module _ (p : ℕ) (r : RtEntry) (rts : List CtRoute) (s : Tables) (c : Covers holds rts s)
      (here : s.routes.entries p ≡ some r) where
    abbrev unchanged : Keeps p r rts s s
    unchanged = record {
      covers = c;
      fpp = refl;
      route = r;
      here = here;
      same_flags = refl;
      same_oif = refl;
    }

    check_known :
        (q : ℕ) → r.neigh_entry ≡ some q → Returns (check_resolved k q s) (Resolves p r rts s)
    unfolding check_resolved
    check_known q e =
        let (n, there, many) =
          c.held.neighbored.alive q
            (neighbor_alive s.routes s.neighs c.held.neighbored p q r here e) in
        (
          (nud_valid n.state, s),
          rw (there, ◌>>=◌) refl,
          record { keeps = unchanged; resolved = λ valid. inr (q, n, e, there, valid) },
        )

    -- The dump may have come, but no entry was found or made.
    unmet :
        (ns : Neighs)
        → Gets k.own s.neighs k.dump k.neigh_memory r.family
            (four_words r.gw_addr)
            r.oifindex
            (none, ns)
        → Resolves p r rts s (false, record s { neighs = ns })
    unmet ns g = record {
      keeps = record {
        covers =
            neighs-Covers holds rts s c ns g.valid
              (λ q n h. (n, g.others q n (λ e. absurd (cc)) h, omega arith, refl));
        fpp = refl;
        route = r;
        here = here;
        same_flags = refl;
        same_oif = refl;
      };
      resolved = λ e. absurd (cc);
    }

    -- A new neighbour is held by the route.
    met-Covers :
        (q : ℕ) (ns : Neighs)
        → r.neigh_entry ≡ none
        → Gets k.own s.neighs k.dump k.neigh_memory r.family
            (four_words r.gw_addr)
            r.oifindex
            (some q, ns)
        → Covers holds rts (record s {
          neighs = ns;
          routes = set_route p (record r { neigh_entry = some q }) s.routes;
        })
    met-Covers q ns alone g =
        let (n, hit, now, was) = g.got q refl in
        record {
          valid = record {
            fpp = c.valid.fpp;
            in_step = c.valid.in_step;
            routes =
                set_route-IsValid s.routes p r (record r { neigh_entry = some q }) here refl refl
                  refl c.valid.routes;
            neighs = g.valid;
          };
          held = record {
            fpp = c.held.fpp;
            route = λ x some_left.
                let (r₁, there, many) = c.held.route x some_left in
                elim (Bool-cases (x == p)) [
                  | inl same ↦
                      (record r { neigh_entry = some q }, ground arith, ground (arith, here, there))
                  | inr other ↦ (r₁, ground (arith, there), many)
                ];
            neighbored =
                joined-Neighbored s.routes s.neighs ns p q r n here alone was now
                  (λ x m ne. g.others x m (λ e. ne (ground (arith, e)))) c.held.neighbored;
          };
        }

    take_neigh-Resolves :
        NeighAnswers k s.neighs
        → r.neigh_entry ≡ none
        → Returns (take_neigh k p r s) (Resolves p r rts s)
    unfolding take_neigh check_resolved
    take_neigh-Resolves w alone =
        let (res, run, g) =
          neigh_get-Gets k.own s.neighs k.dump k.neigh_memory r.family (four_words r.gw_addr)
            r.oifindex c.valid.neighs (whole r.family r.gw_addr) w.dump w.memory in
        rest res run g
      where
        rest :
            (res : Option ℕ × Neighs)
            → neigh_get k.own k.dump k.neigh_memory r.family
                (four_words r.gw_addr)
                r.oifindex
                s.neighs
              ≡ done res
            → Gets k.own s.neighs k.dump k.neigh_memory r.family
                (four_words r.gw_addr)
                r.oifindex
                res
            → Returns (take_neigh k p r s) (Resolves p r rts s)
        rest (none, ns) run g =
            ((false, record s { neighs = ns }), rw (run, ◌>>=◌) refl, unmet ns g)
        rest (some q, ns) run g =
            let (n, hit, now, was) = g.got q refl in
            let n' : NeighborEntry = record n { count = n.count + 1 } in
            let r' : RtEntry = record r { neigh_entry = some q } in
            let s' : Tables = record s { neighs = ns; routes = set_route p r' s.routes } in
            (
              (nud_valid n.state, s'),
              rw (run, ◌>>=◌) (rw (now, ◌>>=◌) refl),
              record {
                keeps = record {
                  covers = met-Covers q ns alone g;
                  fpp = refl;
                  route = r';
                  here = ground arith;
                  same_flags = refl;
                  same_oif = refl;
                };
                resolved = λ valid. inr (q, n', refl, now, valid);
              },
            )

    pub neigh_register-Resolves :
        NeighAnswers k s.neighs → Returns (neigh_register k p s) (Resolves p r rts s)
    unfolding neigh_register
    neigh_register-Resolves w = elim (Option-cases (itf_is_noarp r.oifindex k.interfaces)) [
      | inl unknown ↦ (
        (false, s),
        rw (here, ◌>>=◌) (rw unknown refl),
        record { keeps = unchanged; resolved = λ e. absurd (cc) },
      )
      | inr (true, quiet) ↦ (
        (true, s),
        rw (here, ◌>>=◌) (rw quiet refl),
        record { keeps = unchanged; resolved = λ e. inl quiet },
      )
      | inr (false, asks) ↦ elim (Option-cases r.neigh_entry) [
        | inl alone ↦
            let (res, run, d) = take_neigh-Resolves w alone in
            (res, rw (here, ◌>>=◌) (rw (asks, alone) run), d)
        | inr (q, e) ↦
            let (res, run, d) = check_known q e in (res, rw (here, ◌>>=◌) (rw (asks, e) run), d)
      ]
    ]
