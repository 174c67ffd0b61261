-- ===== src/Neigh/Listed.antt =====
-- src/neighbor_resolution.c, `cmmNeighborNetlinkLookupAll`: what a dump of the kernel leaves.
use cmm.Prelude.{ℕ, ◌/◌, ◌≤◌, ◌≡◌, ◌≢◌, refl, ◌∙◌, Bool, Option, none, some, List, [], ◌∷◌, length}
use cmm.Prelude.Run.{◌>>=◌, Returns}
use cmm.Net.{Jhash, ip_addr_len}
use cmm.Neigh.{NeighborEntry, Neighs}
use cmm.Neigh.Update.{NeighMessage, mac_of}
use cmm.Neigh.Valid.{IsValid}
use cmm.Neigh.Learnt.{lookup_all_filter-Extends}
use cmm.Neigh.Obtain.{lookup_all}

-- What the kernel says: an address is whole and a MAC address fits into its field.
pub record IsProper (m : NeighMessage) : Type 0 where
  pub whole : (dst : List ℕ) → m.dst ≡ some dst → ip_addr_len m.family / 4 ≤ length dst
  pub short : length (mac_of m.lladdr) ≤ 6

abbrev pub AllProper : List (Option ℕ × NeighMessage) → Type 0
AllProper [] = Unit {0}
AllProper ((memory, m) ∷ dump) = IsProper m × AllProper dump

-- No address is handed out twice.
abbrev pub Apart : Option ℕ → List (Option ℕ × NeighMessage) → Type 0
Apart memory [] = Unit {0}
Apart memory ((memory', m) ∷ dump) =
    ((p : ℕ) → memory ≡ some p → memory' ≢ some p) × Apart memory dump

-- The addresses are free, and each is handed out once.
abbrev pub Fresh : Neighs → List (Option ℕ × NeighMessage) → Type 0
Fresh t [] = Unit {0}
Fresh t ((memory, m) ∷ dump) =
    ((p : ℕ) → memory ≡ some p → t.entries p ≡ none) × Apart memory dump × Fresh t dump

module _ ⦃jhash : Jhash⦄ (own : ℕ → ℕ → List ℕ → Bool) where
  pub record Lists (dump : List (Option ℕ × NeighMessage)) (t t' : Neighs) : Type 0 where
    pub valid : IsValid t'
    pub kept : (q : ℕ) (n : NeighborEntry) → t.entries q ≡ some n → t'.entries q ≡ some n
    pub elsewhere :
        (memory : Option ℕ) (q : ℕ)
        → memory ≡ some q
        → Apart memory dump
        → t'.entries q ≡ t.entries q

  stays-Fresh :
      (memory : Option ℕ) (dump : List (Option ℕ × NeighMessage)) (t t' : Neighs)
      → ((q : ℕ) → memory ≢ some q → t'.entries q ≡ t.entries q)
      → Apart memory dump
      → Fresh t dump
      → Fresh t' dump
  stays-Fresh memory [] t t' same apart fresh = tt
  stays-Fresh memory ((memory', m) ∷ dump) t t' same (apart, rest) (free, once, more) = (
    λ p e. same p (λ e'. apart p e' e) ∙ free p e,
    once,
    stays-Fresh memory dump t t' same rest more,
  )

  pub lookup_all-Lists :
      (ifindex : ℕ) (dump : List (Option ℕ × NeighMessage)) (t : Neighs)
      → IsValid t
      → AllProper dump
      → Fresh t dump
      → Returns (lookup_all own ifindex dump t) (Lists dump t)
  unfolding lookup_all
  lookup_all-Lists ifindex [] t v proper fresh =
      (t, refl, record { valid = v; kept = λ q n h. h; elsewhere = λ memory q e a. refl })
  lookup_all-Lists ifindex ((memory, m) ∷ dump) t v (proper, rest) (free, once, more) =
      let (t₁, run, x) =
        lookup_all_filter-Extends own ifindex memory m t v free proper.whole proper.short in
      let (t₂, runs, l) =
        lookup_all-Lists ifindex dump t₁ x.valid rest
          (stays-Fresh memory dump t t₁ x.elsewhere once more) in
      (
        t₂,
        rw (run, ◌>>=◌) runs,
        record {
          valid = l.valid;
          kept = λ q n h. l.kept q n (x.kept q n h);
          elsewhere =
              λ memory' q e (a, later). l.elsewhere memory' q e later ∙ x.elsewhere q (a q e);
        },
      )
