-- ===== src/Sockets/Valid.antt =====
-- src/module_socket.c, lines 61-240: the invariant of the two tables of sockets, and the operations on
-- them.
use cmm.Prelude.{
  ℕ, ◌≡◌, ◌≢◌, ◌⊎◌, refl, sym, ap, ◌∙◌, none, some, arith, ◌==◌, if◌then◌else◌, Bool-cases, inl,
  inr, update,
}
use cmm.Prelude.Run.{done, ◌>>=◌, Returns}
use cmm.Net.{Jhash}
use cmm.Table.Placed.{IsPlaced, insert-IsPlaced, modify-IsPlaced, remove-IsPlaced, scan-Finds}
use cmm.Sockets.{
  Socket, Sockets, hash_socket, id_home, addr_home, socket_find, enlist_socket, delist_socket,
  socket_remove,
}
use cmm.Sockets.Open.{set_socket}

-- The table by identifier names each socket once, and an identifier has one socket.
pub record IsIndexed (t : Sockets) : Type 0 where
  pub placed : IsPlaced id_home t.entries t.table
  pub unique :
      (p q : ℕ) (a b : Socket) → t.entries p ≡ some a → t.entries q ≡ some b → a.id ≡ b.id → p ≡ q

module _ ⦃jhash : Jhash⦄ where
  -- The table by addresses names each socket once, too.
  pub record IsValid (t : Sockets) : Type 0 where
    pub indexed : IsIndexed t
    pub by_addr : IsPlaced addr_home t.entries t.by_addr

  pub enlist_socket-IsValid :
      (p : ℕ) (s : Socket) (t : Sockets)
      → t.entries p ≡ none
      → ((q : ℕ) (b : Socket) → t.entries q ≡ some b → b.id ≢ s.id)
      → IsValid t
      → IsValid (enlist_socket p s t)
  enlist_socket-IsValid p s t free fresh v = record {
    indexed = record {
      placed = insert-IsPlaced id_home t.entries t.table p s free v.indexed.placed;
      unique = λ q₁ q₂ a b h₁ h₂ e. elim (Bool-cases (q₁ == p)) [
        | inl at₁ ↦ elim (Bool-cases (q₂ == p)) [
          | inl at₂ ↦ ground arith
          | inr off₂ ↦
              let old : t.entries q₂ ≡ some b = ground arith in
              absurd (fresh q₂ b old (ground arith))
        ]
        | inr off₁ ↦
            let old : t.entries q₁ ≡ some a = ground arith in
            elim (Bool-cases (q₂ == p)) [
              | inl at₂ ↦ absurd (fresh q₁ a old (ground arith))
              | inr off₂ ↦ v.indexed.unique q₁ q₂ a b old (ground arith) e
            ]
      ];
    };
    by_addr = insert-IsPlaced addr_home t.entries t.by_addr p s free v.by_addr;
  }

-- A socket changes and keeps its identifier.
pub set_socket-IsIndexed :
    (p : ℕ) (a s : Socket) (t : Sockets)
    → t.entries p ≡ some a
    → s.id ≡ a.id
    → IsIndexed t
    → IsIndexed (set_socket p s t)
set_socket-IsIndexed p a s t here same v = record {
  placed = modify-IsPlaced id_home t.entries t.table p a s here (ap hash_socket same) v.placed;
  unique = λ q₁ q₂ b₁ b₂ h₁ h₂ e.
      let (c₁, old₁, e₁) = before q₁ b₁ h₁ in
      let (c₂, old₂, e₂) = before q₂ b₂ h₂ in v.unique q₁ q₂ c₁ c₂ old₁ old₂ (e₁ ∙ e ∙ sym e₂);
}
  where
    before :
        (q : ℕ) (b : Socket)
        → update t.entries p (some s) q ≡ some b
        → (c : Socket) × (t.entries q ≡ some c) × (c.id ≡ b.id)
    before q b h = elim (Bool-cases (q == p)) [
      | inl at ↦ (a, ground arith, ground arith)
      | inr off ↦ (b, ground arith, refl)
    ]

module _ ⦃jhash : Jhash⦄ where
  -- It keeps its addresses as well.
  pub set_socket-IsValid :
      (p : ℕ) (a s : Socket) (t : Sockets)
      → t.entries p ≡ some a
      → s.id ≡ a.id
      → addr_home s ≡ addr_home a
      → IsValid t
      → IsValid (set_socket p s t)
  set_socket-IsValid p a s t here same home v = record {
    indexed = set_socket-IsIndexed p a s t here same v.indexed;
    by_addr = modify-IsPlaced addr_home t.entries t.by_addr p a s here home v.by_addr;
  }

  -- The socket is gone and the others stay.
  pub record Removes (p : ℕ) (t t' : Sockets) : Type 0 where
    pub valid : IsValid t'
    pub entries : (q : ℕ) → t'.entries q ≡ (if q == p then none else t.entries q)

  pub socket_remove-Removes :
      (p : ℕ) (s : Socket) (t : Sockets)
      → t.entries p ≡ some s
      → IsValid t
      → Returns (socket_remove p t) (Removes p t)
  unfolding socket_remove
  socket_remove-Removes p s t here v = (
    delist_socket p s t,
    rw (here, ◌>>=◌) refl,
    record {
      valid = record {
        indexed = record {
          placed = remove-IsPlaced id_home t.entries t.table p v.indexed.placed;
          unique = λ q₁ q₂ a b h₁ h₂ e.
              let old₁ : t.entries q₁ ≡ some a = ground arith in
              let old₂ : t.entries q₂ ≡ some b = ground arith in
              v.indexed.unique q₁ q₂ a b old₁ old₂ e;
        };
        by_addr = remove-IsPlaced addr_home t.entries t.by_addr p v.by_addr;
      };
      entries = λ q. refl;
    },
  )

-- The search by identifier meets no freed socket: it finds the one that there is, or there is none.
pub socket_find_cases :
    (id : ℕ) (t : Sockets)
    → IsIndexed t
    → ((socket_find id t ≡ done none) × ((q : ℕ) (a : Socket) → t.entries q ≡ some a → a.id ≢ id))
      ⊎ ((p : ℕ) × (a : Socket) × (socket_find id t ≡ done (some p))
          × (t.entries p ≡ some a)
          × (a.id ≡ id))
unfolding socket_find
socket_find_cases id t v =
    elim (scan-Finds id_home (λ s. s.id == id) t.entries t.table v.placed (hash_socket id)) [
      | inl (missed, all) ↦
          inl (missed, λ q a h e. let miss = all q a h (ap hash_socket e) in ground arith)
      | inr (p, a, found, h, home, hit) ↦ inr (p, a, found, h, ground arith)
    ]

pub socket_find_here :
    (p : ℕ) (s : Socket) (t : Sockets)
    → IsIndexed t
    → t.entries p ≡ some s
    → socket_find s.id t ≡ done (some p)
socket_find_here p s t v here = elim (socket_find_cases s.id t v) [
  | inl (missed, all) ↦ absurd (all p s here refl)
  | inr (q, a, found, h, e) ↦ rw (sym (v.unique q p a s h here e)) found
]
