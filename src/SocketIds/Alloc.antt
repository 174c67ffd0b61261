-- ===== src/SocketIds/Alloc.antt =====
-- src/module_socket.c, `new_socket_id` and `del_socket_id`: what they do to the set of identifiers.
use cmm.Prelude.{
  ℕ, zero, suc, ◌+◌, ◌-◌, ◌/◌, ◌%◌, ◌<◌, ◌≡◌, ◌≢◌, ◌⊎◌, refl, sym, ◌∙◌, Bool, true, false, arith,
  leb, ◌==◌, if◌then◌else◌, Bool-cases, inl, inr,
}
use cmm.SocketIds.{
  SocketIds, num_internal_socket_id, test_sock_id, write_sock_id, wrapped, search, new_socket_id,
  del_socket_id,
}

-- An identifier is its word and its bit.
same_bit : (a b : ℕ) → a / 32 ≡ b / 32 → a % 32 ≡ b % 32 → a ≡ b
same_bit a b h k = omega arith

test_sock_id-write :
    (t : SocketIds) (i j : ℕ) (v : Bool)
    → test_sock_id j (write_sock_id i v t) ≡ (if j == i then v else test_sock_id j t)
unfolding test_sock_id write_sock_id
test_sock_id-write t i j v = ground (arith, same_bit j i)

-- The identifiers are in use exactly as before.
abbrev pub SameIds : SocketIds → SocketIds → Type 0
SameIds t t' = (j : ℕ) → test_sock_id j t' ≡ test_sock_id j t

-- The bitmap does not depend on where the search stands.
standing : (t : SocketIds) (n : ℕ) → SameIds t (record t { internal_sock_id = n })
unfolding test_sock_id
standing t n j = refl

-- The rounds from `i` until `j` is tried.
abbrev rounds_to : ℕ → ℕ → ℕ
rounds_to i j = if leb i j then j - i else j + num_internal_socket_id - i

nearer :
    (i j : ℕ)
    → i < num_internal_socket_id
    → j < num_internal_socket_id
    → i ≢ j
    → rounds_to (wrapped (i + 1)) j + 1 ≡ rounds_to i j
nearer i j hi hj ne = ground arith

-- One identifier that was free is taken, or none is.
pub data Allocates (t : SocketIds) (res : ℕ × SocketIds) : Type 0 where
  taken :
      (i : ℕ)
      → i < num_internal_socket_id
      → res.0 ≡ i + 1
      → test_sock_id i t ≡ false
      → ((j : ℕ) → test_sock_id j res.1 ≡ (if j == i then true else test_sock_id j t))
      → Allocates t res
  exhausted :
      res.0 ≡ 0
      → ((j : ℕ) → j < num_internal_socket_id → test_sock_id j t ≡ true)
      → SameIds t res.1
      → Allocates t res

-- After some rounds.
data Searches (rounds : ℕ) (t : SocketIds) (res : ℕ × SocketIds) : Type 0 where
  found :
      (i : ℕ)
      → i < num_internal_socket_id
      → res.0 ≡ i + 1
      → test_sock_id i t ≡ false
      → ((j : ℕ) → test_sock_id j res.1 ≡ (if j == i then true else test_sock_id j t))
      → Searches rounds t res
  missed :
      res.0 ≡ 0
      → ((j : ℕ)
          → j < num_internal_socket_id
          → rounds_to (wrapped t.internal_sock_id) j < rounds
          → test_sock_id j t ≡ true)
      → SameIds t res.1
      → Searches rounds t res

wrapped_below : (i : ℕ) → wrapped i < num_internal_socket_id
wrapped_below i = ground arith

wrapped_same : (i : ℕ) → i < num_internal_socket_id → wrapped i ≡ i
wrapped_same i h = ground arith

-- A round on an identifier that is in use.
goes_on :
    (rounds : ℕ) (t : SocketIds) (res : ℕ × SocketIds)
    → let i = wrapped t.internal_sock_id in
      test_sock_id i t ≡ true
      → Searches rounds (record t { internal_sock_id = i + 1 }) res
      → Searches (suc rounds) t res
goes_on rounds t res used (found i below id free marks) =
    let n = wrapped t.internal_sock_id + 1 in
    found i below id (sym (standing t n i) ∙ free) (λ j. ground (arith, marks j, standing t n j))
goes_on rounds t res used (missed id all same) =
    let here = wrapped t.internal_sock_id in
    let n = here + 1 in
    missed id
      (λ j hj near. elim (Bool-cases (here == j)) [
        | inl at ↦ ground (arith, used)
        | inr off ↦
            let step = nearer here j (wrapped_below t.internal_sock_id) hj (ground arith) in
            sym (standing t n j) ∙ all j hj (omega (arith, step, near))
      ])
      (λ j. same j ∙ standing t n j)

search-Searches : (rounds : ℕ) (t : SocketIds) → Searches rounds t (search rounds t)
unfolding search
search-Searches zero t = missed refl (λ j hj near. absurd (omega (arith, near))) (λ j. refl)
search-Searches (suc rounds) t =
    let i = wrapped t.internal_sock_id in
    let rest = search-Searches rounds (record t { internal_sock_id = i + 1 }) in
    elim (Bool-cases (test_sock_id i t)) [
      | inl used ↦ rw (search, used) (goes_on rounds t _ used rest)
      | inr free ↦
          rw (search, free)
            (found i (wrapped_below t.internal_sock_id) refl free (λ j.
              test_sock_id-write (record t { internal_sock_id = i }) i j true
              ∙ ground (arith, standing t i j)))
    ]

-- new_socket_id, whose loop has one round for each of the 255 identifiers, takes one that was free
-- and no other, or returns 0 and takes none where all of them are in use, wherever the search
-- stands.
pub new_socket_id-Allocates : (t : SocketIds) → Allocates t (new_socket_id t)
unfolding new_socket_id
new_socket_id-Allocates t = elim (search-Searches num_internal_socket_id t) [
  | found i below id free marks ↦ taken i below id free marks
  | missed id all same ↦
      exhausted id
        (λ j hj.
          all j hj (near (wrapped t.internal_sock_id) j (wrapped_below t.internal_sock_id) hj))
        same
]
  where
    near :
        (i j : ℕ)
        → i < num_internal_socket_id
        → j < num_internal_socket_id
        → rounds_to i j < num_internal_socket_id
    near i j hi hj = ground arith

-- An identifier that is taken and given back is as it was.
new_socket_id-del :
    (t : SocketIds)
    → SameIds t (del_socket_id (new_socket_id t).0 (new_socket_id t).1)
      ⊎ ((j : ℕ) → j < num_internal_socket_id → test_sock_id j t ≡ true)
unfolding del_socket_id
new_socket_id-del t = elim (new_socket_id-Allocates t) [
  | taken i below id free marks ↦ inl (λ j.
      let e : (new_socket_id t).0 - 1 ≡ i = omega (arith, id) in
      test_sock_id-write (new_socket_id t).1 ((new_socket_id t).0 - 1) j false
      ∙ ground (arith, e, marks j, free))
  | exhausted id all same ↦ inr all
]
