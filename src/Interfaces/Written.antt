-- ===== src/Interfaces/Written.antt =====
-- src/itf.c: what is found on the table of interfaces after a write to one of them.
use cmm.Prelude.{
  ℕ, ◌≡◌, ◌≢◌, refl, sym, ap, ◌∙◌, some, fun_ext, List, [], ◌∷◌, ◌==◌, arith, Bool-cases, inl, inr,
  update_self,
}
use cmm.Interfaces.{Interface, Interfaces, find_on, write_on, itf_find, write, hash_itf}

find-write_on :
    (i : ℕ) (old new : Interface) (es : List Interface)
    → new.ifindex ≡ i
    → find_on i es ≡ some old
    → find_on i (write_on i new es) ≡ some new
unfolding find_on write_on
find-write_on i old new [] n h = absurd (ground arith)
find-write_on i old new (e ∷ es) n h = ground (arith, find-write_on i old new es n)

write_on_twice :
    (i : ℕ) (old a b : Interface) (es : List Interface)
    → a.ifindex ≡ i
    → find_on i es ≡ some old
    → write_on i b (write_on i a es) ≡ write_on i b es
unfolding find_on write_on
write_on_twice i old a b [] n h = refl
write_on_twice i old a b (e ∷ es) n h = ground (arith, write_on_twice i old a b es n)

write_on-find :
    (i : ℕ) (old : Interface) (es : List Interface)
    → find_on i es ≡ some old
    → write_on i old es ≡ es
unfolding find_on write_on
write_on-find i old [] h = refl
write_on-find i old (e ∷ es) h = ground (arith, write_on-find i old es)

find-write_on_elsewhere :
    (i j : ℕ) (new : Interface) (es : List Interface)
    → new.ifindex ≡ i
    → j ≢ i
    → find_on j (write_on i new es) ≡ find_on j es
unfolding find_on write_on
find-write_on_elsewhere i j new [] n ne = refl
find-write_on_elsewhere i j new (e ∷ es) n ne =
    ground (arith, find-write_on_elsewhere i j new es n ne)

find_on-ifindex :
    (i : ℕ) (itf : Interface) (es : List Interface) → find_on i es ≡ some itf → itf.ifindex ≡ i
unfolding find_on
find_on-ifindex i itf [] h = absurd (ground arith)
find_on-ifindex i itf (e ∷ es) h = ground (arith, find_on-ifindex i itf es)

pub itf_find-ifindex :
    (i : ℕ) (itf : Interface) (t : Interfaces) → itf_find i t ≡ some itf → itf.ifindex ≡ i
itf_find-ifindex i itf t h = find_on-ifindex i itf (t (hash_itf i)) h

module _ (i : ℕ) (old new : Interface) (t : Interfaces) (n : new.ifindex ≡ i)
    (h : itf_find i t ≡ some old) where
  pub itf_find-write : itf_find i (write i new t) ≡ some new
  itf_find-write = rw (
    update_self t (hash_itf i) (write_on i new (t (hash_itf i))),
    find-write_on i old new (t (hash_itf i)) n h,
  )

  pub write_back : write i old (write i new t) ≡ t
  write_back = fun_ext (λ q. elim (Bool-cases (q == hash_itf i)) [
    | inr other ↦ rw other refl
    | inl same ↦
        let here : q ≡ hash_itf i = ground arith in
        rw
          (
            same,
            update_self t (hash_itf i) (write_on i new (t (hash_itf i))),
            write_on_twice i old new old (t (hash_itf i)) n h,
            write_on-find i old (t (hash_itf i)) h,
          )
          (sym (ap t here))
  ])

pub itf_find-write_elsewhere :
    (i j : ℕ) (new : Interface) (t : Interfaces)
    → new.ifindex ≡ i
    → j ≢ i
    → itf_find j (write i new t) ≡ itf_find j t
itf_find-write_elsewhere i j new t n ne = elim (Bool-cases (hash_itf j == hash_itf i)) [
  | inr other ↦ rw other refl
  | inl same ↦
      let here : hash_itf j ≡ hash_itf i = ground arith in
      rw same (find-write_on_elsewhere i j new (t (hash_itf i)) n ne)
      ∙ ap (λ k. find_on j (t k)) (sym here)
]
