-- ===== src/Interfaces/Announced.antt =====
-- src/itf.c: an address that the kernel announces and takes back, by `newaddr` and `deladdr`.
use cmm.Prelude.{
  ℕ, zero, suc, ◌*◌, ◌/◌, ◌%◌, ◌≤◌, ◌≡◌, refl, ap, ◌∙◌, Bool, true, none, some, List, [], ◌∷◌,
  length, arith,
}
use cmm.Net.{mem_eq, mem_copy, no_addr}
use cmm.Interfaces.{
  Interface, InterfaceAddr, Interfaces, Address, IfAddrMsg, itf_find, write, prefix_equal,
  addr_find, addr_remove, new_addr, newaddr, deladdr,
}
use cmm.Interfaces.Written.{itf_find-ifindex, itf_find-write, write_back}

-- What the kernel sends: whole words, four at most, as many as the length says.
pub record IsAddress (attr : Address) : Type 0 where
  pub whole : attr.payload % 4 ≡ 0
  pub fits : attr.payload ≤ 16
  pub holds : attr.payload / 4 ≤ length attr.words

-- On whole words `cmmPrefixEqual` is `memcmp`, and its mask is not read.
prefix_equal-whole :
    (htonl : ℕ → ℕ) (a b : List ℕ) (len : ℕ)
    → len % 4 ≡ 0
    → prefix_equal htonl a b (8 * len) ≡ mem_eq (len / 4) a b
unfolding prefix_equal
prefix_equal-whole htonl a b len w =
    let words : 8 * len / 32 ≡ len / 4 = omega arith in
    let bits : 8 * len % 32 ≡ 0 = omega arith in rw (words, bits) (ground arith)

mem_eq-copy_le :
    (n m : ℕ) (xs ys zs : List ℕ)
    → n ≤ m
    → m ≤ length xs
    → m ≤ length ys
    → mem_eq n xs zs ≡ true
    → mem_eq n (mem_copy m xs ys) zs ≡ true
unfolding mem_eq mem_copy
mem_eq-copy_le zero m xs ys zs l h k e = refl
mem_eq-copy_le (suc n) zero xs ys zs l h k e = absurd (omega arith)
mem_eq-copy_le (suc n) (suc m) [] ys zs l h k e = absurd (omega arith)
mem_eq-copy_le (suc n) (suc m) (x ∷ xs) [] zs l h k e = absurd (omega arith)
mem_eq-copy_le (suc n) (suc m) (x ∷ xs) (y ∷ ys) [] l h k e = e
mem_eq-copy_le (suc n) (suc m) (x ∷ xs) (y ∷ ys) (z ∷ zs) l h k e =
    ground (arith, mem_eq-copy_le n m xs ys zs)

pub newaddr_known :
    (ifa : IfAddrMsg) (attr : Address) (t : Interfaces) (itf : Interface)
    → itf_find ifa.ifa_index t ≡ some itf
    → newaddr true ifa attr t
      ≡ write ifa.ifa_index (record itf { addr_list = new_addr ifa attr ∷ itf.addr_list }) t
unfolding newaddr
newaddr_known ifa attr t itf h = rw (newaddr, h) refl

pub newaddr_unknown :
    (memory : Bool) (ifa : IfAddrMsg) (attr : Address) (t : Interfaces)
    → itf_find ifa.ifa_index t ≡ none
    → newaddr memory ifa attr t ≡ t
unfolding newaddr
newaddr_unknown memory ifa attr t h = rw (newaddr, h) refl

pub deladdr_unknown :
    (htonl : ℕ → ℕ) (ifa : IfAddrMsg) (attr : Address) (t : Interfaces)
    → itf_find ifa.ifa_index t ≡ none
    → deladdr htonl ifa attr t ≡ t
unfolding deladdr
deladdr_unknown htonl ifa attr t h = rw (deladdr, h) refl

pub deladdr_known :
    (htonl : ℕ → ℕ) (ifa : IfAddrMsg) (attr : Address) (t : Interfaces) (itf : Interface) (i : ℕ)
    → itf_find ifa.ifa_index t ≡ some itf
    → addr_find htonl itf.addr_list attr.words attr.payload ≡ some i
    → deladdr htonl ifa attr t
      ≡ write ifa.ifa_index (record itf { addr_list = addr_remove i itf.addr_list }) t
unfolding deladdr
deladdr_known htonl ifa attr t itf i h e = rw (deladdr, h, e) refl

-- The address that was announced last is the first that is found for words with which it begins.
module _ (htonl : ℕ → ℕ) (ifa : IfAddrMsg) (attr taken : Address) (ok : IsAddress attr)
    (w : taken.payload % 4 ≡ 0) (le : taken.payload ≤ attr.payload)
    (e : mem_eq (taken.payload / 4) attr.words taken.words ≡ true) where
  addr_find-newest :
      (rest : List InterfaceAddr)
      → addr_find htonl (new_addr ifa attr ∷ rest) taken.words taken.payload ≡ some 0
  unfolding addr_find
  addr_find-newest rest =
      rw
        (
          prefix_equal-whole htonl (mem_copy (attr.payload / 4) attr.words no_addr) taken.words
              taken.payload w,
          mem_eq-copy_le (taken.payload / 4) (attr.payload / 4) attr.words no_addr taken.words
              (omega (arith, le)) ok.holds (omega (arith, ok.fits)) e,
        )
        refl

  pub deladdr-newaddr_known :
      (ifa' : IfAddrMsg) (t : Interfaces) (itf : Interface)
      → ifa'.ifa_index ≡ ifa.ifa_index
      → itf_find ifa.ifa_index t ≡ some itf
      → deladdr htonl ifa' taken (newaddr true ifa attr t) ≡ t
  unfolding addr_remove
  deladdr-newaddr_known ifa' t itf same h =
      let i = ifa.ifa_index in
      let new : Interface = record itf { addr_list = new_addr ifa attr ∷ itf.addr_list } in
      let at = itf_find-ifindex i itf t h in
      let known : itf_find ifa'.ifa_index (write i new t) ≡ some new =
        rw same (itf_find-write i itf new t at h) in
      ap (deladdr htonl ifa' taken) (newaddr_known ifa attr t itf h)
      ∙ deladdr_known htonl ifa' taken (write i new t) new 0 known (addr_find-newest itf.addr_list)
      ∙ ap (λ j. write j itf (write i new t)) same
      ∙ write_back i itf new t at h
