-- ===== src/Interfaces/Messages.antt =====
-- src/itf.c: `cmmRtnlIfAddr` on the messages of the kernel on addresses.
use cmm.Prelude.{
  ℕ, ◌/◌, ◌%◌, ◌≤◌, ◌≡◌, ◌≢◌, refl, ap, ◌∙◌, Bool, true, false, Option, none, some, List, [], ◌∷◌,
  length, arith, Option-cases, inl, inr,
}
use cmm.Net.{
  word, mem_eq, mem_eq_refl, mem_eq_symm, mem_eq-copy, mem_eq_trans, length-mem_copy, mem_copy,
  no_addr, af_inet, af_inet6,
}
use cmm.Interfaces.{
  Interface, InterfaceAddr, Interfaces, Address, IfAddrMsg, IfAddrType, rtm_newaddr, rtm_deladdr,
  rtm_other, itf_find, addr_find, addr_remove, new_addr, newaddr, deladdr, match_src, first_suiting,
  itf_get_ipaddr, itf_match_src_ipaddr, rtnl_if_addr,
}
use cmm.Interfaces.Written.{itf_find-ifindex, itf_find-write, itf_find-write_elsewhere}
use cmm.Interfaces.Announced.{
  IsAddress, newaddr_known, deladdr_known, newaddr_unknown, deladdr_unknown, deladdr-newaddr_known,
}

-- An address that begins with the words that are taken back goes first, if it came last.
deladdr-newaddr :
    (htonl : ℕ → ℕ) (ifa ifa' : IfAddrMsg) (attr taken : Address) (t : Interfaces)
    → IsAddress attr
    → taken.payload % 4 ≡ 0
    → taken.payload ≤ attr.payload
    → mem_eq (taken.payload / 4) attr.words taken.words ≡ true
    → ifa'.ifa_index ≡ ifa.ifa_index
    → deladdr htonl ifa' taken (newaddr true ifa attr t) ≡ t
deladdr-newaddr htonl ifa ifa' attr taken t ok w le e same =
    elim (Option-cases (itf_find ifa.ifa_index t)) [
      | inr (itf, h) ↦ deladdr-newaddr_known htonl ifa attr taken ok w le e ifa' t itf same h
      | inl unknown ↦
          ap (deladdr htonl ifa' taken) (newaddr_unknown true ifa attr t unknown)
          ∙ deladdr_unknown htonl ifa' taken t (ap (λ j. itf_find j t) same ∙ unknown)
    ]

-- A message RTM_NEWADDR, for which memory is left, and then one RTM_DELADDR for the same address
-- of whole words and the same interface leave the table of interfaces as it was, whether the
-- interface is known or not.
pub rtnl_if_addr-TakenBack :
    (htonl : ℕ → ℕ) (memory : Bool) (ifa ifa' : IfAddrMsg) (attr : Address) (t : Interfaces)
    → IsAddress attr
    → ifa'.ifa_index ≡ ifa.ifa_index
    → rtnl_if_addr htonl memory rtm_deladdr ifa'
        (some attr)
        (rtnl_if_addr htonl true rtm_newaddr ifa (some attr) t)
      ≡ t
unfolding rtnl_if_addr
rtnl_if_addr-TakenBack htonl memory ifa ifa' attr t ok same =
    deladdr-newaddr htonl ifa ifa' attr attr t ok ok.whole (omega arith)
      (mem_eq_refl (attr.payload / 4) attr.words) same

first_word :
    (xs ys : List ℕ) → length xs ≡ 4 → length ys ≡ 1 → word xs 0 ≡ word ys 0 → mem_eq 1 xs ys ≡ true
unfolding mem_eq word
first_word [] ys l k e = absurd (omega arith)
first_word (x ∷ xs) [] l k e = absurd (omega arith)
first_word (x ∷ xs) (y ∷ ys) l k e = ground arith

-- If an IPv6 address is announced, with memory for it, and then a message RTM_DELADDR for the same
-- interface takes back an IPv4 address that equals its first word, the table is as before the
-- announcement: it is the IPv6 address that goes.
rtnl_if_addr_mixes :
    (htonl : ℕ → ℕ) (memory : Bool) (ifa ifa' : IfAddrMsg) (v6 v4 : Address) (t : Interfaces)
    → ifa.ifa_family ≡ af_inet6
    → ifa'.ifa_family ≡ af_inet
    → v6.payload ≡ 16
    → v4.payload ≡ 4
    → length v6.words ≡ 4
    → length v4.words ≡ 1
    → word v6.words 0 ≡ word v4.words 0
    → ifa'.ifa_index ≡ ifa.ifa_index
    → rtnl_if_addr htonl memory rtm_deladdr ifa'
        (some v4)
        (rtnl_if_addr htonl true rtm_newaddr ifa (some v6) t)
      ≡ t
unfolding rtnl_if_addr
rtnl_if_addr_mixes htonl memory ifa ifa' v6 v4 t f f' p p' l l' e same =
    let ok : IsAddress v6 = record {
      whole = omega arith;
      fits = omega arith;
      holds = omega arith;
    } in
    let one : v4.payload / 4 ≡ 1 = omega arith in
    let first : mem_eq 1 v6.words v4.words ≡ true = first_word v6.words v4.words l l' e in
    deladdr-newaddr htonl ifa ifa' v6 v4 t ok (omega arith) (omega arith) (rw one first) same

newest :
    (ifa : IfAddrMsg) (attr : Address) (rest : List InterfaceAddr)
    → IsAddress attr
    → match_src ifa.ifa_family attr.words (new_addr ifa attr ∷ rest) ≡ 1
unfolding match_src
newest ifa attr rest ok =
    let same =
      mem_eq_symm (attr.payload / 4) _ attr.words
        (mem_eq-copy (attr.payload / 4) attr.words no_addr ok.holds (omega (arith, ok.fits))) in
    ground (arith, same)

match_src-newaddr :
    (ifa : IfAddrMsg) (attr : Address) (t : Interfaces)
    → IsAddress attr
    → itf_match_src_ipaddr ifa.ifa_index ifa.ifa_family attr.words (newaddr true ifa attr t) ≡ 1
unfolding itf_match_src_ipaddr newaddr
match_src-newaddr ifa attr t ok = elim (Option-cases (itf_find ifa.ifa_index t)) [
  | inl unknown ↦ rw (newaddr, itf_match_src_ipaddr, unknown, unknown) refl
  | inr (itf, h) ↦
      let i = ifa.ifa_index in
      let new : Interface = record itf { addr_list = new_addr ifa attr ∷ itf.addr_list } in
      let at = itf_find-ifindex i itf t h in
      ap (itf_match_src_ipaddr i ifa.ifa_family attr.words) (newaddr_known ifa attr t itf h)
      ∙ rw (itf_match_src_ipaddr, itf_find-write i itf new t at h)
          (newest ifa attr itf.addr_list ok)
]

-- If an address of whole words is announced twice, with memory for both entries, and is taken back
-- once, itf_match_src_ipaddr still matches it.
pub rtnl_if_addr-twice :
    (htonl : ℕ → ℕ) (memory : Bool) (ifa : IfAddrMsg) (attr : Address) (t : Interfaces)
    → IsAddress attr
    → (let announced = rtnl_if_addr htonl true rtm_newaddr ifa (some attr) t in
        let twice = rtnl_if_addr htonl true rtm_newaddr ifa (some attr) announced in
        itf_match_src_ipaddr ifa.ifa_index ifa.ifa_family attr.words
          (rtnl_if_addr htonl memory rtm_deladdr ifa (some attr) twice)
        ≡ 1)
unfolding rtnl_if_addr
rtnl_if_addr-twice htonl memory ifa attr t ok =
    ap (itf_match_src_ipaddr ifa.ifa_index ifa.ifa_family attr.words)
      (rtnl_if_addr-TakenBack htonl memory ifa ifa attr (newaddr true ifa attr t) ok refl)
    ∙ match_src-newaddr ifa attr t ok

-- An interface that is known stays known, and one that is not named is as it was.
newaddr-elsewhere :
    (memory : Bool) (ifa : IfAddrMsg) (attr : Address) (t : Interfaces) (j : ℕ)
    → j ≢ ifa.ifa_index
    → itf_find j (newaddr memory ifa attr t) ≡ itf_find j t
unfolding newaddr
newaddr-elsewhere false ifa attr t j ne = elim (Option-cases (itf_find ifa.ifa_index t)) [
  | inl unknown ↦ rw (newaddr, unknown) refl
  | inr (itf, h) ↦ rw (newaddr, h) refl
]
newaddr-elsewhere true ifa attr t j ne = elim (Option-cases (itf_find ifa.ifa_index t)) [
  | inl unknown ↦ ap (itf_find j) (newaddr_unknown true ifa attr t unknown)
  | inr (itf, h) ↦
      ap (itf_find j) (newaddr_known ifa attr t itf h)
      ∙ itf_find-write_elsewhere ifa.ifa_index j
          (record itf { addr_list = new_addr ifa attr ∷ itf.addr_list }) t
          (itf_find-ifindex ifa.ifa_index itf t h) ne
]

deladdr-elsewhere :
    (htonl : ℕ → ℕ) (ifa : IfAddrMsg) (attr : Address) (t : Interfaces) (j : ℕ)
    → j ≢ ifa.ifa_index
    → itf_find j (deladdr htonl ifa attr t) ≡ itf_find j t
unfolding deladdr
deladdr-elsewhere htonl ifa attr t j ne = elim (Option-cases (itf_find ifa.ifa_index t)) [
  | inl unknown ↦ ap (itf_find j) (deladdr_unknown htonl ifa attr t unknown)
  | inr (itf, h) ↦ elim (Option-cases (addr_find htonl itf.addr_list attr.words attr.payload)) [
    | inl absent ↦ rw (deladdr, h, absent) refl
    | inr (i, e) ↦
        ap (itf_find j) (deladdr_known htonl ifa attr t itf i h e)
        ∙ itf_find-write_elsewhere ifa.ifa_index j
            (record itf { addr_list = addr_remove i itf.addr_list }) t
            (itf_find-ifindex ifa.ifa_index itf t h) ne
  ]
]

rtnl_if_addr-elsewhere :
    (htonl : ℕ → ℕ) (memory : Bool) (kind : IfAddrType) (ifa : IfAddrMsg) (attr : Option Address)
    (t : Interfaces) (j : ℕ)
    → j ≢ ifa.ifa_index
    → itf_find j (rtnl_if_addr htonl memory kind ifa attr t) ≡ itf_find j t
unfolding rtnl_if_addr
rtnl_if_addr-elsewhere htonl memory rtm_other ifa attr t j ne = refl
rtnl_if_addr-elsewhere htonl memory rtm_newaddr ifa none t j ne = refl
rtnl_if_addr-elsewhere htonl memory rtm_newaddr ifa (some attr) t j ne =
    newaddr-elsewhere memory ifa attr t j ne
rtnl_if_addr-elsewhere htonl memory rtm_deladdr ifa none t j ne = refl
rtnl_if_addr-elsewhere htonl memory rtm_deladdr ifa (some attr) t j ne =
    deladdr-elsewhere htonl ifa attr t j ne

first_suiting-newest :
    (htonl : ℕ → ℕ) (ifa : IfAddrMsg) (attr : Address) (target : List ℕ) (rest : List InterfaceAddr)
    → ifa.ifa_family ≡ af_inet6
    → first_suiting htonl ifa.ifa_family ifa.ifa_scope target (new_addr ifa attr ∷ rest)
      ≡ some (new_addr ifa attr)
unfolding first_suiting
first_suiting-newest htonl ifa attr target rest v6 = ground arith

-- After an IPv6 address of whole words is announced for a known interface, and memory for it is
-- left, itf_get_ipaddr for its scope gives that address, whatever addresses the interface had.
pub itf_get_ipaddr-newest :
    (htonl : ℕ → ℕ) (ifa : IfAddrMsg) (attr : Address) (target ipaddr : List ℕ) (t : Interfaces)
    (itf : Interface)
    → IsAddress attr
    → ifa.ifa_family ≡ af_inet6
    → length ipaddr ≡ 4
    → itf_find ifa.ifa_index t ≡ some itf
    → (found : List ℕ) × (itf_get_ipaddr htonl ifa.ifa_family ifa.ifa_scope target ifa.ifa_index
          ipaddr
          (rtnl_if_addr htonl true rtm_newaddr ifa (some attr) t)
        ≡ some found)
      × (mem_eq (attr.payload / 4) found attr.words ≡ true)
unfolding itf_get_ipaddr rtnl_if_addr
itf_get_ipaddr-newest htonl ifa attr target ipaddr t itf ok v6 l h =
    let i = ifa.ifa_index in
    let n = attr.payload / 4 in
    let kept = mem_copy n attr.words no_addr in
    let new : Interface = record itf { addr_list = new_addr ifa attr ∷ itf.addr_list } in
    let at = itf_find-ifindex i itf t h in
    let four : length kept ≡ 4 = length-mem_copy n attr.words no_addr in
    (
      mem_copy n kept ipaddr,
      ap (itf_get_ipaddr htonl ifa.ifa_family ifa.ifa_scope target i ipaddr)
            (newaddr_known ifa attr t itf h)
          ∙ rw
              (
                itf_get_ipaddr,
                itf_find-write i itf new t at h,
                first_suiting-newest htonl ifa attr target itf.addr_list v6,
              )
              refl,
      mem_eq_trans n _ kept attr.words
          (mem_eq-copy n kept ipaddr (omega (arith, ok.fits, four)) (omega (arith, ok.fits)))
          (mem_eq-copy n attr.words no_addr ok.holds (omega (arith, ok.fits))),
    )
