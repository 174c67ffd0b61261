-- ===== src/Interfaces.antt =====
-- src/itf.c, the table of interfaces and the addresses of an interface: `__itf_find`, `__newaddr`,
-- `__deladdr`, `itf_match_src_ipaddr`, `itf_get_ipaddr` and the handler `cmmRtnlIfAddr` of the messages
-- RTM_NEWADDR and RTM_DELADDR; and `cmmPrefixEqual` of src/route_cache.h. Of an interface there are the
-- fields that these read. An address is on the list of one interface only, so the list holds the
-- addresses themselves, and `__addr_find` returns a place on it. `htonl` of the C library is an argument.
pub mod Written
pub mod Announced
pub mod Messages
pub mod Kinds
use cmm.Prelude.{
  ℕ, zero, suc, ◌+◌, ◌-◌, ◌*◌, ◌/◌, ◌%◌, ◌^◌, Bool, true, false, not, ◌&&◌, ◌||◌, Option, none,
  some, List, [], ◌∷◌, ◌==◌, if◌then◌else◌, bit_and, bit_xor, update,
}
use cmm.Net.{word, mem_eq, mem_copy, no_addr, af_inet, af_inet6}

pub record InterfaceAddr : Type 0 where
  pub address : List ℕ
  pub len : ℕ
  pub family : ℕ
  pub scope : ℕ
  pub prefixlen : ℕ

-- Of the flags there are IFF_NOARP, ITF_BRIDGE and FPP_PROGRAMMED; `rawip` says that the type is
-- ARPHRD_RAWIP.
pub record Interface : Type 0 where
  pub ifindex : ℕ
  pub noarp : Bool
  pub rawip : Bool
  pub bridge : Bool
  pub programmed : Bool
  pub ifindices : List ℕ
  pub addr_list : List InterfaceAddr

abbrev pub itf_hash_table_size : ℕ
itf_hash_table_size = 64

-- `itf_table.hash`; `x & (ITF_HASH_TABLE_SIZE - 1)` is `x % 64`.
abbrev pub Interfaces : Type 0
Interfaces = ℕ → List Interface

abbrev pub hash_itf : ℕ → ℕ
hash_itf ifindex = ifindex % itf_hash_table_size

unfoldable pub find_on : ℕ → List Interface → Option Interface
find_on ifindex [] = none
find_on ifindex (itf ∷ rest) =
    let found = find_on ifindex rest in if itf.ifindex == ifindex then some itf else found

abbrev pub itf_find : ℕ → Interfaces → Option Interface
itf_find ifindex t = find_on ifindex (t (hash_itf ifindex))

-- A write through the pointer that `__itf_find` returns.
unfoldable pub write_on : ℕ → Interface → List Interface → List Interface
write_on ifindex new [] = []
write_on ifindex new (itf ∷ rest) =
    let written = write_on ifindex new rest in
    if itf.ifindex == ifindex then new ∷ rest else itf ∷ written

abbrev pub write : ℕ → Interface → Interfaces → Interfaces
write ifindex new t = update t (hash_itf ifindex) (write_on ifindex new (t (hash_itf ifindex)))

module _ (htonl : ℕ → ℕ) where
  -- `htonl((0xffffffff) << (32 - pbi))`
  abbrev pub prefix_mask : ℕ → ℕ
  prefix_mask pbi = htonl (0xffffffff * 2 ^ (32 - pbi) % 2 ^ 32)

  unfoldable pub prefix_equal : List ℕ → List ℕ → ℕ → Bool
  prefix_equal a b lenbits =
      let pdw = lenbits / 32 in
      let pbi = lenbits % 32 in
      if not (mem_eq pdw a b)
      then false
      else not (
          not (pbi == 0)
          && not (bit_and (bit_xor (word a pdw) (word b pdw)) (prefix_mask pbi) == 0))

  -- The place of the address in the list.
  unfoldable pub addr_find : List InterfaceAddr → List ℕ → ℕ → Option ℕ
  addr_find [] ipaddr len = none
  addr_find (a ∷ rest) ipaddr len =
      let later = addr_find rest ipaddr len in
      if prefix_equal a.address ipaddr (8 * len)
      then some 0
      else elim later [ none ↦ none | some i ↦ some (suc i) ]

unfoldable pub addr_remove : ℕ → List InterfaceAddr → List InterfaceAddr
addr_remove i [] = []
addr_remove zero (a ∷ rest) = rest
addr_remove (suc i) (a ∷ rest) = a ∷ addr_remove i rest

pub data IfAddrType : Type 0 where
  rtm_newaddr : IfAddrType
  rtm_deladdr : IfAddrType
  rtm_other : IfAddrType

-- The attribute IFA_ADDRESS with its length in bytes, 4 or 16 in what the kernel sends.
pub record Address : Type 0 where
  pub payload : ℕ
  pub words : List ℕ

pub record IfAddrMsg : Type 0 where
  pub ifa_family : ℕ
  pub ifa_prefixlen : ℕ
  pub ifa_scope : ℕ
  pub ifa_index : ℕ

-- `__addr_update` on the entry that `__addr_add` has cleared.
abbrev pub new_addr : IfAddrMsg → Address → InterfaceAddr
new_addr ifa attr = record {
  address = mem_copy (attr.payload / 4) attr.words no_addr;
  len = attr.payload;
  family = ifa.ifa_family;
  scope = ifa.ifa_scope;
  prefixlen = ifa.ifa_prefixlen;
}

-- `memory` says whether `malloc` returns an entry.
unfoldable pub newaddr : Bool → IfAddrMsg → Address → Interfaces → Interfaces
newaddr memory ifa attr t = elim (itf_find ifa.ifa_index t) [
  | none ↦ t
  | some itf ↦
      if memory
      then write ifa.ifa_index (record itf { addr_list = new_addr ifa attr ∷ itf.addr_list }) t
      else t
]

unfoldable pub deladdr : (ℕ → ℕ) → IfAddrMsg → Address → Interfaces → Interfaces
deladdr htonl ifa attr t = elim (itf_find ifa.ifa_index t) [
  | none ↦ t
  | some itf ↦ elim (addr_find htonl itf.addr_list attr.words attr.payload) [
    | none ↦ t
    | some i ↦ write ifa.ifa_index (record itf { addr_list = addr_remove i itf.addr_list }) t
  ]
]

-- `cmmRtnlIfAddr`, but for the messages on the mapping rules of a tunnel.
unfoldable pub rtnl_if_addr :
    (ℕ → ℕ) → Bool → IfAddrType → IfAddrMsg → Option Address → Interfaces → Interfaces
unfolding newaddr deladdr
rtnl_if_addr htonl memory rtm_other ifa attr t = t
rtnl_if_addr htonl memory rtm_newaddr ifa none t = t
rtnl_if_addr htonl memory rtm_newaddr ifa (some attr) t = newaddr memory ifa attr t
rtnl_if_addr htonl memory rtm_deladdr ifa none t = t
rtnl_if_addr htonl memory rtm_deladdr ifa (some attr) t = deladdr htonl ifa attr t

unfoldable pub match_src : ℕ → List ℕ → List InterfaceAddr → ℕ
match_src family ipaddr [] = 0
match_src family ipaddr (a ∷ rest) =
    let later = match_src family ipaddr rest in
    if a.family == family && mem_eq (a.len / 4) ipaddr a.address then 1 else later

-- An interface that is not known matches.
unfoldable pub itf_match_src_ipaddr : ℕ → ℕ → List ℕ → Interfaces → ℕ
unfolding match_src
itf_match_src_ipaddr ifindex family ipaddr t = elim (itf_find ifindex t) [
  | none ↦ 1
  | some itf ↦ match_src family ipaddr itf.addr_list
]

module _ (htonl : ℕ → ℕ) (family scope : ℕ) (target : List ℕ) where
  abbrev pub suits : InterfaceAddr → Bool
  suits a =
      a.family == family
      && a.scope == scope
      && ((family == af_inet && prefix_equal htonl target a.address a.prefixlen)
          || family == af_inet6)

  unfoldable pub first_suiting : List InterfaceAddr → Option InterfaceAddr
  first_suiting [] = none
  first_suiting (a ∷ rest) = let later = first_suiting rest in if suits a then some a else later

  -- The address that is written to `ipaddr`, where the function returns 0.
  unfoldable pub itf_get_ipaddr : ℕ → List ℕ → Interfaces → Option (List ℕ)
  unfolding first_suiting
  itf_get_ipaddr ifindex ipaddr t = elim (itf_find ifindex t) [
    | none ↦ none
    | some itf ↦ elim (first_suiting itf.addr_list) [
      | none ↦ none
      | some a ↦ some (mem_copy (a.len / 4) a.address ipaddr)
    ]
  ]
