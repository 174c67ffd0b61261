-- ===== src/Tests/Interfaces.antt =====
-- The addresses of an interface at concrete messages, on a little-endian machine.
use cmm.Prelude.{
  ℕ, ◌+◌, ◌*◌, ◌/◌, ◌%◌, ◌^◌, ◌≡◌, refl, true, false, some, List, [], ◌∷◌, arith, ◌==◌,
  if◌then◌else◌,
}
use cmm.Net.{mem_eq, word}
use cmm.Interfaces.{
  Interface, Interfaces, Address, IfAddrMsg, rtm_newaddr, rtm_deladdr, itf_match_src_ipaddr,
  itf_get_ipaddr, rtnl_if_addr, prefix_equal, find_on,
}
use cmm.Interfaces.Announced.{IsAddress}
use cmm.Interfaces.Messages.{rtnl_if_addr-TakenBack, rtnl_if_addr-twice, itf_get_ipaddr-newest}

abbrev swap_bytes : ℕ → ℕ
swap_bytes x =
    x % 2 ^ 8 * 2 ^ 24
    + x / 2 ^ 8 % 2 ^ 8 * 2 ^ 16
    + x / 2 ^ 16 % 2 ^ 8 * 2 ^ 8
    + x / 2 ^ 24 % 2 ^ 8

-- 192.168.1.1 and 192.168.1.200 agree on 24 bits, and not on 25.
same_net : prefix_equal swap_bytes (0x0101a8c0 ∷ []) (0xc801a8c0 ∷ []) 24 ≡ true
unfolding prefix_equal mem_eq word
same_net = refl

other_net : prefix_equal swap_bytes (0x0101a8c0 ∷ []) (0xc801a8c0 ∷ []) 25 ≡ false
unfolding prefix_equal mem_eq word
other_net = refl

abbrev pub eth2 : Interface
eth2 = record {
  ifindex = 4;
  noarp = false;
  rawip = false;
  bridge = false;
  programmed = false;
  ifindices = [];
  addr_list = [];
}

abbrev one_itf : Interfaces
one_itf key = if key == 4 then eth2 ∷ [] else []

-- 2001:db8::1
abbrev v6 : Address
v6 = record { payload = 16; words = 0xb80d0120 ∷ 0 ∷ 0 ∷ 0x01000000 ∷ [] }

v6-IsAddress : IsAddress v6
v6-IsAddress = record { whole = omega arith; fits = omega arith; holds = omega arith }

-- 32.1.13.184
abbrev v4 : Address
v4 = record { payload = 4; words = 0xb80d0120 ∷ [] }

abbrev v6_msg : IfAddrMsg
v6_msg = record { ifa_family = 10; ifa_prefixlen = 64; ifa_scope = 0; ifa_index = 4 }

abbrev v4_msg : IfAddrMsg
v4_msg = record { ifa_family = 2; ifa_prefixlen = 24; ifa_scope = 0; ifa_index = 4 }

rtnl_if_addr-TakenBack_example :
    rtnl_if_addr swap_bytes false rtm_deladdr v6_msg
      (some v6)
      (rtnl_if_addr swap_bytes true rtm_newaddr v6_msg (some v6) one_itf)
    ≡ one_itf
rtnl_if_addr-TakenBack_example =
    rtnl_if_addr-TakenBack swap_bytes false v6_msg v6_msg v6 one_itf v6-IsAddress refl

rtnl_if_addr-twice_example :
    (let announced = rtnl_if_addr swap_bytes true rtm_newaddr v6_msg (some v6) one_itf in
      let twice = rtnl_if_addr swap_bytes true rtm_newaddr v6_msg (some v6) announced in
      itf_match_src_ipaddr 4 10 v6.words
        (rtnl_if_addr swap_bytes false rtm_deladdr v6_msg (some v6) twice)
      ≡ 1)
rtnl_if_addr-twice_example = rtnl_if_addr-twice swap_bytes false v6_msg v6 one_itf v6-IsAddress

itf_get_ipaddr-newest_example :
    (found : List ℕ) × (itf_get_ipaddr swap_bytes 10 0 [] 4
        (0 ∷ 0 ∷ 0 ∷ 0 ∷ [])
        (rtnl_if_addr swap_bytes true rtm_newaddr v6_msg (some v6) one_itf)
      ≡ some found)
    × (mem_eq 4 found v6.words ≡ true)
unfolding find_on
itf_get_ipaddr-newest_example =
    itf_get_ipaddr-newest swap_bytes v6_msg v6 [] (0 ∷ 0 ∷ 0 ∷ 0 ∷ []) one_itf eth2 v6-IsAddress
      refl refl refl
