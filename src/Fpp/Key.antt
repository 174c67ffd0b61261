-- ===== src/Fpp/Key.antt =====
-- src/route_cache.c: the test of `__cmmFPPRouteFind` as an equality of keys.
use cmm.Prelude.{ℕ, ◌/◌, ◌^◌, ◌≤◌, ◌<◌, ◌≡◌, true, List, length, arith}
use cmm.Net.{
  Jhash, word-mem_eq, mem_eq, mem_eq_refl, mem_eq_symm, mem_eq_trans, mem_eq-copy, no_addr, mac_key,
  hash_fpp_rt,
}
use cmm.Fpp.{FppRt, FppArgs, fpp_match, new_route, no_mac}

-- The arguments under which a route is found.
abbrev pub args_of : FppRt → FppArgs
args_of r = record {
  oifindex = r.oifindex;
  iifindex = r.iifindex;
  underlying_iifindex = r.underlying_iifindex;
  dst_mac = r.dst_mac;
  mtu = r.mtu;
  dst_addr = r.dst_addr;
  dst_addr_len = r.dst_addr_len;
}

-- What the callers pass: a 16-bit `mtu`, six bytes of `dst_mac`, and an address as long as its length
-- says, four words at most.
pub record IsArgs (a : FppArgs) : Type 0 where
  pub mtu : a.mtu < 2 ^ 16
  pub mac : length a.dst_mac ≡ 6
  pub addr : a.dst_addr_len / 4 ≤ length a.dst_addr
  pub addr_len : a.dst_addr_len / 4 ≤ 4

mac_key-mem_eq : (xs ys : List ℕ) → mem_eq 6 xs ys ≡ true → mac_key xs ≡ mac_key ys
unfolding mac_key
mac_key-mem_eq xs ys h =
    let e = λ (i : ℕ) (lt : i < 6). word-mem_eq 6 i xs ys h lt in
    rw (
      e 0 (omega arith),
      e 1 (omega arith),
      e 2 (omega arith),
      e 3 (omega arith),
      e 4 (omega arith),
      e 5 (omega arith),
    )

module _ ⦃jhash : Jhash⦄ where
  abbrev pub home : FppRt → ℕ
  home r = hash_fpp_rt r.oifindex r.dst_mac

  abbrev pub args_home : FppArgs → ℕ
  args_home a = hash_fpp_rt a.oifindex a.dst_mac

  -- A route that passes the test for some arguments is in the bucket of those arguments.
  pub home-match : (a : FppArgs) (r : FppRt) → fpp_match a r ≡ true → home r ≡ args_home a
  unfolding fpp_match hash_fpp_rt
  home-match a r h =
      let mac : mem_eq 6 r.dst_mac a.dst_mac ≡ true = ground arith in
      let out : r.oifindex ≡ a.oifindex = ground arith in
      rw (out, mac_key-mem_eq r.dst_mac a.dst_mac mac)

-- The test compares nothing but the key, so it is an equivalence.
match_refl : (r : FppRt) → fpp_match (args_of r) r ≡ true
unfolding fpp_match
match_refl r = ground (arith, mem_eq_refl 6 r.dst_mac, mem_eq_refl (r.dst_addr_len / 4) r.dst_addr)

pub match_symm : (r s : FppRt) → fpp_match (args_of r) s ≡ true → fpp_match (args_of s) r ≡ true
unfolding fpp_match
match_symm r s h = ground (
  arith,
  mem_eq_symm 6 s.dst_mac r.dst_mac,
  mem_eq_symm (r.dst_addr_len / 4) s.dst_addr r.dst_addr,
)

pub match_trans :
    (a : FppArgs) (r s : FppRt)
    → fpp_match a r ≡ true
    → fpp_match (args_of r) s ≡ true
    → fpp_match a s ≡ true
unfolding fpp_match
match_trans a r s h k = ground (
  arith,
  mem_eq_trans 6 s.dst_mac r.dst_mac a.dst_mac,
  mem_eq_trans (a.dst_addr_len / 4) s.dst_addr r.dst_addr a.dst_addr,
)

pub match_join :
    (a : FppArgs) (r s : FppRt)
    → fpp_match a r ≡ true
    → fpp_match a s ≡ true
    → fpp_match (args_of r) s ≡ true
unfolding fpp_match
match_join a r s h k = ground (
  arith,
  mem_eq_symm 6 r.dst_mac a.dst_mac,
  mem_eq_trans 6 s.dst_mac a.dst_mac r.dst_mac,
  mem_eq_symm (a.dst_addr_len / 4) r.dst_addr a.dst_addr,
  mem_eq_trans (a.dst_addr_len / 4) s.dst_addr a.dst_addr r.dst_addr,
)

-- A route that was just filled in passes the test for its arguments.
pub match-new : (a : FppArgs) (id : ℕ) → IsArgs a → fpp_match a (new_route a id) ≡ true
unfolding fpp_match new_route
match-new a id v = ground (
  arith,
  v.mtu,
  mem_eq-copy 6 a.dst_mac no_mac (omega (arith, v.mac)) (omega arith),
  mem_eq-copy (a.dst_addr_len / 4) a.dst_addr no_addr v.addr v.addr_len,
)
