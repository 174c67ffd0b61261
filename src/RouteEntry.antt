-- ===== src/RouteEntry.antt =====
-- src/route_cache.c, lines 28-185, with `struct RtEntry` and `struct flow` of src/route_cache.h: what
-- cmm learns of a route from the kernel. The kernel's answer to a request and the MTU of an
-- interface are arguments.
use cmm.Prelude.{
  ℕ, ◌*◌, ◌/◌, ◌%◌, ◌^◌, Bool, false, Option, none, some, List, length, ◌==◌, if◌then◌else◌,
}
use cmm.Net.{ip_addr_len, word, mem_copy, no_addr}

-- The FLOWFLAG_ bits.
pub record FlowFlags : Type 0 where
  pub floating_tunnel : Bool
  pub ignore_neigh : Bool
  pub socket_route : Bool
  pub local : Bool
  pub sa_route : Bool

abbrev pub no_flow_flags : FlowFlags
no_flow_flags = record {
  floating_tunnel = false;
  ignore_neigh = false;
  socket_route = false;
  local = false;
  sa_route = false;
}

-- The neighbour is the address of its entry; of the flags there are INVALID, RT_POLICY and
-- CHECK_BRIDGE_PORT.
pub record RtEntry : Type 0 where
  pub count : ℕ
  pub neigh_entry : Option ℕ
  pub saddr : List ℕ
  pub saddr_len : ℕ
  pub daddr : List ℕ
  pub daddr_len : ℕ
  pub flow_flags : FlowFlags
  pub oifindex : ℕ
  pub phys_oifindex : ℕ
  pub gw_addr : List ℕ
  pub gw_addr_len : ℕ
  pub mtu : ℕ
  pub family : ℕ
  pub table : ℕ
  pub scope : ℕ
  pub rt_type : ℕ
  pub invalid : Bool
  pub rt_policy : Bool
  pub check_bridge_port : Bool
  pub fwmark : ℕ
  pub iifindex : ℕ
  pub underlying_iifindex : ℕ

-- The fields of `struct flow` that the cache reads; `saddr` may be null.
pub record Flow : Type 0 where
  pub family : ℕ
  pub saddr : Option (List ℕ)
  pub daddr : List ℕ
  pub fwmark : ℕ
  pub iifindex : ℕ
  pub underlying_iif : ℕ
  pub proto : ℕ
  pub flow_flags : FlowFlags

-- A message of the kernel: the fields of `struct rtmsg` and the attributes that the code reads.
pub record RouteMessage : Type 0 where
  pub is_newroute : Bool
  pub family : ℕ
  pub table : ℕ
  pub scope : ℕ
  pub rt_type : ℕ
  pub dst : Option (List ℕ)
  pub oif : Option ℕ
  pub mtu : Option ℕ
  pub prefsrc : Option (List ℕ)
  pub gateway : Option (List ℕ)

-- What the model is given of the kernel and of the interface table: the answer to a request, which
-- is missing where a netlink call fails, and `itf->mtu`.
pub record Kernel : Type 0 where
  pub answer : Flow → Option RouteMessage
  pub itf_mtu : ℕ → Option ℕ

abbrev pub default_to : ℕ → Option ℕ → ℕ
default_to d none = d
default_to d (some n) = n

abbrev pub copied : Option (List ℕ) → List ℕ → List ℕ
copied none old = old
copied (some a) old = mem_copy (length a) a old

abbrev pub copied_len : Option (List ℕ) → ℕ → ℕ
copied_len none old = old
copied_len (some a) old = 4 * length a

-- The entry after `memset`.
abbrev pub blank : RtEntry
blank = record {
  count = 0;
  neigh_entry = none;
  saddr = no_addr;
  saddr_len = 0;
  daddr = no_addr;
  daddr_len = 0;
  flow_flags = no_flow_flags;
  oifindex = 0;
  phys_oifindex = 0;
  gw_addr = no_addr;
  gw_addr_len = 0;
  mtu = 0;
  family = 0;
  table = 0;
  scope = 0;
  rt_type = 0;
  invalid = false;
  rt_policy = false;
  check_bridge_port = false;
  fwmark = 0;
  iifindex = 0;
  underlying_iifindex = 0;
}

-- The gateway, or the destination where there is none.
abbrev pub gateway_or : List ℕ → ℕ → Option (List ℕ) → List ℕ → List ℕ
gateway_or daddr n none old = mem_copy n daddr old
gateway_or daddr n (some g) old = mem_copy (length g) g old

-- What `cmmRouteNetlinkLookupFilter` writes for a destination and an interface. The kernel's addresses
-- have at most four words; `mem_copy` cuts a longer one to the field, which the source would overrun.
unfoldable pub fill_route : RouteMessage → List ℕ → ℕ → RtEntry → RtEntry
fill_route m dst oif r =
    let daddr = mem_copy (length dst) dst r.daddr in
    record r {
      family = m.family;
      table = m.table;
      scope = m.scope;
      rt_type = m.rt_type;
      mtu = default_to 0 m.mtu % 2 ^ 16;
      daddr = daddr;
      daddr_len = 4 * length dst;
      saddr = copied m.prefsrc r.saddr;
      saddr_len = copied_len m.prefsrc r.saddr_len;
      gw_addr = gateway_or daddr (length dst) m.gateway r.gw_addr;
      gw_addr_len = copied_len m.gateway (4 * length dst);
      oifindex = oif;
    }

-- The interface's MTU where the route has none.
unfoldable pub fall_back_mtu : Kernel → RtEntry → RtEntry
fall_back_mtu k r =
    if r.mtu == 0 then record r { mtu = default_to r.mtu (k.itf_mtu r.oifindex) % 2 ^ 16 } else r

unfoldable pub lookup_filter : Kernel → RouteMessage → RtEntry → Option RtEntry
lookup_filter k m r =
    if m.is_newroute
    then elim m.dst [
      | none ↦ none
      | some dst ↦ elim m.oif [
        | none ↦ none
        | some oif ↦ some (fall_back_mtu k (fill_route m dst oif r))
      ]
    ]
    else none

-- What `cmmRouteNetlinkLookup` writes after the answer.
unfoldable pub note_flow : Flow → RtEntry → RtEntry
note_flow f r =
    let len = ip_addr_len f.family in
    record r {
      fwmark = f.fwmark;
      iifindex = f.iifindex;
      underlying_iifindex = f.underlying_iif;
      saddr_len = elim f.saddr [ none ↦ 0 | some a ↦ len ];
      saddr = elim f.saddr [
        | none ↦ r.saddr
        | some a ↦ if word a 0 == 0 then r.saddr else mem_copy (len / 4) a r.saddr
      ];
    }

unfoldable pub netlink_lookup : Kernel → Flow → RtEntry → Option RtEntry
netlink_lookup k f r = elim (k.answer f) [
  | none ↦ none
  | some m ↦ elim (lookup_filter k m r) [ none ↦ none | some r' ↦ some (note_flow f r') ]
]

-- The flow that `__cmmRouteUpdate` makes of a route.
abbrev pub flow_of : RtEntry → Flow
flow_of r = record {
  family = r.family;
  saddr = some r.saddr;
  daddr = r.daddr;
  fwmark = r.fwmark;
  iifindex = r.iifindex;
  underlying_iif = 0;
  proto = 0;
  flow_flags = r.flow_flags;
}

-- `cmmRouteNetlinkLookup` for that flow, whose addresses are pointers into the route: the request is
-- sent with the old ones, and `note_flow` reads the ones that the answer has left there.
unfoldable pub refresh : Kernel → RtEntry → Option RtEntry
refresh k r = elim (k.answer (flow_of r)) [
  | none ↦ none
  | some m ↦ elim (lookup_filter k m r) [
    | none ↦ none
    | some r' ↦ some (note_flow (record (flow_of r) { saddr = some r'.saddr; daddr = r'.daddr }) r')
  ]
]
