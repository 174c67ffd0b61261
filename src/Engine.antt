-- ===== src/Engine.antt =====
-- src/forward_engine.h, lines 52-95, src/forward_engine.c, lines 1180-1307, and src/conntrack.c, lines
-- 2091-2118: how cmm tells the fast path of a route. The fast path behind `cpal_write` is a kernel
-- module and a parameter; so is the name that the interface table has for an index.
pub mod InStep
pub mod Update
pub mod Deregister
pub mod Reachable
use cmm.Prelude.{
  ℕ, ◌+◌, ◌-◌, ◌/◌, ◌%◌, ◌^◌, Bool, true, false, not, ◌&&◌, ◌||◌, Option, none, some, List, ◌==◌,
  if◌then◌else◌, update,
}
use cmm.Prelude.Run.{Run, done, ◌>>=◌, deref}
use cmm.Net.{mem_copy, no_addr}
use cmm.Fpp.{FppFlags, FppRt, FppTable, no_mac, fpp_route_put}

-- The `action` of a command for a route.
pub data Action : Type 0 where
  action_register action_update action_deregister : Action

-- The `request` of `cmmFeRouteUpdate`: ADD | UPDATE (as any other value), UPDATE, REMOVE.
pub data Request : Type 0 where
  request_add request_update request_remove : Request

abbrev pub fpp_err_ok : ℕ
fpp_err_ok = 0

abbrev pub fpp_err_rt_entry_already_registered : ℕ
fpp_err_rt_entry_already_registered = 200

abbrev pub fpp_err_rt_entry_not_found : ℕ
fpp_err_rt_entry_not_found = 201

-- `fpp_rt_cmd_t`; of its flags the two that say how an address is tunnelled.
pub record RtCmd : Type 0 where
  pub action : Action
  pub mtu : ℕ
  pub dst_mac : List ℕ
  pub output_device : Option (List ℕ)
  pub id : ℕ
  pub is_6o4 : Bool
  pub is_4o6 : Bool
  pub dst_addr : List ℕ

-- `cpal_write` with the return code of the fast path, and `__itf_get_name`, which may fail.
pub record FastPath : Type 1 where
  pub State : Type 0
  pub cpal_write : RtCmd → State → State × ℕ
  pub itf_get_name : ℕ → Option (List ℕ)

-- The command before its fields are filled in.
abbrev pub blank : Action → ℕ → RtCmd
blank action id = record {
  action = action;
  mtu = 0;
  dst_mac = no_mac;
  output_device = none;
  id = id;
  is_6o4 = false;
  is_4o6 = false;
  dst_addr = no_addr;
}

abbrev pub is_deregister : Action → Bool
is_deregister action_register = false
is_deregister action_update = false
is_deregister action_deregister = true

module _ ⦃fast_path : FastPath⦄ where
  -- The first half of `__cmmFeRouteUpdate`: the command, or `none` where the device has no name.
  unfoldable pub route_command : Action → FppRt → Option RtCmd
  route_command action r =
      let addr =
        if r.dst_addr_len == 0 then no_addr else mem_copy (r.dst_addr_len / 4) r.dst_addr no_addr in
      if is_deregister action
      then some (blank action r.id)
      else elim (fast_path.itf_get_name r.oifindex) [
        | none ↦ none
        | some name ↦ some (record {
          action = action;
          mtu = r.mtu;
          dst_mac = mem_copy 6 r.dst_mac no_mac;
          output_device = some name;
          id = r.id;
          is_6o4 = r.dst_addr_len == 4;
          is_4o6 = r.dst_addr_len == 16;
          dst_addr = addr;
        })
      ]

-- Its second half: the flags after the return code of a command, and whether the result is 0.
unfoldable pub answered : Action → ℕ → FppFlags → FppFlags × Bool
answered action_register ret f =
    if ret == fpp_err_ok || ret == fpp_err_rt_entry_already_registered
    then (record f { programmed = true; needs_update = false }, true)
    else (f, false)
answered action_update ret f =
    if ret == fpp_err_ok then (record f { needs_update = false }, true) else (f, false)
answered action_deregister ret f =
    if ret == fpp_err_ok || ret == fpp_err_rt_entry_not_found
    then (record f { programmed = false }, true)
    else (f, false)

-- The action of `cmmFeRouteUpdate`, if one is needed.
unfoldable pub route_action : Request → FppFlags → Option Action
route_action request_add f =
    if f.programmed && not f.needs_update
    then none
    else if f.programmed && f.needs_update
    then some action_update
    else some action_register
route_action request_update f =
    if not (f.programmed && f.needs_update) then none else some action_update
route_action request_remove f = if not f.programmed then none else some action_deregister

-- A write to the flags of the route at an address.
abbrev pub set_flags : ℕ → FppRt → FppFlags → FppTable → FppTable
set_flags p r f t = record t { routes = update t.routes p (some (record r { flags = f })) }

module _ ⦃fast_path : FastPath⦄ where
  -- `__cmmFeRouteUpdate` on the flags of a route, where `short ret` keeps 16 bits of the return code: the fast path, the flags and whether the result is 0.
  unfoldable pub send_command : Action → FppRt → fast_path.State → fast_path.State × FppFlags × Bool
  send_command action r s = elim (route_command action r) [
    | none ↦ (s, r.flags, false)
    | some cmd ↦
        let (s', ret) = fast_path.cpal_write cmd s in
        let (flags, ok) = answered action (ret % 2 ^ 16) r.flags in (s', flags, ok)
  ]

  -- `cmmFeRouteUpdate`
  unfoldable pub fe_route_update :
      Request → ℕ → FppTable → fast_path.State → Run (FppTable × fast_path.State × Bool)
  fe_route_update request p t s = do
    r ← deref (t.routes p)
    elim (route_action request r.flags) [
      | none ↦ done (t, s, true)
      | some action ↦
          let sent = send_command action r s in done (set_flags p r sent.1 t, sent.0, sent.2)
    ]

  -- What `__cmmFPPRouteDeregister` does with the result of the command.
  let_go_of : ℕ → FppTable × fast_path.State × Bool → Run (FppTable × fast_path.State)
  let_go_of p (t, s, true) = do t' ← fpp_route_put p t; done (t', s)
  let_go_of p (t, s, false) = do
    r ← deref (t.routes p)
    done (record t { routes = update t.routes p (some (record r { count = r.count - 1 })) }, s)

  -- `__cmmFPPRouteDeregister` for a route, not for the null pointer.
  unfoldable pub fpp_route_deregister :
      ℕ → FppTable → fast_path.State → Run (FppTable × fast_path.State)
  unfolding let_go_of
  fpp_route_deregister p t s = do
    r ← deref (t.routes p)
    let removed = fe_route_update request_remove p t s
    if r.count == 1 then removed >>= let_go_of p else let_go_of p (t, s, true)
