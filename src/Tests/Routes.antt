-- ===== src/Tests/Routes.antt =====
-- The cache of the kernel's routes with one flow, and a kernel that knows a gateway.
use cmm.Prelude.{ℕ, Option, List, ◌≢◌, ◌≡◌, refl, true, none, some, [], ◌∷◌, arith}
use cmm.Prelude.Run.{done, Returns}
use cmm.Net.{word, mem_copy, mem_eq, hash_rt}
use cmm.Table.{scan}
use cmm.RouteEntry.{
  RtEntry, Flow, RouteMessage, Kernel, no_flow_flags, netlink_lookup, lookup_filter, fill_route,
  fall_back_mtu, note_flow, refresh,
}
use cmm.Routes.{Routes, rt_home, route_find, if_usable, route_get, route_put, enter, recount}
use cmm.Routes.Valid.{IsValid, enter-IsValid}
use cmm.Routes.Reply.{IsSettled}
use cmm.Routes.Update.{route_update}
use cmm.Routes.Refreshed.{Updates, route_update-Updates, Misplaces, route_update-Misplaces}
use cmm.Routes.Put.{Puts, route_put-Puts}
use cmm.Routes.Lookup.{learnt}
use cmm.Routes.Get.{Gets, Creates, route_get-Gets}
use cmm.Routes.Again.{IsAnswered, route_get_again}
use cmm.Tests.Inputs.{sum_jhash}

-- An answer with a gateway and a preferred source.
abbrev message_via : List ℕ → Option (List ℕ) → Flow → RouteMessage
message_via gateway prefsrc f = record {
  is_newroute = true;
  family = f.family;
  table = 254;
  scope = 0;
  rt_type = 1;
  dst = some (word f.daddr 0 ∷ []);
  oif = some 3;
  mtu = none;
  prefsrc = prefsrc;
  gateway = some gateway;
}

abbrev message : Flow → RouteMessage
message = message_via (254 ∷ []) none

abbrev pub kernel : Kernel
kernel = record { answer = λ f. some (message f); itf_mtu = λ ifindex. some 1500 }

abbrev flow : Flow
flow = record {
  family = 2;
  saddr = some (10 ∷ []);
  daddr = 20 ∷ [];
  fwmark = 0;
  iifindex = 4;
  underlying_iif = 4;
  proto = 0;
  flow_flags = no_flow_flags;
}

abbrev pub no_routes : Routes
no_routes = record { entries = λ p. none; table = λ key. []; by_gw = λ key. [] }

pub nothing_cached-IsValid : IsValid no_routes
nothing_cached-IsValid = record {
  placed = record { placed = λ p key. refl; distinct = λ key. tt };
  placed_by_gw = record { placed = λ p key. refl; distinct = λ key. tt };
  cached = λ p r h. cc;
}

abbrev pub entry : RtEntry
entry = learnt kernel flow (message flow) (20 ∷ []) 3

abbrev one_entry : Routes
one_entry = enter 50 (record entry { count = 1 }) no_routes

one_entry-IsValid : IsValid one_entry
unfolding note_flow fall_back_mtu fill_route
one_entry-IsValid =
    enter-IsValid no_routes 50 (record entry { count = 1 }) refl refl nothing_cached-IsValid

flow-IsAnswered : IsAnswered kernel flow (10 ∷ [])
unfolding word
flow-IsAnswered = record {
  source = refl;
  not_any = refl;
  source_whole = omega arith;
  whole = refl;
  family = λ m e. ground arith;
  dst = λ m e. ground arith;
}

entry-Creates : Creates no_routes kernel flow 50 entry one_entry
unfolding route_find if_usable scan netlink_lookup lookup_filter word
entry-Creates = record {
  missed = refl;
  learnt = refl;
  entries = λ q. refl;
  table = refl;
  by_gw = refl;
}

route_get-Gets_example :
    Returns
      (route_get kernel (some 50) flow no_routes)
      (λ res. IsValid res.1 × Gets no_routes kernel (some 50) flow (10 ∷ []) res)
route_get-Gets_example =
    route_get-Gets no_routes kernel (some 50) flow (10 ∷ []) nothing_cached-IsValid refl
      (λ p e. refl)

route_put-Puts_example :
    Returns (route_put 50 one_entry) (Puts one_entry 50 (record entry { count = 1 }))
route_put-Puts_example =
    route_put-Puts one_entry 50 (record entry { count = 1 }) one_entry-IsValid refl

route_get_again_example :
    route_get kernel none flow one_entry
    ≡ done (some 50, recount 50 (record entry { count = 1 }) 2 one_entry)
route_get_again_example =
    route_get_again no_routes one_entry kernel none flow (10 ∷ []) 50 entry flow-IsAnswered
      entry-Creates

-- The kernel with another gateway.
abbrev new_gateway : Kernel
new_gateway = record kernel { answer = λ f. some (message_via (253 ∷ []) none f) }

abbrev held : RtEntry
held = record entry { count = 1 }

held-IsSettled : IsSettled new_gateway held
unfolding word mem_eq mem_copy note_flow fall_back_mtu fill_route
held-IsSettled = record {
  family = λ m e. ground arith;
  source = λ m s e h. ground arith;
  dst_whole = λ m d e h. ground arith;
  dst_same = λ m d e h. ground arith;
  gateway = λ m g e h. ground arith;
}

route_update-Updates_example :
    Returns (route_update new_gateway 50 one_entry) (Updates one_entry new_gateway 50 held)
route_update-Updates_example =
    route_update-Updates one_entry new_gateway 50 held one_entry-IsValid refl held-IsSettled

-- The kernel that names the source address of its own.
abbrev new_source : Kernel
new_source = record kernel { answer = λ f. some (message_via (254 ∷ []) (some (11 ∷ [])) f) }

abbrev resourced : RtEntry
resourced = record held { saddr = 11 ∷ 0 ∷ 0 ∷ 0 ∷ []; underlying_iifindex = 0 }

resourced-refresh : refresh new_source held ≡ some resourced
unfolding refresh lookup_filter word mem_copy note_flow fall_back_mtu fill_route
resourced-refresh = refl

resourced-moved : rt_home resourced ≢ rt_home held
unfolding hash_rt word mem_copy note_flow fall_back_mtu fill_route
resourced-moved h = omega arith

route_update-Misplaces_example :
    Returns (route_update new_source 50 one_entry) (Misplaces 50 resourced)
route_update-Misplaces_example =
    route_update-Misplaces one_entry new_source 50 held resourced one_entry-IsValid refl
      resourced-refresh resourced-moved
