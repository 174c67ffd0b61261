-- ===== src/Lib.antt =====
-- A verification library for cmm, the connection manager that keeps a hardware or kernel fast path in
-- step with the connections, routes and neighbours of the Linux kernel. Paths are from the
-- repository's root.
--
-- The parts that are modelled, and how they fit together:
-- - ListHead: src/list.h, the intrusive lists that thread every table. `Memory` maps the address of
--   a node to its two pointers; `list_add` and `list_del` keep the order of the source's writes, and
--   `none` is a null pointer that is followed or an assertion that fails. ListHead/Segments,
--   ListHead/Laws and ListHead/Deletion say what the operations do to a ring of nodes.
-- - Net: addresses, `memcmp` and `memcpy`, and the hash functions of src/route_cache.h and
--   src/neighbor_resolution.h. The mixing functions of src/jhash.h are the instance argument `Jhash`.
-- - Table: a hash table of entries on a heap. A bucket is the sequence of addresses that ListHead
--   justifies; Table/Placed is the invariant that entries and buckets agree.
-- - RouteIds: `new_route_id` and `del_route_id` of src/route_cache.c, over a bitmap of 32-bit words.
-- - Fpp: `struct fpp_rt` and the functions `__cmmFPPRouteFind`, `Remove`, `Put`, `Add` and `Get` of
--   src/route_cache.c, the cache of the next hops that the fast path is told of. Fpp/Valid is its
--   invariant; Fpp/Put, Fpp/Add, Fpp/Get and Fpp/RoundTrip are the behaviour of the functions.
-- - RouteEntry and Routes: `struct RtEntry` and the functions `__cmmRouteFind`, `Remove`, `Put`, `Add`
--   and `Get` of src/route_cache.c, the cache of the kernel's routes, and `cmmRouteNetlinkLookup`, whose
--   answer from the kernel is an argument. Routes/Update is `__cmmRouteUpdate`, where a route is looked
--   up again; of its loops over the users of the route the model says whether they run. Routes/Valid is
--   the invariant; Routes/Lookup, Routes/Put, Routes/Get, Routes/Again, Routes/Reply and
--   Routes/Refreshed are the behaviour.
-- - Neigh: `struct NeighborEntry`, its three indexes and the functions on them of
--   src/neighbor_resolution.c; Neigh/Update is `cmmNeighborUpdate` up to its loops over the routes that
--   use the neighbour, where the model stops with a `Notice`; Neigh/Solicit is
--   `cmmNeighSendSolicit` with its queue, Neigh/Ports is `__cmmNeighUpdateAllMacs`, Neigh/Dump is
--   `cmmNeighborNetlinkLookupAllFilter`, Neigh/Obtain is `__cmmNeighGet`. Neigh/Valid is the invariant,
--   Neigh/Holders, Neigh/Preserve, Neigh/Messages, Neigh/Probes, Neigh/GiveUp, Neigh/AllMacs,
--   Neigh/Learnt, Neigh/Listed and Neigh/Obtained the behaviour.
-- - Engine: `cmmFeRouteUpdate` of src/forward_engine.h, `__cmmFeRouteUpdate` of src/forward_engine.c
--   and `__cmmFPPRouteDeregister` of src/conntrack.c. The fast path behind `cpal_write` is the instance
--   argument `FastPath`, and its protocol the hypothesis `IsFaithful` of Engine/InStep. Engine/Update
--   and Engine/Deregister are the behaviour of the calls, Engine/Reachable that of their sequences.
-- - Holding: `____cmmRouteDeregister` of src/conntrack.c, where a holder lets go of a kernel's route
--   and, with the last one, of the route's neighbour; Holding/Register is `__cmmRouteDeregister`, which
--   joins it with the deregistration of the fast-path route, over all the tables; Holding/Connection is
--   the part of `____cmmCtDeregister` that lets go of a connection's routes. Holding/Counts are the
--   holders of an entry, counted; Holding/Left and Holding/Teardown what is left to the other holders.
-- - Conntrack: `struct ctTable` of src/conntrack.h and the table of connections of src/conntrack.c:
--   `__cmmCtAdd` and `__cmmCtRemove`, with the lists of the tunnels' routes, which neither touches;
--   Conntrack/Ids the identifiers of an entry (`__cmmCtFindId`,
--   `AddId`, `DelId`), Conntrack/Find `__cmmCtFind`, Conntrack/FromFlow `__cmmCtFindFromFlow` and
--   `__cmmCtFindLocalCtFromFlow`, Conntrack/Event `cmmCheckEvent`. What the library of netfilter keeps
--   of a connection is the record `NfConntrack` of its attributes; what it answers to a request is an
--   argument of `cmmCheckEvent`. Conntrack/Valid is the invariant of the table; Conntrack/IdSet,
--   Conntrack/Added, Conntrack/Found, Conntrack/FlowFound, Conntrack/BothWays, Conntrack/Again and
--   Conntrack/Events are the behaviour, the last one against a specification by sets of identifiers.
-- - Interfaces: the addresses of an interface in src/itf.c, with the search for an interface, the
--   messages `cmmRtnlIfAddr` on addresses, `itf_match_src_ipaddr` and `itf_get_ipaddr`, and
--   `cmmPrefixEqual` of src/route_cache.h; Interfaces/Written, Interfaces/Announced and
--   Interfaces/Messages are the behaviour. An address message has its address in whole words.
--   Interfaces/Kinds is what the table says of an interface: whether it is a bridge, whether it needs
--   no neighbours, whether the fast path has it, and the interface behind a port of a bridge.
-- - FdbPorts: `cmmBrgetAllMacPort` of src/ffbridge.c; what the calls of `ioctl` give is a list of entries.
-- - Registering: `__cmmRouteRegister` of src/conntrack.c, where a holder takes a kernel's route, its
--   neighbour, its physical interface and a route of the fast path, with `__cmmNeighRegister`,
--   `__cmmCtItfRegister`, `__cmmFPPRouteRegister` and `cmmBrToFF` of src/ffbridge.c. What the kernel and
--   `malloc` answer is the record `Answers`. Registering/Covers are the tables that cover a list of holders;
--   Registering/Holders, Registering/Gains and Registering/Macs are lemmas, the other modules the behaviour of
--   the steps, and Registering/Registered that of the whole.
-- - SocketIds and Sockets: src/module_socket.c, the sockets that clients open on the fast path. SocketIds is
--   the bitmap of the identifiers that cmm keeps for itself, with `new_socket_id` and `del_socket_id`;
--   Sockets the table by identifier and the one by addresses; Sockets/Command `socket_send_cmd` and the
--   commands of both families; Sockets/Open `__socket_open`, `__socket_close`, `socket_open`,
--   `socket_update` and `socket_close`; Sockets/Daemon the part of `socket_daemon` that serves them, with
--   the answer to the client. The fast path that takes the commands is the argument
--   `socket_write`; that it leaves the routes alone and answers with a code of 16 bits or -1 is the
--   hypothesis `IsSeparate` of Sockets/Sent. Sockets/Told is what an accepted command says of a socket.
--   Sockets/Valid is the invariant; Sockets/Routed, Sockets/Opened, Sockets/Closing, Sockets/Closed,
--   Sockets/Managed, Sockets/Reopened, Sockets/Updated, Sockets/Misplaced and Sockets/Private are the behaviour.
-- - Timeouts: `timeoutSet` of src/timeout.c, up to the command that it sends; Timeouts/Frag is
--   `cmmFragTimeoutSet`, with `strtoul` as an argument. Timeouts/Decimal are the numerals that the
--   first one reads; Timeouts/Sent, Timeouts/RoundTrip and Timeouts/FragSent are the behaviour.
-- - Prelude: the names that all parts share; Prelude/Run is the result of a C function, which returns,
--   faults (a freed entry is read, a field is overrun, or an assertion fails) or loops for ever.
-- - Tests: every theorem with a hypothesis at a concrete input.
--
-- Conventions: a function on a mutable table takes it and returns it. An entry is an address on a
-- heap, so a freed entry that is still linked is a fault, as in C. What `malloc` returns is an
-- argument. Counts and interface indices are natural numbers and do not wrap; `mtu` is cut to 16 bits.
-- Addresses are lists of 32-bit words, MAC addresses lists of bytes. The return code of a command for a
-- route is cut to the 16 bits of the source's `short`. An address in the kernel's answer to a request for a
-- route that is longer than four words, which the kernel does not send, is cut to the field in the model. The model is of the build without
-- VLAN_FILTER, DPDK_ENABLE, IPSEC_FLOW_CACHE, SAM_LEGACY, COMCERTO_2000 and LS1043. Locks are not
-- modelled: each function runs under the locks that the source takes.
--
-- Fuel: `new_route_id` runs on fuel. `route_max_id` rounds are enough, one for each identifier,
-- whenever an identifier is free; the callers use that bound, and a search that goes further is `spin`.
-- `new_socket_id` is recursion on its 255 rounds, the bound that the source has. The other loops are
-- recursion on the list that they visit.
--
-- Not modelled: the threads, the sockets of cmm itself and its shell; the packets on raw sockets; the
-- copy of the kernel's hash function; the loops of the neighbour messages over the routes; the rest of
-- connection tracking, the messages on links, IPsec, tunnels, the command lines and the other modules
-- of commands.
pub mod Prelude
pub mod ListHead
pub mod Net
pub mod Table
pub mod RouteIds
pub mod Fpp
pub mod RouteEntry
pub mod Routes
pub mod Neigh
pub mod Engine
pub mod Holding
pub mod Conntrack
pub mod Interfaces
pub mod FdbPorts
pub mod Registering
pub mod SocketIds
pub mod Sockets
pub mod Timeouts
pub mod Tests
