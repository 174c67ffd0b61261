-- ===== src/Neigh/Solicit.antt =====
-- src/neighbor_resolution.c, lines 221-281 and 1001-1042: the solicitations that cmm sends itself.
use cmm.Prelude.{
  ℕ, ◌+◌, Bool, true, false, Option, none, some, List, [], ◌∷◌, ltb, ◌==◌, if◌then◌else◌, erase,
}
use cmm.Prelude.Run.{Run, done, ◌>>=◌, deref}
use cmm.Net.{af_inet, word}
use cmm.Neigh.{NeighborEntry, Neighs, store}

abbrev pub max_ucast_solicit : ℕ
max_ucast_solicit = 3

abbrev pub max_mcast_solicit : ℕ
max_mcast_solicit = 3

-- `dst_mac` is `none` where `dst_mac_null` is set. Of an IPv4 address one word is kept.
pub record NeighReq : Type 0 where
  pub family : ℕ
  pub ifindex : ℕ
  pub dst_ip : List ℕ
  pub dst_mac : Option (List ℕ)

-- What goes out: an ARP request, or an IPv6 neighbour solicitation. How the packet is built and
-- sent is left to the kernel's sockets.
pub data Packet : Type 0 where
  arp_request : ℕ → ℕ → Option (List ℕ) → Packet
  neighbor_solicitation : ℕ → List ℕ → Option (List ℕ) → Packet

-- `cmmNeighAddSolicitQ`: the first argument says whether `malloc` succeeds. The result is the new
-- queue, newest first, or `none` for the return value -1.
unfoldable pub add_solicit_q :
    Bool → ℕ → ℕ → List ℕ → Option (List ℕ) → List NeighReq → Option (List NeighReq)
add_solicit_q false family ifindex dst_ip dst_mac queue = none
add_solicit_q true family ifindex dst_ip dst_mac queue =
    let ip = if family == af_inet then word dst_ip 0 ∷ [] else dst_ip in
    some (record { family = family; ifindex = ifindex; dst_ip = ip; dst_mac = dst_mac } ∷ queue)

unfoldable pub packet_of : NeighReq → Packet
packet_of r =
    if r.family == af_inet
    then arp_request r.ifindex (word r.dst_ip 0) r.dst_mac
    else neighbor_solicitation r.ifindex r.dst_ip r.dst_mac

-- `cmmNeighSendSolicitQ`: the packets that are sent, and the queue that is left.
unfoldable pub send_solicit_q : List NeighReq → List Packet × List NeighReq
send_solicit_q [] = ([], [])
send_solicit_q (r ∷ queue) =
    let (packets, rest) = send_solicit_q queue in (packet_of r ∷ packets, rest)

abbrev pub counted :
    ℕ → NeighborEntry → Neighs → List NeighReq → Option (List NeighReq) → Neighs × List NeighReq
counted p n t queue none = (t, queue)
counted p n t queue (some queue') = (store p (record n { nr_probes = n.nr_probes + 1 }) t, queue')

-- A round of the loop of `cmmNeighSendSolicit`.
unfoldable pub solicit_entry : Bool → ℕ → Neighs × List NeighReq → Run (Neighs × List NeighReq)
solicit_entry memory p (t, queue) = do
  n ← deref (t.entries p)
  let unicast = add_solicit_q memory n.family n.ifindex n.ip_addr (some n.mac_addr) queue
  let multicast = add_solicit_q memory n.family n.ifindex n.ip_addr none queue
  let t' = record t { by_state = erase p t.by_state }
  if ltb n.nr_probes max_ucast_solicit
      then done (counted p n t queue unicast)
      else if ltb n.nr_probes (max_ucast_solicit + max_mcast_solicit)
      then done (counted p n t queue multicast)
      else done (store p (record n { needs_solicit = false; nr_probes = 0 }) t', queue)

-- `memory p` says whether the `malloc` for the entry at `p` succeeds. The loop keeps the next entry
-- before it takes the current one off the list.
unfoldable pub solicit_loop :
    (ℕ → Bool) → List ℕ → Neighs × List NeighReq → Run (Neighs × List NeighReq)
solicit_loop memory [] s = done s
solicit_loop memory (p ∷ ps) s = solicit_entry (memory p) p s >>= solicit_loop memory ps

-- `cmmNeighSendSolicit`, with the queue as it finds it and leaves it.
unfoldable pub neigh_send_solicit :
    (ℕ → Bool) → Neighs → List NeighReq → Run (Neighs × List Packet × List NeighReq)
neigh_send_solicit memory t queue = do
  (t', queue') ← solicit_loop memory t.by_state (t, queue)
  let (packets, rest) = send_solicit_q queue'
  done (t', packets, rest)
