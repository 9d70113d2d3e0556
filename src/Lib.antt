-- ===== src/Lib.antt =====
-- p2p_channel: a verification library for the crate p2p_channel (NAT traversal over UDP).
--
-- The program. A channel (src/channel/mod.rs) owns a default UDP socket and, under a symmetric
-- NAT, a list of further ones; its clones and senders (src/channel/sender.rs) share the status,
-- the list of sockets and two route tables: from a peer to its route, and from a route to its
-- peers and the times of its last read and write. An idle search (src/idle/mod.rs) waits for
-- routes that are quiet too long. A punch (src/punch/mod.rs) sends datagrams to the ports that a
-- peer may have. NAT detection (src/stun/mod.rs) asks STUN servers. Boot (src/boot/mod.rs) puts
-- the parts together. Two examples (examples/server.rs, examples/peer.rs) use it: a server tells
-- two peers where they are, and these punch holes to each other.
--
-- The files.
-- Base: lists, options, results, i64, bits, equality, and MapApi, what is relied on of the
--   concurrent maps `DashMap` and `SkipMap`; AssocMap is a map that meets it.
-- Net: `IpAddr` and `SocketAddr` of the standard library.
-- Route: `Route`, `RouteKey`, `Status` and the token constants of src/channel/mod.rs.
-- RouteTable: the route tables of src/channel/sender.rs as a record with one function for each
--   operation (`add_route_` is `add_route`, and so on), and `run`, a sequence of operations of
--   whatever threads. Members, Linked, Run, Lookup, Oldest and Shape hold the proofs. Threads: the
--   critical sections of `add_route_` and `remove_route_` in the steps that other threads can see,
--   as a step relation, with the loop of `next_idle` beside them.
-- Os, Reactor: what is asked of sockets, polls, wakers and the clock, as records of functions.
-- Sender: `send_all`, `send_to_addr`, `send_to_addr_all`, `send_to_route`, `send_to_id`.
-- Ports, Punch: the choice of the ports, and `punch_` and `punch` of src/punch/mod.rs.
-- Idle: `next_idle` of src/idle/mod.rs.
-- Channel: `change`, `set_nat_type`, `nat_type`, `close`, `try_clone` and `drop` of
--   src/channel/mod.rs; Sending: its `send_to_route` and `send_to_id`; Detect: its
--   `set_nat_type_with_stun`; Race: two changes that interleave; Leak: a clone that fails. Sockets,
--   Nat, Clones, Flags and Registry hold the proofs.
-- Queues: `Channel::punch`, and `next_` of src/punch/mod.rs with its callers.
-- Receive: `recv_from` and `udp_recv_` of src/channel/mod.rs.
-- Boot: `Channel::new`, `Channel::sender`, `Punch::new`, `Idle::new` and `Boot::new` of
--   src/boot/mod.rs; Copies: `Sender::try_clone` and `Punch::try_clone`.
-- Socket: the sockets of src/stun/socket, on Linux, macOS and Windows.
-- Stun: src/stun/mod.rs; Detection: its detections with the sockets that they make; Order: the hash
--   set of the mapped addresses as a quotient. CheckNat: examples/check_nat.rs.
-- Interface: `get_interface` and `get_best_interface` of src/stun/socket.
-- Wire, Server, Peer: the messages of examples/peer.rs and examples/server.rs, the server, and the
--   thread of the peer that receives; Peer/Start, Peer/Clones: its start; Peer/Threads: its other
--   threads; Peer/Shutdown: the steps of all its threads after the close that `main` makes.
-- Tests: runs on small inputs, and each property that has hypotheses at such an input.
--
-- State and threads. What the code shares through locks and atomics is explicit state. A locked
-- region is one step, but for RouteTable/Threads, and so is `change` with its load of the status,
-- but for Channel/Race. A call of the operating system takes and returns the whole world, so
-- other threads may have changed the shared cells when it returns. A panic, of a slice, an
-- overflow or an `unwrap`, is the value `none` in Ports, Punch, Server and Peer; an overflow
-- panics if the build checks it. What the threads of the peer find is in the list of their turns.
--
-- Loops. `send_all` recurs on the rounds that can still follow, ten after the first, and needs no
-- fuel. `next_idle` runs on a list of what its turns read, of any length, and `recv_from` for any
-- number of turns. The loops of `punch_`, `change` and NAT detection recur on their lists;
-- `test_nat_` makes two rounds. The runs of Peer/Shutdown are bounded by what is left to do.
--
-- Numbers. Ports and `u16` sums have their overflow written out; `i64` subtraction wraps; the
-- flag counter wraps at 2 ^ 64. Lengths and indices are not bounded.
--
-- Not modelled: the arguments, the log and the signal handler of examples/peer.rs. The packages
-- stun-format, mio, socket2, network-interface, windows-sys, dashmap, crossbeam and rand are
-- parameters.
pub mod Base
pub mod Net
pub mod Route
pub mod RouteTable
pub mod Os
pub mod Sender
pub mod Ports
pub mod Punch
pub mod Interface
pub mod Idle
pub mod Reactor
pub mod Boot
pub mod Channel
pub mod Queues
pub mod Receive
pub mod Stun
pub mod Wire
pub mod Server
pub mod Socket
pub mod Peer
pub mod CheckNat
mod Tests
