-- ===== src/Lib.antt =====
-- The p2p networking programs: a reliable transport over UDP, a relay for peers that cannot
-- reach each other, and a rendezvous server.
--
-- common/src/lib.rs and common/src/singleconnection.rs, the reliable transport, are Reliable:
--   Reliable           the packets, the shared state, and an endpoint's queues
--   Reliable/Wire      serialize and deserialize
--   Reliable/Receiver  recv, one datagram at a time: accept, hold and past are its three branches
--     Invariant, Tracks, Order  the receiver's invariant; what a run hands on
--     Under            whose the packets are that are handed on
--     Drain            that the loop over the receive buffer ends
--   Reliable/Sender    send, check_retransmission, periodic_acks
--     Retransmit, Storm  what a retransmission scan does; acknowledgements of acknowledgements
--   Reliable/Endpoint  sends, datagrams, scans and acknowledgements in any order
--     Forever, Stream, Transfer  what is kept, what is sent, and what gets across
--     Duplex           an endpoint that sends and receives
-- The receiver and the handle share their state, so an endpoint is one record, and the tasks that
-- hold it are steps on that record. An Instant is a number of milliseconds and an argument of what
-- reads the clock. A DashMap is an association list with one entry per key. The loop that empties
-- the receive buffer has as much fuel as the buffer has entries, and every round removes one.
-- The u32 counters wrap. Those of the atomics always do; next_expected in recv, a plain u32, does in
-- a build without overflow checks, which is the one modelled: with the checks recv would panic when
-- it steps past the last u32.
--
-- turn_server/src/lib.rs, the relay, is Turn:
--   Turn               packets, messages, sessions
--   Turn/Token         encode_token and decode_token
--   Turn/Slot          MsgHdrSlot, write_socket_addr and extract_src_addr
--   Turn/Pool          BufferPool; Post and Seed: what a post and the start-up do
--   Turn/Shard         Shard; History: what its tables mean; Relayed, Relay: what it forwards
--   Turn/Router        ShardRouter and the registration of a session; Balance: where sessions go
--     Dealt            what the queues of the shards are offered
--     Symmetric        shard_for, which nothing calls
--   Turn/Control       RelayControlService; Placed: from its requests to the router's table
--   Turn/Ring          io_uring_loop: the handlers of its loops, and a round
--     Start, Timing, Reuse  the start, a send up to its completion, a receive up to its routing
--   Turn/System        main of turn_server/src/main.rs: the loop, the shards and the kernel, in
--                      steps that come in any order
--     Tally, Moves, Handlers  how often a buffer stands in the queues, and what moves it
--     Valid, Steps, Sends, Completions  what holds between two steps, and that each step keeps it
--     Safe, Capacity   what follows for the relay from its start
--     Lost             datagrams that come before any session
-- The control channel brings sessions to the loop, which registers them with the router and passes
-- them to a shard; the loop routes the packets that were received to the shards; a shard queues
-- sends, which the loop submits. All of these queues, and the submission queue, are the interface
-- Base/Fifo: first in, first out, where an enqueue may be refused. The kernel's side, the
-- completions and whether it takes the buffers and a submission, is an argument. So are the target's byte order and
-- the sizes of the structs of libc (Turn/Slot, Platform), and each Uuid. What can panic returns an
-- option, and none is a panic. In Turn/System the kernel takes entries in order, completes any that
-- it has with any result, and writes the source address of a receive; a queue's two ends are one.
--
-- turn_server/src/bin/first_impl.rs, the relay's first version, is FirstImpl, as far as it differs
-- from the relay: Session, BufferPool, the tokens and MsgHdrSlot are the same text and are used from
-- Turn. A send that waits for room in a channel, like a panic, is none.
--   FirstImpl          its shards and its router; Same: what they share with the relay's
--   FirstImpl/Ring     its loop, and the shards that main starts
--     Batch, Cycle, Started  a batch of sends, the way of a packet, what the shards relay
--
-- rendezvous_stun_server, which brings a host and a client together, is Rendezvous:
--   Rendezvous         RelayManager (src/lib.rs) and udp_handler (src/udp/parser.rs) as one server
--     Buffer           the buffer that lives from one datagram to the next
--     Requests, Lobbies  what the server is to answer, and that it does
--     KeepAlive        the keep-alive tasks and their shutdowns; Joins and Creates: what the two
--                      requests change; Always: what holds at any time
--     Tasks            main of src/main.rs: the tasks and their channel, in steps of any order
--       Ahead          what the messages on their way will do
--       Refined, Manager, Answered  how the tasks stand to the one server
--       Work, Progress  what is left to do, and that it gets done
-- In Rendezvous a message is handled where it is sent, since one task sends to the manager and waits
-- for the answer to a join; Tasks has both tasks, and their channel of 50 messages. Keep-alive tasks
-- and the shutdowns that wait are tables of the server. The text of an address (to_string) is a
-- parameter, each new Uuid an argument.
--
-- peer/src/main.rs is Peer: listen_to_relay and request_host_addr, over the datagrams that come in
-- and whether the host's first receive succeeds; Peer/Meeting joins them to the server, and
-- Peer/Meeting/Awaited lets keep-alives come in between. UTF-8 and the parsing of addresses are
-- parameters.
--   Peer/Chat          hole_punching_wan and start_chat: the steps of their tasks, in any order
--     Opening, Lines, Printing  what is sent first, what of the lines is sent, what is printed
--     Begin            how the chat begins
--     Talk, Heard, Delivered  one peer's lines at the other; the same over the reliable transport
--   Peer/Node          main: the search for the other, then transport and chat with their channels
--     Growth, Traced   what is in the channels stays; a run as one of the chat and one of the
--                      transport
--     Echoes           what the search sends
--     Talk, Program    two programs: from what they know, and from their start with a server
-- A payload is a list of bytes, and the channel to the transport a list of payloads; the transport's
-- endpoint sends them in the order of that list.
--
-- Not modelled: the controller, tools, what the entry points do before they start their tasks,
-- the code that the build generates, and logging.
--
-- Base has the shared helpers: lists and maps over native numbers, socket addresses, machine words,
-- bits, and the queues.
--
pub mod Base
pub mod Reliable
pub mod Turn
pub mod FirstImpl
pub mod Rendezvous
pub mod Peer
