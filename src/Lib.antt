-- ===== src/Lib.antt =====
-- mpaxos: a Paxos library in C for values that several groups order, with erasure-coded proposals.
--
-- The program. A request names groups. It waits in one queue per group (the DAG of
-- libmpaxos/utils/mpr_dag.h); when it heads all its queues, a daemon starts a transaction for it
-- (libmpaxos/controller.c): one round, that is slot and ballot, per group, the slots from the recorder
-- (libmpaxos/recorder.c). The proposer (libmpaxos/proposer.c) sends a prepare to the nodes of the view
-- (libmpaxos/view.c, comm.c), counts the promises, chooses a proposal, sends it in shares
-- (libmpaxos/rs_helper.h), counts the answers, records the decision, runs the application's callback
-- and takes the request out of its queues (libmpaxos/async.c). The acceptor (libmpaxos/acceptor.c) of
-- each node answers the two kinds of messages.
--
-- The files.
--   Prelude: names passed on from the libraries, Boolean tests, lists over the native numbers, the
--     outcomes of C code (ok, abort for a failed SAFE_ASSERT, fault for undefined behaviour), and hash
--     tables as association lists with an interface for keys.
--   Types: the messages of libmpaxos/mpaxos.proto, the request, proposals and their copies
--     (internal_types.h).
--   View: libmpaxos/view.c, set_nid_sender of comm.c, and the node loop of mpaxos-config.c.
--   Recorder: libmpaxos/recorder.c.
--   Hash: libmpaxos/utils/mpr_hash.h.
--   Rpc.Buf: libmpaxos/rpc/buf.c. Defs and Sock have the operations, Growth how room is made,
--     Queue what they do to the contents, Room how far the end can move, Flow the loops between a
--     buffer and a socket.
--   Rpc.Polling: libmpaxos/rpc/polling.c. Defs has the operations, Jobs what they do to a job.
--   Rpc.Conn: libmpaxos/rpc/server.c, client.c and rpc_comm.h. Defs has the framing and the write
--     handlers, Server and Client the read handlers and their calls, Setup the set-up of connections;
--     Frames is about one turn of a read loop, Loops and Wire about the loops, Delivery about whole
--     handlers and both sides, Answers about a request and its reply, Ready about new connections.
--   SlotMgr: libmpaxos/slot_mgr.c.
--   Acceptor: libmpaxos/acceptor.c. Defs has the handlers, Turns one round of a message, Promises and
--     Accepts whole messages, Answers when a handler returns, Forget what is forgotten, History any
--     sequence of messages, with nothing forgotten between them.
--   Dag: mpr_queue.h (Queue) and mpr_dag.h (Defs). Heads and Contents are about the loops over queues,
--     Safe and Taken about the invariant, Exclusion about requests in progress, Idle about requests on
--     idle groups; Requests, Awake, Turns, Order, Sound and Waiting are about the requests of the DAG and
--     the order of its queues, Progress about runs of it, Repeats about a group that is named twice.
--   Coding: libmpaxos/rs_helper.h.
--   Proposer: group_info_t and txn_info_t, check_majority, and the loop over the responses of a message
--     in handle_msg_promise and handle_msg_accepted. Majority is about the verdict, Memory about the two
--     pointers to the best proposal, Tally about the counts of a group, Unseen about transactions that
--     remember no proposal, Quorum about whole messages and about two majorities.
--   Node: the state of a whole node, and the code that reaches across the components: Send (comm.c, the
--     broadcasts and mpaxos_accept of proposer.c), Decide (phase_2_async_after, detach_txn_info,
--     async_ready_callback), Handlers (the message handlers), Requests (mpaxos_start_request),
--     Wire (the functions that are registered for messages); Broadcast, Accept, Decided, Tallied,
--     Counting, Ballots, Prepare, Kept, Txns and Calls are about them.
--   Async: libmpaxos/async.c and the calls of libmpaxos/mpaxos.c. Defs has the way of a request to its
--     transaction, Starts is about that way, Counters has the counters of callbacks.
--   Agreement: two proposers and the acceptors between them, node by node.
--   Cluster: runs of several nodes as a step relation. Defs has the states and steps, Answers what the
--     answers that were sent say of the acceptors, Groups what backs the counts of a transaction,
--     Invariant and Steps the invariant, Origins the requests that transactions come from, Agreement the
--     decisions in a slot.
--   Kvdb: libkvdb, a store of keys and values over mpaxos. Packing has its operations and their bytes
--     (operation.h, operation.cpp), RoundTrip is about these; Calls has the calls of kvdb.cpp up to where
--     they wait, with a log in place of commit_async, which libmpaxos does not define; Commits is
--     about what they log, Batches about batches of two pairs or more.
--   Tests: runs at concrete inputs.
--
-- How the code is rendered. A function of C takes the state it works on and returns the new one; a
-- handler takes a message and returns the reply. Sent messages are appended to a log of the node.
-- Proposals that two pointers share are in a heap by address, and a freed address is not used
-- again. Loops over an array or a table of the code are recursions over a list. Loops with fuel are
-- that of buf_readjust (buf_write gives it one turn more than it has bytes, and each turn makes the tail
-- of the buffer longer), and those of the connections (each turn takes a byte at least, of the socket or
-- of the buffer, so that one turn more than there are bytes is enough). Counters wrap at the
-- width the code gives them. Locks are not modelled: each operation is one step, as the mutex
-- around it makes it, and orders of messages are lists of steps.
--
-- What is given. The coder of zfec, the order in which APR's hash table yields entries, the name
-- resolver, and the bytes that get_view leaves unwritten are arguments. Pollsets and sockets of APR are
-- interfaces (Pollset, Socket) of what APR documents, packing by protobuf-c a record of functions; each
-- has an instance in Tests that runs. That a pollset takes a descriptor again right after its removal is
-- documented nowhere: theorems that need it have it as a hypothesis (TakesBack).
--
-- Not modelled: threads (a task of the pool is a step of its own), socket options and addresses, the
-- destruction of objects, logging, the databases of libkvdb and its callback, whose body is commented out, the generated code of protobuf-c, JSON
-- parsing, the locks of mlock.c, and the functions that nothing calls (broadcast_msg_accept,
-- broadcast_msg_decide, decide_value of the learner).
pub mod Prelude
pub mod Types
pub mod View
pub mod Hash
pub mod Rpc
pub mod SlotMgr
pub mod Recorder
pub mod Acceptor
pub mod Dag
pub mod Async
pub mod Coding
pub mod Proposer
pub mod Node
pub mod Agreement
pub mod Cluster
pub mod Kvdb
pub mod Tests
