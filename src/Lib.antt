-- ===== src/Lib.antt =====
-- A model of the datapath of Axio's emulator: applications and dispatchers run as workspaces, one
-- thread each. An application thread of a client takes from its budget of messages in flight,
-- allocates packet buffers, fills them and puts them into its transmit queue; a dispatcher thread
-- collects the packets of such queues and gives them to the NIC, and hands what the NIC received to
-- the receive queues of the applications. A configuration says which phases run on which workspace.
--
--   Queue         src/util/lock_free_queue.h: the ring between an application and a dispatcher,
--                 with the loops of enqueues and dequeues that its users run. `Queue.Refine` is
--                 about one call at a time, `Queue.Bulk` about the loops, `Queue.Spsc` about the two
--                 threads, with each access of the indices and the array as a step.
--   HugeAlloc     src/dispatcher_impl/roce/huge_alloc.h and huge_alloc.cc: `alloc`, `free_buf`,
--                 `add_raw_buffer` and `reserve_hugepages` over the freelists of 18 size classes. A
--                 failed `assert` is `none`.
--   Rules         src/util/rule_table.h: the routes of a workload type, `rr_select`, and the budget.
--   Mbuf          src/dispatcher_impl/roce/buffer.h and the functions on a buffer at the end of
--                 src/dispatcher_impl/roce/roce_dispatcher.cc. Memory maps a pointer to the fields.
--   Roce          src/dispatcher_impl/roce/roce_dispatcher_dataplane.cc: `tx_burst` and `tx_flush`
--                 (Roce.Tx), `collect_tx_pkts` (Roce.Collect), `post_recvs`, `rx_burst` and
--                 `dispatch_rx_pkts` (Roce.Rx). Roce.Connect is about two queue pairs that find each
--                 other: the handshake in roce_dispatcher.cc over src/util/mgnt_connection.h;
--                 Roce.Setup about the memory of packets and the rings at the start.
--   Pipeline      src/datapath_pipeline.h: from the configuration to the loop of each workspace.
--   Workspace     src/workspace.h: the application phases of a client.
--   Server        src/ws_impl/msg_handlers.cc: `msg_handler_server` and its handlers.
--   Barrier       src/util/barrier.h: the threads' barrier, as a step relation.
--   Dpdk          src/dispatcher_impl/dpdk: the data plane of dpdk_dispatcher_dataplane.cc (Dpdk.Header,
--                 Dpdk.Collect, Dpdk.Tx, Dpdk.Rx, Dpdk.Arp), dpdk_pkt_handlers.cc (Dpdk.Echo), the functions on a packet of dpdk_dispatcher.cc (Dpdk.Payload), and
--                 the ownership of queue pairs in dpdk_dispatcher.h (Dpdk.Ownership).
--   Text          the calls of std::getline, std::to_string and std::stoi that the parsers make.
--   QpInfo        src/dispatcher_impl/roce/qpinfo.hh: what two endpoints tell each other, as text.
--   Config        src/config.h and src/config.cc: the file that says which workspaces run what.
--   Setup         src/ws_impl/workspace.cc and src/ws_impl/workspace_context.h: the checks of the
--                 constructor, the registration of workspaces, and how a dispatcher finds its workers.
--   Measure       src/ws_impl/workspace.cc: the iterations of a measurement, in which the workspaces
--                 wait for each other, the first that is done takes the statistics, and the
--                 dispatchers go on until all are done.
--   Perf          src/ws_impl/workspace.cc and src/util/net_stats.h: the figures of a report. A `double`
--                 is known by the operations made on it.
--   Stats         src/util/net_stats.h: the counters of a workspace.
--   Phases        src/workspace.h: the phases of a dispatcher over DPDK, with what they count.
--   Kv            src/util/kv.h and rand.h: the key-value store and its initial keys.
--   Prelude       what the others share: tests on numbers, lists with native lengths, masks, rings.
--
-- Pointers are numbers, and `nullptr` is 0 where it is stored. `size_t` wraps at 2^64 where the code
-- relies on it or could overflow; indices that stay below a ring's size are kept as numbers. Code
-- outside the repository enters by arguments: the instruction `bsrl` with what the processor
-- documents of it (`BsrLaw`), what polls of the NIC return, the outcome of the bulk allocation.
-- `tx_flush`, `get_class_slow` and the loop of `rx_burst` that posts freed buffers run on fuel: the
-- first on the list of the polls to come, as many as buffers wait being enough if every poll makes
-- progress; the second on the 18 classes; the third on the 2048 buffers of the ring, each of which
-- stops the loop once it is posted. Over DPDK, `tx_flush` runs on the list of what the calls of the
-- NIC take. A number is printed on at most 20 digits, which 64 bits fit in. The other loops are
-- structural.
--
-- Not modelled: the set-up of the DPDK ports, their flow rules and mempools, and the creation of
-- the verbs' device objects, which are sequences of library calls; `fill_tx_pkts`, which serves
-- the builds with OneStage; the handlers `fs_read` and `kv_handler`; the timing of the event loop,
-- whose launches are apart from the protocol of a measurement; the helpers that print packet
-- headers; the byte ring; and what only calls the system (shared memory, sockets, thread
-- placement, logging, timers). The builds with OneStage, which measure one stage alone, and with
-- ApplyNewMbuf are left out.
mod Prelude
pub mod Queue
pub mod HugeAlloc
pub mod Rules
pub mod Mbuf
pub mod Roce
pub mod Dpdk
pub mod Pipeline
pub mod Workspace
pub mod Barrier
pub mod Server
pub mod Text
pub mod QpInfo
pub mod Config
pub mod Setup
pub mod Stats
pub mod Phases
pub mod Kv
pub mod Measure
pub mod Perf
