-- ===== src/Lib.antt =====
-- Verification of the traffic generator, which plays captured flows of packets on a network
-- device at a given rate. Two threads run it. The management (mgmt/manager.cpp) takes HTTP
-- requests to start and to stop a generation and to read its stats; the generation
-- (gen/manager.cpp) owns the device, the timers and the generators of flows. They share two
-- queues of messages (mgmt/messages.h), each a ring with one producer and one consumer
-- (put/spsc_ring.h): requests go one way, responses and reports of packets the other. Each turn
-- of a manager's loop takes a few messages out of its queue and handles them.
--
-- The files:
--   Base: what the others share. Base/Lists is lists over the native numbers, Base/Words words of
--     32 and 64 bits with their wrap-around, Base/Bits the masks by a power of two.
--   Put/Assert: put/tg_assert.h.
--   Put/Ring: put/spsc_ring.h. A position is a 64-bit word that is never reduced to the ring's
--     size, as in the source, and a slot holds an object or none, so that a read of a slot with
--     no object, which is undefined in the source, is seen. `try_push`, `try_pop`, `try_consume`,
--     their batches (`_batch`) and the destructor have the source's branches; a callback is a
--     function on its own state. Put/Ring/Holds relates a ring to the queue that it stands for;
--     Cells, Push, Pop, PopBatch and PopMany are the proofs about the operations.
--     Put/Ring/Threads is `try_push` and `try_consume` of one value an access at a time, with the two
--     threads interleaved, where a load may see an older store; Invariant, Produce, Consume and
--     Safe are the proofs.
--   Put/Cycles: put/time_utils.h, `from_duration` and `to`.
--   Put/Text: put/string_utils.h, on strings as lists of characters' codes; Put/EtherAddr:
--     put/ether_addr.cpp, over the readers and printers of hexadecimal digits of other libraries.
--   Put/Stacktrace: put/stacktrace.cpp. Itself it is the two conversions of numbers; Dump is the texts
--     of a dump, with whether each call of `write` takes its text, and Dump/Handler the handler of a
--     fatal signal and its installation; Dump/Read is on what can be read of a dump.
--   Gen/Rotation, Gen/Flows: gen/priv/flows_generator.cpp. Rotation is `inc_reset` and the walk
--     of bursts through the ranges of addresses; Flows is `setup_flows`, `setup_flow_events`,
--     `on_flow_event` and `on_event`, and Gen/Flows/Load is `load_pkts` on what the capture loader
--     read. Gen/Flows/Setup, Event, Run and Load/Checked are the proofs.
--   Gen/Ops: gen/priv/generation_ops.h, as a record of operations over any state. The generator
--     takes it as a parameter, Gen/World fills it.
--   Gen/Handle: gen/priv/event_handle.cpp, in a store of handles by their addresses.
--   Gen/Capture: gen/priv/tcap_loader.cpp, and the loop of `load_pkts` that calls it. A file is its
--     bytes to come, a packet the mbufs that are filled. Capture/Reads and Whole are the
--     proofs about what is read, Cut of a file that ends within a packet, Capture/Pool and Ends those
--     about the end of the loading, and Keeps is on what a load leaves as it was.
--   Gen/Loader: the same loader as gen/priv/flows_generator.cpp uses it, with the operations of
--     Gen/World for its mbufs and files by their names. Loader/Contents is on what is read, and
--     Loader/Works shows that the loader is one that `Documented` asks for.
--   Gen/Pool: gen/priv/mbuf_pool.cpp and put/file_utils.h, over the calls of the system and of DPDK;
--     Pool/Made is on the limits and the pools that are left.
--   Gen/Device: gen/priv/eth_dev.cpp, with DPDK's calls written down in order; Device/Setup is the
--     wait for the link, Device/Owner the starts and closes.
--   Gen/World, Gen/Build, Gen/Manager: gen/manager.cpp and gen/priv/event_scheduler.h. World is the
--     part of the manager that the generators work on; Build their construction and destruction;
--     Manager the requests and the turn of the loop.
--     Gen/Manager/Calm, Fire, Turn, Start, Answer and Serve are the proofs where assertions pass and
--     the assignment of a handle returns; Below and Settled carry them to the code as it is.
--   Mgmt/Config, Mgmt/Messages, Mgmt/Queue, Mgmt/Protocol: mgmt/gen_config.h, mgmt/stats.h and
--     mgmt/messages.h, and the three exchanges of a request and a response. Mgmt/Config/Parse is
--     mgmt/gen_config.cpp over the JSON library as a parameter, with the range test of
--     Put/Numbers (put/num_utils.h); Parse/Limits is on what it lets through.
--   Mgmt/Manager: mgmt/manager.cpp. A callback is a number, and an answer is what it says;
--     Mgmt/Manager/Text is the text of the answers with numbers. Mgmt/Manager/Ledger and Safe keep
--     the books of the callbacks.
--   Mgmt/Server: mgmt/priv/http_server.cpp, a coroutine for each connection as the place where it
--     waits, driven by the ends of the network's operations; Server/Sessions is on a round of each.
--   App/Main: main.cpp, over the parse of the arguments; Main/Ends is on how the program ends.
--   App/Eal: app/application.cpp, the arguments and the start of DPDK.
--   App/Config: app/priv/config.cpp, the formats of two options and the checks of all.
--   System: app/application.cpp, the two managers with the two queues between them, and a run as a
--     sequence of their turns (`run_loop`) in any order. System/Run has the invariant of both,
--     System/Settled is on runs of the code as it is, System/Reading joins the configuration's limits with what the generation relies on.
--     System/Http adds the HTTP server to the managers, and System/Loops the stop flag, the signals
--     and the two loops a step at a time; their Settled are on the code as it is.
--   The modules named Tests: the theorems on concrete values.
--
-- A failed assertion (`TG_ENFORCE`), undefined behaviour and an endless call are `none`, or a
-- constructor of the result's own, so that a theorem that a function returns excludes them. What
-- an assertion aborts at is a parameter, `aborts`, of the managers and of the start of DPDK. The macro
-- as it is written (`tg_enforce`) aborts where its condition holds, while its uses state what they
-- expect to hold, and the move assignment of a handle as it is written never returns. So the results
-- below take neither to be right: they hold for every `aborts` and for an assignment that returns
-- always or never (`Documented`), and leave room for a stop at one of the two only (`IsFaulty`). A
-- platform with neither fault (`Works`, `IsIntended`) is a case of their proofs: each operation
-- does what it does on such a platform, or stops (`Below`, of Put/Assert).
--
-- The move assignment of a handle, the destructor's loop of a ring and the loops over a capture run
-- on fuel. For the ring one round more than it has values is enough, for the bytes of a packet as
-- many rounds as bytes, for a capture one more than it has bytes; for the assignment no number is.
--
-- DPDK is the parameter `Dpdk`, with its own state. The managers' parameters are in the record
-- `Platform`: the order of bytes, the hosts of a network, the texts of exceptions, what the
-- capture loader reads (`load_captured`, which `with_loader` of Gen/Loader fills, where the files
-- and the free of a chain of mbufs are the parameter `Medium`) and the assignment of a handle
-- (`move_assign`). `Documented` says what is relied on: timers that stop and expire only for flows
-- that there are, and a loader that reads packets or throws. The reset of a timer, which the code
-- asserts, is done by the timer's own thread, from its own callback at most, and is taken to succeed,
-- as DPDK documents. The parse of a
-- configuration (`parse`) is a parameter of the management. A turn of a manager is one step: the
-- ring's operations are whole, with the values of the other side's position that each side may
-- know.
--
-- Not modelled: the interleaving of the two threads within the batches of the ring; the set-up of
-- the HTTP server's acceptor, which is four calls of Boost.Asio; logging, and the formatted texts of
-- exceptions.
pub mod Base
pub mod Put
pub mod Gen
pub mod Mgmt
pub mod App
pub mod System
