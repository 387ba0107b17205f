-- ===== src/Lib.antt =====
-- Verification of CPP_RPC, a small RPC framework in C++ over protobuf.
--
-- A client packs a call into a package, a header of eight bytes and a payload, puts it into a ring of
-- bytes, and a socket thread sends it; the server's socket thread collects bytes in another ring,
-- takes packages off it, and hands each to a pool of worker threads.
--
-- Int32: the 32-bit and 64-bit arithmetic; an `int` is its bit pattern, so that every wrap and every
--   signed comparison of the source is written out.
-- Buffer: `Buffer` and buffer_calloc, buffer_realloc, buffer_free, buffer_copy of RPC_util/buffer.cc. A
--   block of memory is the list of its bytes, a copy that leaves a block a fault, and whether malloc
--   finds memory an argument.
-- Cache: `BufferCacheBase` of RPC_util/buffer.cc. Cache.Inv is its invariant, Cache.Fifo the queue of
--   bytes that it stands for, Cache.Read, Cache.Write and Cache.Negative the methods against that queue,
--   and Cache.Keeps what they keep on every branch, as Package.Keeps, Drain.Keeps and Send.Keeps do for theirs.
-- Package: `Header` and `BufferCache`. Package.Layout is the header in memory, Package.Write is
--   write_package, Package.Check and Package.Read are read_package, Package.Prefix is a package from a longer
--   buffer, and Package.Negative a header with a negative length.
-- Drain: the loop of both read_sockets over read_package, with what they do with a payload as an argument.
-- Send: the loop of both write_sockets. Send.Stream is about the bytes that reach the socket.
-- ThreadPool: RPC_util/ThreadPool.hpp. A schedule is a list of events, one for each access to what the
--   threads share; ThreadPool.Queue, Count, Wakeup and Quit are about the queue, m_running, the
--   notifications and those of quit(); ThreadPool.Knows and Keeps are the invariant behind Wakeup and the
--   steps of a worker. ThreadPool.Joins has quit() and wait_for_job_finish() as a thread beside the others,
--   with ThreadPool.Joined about those that have returned, and ThreadPool.Loses a task that is left behind.
-- Heap: the contract of std::push_heap and std::pop_heap as a record of operations and laws, HeapOps, and
--   a binary heap that fulfils it (Heap.Up, Heap.Down, Heap.Binary). Heap.Order is about the root.
-- Timers: `TimerManager` of RPC_util/TimerManager.cc, over any HeapOps. Timers.Objects is `Timer` and the
--   thread that calls back. Timers.Valid is the invariant; Timers.Register, Enable, Disable and Due are
--   about the operations of the manager, Timers.Fires about a timer from its start to its callback,
--   Timers.Run about the thread, and Timers.Clock about `DateTime`.
-- IoService: RPC_server/IoService.cc, the callback map and the loop over epoll_wait. IoService.Start is the
--   constructor with its polling threads.
-- Monitor: the counters of RPC_server/ServerMonitor.cc. Monitor.Display is what `monite` shows, with
--   Monitor.Texts about its numbers and Monitor.Peaks about the largest speeds.
-- Server: `ServerService` and `RequestHandle`, RPC_server/RPC_server.cc and RPC_server/RequestHandle.cc.
--   Server.Requests is about read_socket, Server.Responses about worker_caller, Server.Sends about
--   write_socket, Server.Events about histories and the clients along them, with Server.Counts and
--   Server.Connections about their number, Server.Rings, Server.Answers and Server.Caches about the rings along them, and Server.Close about the tasks of a closed connection. Server.Start is
--   the opening of the socket and the constructor, and Server.Begins the number of clients from there on.
-- ResponseHandle: RPC_client/ResponseHandle.cc, a request that waits for its response or its timeout.
--   ResponseHandle.Outcome is about what becomes of it, and ResponseHandle.Expiry joins it with its Timer.
-- Client: `ClientService`, RPC_client/RPC_client.cc. Client.Requests is about send_request,
--   Client.Responses about read_socket, and Client.Start about the connection and a client without one.
-- ClientIo: RPC_client/IoService.cc; ClientIo.Same compares it with the server's IoService.
-- Stubs: the macros of RPC_server/RPC_server_template.h and RPC_client/RPC_client_template.h. Stubs.Serve is
--   about the server's end of a call, down to the package in the write cache, Stubs.Served about the way
--   of requests through the server, from their bytes to those of the responses, Stubs.Overflows about a
--   response that is longer than its request, and Stubs.Calls about the array of the client's stub.
--   Stubs.Samples has two message classes.
-- Wire: the two ends of a connection together. Wire.Asks is the client's part of a call, Wire.Serves the
--   server's, Wire.Fits the conditions, and Wire.Trip calls over the wire from send_request to the handle.
-- Config: RPC_util/config_read.cc; Config.Settings and Config.ClientSettings are the getters of both
--   service configurations.
-- CodeGen: CodeGen/code_gen.cc. CodeGen.Parse and CodeGen.Defs are about the parser of definitions,
--   CodeGen.Writers is the texts that are generated, CodeGen.Names about file names and numbers, and
--   CodeGen.Main is main, from the definition file to the generated ones.
-- Assoc: std::map as an association list.
--
-- Fuel: the loop over parameters in CodeGen has one round for every character, and a round that goes on
-- takes one at least. The loop of Drain has one round for every byte that the cache can hold and one
-- more, and a round that goes on takes eight bytes at least. The loop of Send ends with the kernel's
-- answers. A schedule or a history is a finite list and stands for the part of a run up to some
-- moment. A handler of a connection runs as one step; the interleavings of two handlers of one
-- connection are not modelled. The inner loop of TimerManager::run takes one timer off the heap in a round,
-- and has a round for each that runs; a sift moves an item one level up or down in a round, and has a
-- round for every item and one more.
--
-- Parameters: epoll_ctl, read(2), write(2), socket, bind, listen, connect, accept and close of the kernel,
-- malloc, the protobuf classes (a codec with the law that a message is read as it was written) and the
-- parsers of the two templates (with ClientService::hash behind the client's), the float and double
-- arithmetic of the display, and the two heap algorithms by their contract.
--
-- Not modelled: the logging; the sleeps; the type test of the overloads of ThreadPool::append_task;
-- the escape sequences and the format string of the display; the examples. Static objects are arguments.
-- The byte order is that of the machine the source assumes (`SMALL_END`). have_a_look takes no lock in the
-- source; it is modelled as one step like the locked methods. The handles are no
-- part of the state of Timers: ResponseHandle.Expiry joins a handle and its Timer by the timers that a round
-- calls back.
--
-- Simplified: the blocks of BLOCK_SIZE bytes that both read_sockets and both write_sockets allocate before
-- they read or write are taken to find memory, whatever malloc does for other blocks. TimerManager::run
-- takes its mutex anew for each timer that it collects; collect_due is the loop as one step, without the
-- calls that other threads could make in between. The loop of send_request that never ends is its rounds,
-- and the pieces behind it stand for themselves: a call of the client's stubs does not return.
pub mod Prelude
pub mod Int32
pub mod Buffer
pub mod Cache
pub mod Package
pub mod ThreadPool
pub mod Heap
pub mod Timers
pub mod Assoc
pub mod Monitor
pub mod Drain
pub mod Send
pub mod IoService
pub mod Server
pub mod ResponseHandle
pub mod Client
pub mod ClientIo
pub mod Stubs
pub mod Wire
pub mod Config
pub mod CodeGen
