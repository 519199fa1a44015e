-- ===== src/Lib.antt =====
-- curl-loader, an HTTP and FTP load generator: a model of its timers, its memory and its loading
-- of clients.
--
-- The loader keeps a batch of virtual clients. Each client goes through the urls of its batch
-- (curl-loader/loader_fsm.c), and waits between them, or limits the time of a fetch, by timers in
-- the waiting queue of the batch (curl-loader/timer_queue.c). The queue is a binary heap of nodes
-- with stable ids (curl-loader/heap.c), whose nodes come from a pool (curl-loader/mpool.c).
-- Statistics are counted by client and by batch (curl-loader/statistics.c, curl-loader/client.c).
--
-- The files:
-- - Base: Boolean tests, lists, arrays as functions, and the outcomes of C code. `fault` is an
--   access outside an array or through NULL, `out_of_fuel` a loop whose fuel ran out.
-- - Memory: the nodes behind pointers, calloc of the C library with a schedule of denials, and
--   cl_calloc. A pointer is a number, and 0 is NULL.
-- - Mpool: the functions of mpool.c by their names. Mpool.Chain has the invariant IsPool of the
--   free list, Mpool.Grow, Mpool.Take and Mpool.Init the allocation, Mpool.Free the release.
-- - Heap and Heap.Operations: the functions of heap.c by their names, with its loops as helpers.
--   Heap.Slots and Heap.Order say what slots and order are, Heap.Up, Heap.Down and Heap.Insert
--   how the filters restore them, Heap.Ids how ids are found, and Heap.Valid has the invariant
--   IsHeap and the view `node_at` from ids to nodes. Heap.Finish, Heap.Frame, Heap.Placed,
--   Heap.Refill, Heap.Gap and Heap.Removed carry the proofs of Heap.Push and Heap.Remove.
--   Heap.Below is about the slots in front of a removed one. Heap.Init is about heap_init,
--   TimerQueue.Init about the queue on it, and Heap.Exhausted about ids that run out.
-- - TimerQueue: the functions of timer_queue.c by their names. The function pointer of a timer is
--   a number that a handler, a parameter, resolves. TimerQueue.Valid has the invariant IsQueue
--   and the view `timer_at` from ids to timers, TimerQueue.Nodes and TimerQueue.Taken follow a
--   node between pool and heap, and TimerQueue.Schedule, TimerQueue.Cancel, TimerQueue.CancelAll,
--   TimerQueue.RoundTrip, TimerQueue.Kept, TimerQueue.Served and TimerQueue.Dispatch are about
--   the operations.
-- - Statistics: the points of statistics.c. Statistics.Merge is about their sums.
--   Statistics.Snapshot collects the counters of the threads, Statistics.Snapshot.Counters reads
--   them, and Statistics.Snapshot.Sums is about the totals.
-- - Context: the contexts of client.h, batch.h and url.h with the fields in use, and client.c,
--   batch.c and url.c. Context.Counters has the accessors of client.c, Context.Shared is about
--   shared addresses.
-- - Loader, Loader.Step, Loader.Timers and Loader.Ramp: the functions of loader_fsm.c by their
--   names. Loader.Periodic has the waiting queue of a batch with its periodic timers, and the
--   keys of curl-loader/screen.c, and Loader.Periodic.Cancel and Loader.Periodic.Fresh are about
--   them. Loader.Cycle, Loader.Following, Loader.Ramp.Full and Loader.Clients are about the urls,
--   the gradual increase and the free clients.
-- - Loader.Lifetime: how many urls a client fetches until its last cycle ends.
-- - Config: the contexts of url.h and batch.h with the fields that a configuration file sets.
--   Config.Chars has the functions of the C library on texts, and Config.Parsing what the value
--   parsers share. Config.General, Config.Urls, Config.Forms and Config.Statuses are the value
--   parsers of curl-loader/parse_conf.c by their names, Config.Validate and Config.Cycling the
--   checks and the initialisation of a batch, and Config.Files the table of tags and the loop
--   over lines. Config.Sound and its modules say what a value or a line can do to a batch,
--   Config.Validate.Areas and Config.Validate.Bounds what a validated batch is,
--   Config.Cycling.Ends, Config.Cycling.Loadable and Config.Cycling.Lifetime what the loader can
--   rely on, and Config.Ready joins them for a file. Config.CommandLine is curl-loader/conf.c.
-- - Setup: parts of curl-loader/loader.c by their names. Setup.Tracing is the callback of curl,
--   Setup.Responses and Setup.Statuses are about it. Setup.Ipv6 and Setup.Addresses give clients
--   their addresses, Setup.Contexts prepares the contexts of clients and takes the end of a
--   transfer from curl-loader/loader_smooth.c, and Setup.Subbatches cuts a batch for threads.
-- - Tests: concrete heaps, queues, batches and configuration files.
--
-- Fuel: filter_up and filter_down have the slot and the number of nodes as fuel, heap_get_node_id
-- the size of ids_arr and tq_cancel_timers the number of nodes, each more than the rounds of the
-- loop. The loop of load_urls_state depends on random numbers, and dispatch_expired_timers on the
-- handlers, so their fuel is an argument.
--
-- Numbers: sizes, ids and counters are natural numbers. Where the code wraps around (counters of
-- statistics, a size_t that falls below 0, times of type unsigned long) the model does. Counters
-- of type int are taken to stay in their range.
--
-- The configuration: lines and values are lists of bytes. A batch is a BatchConfig while it is
-- read, and post_validate_init makes the BatchContext and the clients that Loader works on. The
-- parser, the platform and memory are joined by parameters: Config.Parsing.Platform says which
-- sizes calloc grants and what inet_pton reads. A parser gives -1 as `none`, after which the
-- program ends, so that the batch left behind is not kept. The values of atol and atoi are cut to
-- 64 and 32 bits where they are stored so. An index of -1 is the residue 2 ^ 32 - 1, or `none`.
--
-- Not modelled: libcurl and its handles, whose answers are parameters (Loader.Step.Outside),
-- output, threads, and the loops over descriptors and events. Of the configuration, the tags
-- FORM_RECORDS_FILE, UPLOAD_FILE, MULTIPART_FORM_DATA, URL_TEMPLATE, URL_TOKEN, URL_TOKEN_FILE,
-- RESPONSE_TOKEN and RANDOM_SEED, whose parsers are a parameter, and the directories and buffers
-- of post_validate_init.
pub mod Base
pub mod Memory
pub mod Mpool
pub mod Heap
pub mod TimerQueue
pub mod Statistics
pub mod Context
pub mod Loader
pub mod Config
pub mod Setup
pub mod Tests
