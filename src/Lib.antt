-- ===== src/Lib.antt =====
-- Models of the myworkflow library: its HTTP parser, its series and parallels of tasks, its message
-- queue, the thread pool and the executor above it, the scheduler of its connections, its output
-- stream, its URI parser, its cache and its string utilities, with the theorems that make them correct.
--
-- How the program is put together. The communicator reads bytes from a socket and hands them to a
-- message, which feeds them to the HTTP parser piece by piece; a message that is sent is put together
-- by the output stream, as vectors for writev. The scheduler chooses the target of a request, the least
-- loaded of its group, and counts what each target carries. The thread pool passes the work between
-- threads through the message queue, and the executor runs in it one task for each queue of sessions.
-- A finished task asks the series it belongs to for the next one, or counts down the parallel task that
-- it is a part of. The string utilities serve the URIs and the headers.
--
-- Which file models which part:
--   Base          lists, bytes and tests over the native numbers, and what is used of the C library in
--                 the C locale: ctype, strncasecmp, strtoul with base 16.
--   StringUtil    src/util/StringUtil.cc. Codec has url_decode, url_encode and url_encode_component;
--                 Split has split and split_filter_empty, Affix strip and start_with. A string is a list of
--                 bytes.
--   Http          src/protocol/http_parser.c and http_parser.h. Types has http_parser_t and the results
--                 of its functions; Fields has the start line and the fields that headers set; Lines has
--                 the scans of one line; Header, Chunk and Message have the three loops, from
--                 __parse_message_header and __parse_chunk to http_parser_append_message; Cursor has the
--                 setters, __set_message_header and the header cursor. Rounds and Loop have what the
--                 loops share. Message/Reserve has the growth of the buffer, Message/Pieces a message in
--                 pieces, Message/Append a call as a whole.
--   Series        src/factory/Workflow.cc and Workflow.h: the ring of a SeriesWork, which grows when it
--                 is full, its last task, cancelling and dismissing.
--   MsgQueue      src/kernel/msgqueue.c: two chains of messages whose links lie in one store, so that
--                 put_tail, which points into a message or into a head, is an alias as in the code.
--   EncodeStream  src/util/EncodeStream.cc and EncodeStream.h: the vectors, the buffers behind them and
--                 the merging of vectors when there are too many. Memory has the bytes of the buffers.
--   UriParser     src/util/URIParser.cc and URIParser.h: Scan has the three loops, which find the ranges of
--                 the parts, Parse what follows them and ParsedURI, Query the splitting of queries and
--                 paths. Print has how a URI is written; Authority, Tail and Spans follow the loops
--                 over it.
--   Scheduler     src/kernel/CommScheduler.cc and CommScheduler.h: the heap of a group's targets, with
--                 the loops heap_adjust and heapify. Group has the operations of targets and groups,
--                 Order, Rise, Links and Fill the heap's order and its indices, Load the sums of loads.
--   Executor      src/kernel/Executor.cc, over thrdpool_schedule and the loop of thrdpool_destroy in
--                 src/kernel/thrdpool.c. Queues has the state's parts, Order the interleavings.
--   ThreadPool    src/kernel/thrdpool.c: the threads that exit and the destruction of the pool. Chain has
--                 the invariant of the states, Reach the interleavings.
--   LruCache      src/util/LRUCache.h: the handles, their references and the two lists that they are in.
--                 The functions of src/kernel/rbtree.c are a parameter with laws, and a failed assertion
--                 is the result none. Counts has what unref and ref do to the counts, Erase, Put and Calls
--                 the operations, Reach the sequences of calls, Destroy the destructor.
--   Parallel      ParallelWork of src/factory/Workflow.cc, and src/kernel/SubTask.cc. Buffer has the
--                 array of series, Done how the tasks count down, Lifetime the series and their end.
--
-- Conventions. A size_t that the code lets wrap wraps in the model; where a difference cannot be
-- negative it is the difference of ℕ. Memory that is asked for is a parameter: malloc_ok or realloc_ok
-- tells of each size whether the allocation succeeds. The copy of a header's name is kept up to its
-- NUL, since it is read as a string. A region under a lock is one step; a thread that waits on a
-- condition is the result none, and the state is then as before, save in the scheduler, where the
-- model begins behind the wait. A task, a message, a target and a series are their addresses.
-- The counts of bytes in the output stream are not wrapped. Where the code stores a length in an int it
-- is narrowed: for the lengths of a header line, and for the indices of the URI parser, where the
-- overflow of the running index, which C leaves undefined, is excluded by hypotheses. An assertion
-- that fails is the result none in ParallelWork and in the cache.
--
-- Fuel. The loops over a message have one more unit than there are bytes that they can still read, as
-- each round reads one at least. The loop of expand_queue has one unit for each slot of the queue. The
-- loops that delete tasks and subtask_done take their fuel as an argument. The loop at the end of
-- LRUCache::put has one unit more than there are handles not in use, as each round takes one away. The
-- heap of the scheduler sinks and rises on its index and its size.
--
-- Not modelled: sockets, epoll, files, timers and the creation of threads, which are calls of the
-- system; deallocation, save for the deletion of tasks, which is recorded as an event; the
-- initialisation of targets, the poller, the communicator and the
-- glue of tasks and servers above them; and the copies of other projects' containers and codecs under
-- src/kernel and src/util.
pub mod Base
pub mod StringUtil
pub mod Http
pub mod Series
pub mod MsgQueue
pub mod EncodeStream
pub mod Scheduler
pub mod Executor
pub mod Parallel
pub mod UriParser
pub mod ThreadPool
pub mod LruCache
