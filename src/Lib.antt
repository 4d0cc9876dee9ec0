-- ===== src/Lib.antt =====
-- A verification library for SearchEngine, a search engine in C: a server that reads the files of a
-- directory, keeps for every word the files and lines it stands on, and answers searches over TCP.
--
-- The parts and how they interact. `main` (server.c) calls `read_dir`, which puts the name of each
-- file in `file_list` and calls `tokenizer`; that reads the file line by line and calls `parse`,
-- which cuts the line into words and looks each up in the hash table `Dynlist`. A word has a list of
-- documents, and each document a list of lines. `main` then waits on `select` and hands each request
-- to a pool of threads as a job; `thread_job` receives a word, looks it up and sends its lines. All
-- memory comes from an allocator of the repository's own, tc_malloc.
--
-- Which file models which part:
--   Common       numbers, lists, options and Boolean tests that the parts share.
--   Malloc       tc_malloc.h and tc_malloc.c. SizeClass has `index_to_size`, `get_index` and the page
--                macros; SpanList has `spanlist_push`, `spanlist_pop`, `remove_span`, `freelist_push`
--                and `freelist_pop`; Objects has the lists of free objects; Heap has the globals,
--                `update_mapping`, `map_addr_to_span` and `alloc_span`; PageHeap has `fetch_span` and
--                `return_span_to_pgcache` with what they call; Central has `get_span_central`,
--                `fetch_objs` and `return_objs_to_centralcache`; Thread has the thread cache,
--                `tc_malloc`, `tc_free`, `tc_central_init` and `tc_thread_init`, and in Large the
--                requests that go to the page heap.
--   Table        helper.c: `create_list`, `resize`, `insert` and `lookup` for a `DynList`; server.c:
--                `disperse_keys`. A cell is an `Option` of a pointer.
--   Text         helper.c: `StrGetLength`, `StrCopy`, `StrConcat`, `StrCompare`, `StrTok`, `StrStrip`
--                and `StrSplit`. A string is the bytes from its pointer on.
--   Postings     helper.c: `create_link`, `insert`, `resize`, `insert_link` and `lookup_link` for a
--                `LinkedList`, and server.c: what `parse` does with the list of a word.
--   Hash         server.c: `hash_function`.
--   Parse        server.c: the loop of `parse`, over any operation on a word.
--   Index        server.c and helper.h: `struct Word`, and what `parse` does with a word.
--   Files        server.c: `tokenizer` and `read_dir`.
--   Net          common.h: `recv_from_host` and `send_to_host`; server.c: `create_pckt`. Setup has
--                `open_listenfd` and `open_clientfd`.
--   Server       server.c: `thread_job`. Loop has the loop of `main` over `select`.
--   Pool         thread_pool.c: the queue of jobs, the critical sections of the threads, and in Start
--                `init_pool`.
--   Client       client1.c (Batch) and client2.c (Cli): `request_server`, and
--                `get_serveraddress`.
--   Tests        runs at concrete inputs.
--
-- How state is modelled. An operation takes the state it changes and returns it. An access outside of
-- an array, a null pointer that is followed and a division by zero are `none`, which no later step
-- undoes. A pointer to a word is its place in the list of all words, a pointer to a job's node its
-- place in the list of all nodes, a pointer to a span its place in the list of all spans. An object of
-- the allocator is its address, and the `next` field of free objects is a function of the address. A
-- set of descriptors is a list of bits. What the system gives, or the allocator to the parts that call
-- it (`tc_malloc`, `tc_calloc`, `tc_realloc`, `isalpha`, `read`, `write`, `readdir`, `fopen`, `fgets`,
-- `sprintf`, `sbrk`, `socket` and the calls on a socket, `select`, `accept`, the byte order), is an
-- argument, and what is assumed of it is a record that a theorem takes (IsMemory, IsLineMemory, IsSource,
-- IsSink, IsMachine, IsSystem, IsEvent, IsServed). `tc_calloc` and `tc_realloc` are called, but
-- neither declared nor defined in the repository; of the `tc_realloc` of a `DynList` nothing is assumed. The functions of the allocator are modelled under
-- their locks, as one thread after the other runs them.
--
-- Integers are natural numbers with the wrap-around of `uint32_t` and `size_t` written out, and `int`
-- results are integers. Loops recurse on the array, on the string or on fuel. The fuel of
-- `parse_loop` is the length that the loop is given, and each round moves `index`; the fuel of
-- `recv_from_host` is `len`, and each round that goes on reads a byte. `send_to_host` takes its fuel as
-- an argument, since `write` may return 0 without end. The loops of the allocator have as fuel the
-- number of spans (`find_objs`, `find_big`), of bytes in a span (`carve`) or of objects in a list
-- (`insert_loop`, `return_loop`), and `fetch_span` has one call of itself, after memory has been
-- fetched. The loop over the descriptors has one round for each bit of an `fd_set`.
--
-- Not modelled: the start of `main` in the three programs, which calls the functions that are modelled
-- and starts threads; `StrSearch`, which nothing calls and which reads a variable that is not set; the
-- functions that print or free.
pub mod Common
pub mod Malloc
pub mod Table
pub mod Text
pub mod Postings
pub mod Hash
pub mod Parse
pub mod Index
pub mod Pool
pub mod Net
pub mod Files
pub mod Server
pub mod Tests
pub mod Client
