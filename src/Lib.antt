-- ===== src/Lib.antt =====
-- technopark_cpp: a model of the containers, the sorting and heap functions, a cache, the socket class
-- and the event loops of the course repository.
--
-- The containers in cmake_make_gtest_cppunit/ stand alone, but for Heap, whose functions work on a
-- DArray. Each is a class over a block of memory that it owns, or over nodes that it links.
-- - Prelude holds the outcome of a call (`Run`: a value, an exception, undefined behaviour, or fuel that
--   ran out), reads and writes of a block, integers of fixed width, lists and permutations.
-- - Container holds the interface that Stack and Queue share, scripts of calls, and the proof that a
--   simulation makes two containers answer every script alike.
-- - Stack models cmake_make_gtest_cppunit/Stack.h and Stack.cpp. `create` is the constructor, `peek` is
--   Top(), the other functions have the names of the methods. Refine has the bounded list that the
--   class implements.
-- - Queue models cmake_make_gtest_cppunit/Queue.h and Queue.cpp, with the same layout. Slice and Contents
--   read the ring as a list.
-- - DArray models cmake_make_gtest_cppunit/DArray.h and DArray.cpp. `index` and `assign` are the reads and
--   writes through operator[].
-- - Heap models cmake_make_gtest_cppunit/Heap.h and Heap.cpp, on DArray. Order says what a heap is.
-- - LinkedList models cmake_make_gtest_cppunit/LinkedList.h and LinkedList.cpp, over a memory from
--   addresses to nodes, so that lists can share nodes and dangling pointers can be written down.
--   `search_val` is Search. IsList in Chain says that an object and a memory hold a list of cells.
-- - ShellSort models shell_sort of cmake_make_gtest_cppunit/stack_corr.cpp, over the block that it sorts.
-- - LruCache models class lru_cache of examples/039_good_lru_cache.cpp, over the interface of a hash
--   map in UnorderedMap. An iterator into its list of keys is the name of a node. Calls has the
--   scripts and the list that the cache implements.
-- - GenCache models class LastUsedCache of examples/038_bad_lru_cache.cpp over a list of entries;
--   where the map puts a new one is a parameter.
-- - Socket models transfers of class Socket in net/common/socket.cpp: `send` and `recv_exact` are
--   send(str) and recv(bytes) over a list of what the system calls answer, one for each call, and
--   `trim` is the loop at the end of recv().
-- - Descriptor models how class Socket gets its descriptor, in the same file: both connect methods
--   and createServerSocket, over the descriptors that are open in the process.
-- - Socket/Stream models the other reads of class Socket, its accept and its HTTP query.
-- - HttpClient models make_query of net/http_client/http_client.cpp.
-- - SimplePoll models net/simplest_client_server/server_poll.cpp: make_socket, and a round of the loop.
-- - SimpleSelect models net/simplest_client_server/server_select.cpp: a round of the loop.
-- - Tpevent models net/libtpevent/src. Options is options.cpp, utils.cpp, server.cpp and main.cpp, up to
--   the choice of the engine. Engine is engine.hpp and engine.cpp, Poll poll.cpp, Select select.cpp,
--   Async poll_async.cpp and Epoll epoll.cpp. Each engine has a function for one round of its loop, over
--   what the system calls answer: `manage` and `accept_round` for the two threads of PollEngine,
--   `select_round`, `manage_events`, `work` and `accept_work` for the event loop, `epoll_round`.
--   Message holds what the engines make of the bytes they read, and Clients how they take a client out
--   of a vector. Poll/Server puts the rounds of the two threads together as steps. In Async an event
--   names the connection that its callback holds; a connection that no event holds is destroyed. In
--   Epoll clients stand at addresses on a heap.
--
-- Conventions. A method that changes its object returns the new one. `size_t` arithmetic wraps at 2
-- ^ 64 where the code can reach the end of the range; `int` is bounded by 2 ^ 31. Out of a block,
-- through null and to a freed node every access is `undefined`. Allocations succeed; what new memory
-- holds, and the address that `new` returns, are parameters. A block of `malloc` or a single node
-- given to `delete[]` is `undefined`, and so is an index of an empty string and FD_SET from
-- FD_SETSIZE on. `double` is a type with the comparisons that the code calls.
--
-- Fuel. Stack::Display has a round for each entry and one more. SiftDown has one for each entry of
-- the array, since the index grows, and SiftUp one for each step down to index 0. The loops of
-- LinkedList take fuel as an argument, and the theorems ask for more rounds than nodes. The loop that
-- strips line ends has a round for each byte and one more.
-- The innermost loop of shell_sort has a round for each index down to 0, the loop over the gaps one
-- for each number up to the first gap.
--
-- Not modelled: the destructors of Stack, Queue and DArray, which free the block; std::endl and the
-- format of printed numbers; NaN, which the order of a heap excludes; main.cpp and the tests; the
-- other servers and clients of net/, the other examples, and skia_sdl_example/; the copy of CppUnit.
-- Of libtpevent: what is printed, sleeps, the threads themselves, and two workers of the event loop
-- at the same time; a read gives at most what the kernel put into the buffer, and a write is taken
-- to be whole, since the code does not read its answer.
pub mod Prelude
pub mod Container
pub mod Stack
pub mod Queue
pub mod DArray
pub mod Heap
pub mod LinkedList
pub mod ShellSort
pub mod UnorderedMap
pub mod LruCache
pub mod Socket
pub mod Descriptor
pub mod GenCache
pub mod HttpClient
pub mod SimplePoll
pub mod SimpleSelect
pub mod Tpevent
