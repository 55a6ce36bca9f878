-- ===== src/Lib.antt =====
-- The modules of utils-modules, a collection of C modules for servers: a byte FIFO, memory pools, a
-- factory that caches pools, timers, sorts, strings, mutexes and a protocol of numbered packets over UDP.
-- This library models them, with theorems on what each of them keeps and promises.
--
-- Parts
--   Base                shared names, operators, lists, words and memory.
--   Kfifo               datastruct/kfifo.h, datastruct/kfifo.c. The record Kfifo is `struct kfifo`, its
--                       buffer a list of bytes; put is `__kfifo_put`, get `__kfifo_get`, locked_get
--                       `kfifo_get`, len `__kfifo_len`. Kfifo/Queue is the abstract queue to compare
--                       with; Kfifo/Alloc has `generic_fls`, `roundup_pow_of_two`, `kfifo_init`
--                       and `kfifo_alloc`.
--   Pool                pool/pool.h, pool/pool.c. A pool hands out ranges of addresses from its blocks.
--                       Pool.alloc is `mdl_pool_alloc`, find_block and expand the two halves of
--                       `mdl_pool_allocate_find`; Pool/Life has `mdl_pool_create_int`, `reset_pool`,
--                       `mdl_pool_destroy_int`, `mdl_pool_get_used_size`, `mdl_pool_calloc`.
--                       Pool/Factory is the interface of the policy that gives blocks, with its laws;
--                       a failed assertion and a bad pointer are outcomes of the type Result.
--   Caching             pool/caching.c, a client of Pool: create is `cpool_create_pool`, release
--                       `cpool_release_pool`, destroy `mdl_caching_pool_destroy`. It is generic in the
--                       policy, as the code takes it as an argument.
--   DefaultPolicy       pool/policy.c, and the two counting functions of pool/caching.c: the policy over
--                       `malloc` and `free` as an interface with laws, an instance of Pool/Factory.
--   Timer               timer/module_timer.h, timer/module_timer.c. The record Timers has the array, the
--                       lists of the timers at work and of the free ones; tick is one round of
--                       `thread_timer`, with what it does as an Event. Timer/Links is the interface of
--                       the list `clist.h`, which is not in the repository.
--   Udp                 udp/ex_udp.h, udp/ex_udp.c. The record Link is `s_link`, Sock is `st_sock`. Udp/Seq has
--                       CMP_SEQ and CMP_SEQ_ORDER, Udp/Messages `SeqReport`, `SeqLack`, `SeqReportAck` and
--                       `SeqLackAck`, Udp/Receive `UserDataRecv`, `SeqCheckAck`, a round of `exRecv` and
--                       `SendToMsgQueue`, Udp/Send a round of `exSend` and `SeqCheck`, Udp/Table the
--                       links of a socket (`get_link`, `add_list`, `del_list`), Udp/Open `exSocket` and
--                       `exClose`, Udp/Dispatch `thread_recv`, Udp/Listen `thread_listen` for one link,
--                       Udp/Round its rounds over all links, which other threads may change meanwhile,
--                       Udp/Connect `exConnect` and `exAccept`, as loops over a list of what wakes
--                       them: a Wake has what the other threads did to the socket meanwhile.
--                       Udp/Numbered counts packets without bound and says what the arrays of a link
--                       hold; Udp/Channel is one direction of a link over a network that loses, repeats
--                       and reorders datagrams, as a step relation, with the packets of the
--                       handshake (Udp/Greetings) by sides that are connected; Udp/Again has a
--                       request that comes to a connected link again. The table of the ports
--                       ends at 65534, and get_link of port 65535 is an access out of it.
--   Thread              thread/thread.h, thread/thread.c: mutexes (mutex_lock is `mdl_mutex_lock`, and so
--                       on), atomic numbers and suspended threads, over the mutexes of pthread as an
--                       interface with the laws of POSIX. A Call comes back, waits, or
--                       reads through the null record of a Caller that is not registered.
--                       Thread/Create has the functions that create mutexes, atomic numbers,
--                       semaphores and threads, on their error paths too; Thread/Semaphore
--                       `mdl_sem_wait`, `mdl_sem_trywait`, `mdl_sem_post` and `mdl_sem_destroy`
--                       over those of POSIX; Thread/Registry the list of the threads, with `mdl_thread_dump`.
--   Log                 log/log.c, log/log.h: log_core, its parts in the order of the code, on a buffer of
--                       4000 characters; vsnprintf is given by the text that it makes. Log/Terminal has
--                       the colours, and `log_write` by what it prints.
--   Sort                datastruct/sort.c: the bubble sort, the merge sort and the quick sort over the
--                       array's list; the memory of the merge sort is what malloc gives. Sort/Rearrange counts what an array holds, Sort/Partition is
--                       `adjust_array`.
--   Strings             datastruct/module_string.c: cpystrn is `module_cpystrn`, rstrncmp
--                       `module_rstrncmp`, on the lists of the bytes from a pointer on.
--
-- Numbers. Indices and sizes of the FIFO are 32-bit and wrap, those of the pool 64-bit; the wrap is
-- written out. The sizes of the structs are those of an LP64 target (104, 40 and 32 bytes). Times are
-- natural numbers without a bound: seconds since 1970 are far from the end of `long`.
--
-- Bounds. The loop of `reset_pool` has fuel 2: on its second round it either has stopped or follows
-- the null pointer of a deleted node, and both are its outcomes. The loop of `cpool_create_pool`
-- towards larger sizes has as fuel what is left of the array. The loop of `SeqLack` has fuel 2044, the
-- number of packet numbers, and less where the window is known.
-- The quick sort has the length of the array, which bounds its depth, and `adjust_array` the distance of
-- its two indices. `exConnect` has as fuel its MAX_LINK_TIMES requests, and the
-- walk of `thread_listen` the list of its turns.
-- `_merge_sort` has the length of the array, which bounds its depth, and `mergearray` the length of
-- both parts; a number of the log has at most 20 digits. All other loops are recursion on lists.
--
-- Locks. Each locked call runs with its lock held from its start to its end and is one step; sequences
-- of steps stand for the interleavings of threads.
--
-- Not modelled: the calls of the log, the contents of the memory of pools, the module signal, the
-- macros of module_common.h, which print how long the sorts took, and module_array and module_list,
-- which do not compile; of sort, merge_array, which nothing calls; of log, the indents set by callers
-- and the threads, which no file turns on; of udp, the loops of `exSend`, `exRecv` and
-- `thread_RecvToMsg` around the rounds that are, the check sum, which is switched off, and the queue
-- for Windows; list.h, string, idr and rbtree are copies of files of the Linux kernel.
pub mod Base
pub mod Kfifo
pub mod Log
pub mod Pool
pub mod Caching
pub mod DefaultPolicy
pub mod Timer
pub mod Udp
pub mod Thread
pub mod Sort
pub mod Strings
