-- ===== src/Lib.antt =====
-- The verification library of this repository of systems code in C and C++. The repository is a
-- collection of libraries and programs that do not share a main program; this library follows the
-- parts that carry logic of their own.
--
-- dpdk_ring, a bounded FIFO of pointers adapted from DPDK. Module Ring.
--   Ring/State    `struct rte_ring` and its creation (rte_ring.c, rte_ring.h). A pointer is a
--                 number. The table is the memory behind the header, as a list.
--   Ring/Table    ENQUEUE_PTRS and DEQUEUE_PTRS with their unrolled loop and `switch`. An access
--                 outside the table or outside the caller's array is `none`.
--   Ring/Head     `__rte_ring_move_prod_head`, `__rte_ring_move_cons_head` and `update_tail` of
--                 rte_ring_c11_mem.h, on 32-bit indices that wrap around.
--   Ring/Calls    `__rte_ring_do_enqueue` and `__rte_ring_do_dequeue`.
--   Ring/Api      every public call, with its single, shared or default producer and consumer.
--   Ring/Queue    the FIFO that a ring stands for; Ring/Valid the quiescent rings, where no call is
--                 under way, and the objects that one holds.
--   Ring/Copied, Ring/Filled, Ring/Window
--                 what the copies do to the table, and the part of it that is in use.
--   Ring/Enqueue, Ring/Dequeue, Ring/History, Ring/Query, Ring/Create
--                 the calls, sequences of calls, the queries, and creation.
-- The calls run one at a time here: a thread's call is not interleaved with another's. The loop of
-- a head's compare and exchange runs on fuel; without other threads one round is enough, and the
-- theorems hold for every fuel of at least one round. A wait in `update_tail` that no other
-- thread can end is `none`. `malloc` is a parameter. The memory orders of the atomic accesses and
-- the alignment of the structure's fields are not modelled.
--
-- vpn/com_lib/lock_lib, two locks. Module Lock.
--   Lock/ReadWrite   `sh_rwlock` of atomic_rwlock.h: any number of threads, each at one of the
--                    accesses of lock_read, unlock_read, lock_write and unlock_write, and the
--                    interleavings of their atomic accesses. A weak exchange may fail for no reason.
--   Lock/Spin        `sh_spinlock` of atomic_spinlock.h, in the same way.
--   Lock/Counter, Lock/Threads, Lock/ReadWriteSafe
--                    the integer of a lock, counts of threads, and the proofs.
-- The threads unlock what they locked, and no thread locks twice. Accesses are sequentially
-- consistent, and the count of readers does not reach 2^31.
--
-- dpdk_eal, the cores, NUMA nodes and hugepages of the machine. Module Eal.
--   Eal/Cpu       eal_lcore.c (`eal_cpu_detected`, `eal_cpu_socket_id`, `eal_cpu_core_id`) and eal.c
--                 (`eal_cpu_init`, `rte_socket_count`, `rte_socket_id_by_idx`). What sysfs holds is
--                 a parameter, and so are `qsort`, with what the C library says of it, and the
--                 uninitialised contents of a local array.
--   Eal/Nodes, Eal/Detect, Eal/Init
--                 the list of nodes, the loop over the cores, and `eal_cpu_init` as a whole.
--   Eal/Sizes     inc/sh_unistd.h (`eal_parse_sysfs_value`, `rte_str_to_size`), with `strtoull` and
--                 `isspace` as the C library has them; Eal/Sizes/Decimal, the numerals they read.
--   Eal/Discovery mem_hugepage.c: `get_default_hp_size`, `get_hugepage_dir`, `get_num_hugepages`,
--                 `get_num_hugepages_on_node`, `clear_hugedir`, `compare_hpi`. What the files and
--                 directories of the system hold is a parameter.
--   Eal/Discovery/Counts, Eal/Discovery/Mounts
--                 the numbers of pages and the order of sizes, and the search for a mounted directory.
--   Eal/Hugepages mem_hugepage.c: `hugepage_info_init`; Eal/Hugepages/Table, Eal/Hugepages/Outcome, what
--                 its loops keep, and the call as a whole.
--   Eal/Supply    mem.c: `calc_num_pages_per_socket`, which shares the memory that each node is asked
--                 for among its hugepages. The configuration, the enabled cores and the node of each
--                 are parameters, and so is the memory asked of each node on the command line.
--   Eal/Supply/Amounts, Eal/Supply/Fill, Eal/Supply/Kept, Eal/Supply/Sockets
--                 the amounts of memory, one node's loop over the sizes, what the loops leave of
--                 `hp_used`, and the loop over the nodes.
--   Eal/Mapping   mem.c: `eal_hugepage_init`, with `eal_memalloc_alloc_seg_bulk` as a parameter.
--   Eal/Mapping/Taken
--                 what it takes from the allocator.
--   Eal/Physical  mem.c: `rte_mem_virt2phy`, `find_physaddrs`, `set_physaddrs`. The file
--                 /proc/self/pagemap is a parameter.
--   Eal/Physical/Translate
--                 the addresses that these compute.
--
-- inc, two functions that cut a string at a delimiter. Module Split.
--   Split/Scan    `sh_strsplit` of sh_strings_fns.h and `rte_strsplit` of sh_unistd.h, over a memory of
--                 bytes. A token is an index, and a read outside the memory is `none`.
--   Split/Fields  the fields of a text, without a loop.
--   Split/Marks, Split/Words, Split/Every
--                 what the loops write and return.
--
-- vpn/com_lib/mem_lib and pools/mem_pool, two pools of blocks. Module Pool.
--   Pool/Memory   the memory that both work on: allocated regions and the pointers stored in them. A
--                 store that overlaps a pointer spoils it, and an access outside the regions is
--                 `none`. `malloc` is a parameter.
--   Pool/Paged    mem_pool.h, call by call. The walks over the pages run on fuel; one round more than
--                 there are pages is enough.
--   Pool/Paged/Shape, Pool/Paged/Fill, Pool/Paged/Linked
--                 the pages, blocks and lists of a valid pool, and those of a new page.
--   Pool/Paged/Create, Pool/Paged/Grow, Pool/Paged/Find, Pool/Paged/Calls
--                 the calls on a valid pool.
--   Pool/Paged/Use, Pool/Paged/Take, Pool/Paged/Exclusive, Pool/Paged/Reached
--                 a client that takes, writes and returns blocks in any order, and what it can rely on.
--   Pool/Fixed, Pool/Fixed/Faults
--                 mm_pool.h, call by call, and where it goes wrong.
-- The alignment of pages and blocks is not modelled.
--
-- pools/thread_pool, a pool of threads. Module Workers.
--   Workers       thread_pool.cpp: the threads of a pool in `thread_work`, and one client in
--                 `sh_push_thread_pool` and `sh_destory_thread_pool`, in steps of one access of what
--                 they share, in any order. The mutex, the condition variable and `malloc` are the
--                 system's: a wait may end for no reason, and a signal may wake any thread that sleeps.
--   Workers/Queue the queue of tasks as `push_task` and `pop_task` link it, over a memory whose freed
--                 tasks may be used again. Workers/Queue/Links, Workers/Queue/Calls and
--                 Workers/Queue/Fifo, what is linked, the FIFO that it stands for, and sequences of calls.
--   Workers/Mutex, Workers/Waking
--                 who holds the mutex, and who sleeps behind a signal and a broadcast.
--   Workers/Ending, Workers/Joining, Workers/Returns
--                 the pool that is being destroyed, and how many accesses its threads still make.
--   Workers/Lost  an order in which a signal is lost.
-- Accesses are sequentially consistent. The functions of the tasks return and do not call the pool.
-- In the steps of the threads the queue is the list of its tasks, since every call on it runs under its
-- spin lock. The creation of a pool, which may fail, is not modelled.
--
-- vpn, a relay of connections: a server, its clients, and their messages. Module Vpn.
--   Vpn/Message   vpn/com_lib/protocol/vpv_protocol.h: the messages and their bytes.
--   Vpn/Framing   `on_recv_data` of vpn/server/business_server.cpp and vpn/client/vnp_client.cpp, with
--                 what they do with a message. The loop runs on fuel: one round more than there are
--                 messages is enough. Whether an address can be connected to is a parameter.
--   Vpn/Framing/Whole, Vpn/Framing/Replies, Vpn/Framing/ClientReplies
--                 the loop on bytes of whole messages, and the answers of the server and of the client.
--   Vpn/Receive   the branch of `run_epoll` of vpn/com_lib/net_lib that receives, with any handler. What
--                 `recv` gives is a parameter.
--   Vpn/Relay     `on_recv_data` of vpn/server/data_channel_server.cpp, the handler that passes bytes on.
--                 What `send` takes is a parameter.
--   Vpn/Delivered a channel over the receiving loop.
--   Vpn/Channels  `date_socket_accept` and `run_accept` of data_channel_server.cpp: the sockets that a
--                 channel accepts on its two addresses. Vpn/Channels/Mates, Vpn/Channels/Pairs and
--                 Vpn/Channels/Accepted, the pairs that it makes of them.
--   Vpn/Clients   business_server.cpp: the table of clients and channels, with the table of
--                 data_channel_server.cpp, and the message that asks a client for a connection. Whether
--                 an address can be listened to is a parameter. Ids do not reach 2^31.
--   Vpn/Clients/Tables, Vpn/Clients/Keyed, Vpn/Clients/Request, Vpn/Clients/Created
--                 maps, the ids of channels, the message on its way, and a channel that is created.
--
-- pcap_analyze, a reader of captured packets. Module Pcap.
--   Pcap          main.cpp: `proc_net_data` up to what it passes to `snprintf`, and `ip_str`, with the
--                 headers and `swap16` and `swap32` of pro.h.
--   Pcap/Dotted, Pcap/Written, Pcap/Address
--                 the digits of a byte, what `ip_str` writes, and the text of an address.
--   Pcap/Frames, Pcap/Packets
--                 the bytes of a packet, and what is shown of it.
-- The loop that reads the file is not modelled.
--
-- Common holds what the modules share: Boolean tests, lists over the native numbers, 32-bit words,
-- the `do` blocks of `Option`.
--
-- Not modelled: dpdk_fbarray and sys_queue are copies of other projects' code, and so are hello_world_bak
-- and ThreadPool.h; the table of sockets and the system calls of the vpn's network library, the end of a
-- pair of sockets, and the page that creates channels; the older versions of its programs in cvpn and svpn; the trees; and the single-file
-- demonstrations.
mod Common
pub mod Ring
pub mod Lock
pub mod Eal
pub mod Split
pub mod Workers
pub mod Vpn
pub mod Pcap
pub mod Pool
