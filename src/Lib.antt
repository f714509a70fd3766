-- ===== src/Lib.antt =====
-- A verification library for the network layer of isu-net: reliable datagrams, messages over
-- streams, slicing, groups of slices, archives of values, timers, and remote procedure calls with
-- their client, their server and its table of procedures. The platform is the 32-bit Windows of the
-- project files: `size_t` and `unsigned long` are numbers below 2^32 whose wrap-around is written
-- out, and words lie in memory with the lowest byte first.
--
-- Parts and files:
-- - Base: names of the libraries passed on, Boolean tests, lists, dictionaries, raw memory
--   (`mymemcpy` of ex-config/ex-config/platform_config.hpp) and the bytes of words.
-- - Bitmap: ex-utility/src/dynamic_bitmap.cpp, over an interface (Bitmap.Interface) that states
--   what the code relies on of boost::dynamic_bitset, with an instance on lists of bits.
-- - Socket: isu-net/src/socket.cpp, isu-net/isu-net/socket.hpp and
--   ex-utility/src/double_ulong64.cpp: addresses and the words by which they are ordered.
-- - Trans: isu-net/src/trans_core.cpp and its headers. The state `TransCore` holds the members of
--   `trans_core_impl`; its bitmaps are those of Bitmap and the keys of `_received` those of Socket.
--   Trans.Send has `assembile_send` and `send_assembiled`, Trans.Receive one round of
--   `_recver_thread` and `get_completet_io`, Trans.Retry `_timer_callback`, `_exit_timer` and
--   `cancel_io`. Each operation is a function of the state; Trans.Runs interleaves them as a step
--   relation.
-- - Stream: isu-net/src/datagram_tcp.cpp: `stream_wrap`, `stream_analysis` and the receive loop. An
--   allocator is a parameter; blocks are the lists of their bytes.
-- - Slice: ex-utility/src/slice.cpp: `slicer` and `combination`. The head generator is a parameter.
-- - Udt: isu-net/src/udt.cpp and isu-net/isu-net/udt.hpp over Slice: groups of slices, with nodes,
--   groups and mission handles by address. Udt.Ident has the `_group_ident` that `send_block`
--   writes in front of a slice and `recv` reads, Udt.Send `send_block` from its group on,
--   Udt.Receive `_insert` and `recv`; Udt.Reach and Udt.Ticks interleave the operations as step
--   relations; Udt.Groups has an abstract receiver. What the core answers is an argument, so Udt
--   does not use Trans.
-- - Archive: sul-serialize/src/archive_packages.cpp, its header, and
--   ex-utility/ex-utility/memory/dynamic_memory_block.hpp: a block that grows, packages in it, and
--   their analysis. What a new block holds is an argument.
-- - Serialize: sul-serialize/sul-serialize/serialize.hpp: values, as the lists of their bytes,
--   archived into one block and read back.
-- - Xdr: sul-serialize/sul-serialize/xdr/xdr.hpp and xdr_convert.hpp: alignment, and opaque objects
--   with their length in front.
-- - Timers: ex-utility/src/multiplex_timer.cpp with the system's timer queue and completion port.
--   Trans has a smaller view of the same timers, the one that its operations need.
-- - Stubs: imou-rpc-server/imou-rpc-server/server_stub_pool.hpp and
--   imou-rpc-server/src/server_stub_pool.cpp: `stub_pool` with its spinlock, and
--   `stub_ident_allocer`.
-- - Rpc: imou-rpc-kernel/imou-rpc-kernel/imouto_rpcmsg.hpp, the messages and the loop over the
--   blocks of a memory. Rpc.Kernel: imouto_rpc_kernel.hpp beside it, bitmaps of xids (those of
--   Bitmap) by address. Rpc.Client: imou-rpc-client/imou-rpc-client/imouto_rpc_client.hpp: `_call`
--   and the missions in Rpc.Client, `_process_package_impl` and `_rpc_timeout` in
--   Rpc.Client.Process, what `timed_invoke` and `async_timed_invoke_than` make of an answer in
--   Rpc.Client.Invoke; Rpc.Client.Once interleaves them as a step relation. Rpc.Server:
--   imou-rpc-server/imou-rpc-server/imouto_rpc_server.hpp over Rpc.Kernel and Stubs;
--   Rpc.Server.Executed interleaves messages and threads. Rpc.Session puts a client and a server
--   together. The verify of both sides, the functions of the stubs, the archives of exceptions, and
--   what the code leaves unset are arguments.
-- - Checks: the theorems at concrete inputs.
--
-- Errors: an operation that reads or writes outside a block, uses a handle that is not there,
-- throws or waits for ever returns no value; the comment at its type says which of these it stands
-- for.
--
-- Fuel: `push_loop` gets two rounds for each byte and two more, which is enough since every round
-- takes a byte but for one that passes an empty message on. `generic_all` gets one round for each
-- byte and one more. `generic_to` runs on any fuel. `forward_fetch` and `back_fetch` need one round
-- for each node, and one is enough for the lists that arise. The analysis of packages gets one
-- round for each package and one more. `for_each_memory_block` gets one round for each byte, and a
-- round takes four at least. All other loops are by structural recursion.
--
-- Not modelled: system calls (their results are arguments), threads below the granularity of one
-- operation in Trans but for the race of the senders for the window, what `_core.cancel_io` does
-- back to a udt that is in `_udt_bad_send` (Udt records that it was called), the wrap-around of
-- xids in the histories of a client, timers that are started twice, the closing of cores and
-- sockets, debug counters, byte order and strings of xdr, the bytes of RPC messages below their
-- fields, and the stubs of client and server themselves.
pub mod Base
pub mod Bitmap
pub mod Socket
pub mod Trans
pub mod Stream
pub mod Slice
pub mod Timers
pub mod Stubs
pub mod Udt
pub mod Archive
pub mod Serialize
pub mod Xdr
pub mod Rpc
pub mod Checks
