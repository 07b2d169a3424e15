-- ===== src/Lib.antt =====
-- A verification library for the programs of the systems programming labs.
--
-- Allocator (task05-memory/src/allocator.c). `Allocator.Heap` is the state: block headers at addresses,
-- the arenas' heads and tails, the payload bytes, and the counters. `Allocator.Ops` has the static
-- functions on one arena's list, `Allocator.Api` has `malloc`, `calloc`, `free`, `realloc` and
-- `get_thread_arena`. A command returns `none` where the C code would follow a pointer to no header.
-- `Allocator.Model` has what an arena stands for, a list of blocks, and the list functions `first_fit`,
-- `carve`, `absorb`, `merge` and `allocate`; `Allocator.Live`, `Layout` and `Sound` have the laws of these,
-- and `Allocator.Refine` ties the pointer code to them; `Resize` and `Refine.Resized` are about `realloc`. `first_hit` takes a bound on its rounds, and any
-- bound above the number of blocks is enough. `sbrk` and the outcome of `pthread_mutex_trylock` are
-- arguments (`Env`), and `Grows` says what is relied on of `sbrk`. Each call is one command, since the
-- arena's lock is held throughout; headers and payload bytes are kept in two maps.
--
-- MemFs (task02-fileio/src/inode.c, memfs.c and log.c). `MemFs.Inode` is the tree: the inodes in the order of
-- their allocation, each with the positions of its children; it has `find_child`, `find_by_path`,
-- `parse_parent`, `create_inode` and `collect_statfs`. `MemFs.Bytes` has the string functions that these
-- use. `MemFs.Calls` has the FUSE callbacks, each from the state, the arguments and the outcomes of the
-- allocations to a reply and the next state; a `memcpy` outside its buffer is the reply `fault`.
-- `append_log` is modelled by which entry it appends. `MemFs.Log` has the text of the entries and `load_log`,
-- with what `sscanf` does on digits without a sign; a line that writes past a buffer, or whose hex text is
-- too short, is not followed further. `MemFs.LogNumbers` and `MemFs.LogText` have the proofs. The name of
-- the log's file is not modelled.
-- `MemFs.Tree` has the invariant `IsTree`, `MemFs.Steps` the runs of callbacks, and `MemFs.Laws`,
-- `MemFs.Listing`,
-- `MemFs.ReadBack`, `MemFs.Write` and `MemFs.Effects` what callers see. Reads and writes are taken to end
-- below 2^64, and the count of a write is not narrowed to `int`.
--
-- LockHashMap (task04-concurrency/src/cspinlock.c and lockhashmap.c). `LockHashMap.Bucket` has what a thread
-- does on a bucket, one shared access at a time (`advance`): a round of the loop of `cspin_lock`, a round of
-- a traversal, a link or an unlink, and `cspin_unlock`. `LockHashMap.Exclusion` interleaves threads
-- (`schedule`), `LockHashMap.Runs` has the runs with the calls that have acted, and `LockHashMap.Spec` the
-- sequential specification. `LockHashMap.Table` has the calls by one thread on a whole table; `run` takes a
-- bound on the accesses, and three more than the bucket has nodes are enough. Memory is sequentially
-- consistent, which the acquire and release orders give under the lock; `free_hashmap` and `print_hashmap`
-- are not modelled.
--
-- LockFreeMap (task04-concurrency/src/lockfreehashmap.c). `LockFreeMap.Bucket` has what a thread does on a
-- bucket, one atomic operation at a time, weak exchanges that fail included; a node is its position in the
-- order of publication, since none is freed while the table is in use. `LockFreeMap.Chain` has the
-- invariant of the links, and `LockFreeMap.Runs` the interleavings. Operations are sequentially consistent
-- here; the table around the buckets, `free_hashmap` and `print_hashmap` are not modelled.
--
-- ExternalSort (task00-sort/src/sort.cpp). `ExternalSort.Order` has the order of the lines, `Files` the text
-- files and `fgetline`, `Queue` the priority queue, which takes one of the first nodes in the order, and
-- `Program` the functions `separate`, `merge` and `main` behind its options. `merge_loop` takes a bound on its
-- rounds, and one for each byte of the files is enough. `tmpfile` and the writes to its
-- files may fail (`Disk`); writing to the standard output is taken to succeed.
--
-- MemorySafety (task07-llvm/memory-safety/src/MemorySafetyRuntime.cpp). `MemorySafety.Runtime` has the
-- entry points on the map of blocks, a list in the order of the addresses; `Layout` has the blocks that lie
-- apart, and `Checks`, `Register` and `Free` what the entry points do to these. The pass that inserts the
-- calls is not modelled.
--
-- Shell (task03-processes/src/execute.c and main.c). `Shell.Descriptors` has the descriptor tables of the shell
-- and its children with `close`, `dup2` and what `execvp` keeps, `Shell.Execute` has `run_pipeline`, and
-- `Shell.Session` has `run_builtin`, `check_consistency` and the loop of `main`. The answers of the kernel are
-- arguments (`Kernel`, `Signals`). A new descriptor is taken to be none that is open, and `Works` says where
-- all calls of `pipe2` and `fork` are taken to succeed; `Overflow` is about the arrays, whatever they answer. The
-- parser is generated: what it read is the input of the loop. Freeing commands and the output for debugging
-- are not modelled.
--
-- Sockets (task06-sockets/src). `Sockets.Wire` has `send_msg` and `recv_msg` on the bytes of a connection,
-- `Sockets.Programs` has `handle_client` and `client_kernel`, and `Sockets.Worker` has a round of
-- `server_kernel`. Protobuf and how many bytes a call moves are arguments; `Framing` says what is relied on
-- (`IsReliable`), and when a size is moved in parts (`Split`).
-- The loops over a payload take its length as their bound, since each call moves a byte at least; `serve`
-- takes one call more than the client sends operations. Setting up sockets, `poll`, the threads and the loop
-- that accepts clients are not modelled.
--
-- DeadStores (task07-llvm/dead-code-elimination/src/DeadCodeElimination.cpp). `DeadStores.Pass` has
-- `eliminateDeadStores` on one basic block and one run through the block; loads and stores have a width and may
-- be volatile, and what other instructions do to the slots that they use is arbitrary. `Slot` is about one slot, `Block` about all. The rest of the pass asks the
-- LLVM library what is dead, and is not modelled.
--
-- The system call lab and the pass MemorySafety.cpp are not modelled.
pub mod Prelude
pub mod Allocator
pub mod MemFs
pub mod LockHashMap
pub mod LockFreeMap
pub mod ExternalSort
pub mod MemorySafety
pub mod Shell
pub mod Sockets
pub mod DeadStores
