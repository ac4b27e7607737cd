-- ===== src/Lib.antt =====
-- A verification library for warp_cache, a cache for Python functions whose core is written in Rust.
--
-- The program has two backends. The in-process one (src/store.rs, src/key.rs, src/entry.rs) keeps
-- Python objects in shards, each a hash map and a queue of keys under SIEVE eviction. The shared one
-- (src/shm/, src/serde.rs, src/shared_store.rs) keeps serialized keys and values in a memory-mapped
-- region: a header, an open-addressing hash table, and a slab of slots in an eviction list.
--
-- - Base: Boolean tests on the native numbers, lists, memory as a function of an index, powers of
--   two, and bit masks as remainders.
-- - Shm.Layout (src/shm/layout.rs): the structures in shared memory and the offsets of the areas.
-- - Shm.HashTable (src/shm/hashtable.rs): `ht_lookup`, `ht_insert`, `ht_remove`, `ht_clear`. A table
--   is a function from bucket indices. Ring has the distances around the table, Probe the probe loop,
--   Insert and Remove the two changes, Laws the promises. The probe loops run over the capacity, as
--   in the source; the shift loop of `ht_remove`, a plain `loop`, runs on as many rounds as the
--   table has buckets, and comes to an empty bucket within them when there is one.
-- - Shm.Region (src/shm/region.rs): `ShmRegion::create`, `open_paths`, `create_or_open`, on the
--   contents of the two files; Fresh has what they give. Dir has `ensure_secure_dir` on what stands at
--   the path. Start is `create_or_open` in many processes at once: the advisory lock of the `.init`
--   file, and the writes of `create` that others could see, as steps; Once is about all processes
--   together, Filling about the one that fills the table, Half about what the others find when it dies.
-- - Shm.Ordering (src/shm/ordering.rs): `list_remove`, `list_push_tail` and `sieve_evict` on the
--   slots. List reads the links as a sequence of slot indices, Members says what it takes to put an
--   index on a sequence or off it, Unlink has `list_remove`, Frame what the three leave alone, Sieve
--   the SIEVE policy on a sequence, beside which the scan of `sieve_evict` is put. The scan makes twice
--   as many rounds as there are slots, and one round more than the list has slots finds a victim.
-- - Shm.Cache (src/shm/mod.rs): `ShmCache`. A region is its header, its buckets and its slots. What runs
--   under the write lock is one function, a read is its validated lookup and its end, and the time of the
--   clock is an argument. Table ties the hash table to the slots on the list, Invariant is what a
--   well-formed cache is: every slot is on the eviction list, on the free list or in the hands of the
--   operation. Stages and Entries are the steps the operations are made of; Allocate, Insert, Remove,
--   Lookup, Get and Clear are the operations, Finish the end of a read after a lookup of any earlier time,
--   Fetch an insertion and a read, History all of them in any order. `none` stands for a shift loop of
--   `ht_remove` that does not end.
-- - Shm.Lock (src/shm/lock.rs): the seqlock as a step relation, one access to shared memory at a time by
--   any thread of any process, over any words that it protects. Invariant is about the first 2^64
--   steps, since a wrapped 64-bit counter would look unchanged to a reader; Safety and Atomic have the
--   promises to readers and to writers.
-- - Shm.Optimistic (src/shm/mod.rs): `get_optimistic` as a program of single loads from the mapped memory,
--   at the offsets of the fields. Eval runs it on memory that stays as it is, Linear between the steps of
--   Shm.Lock while others write, Solo undisturbed; Agrees compares regions inside the areas of the file, and
--   Sections puts reader, lock and cache together, with one operation in each critical section.
-- - Serde (src/serde.rs): the tagged format. Words has the little-endian words, Format the format
--   as a function of the value, Encode and Decode the two directions, RoundTrip both together.
--   Reading runs on a unit of fuel for each byte of the input, and every level of nested tuples
--   takes two bytes. The UTF-8 codec is a parameter.
-- - Store (src/store.rs): Map is a shard's map as an association list, with Python's rich comparison
--   of keys as a parameter that may raise; Seq the queue, Shard the operations on a shard, Invariant
--   what a well-formed shard is, Scan the rounds of the eviction loop, Evict the loop, Room the
--   insertion, Function the methods of `CachedFunction`, with Sharding, Laws, Calls, Whole, Info
--   and Pending; Order is about the length of the queue, Raised about an insertion while a Python exception
--   is pending. Guard has the reentrancy guards of both builds as steps of entrants, and Keys
--   (src/key.rs, src/store.rs) how arguments become keys, the comparison with an exception that may be
--   pending, the hasher (Hasher), and the methods from their arguments on. That Python's == is an equivalence
--   on all objects that never raises is a hypothesis (`IsEquality`) of the theorems that name it; Raised, Pending
--   and `find-get` are about comparisons that raise. The loop of `evict_one` runs on twice the length of the queue and two more, since a round shortens the queue or counts one pass,
--   and counts at most one more than the length; the loop around it on one more than the length of
--   the queue, since each eviction shortens it. A method takes the time of the clock as an argument.
-- - SharedStore (src/shared_store.rs): the methods of `SharedCachedFunction` on Shm.Cache and Serde, with
--   pickle, `sorted` and the hash of bytes as parameters. Bytes takes a value to bytes and back, Invariant
--   is a well-formed function, Memo has calls in a row, Ends the ends of calls, Oversize the size limits.
--   The wrapped function is its effect on the cache, which it may call itself, and its result.
-- - Tests: concrete runs and concrete uses of the theorems.
--
-- A map probe in `Store.Map` compares with every key in turn and stops at the first exception; the
-- hash map of the program compares only keys of equal hash, which `key_eq` accounts for.
--
-- Not modelled: the memory orderings of the atomics in the seqlock, whose model is sequentially
-- consistent; the visited bits and counters that readers store without the lock are not among the words
-- of Sections, whose processes write under the lock alone; in SharedStore, operations of other processes
-- in the middle of a method; the name of the shared file, the errors of mmap and of file operations
-- behind the directory; the read-write locks of free-threaded builds and reference counts of the
-- in-process store, whose methods are taken one at a time, with calls from inside the wrapped function as its effect on the cache; an exception raised in
-- the middle of an eviction, which the model does not carry to the comparisons after it; the stub
-- for platforms without shared memory (src/shared_store_stub.rs), which only raises; the Python wrapper.
pub mod Base
pub mod Shm
pub mod Serde
pub mod Store
pub mod SharedStore
pub mod Tests
