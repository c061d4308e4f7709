-- ===== src/Lib.antt =====
-- DeepSpecDB: a database in C, with its B+ tree relations, indexes and memory management.
--
-- The parts and the files that model them:
-- - Base: what all parts share. Boolean tests, lists over the native numbers, failure as `none`,
--   C arrays with their copying loops.
-- - Relation: verif/btrees/relation_mem.c, the relation that stores records under keys of type
--   size_t. A node is typed by its height, a cursor is its `ancestorsIdx`. Relation/Search has
--   findChildIndex, findRecordIndex, moveToKey and goToKey; Relation/Moves has moveToFirst,
--   moveToLast, moveToNext and moveToPrev; Relation/Split has splitnode; Relation/Put has
--   putEntry; Relation/Api has the RL_ functions. Relation/Contents and Relation/Refines hold
--   the specification: a sorted list of records and a number of records before the cursor.
--   Relation/Order has the representation invariant, Relation/Position what it means for a
--   cursor to stand in the tree.
-- - SearchTree: concurrency/bst_conc.c, the binary search tree, as what insert, lookup and
--   delete of one thread do to it.
-- - IntHash: tuplekey/inthash.c, and StringList: src/low level algos (Pablo)/stringlist.c, the
--   two tables that an index is made of. A table maps keys to pointers, where `none` is NULL.
-- - Fifo: the queue of `src/low level algos (Pablo)/queue2.c`, over a heap of linked elements.
-- - Malloc: memmgr/malloc.c, whose bins are free lists in blocks that come from mmap0.
-- - IntIndex: src/btrees and tries (Adewale)/index_int.c, the index over integers, and the range
--   query of relapps.c beside it, both clients of Relation/Api.
-- - BorderNode: src/btrees and tries (Adewale)/bordernode.c, the node of the key-value store
--   that holds the keys of one slice, with the string comparison of util.c.
-- - Schema: tuplekey/index.c, the interface of an index as a record of methods and the laws of a
--   map, with inthash_schema.c and stringlist_schema.c in Schema/Tables and tuple_schema.c in
--   Schema/Pair.
-- - KeySlice: the permutations of src/btrees and tries (Adewale)/permuter.c, and the key slices
--   and the binary search of util.c.
-- - KvStore: src/btrees and tries (Adewale)/kvstore.c, the trie of relations with KV_Put and
--   KV_Get, a client of Relation/Api, BorderNode and KeySlice. Its nodes and border nodes stand
--   in lists, at the indexes that stand for pointers. KvStore/Directory is what it relies on of
--   a relation, KvStore/Spec the representation invariant and what the store holds, KvStore/Paths
--   the border nodes on a key's way, the other modules the cases of KV_Put.
-- - LockedTree: concurrency/bst_conc.c again, with the locks: insert and lookup of any number of
--   threads, whose turns between two calls of acquire and release2 (concurrency/threads.c)
--   interleave in any order. LockedTree/Searches is what a search passes and finds,
--   LockedTree/Writes how insert changes that, LockedTree/Invariant who has which lock,
--   LockedTree/Atomic the map on which calls are performed one at a time.
-- - Operators: src/low level algos (Pablo)/db_operations_light.c, with iterators as an interface
--   that materialize and the index join use. The sequential scan is a client of Relation/Api,
--   materialize of Fifo, and Operators/Join of Schema and Fifo. Operators/Columns is get_offset
--   and get_projection, Operators/Scan the scan, Operators/Matches and Operators/Nested what the
--   join returns.
-- - StringBag: src/btrees and tries (Adewale)/stringbag.c, strings behind a header in one piece of
--   memory, whose bytes the model has. StringBag/Words reads and writes the words of the header,
--   StringBag/Spec has the representation invariant.
-- - Tests: concrete inputs, and the theorems applied to them.
--
-- How the C code is read. Numbers of type size_t are natural numbers below 2^64. The sums of sizes
-- in StringBag are taken modulo 2^64, and an int sum of the binary search that reaches 2^31 is a
-- fault. Counts of records, keys and tuples and the lengths of strings are not wrapped, as memory
-- bounds them; keys are only compared, and the sizes in bins stay below that of a big block; the
-- size that malloc_large hands to mmap0 is not modelled. Keys of type int stand for their distance
-- from INT_MIN. A failed assert, a read or write outside of an array, and an access through NULL
-- are `none`; the array of the range query is the number of its elements, and the memory of a
-- string bag has a byte at every offset, of which the invariant of a bag tells the used ones. The
-- recursive functions of the source descend in a tree, so that the model recurs on the height or
-- on the tree and needs no fuel; loops over arrays and lists recur on a length or on the list. The
-- loops of IntIndex take fuel, of which one step more than there are records is enough, and so
-- does the binary search, where it is one more than the range has elements. The loop of KV_Put
-- takes as many turns as the key has characters and one more at most, since all but one of the
-- turns drop a slice of a key longer than a slice. The loops of materialize and of the index join
-- take fuel, of which one step more than there are tuples is enough. surely_malloc does not return
-- when memory is out. The depth of a relation is not bounded by MAX_TREE_DEPTH: each level below
-- the root has at least eight children per node, so that a deeper tree would need more than 2^57
-- nodes. numRecords and keys count in size_t. In moveToPrev the entry with index -1 is read as
-- ptr0, which the layout of the struct puts there.
--
-- Not modelled: the deletion of records, which relation_mem.c leaves out, freeing and printing,
-- several cursors on one relation, delete among the threads, more than one call of a thread
-- (another call is another thread), the string index and the building of the index for a join. A
-- lock is what the mutex of the thread library is said to be: one thread at a time has it, and
-- another one waits.
pub mod Base
pub mod Relation
pub mod SearchTree
pub mod IntHash
pub mod StringList
pub mod Fifo
pub mod Malloc
pub mod BorderNode
pub mod IntIndex
pub mod KeySlice
pub mod KvStore
pub mod LockedTree
pub mod Operators
pub mod Schema
pub mod StringBag
pub mod Tests
