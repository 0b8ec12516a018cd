-- ===== src/Lib.antt =====
-- Verification of abdb, a relational database in Rust: its index B-tree from the page overlays up to
-- the accessor, the page directory with its pages, the buffer pool over the disk manager and the
-- eviction policy, the values and the layout of tuples, their visibility, and the page allocator.
--
-- Parts of the program and the modules that model them:
-- - PageType: src/page/header.rs, the page types and the header that every page starts with.
-- - Slots: the sorted array of entries that the overlays of src/page/overlays share: `find_slot` and
--   `find_child` (the two binary searches, on the u16 indices of the code), the shifts of
--   `insert_entry` and `delete_entry`. Its children have the lemmas on the array as a map
--   (Search, Shift, Order, Assoc, Ops) and as a function from keys to children (Route, Reroute, Cut).
-- - Index/Leaf, Index/Inner: src/page/overlays/index/btree_leaf.rs and btree_inner.rs, operation by
--   operation under their names. A page is the record of what the zerocopy casts read: the two
--   headers and the array of all entries, live or not. Leaf/Contents and Inner/Routing
--   look at the leaf as a map from keys to record ids and at the inner page as a function from keys
--   to children.
-- - Directory/Leaf, Directory/Inner: src/page/overlays/directory/leaf.rs and inner.rs, in the same
--   way, with the theorems in Leaf/Places and Inner/Routing.
-- - Btree: src/accessor/btree.rs. The state (Btree.Index) holds the pages by their ids, the marks that
--   `mark_dirty` sets, the root of the file header and the next page id; an operation is a function
--   from a state to a result and a state. Traverse has the three descents, Collect and Split the
--   splits, Insert and Delete the operations (with `get`), ScanLeaf and Scan the stream, Keys the
--   conversion of keys. The theorems are in Descent, Refill, Split/Halves, Split/Leaves,
--   Split/Separators, Split/Inners, Lookup, Removal, Emptiness, Growth, Scan/Chain and
--   Scan/EndBound. Within an operation a page stays as it was changed, as if its frame stayed;
--   Eviction has what the pool does between operations: an evicted page that is marked is written
--   back, and one that is not is loaded from disk again, so that a change without a mark is lost.
-- - Bytes, Visibility: src/accessor/visibility.rs and src/common/txn.rs, on tuples as bytes.
-- - Evictor: src/buffer/evictor/lruk_evictor.rs. The map of frames is the list of its entries in any
--   order. Victim is about what `find_victim` takes, History about sequences of calls, Unread about
--   frames that are never read.
-- - Disk: src/storage/disk.rs. The state holds the page directory as the map that it stands for, the
--   allocator, the next page id, and the files as what is read at a place, with the places where a
--   write fails.
-- - Pool: src/buffer/impl/buffer_pool.rs and guard.rs, the frames and maps of the pool over Disk and
--   Evictor: the state, pins and eviction here, the fetches and new pages in Pool/Fetch,
--   `flush_all_dirty` in Pool/Flush. An operation is a function from a state to a result and a state
--   (Stateful), and what it changed stays changed where it fails. Pool/Valid says when a pool is in
--   order and what a page holds (`view`); the theorems are in Policy, Pins, Erase, Evict, Load,
--   Transparent, Write, Clean, Durable, Failure and Start.
-- - PageDirectory: src/storage/directory/directory.rs, the cache, the dirty set and the file of
--   BTreePageDirectory, with the descents in Tree, the splits in Splits and the operations in
--   Entries. A page is seen (`page_at`) in the cache or else on file. The theorems are in Reads,
--   Changes, Operations, Flushes and Reopen.
-- - Databox: src/databox/databox.rs, types and values, with casts, bytes and order in Values and
--   theorems in Codec; Databox/Layout: src/databox/layout.rs, with theorems in Order, Offsets, Fields
--   and RoundTrip. Integers are bit patterns, and so are floats.
-- - Heap: src/page/overlays/table/heap_page.rs, a page as its bytes. Windows says what a write
--   leaves of the other bytes, Reads when a page is valid, Store what the writes of an insertion add
--   up to; the theorems are in Insertion, Deletion and Start.
-- - HeapAccessor: src/accessor/heap.rs, the pages of a heap file by their ids, with `insert`, `get` and
--   `delete`, and the stream of a scan in Scan. Reading, Search and Insertion say who reads a tuple that
--   was inserted, Fresh what a page is that an insertion adds.
-- - Common: src/common/aliases.rs and constants.rs.
-- - Allocator: src/storage/allocator/allocator.rs.
-- - Base: shared names, tests, lists, and the results of fallible code, in which a panic is a value
--   of its own. Tests: test data and the theorems at concrete inputs.
--
-- Bounds and fuel. Numbers are natural numbers, with the wrap-around of u16, u32 and u64 written out
-- where the code adds, as in a release build. The searches run on fuel one more than the number of
-- entries, of which every round leaves fewer. The descents run on a fuel given by the caller, which
-- has to exceed the inner pages of the path; a poll of the scan runs on one more than the leaves of
-- the chain. The loop of an eviction takes one round on a valid pool, as its victims are not pinned,
-- and the loop of a fetch two, the second after an eviction.
--
-- Not modelled: concurrency (the latches are a list of the pages that a descent keeps, and one
-- operation runs at a time), the buffer pool as the index B-tree calls it, behind pages, marks and
-- next id (of its failures only that of a fetch, not those of the file header or of a new page; no
-- frame is evicted while an operation of the index runs), the pool as the heap calls it, behind pages,
-- marks, next id and the requests that it refuses (a fetch of a page of the list fails just if there
-- is no such page), the opening of files, reads that fail half done, the padding of pages, messages
-- of errors. The code does not check a page's type after a descent; here the reading of a page through the overlay of another type is the error `wrong_overlay`. The binary search of
-- the standard library, which a split uses, is taken by its documentation. Casts of floats, their
-- comparison, the text of a value and the decoding of UTF-8 are parameters of the values
-- (Databox.Primitives). The catalog, the transaction manager, the parser, the binder, the
-- planner and optimizer, and the server are left out so far.
pub mod Base
pub mod Common
pub mod Stateful
pub mod PageType
pub mod Bytes
pub mod Slots
pub mod Index
pub mod Directory
pub mod Btree
pub mod Visibility
pub mod Evictor
pub mod Allocator
pub mod Disk
pub mod Pool
pub mod PageDirectory
pub mod Databox
pub mod Heap
pub mod HeapAccessor
pub mod Tests
