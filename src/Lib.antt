-- ===== src/Lib.antt =====
-- A model of boltdb-rs, a port of the key/value store Bolt to Rust, as far as its code is written.
--
-- The program. A database file is a sequence of pages. A page (src/common/page.rs) is a header of
-- 16 bytes followed by data: elements that point to keys and values, a free list of page ids, or
-- the meta struct (src/common/meta.rs) with a checksum. A bucket has a small header
-- (src/common/bucket.rs) that stands in the meta or in a value of a leaf page. In memory a page
-- becomes a node (src/node.rs), whose list of inodes (src/common/inode.rs) is searched, changed and
-- split; `Node::read` and `Node::write` go through `read_inode_from_page` and
-- `write_inode_to_page`. Errors are those of src/errors.rs. Databases, transactions and buckets
-- (src/db.rs, src/tx.rs, src/bucket.rs) are state so far, with handles to it: a transaction refers
-- weakly to its database, and a bucket to its transaction.
--
-- The files.
--   Base      shared names: lists over the native numbers, faults and the monad `Res`, fixed-width
--             arithmetic and little-endian words, bits.
--   Text      texts as codes of characters, and the templates of `format!`; Digits and Scan on
--             reading them back.
--   Memory    loads and stores of byte ranges in a buffer, arrays of records; Words tables of
--             words in it; Bytes and Apart the proofs about bytes and about places apart.
--   Shared    reference-counted allocations with strong and weak handles; Lifetime the steps that
--             threads may take with them.
--   Errors    BoltError, its texts and conversions (src/errors.rs); Errors/Texts on the texts.
--   InBucket  InBucket and load_bucket (src/common/bucket.rs, src/common/mod.rs).
--   Flags     PageFlags of src/common/page.rs, over the operations of the crate bitflags.
--   Page      the header, classification and checks; Elements, Branch and Leaf the elements;
--             Freelist the ids of a free list; Size `byte_size`, `as_slice` and OwnedPage; Info
--             PageInfo; Show the texts; Inline the casts `load_page` and `inline_page`; Getters
--             the getters of the header. Arrays is the interface of the arrays in a page, with
--             those of the code in its children. Layout, Load, Store, Access, Owned, Copies,
--             FreelistIds, BucketEntry and Typing hold the proofs.
--   PgIds     the struct PgIds of src/common/page.rs; Sets its abstract view; Sorting,
--             Merge and Draining the proofs.
--   Meta      src/common/meta.rs; Fields the getters and setters; Show its text and that of
--             InBucket; Layout, Write and Copy the proofs.
--   Storage   the stores into a page of src/common/page.rs and src/common/meta.rs as steps; Tables the
--             structs as tables of words, Images what the steps do to the bytes of a page; Puts,
--             Codecs, Keeping, Invariant, Loads and Corruption the proofs.
--   Inode     src/common/inode.rs; Fields the getters and setters of an inode; Codec the transfer
--             from and to pages; Keys, Search, Scan, Insertion, Reading and Lookup the proofs.
--   Node      src/node.rs: the node, its sizes, `put`, `del`, `remove_child`; Pages `read` and
--             `write`; Split the split; Tree the links between nodes. Upsert, Put, SplitIndex,
--             SplitNodes, Siblings, Children and parts of the others hold the proofs; History is
--             about sequences of calls on one node, Handles about calls on many nodes in turn.
--   Bucket    src/bucket.rs.
--   Tx        src/tx.rs: the state of a transaction; Weak the handles Tx and WeakTx.
--   Db        src/db.rs: the state of a database; Weak the handles DB and WeakDB.
--   Pointers  the pointer helpers of src/common/mod.rs.
--   Limits    the constants of src/common/types.rs and src/os.rs.
--   UnitTests the tests in src/common/page.rs (Pages), src/lib.rs (Root), src/common/meta.rs and
--             src/common/types.rs; Passing runs of them.
--   Tests     runs at concrete inputs.
-- A definition has the name of the function that it models, and a method takes its receiver last.
-- A `&mut self` method returns the changed receiver.
--
-- Memory. A reference to a page is the record `Page`: its address, the fields of its header, and
-- `body`, the bytes behind the header up to the end of the buffer. The code reads and writes these
-- bytes through casts, so loads and stores beyond the buffer, and references at addresses that are
-- not aligned, are undefined behaviour there. They are the faults `wild_read`, `wild_write` and
-- `misaligned` here. The panics (assertions, indexing, unwrap, todo!, explicit ones, overflow) are
-- faults of their own. `out_of_fuel` stands for no behaviour of the code. Words are little-endian
-- and the structs of pages and metas have the layout of `repr(C)`; the two words of an InBucket,
-- which has no such attribute, are taken in the order of their declaration. A method of an element
-- reads memory relative to the element, so it takes the offset of the element in the page.
-- A store through a `..._mut` reference to an element, an id, a byte or a meta is one function.
--
-- Numbers. A machine integer is a native number with its bound where a statement needs it.
-- Arithmetic on u32 and u64 fields takes a `Build`: `debug` panics on overflow, `release` wraps.
-- Sums of usize lengths of live vectors are exact, since such vectors fit in memory. Casts to a
-- narrower type are written with `%`.
--
-- Parameters. `Bitflags` is the test `contains` of the crate bitflags, with the documented meaning
-- that all bits are present. `Hasher` is the hash of the crate fnv as a function from bytes into
-- u64. `Float64` is what `split_two` uses of f64. Sorting, removal of equal neighbours, and binary
-- search of the standard library are written out. The binary search is a loop that halves the range
-- and stops at an equal key, as the library had it for years; its documentation leaves open which
-- of several equal keys is found, and what is answered on a list that is not sorted, so there
-- another version of the library may answer otherwise.
--
-- Fuel. The binary search has one round more than there are inodes. `Node::root` follows parents
-- and needs one round more than there are steps up to the top. `Node::split` has fuel for the nodes
-- that it makes, of which the present code makes none. Other loops run over a list or count down.
--
-- Nodes. A `Node` is a reference-counted handle, a `WeakNode` one that may be dead: `Heap` maps an
-- address to the node there, if it is alive. Nodes::retain compares the addresses of handles in
-- their vector, which are 8 bytes apart.
--
-- Cells. The fields of a node stand in `RefCell`s, which panic when a mutable borrow meets another
-- one. The methods keep a borrow for one statement, and `put` one of the inodes for its own work on
-- them, so none meets another of the same method. What a caller passes to `put` is taken not to be
-- borrowed from the node's own inodes. `remove_child` takes the number of the live borrows of the
-- list of children, since the handle that it is given may lie in that list.
--
-- Handles. An `Arc` is an address with a count of its strong handles; weak handles do not keep a
-- value alive, and their number is not kept. Handles are dropped where Rust drops them, so the
-- steps of Shared/Lifetime may drop any that is held, at any time. The count does not overflow,
-- since each handle takes memory.
--
-- Texts. A text is the list of the codes of its characters. `{}` of a number is decimal, `{:0x}`
-- hexadecimal without and `{:0…x}` with zeros in front up to a width.
--
-- Not modelled: locks, which no code takes yet; the rest of src/lib.rs, which declares the modules;
-- src/cursor.rs and src/freelist.rs, which are empty; output on the console.
pub mod Base
pub mod Text
pub mod Memory
pub mod Shared
pub mod Errors
pub mod InBucket
pub mod Flags
pub mod Page
pub mod PgIds
pub mod Meta
pub mod Storage
pub mod Inode
pub mod Node
pub mod Bucket
pub mod Tx
pub mod Db
pub mod Limits
pub mod Pointers
pub mod UnitTests
pub mod Tests
