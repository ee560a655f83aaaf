-- ===== src/Lib.antt =====
-- rart: an adaptive radix tree, an ordered map from byte strings to values (rart/src).
--
-- The tree (rart/src/tree.rs) holds an optional root node and a count. A node (rart/src/node.rs)
-- has a compressed prefix, an optional value, and its children behind one mapping of four sizes
-- (rart/src/mapping). Keys and prefixes are byte strings (rart/src/keys, rart/src/partials).
-- An operation walks down by comparing the prefix of a node with the rest of the key, and follows
-- the child whose edge is the next byte.
--
--   Prelude       native numbers, lists and tests; `Run`, a result or a panic
--   Words         prefix_length_bytes (rart/src/partials/mod.rs), word by word; a u64 is its eight
--                 bytes, the lowest first, as a little-endian machine reads them
--   Partials      VectorKey and VectorPartial; Partials/Laws: what the common length and `strip` say
--                 of each other
--   Keys          the traits KeyTrait and Partial as records of operations with laws that tie them to
--                 Partials (Keys/Interface), and the implementations: Keys/ArrayKey and ArrayPrefix,
--                 Keys/OverflowKey and OverflowPrefix, Keys/VectorKey; Keys/Builder:
--                 OverflowKeyBuilder; Keys/Numbers and Text: keys of integers and of texts;
--                 Keys/Join: what any key type with the laws gives its clients; Keys/Cuts: cutting and
--                 joining array keys and keys with overflow storage
--   Mapping       BitArray (rart/src/utils/bitarray.rs), DirectMapping and IndexedMapping: storage with
--                 bits apart from it, read as a list of slots; Mapping/Positions: the searches
--                 in sorted keys (rart/src/utils/u8_keys.rs)
--   Node          DefaultNode: a prefix, a value, a kind (the tag of `Content`) and the children in
--                 the order of their edges; seek_child, add_child, delete_child, grow, shrink
--   Node/Valid    the invariant of nodes; Node/Children, Node/Deletion, Node/Change: that adding,
--                 deleting and changing children keep it; Node/Removal: what a node reads after a
--                 child is deleted; Node/Lookup: the map a node stands for
--   Tree          get_k, insert_k, try_insert_k and insert_recurse; Tree/Remove: remove_k, delete_k
--                 and remove_recurse
--   Tree/Update   update_k, try_update_k and the recursion below them, once for both of its copies in
--                 the source, with a flag for the rollback; Tree/Update/Answers: what the callback
--                 asks for; Tree/Update/Laws: updates as changes of the map
--   Tree/Search   longest_prefix_match_k, longest_prefix_value_k, find_prefix_subtree and, in
--                 Tree/Search/Unkeyed and View, find_prefix_subtree_node and _view, with
--                 LendingKeyView of iter.rs; Tree/Search/Visits: prefix_match_for_each_k, the calls
--                 of its callback as a list
--   Iter          iter, prefix_iter_k and range (rart/src/iter.rs, rart/src/range.rs): the stack of frames,
--                 each a depth and the children that are left; Iter/State: what a state has left to yield
--                 and the rounds that takes; Iter/Rounds, Iter/Yields: the loops; Iter/Entries, Iter/Find,
--                 Iter/Sorted: the entries of a node as an ascending list; Iter/Order, Iter/Bounds,
--                 Iter/Filters: the bounds of a range; Iter/Position, Iter/Starts: where a range starts
--   Iter/Lending  for_each_view, prefix_for_each_view_k and, in Iter/Lending/Bounded,
--                 for_each_range_view: the calls of the callback as a list; Iter/Lending/Segments and
--                 Order: cmp_slice; Iter/Lending/Left, Visits, Laws, Trees: what the visits lend;
--                 Iter/Lending/First, Ends, Cover, Ranges: what the visits between two bounds lend;
--                 Iter/Lending/Past, UpTo: those with an end only
--   Tree/Get, Tree/Laws, Tree/Remove/Map, Tree/History: the operations as operations on a map
--   Versioned     the tree with snapshots (rart/src/versioned_tree.rs): get_k, snapshot, insert_k and
--                 insert_and_replace_k; Versioned/Remove: remove_k and delete_k;
--                 Versioned/Update: update_k; Versioned/Plain: the node of Node that a versioned one
--                 is without its versions; Versioned/Laws, Versioned/Remove/Laws and
--                 Versioned/Update/Laws: the operations as operations on a map
--   Tests         small trees, and the theorems applied to them
--
-- A function that changes a node in place returns the new node. A panic (an index out of range, an
-- `unwrap` of nothing, an `unreachable!`, a debug assertion) is the value `panic`. Every recursion
-- is structural, in the node, the byte string or a count of rounds, but for the binary search,
-- which takes one round of fuel more than there are keys and is proved not to run out of it, and
-- the loops of the iterators, for which one round for each node, each end of a node's children and
-- each value is enough. Sizes are natural numbers, and versions too, but for the count and the
-- positions of IndexedMapping, which are bytes: no length comes near the width of usize, nor a
-- count of operations near that of u64.
--
-- The tree works on byte strings, to which the laws of Keys tie the three key types. Of the tree the
-- longest match that lends segments, the iterators over values and over stored prefixes,
-- intersection, bulk loading and the statistics are not modelled. Of the versioned tree insertion,
-- removal, lookup and update_k are modelled, and get_mut_k, try_update_k, searches, iteration and the
-- conversion to a plain tree are not. A node behind an `Arc` is a value, and whether other handles to
-- it exist is a parameter: a node that is owned alone is changed in place where a shared one is
-- copied, and the value is the same. The nodes use their children as the list of edges in ascending
-- order, as the sorted mapping keeps them; that mapping's arrays, the search with `simd_keys`, and
-- the conversions between the mappings are not modelled.
pub mod Prelude
pub mod Partials
pub mod Words
pub mod Mapping
pub mod Node
pub mod Tree
pub mod Versioned
pub mod Tests
pub mod Iter
pub mod Keys
