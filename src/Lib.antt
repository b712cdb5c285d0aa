-- ===== src/Lib.antt =====
-- OctoBase keeps documents that several clients edit at once and synchronises them. This library
-- models the binary codec, the sets of clocks, values, items and updates, the struct store, the
-- awareness store and the sync protocol of the crate libs/jwst-codec, on which the stores and the servers of the repository stand.
--
-- The parts, and where they stand (paths below libs/jwst-codec/src):
--   Crates            the calls into `nom` and `byteorder`: a record of functions with their
--                     documented behaviour, a parameter of all that uses them; and the size
--                     of a value in memory, which a map of `ahash` decides
--   Codec/Integer     codec/integer.rs: variable-length u64 and i32
--   Codec/Utf8        `String::from_utf8`; a string is the list of its bytes
--   Codec/Buffer      codec/buffer.rs, codec/string.rs
--   Doc/Error         `JwstCodecError` of lib.rs, and panics
--   Doc/Client        doc/codec/id.rs, and `ClientMap` of doc/hasher.rs
--   Doc/Io            doc/codec/io: `RawDecoder` as the state of a reader, `RawEncoder` as the bytes
--                     written so far
--   Doc/OrderRange    doc/common/range.rs; `VecDeque::binary_search_by` is the parameter BinarySearch
--   Doc/StateVector   doc/common/state.rs
--   Doc/DeleteSet     doc/codec/delete_set.rs
--   Doc/Awareness     doc/awareness.rs
--   Doc/ItemFlag      doc/codec/item_flag.rs
--   Doc/YType         the kinds of types of doc/types/mod.rs
--   Doc/Any           doc/codec/any.rs
--   Doc/Content       doc/codec/content.rs; `serde_json` is the parameter Json
--   Doc/Item          doc/codec/item.rs
--   Doc/Node          doc/codec/refs.rs
--   Doc/Update        doc/codec/update.rs: Merge for the merge, Next for the iterator over the nodes,
--                     Deletes for the one over the deletes; `merge_updates_v1` of doc/utils.rs
--   Doc/Store         doc/store.rs: the clocks of the nodes and the search; Diff is what another
--                     document is told, Links the items and types as what ids and keys point to, Split,
--                     Repair, Integrate and Delete the operations of these names, with `Node::head` of
--                     doc/codec/refs.rs
--   Doc/Document      doc/document.rs: updates are applied and encoded
--   Protocol/Awareness, Message, Scanner, Encode
--                     protocol/awareness.rs, protocol/doc.rs and sync.rs, protocol/scanner.rs, and
--                     the encoders of doc/utils.rs
--   Runs              the theorems at concrete inputs, with an implementation of the parameters
-- A function of the source keeps its name. A method takes `self` first and returns what it leaves of
-- it; `read` and `write` of CrdtRead and CrdtWrite are the functions `read` and `write` of the type's
-- module; `merge` of a delete set is `merge_into`, `get` of a state vector is `get_clock`, and `not`
-- of the item flags is `check_not`. Where a loop or a match is a function of its own, its comment
-- says which it is. `Id` is `ItemId`. An operation of an item or a node that several
-- types have carries the type's name: `item_len`, `node_len`.
--
-- How the parts interact: the readers of Codec take the unread bytes and return what is left. A
-- decoder of Doc/Io runs them at its cursor, and the readers of Doc are built from the decoder's. The
-- messages of Protocol use Codec directly and carry the states of Protocol/Awareness, which
-- Doc/Awareness merges. A delete set maps each client to the ranges of Doc/OrderRange. An
-- update maps each client to nodes, the UpdateIterator hands out those that a state can take, and the
-- store keeps the nodes of a client in the order of their clocks. A document repairs each node of an
-- update, which splits the items that it was put between, and integrates it, which changes the links of
-- its neighbours and the state of its parent; then it deletes what the DeleteSetIterator hands out.
--
-- Conventions: numbers are natural numbers, and u64 arithmetic wraps at 2 ^ 64 as in a release build,
-- with a 64-bit usize. A writer is taken at `Vec<u8>`, where writing does not fail, and appends to the
-- bytes that it is given. Floats and i64 are bit patterns. A HashMap is an association list in the
-- order in which it is iterated, and a theorem on a map asks only that no key stands twice. A panic is
-- `panicked`, or `none` in the operations on ranges and the merge of updates. An item that another
-- refers to is known by its id, which is also what the source compares items by, and a change through a
-- reference is a change of the item of that id in the store; a shared type is known by its item or its
-- name. The state that a failed call leaves is not described. `debug!` and `debug_assert!` are left out, and an
-- allocation succeeds unless its size is past the limit of the type.
--
-- Loops: the readers' loops are recursion on the input, the writers' loops recursion on the
-- accessibility of the number, which shrinks, and the others recursion on the list or the number that
-- the loop counts. Some loops are on
-- fuel: a value has the number of unread bytes, as each level of nesting reads one; the binary search
-- has the number of nodes and two, as each round leaves out one node; the iterators of an update take
-- theirs as an argument, and the theorem on each says how much is enough; so do the loop over the
-- conflicting items and the walk along left links. The deletion of children and the loops of a document take
-- theirs as an argument too, and `none` is fuel that ran out. `take_items` asks for a number
-- of items, and the theorem on it holds for any number above that of the messages.
--
-- Not modelled: the conversions of values;
-- of the store the optimisation and `create_item`; the operations of the shared
-- types, the options, the history and the publisher of documents; the interleavings of threads; workspaces, storage,
-- network, bindings, servers and clients, which are outside this crate.
pub mod Base
pub mod Crates
pub mod Codec
pub mod Doc
pub mod Protocol
pub mod Runs
