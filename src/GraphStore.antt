-- ===== src/GraphStore.antt =====
-- crates/mmdb-graph/src/lib.rs: edges in two partitions, by their source and by their target, with a
-- dictionary of the labels. A `Ulid` is its number, a label is its bytes, and the fields of an edge
-- that the store only carries are `Details`.
pub mod Keys
pub mod Edges
pub mod Paired
pub mod Ranges
pub mod Incoming
pub mod Neighbours
mod Tests
