-- ===== src/Lib.antt =====
-- Parts of mmdb: the query engine, crates/mmdb-query, with the errors and the node kinds that it takes
-- from crates/mmdb-core; and of the stores under it the store of application state,
-- crates/mmdb/src/state.rs, the access counters, crates/mmdb/src/access.rs, the edges of the graph
-- store, crates/mmdb-graph, and the keys of the node partitions, crates/mmdb-storage/src/keys.rs.
--
-- A query is a logical plan: a tree of scans, vector searches, graph expansions, filters, scores,
-- limits, joins, aggregates, projections and user-defined functions. A builder makes plans, the
-- optimizer rewrites them by statistics, and the in-memory executor evaluates them, at once or through
-- operators that deliver batches; an explanation reports names, estimates and actual rows.
--
-- Ir, Stats: crates/mmdb-query/src/ir.rs. The enums and structs keep their names and the order of
--   their variants, by which the derived `Ord` compares. A `Vec<Predicate>` within a predicate is the
--   data type `Predicates`. `Platform` stands for `f32` and for the derived `Debug` text of a literal:
--   operations with no law assumed.
-- Errors: crates/mmdb-core/src/error.rs. Words: saturating and wrapping 64-bit arithmetic.
-- Eval: crates/mmdb-query/src/eval.rs, on a row. A `BTreeMap` is a sorted association list with the
--   comparison of its keys, a stable sort is insertion sort. Eval/Newest: the order by creation.
--   Eval/Groups: the counts of an aggregation. Stats/Totals: those of a histogram.
-- Executor: `Executor::execute` and its helpers of crates/mmdb-query/src/executor.rs. The state of the
--   breadth-first loop is the record `Expansion`. The loop runs on fuel, two more than there are edges.
--   Executor/Walk: the rounds. Executor/Expand, Complete: the rows. Executor/NodeIds,
--   Lookup: the nodes by id.
--   Executor/Trace, Account: the ids seen, and what the rounds keep of them.
-- Operator: `Executor::compile` and `next_batch` of each operator, same file. An operator is a value
--   of `Operator`, and a call gives its answer with the operator after it. A blocking operator has its
--   input or its output (`Stage`). The fuel counts the depth of the tree and the rounds of the loops;
--   `enough_fuel` of Operator/Refine bounds it. Operator/Rows says which rows an operator still has to
--   deliver and what they cost, Operator/Slice, Loops and Answer treat the loops and a single call.
-- Explain: crates/mmdb-query/src/explain.rs and `Executor::explain`. Explain/Actual: its answers.
-- Builder: crates/mmdb-query/src/builder.rs. Builder/Meaning: what the plans evaluate to.
--   Builder/Recall: what a recall answers.
-- Strategy, Optimizer: crates/mmdb-query/src/optimizer.rs. `optimize` runs on fuel, since a filter
--   that is pushed down is optimized again over an optimized plan: Optimizer/Total. The join chains:
--   Optimizer/Chain (the leaves of a tree of joins), Orders (the permutations), Leaves
--   (the leaves as sets), Cases (what the reordering can do), Reorder. Optimizer/Sound: the whole.
-- Engine: the key-value engine under the stores, a third-party crate, as the record of the calls that
--   the stores make of it. Engine/Laws: what they rely on, as a record of laws: a partition is an
--   ordered map, a batch is written as a whole or not at all, a read that answers answers what the map
--   holds. Engine/Maps: those maps. Engine/Memory: an engine in memory that meets the laws.
--   Engine/Commits: the end of an operation that writes.
-- StateStore: crates/mmdb/src/state.rs, in StateStore/Keys (the encoded keys), Entry (the data),
--   Writes (`get`, `put`, `apply`, `apply_namespaced`) and Scan (`scan_prefix`, `scan_prefix_after`,
--   `replace_prefix`). An operation takes the state of the engine and gives it back beside its answer.
--   The record `Serde` is serde_json, the clock's answer is an argument, and the write lock is that a
--   call runs alone. serde_json does not give back every value that it writes: as it is configured, it
--   rounds some floats when it reads them, and refuses what is nested deeper than 128. So `IsFaithful`,
--   in View, speaks of the values that it gives back, and a theorem on what is read after a write
--   assumes that the values written are such. StateStore/Isolation: the keys. View: what the store
--   shows under its keys. Batch, Checked, Commit, Committed: what a batch does. Single, Gets: what is
--   read after it. History: runs of writes. Listing, Order, Paging, Pages: the scans. Replace, Listed,
--   Replaced: `replace_prefix`. Numbers, Tests: a serialization of numbers, and runs on small inputs.
-- GraphStore: crates/mmdb-graph/src/lib.rs, in GraphStore/Keys and Edges (`add_edge`, `remove_edge`,
--   `neighbours_out`, `neighbours_in`). An id is its number, and `EdgeSerde` is serde_json at an edge;
--   it does not give back every edge, such as one whose weight is not finite, so a theorem on an edge
--   that is read again assumes it of that edge. GraphStore/Paired: the two partitions of edges.
--   Ranges: the ranges of the scans. Neighbours, Incoming: the edges listed. Tests: small inputs.
-- AccessStore: `AccessStore` of crates/mmdb/src/access.rs; its `record` and `delete` are
--   `record_access` and `delete_access`. serde_json gives back every counter, and a count is a
--   `u64`. AccessStore/Recorded: `record`. Sources, Merged, Tally, Moves: `merge`. Tests: small inputs.
-- StorageKeys: crates/mmdb-storage/src/keys.rs. StorageKeys/Order: how the keys sort. Tests: small inputs.
-- Common: tests, lists, positions in lists, integers, sorting, maps, byte strings and their order.
-- Tests: runs of the query engine on small inputs.
--
-- Not modelled: `SourceExecutor` and the operators that count rows for its explanation, over
-- `QuerySource`; how a store's directory is prepared and opened; `bfs` and `labels` of the graph
-- store; the node partitions, the other stores, the vector indexes, the query language, the
-- WebAssembly functions and the facade. Debug builds check the overflow of `+` where the model wraps.
-- The buffers that the scan and filter operators reserve for a batch are not modelled: reserving one for
-- a huge batch size panics. Sorting by score is insertion sort in the model; where a score is NaN, the
-- order of the program's sort is unspecified and it may panic.
pub mod Common
pub mod GraphStore
pub mod Ir
pub mod Eval
pub mod Engine
pub mod Errors
pub mod Executor
pub mod Operator
pub mod Words
pub mod StateStore
pub mod StorageKeys
pub mod Stats
pub mod Strategy
pub mod Explain
pub mod AccessStore
pub mod Builder
pub mod Optimizer
mod Tests
