-- ===== src/StateStore.antt =====
-- crates/mmdb/src/state.rs: the store of application state. A value stands under a tenant, a namespace
-- and a key with a revision, a deletion leaves a tombstone, and a batch is checked before it is
-- written. Texts and keys are their bytes, the tenant is `self.tenant`, and `now` is what the clock
-- answers in the call. The serialization library is the record `Serde` of Entry.
pub mod Keys
pub mod Entry
pub mod Writes
pub mod Scan
pub mod Numbers
mod Tests
pub mod Listed
pub mod Gets
pub mod Order
pub mod Replaced
pub mod Replace
pub mod Pages
pub mod Paging
pub mod Listing
pub mod History
pub mod Single
pub mod Commit
pub mod Committed
pub mod Checked
pub mod Batch
pub mod View
pub mod Isolation
