-- ===== src/AccessStore.antt =====
-- crates/mmdb/src/access.rs: the counters of how often a node was retrieved. A `Ulid` is its number, a
-- timestamp of the clock is an argument, and the write lock is that a call runs alone.
pub mod Recorded
pub mod Merged
pub mod Sources
pub mod Tally
pub mod Moves
mod Tests
use mmdb.Common.{
  ℕ, ◌+◌, Bool, true, false, not, String, Option, none, some, List, [], ◌∷◌, ◌++◌, map, filter,
  ◌==◌, if◌then◌else◌, leb, compare, Ordering,
}
use mmdb.Common.Bytes.{Bytes, to_be_bytes}
use mmdb.Common.Int.{ℤ, le_ℤ}
use mmdb.Common.Sort.{sort_by}
use mmdb.Errors.{Error, Result, ok, err, ◌>>=◌}
use mmdb.Words.{saturating_add}
use mmdb.Engine.{Engine, Reply, storage, json, Write, insert, remove}
use mmdb.Engine.Commits.{commit_with}

abbrev pub part_access : String
part_access = "memory_access_v1"

pub record AccessStats : Type 0 where
  pub node_id : ℕ
  pub access_count : ℕ
  pub last_accessed_at_ms : ℤ

-- serde_json at `AccessStats`.
pub record AccessSerde : Type 0 where
  pub encode : AccessStats → Reply Bytes
  pub decode : Bytes → Reply AccessStats

unfoldable pub access_key : ℕ → ℕ → Bytes
access_key tenant node_id = to_be_bytes 4 tenant ++ to_be_bytes 16 node_id

abbrev pub max_ℤ : ℤ → ℤ → ℤ
max_ℤ a b = if le_ℤ a b then b else a

-- The counters after one more access.
unfoldable pub accessed : ℤ → ℕ → Option AccessStats → AccessStats
accessed now node_id none = record {
  node_id = node_id;
  access_count = 1;
  last_accessed_at_ms = now;
}
accessed now node_id (some stats) = record {
  node_id = node_id;
  access_count = saturating_add stats.access_count 1;
  last_accessed_at_ms = max_ℤ stats.last_accessed_at_ms now;
}

-- `dedup`: of a run of equal numbers one stays.
unfoldable pub dedup : List ℕ → List ℕ
dedup [] = []
dedup (x ∷ []) = x ∷ []
dedup (x ∷ y ∷ ys) = let rest = dedup (y ∷ ys) in if x == y then rest else x ∷ rest

-- The counters that `merge` has added up so far: whether any were found, and of which sources.
pub record Merging : Type 0 where
  pub access_count : ℕ
  pub last_accessed : Option ℤ
  pub found : Bool
  pub populated : List ℕ

unfoldable pub latest : Option ℤ → ℤ → ℤ
latest none time = time
latest (some current) time = max_ℤ current time

unfoldable pub merge_one : Merging → ℕ → Option AccessStats → Merging
merge_one m source none = m
merge_one m source (some stats) = record {
  access_count = saturating_add m.access_count stats.access_count;
  last_accessed = some (latest m.last_accessed stats.last_accessed_at_ms);
  found = true;
  populated = m.populated ++ source ∷ [];
}

unfoldable pub merge_start : Option AccessStats → Merging
merge_start none = record { access_count = 0; last_accessed = none; found = false; populated = [] }
merge_start (some stats) = record {
  access_count = stats.access_count;
  last_accessed = some stats.last_accessed_at_ms;
  found = true;
  populated = [];
}

module _ (E : Engine) (C : AccessSerde) (tenant : ℕ) where
  unfoldable pub parse_stats : Option Bytes → Result (Option AccessStats)
  parse_stats none = ok none
  parse_stats (some bytes) = json (C.decode bytes) >>= λ stats. ok (some stats)

  unfoldable pub get : E.State → ℕ → Result (Option AccessStats)
  get s node_id = storage (E.get s part_access (access_key tenant node_id)) >>= parse_stats

  -- The loop of `record`: the batch and the counters that it writes.
  unfoldable pub record_loop : E.State → ℤ → List ℕ → Result (List Write × List AccessStats)
  record_loop s now [] = ok ([], [])
  record_loop s now (node_id ∷ node_ids) = get s node_id >>= λ current.
      let stats = accessed now node_id current in
      json (C.encode stats) >>= λ bytes. record_loop s now node_ids >>= λ (batch, updated).
      ok (insert part_access (access_key tenant node_id) bytes ∷ batch, stats ∷ updated)

  unfoldable pub record_access : E.State → List ℕ → ℤ → E.State × Result (List AccessStats)
  record_access s [] now = (s, ok [])
  record_access s (node_id ∷ node_ids) now =
      commit_with E s (record_loop s now (node_id ∷ node_ids))

  unfoldable pub delete_access : E.State → ℕ → E.State × Result {0} Unit
  delete_access s node_id =
      commit_with E s (ok (remove part_access (access_key tenant node_id) ∷ [], tt))

  unfoldable pub merge_sources : ℕ → List ℕ → List ℕ
  merge_sources target sources = filter (λ id. not (id == target)) (dedup (sort_by compare sources))

  -- The loop of `merge` over the sources.
  unfoldable pub merge_loop : E.State → Merging → List ℕ → Result Merging
  merge_loop s m [] = ok m
  merge_loop s m (source ∷ sources) =
      get s source >>= λ stats. merge_loop s (merge_one m source stats) sources

  unfoldable pub merged_stats : ℕ → Merging → ℤ → AccessStats
  merged_stats target m now = record {
    node_id = target;
    access_count = m.access_count;
    last_accessed_at_ms = elim m.last_accessed [ none ↦ now | some time ↦ time ];
  }

  unfoldable pub merge_batch : ℕ → Merging → ℤ → Result (List Write × Option AccessStats)
  merge_batch target m now = json (C.encode (merged_stats target m now)) >>= λ bytes. ok (
    insert part_access (access_key tenant target) bytes
        ∷ map (λ source. remove part_access (access_key tenant source)) m.populated,
    some (merged_stats target m now),
  )

  unfoldable pub merge_counted : E.State → ℕ → List ℕ → Result Merging
  merge_counted s target sources =
      get s target >>= λ stats. merge_loop s (merge_start stats) (merge_sources target sources)

  unfoldable pub merge : E.State → ℕ → List ℕ → ℤ → E.State × Result (Option AccessStats)
  merge s target sources now = elim (merge_counted s target sources) [
    | err e ↦ (s, err e)
    | ok m ↦ elim m.found [
      | false ↦ (s, ok none)
      | true ↦ commit_with E s (merge_batch target m now)
    ]
  ]
