-- ===== src/AccessStore/Moves.antt =====
-- crates/mmdb/src/access.rs, `merge`: the counters that it answers, and what is found afterwards.
use mmdb.Common.{ℕ, ◌≤◌, ◌<◌, min, Option, List, ◌∷◌, ◌≡◌, ◌≢◌, ◌↔◌, In}
use mmdb.Common.Bytes.{Bytes}
use mmdb.Common.Sorted.{Sorted}
use mmdb.Words.{usize_max}
use mmdb.Engine.{Engine, done}
use mmdb.Engine.Laws.{IsLawful}
use mmdb.AccessStore.{AccessStats, AccessSerde}
use mmdb.AccessStore.Recorded.{IsFaithful}
use mmdb.AccessStore.Tally.{total, IsLatest, Reads}

-- A count that decodes is a `u64`.
abbrev pub CountsFit : AccessSerde → Type 0
CountsFit C =
    (x : AccessStats) (bytes : Bytes) → C.decode bytes ≡ done x → x.access_count ≤ usize_max

module _ (E : Engine) (L : IsLawful E) (C : AccessSerde) (F : IsFaithful C) (B : CountsFit C)
    (tenant : ℕ) where
  -- The counters `x` are those of the target and of each other source once: the counts add up, up to
  -- the largest `u64`, and the time is the latest.
  pub record IsMerged (s : E.State) (target : ℕ) (sources : List ℕ) (x : AccessStats) : Type 0 where
    pub ids : List ℕ
    pub once : Sorted (λ a b. a < b) ids
    pub exactly : (j : ℕ) → In j ids ↔ (In j sources × (j ≢ target))
    pub found : List (Option AccessStats)
    pub reads : Reads E L C F tenant s (target ∷ ids) found
    pub counted : x.access_count ≡ min (total found) usize_max
    pub timed : IsLatest x.last_accessed_at_ms found
