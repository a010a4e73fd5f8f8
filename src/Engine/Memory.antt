-- ===== src/Engine/Memory.antt =====
-- An engine in memory that meets the laws: the writes so far, in their order. It refuses a batch that
-- holds more writes than its capacity.
use mmdb.Common.{
  ℕ, ltb, String, List, Option, [], ◌∷◌, ◌++◌, map, filter, refl, sym, ◌≡◌, length, not, ◌&&◌, Bool,
  true, false,
}
use mmdb.Common.Bytes.{Bytes, starts_with}
use mmdb.Engine.{Engine, Reply, done, failed, Write, insert, remove}
use mmdb.Engine.Maps.{Entries, lookup}
use mmdb.Engine.Laws.{written, is_below, IsLawful, Sorted-written}

written-append :
    (p : String) (b c : List Write) (m : Entries)
    → written p (b ++ c) m ≡ written p c (written p b m)
unfolding written
written-append p [] c m = refl
written-append p (insert q k v ∷ b) c m = written-append p b c _
written-append p (remove q k ∷ b) c m = written-append p b c _

abbrev pub held : List Write → String → Entries
held log p = written p log []

abbrev pub commit_within : Bool → List Write → List Write → List Write × Reply {0} Unit
commit_within false log batch = (log ++ batch, done tt)
commit_within true log batch = (log, failed "the batch is too large")

abbrev pub memory_engine : ℕ → Engine
memory_engine capacity = record {
  State = List Write;
  get = λ log p k. done (lookup k (held log p));
  prefix = λ log p b. map done (filter (λ e. starts_with e.0 b) (held log p));
  range_from = λ log p lo. map done (filter (λ e. not (is_below e.0 lo)) (held log p));
  range =
      λ log p lo hi. map done (filter (λ e. not (is_below e.0 lo) && is_below e.0 hi) (held log p));
  persist = λ log. done tt;
  commit = λ log batch. commit_within (ltb capacity (length batch)) log batch;
}

pub commit_within-done :
    (over : Bool) (log log' batch : List Write) (p : String)
    → commit_within over log batch ≡ (log', done tt)
    → held log' p ≡ written p batch (held log p)
commit_within-done false log log' batch p e =
    let same : log ++ batch ≡ log' = cc in rw (sym same) (written-append p log batch [])
commit_within-done true log log' batch p e = cc

pub commit_within-failed :
    (over : Bool) (log log' batch : List Write) (text p : String)
    → commit_within over log batch ≡ (log', failed text)
    → held log' p ≡ held log p
commit_within-failed false log log' batch text p e = cc
commit_within-failed true log log' batch text p e = let same : log ≡ log' = cc in rw (sym same) refl

pub read_done : {a b : Option Bytes} → ◌≡◌ {A = Reply {0} (Option Bytes)} (done a) (done b) → b ≡ a
read_done e = cc

abbrev pub memory_engine-IsLawful : (capacity : ℕ) → IsLawful (memory_engine capacity)
memory_engine-IsLawful capacity = record {
  entries = held;
  IsReadable = λ _. Unit;
  ordered = λ log p. Sorted-written p log [] tt;
  get-answers = λ log p k o e. read_done e;
  get-entries = λ _ _ _ _. refl;
  prefix-entries = λ _ _ _ _. refl;
  range_from-entries = λ _ _ _ _. refl;
  range-entries = λ _ _ _ _ _. refl;
  commit-done = λ log log' batch e p. commit_within-done _ log log' batch p e;
  commit-failed = λ log log' batch text e p. commit_within-failed _ log log' batch text p e;
}
