-- ===== src/Engine/Laws.antt =====
-- What the stores rely on of the storage engine, as its documentation states it: a partition is an
-- ordered map, a batch is written as a whole or not at all, a batch's later writes win, and the reads
-- of a state that the medium answers are those of the map.
use mmdb.Common.{
  ◌≡◌, Bool, true, false, not, ◌&&◌, String, List, [], ◌∷◌, map, filter, Option, str_eq,
  if◌then◌else◌, Ordering, Bool-cases, inl, inr,
}
use mmdb.Common.Sorted.{Sorted}
use mmdb.Common.Bytes.{Bytes, cmp_bytes, starts_with}
use mmdb.Engine.{Engine, done, failed, Write, insert, remove}
use mmdb.Engine.Maps.{Entries, Before, lookup, put, erase, Sorted-put, Sorted-erase}

-- The batch's writes of one partition, in their order.
unfoldable pub written : String → List Write → Entries → Entries
written p [] m = m
written p (insert q k v ∷ batch) m = written p batch (if str_eq q p then put k v m else m)
written p (remove q k ∷ batch) m = written p batch (if str_eq q p then erase k m else m)

-- `a < b` for byte strings.
abbrev pub is_below : Bytes → Bytes → Bool
is_below a b = elim (cmp_bytes a b) [ Ordering.lt ↦ true | _ ↦ false ]

pub record IsLawful (E : Engine) : Type 1 where
  -- What a partition holds.
  pub entries : E.State → String → Entries
  -- The medium answers every read of the state.
  pub IsReadable : E.State → Type 0
  pub ordered : (s : E.State) (p : String) → Sorted Before (entries s p)
  -- An answer to a point read is what the partition holds.
  pub get-answers :
      (s : E.State) (p : String) (k : Bytes) (o : Option Bytes)
      → E.get s p k ≡ done o
      → o ≡ lookup k (entries s p)
  pub get-entries :
      (s : E.State) (p : String) (k : Bytes)
      → IsReadable s
      → E.get s p k ≡ done (lookup k (entries s p))
  pub prefix-entries :
      (s : E.State) (p : String) (b : Bytes)
      → IsReadable s
      → E.prefix s p b ≡ map done (filter (λ e. starts_with e.0 b) (entries s p))
  pub range_from-entries :
      (s : E.State) (p : String) (lo : Bytes)
      → IsReadable s
      → E.range_from s p lo ≡ map done (filter (λ e. not (is_below e.0 lo)) (entries s p))
  pub range-entries :
      (s : E.State) (p : String) (lo hi : Bytes)
      → IsReadable s
      → E.range s p lo hi
        ≡ map done (filter (λ e. not (is_below e.0 lo) && is_below e.0 hi) (entries s p))
  pub commit-done :
      (s s' : E.State) (batch : List Write)
      → E.commit s batch ≡ (s', done tt)
      → (p : String) → entries s' p ≡ written p batch (entries s p)
  pub commit-failed :
      (s s' : E.State) (batch : List Write) (text : String)
      → E.commit s batch ≡ (s', failed text)
      → (p : String) → entries s' p ≡ entries s p

pub Sorted-written :
    (p : String) (batch : List Write) (m : Entries)
    → Sorted Before m
    → Sorted Before (written p batch m)
unfolding written
Sorted-written p [] m h = h
Sorted-written p (insert q k v ∷ batch) m h = elim (Bool-cases (str_eq q p)) [
  | inl same ↦ rw same (Sorted-written p batch (put k v m) (Sorted-put k v m h))
  | inr other ↦ rw other (Sorted-written p batch m h)
]
Sorted-written p (remove q k ∷ batch) m h = elim (Bool-cases (str_eq q p)) [
  | inl same ↦ rw same (Sorted-written p batch (erase k m) (Sorted-erase k m h))
  | inr other ↦ rw other (Sorted-written p batch m h)
]
