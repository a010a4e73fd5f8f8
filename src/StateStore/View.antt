-- ===== src/StateStore/View.antt =====
-- What the partition holds under each storage key, decoded, and how a batch changes it.
use mmdb.Common.{ℕ, ◌≤◌, Option, none, some, ◌≡◌, refl, ap, ◌∙◌}
use mmdb.Common.Bytes.{Bytes}
use mmdb.Errors.{ok, bind-ok}
use mmdb.Words.{usize_max}
use mmdb.Engine.{Engine, done, failed, storage, json, json-ok, storage-ok}
use mmdb.Engine.Maps.{Entries, lookup}
use mmdb.Engine.Laws.{IsLawful}
use mmdb.StateStore.Entry.{StoredValue, StateMutation, put_value, delete, Serde}
use mmdb.StateStore.Writes.{part_state, parse, get_stored}

-- The values that the serialization gives back as they were written; `null` is one. For serde_json as
-- it is configured, a float that its reader rounds and a value nested beyond its limit are not. A
-- revision is a `u64`.
pub record IsFaithful (C : Serde) : Type 1 where
  pub Kept : C.Value → Type 0
  pub null-Kept : Kept C.null
  pub decode-encode :
      (v : StoredValue C.Value) (bytes : Bytes)
      → Kept v.value
      → C.encode v ≡ done bytes
      → C.decode bytes ≡ done v
  pub revision-le :
      (v : StoredValue C.Value) (bytes : Bytes) → C.decode bytes ≡ done v → v.revision ≤ usize_max

-- What a mutation stores is given back.
abbrev pub IsKept : {C : Serde} → IsFaithful C → StateMutation C.Value → Type 0
IsKept F (put_value _ value _) = F.Kept value
IsKept F (delete _ _) = Unit

module _ (C : Serde) where
  abbrev pub decoded : Option Bytes → Option (StoredValue C.Value)
  decoded none = none
  decoded (some bytes) = elim (C.decode bytes) [ done v ↦ some v | failed _ ↦ none ]

  -- Every value decodes.
  abbrev pub IsStored : Entries → Type 0
  IsStored m =
      (k bytes : Bytes)
      → lookup k m ≡ some bytes
      → (v : StoredValue C.Value) × (C.decode bytes ≡ done v)

  abbrev pub view_of : Entries → Bytes → Option (StoredValue C.Value)
  view_of m k = decoded (lookup k m)

module _ (E : Engine) (L : IsLawful E) (C : Serde) (tenant : ℕ) where
  abbrev pub held : E.State → Entries
  held s = L.entries s part_state

  -- What a store shows under its storage keys.
  abbrev pub view : E.State → Bytes → Option (StoredValue C.Value)
  view s = view_of C (held s)

  -- The medium answers, and what it holds decodes.
  abbrev pub IsSound : E.State → Type 0
  IsSound s = L.IsReadable s × IsStored C (held s)

  pub parse-answers :
      (o : Option Bytes) (v : Option (StoredValue C.Value))
      → parse E C tenant o ≡ ok v
      → v ≡ decoded C o
  unfolding parse
  parse-answers none v e = cc
  parse-answers (some bytes) v e =
      let (w, decodes, e') = bind-ok (json (C.decode bytes)) _ v e in
      rw (json-ok (C.decode bytes) w decodes, decoded) cc

  -- What a read answers is what the view shows.
  pub get_stored-answers :
      (s : E.State) (k : Bytes) (v : Option (StoredValue C.Value))
      → get_stored E C tenant s k ≡ ok v
      → v ≡ view s k
  unfolding get_stored
  get_stored-answers s k v e =
      let (o, read, e') = bind-ok (storage (E.get s part_state k)) _ v e in
      parse-answers o v e'
      ∙ ap (decoded C) (L.get-answers s part_state k o (storage-ok (E.get s part_state k) o read))

  parse-decoded :
      (m : Entries) (k : Bytes) → IsStored C m → parse E C tenant (lookup k m) ≡ ok (view_of C m k)
  unfolding parse
  parse-decoded m k h = go (lookup k m) (h k)
    where
      go :
          (o : Option Bytes)
          → ((bytes : Bytes)
              → o ≡ some bytes
              → (v : StoredValue C.Value) × (C.decode bytes ≡ done v))
          → parse E C tenant o ≡ ok (decoded C o)
      go none _ = refl
      go (some bytes) d = rw ((d bytes refl).1, decoded) refl

  pub get_stored-view :
      (s : E.State) (k : Bytes) → IsSound s → get_stored E C tenant s k ≡ ok (view s k)
  unfolding get_stored
  get_stored-view s k (readable, stored) =
      rw (L.get-entries s part_state k readable) (parse-decoded (held s) k stored)
