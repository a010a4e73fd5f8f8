-- ===== src/StateStore/Pages.antt =====
-- crates/mmdb/src/state.rs: the pages that the scans answer, written out.
use mmdb.Common.{
  ℕ, Bool, true, false, ◌&&◌, Option, none, some, List, [], ◌∷◌, ◌≡◌, refl, ap, ◌∙◌, inl, inr,
  Bool-cases, filter, filter_congr, filter_map, take, length, drop, is_gt,
}
use mmdb.Common.Bytes.{Bytes, starts_with, cmp_bytes}
use mmdb.Errors.{ok, ◌>>=◌}
use mmdb.Engine.{Engine}
use mmdb.Engine.Maps.{Entries}
use mmdb.Engine.Laws.{IsLawful}
use mmdb.StateStore.Keys.{state_key, namespace_prefix}
use mmdb.StateStore.Entry.{StoredValue, StateEntry, Serde}
use mmdb.StateStore.Scan.{visible, scan_prefix, scan_prefix_after, is_past, is_outside, cursor_key}
use mmdb.StateStore.View.{IsSound, decoded, held}
use mmdb.StateStore.Listing.{live_entries, shown_entry, scan_prefix-pages}
use mmdb.StateStore.Paging.{scan_prefix_after-pages}

-- A key that a page after this cursor may hold: one that comes after the cursor.
abbrev pub is_after : Option Bytes → Bytes → Bool
is_after none key = true
is_after (some cursor) key = is_gt (cmp_bytes key cursor)

-- The storage key of an optional cursor that stands under the prefix.
abbrev pub Placed : ℕ → Bytes → Bytes → Option Bytes → Option Bytes → Type 0
Placed tenant namespace prefix none none = Unit
Placed tenant namespace prefix none (some c) = ⊥
Placed tenant namespace prefix (some cursor) none = ⊥
Placed tenant namespace prefix (some cursor) (some c) =
    (state_key tenant namespace cursor ≡ ok c) × (starts_with cursor prefix ≡ true)

module _ (C : Serde) where
  -- What is listed of a value: a tombstone and what does not decode are left out.
  abbrev pub entry_of : ℕ → Bytes → Option (StoredValue C.Value) → Option (StateEntry C.Value)
  entry_of skip key none = none
  entry_of skip key (some stored) = elim stored.deleted [
    | true ↦ none
    | false ↦ some record {
      key = drop skip key;
      value = stored.value;
      revision = stored.revision;
      updated_at_ms = stored.updated_at_ms;
    }
  ]

  -- The entries listed of the items, in their order, without the bytes of the namespace.
  abbrev pub listed : ℕ → Entries → List (StateEntry C.Value)
  listed skip = filter_map (λ e. entry_of skip e.0 (decoded C (some e.1)))

filter_map_congr {ℓ κ} :
    {A : Type ℓ} {B : Type κ} (f g : A → Option B)
    → ((x : A) → f x ≡ g x)
    → (xs : List A) → filter_map f xs ≡ filter_map g xs
filter_map_congr f g same [] = refl
filter_map_congr f g same (x ∷ xs) =
    ap (λ o. elim o [ none ↦ filter_map f xs | some y ↦ y ∷ filter_map f xs ]) (same x)
    ∙ ap (λ l. elim (g x) [ none ↦ l | some y ↦ y ∷ l ]) (filter_map_congr f g same xs)

is_past-after : (c : Option Bytes) (k : Bytes) → is_past c k ≡ is_after c k
is_past-after none k = refl
is_past-after (some c) k = refl

Placed-key :
    (tenant : ℕ) (namespace prefix : Bytes) (after c : Option Bytes)
    → Placed tenant namespace prefix after c
    → (cursor_key tenant namespace after ≡ ok c) × (is_outside after prefix ≡ false)
unfolding cursor_key is_outside
Placed-key tenant namespace prefix none none h = (refl, refl)
Placed-key tenant namespace prefix none (some c) h = absurd h
Placed-key tenant namespace prefix (some cursor) none h = absurd h
Placed-key tenant namespace prefix (some cursor) (some c) (at, under) =
    (rw (at, ◌>>=◌) refl, rw under refl)

module _ (E : Engine) (L : IsLawful E) (C : Serde) (tenant : ℕ) where
  visible-entry_of :
      (skip : ℕ) (k : Bytes) (v : StoredValue C.Value)
      → visible E C tenant skip k v ≡ entry_of C skip k (some v)
  unfolding visible
  visible-entry_of skip k v = elim (Bool-cases v.deleted) [
    | inl gone ↦ rw gone refl
    | inr live ↦ rw live refl
  ]

  live_entries-listed :
      (skip : ℕ) (m : Entries) → live_entries E L C tenant skip m ≡ listed C skip m
  live_entries-listed skip = filter_map_congr _ _ (λ e. go e.0 (decoded C (some e.1)))
    where
      go :
          (k : Bytes) (o : Option (StoredValue C.Value))
          → shown_entry E L C tenant skip k o ≡ entry_of C skip k o
      go k none = refl
      go k (some v) = visible-entry_of skip k v

  -- On a readable store whose values decode, and with keys that encode, scan_prefix answers the
  -- first `limit` entries under the prefix that are no tombstones, in the order of the keys.
  pub scan_prefix-takes :
      (s : E.State) (namespace prefix q p : Bytes) (limit : ℕ)
      → IsSound E L C tenant s
      → namespace_prefix tenant namespace ≡ ok q
      → state_key tenant namespace prefix ≡ ok p
      → scan_prefix E C tenant s namespace prefix limit
        ≡ ok (
            take limit
              (listed C (length q) (filter (λ e. starts_with e.0 p) (held E L C tenant s))))
  scan_prefix-takes s namespace prefix q p limit sound at_q at_p =
      scan_prefix-pages E L C tenant s namespace prefix q p limit sound at_q at_p
      ∙ ap (λ l. ok (take limit l)) (live_entries-listed (length q) _)

  -- On a readable store whose values decode, with keys that encode and a cursor, if any, under the
  -- prefix, scan_prefix_after answers the first `limit` entries, in the order of the keys, that
  -- stand under the prefix, come after the cursor and are no tombstones.
  pub scan_prefix_after-takes :
      (s : E.State) (namespace prefix q p : Bytes) (after c : Option Bytes) (limit : ℕ)
      → IsSound E L C tenant s
      → namespace_prefix tenant namespace ≡ ok q
      → state_key tenant namespace prefix ≡ ok p
      → Placed tenant namespace prefix after c
      → scan_prefix_after E C tenant s namespace prefix after limit
        ≡ ok (
            take limit (
              listed C
                (length q)
                (filter (λ e. starts_with e.0 p && is_after c e.0) (held E L C tenant s))))
  scan_prefix_after-takes s namespace prefix q p after c limit sound at_q at_p placed =
      let (at_c, inside) = Placed-key tenant namespace prefix after c placed in
      let kept =
        filter_congr (λ e. starts_with e.0 p && is_past c e.0)
          (λ e. starts_with e.0 p && is_after c e.0)
          (λ (e : Bytes × Bytes). ap (λ b. starts_with e.0 p && b) (is_past-after c e.0)) in
      scan_prefix_after-pages E L C tenant s namespace prefix q p after c limit sound at_q at_p at_c
        inside
      ∙ ap (λ l. ok (take limit l))
          (live_entries-listed (length q) _ ∙ ap (listed C (length q)) (kept _))
