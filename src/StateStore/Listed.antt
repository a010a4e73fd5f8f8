-- ===== src/StateStore/Listed.antt =====
-- crates/mmdb/src/state.rs, `replace_prefix`: what its batch holds.
use mmdb.Common.{
  All, All-In, All-of_In, [], ℕ, true, false, not, Option, none, some, List, ◌++◌, ◌≡◌, refl, sym,
  ap, ◌∙◌, inl, inr, ◌⊎◌, In, Bool-cases, map, filter, drop, length, In-append, append-In_left,
  append-In_right, In-map, map-In, drop-append, filter-In,
}
use mmdb.Common.Bytes.{Bytes, starts_with}
use mathlib.Core.Path.{subst}
use mmdb.Words.{usize_max}
use mmdb.Errors.{ok, bind-ok}
use mmdb.Engine.{Engine, Reply, done, failed}
use mmdb.Engine.Maps.{lookup, In-lookup}
use mmdb.Engine.Laws.{IsLawful}
use mmdb.StateStore.Keys.{state_key, namespace_prefix}
use mmdb.StateStore.Entry.{
  StoredValue, StateEntry, StateMutation, put_value, delete, Serde, contains_key, live_entry,
  mutation_key,
}
use mmdb.StateStore.Scan.{replacement_keys, scan_prefix, prepare_replacement, replacement, visible}
use mmdb.StateStore.Isolation.{state_key-append, starts_with-same}
use mmdb.StateStore.View.{IsFaithful, IsKept, view, held, decoded}
use mmdb.StateStore.Listing.{live_entries, live_entries-In}

module _ (E : Engine) (L : IsLawful E) (C : Serde) (F : IsFaithful C) (tenant : ℕ) where
  visible-live_entry :
      (q key k : Bytes) (v : StoredValue C.Value)
      → k ≡ q ++ key
      → visible E C tenant (length q) k v ≡ live_entry key (some v)
  unfolding visible live_entry
  visible-live_entry q key k v e =
      let dropped : drop (length q) k ≡ key = ap (drop (length q)) e ∙ drop-append q key in
      rw dropped refl

  live_entry-key :
      (key : Bytes) (v : StoredValue C.Value) (entry : StateEntry C.Value)
      → live_entry key (some v) ≡ some entry
      → entry.key ≡ key
  unfolding live_entry
  live_entry-key key v entry e = elim (Bool-cases v.deleted) [
    | inl gone ↦ let e' = rw gone at e in cc
    | inr live ↦
        let shown : some record {
          key = key;
          value = v.value;
          revision = v.revision;
          updated_at_ms = v.updated_at_ms;
        }
            ≡ some entry =
          rw live at e in
        let same : ◌≡◌ {A = StateEntry C.Value}
            record {
              key = key;
              value = v.value;
              revision = v.revision;
              updated_at_ms = v.updated_at_ms;
            }
            entry =
          cc in
        sym (ap (λ (r : StateEntry C.Value). r.key) same)
  ]

  -- A live value under the prefix is among the entries that the batch reads.
  pub live-listed :
      (s : E.State) (namespace prefix key q p k : Bytes) (entry : StateEntry C.Value)
      → namespace_prefix tenant namespace ≡ ok q
      → state_key tenant namespace prefix ≡ ok p
      → state_key tenant namespace key ≡ ok k
      → starts_with key prefix ≡ true
      → live_entry key (view E L C tenant s k) ≡ some entry
      → (entry.key ≡ key)
        × In entry (
            live_entries E L C tenant
              (length q)
              (filter (λ e. starts_with e.0 p) (held E L C tenant s)))
  unfolding live_entry visible
  live-listed s namespace prefix key q p k entry at_q at_p at_k below live =
      go (lookup k (held E L C tenant s)) refl live
    where
      at_bytes :
          (bytes : Bytes)
          → lookup k (held E L C tenant s) ≡ some bytes
          → (r : Reply (StoredValue C.Value)) → C.decode bytes ≡ r
          → live_entry key (decoded C (some bytes)) ≡ some entry
          → (entry.key ≡ key)
            × In entry (
                live_entries E L C tenant
                  (length q)
                  (filter (λ e. starts_with e.0 p) (held E L C tenant s)))
      at_bytes bytes at (failed text) e shown =
          let none_shown : live_entry key (decoded C (some bytes)) ≡ none = rw (e, decoded) refl in
          cc
      at_bytes bytes at (done v) e shown =
          let same : decoded C (some bytes) ≡ some v = rw (e, decoded) refl in
          let live_v : live_entry key (some v) ≡ some entry =
            sym (ap (live_entry key) same) ∙ shown in
          let m = held E L C tenant s in
          let under =
            filter-In (λ e. starts_with e.0 p) m (k, bytes) (In-lookup m k bytes at)
              (starts_with-same tenant namespace prefix key p k at_p at_k ∙ below) in
          (
            live_entry-key key v entry live_v,
            live_entries-In E L C tenant (length q) _ k bytes v entry under e (
                visible-live_entry q key k v (state_key-append tenant namespace key q k at_q at_k)
                ∙ live_v),
          )

      go :
          (o : Option Bytes)
          → lookup k (held E L C tenant s) ≡ o
          → live_entry key (decoded C o) ≡ some entry
          → (entry.key ≡ key)
            × In entry (
                live_entries E L C tenant
                  (length q)
                  (filter (λ e. starts_with e.0 p) (held E L C tenant s)))
      go none at shown = cc
      go (some bytes) at shown = at_bytes bytes at (C.decode bytes) refl shown

  -- A deletion or a put of the batch, read off its list.
  pub replacement-In :
      (keys : List Bytes) (existing : List (StateEntry C.Value)) (entries : List (Bytes × C.Value))
      (m : StateMutation C.Value)
      → In m (replacement E C tenant keys existing entries)
      → (m ≡ delete (mutation_key m) none)
        ⊎ ((value : C.Value) × In (mutation_key m, value) entries
            × (m ≡ put_value (mutation_key m) value none))
  unfolding replacement mutation_key
  replacement-In keys existing entries m i =
      elim (In-append
        (map (λ (e : StateEntry C.Value). delete e.key none)
          (filter (λ e. not (contains_key e.key keys)) existing))
        (map (λ (k, v). put_value k v none) entries) m i) [
          | inl of_deletes ↦
              let (e, _, same) =
                In-map (λ (e : StateEntry C.Value). delete e.key none)
                  (filter (λ e. not (contains_key e.key keys)) existing) m of_deletes in
              inl (rw (sym same) refl)
          | inr of_puts ↦
              let ((key, value), at, same) =
                In-map (λ (k, v). put_value k v none) entries m of_puts in
              inr (value, rw (sym same) at, rw (sym same) refl)
        ]

  pub put-In :
      (keys : List Bytes) (existing : List (StateEntry C.Value)) (entries : List (Bytes × C.Value))
      (key : Bytes) (value : C.Value)
      → In (key, value) entries
      → In (put_value key value none) (replacement E C tenant keys existing entries)
  unfolding replacement
  put-In keys existing entries key value i =
      append-In_right _ _ _ (map-In (λ (k, v). put_value k v none) entries (key, value) i)

  pub delete-In :
      (keys : List Bytes) (existing : List (StateEntry C.Value)) (entries : List (Bytes × C.Value))
      (entry : StateEntry C.Value)
      → In entry existing
      → contains_key entry.key keys ≡ false
      → In (delete entry.key none) (replacement E C tenant keys existing entries)
  unfolding replacement
  delete-In keys existing entries entry i gone = append-In_left _ _ _ (
      map-In (λ e. delete e.key none) _ entry
        (filter-In (λ e. not (contains_key e.key keys)) existing entry i (rw gone refl)))

  All-replacement :
      (keys : List Bytes) (existing : List (StateEntry C.Value)) (entries : List (Bytes × C.Value))
      → All (λ e. F.Kept e.1) entries
      → All (IsKept F) (replacement E C tenant keys existing entries)
  All-replacement keys existing entries kept =
      All-of_In (IsKept F) (replacement E C tenant keys existing entries) (λ m i.
        elim (replacement-In keys existing entries m i) [
          | inl deletes ↦ rw deletes tt
          | inr (value, given, puts) ↦
              rw puts (All-In (λ e. F.Kept e.1) entries kept (mutation_key m, value) given)
        ])

  -- A replacement of values that are given back writes such values.
  pub All-prepared :
      (s : E.State) (namespace prefix : Bytes) (entries : List (Bytes × C.Value))
      (ms : List (StateMutation C.Value))
      → All (λ e. F.Kept e.1) entries
      → prepare_replacement E C tenant s namespace prefix entries ≡ ok ms
      → All (IsKept F) ms
  unfolding prepare_replacement
  All-prepared s namespace prefix entries ms kept e =
      let (keys, _, e') = bind-ok (replacement_keys prefix [] entries) _ ms e in
      let (existing, _, e'') =
        bind-ok (scan_prefix E C tenant s namespace prefix usize_max) _ ms e' in
      let filled : replacement E C tenant keys existing entries ≡ ms = cc in
      subst (All (IsKept F)) filled (All-replacement keys existing entries kept)
