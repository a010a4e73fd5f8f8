-- ===== src/StateStore/Replace.antt =====
-- crates/mmdb/src/state.rs, `replace_prefix`: the entries given are all that is live under the prefix.
use mmdb.Common.{
  ℕ, ◌≤◌, true, List, [], ◌∷◌, ◌≡◌, refl, sym, ap, ◌∙◌, inl, inr, ◌⊎◌, In, arith, Bool-cases,
  filter, take, length, take_of_length-le, length-filter-le, zero, suc,
}
use mmdb.Common.Bytes.{Bytes, starts_with, bytes_eq, bytes_eq_iff}
use mmdb.Errors.{ok, bind-ok}
use mmdb.Words.{usize_max}
use mmdb.Engine.{Engine}
use mmdb.Engine.Laws.{IsLawful}
use mmdb.StateStore.Keys.{state_key, namespace_prefix}
use mmdb.StateStore.Entry.{StateMutation, Serde, contains_key}
use mmdb.StateStore.Scan.{replacement_keys, replacement, prepare_replacement, scan_prefix}
use mmdb.StateStore.View.{IsFaithful, IsSound, held}
use mmdb.StateStore.Listing.{live_entries, length-live_entries-le, scan_prefix-pages}

module _ {V : Type 0} where
  replacement_keys-cons :
      (prefix : Bytes) (seen keys : List Bytes) (k : Bytes) (v : V) (entries : List (Bytes × V))
      → replacement_keys prefix seen ((k, v) ∷ entries) ≡ ok keys
      → (starts_with k prefix ≡ true) × (replacement_keys prefix (k ∷ seen) entries ≡ ok keys)
  unfolding replacement_keys
  replacement_keys-cons prefix seen keys k v entries e = ground arith

  replacement_keys-seen :
      (prefix : Bytes) (seen keys : List Bytes) (entries : List (Bytes × V))
      → replacement_keys prefix seen entries ≡ ok keys
      → (key : Bytes) → contains_key key seen ≡ true
      → contains_key key keys ≡ true
  unfolding replacement_keys
  replacement_keys-seen prefix seen keys [] e key h = let same : seen ≡ keys = cc in rw (sym same) h
  replacement_keys-seen prefix seen keys ((k, v) ∷ entries) e key h =
      let (_, later) = replacement_keys-cons prefix seen keys k v entries e in
      replacement_keys-seen prefix (k ∷ seen) keys entries later key (ground arith)

  -- What passes the checks stands under the prefix, and its keys are those collected.
  pub replacement_keys-under :
      (prefix : Bytes) (seen keys : List Bytes) (entries : List (Bytes × V))
      → replacement_keys prefix seen entries ≡ ok keys
      → (key : Bytes) (value : V) → In (key, value) entries
      → (starts_with key prefix ≡ true) × (contains_key key keys ≡ true)
  replacement_keys-under prefix seen keys [] e key value (t, at) = cc
  replacement_keys-under prefix seen keys ((k, v) ∷ entries) e key value (zero, at) =
      let (below, later) = replacement_keys-cons prefix seen keys k v entries e in
      let same : k ≡ key = cc in
      rw (sym same) (
        below,
        replacement_keys-seen prefix (k ∷ seen) keys entries later k
            (ground (arith, bytes_eq_iff k k)),
      )
  replacement_keys-under prefix seen keys ((k, v) ∷ entries) e key value (suc t, at) =
      let (_, later) = replacement_keys-cons prefix seen keys k v entries e in
      replacement_keys-under prefix (k ∷ seen) keys entries later key value (t, at)

  pub replacement_keys-In :
      (prefix : Bytes) (seen keys : List Bytes) (entries : List (Bytes × V))
      → replacement_keys prefix seen entries ≡ ok keys
      → (key : Bytes) → contains_key key keys ≡ true
      → (contains_key key seen ≡ true) ⊎ ((value : V) × In (key, value) entries)
  unfolding replacement_keys
  replacement_keys-In prefix seen keys [] e key h = let same : seen ≡ keys = cc in inl (rw same h)
  replacement_keys-In prefix seen keys ((k, v) ∷ entries) e key h =
      let (_, later) = replacement_keys-cons prefix seen keys k v entries e in
      elim (replacement_keys-In prefix (k ∷ seen) keys entries later key h) [
        | inr (value, i) ↦ inr (value, (suc i.0, i.1))
        | inl known ↦ elim (Bool-cases (bytes_eq key k)) [
          | inl same ↦ let equal = (bytes_eq_iff key k).0 same in inr (v, (0, rw equal refl))
          | inr other ↦ inl (ground arith)
        ]
      ]

module _ (E : Engine) (L : IsLawful E) (C : Serde) (F : IsFaithful C) (tenant : ℕ) where
  -- What the batch of `replace_prefix` is made of.
  pub record IsReplacement (s : E.State) (namespace prefix q p : Bytes)
      (entries : List (Bytes × C.Value)) (ms : List (StateMutation C.Value)) : Type 0 where
    pub keys : List Bytes
    pub collected : replacement_keys prefix [] entries ≡ ok keys
    pub batch :
        ms
        ≡ replacement E C tenant keys
            (live_entries E L C tenant
              (length q)
              (filter (λ e. starts_with e.0 p) (held E L C tenant s)))
            entries

  pub prepare_replacement-IsReplacement :
      (s : E.State) (namespace prefix q p : Bytes) (entries : List (Bytes × C.Value))
      (ms : List (StateMutation C.Value))
      → IsSound E L C tenant s
      → length (held E L C tenant s) ≤ usize_max
      → namespace_prefix tenant namespace ≡ ok q
      → state_key tenant namespace prefix ≡ ok p
      → prepare_replacement E C tenant s namespace prefix entries ≡ ok ms
      → IsReplacement s namespace prefix q p entries ms
  unfolding prepare_replacement
  prepare_replacement-IsReplacement s namespace prefix q p entries ms sound few at_q at_p e =
      let m = held E L C tenant s in
      let under = filter (λ e. starts_with e.0 p) m in
      let (keys, collected, e') = bind-ok (replacement_keys prefix [] entries) _ ms e in
      let (existing, scanned, e'') =
        bind-ok (scan_prefix E C tenant s namespace prefix usize_max) _ ms e' in
      let listed =
        scan_prefix-pages E L C tenant s namespace prefix q p usize_max sound at_q at_p in
      let live = live_entries E L C tenant (length q) under in
      let whole : take usize_max live ≡ live = take_of_length-le usize_max live (
        omega (
          arith,
          length-live_entries-le E L C tenant (length q) under,
          length-filter-le (λ e. starts_with e.0 p) m,
        )) in
      let same : existing ≡ live = let answers = sym scanned ∙ listed ∙ ap ok whole in cc in
      record {
        keys = keys;
        collected = collected;
        batch =
            let filled : replacement E C tenant keys existing entries ≡ ms = cc in
            sym filled ∙ ap (λ l. replacement E C tenant keys l entries) same;
      }
