-- ===== src/StateStore/Replaced.antt =====
-- crates/mmdb/src/state.rs, `replace_prefix`: what is live under the prefix afterwards.
use mmdb.Common.{
  All, ℕ, ◌^◌, ◌<◌, ◌≤◌, true, some, List, [], ◌≡◌, sym, ap, inl, inr, In, filter, length,
}
use mathlib.Core.Path.{subst}
use mmdb.Common.Bytes.{Bytes, starts_with}
use mmdb.Common.Int.{ℤ}
use mmdb.Errors.{Error, Result, ok, err, bind-ok, Result-cases}
use mmdb.Words.{usize_max}
use mmdb.Engine.{Engine}
use mmdb.Engine.Laws.{IsLawful}
use mmdb.StateStore.Keys.{state_key, namespace_prefix}
use mmdb.StateStore.Entry.{StateEntry, StateMutation, Serde}
use mmdb.StateStore.Writes.{get, apply}
use mmdb.StateStore.Scan.{replacement_keys, prepare_replacement, replace_prefix, scan_prefix}
use mmdb.StateStore.View.{IsFaithful, IsKept, IsSound, IsStored, held}
use mmdb.StateStore.Listing.{live_entries}
use mmdb.StateStore.Replace.{IsReplacement, prepare_replacement-IsReplacement}
use mmdb.StateStore.Listed.{All-prepared, put-In}
use mmdb.StateStore.Gets.{put-get}

module _ (E : Engine) (L : IsLawful E) (C : Serde) (F : IsFaithful C) (tenant : ℕ) where
  -- What `get` answers under the prefix: an entry that was given, or nothing.
  abbrev pub Given : E.State → Bytes → List (Bytes × C.Value) → ℤ → Bytes → Type 0
  Given s' namespace entries now key =
      (value : C.Value) × (r : ℕ) × In (key, value) entries
      × (get E C tenant s' namespace key
          ≡ ok (some record { key = key; value = value; revision = r; updated_at_ms = now }))

  -- The store that a replaced prefix leaves, under one key of it.
  module _ (s s' : E.State) (namespace prefix q p : Bytes) (entries : List (Bytes × C.Value))
      (ms : List (StateMutation C.Value)) (now : ℤ) (key k : Bytes) (small : tenant < 2 ^ 32)
      (stored : IsStored C (held E L C tenant s)) (readable : L.IsReadable s')
      (at_q : namespace_prefix tenant namespace ≡ ok q)
      (at_p : state_key tenant namespace prefix ≡ ok p)
      (at_k : state_key tenant namespace key ≡ ok k) (below : starts_with key prefix ≡ true)
      (r : IsReplacement E L C F tenant s namespace prefix q p entries ms)
      (kept : All (IsKept F) ms) (e : apply E C tenant s namespace ms now ≡ (s', ok tt)) where
    listed : List (StateEntry C.Value)
    listed =
        live_entries E L C tenant (length q) (filter (λ e. starts_with e.0 p) (held E L C tenant s))

  ok-err : {A : Type 0} {a : A} {x : Error} → ◌≡◌ {A = Result A} (ok a) (err x) → ⊥
  ok-err e = cc

  -- A batch that is prepared has keys for its namespace and its prefix.
  prepare_replacement-keys :
      (s : E.State) (namespace prefix : Bytes) (entries : List (Bytes × C.Value))
      (ms : List (StateMutation C.Value))
      → prepare_replacement E C tenant s namespace prefix entries ≡ ok ms
      → (q p : Bytes) × (namespace_prefix tenant namespace ≡ ok q)
        × (state_key tenant namespace prefix ≡ ok p)
  unfolding prepare_replacement scan_prefix
  prepare_replacement-keys s namespace prefix entries ms e =
      let (_, _, e') = bind-ok (replacement_keys prefix [] entries) _ ms e in
      let (existing, scanned, _) =
        bind-ok (scan_prefix E C tenant s namespace prefix usize_max) _ ms e' in
      let (q, at_q, rest) = bind-ok (namespace_prefix tenant namespace) _ existing scanned in
      let (p, at_p, _) = bind-ok (state_key tenant namespace prefix) _ existing rest in
      (q, p, at_q, at_p)

  -- A replacement that is committed: what it was prepared as, and the batch that wrote it.
  replace_prefix-commits :
      (s s' : E.State) (namespace prefix : Bytes) (entries : List (Bytes × C.Value)) (now : ℤ)
      → replace_prefix E C tenant s namespace prefix entries now ≡ (s', ok tt)
      → (ms : List (StateMutation C.Value)) × (prepare_replacement E C tenant s namespace prefix
            entries
          ≡ ok ms)
        × (apply E C tenant s namespace ms now ≡ (s', ok tt))
  unfolding replace_prefix
  replace_prefix-commits s s' namespace prefix entries now e =
      elim (Result-cases (prepare_replacement E C tenant s namespace prefix entries)) [
        | inr (x, refused) ↦
            let e' = rw (refused, replace_prefix) at e in absurd (ok-err (sym (ap (λ y. y.1) e')))
        | inl (ms, prepared) ↦ (ms, prepared, rw (prepared, replace_prefix) at e)
      ]

  -- On a store that is readable before and after, whose values decode and which holds at most
  -- usize::MAX entries, and for values that the serialization gives back: after replace_prefix
  -- answers Ok, get at the key of each entry given answers its value, with some revision and the
  -- time of the call.
  pub replace_prefix-get :
      (s s' : E.State) (namespace prefix : Bytes) (entries : List (Bytes × C.Value)) (now : ℤ)
      (key : Bytes) (value : C.Value)
      → All (λ e. F.Kept e.1) entries
      → IsSound E L C tenant s
      → L.IsReadable s'
      → length (held E L C tenant s) ≤ usize_max
      → replace_prefix E C tenant s namespace prefix entries now ≡ (s', ok tt)
      → In (key, value) entries
      → (r : ℕ) × (get E C tenant s' namespace key
          ≡ ok (some record { key = key; value = value; revision = r; updated_at_ms = now }))
  replace_prefix-get s s' namespace prefix entries now key value kept sound readable few e i =
      let (ms, prepared, applied) = replace_prefix-commits s s' namespace prefix entries now e in
      let (q, p, at_q, at_p) = prepare_replacement-keys s namespace prefix entries ms prepared in
      let r =
        prepare_replacement-IsReplacement E L C F tenant s namespace prefix q p entries ms sound few
          at_q at_p prepared in
      put-get E L C F tenant s s' namespace ms now key value
        (All-prepared E L C F tenant s namespace prefix entries ms kept prepared) sound.1 readable
        applied (subst (In _) (sym r.batch) (put-In E L C F tenant r.keys _ entries key value i))
