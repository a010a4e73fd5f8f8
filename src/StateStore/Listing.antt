-- ===== src/StateStore/Listing.antt =====
-- crates/mmdb/src/state.rs: what the scans answer, in terms of what the partition holds.
use mmdb.Common.{
  ℕ, zero, suc, ◌+◌, ◌-◌, ◌≤◌, ◌<◌, Bool, true, false, Option, none, some, List, [], ◌∷◌, ◌++◌, ◌≡◌,
  refl, sym, ap, ◌∙◌, inl, inr, In, arith, Bool-cases, Option-cases, map, filter, take, length, leb,
  ◌==◌, filter_map, length-filter_map-le, filter_map-In, length-append, All-of_In, In-filter, All,
}
use mathlib.Core.List.{append_assoc, append-nil}
use mmdb.Common.Bytes.{Bytes, starts_with}
use mmdb.Errors.{ok, ◌>>=◌}
use mmdb.Engine.{Engine, Reply, done, json}
use mmdb.Engine.Maps.{Entries, lookup-In}
use mmdb.Engine.Laws.{IsLawful}
use mmdb.StateStore.Keys.{state_key, namespace_prefix}
use mmdb.StateStore.Entry.{StoredValue, StateEntry, Serde}
use mmdb.StateStore.Writes.{part_state}
use mmdb.StateStore.Scan.{visible, prefix_loop, scan_prefix}
use mmdb.StateStore.View.{IsSound, IsStored, decoded, held}

module _ (E : Engine) (L : IsLawful E) (C : Serde) (tenant : ℕ) where
  -- Every item's value decodes.
  abbrev pub Decodes : Entries → Type 0
  Decodes = All (λ e. (v : StoredValue C.Value) × (C.decode e.1 ≡ done v))

  abbrev pub shown_entry : ℕ → Bytes → Option (StoredValue C.Value) → Option (StateEntry C.Value)
  shown_entry skip key none = none
  shown_entry skip key (some v) = visible E C tenant skip key v

  -- The live entries among the items, in their order, without the bytes of the namespace.
  abbrev pub live_entries : ℕ → Entries → List (StateEntry C.Value)
  live_entries skip = filter_map (λ e. shown_entry skip e.0 (decoded C (some e.1)))

  pub length-live_entries-le : (skip : ℕ) (m : Entries) → length (live_entries skip m) ≤ length m
  length-live_entries-le skip m =
      length-filter_map-le (λ e. shown_entry skip e.0 (decoded C (some e.1))) m

  -- A live entry of the map is listed.
  pub live_entries-In :
      (skip : ℕ) (m : Entries) (k bytes : Bytes) (v : StoredValue C.Value)
      (entry : StateEntry C.Value)
      → In (k, bytes) m
      → C.decode bytes ≡ done v
      → visible E C tenant skip k v ≡ some entry
      → In entry (live_entries skip m)
  live_entries-In skip m k bytes v entry i e seen =
      let here : decoded C (some bytes) ≡ some v = rw (e, decoded) refl in
      filter_map-In (λ e. shown_entry skip e.0 (decoded C (some e.1))) m (k, bytes) entry i
        (ap (shown_entry skip k) here ∙ seen)

  module _ (skip : ℕ) (k bytes : Bytes) (v : StoredValue C.Value)
      (e : C.decode bytes ≡ done v) where
    entry-shown : shown_entry skip k (decoded C (some bytes)) ≡ visible E C tenant skip k v
    entry-shown =
        let here : decoded C (some bytes) ≡ some v = rw (e, decoded) refl in
        ap (shown_entry skip k) here

    live-hidden :
        (m : Entries)
        → visible E C tenant skip k v ≡ none
        → live_entries skip ((k, bytes) ∷ m) ≡ live_entries skip m
    live-hidden m hidden =
        ap (λ o. elim o [ none ↦ live_entries skip m | some y ↦ y ∷ live_entries skip m ])
          (entry-shown ∙ hidden)

    live-seen :
        (m : Entries) (entry : StateEntry C.Value)
        → visible E C tenant skip k v ≡ some entry
        → live_entries skip ((k, bytes) ∷ m) ≡ entry ∷ live_entries skip m
    live-seen m entry seen =
        ap (λ o. elim o [ none ↦ live_entries skip m | some y ↦ y ∷ live_entries skip m ])
          (entry-shown ∙ seen)

    pub scan-hidden :
        (limit : ℕ) (acc : List (StateEntry C.Value)) (items : List (Reply {0} (Bytes × Bytes)))
        → visible E C tenant skip k v ≡ none
        → prefix_loop E C tenant skip limit acc (done (k, bytes) ∷ items)
          ≡ prefix_loop E C tenant skip limit acc items
    unfolding prefix_loop
    scan-hidden limit acc items hidden = rw (e, json, ◌>>=◌, hidden) refl

    pub scan-full :
        (limit : ℕ) (acc : List (StateEntry C.Value)) (items : List (Reply {0} (Bytes × Bytes)))
        (entry : StateEntry C.Value)
        → visible E C tenant skip k v ≡ some entry
        → leb limit (length (acc ++ entry ∷ [])) ≡ true
        → prefix_loop E C tenant skip limit acc (done (k, bytes) ∷ items) ≡ ok (acc ++ entry ∷ [])
    unfolding prefix_loop
    scan-full limit acc items entry seen full = rw (e, json, ◌>>=◌, seen, full) refl

    pub scan-more :
        (limit : ℕ) (acc : List (StateEntry C.Value)) (items : List (Reply {0} (Bytes × Bytes)))
        (entry : StateEntry C.Value)
        → visible E C tenant skip k v ≡ some entry
        → leb limit (length (acc ++ entry ∷ [])) ≡ false
        → prefix_loop E C tenant skip limit acc (done (k, bytes) ∷ items)
          ≡ prefix_loop E C tenant skip limit (acc ++ entry ∷ []) items
    unfolding prefix_loop
    scan-more limit acc items entry seen more = rw (e, json, ◌>>=◌, seen, more) refl

  -- A page that is not full goes on, and the entry that fills it is the last.
  prefix_loop-takes :
      (skip limit n : ℕ) (acc : List (StateEntry C.Value)) (m : Entries)
      → limit ≡ length acc + suc n
      → Decodes m
      → prefix_loop E C tenant skip limit acc (map done m)
        ≡ ok (acc ++ take (suc n) (live_entries skip m))
  unfolding prefix_loop
  prefix_loop-takes skip limit n acc [] h d = ap ok (sym (append-nil acc))
  prefix_loop-takes skip limit n acc ((k, bytes) ∷ m) h ((v, e), rest) =
      elim (Option-cases (visible E C tenant skip k v)) [
        | inl hidden ↦
            scan-hidden skip k bytes v e limit acc (map done m) hidden
            ∙ prefix_loop-takes skip limit n acc m h rest
            ∙ ap (λ l. ok (acc ++ take (suc n) l)) (sym (live-hidden skip k bytes v e m hidden))
        | inr (entry, seen) ↦
            let listed =
              ap (λ l. ok (acc ++ take (suc n) l))
                (sym (live-seen skip k bytes v e m entry seen)) in
            let pushed = length-append acc (entry ∷ []) in
            elim (Bool-cases (leb limit (length (acc ++ entry ∷ [])))) [
              | inl full ↦
                  let last : n ≡ zero = ground (arith, pushed) in
                  scan-full skip k bytes v e limit acc (map done m) entry seen full
                  ∙ rw last refl
                  ∙ listed
              | inr more ↦
                  let left : n ≡ suc (n - 1) = ground (arith, pushed) in
                  let next : limit ≡ length (acc ++ entry ∷ []) + suc (n - 1) =
                    ground (arith, pushed) in
                  scan-more skip k bytes v e limit acc (map done m) entry seen more
                  ∙ prefix_loop-takes skip limit (n - 1) (acc ++ entry ∷ []) m next rest
                  ∙ ap ok (append_assoc acc (entry ∷ []) (take (suc (n - 1)) (live_entries skip m)))
                  ∙ ap (λ i. ok (acc ++ entry ∷ take i (live_entries skip m))) (sym left)
                  ∙ listed
            ]
      ]

  Decodes-filter :
      (p : Bytes × Bytes → Bool) (s : E.State)
      → IsStored C (held E L C tenant s)
      → Decodes (filter p (held E L C tenant s))
  Decodes-filter p s stored =
      let m = held E L C tenant s in
      All-of_In _ (filter p m) (λ (k, bytes) (i : In (k, bytes) (filter p m)).
        stored k bytes
          (lookup-In m k bytes (L.ordered s part_state) (In-filter p m (k, bytes) i).0))

  pub prefix_loop-filter :
      (p : Bytes × Bytes → Bool) (s : E.State) (skip limit : ℕ)
      → IsStored C (held E L C tenant s)
      → 0 < limit
      → prefix_loop E C tenant skip limit [] (map done (filter p (held E L C tenant s)))
        ≡ ok (take limit (live_entries skip (filter p (held E L C tenant s))))
  prefix_loop-filter p s skip limit stored some_room =
      let left : limit ≡ suc (limit - 1) = omega arith in
      let listed =
        prefix_loop-takes skip limit (limit - 1) [] (filter p (held E L C tenant s)) (omega arith)
          (Decodes-filter p s stored) in
      listed ∙ ap (λ n. ok (take n (live_entries skip (filter p (held E L C tenant s))))) (sym left)

  -- A scan answers the first live entries under the prefix, in the order of their keys.
  pub scan_prefix-pages :
      (s : E.State) (namespace prefix q p : Bytes) (limit : ℕ)
      → IsSound E L C tenant s
      → namespace_prefix tenant namespace ≡ ok q
      → state_key tenant namespace prefix ≡ ok p
      → scan_prefix E C tenant s namespace prefix limit
        ≡ ok (
            take limit
              (live_entries (length q) (filter (λ e. starts_with e.0 p) (held E L C tenant s))))
  unfolding scan_prefix
  scan_prefix-pages s namespace prefix q p limit (readable, stored) at_q at_p =
      elim (Bool-cases (limit == 0)) [
        | inl none_wanted ↦ let zero_limit : limit ≡ 0 = ground arith in rw zero_limit refl
        | inr wanted ↦
            let room : 0 < limit = ground arith in
            rw (wanted, at_q, at_p, L.prefix-entries s part_state p readable)
              (prefix_loop-filter (λ e. starts_with e.0 p) s (length q) limit stored room)
      ]
