-- ===== src/StateStore/Paging.antt =====
-- crates/mmdb/src/state.rs, `scan_prefix_after`: a page after a cursor, read from where the cursor
-- stands, is the page of all entries under the prefix that stand after it.
use mmdb.Common.{
  ℕ, ◌<◌, true, false, not, ◌&&◌, Option, none, some, List, [], ◌∷◌, ◌++◌, ◌≡◌, refl, sym, ap, ◌∙◌,
  inl, inr, arith, Bool-cases, Option-cases, map, filter, take, length, leb, ◌==◌,
}
use mmdb.Common.Bytes.{Bytes, starts_with, starts_with_self}
use mmdb.Errors.{Error, ok, err, ◌>>=◌, Result-cases, bind-ok}
use mmdb.Engine.{Engine, Reply, done, json, storage, json-ok}
use mmdb.Engine.Maps.{Entries}
use mmdb.Engine.Laws.{IsLawful, is_below}
use mmdb.StateStore.Keys.{state_key, namespace_prefix}
use mmdb.StateStore.Isolation.{starts_with-same}
use mmdb.StateStore.Entry.{StoredValue, StateEntry, Serde}
use mmdb.StateStore.Writes.{part_state}
use mmdb.StateStore.Scan.{
  visible, prefix_loop, after_loop, scan_prefix_after, is_past, is_outside, cursor_key, start_of,
}
use mmdb.StateStore.View.{IsSound, held}
use mmdb.StateStore.Listing.{live_entries, prefix_loop-filter, scan-hidden, scan-full, scan-more}
use mmdb.StateStore.Order.{page, below-starts_with, page-filter}

module _ (E : Engine) (L : IsLawful E) (C : Serde) (tenant : ℕ) where
  module _ (under : Bytes) (cursor : Option Bytes) (skip limit : ℕ)
      (acc : List (StateEntry C.Value)) (k bytes : Bytes) (items : List (Reply {0} (Bytes × Bytes)))
      (inside : starts_with k under ≡ true) where
    after-early :
        is_past cursor k ≡ false
        → after_loop E C tenant under cursor skip limit acc (done (k, bytes) ∷ items)
          ≡ after_loop E C tenant under cursor skip limit acc items
    unfolding after_loop
    after-early early = rw (storage, ◌>>=◌, inside, early) refl

    after-broken :
        (e : Error)
        → is_past cursor k ≡ true
        → json (C.decode bytes) ≡ err e
        → after_loop E C tenant under cursor skip limit acc (done (k, bytes) ∷ items) ≡ err e
    unfolding after_loop
    after-broken e past broken = rw (storage, ◌>>=◌, inside, past, broken) refl

    after-hidden :
        (v : StoredValue C.Value)
        → is_past cursor k ≡ true
        → C.decode bytes ≡ done v
        → visible E C tenant skip k v ≡ none
        → after_loop E C tenant under cursor skip limit acc (done (k, bytes) ∷ items)
          ≡ after_loop E C tenant under cursor skip limit acc items
    unfolding after_loop
    after-hidden v past decodes hidden =
        rw (storage, ◌>>=◌, inside, past, decodes, json, hidden) refl

    after-full :
        (v : StoredValue C.Value) (entry : StateEntry C.Value)
        → is_past cursor k ≡ true
        → C.decode bytes ≡ done v
        → visible E C tenant skip k v ≡ some entry
        → leb limit (length (acc ++ entry ∷ [])) ≡ true
        → after_loop E C tenant under cursor skip limit acc (done (k, bytes) ∷ items)
          ≡ ok (acc ++ entry ∷ [])
    unfolding after_loop
    after-full v entry past decodes seen full =
        rw (storage, ◌>>=◌, inside, past, decodes, json, seen, full) refl

    after-more :
        (v : StoredValue C.Value) (entry : StateEntry C.Value)
        → is_past cursor k ≡ true
        → C.decode bytes ≡ done v
        → visible E C tenant skip k v ≡ some entry
        → leb limit (length (acc ++ entry ∷ [])) ≡ false
        → after_loop E C tenant under cursor skip limit acc (done (k, bytes) ∷ items)
          ≡ after_loop E C tenant under cursor skip limit (acc ++ entry ∷ []) items
    unfolding after_loop
    after-more v entry past decodes seen more =
        rw (storage, ◌>>=◌, inside, past, decodes, json, seen, more) refl

    scan-kept :
        (m : Entries)
        → is_past cursor k ≡ true
        → prefix_loop E C tenant skip limit acc (map done (page under cursor ((k, bytes) ∷ m)))
          ≡ prefix_loop E C tenant skip limit acc (done (k, bytes) ∷ map done (page under cursor m))
    scan-kept m past =
        let kept : page under cursor ((k, bytes) ∷ m) ≡ (k, bytes) ∷ page under cursor m =
          rw (inside, past) refl in
        ap (λ l. prefix_loop E C tenant skip limit acc (map done l)) kept

  scan-broken :
      (skip limit : ℕ) (acc : List (StateEntry C.Value)) (k bytes : Bytes)
      (items : List (Reply {0} (Bytes × Bytes))) (e : Error)
      → json (C.decode bytes) ≡ err e
      → prefix_loop E C tenant skip limit acc (done (k, bytes) ∷ items) ≡ err e
  unfolding prefix_loop
  scan-broken skip limit acc k bytes items e broken = rw (storage, ◌>>=◌, broken) refl

  after_loop-stop :
      (under : Bytes) (cursor : Option Bytes) (skip limit : ℕ) (acc : List (StateEntry C.Value))
      (k bytes : Bytes) (m : Entries)
      → starts_with k under ≡ false
      → after_loop E C tenant under cursor skip limit acc (map done ((k, bytes) ∷ m))
        ≡ prefix_loop E C tenant skip limit acc (map done (page under cursor ((k, bytes) ∷ m)))
  unfolding after_loop prefix_loop
  after_loop-stop under cursor skip limit acc k bytes m outside =
      let stops : page under cursor ((k, bytes) ∷ m) ≡ [] = rw outside refl in
      rw stops (rw (storage, ◌>>=◌, outside) refl)

  after_loop-page :
      (under : Bytes) (cursor : Option Bytes) (skip limit : ℕ) (acc : List (StateEntry C.Value))
      (m : Entries)
      → after_loop E C tenant under cursor skip limit acc (map done m)
        ≡ prefix_loop E C tenant skip limit acc (map done (page under cursor m))
  unfolding after_loop prefix_loop
  after_loop-page under cursor skip limit acc [] = refl
  after_loop-page under cursor skip limit acc ((k, bytes) ∷ m) =
      elim (Bool-cases (starts_with k under)) [
        | inr outside ↦ after_loop-stop under cursor skip limit acc k bytes m outside
        | inl inside ↦
            let ms = map done m in
            let later = page under cursor m in
            elim (Bool-cases (is_past cursor k)) [
              | inr early ↦
                  let dropped : page under cursor ((k, bytes) ∷ m) ≡ later =
                    rw (inside, early) refl in
                  after-early under cursor skip limit acc k bytes ms inside early
                  ∙ after_loop-page under cursor skip limit acc m
                  ∙ ap (λ l. prefix_loop E C tenant skip limit acc (map done l)) (sym dropped)
              | inl past ↦
                  let kept = sym (scan-kept under cursor skip limit acc k bytes ms inside m past) in
                  elim (Result-cases (json (C.decode bytes))) [
                    | inr (e, broken) ↦
                        after-broken under cursor skip limit acc k bytes ms inside e past broken
                        ∙ sym (scan-broken skip limit acc k bytes (map done later) e broken)
                        ∙ kept
                    | inl (v, decoded) ↦
                        let decodes = json-ok (C.decode bytes) v decoded in
                        elim (Option-cases (visible E C tenant skip k v)) [
                          | inl hidden ↦
                              after-hidden under cursor skip limit acc k bytes ms inside v past
                                decodes hidden
                              ∙ after_loop-page under cursor skip limit acc m
                              ∙ sym (
                                  scan-hidden E L C tenant skip k bytes v decodes limit acc
                                    (map done later) hidden)
                              ∙ kept
                          | inr (entry, seen) ↦
                              elim (Bool-cases (leb limit (length (acc ++ entry ∷ [])))) [
                                | inl full ↦
                                    after-full under cursor skip limit acc k bytes ms inside v entry
                                      past decodes seen full
                                    ∙ sym (
                                        scan-full E L C tenant skip k bytes v decodes limit acc
                                          (map done later) entry seen full)
                                    ∙ kept
                                | inr more ↦
                                    after-more under cursor skip limit acc k bytes ms inside v entry
                                      past decodes seen more
                                    ∙ after_loop-page under cursor skip limit (acc ++ entry ∷ []) m
                                    ∙ sym (
                                        scan-more E L C tenant skip k bytes v decodes limit acc
                                          (map done later) entry seen more)
                                    ∙ kept
                              ]
                        ]
                  ]
            ]
      ]

  start_of-under :
      (namespace prefix p : Bytes) (after c : Option Bytes)
      → state_key tenant namespace prefix ≡ ok p
      → cursor_key tenant namespace after ≡ ok c
      → is_outside after prefix ≡ false
      → starts_with (start_of E C tenant c p) p ≡ true
  unfolding cursor_key is_outside
  start_of-under namespace prefix p none c at_p at_c inside =
      let empty : none ≡ c = cc in rw (sym empty) (starts_with_self p)
  start_of-under namespace prefix p (some key) c at_p at_c inside =
      let (q, at_q, e) = bind-ok (state_key tenant namespace key) _ c at_c in
      let here : some q ≡ c = cc in
      rw (sym here) (starts_with-same tenant namespace prefix key p q at_p at_q ∙ ground arith)

  start-before :
      (p : Bytes) (c : Option Bytes) (k : Bytes)
      → starts_with k p && is_past c k ≡ true
      → is_below k (start_of E C tenant c p) ≡ false
  start-before p none k h = below-starts_with k p (ground arith)
  start-before p (some c) k h = ground arith

  -- The cursor's page: the first live entries under the prefix whose keys come after it.
  pub scan_prefix_after-pages :
      (s : E.State) (namespace prefix q p : Bytes) (after c : Option Bytes) (limit : ℕ)
      → IsSound E L C tenant s
      → namespace_prefix tenant namespace ≡ ok q
      → state_key tenant namespace prefix ≡ ok p
      → cursor_key tenant namespace after ≡ ok c
      → is_outside after prefix ≡ false
      → scan_prefix_after E C tenant s namespace prefix after limit
        ≡ ok (
            take limit (
              live_entries E L C tenant
                (length q)
                (filter (λ e. starts_with e.0 p && is_past c e.0) (held E L C tenant s))))
  unfolding scan_prefix_after
  scan_prefix_after-pages s namespace prefix q p after c limit (readable, stored) at_q at_p at_c
        inside =
      elim (Bool-cases (limit == 0)) [
        | inl none_wanted ↦ let zero_limit : limit ≡ 0 = ground arith in rw zero_limit refl
        | inr wanted ↦
            let m = held E L C tenant s in
            let start = start_of E C tenant c p in
            let room : 0 < limit = ground arith in
            let under : starts_with start p ≡ true =
              start_of-under namespace prefix p after c at_p at_c inside in
            let placed =
              page-filter p start c m under (start-before p c) (L.ordered s part_state) in
            rw (wanted, inside, at_q, at_p, at_c, L.range_from-entries s part_state start readable)
              (after_loop-page p c (length q) limit [] (filter (λ e. not (is_below e.0 start)) m)
                ∙ ap (λ l. prefix_loop E C tenant (length q) limit [] (map done l)) placed
                ∙ prefix_loop-filter E L C tenant (λ e. starts_with e.0 p && is_past c e.0) s
                    (length q) limit stored room)
      ]
