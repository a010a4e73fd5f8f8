-- ===== src/StateStore/Tests.antt =====
-- The theorems on the state store at a store in memory, with the values kept as numbers.
use mmdb.Common.{
  ℕ, ◌≤◌, ◌&&◌, ◌⊎◌, ◌↔◌, true, none, some, List, [], ◌∷◌, ◌≡◌, refl, arith, All, filter, take,
  length, String,
}
use mmdb.Common.Bytes.{Bytes, starts_with}
use mmdb.Common.BTreeMap as BTreeMap
use mmdb.Common.Int.{pos}
use mmdb.Errors.{Error, ok, err}
use mmdb.Words.{usize_max}
use mmdb.Engine.{Engine, Write, insert}
use mmdb.Engine.Commits.{commit_with}
use mmdb.Engine.Laws.{IsLawful, written}
use mmdb.Engine.Maps.{lookup, put as put_entry}
use mmdb.Engine.Memory.{memory_engine, memory_engine-IsLawful}
use mmdb.StateStore.Keys.{state_key, namespace_prefix}
use mmdb.StateStore.Entry.{
  StateEntry, put_value, NamespacedStateMutation, mutation_key, expected_revision, check_revision,
  next_revision, actual_revision,
}
use mmdb.StateStore.Writes.{
  part_state, apply, in_namespace, prepare_put, apply_namespaced, prepare_batch, prepare,
  prepare_one, get, put, get_stored, parse, fill_batch, stored_after,
}
use mmdb.StateStore.Scan.{
  scan_prefix, scan_prefix_after, replace_prefix, prepare_replacement, replacement_keys,
  replacement, prefix_loop, visible,
}
use mmdb.StateStore.View.{IsKept, IsStored, view, held}
use mmdb.StateStore.Isolation.{state_key_inj, starts_with-state_key}
use mmdb.StateStore.Commit.{Touches, apply_namespaced-effect}
use mmdb.StateStore.Committed.{
  Committed, raised, read_back, apply_namespaced-commits, apply_namespaced-get,
}
use mmdb.StateStore.Single.{forget, put-apply, get-put}
use mmdb.StateStore.History.{
  Run, by_batch, rest, then_step, revision_at, revision_at-Run, apply_namespaced-conflict,
  stale-Run,
}
use mmdb.StateStore.Pages.{listed, is_after, scan_prefix-takes, scan_prefix_after-takes}
use mmdb.StateStore.Replaced.{replace_prefix-get}
use mmdb.StateStore.Numbers.{numbers, numbers-IsFaithful}

-- A store of 10 writes a batch, a namespace, and a value at key 1 of it.
abbrev engine : Engine
engine = memory_engine 10

abbrev laws : IsLawful engine
laws = memory_engine-IsLawful 10

abbrev one : ℕ
one = 1

abbrev chat : Bytes
chat = 99 ∷ []

abbrev chat_key : Bytes → Bytes
chat_key key = 0 ∷ 0 ∷ 0 ∷ 1 ∷ 0 ∷ 1 ∷ 99 ∷ key

abbrev write_one : NamespacedStateMutation ℕ
write_one = record { namespace = chat; mutation = put_value (1 ∷ []) 7 none }

abbrev first_state : List Write
first_state = insert part_state (chat_key (1 ∷ [])) (7 ∷ 1 ∷ 0 ∷ 0 ∷ 5 ∷ []) ∷ []

first_batch : apply_namespaced engine numbers 1 [] (write_one ∷ []) (pos 5) ≡ (first_state, ok tt)
unfolding apply_namespaced commit_with prepare_batch prepare prepare_one mutation_key
    expected_revision check_revision actual_revision state_key namespace_prefix get_stored parse
    next_revision fill_batch stored_after lookup put_entry written BTreeMap.get BTreeMap.insert
first_batch = refl

empty-IsStored : IsStored numbers (held engine laws numbers 1 [])
unfolding written lookup BTreeMap.get
empty-IsStored k bytes e = cc

first_put : put engine numbers 1 [] chat (1 ∷ []) 7 (pos 5) ≡ (first_state, ok 1)
unfolding put prepare_put apply_namespaced commit_with prepare_batch prepare prepare_one
    mutation_key expected_revision check_revision actual_revision state_key namespace_prefix
    get_stored parse next_revision fill_batch stored_after lookup put_entry written BTreeMap.get
    BTreeMap.insert
first_put = refl

first_replacement :
    replace_prefix engine numbers 1 [] chat [] ((1 ∷ [], 7) ∷ []) (pos 5) ≡ (first_state, ok tt)
unfolding replace_prefix prepare_replacement replacement_keys replacement scan_prefix prefix_loop
    visible apply in_namespace apply_namespaced commit_with prepare_batch prepare prepare_one
    mutation_key expected_revision check_revision actual_revision state_key namespace_prefix
    get_stored parse next_revision fill_batch stored_after lookup put_entry written BTreeMap.get
    BTreeMap.insert
first_replacement = refl

abbrev duplicate : Error
duplicate = Error.invalid_argument "duplicate state key in batch"

written_twice :
    apply_namespaced engine numbers 1 first_state (write_one ∷ write_one ∷ []) (pos 5)
    ≡ (first_state, err duplicate)
unfolding apply_namespaced commit_with prepare_batch prepare prepare_one mutation_key
    expected_revision check_revision actual_revision state_key namespace_prefix get_stored parse
    next_revision fill_batch stored_after lookup put_entry written BTreeMap.get BTreeMap.insert
written_twice = refl

one_key : state_key 1 chat (1 ∷ []) ≡ ok (chat_key (1 ∷ []))
unfolding state_key namespace_prefix
one_key = refl

one_keyed :
    state_key 1 write_one.namespace (mutation_key write_one.mutation) ≡ ok (chat_key (1 ∷ []))
unfolding mutation_key
one_keyed = one_key

chat_prefix : namespace_prefix 1 chat ≡ ok (chat_key [])
unfolding namespace_prefix
chat_prefix = refl

whole_chat : state_key 1 chat [] ≡ ok (chat_key [])
unfolding state_key namespace_prefix
whole_chat = refl

one-IsKept : All (λ m. IsKept numbers-IsFaithful m.mutation) (write_one ∷ [])
one-IsKept = (tt, tt)

first-IsStored : IsStored numbers (held engine laws numbers 1 first_state)
first-IsStored =
    (apply_namespaced-effect engine laws numbers numbers-IsFaithful 1 [] first_state
        (write_one ∷ []) (pos 5) one-IsKept first_batch).2
      empty-IsStored

-- A mutation that expects revision `r` at the key.
abbrev expecting : ℕ → NamespacedStateMutation ℕ
expecting r = record { namespace = chat; mutation = put_value (1 ∷ []) 8 (some r) }

first_revision :
    revision_at engine laws numbers numbers-IsFaithful 1 first_state (chat_key (1 ∷ [])) ≡ 1
unfolding lookup written BTreeMap.get BTreeMap.insert put_entry actual_revision
first_revision = refl

empty_revision : revision_at engine laws numbers numbers-IsFaithful 1 [] (chat_key (1 ∷ [])) ≡ 0
unfolding lookup written BTreeMap.get actual_revision
empty_revision = refl

empty_few : length (held engine laws numbers 1 []) ≤ usize_max
unfolding written
empty_few = omega arith

state_key_inj_example : (one ≡ one) × (chat ≡ chat) × (◌≡◌ {A = Bytes} (1 ∷ []) (1 ∷ []))
state_key_inj_example =
    state_key_inj 1 1 chat chat (1 ∷ []) (1 ∷ []) (chat_key (1 ∷ [])) (omega arith) (omega arith)
      one_key one_key

starts_with-state_key_example :
    (starts_with (chat_key (1 ∷ [])) (chat_key []) ≡ true)
    ↔ ((one ≡ one) × (chat ≡ chat) × (starts_with (1 ∷ []) [] ≡ true))
starts_with-state_key_example =
    starts_with-state_key 1 1 chat chat [] (1 ∷ []) (chat_key []) (chat_key (1 ∷ [])) (omega arith)
      (omega arith) whole_chat one_key

apply_namespaced-commits_example :
    All
      (Committed engine laws numbers numbers-IsFaithful 1 []
        (view engine laws numbers 1 first_state)
        (pos 5))
      (write_one ∷ [])
    × ((k : Bytes)
        → (view engine laws numbers 1 first_state k ≡ view engine laws numbers 1 [] k)
          ⊎ Touches engine laws numbers numbers-IsFaithful 1 (write_one ∷ []) k)
apply_namespaced-commits_example =
    apply_namespaced-commits engine laws numbers numbers-IsFaithful 1 [] first_state
      (write_one ∷ []) (pos 5) one-IsKept first_batch

put-apply_example :
    forget engine numbers 1 (put engine numbers 1 [] chat (1 ∷ []) 7 (pos 5))
    ≡ apply engine numbers 1 [] chat (put_value (1 ∷ []) 7 none ∷ []) (pos 5)
put-apply_example = put-apply engine numbers 1 [] chat (1 ∷ []) 7 (pos 5)

abbrev one_entry : StateEntry ℕ
one_entry = record { key = 1 ∷ []; value = 7; revision = 1; updated_at_ms = pos 5 }

get-put_example : get engine numbers 1 first_state chat (1 ∷ []) ≡ ok (some one_entry)
get-put_example =
    get-put engine laws numbers numbers-IsFaithful 1 [] first_state chat (1 ∷ []) 7 (pos 5) 1 tt
      empty-IsStored tt first_put

apply_namespaced-get_example :
    (k : Bytes) × (state_key 1 write_one.namespace (mutation_key write_one.mutation) ≡ ok k)
    × (get engine numbers 1 first_state write_one.namespace (mutation_key write_one.mutation)
        ≡ ok (
            read_back numbers
              (pos 5)
              (raised (view engine laws numbers 1 [] k))
              write_one.mutation))
apply_namespaced-get_example =
    apply_namespaced-get engine laws numbers numbers-IsFaithful 1 [] first_state (write_one ∷ [])
      (pos 5) write_one one-IsKept empty-IsStored tt first_batch (0, refl)

abbrev run_of_one : Run engine numbers numbers-IsFaithful 1 [] first_state
run_of_one = then_step (by_batch (write_one ∷ []) (pos 5) one-IsKept first_batch) rest

revision_at-Run_example :
    revision_at engine laws numbers numbers-IsFaithful 1 [] (chat_key (1 ∷ []))
    ≤ revision_at engine laws numbers numbers-IsFaithful 1 first_state (chat_key (1 ∷ []))
revision_at-Run_example =
    revision_at-Run engine laws numbers numbers-IsFaithful 1 [] first_state (chat_key (1 ∷ []))
      run_of_one

expecting_keyed :
    (r : ℕ)
    → state_key 1 (expecting r).namespace (mutation_key (expecting r).mutation)
      ≡ ok (chat_key (1 ∷ []))
unfolding mutation_key
expecting_keyed r = one_key

expecting_revision : (r : ℕ) → expected_revision (expecting r).mutation ≡ some r
unfolding expected_revision
expecting_revision r = refl

apply_namespaced-conflict_example :
    (s' : engine.State) × (e : Error) × (apply_namespaced engine numbers 1 first_state
        (expecting 3 ∷ [])
        (pos 6)
      ≡ (s', err e))
    × ((p : String) → laws.entries s' p ≡ laws.entries first_state p)
apply_namespaced-conflict_example =
    apply_namespaced-conflict engine laws numbers numbers-IsFaithful 1 first_state
      (expecting 3 ∷ []) (pos 6) (expecting 3) (chat_key (1 ∷ [])) 3 (0, refl) (expecting_keyed 3)
      (expecting_revision 3) (λ same. omega (arith, first_revision, same))

stale-Run_example :
    (t : engine.State) × (e : Error) × (apply_namespaced engine numbers 1 first_state
        (expecting 0 ∷ [])
        (pos 6)
      ≡ (t, err e))
    × ((p : String) → laws.entries t p ≡ laws.entries first_state p)
stale-Run_example =
    stale-Run engine laws numbers numbers-IsFaithful 1 [] first_state first_state (write_one ∷ [])
      (expecting 0 ∷ []) (pos 5) (pos 6) write_one (expecting 0) (chat_key (1 ∷ [])) 0 one-IsKept
      first_batch (0, refl) one_keyed (omega (arith, empty_revision)) rest (0, refl)
      (expecting_keyed 0) (expecting_revision 0) (omega arith)

scan_prefix-takes_example :
    scan_prefix engine numbers 1 first_state chat [] 10
    ≡ ok (
        take 10 (
          listed numbers
            (length (chat_key []))
            (filter (λ e. starts_with e.0 (chat_key [])) (held engine laws numbers 1 first_state))))
scan_prefix-takes_example =
    scan_prefix-takes engine laws numbers 1 first_state chat [] (chat_key []) (chat_key []) 10
      (tt, first-IsStored) chat_prefix whole_chat

empty_key : state_key 1 chat (0 ∷ []) ≡ ok (chat_key (0 ∷ []))
unfolding state_key namespace_prefix
empty_key = refl

scan_prefix_after-takes_example :
    scan_prefix_after engine numbers 1 first_state chat [] (some (0 ∷ [])) 10
    ≡ ok (
        take 10 (
          listed numbers (length (chat_key [])) (
            filter
              (λ e. starts_with e.0 (chat_key []) && is_after (some (chat_key (0 ∷ []))) e.0)
              (held engine laws numbers 1 first_state))))
scan_prefix_after-takes_example =
    scan_prefix_after-takes engine laws numbers 1 first_state chat [] (chat_key []) (chat_key [])
      (some (0 ∷ [])) (some (chat_key (0 ∷ []))) 10 (tt, first-IsStored) chat_prefix whole_chat
      (empty_key, refl)

replace_prefix-get_example :
    (r : ℕ) × (get engine numbers 1 first_state chat (1 ∷ [])
      ≡ ok (some record { key = 1 ∷ []; value = 7; revision = r; updated_at_ms = pos 5 }))
replace_prefix-get_example =
    replace_prefix-get engine laws numbers numbers-IsFaithful 1 [] first_state chat []
      ((1 ∷ [], 7) ∷ []) (pos 5) (1 ∷ []) 7 (tt, tt) (tt, empty-IsStored) tt empty_few
      first_replacement (0, refl)
