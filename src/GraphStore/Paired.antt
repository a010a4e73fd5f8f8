-- ===== src/GraphStore/Paired.antt =====
-- crates/mmdb-graph/src/lib.rs: the two partitions hold the same edges, whatever the writes answer.
use Prim.Native.Nat.{bit_xor}
use mmdb.Common.{
  ℕ, ◌^◌, ◌*◌, ◌%◌, ◌<◌, Bool, true, false, ◌&&◌, Option, none, some, List, [], ◌∷◌, ◌++◌, ◌≡◌,
  refl, sym, ap, ap₂, ◌∙◌, arith, String, ◌==◌, compare, then_with, is_eq, inl, inr, ◌⊎◌,
}
use mmdb.Common.Bytes.{Bytes, bytes_eq, to_be_bytes, cmp_bytes-field, cmp_bytes-to_be_bytes}
use mmdb.Common.Sorted.{Sorted}
use mmdb.Errors.{Error, Result, err, Result-cases}
use mmdb.Engine.{Engine, Reply, done, failed, json, json-ok, Write}
use mmdb.Engine.Maps.{Entries, Before, lookup, put, erase, lookup-put, lookup-erase}
use mmdb.Engine.Laws.{IsLawful, written}
use mmdb.GraphStore.Keys.{hash_from, label_hash, out_key, in_key}
use mmdb.GraphStore.Edges.{
  Edge, EdgeSerde, part_out, part_in, add_batch, add_edge, remove_batch, remove_edge, after_commit,
}

abbrev pub is_some {ℓ} : {A : Type ℓ} → Option A → Bool
is_some none = false
is_some (some _) = true

hash_from-lt : (h : ℕ) (bytes : Bytes) → h < 2 ^ 32 → hash_from h bytes < 2 ^ 32
unfolding hash_from
hash_from-lt h [] lt = lt
hash_from-lt h (b ∷ bytes) lt =
    hash_from-lt (bit_xor h b * 0x0100_0193 % 2 ^ 32) bytes (omega arith)

pub label_hash-lt : (label : Bytes) → label_hash label < 2 ^ 32
unfolding label_hash
label_hash-lt label = hash_from-lt 0x811C_9DC5 label (omega arith)

-- Both keys of an edge are equal to those of another exactly where tenant, ends and label hash are.
bytes_eq-out_key :
    (t t' s s' l l' d d' : ℕ)
    → t < 2 ^ 32
    → t' < 2 ^ 32
    → s < 2 ^ 128
    → s' < 2 ^ 128
    → l < 2 ^ 32
    → l' < 2 ^ 32
    → d < 2 ^ 128
    → d' < 2 ^ 128
    → bytes_eq (out_key t s l d) (out_key t' s' l' d')
      ≡ ((t == t') && ((s == s') && ((l == l') && (d == d'))))
unfolding out_key
bytes_eq-out_key t t' s s' l l' d d' ht ht' hs hs' hl hl' hd hd' =
    ap is_eq (
      cmp_bytes-field 4 t t' (to_be_bytes 16 s ++ (to_be_bytes 4 l ++ to_be_bytes 16 d))
        (to_be_bytes 16 s' ++ (to_be_bytes 4 l' ++ to_be_bytes 16 d')) (omega arith) (omega arith)
      ∙ ap (then_with (compare t t')) (
          cmp_bytes-field 16 s s' (to_be_bytes 4 l ++ to_be_bytes 16 d)
            (to_be_bytes 4 l' ++ to_be_bytes 16 d') (omega arith) (omega arith)
          ∙ ap (then_with (compare s s')) (
              cmp_bytes-field 4 l l' (to_be_bytes 16 d) (to_be_bytes 16 d') (omega arith)
                (omega arith)
              ∙ ap (then_with (compare l l'))
                  (cmp_bytes-to_be_bytes 16 d d' (omega arith) (omega arith)))))
    ∙ ground arith

abbrev pub InBounds : ℕ → ℕ → ℕ → ℕ → Type 0
InBounds t s l d = (t < 2 ^ 32) × (s < 2 ^ 128) × (l < 2 ^ 32) × (d < 2 ^ 128)

pub in_key-out_key : (t s l d : ℕ) → in_key t d l s ≡ out_key t d l s
unfolding out_key in_key
in_key-out_key t s l d = refl

same_keys :
    (t t' s s' l l' d d' : ℕ)
    → InBounds t s l d
    → InBounds t' s' l' d'
    → bytes_eq (out_key t s l d) (out_key t' s' l' d')
      ≡ bytes_eq (in_key t d l s) (in_key t' d' l' s')
same_keys t t' s s' l l' d d' (ht, hs, hl, hd) (ht', hs', hl', hd') =
    bytes_eq-out_key t t' s s' l l' d d' ht ht' hs hs' hl hl' hd hd'
    ∙ ground arith
    ∙ sym (bytes_eq-out_key t t' d d' l l' s s' ht ht' hd hd' hl hl' hs hs')
    ∙ ap₂ bytes_eq (sym (in_key-out_key t s l d)) (sym (in_key-out_key t' s' l' d'))

-- Each edge stands in both partitions or in neither.
abbrev pub IsPaired : Entries → Entries → Type 0
IsPaired out inn =
    (t s l d : ℕ)
    → InBounds t s l d
    → is_some (lookup (out_key t s l d) out) ≡ is_some (lookup (in_key t d l s) inn)

put-IsPaired :
    (out inn : Entries) (t s l d : ℕ) (v w : Bytes)
    → InBounds t s l d
    → IsPaired out inn
    → IsPaired (put (out_key t s l d) v out) (put (in_key t d l s) w inn)
put-IsPaired out inn t s l d v w b h t' s' l' d' b' =
    rw
      (
        lookup-put (out_key t' s' l' d') (out_key t s l d) v out,
        lookup-put (in_key t' d' l' s') (in_key t d l s) w inn,
        same_keys t' t s' s l' l d' d b' b,
      )
      (ground (arith, h t' s' l' d' b'))

erase-IsPaired :
    (out inn : Entries) (t s l d : ℕ)
    → Sorted Before out
    → Sorted Before inn
    → InBounds t s l d
    → IsPaired out inn
    → IsPaired (erase (out_key t s l d) out) (erase (in_key t d l s) inn)
erase-IsPaired out inn t s l d so si b h t' s' l' d' b' =
    rw
      (
        lookup-erase (out_key t' s' l' d') (out_key t s l d) out so,
        lookup-erase (in_key t' d' l' s') (in_key t d l s) inn si,
        same_keys t' t s' s l' l d' d b' b,
      )
      (ground (arith, h t' s' l' d' b'))

-- The writes of a graph store between ids of 128 bits, whatever they answer, one after the other.
pub data Changes (E : Engine) (C : EdgeSerde) (tenant : ℕ) : E.State → E.State → Type 0 where
  no_change : {s : E.State} → Changes E C tenant s s
  added :
      {s s' s'' : E.State} {r : Result {0} Unit} (e : Edge C.Details)
      → e.src < 2 ^ 128
      → e.dst < 2 ^ 128
      → add_edge E C tenant s e ≡ (s', r)
      → Changes E C tenant s' s''
      → Changes E C tenant s s''
  removed :
      {s s' s'' : E.State} {r : Result {0} Unit} (src dst : ℕ) (label : Bytes)
      → src < 2 ^ 128
      → dst < 2 ^ 128
      → remove_edge E C tenant s src dst label ≡ (s', r)
      → Changes E C tenant s' s''
      → Changes E C tenant s s''

module _ (E : Engine) (L : IsLawful E) (C : EdgeSerde) (tenant : ℕ) where
  -- Both writes end with the whole batch written, or with nothing written.
  pub after_commit-entries :
      (s s' : E.State) (batch : List Write) (r : Result {0} Unit)
      → after_commit E C tenant (E.commit s batch) ≡ (s', r)
      → ((p : String) → L.entries s' p ≡ written p batch (L.entries s p))
        ⊎ (((p : String) → L.entries s' p ≡ L.entries s p)
            × ((text : String) × (r ≡ err (Error.storage text))))
  after_commit-entries s s' batch r e = go (E.commit s batch) refl e
    where
      go :
          (x : E.State × Reply {0} Unit)
          → E.commit s batch ≡ x
          → after_commit E C tenant x ≡ (s', r)
          → ((p : String) → L.entries s' p ≡ written p batch (L.entries s p))
            ⊎ (((p : String) → L.entries s' p ≡ L.entries s p)
                × ((text : String) × (r ≡ err (Error.storage text))))
      go (t, done _) c h =
          let same : t ≡ s' = ap (λ x. x.0) h in
          inl (λ p. rw (sym same) (L.commit-done s t batch c p))
      go (t, failed text) c h =
          let same : t ≡ s' = ap (λ x. x.0) h in
          inr (
            (λ p. rw (sym same) (L.commit-failed s t batch text c p)),
            (text, sym (ap (λ x. x.1) h)),
          )

  -- The partitions of a state hold the same edges.
  abbrev pub Paired : E.State → Type 0
  Paired s = IsPaired (L.entries s part_out) (L.entries s part_in)

  add-Paired :
      (s s' : E.State) (e : Edge C.Details) (r : Result {0} Unit)
      → tenant < 2 ^ 32
      → e.src < 2 ^ 128
      → e.dst < 2 ^ 128
      → Paired s
      → add_edge E C tenant s e ≡ (s', r)
      → Paired s'
  unfolding add_edge add_batch written
  add-Paired s s' e r ht hs hd h at = elim (Result-cases (json (C.encode e))) [
    | inr (x, refused) ↦
        let same : s ≡ s' = ap (λ y. y.0) (rw (refused, add_edge) at at) in rw (sym same) h
    | inl (value, encoded) ↦
        elim (after_commit-entries s s' (add_batch E C tenant e value) r
          (rw (encoded, add_edge) at at)) [
            | inl wrote ↦
                rw (wrote part_out, wrote part_in)
                  (put-IsPaired _ _ tenant e.src (label_hash e.label) e.dst value []
                    (ht, hs, label_hash-lt e.label, hd) h)
            | inr (kept, _) ↦ rw (kept part_out, kept part_in) h
          ]
  ]

  remove-Paired :
      (s s' : E.State) (src dst : ℕ) (label : Bytes) (r : Result {0} Unit)
      → tenant < 2 ^ 32
      → src < 2 ^ 128
      → dst < 2 ^ 128
      → Paired s
      → remove_edge E C tenant s src dst label ≡ (s', r)
      → Paired s'
  unfolding remove_edge remove_batch written
  remove-Paired s s' src dst label r ht hs hd h at =
      elim (after_commit-entries s s' (remove_batch E C tenant src dst label) r at) [
        | inl wrote ↦
            rw (wrote part_out, wrote part_in)
              (erase-IsPaired _ _ tenant src (label_hash label) dst (L.ordered s part_out)
                (L.ordered s part_in) (ht, hs, label_hash-lt label, hd) h)
        | inr (kept, _) ↦ rw (kept part_out, kept part_in) h
      ]

  pub Paired-Changes :
      (s s' : E.State) → tenant < 2 ^ 32 → Changes E C tenant s s' → Paired s → Paired s'
  Paired-Changes s s' ht no_change h = h
  Paired-Changes s s' ht (added {s' = t} e hs hd at later) h =
      Paired-Changes t s' ht later (add-Paired s t e _ ht hs hd h at)
  Paired-Changes s s' ht (removed {s' = t} src dst label hs hd at later) h =
      Paired-Changes t s' ht later (remove-Paired s t src dst label _ ht hs hd h at)

  -- An edge is written as a whole or not at all, whatever the call answers.
  pub add_edge_atomic :
      (s s' : E.State) (e : Edge C.Details) (r : Result {0} Unit)
      → add_edge E C tenant s e ≡ (s', r)
      → ((value : Bytes) × (C.encode e ≡ done value)
          × ((p : String)
              → L.entries s' p ≡ written p (add_batch E C tenant e value) (L.entries s p)))
        ⊎ (((p : String) → L.entries s' p ≡ L.entries s p) × ((x : Error) × (r ≡ err x)))
  unfolding add_edge
  add_edge_atomic s s' e r at = elim (Result-cases (json (C.encode e))) [
    | inr (x, refused) ↦
        let stopped = rw (refused, add_edge) at at in
        let same : s ≡ s' = ap (λ y. y.0) stopped in
        inr ((λ p. ap (λ t. L.entries t p) (sym same)), (x, sym (ap (λ y. y.1) stopped)))
    | inl (value, encoded) ↦
        elim (after_commit-entries s s' (add_batch E C tenant e value) r
          (rw (encoded, add_edge) at at)) [
            | inl wrote ↦ inl (value, json-ok (C.encode e) value encoded, wrote)
            | inr (kept, (text, answer)) ↦ inr (kept, (Error.storage text, answer))
          ]
  ]
