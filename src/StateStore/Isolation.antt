-- ===== src/StateStore/Isolation.antt =====
-- crates/mmdb/src/state.rs: the encoded keys keep tenants, namespaces and keys apart, also under a scan.
use mmdb.Common.{ℕ, ◌^◌, ◌<◌, ◌≤◌, length, ◌++◌, ◌≡◌, refl, sym, ap, ◌∙◌, arith, true, ◌↔◌}
use mathlib.Core.List.{append_assoc}
use mmdb.Common.Bytes.{
  Bytes, to_be_bytes, to_be_bytes_inj, starts_with, starts_with-append, append_inj,
  starts_with_split, starts_with-prefix,
}
use mmdb.Errors.{ok, ◌>>=◌}
use mmdb.StateStore.Keys.{namespace_prefix, state_key}

-- The bytes before a key.
abbrev head : ℕ → Bytes → Bytes → Bytes
head tenant namespace rest =
    to_be_bytes 4 tenant ++ to_be_bytes 2 (length namespace) ++ namespace ++ rest

head_inj :
    (t t' : ℕ) (ns ns' x y : Bytes)
    → t < 2 ^ 32
    → t' < 2 ^ 32
    → length ns ≤ 65535
    → length ns' ≤ 65535
    → head t ns x ≡ head t' ns' y
    → (t ≡ t') × (ns ≡ ns') × (x ≡ y)
head_inj t t' ns ns' x y ht ht' hn hn' e =
    let (tenants, rest) = append_inj (to_be_bytes 4 t) (to_be_bytes 4 t') _ _ refl e in
    let (lengths, rest') =
      append_inj (to_be_bytes 2 (length ns)) (to_be_bytes 2 (length ns')) _ _ refl rest in
    let same_length =
      to_be_bytes_inj 2 (length ns) (length ns') (omega arith) (omega arith) lengths in
    let (names, tails) = append_inj ns ns' x y same_length rest' in
    (to_be_bytes_inj 4 t t' (omega arith) (omega arith) tenants, names, tails)

state_key-head :
    (t : ℕ) (ns k p : Bytes) → state_key t ns k ≡ ok p → (length ns ≤ 65535) × (p ≡ head t ns k)
unfolding state_key namespace_prefix
state_key-head t ns k p e = ground arith

-- A storage key is its namespace's prefix, then the key.
pub state_key-append :
    (t : ℕ) (ns k q p : Bytes) → namespace_prefix t ns ≡ ok q → state_key t ns k ≡ ok p → p ≡ q ++ k
unfolding state_key
state_key-append t ns k q p at_q at_p = let e = rw (at_q, ◌>>=◌) at at_p in ground arith

pub state_key_inj :
    (t t' : ℕ) (ns ns' k k' p : Bytes)
    → t < 2 ^ 32
    → t' < 2 ^ 32
    → state_key t ns k ≡ ok p
    → state_key t' ns' k' ≡ ok p
    → (t ≡ t') × (ns ≡ ns') × (k ≡ k')
state_key_inj t t' ns ns' k k' p ht ht' e e' =
    let (n, h) = state_key-head t ns k p e in
    let (n', h') = state_key-head t' ns' k' p e' in
    head_inj t t' ns ns' k k' ht ht' n n' (sym h ∙ h')

head-starts_with :
    (t : ℕ) (ns prefix k : Bytes)
    → starts_with (head t ns k) (head t ns prefix) ≡ starts_with k prefix
head-starts_with t ns prefix k =
    starts_with-append (to_be_bytes 4 t) (to_be_bytes 2 (length ns) ++ (ns ++ k))
      (to_be_bytes 2 (length ns) ++ (ns ++ prefix))
    ∙ starts_with-append (to_be_bytes 2 (length ns)) (ns ++ k) (ns ++ prefix)
    ∙ starts_with-append ns k prefix

under_of_starts_with :
    (t t' : ℕ) (ns ns' prefix k : Bytes)
    → t < 2 ^ 32
    → t' < 2 ^ 32
    → length ns ≤ 65535
    → length ns' ≤ 65535
    → starts_with (head t' ns' k) (head t ns prefix) ≡ true
    → (t ≡ t') × (ns ≡ ns') × (starts_with k prefix ≡ true)
under_of_starts_with t t' ns ns' prefix k ht ht' n n' under =
    let (r, split) = starts_with_split (head t' ns' k) (head t ns prefix) under in
    let joined : head t ns prefix ++ r ≡ head t ns (prefix ++ r) =
      ap (λ x. to_be_bytes 4 t ++ (to_be_bytes 2 (length ns) ++ x)) (append_assoc ns prefix r) in
    let (tenants, names, keys) =
      head_inj t' t ns' ns k (prefix ++ r) ht' ht n' n (split ∙ joined) in
    (sym tenants, sym names, rw keys (starts_with-prefix prefix r))

-- In one namespace the encoded keys begin with each other as the keys do.
pub starts_with-same :
    (t : ℕ) (ns prefix k p q : Bytes)
    → state_key t ns prefix ≡ ok p
    → state_key t ns k ≡ ok q
    → starts_with q p ≡ starts_with k prefix
starts_with-same t ns prefix k p q e e' =
    rw ((state_key-head t ns prefix p e).1, (state_key-head t ns k q e').1)
      (head-starts_with t ns prefix k)

pub starts_with-state_key :
    (t t' : ℕ) (ns ns' prefix k p q : Bytes)
    → t < 2 ^ 32
    → t' < 2 ^ 32
    → state_key t ns prefix ≡ ok p
    → state_key t' ns' k ≡ ok q
    → (starts_with q p ≡ true) ↔ ((t ≡ t') × (ns ≡ ns') × (starts_with k prefix ≡ true))
starts_with-state_key t t' ns ns' prefix k p q ht ht' e e' =
    let (n, h) = state_key-head t ns prefix p e in
    let (n', h') = state_key-head t' ns' k q e' in
    (
      λ under. under_of_starts_with t t' ns ns' prefix k ht ht' n n' (rw (h, h') at under),
      λ (tenants, names, below).
          rw (h, h') (rw (sym tenants, sym names) (head-starts_with t ns prefix k ∙ below)),
    )
