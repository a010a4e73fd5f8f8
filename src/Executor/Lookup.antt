-- ===== src/Executor/Lookup.antt =====
-- `node_by_id` of `graph_expand_rows`: every node's id is found.
use text.Mathlib.TextPositions.{compare_refl}
use Prim.Native.Char.{code}
use Prim.Native.Nat.{Ordering}
use Prim.Native.String.{[] as empty, ◌∷◌ as char_then, then}
use Prim.Native.String.compare as compare_text
use mmdb.Common.{
  ℕ, zero, suc, ◌≡◌, refl, sym, ◌∙◌, none, some, List, [], ◌∷◌, String, str_cmp, In, compare, arith,
}
use mathlib.Core.Path.{subst}
use mmdb.Common.BTreeMap
use mmdb.Ir.{Platform}
use mmdb.Executor.{Context, Row, add_nodes, node_by_id}

then_trans :
    (a b c : ℕ) (o q r : Ordering)
    → (o ≡ Ordering.lt → q ≡ Ordering.lt → r ≡ Ordering.lt)
    → then (compare a b) o ≡ Ordering.lt
    → then (compare b c) q ≡ Ordering.lt
    → then (compare a c) r ≡ Ordering.lt
then_trans a b c o q r step h k = ground (arith, step)

str_cmp_trans :
    (a b c : String)
    → str_cmp a b ≡ Ordering.lt
    → str_cmp b c ≡ Ordering.lt
    → str_cmp a c ≡ Ordering.lt
str_cmp_trans empty empty c h k =
    let e : Ordering.eq ≡ Ordering.lt = sym compare_text.nil-nil ∙ h in cc
str_cmp_trans empty (char_then d t) empty h k =
    let e : Ordering.gt ≡ Ordering.lt = sym (compare_text.cons-nil d t) ∙ k in cc
str_cmp_trans empty (char_then d t) (char_then e u) h k = compare_text.nil-cons e u
str_cmp_trans (char_then c s) empty w h k =
    let e : Ordering.gt ≡ Ordering.lt = sym (compare_text.cons-nil c s) ∙ h in cc
str_cmp_trans (char_then c s) (char_then d t) empty h k =
    let e : Ordering.gt ≡ Ordering.lt = sym (compare_text.cons-nil d t) ∙ k in cc
str_cmp_trans (char_then c s) (char_then d t) (char_then e u) h k =
    compare_text.cons-cons c e s u
    ∙ then_trans (code c) (code d) (code e) (str_cmp s t) (str_cmp t u) (str_cmp s u)
        (str_cmp_trans s t u) (sym (compare_text.cons-cons c d s t) ∙ h)
        (sym (compare_text.cons-cons d e t u) ∙ k)

module _ {V : Type 0} where
  abbrev pub Has : List (String × V) → String → Type 0
  Has m k = (v : V) × (BTreeMap.get str_cmp k m ≡ some v)

  insert-Has : (k : String) (v : V) (m : List (String × V)) → Has (BTreeMap.insert str_cmp k v m) k
  unfolding BTreeMap.get BTreeMap.insert
  insert-Has k v [] = (v, rw (compare_refl k, BTreeMap.get) refl)
  insert-Has k v ((j, w) ∷ m) = go (str_cmp k j) refl (insert-Has k v m)
    where
      go :
          (o : Ordering)
          → str_cmp k j ≡ o
          → Has (BTreeMap.insert str_cmp k v m) k
          → Has (BTreeMap.insert str_cmp k v ((j, w) ∷ m)) k
      go Ordering.lt e rest = (v, rw (e, BTreeMap.insert, BTreeMap.get, compare_refl k) refl)
      go Ordering.eq e rest = (v, rw (e, BTreeMap.insert, BTreeMap.get, e) refl)
      go Ordering.gt e rest = (rest.0, rw (e, BTreeMap.insert, BTreeMap.get, e) (rest.1))

  insert-keeps :
      (i k : String) (v : V) (m : List (String × V))
      → Has m i
      → Has (BTreeMap.insert str_cmp k v m) i
  unfolding BTreeMap.get BTreeMap.insert
  insert-keeps i k v [] (x, h) = cc
  insert-keeps i k v ((j, w) ∷ m) (x, h) =
      go (str_cmp k j) refl (str_cmp i j) refl (insert-keeps i k v m)
    where
      -- A text before `k` is before what `k` is before.
      placed :
          (o : Ordering)
          → str_cmp i k ≡ o
          → str_cmp k j ≡ Ordering.lt
          → (str_cmp i j ≡ Ordering.lt → ⊥)
          → Has ((k, v) ∷ (j, w) ∷ m) i
      placed Ordering.lt e before later = absurd (later (str_cmp_trans i k j e before))
      placed Ordering.eq e before later = (v, rw (e, BTreeMap.get) refl)
      placed Ordering.gt e before later = (x, rw (e, BTreeMap.get) h)

      go :
          (o : Ordering)
          → str_cmp k j ≡ o
          → (q : Ordering) → str_cmp i j ≡ q
          → (Has m i → Has (BTreeMap.insert str_cmp k v m) i)
          → Has (BTreeMap.insert str_cmp k v ((j, w) ∷ m)) i
      go o e Ordering.lt f rest = let lost : none ≡ some x = rw (f, BTreeMap.get) at h in cc
      go Ordering.lt e Ordering.eq f rest =
          let (y, at) =
            placed (str_cmp i k) refl e
              (λ l. let no : Ordering.eq ≡ Ordering.lt = sym f ∙ l in cc) in
          (y, rw (e, BTreeMap.insert) at)
      go Ordering.lt e Ordering.gt f rest =
          let (y, at) =
            placed (str_cmp i k) refl e
              (λ l. let no : Ordering.gt ≡ Ordering.lt = sym f ∙ l in cc) in
          (y, rw (e, BTreeMap.insert) at)
      go Ordering.eq e Ordering.eq f rest = (v, rw (e, BTreeMap.insert, BTreeMap.get, f) refl)
      go Ordering.eq e Ordering.gt f rest =
          let found : BTreeMap.get str_cmp i m ≡ some x = rw (f, BTreeMap.get) at h in
          (x, rw (e, BTreeMap.insert, BTreeMap.get, f) found)
      go Ordering.gt e Ordering.eq f rest = (w, rw (e, BTreeMap.insert, BTreeMap.get, f) refl)
      go Ordering.gt e Ordering.gt f rest =
          let (y, at) = rest (x, rw (f, BTreeMap.get) at h) in
          (y, rw (e, BTreeMap.insert, BTreeMap.get, f) at)

module _ ⦃p : Platform⦄ where
  add_nodes-keeps :
      (id : String) (rows : List Row) (m : List (String × Row))
      → Has m id
      → Has (add_nodes rows m) id
  add_nodes-keeps id [] m h = h
  add_nodes-keeps id (r ∷ rows) m h = add_nodes-keeps id rows _ (insert-keeps id r.node_id r m h)

  add_nodes-Has :
      (r : Row) (rows : List Row) (m : List (String × Row))
      → In r rows
      → Has (add_nodes rows m) r.node_id
  add_nodes-Has r [] m (t, e) = cc
  add_nodes-Has r (x ∷ rows) m (zero, e) =
      let same : x ≡ r = cc in
      add_nodes-keeps r.node_id rows _ (
        subst (λ (y : Row). Has (BTreeMap.insert str_cmp x.node_id x m) y.node_id) same
          (insert-Has x.node_id x m))
  add_nodes-Has r (x ∷ rows) m (suc t, e) = add_nodes-Has r rows _ (t, e)

  -- A node of the context is found under its id, or another of the same id is.
  pub node_by_id-Has : (ctx : Context) (r : Row) → In r ctx.nodes → Has (node_by_id ctx) r.node_id
  unfolding node_by_id
  node_by_id-Has ctx r i = add_nodes-Has r ctx.nodes [] i
