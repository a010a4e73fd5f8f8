-- ===== src/Executor/NodeIds.antt =====
-- `node_by_id` of `graph_expand_rows`: a node is kept under its own id.
use text.Mathlib.TextEquality.{path_by_compare}
use Prim.Native.Nat.{Ordering}
use mmdb.Common.{◌≡◌, refl, sym, ap, ◌∙◌, none, some, List, [], ◌∷◌, String, str_cmp, All}
use mmdb.Common.BTreeMap
use mmdb.Ir.{Platform}
use mmdb.Executor.{Context, Row, add_nodes, node_by_id}

module _ ⦃p : Platform⦄ where
  abbrev KeyedById : List (String × Row) → Type 0
  KeyedById = All (λ (e : String × Row). e.1.node_id ≡ e.0)

  insert-KeyedById :
      (r : Row) (m : List (String × Row))
      → KeyedById m
      → KeyedById (BTreeMap.insert str_cmp r.node_id r m)
  unfolding BTreeMap.insert
  insert-KeyedById r [] h = (refl, tt)
  insert-KeyedById r ((key, s) ∷ m) h = go (str_cmp r.node_id key) refl (insert-KeyedById r m h.1)
    where
      go :
          (o : Ordering)
          → str_cmp r.node_id key ≡ o
          → KeyedById (BTreeMap.insert str_cmp r.node_id r m)
          → KeyedById (BTreeMap.insert str_cmp r.node_id r ((key, s) ∷ m))
      go Ordering.lt e rest = rw (e, BTreeMap.insert) (refl, h)
      go Ordering.eq e rest = rw (e, BTreeMap.insert) (path_by_compare r.node_id key e, h.1)
      go Ordering.gt e rest = rw (e, BTreeMap.insert) (h.0, rest)

  add_nodes-KeyedById :
      (rows : List Row) (m : List (String × Row)) → KeyedById m → KeyedById (add_nodes rows m)
  add_nodes-KeyedById [] m h = h
  add_nodes-KeyedById (r ∷ rows) m h = add_nodes-KeyedById rows _ (insert-KeyedById r m h)

  get-KeyedById :
      (id : String) (m : List (String × Row)) (r : Row)
      → KeyedById m
      → BTreeMap.get str_cmp id m ≡ some r
      → r.node_id ≡ id
  unfolding BTreeMap.get
  get-KeyedById id [] r h e = cc
  get-KeyedById id ((key, s) ∷ m) r h e = go (str_cmp id key) refl (get-KeyedById id m r h.1)
    where
      go :
          (o : Ordering)
          → str_cmp id key ≡ o
          → (BTreeMap.get str_cmp id m ≡ some r → r.node_id ≡ id)
          → r.node_id ≡ id
      go Ordering.lt c rest = let none_here : none ≡ some r = rw (c, BTreeMap.get) at e in cc
      go Ordering.eq c rest =
          let found : some s ≡ some r = rw (c, BTreeMap.get) at e in
          let same : s ≡ r = cc in
          ap (λ (x : Row). x.node_id) (sym same) ∙ h.0 ∙ sym (path_by_compare id key c)
      go Ordering.gt c rest = rest (rw (c, BTreeMap.get) at e)

  pub get-node_by_id :
      (ctx : Context) (id : String) (r : Row)
      → BTreeMap.get str_cmp id (node_by_id ctx) ≡ some r
      → r.node_id ≡ id
  unfolding node_by_id
  get-node_by_id ctx id r e = get-KeyedById id _ r (add_nodes-KeyedById ctx.nodes [] tt) e
