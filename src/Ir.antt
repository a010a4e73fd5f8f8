-- ===== src/Ir.antt =====
-- crates/mmdb-query/src/ir.rs: the query IR, over an abstract `f32`; NodeKind of mmdb-core.
use mmdb.Common.{
  ℕ, String, Ordering, compare, Option, List, [], ◌∷◌, Bool, true, false, is_eq, then_with, str_cmp,
}
use mmdb.Common.Int.{ℤ, cmp_ℤ}

-- crates/mmdb-core/src/types.rs.
pub data NodeKind : Type 0 where
  episode fact entity artifact : NodeKind

-- `as u8`.
abbrev pub as_u8 : NodeKind → ℕ
as_u8 episode = 1
as_u8 fact = 2
as_u8 entity = 3
as_u8 artifact = 4

pub data TableId : Type 0 where
  nodes edges blobs : TableId

pub record ModelId : Type 0 where
  pub name : String

pub data VectorRef (F : Type 0) : Type 0 where
  vector : List F → VectorRef F
  text : String → VectorRef F

pub data FieldRef : Type 0 where
  tenant kind created_at_ms updated_at_ms : FieldRef
  metadata : String → FieldRef
  content score node_id : FieldRef

pub data Literal (F : Type 0) : Type 0 where
  u32 : ℕ → Literal F
  i64 : ℤ → Literal F
  f32 : F → Literal F
  string : String → Literal F
  node_kind : NodeKind → Literal F
  node_kinds : List NodeKind → Literal F
  bool : Bool → Literal F

mutual
  pub data Predicate (F : Type 0) : Type 0 where
    eq gt gte lt lte : FieldRef → Literal F → Predicate F
    in_list : FieldRef → List (Literal F) → Predicate F
    and or : Predicates F → Predicate F
    not : Predicate F → Predicate F

  pub data Predicates (F : Type 0) : Type 0 where
    nil : Predicates F
    cons : Predicate F → Predicates F → Predicates F

pub data SortKey : Type 0 where
  score_desc created_at_desc : SortKey
  field : FieldRef → SortKey

pub data JoinKey : Type 0 where
  node_id : JoinKey
  field : FieldRef → JoinKey

pub data JoinStrategy : Type 0 where
  hash_build_left hash_build_right merge : JoinStrategy

pub data ScoreExpr (F : Type 0) : Type 0 where
  similarity : ScoreExpr F
  decay : FieldRef → ℤ → ScoreExpr F
  literal : F → ScoreExpr F
  mul add : ScoreExpr F → ScoreExpr F → ScoreExpr F

pub data Expr (F : Type 0) : Type 0 where
  field : FieldRef → Expr F
  literal : Literal F → Expr F

pub data AggregateExpr : Type 0 where
  count : AggregateExpr

pub data LogicalPlan (F : Type 0) : Type 0 where
  scan : TableId → Option (Predicate F) → LogicalPlan F
  vector_search : VectorRef F → ℕ → Option (Predicate F) → ModelId → LogicalPlan F
  graph_expand : LogicalPlan F → Option String → ℕ → LogicalPlan F
  filter : LogicalPlan F → Predicate F → LogicalPlan F
  score : LogicalPlan F → ScoreExpr F → LogicalPlan F
  top_k : LogicalPlan F → ℕ → SortKey → LogicalPlan F
  join : LogicalPlan F → LogicalPlan F → JoinKey → LogicalPlan F
  aggregate : LogicalPlan F → List FieldRef → AggregateExpr → LogicalPlan F
  project : LogicalPlan F → List FieldRef → LogicalPlan F
  udf : LogicalPlan F → String → List (Expr F) → LogicalPlan F

-- What the engine takes from Rust's `f32` and from the derived `Debug` of a literal: the
-- operations, with no law assumed.
pub record Platform : Type 1 where
  pub F32 : Type 0
  pub zero_f32 : F32
  pub one_f32 : F32
  pub half_f32 : F32
  pub add_f32 : F32 → F32 → F32
  pub sub_f32 : F32 → F32 → F32
  pub mul_f32 : F32 → F32 → F32
  pub div_f32 : F32 → F32 → F32
  pub le_f32 : F32 → F32 → Bool
  pub clamp_f32 : F32 → F32 → F32 → F32
  pub total_cmp : F32 → F32 → Ordering
  pub partial_cmp : F32 → F32 → Option Ordering
  pub from_u64 : ℕ → F32
  pub from_i64 : ℤ → F32
  pub round_usize : F32 → ℕ
  pub debug_literal : Literal F32 → String

-- The position of a variant in its declaration, by which a derived `Ord` compares first.
abbrev pub field_rank : FieldRef → ℕ
field_rank FieldRef.tenant = 0
field_rank FieldRef.kind = 1
field_rank FieldRef.created_at_ms = 2
field_rank FieldRef.updated_at_ms = 3
field_rank (FieldRef.metadata _) = 4
field_rank FieldRef.content = 5
field_rank FieldRef.score = 6
field_rank FieldRef.node_id = 7

-- The derived `Ord` of `FieldRef`.
unfoldable pub cmp_field : FieldRef → FieldRef → Ordering
cmp_field (FieldRef.metadata a) (FieldRef.metadata b) = str_cmp a b
cmp_field a b = compare (field_rank a) (field_rank b)

abbrev pub literal_rank : {F : Type 0} → Literal F → ℕ
literal_rank (Literal.u32 _) = 0
literal_rank (Literal.i64 _) = 1
literal_rank (Literal.f32 _) = 2
literal_rank (Literal.string _) = 3
literal_rank (Literal.node_kind _) = 4
literal_rank (Literal.node_kinds _) = 5
literal_rank (Literal.bool _) = 6

-- The `Ord` of a `Vec`: lexicographic.
unfoldable pub cmp_list : {A : Type 0} → (A → A → Ordering) → List A → List A → Ordering
cmp_list c [] [] = Ordering.eq
cmp_list c [] (y ∷ ys) = Ordering.lt
cmp_list c (x ∷ xs) [] = Ordering.gt
cmp_list c (x ∷ xs) (y ∷ ys) = then_with (c x y) (cmp_list c xs ys)

abbrev pub cmp_kind : NodeKind → NodeKind → Ordering
cmp_kind a b = compare (as_u8 a) (as_u8 b)

abbrev pub cmp_bool : Bool → Bool → Ordering
cmp_bool false true = Ordering.lt
cmp_bool true false = Ordering.gt
cmp_bool _ _ = Ordering.eq

module _ ⦃p : Platform⦄ where
  -- The derived `Ord` of `Literal`, with the total order of `OrderedF32`.
  unfoldable pub cmp_literal : Literal p.F32 → Literal p.F32 → Ordering
  unfolding cmp_list
  cmp_literal (Literal.u32 a) (Literal.u32 b) = compare a b
  cmp_literal (Literal.i64 a) (Literal.i64 b) = cmp_ℤ a b
  cmp_literal (Literal.f32 a) (Literal.f32 b) = p.total_cmp a b
  cmp_literal (Literal.string a) (Literal.string b) = str_cmp a b
  cmp_literal (Literal.node_kind a) (Literal.node_kind b) = cmp_kind a b
  cmp_literal (Literal.node_kinds a) (Literal.node_kinds b) = cmp_list cmp_kind a b
  cmp_literal (Literal.bool a) (Literal.bool b) = cmp_bool a b
  cmp_literal a b = compare (literal_rank a) (literal_rank b)

  -- The derived `PartialEq` of `Literal`.
  abbrev pub eq_literal : Literal p.F32 → Literal p.F32 → Bool
  eq_literal a b = is_eq (cmp_literal a b)

abbrev pub append_preds : {F : Type 0} → Predicates F → Predicates F → Predicates F
append_preds Predicates.nil qs = qs
append_preds (Predicates.cons q ps) qs = Predicates.cons q (append_preds ps qs)

-- The loop of `Predicate::and`: what one element adds to `out`.
abbrev pub and_children : {F : Type 0} → Predicate F → Predicates F
and_children (Predicate.and children) = children
and_children other = Predicates.cons other Predicates.nil

abbrev pub flatten_and : {F : Type 0} → Predicates F → Predicates F
flatten_and Predicates.nil = Predicates.nil
flatten_and (Predicates.cons q ps) = append_preds (and_children q) (flatten_and ps)

-- `Predicate::and`.
unfoldable pub predicate_and : {F : Type 0} → Predicates F → Predicate F
predicate_and preds = Predicate.and (flatten_and preds)
