-- ===== src/Eval.antt =====
-- crates/mmdb-query/src/eval.rs: predicates, scores, projection, aggregation and sorting over rows,
-- and the row type of crates/mmdb-query/src/executor.rs.
pub mod Newest
pub mod Groups
use Prim.Native.String.{◌++◌ as append_text}
use mmdb.Common.{
  ℕ, ◌+◌, String, Ordering, Option, none, some, List, [], ◌∷◌, map, Bool, true, false, ◌&&◌, ◌||◌,
  not, str_cmp, any, zip, collect,
}
use mmdb.Common.BTreeMap
use mmdb.Common.Sort.{sort_by}
use mmdb.Common.Int.{ℤ, pos, lt_ℤ, le_ℤ, cmp_ℤ}
use mmdb.Ir.{
  NodeKind, FieldRef, Literal, Predicate, Predicates, SortKey, JoinKey, ScoreExpr, AggregateExpr,
  Platform, cmp_literal, eq_literal, cmp_list,
}

pub record Record (F : Type 0) : Type 0 where
  pub node_id : String
  pub tenant : ℕ
  pub kind : NodeKind
  pub created_at_ms : ℤ
  pub updated_at_ms : ℤ
  pub score : F
  pub fields : List (String × Literal F)

module _ ⦃p : Platform⦄ where
  -- `Record::new`.
  abbrev pub new_record : String → ℕ → NodeKind → ℤ → Record p.F32
  new_record node_id tenant kind created_at_ms = record {
    node_id = node_id;
    tenant = tenant;
    kind = kind;
    created_at_ms = created_at_ms;
    updated_at_ms = created_at_ms;
    score = p.zero_f32;
    fields = [];
  }

  unfoldable pub field_literal : Record p.F32 → FieldRef → Option (Literal p.F32)
  field_literal r FieldRef.tenant = some (Literal.u32 r.tenant)
  field_literal r FieldRef.kind = some (Literal.node_kind r.kind)
  field_literal r FieldRef.created_at_ms = some (Literal.i64 r.created_at_ms)
  field_literal r FieldRef.updated_at_ms = some (Literal.i64 r.updated_at_ms)
  field_literal r (FieldRef.metadata key) = BTreeMap.get str_cmp key r.fields
  field_literal r FieldRef.content = BTreeMap.get str_cmp "content" r.fields
  field_literal r FieldRef.score = some (Literal.f32 r.score)
  field_literal r FieldRef.node_id = some (Literal.string r.node_id)

  abbrev pub cmp_f32 : p.F32 → p.F32 → (ℤ → ℤ → Bool) → Bool
  cmp_f32 lhs rhs cmp = elim (p.total_cmp lhs rhs) [
    | Ordering.lt ↦ cmp (pos 0) (pos 1)
    | Ordering.eq ↦ cmp (pos 0) (pos 0)
    | Ordering.gt ↦ cmp (pos 1) (pos 0)
  ]

  -- The second part of `compare_i64`: both sides must be `i64`.
  abbrev pub compare_literals : Option (Literal p.F32) → Literal p.F32 → (ℤ → ℤ → Bool) → Bool
  compare_literals (some (Literal.i64 lhs)) (Literal.i64 rhs) cmp = cmp lhs rhs
  compare_literals _ _ cmp = false

  unfoldable pub compare_i64 : Record p.F32 → FieldRef → Literal p.F32 → (ℤ → ℤ → Bool) → Bool
  compare_i64 r FieldRef.score (Literal.f32 rhs) cmp = cmp_f32 r.score rhs cmp
  compare_i64 r field literal cmp = compare_literals (field_literal r field) literal cmp

  abbrev pub contains_literal : List (Literal p.F32) → Option (Literal p.F32) → Bool
  contains_literal literals none = false
  contains_literal literals (some value) = any (eq_literal value) literals

  abbrev pub is_literal : Option (Literal p.F32) → Literal p.F32 → Bool
  is_literal none literal = false
  is_literal (some value) literal = eq_literal value literal

  unfoldable mutual
    pub predicate_matches : Record p.F32 → Predicate p.F32 → Bool
    predicate_matches r (Predicate.eq field literal) = is_literal (field_literal r field) literal
    predicate_matches r (Predicate.gt field literal) = compare_i64 r field literal (λ a b. lt_ℤ b a)
    predicate_matches r (Predicate.gte field literal) =
        compare_i64 r field literal (λ a b. le_ℤ b a)
    predicate_matches r (Predicate.lt field literal) = compare_i64 r field literal (λ a b. lt_ℤ a b)
    predicate_matches r (Predicate.lte field literal) =
        compare_i64 r field literal (λ a b. le_ℤ a b)
    predicate_matches r (Predicate.in_list field literals) =
        contains_literal literals (field_literal r field)
    predicate_matches r (Predicate.and preds) = all_match r preds
    predicate_matches r (Predicate.or preds) = any_match r preds
    predicate_matches r (Predicate.not pred) = not (predicate_matches r pred)

    pub all_match : Record p.F32 → Predicates p.F32 → Bool
    all_match r Predicates.nil = true
    all_match r (Predicates.cons q ps) = predicate_matches r q && all_match r ps

    pub any_match : Record p.F32 → Predicates p.F32 → Bool
    any_match r Predicates.nil = false
    any_match r (Predicates.cons q ps) = predicate_matches r q || any_match r ps

  unfoldable pub eval_score : Record p.F32 → ScoreExpr p.F32 → p.F32
  eval_score r ScoreExpr.similarity = r.score
  eval_score r (ScoreExpr.decay _ _) = r.score
  eval_score r (ScoreExpr.literal v) = v
  eval_score r (ScoreExpr.mul left right) = p.mul_f32 (eval_score r left) (eval_score r right)
  eval_score r (ScoreExpr.add left right) = p.add_f32 (eval_score r left) (eval_score r right)

  abbrev pub debug_option : Option (Literal p.F32) → Option String
  debug_option none = none
  debug_option (some literal) = some (p.debug_literal literal)

  unfoldable pub join_value : Record p.F32 → JoinKey → Option String
  join_value r JoinKey.node_id = some r.node_id
  join_value r (JoinKey.field field) = debug_option (field_literal r field)

  abbrev or_equal : Option Ordering → Ordering
  or_equal none = Ordering.eq
  or_equal (some o) = o

  unfoldable pub score_desc : Record p.F32 → Record p.F32 → Ordering
  score_desc a b = or_equal (p.partial_cmp b.score a.score)

  -- The comparison of `SortKey::Field`: rows with the field stand before rows without.
  abbrev pub cmp_option : Option (Literal p.F32) → Option (Literal p.F32) → Ordering
  cmp_option (some left) (some right) = cmp_literal left right
  cmp_option (some _) none = Ordering.lt
  cmp_option none (some _) = Ordering.gt
  cmp_option none none = Ordering.eq

  unfoldable pub row_order : SortKey → Record p.F32 → Record p.F32 → Ordering
  unfolding score_desc
  row_order SortKey.score_desc a b = score_desc a b
  row_order SortKey.created_at_desc a b = cmp_ℤ b.created_at_ms a.created_at_ms
  row_order (SortKey.field field) a b = cmp_option (field_literal a field) (field_literal b field)

  unfoldable pub sort_rows : SortKey → List (Record p.F32) → List (Record p.F32)
  sort_rows by = sort_by (row_order by)

  unfoldable pub field_label : FieldRef → String
  field_label FieldRef.tenant = "tenant"
  field_label FieldRef.kind = "kind"
  field_label FieldRef.created_at_ms = "created_at_ms"
  field_label FieldRef.updated_at_ms = "updated_at_ms"
  field_label (FieldRef.metadata key) = key
  field_label FieldRef.content = "content"
  field_label FieldRef.score = "score"
  field_label FieldRef.node_id = "node_id"

  abbrev pub Fields : Type 0
  Fields = List (String × Literal p.F32)

  -- One round of the loop of `project_record`.
  abbrev pub insert_field : FieldRef → Option (Literal p.F32) → Fields → Fields
  insert_field field none projected = projected
  insert_field field (some literal) projected =
      BTreeMap.insert str_cmp (field_label field) literal projected

  unfoldable pub project_fields : Record p.F32 → List FieldRef → Fields → Fields
  project_fields r [] projected = projected
  project_fields r (field ∷ fields) projected =
      project_fields r fields (insert_field field (field_literal r field) projected)

  unfoldable pub project_record : List FieldRef → Record p.F32 → Record p.F32
  project_record fields r = record r { fields = project_fields r fields [] }

  unfoldable pub project_records : List (Record p.F32) → List FieldRef → List (Record p.F32)
  project_records rows fields = map (project_record fields) rows

  abbrev pub GroupKey : Type 0
  GroupKey = List (Literal p.F32)

  unfoldable pub aggregate_group_key : Record p.F32 → List FieldRef → Option GroupKey
  aggregate_group_key r group_by = collect (map (field_literal r) group_by)

  -- `*groups.entry(key).or_default() += 1`; a row whose key is incomplete is skipped.
  abbrev pub count_row : Option GroupKey → List (GroupKey × ℕ) → List (GroupKey × ℕ)
  count_row none groups = groups
  count_row (some key) groups = elim (BTreeMap.get (cmp_list cmp_literal) key groups) [
    | none ↦ BTreeMap.insert (cmp_list cmp_literal) key 1 groups
    | some n ↦ BTreeMap.insert (cmp_list cmp_literal) key (n + 1) groups
  ]

  unfoldable pub count_groups :
      List FieldRef → List (Record p.F32) → List (GroupKey × ℕ) → List (GroupKey × ℕ)
  count_groups group_by [] groups = groups
  count_groups group_by (r ∷ rows) groups =
      count_groups group_by rows (count_row (aggregate_group_key r group_by) groups)

  join_text : List String → String
  join_text [] = ""
  join_text (s ∷ []) = s
  join_text (s ∷ t ∷ ss) = append_text s (append_text "|" (join_text (t ∷ ss)))

  unfoldable pub aggregate_node_id : List FieldRef → GroupKey → String
  unfolding join_text field_label
  aggregate_node_id [] key = "__aggregate__"
  aggregate_node_id (g ∷ group_by) key = join_text (
      map (λ e. append_text (field_label e.0) (append_text "=" (p.debug_literal e.1)))
        (zip (g ∷ group_by) key))

  unfoldable pub group_fields : List (FieldRef × Literal p.F32) → Fields → Fields
  unfolding field_label
  group_fields [] fields = fields
  group_fields ((field, literal) ∷ rest) fields =
      group_fields rest (BTreeMap.insert str_cmp (field_label field) literal fields)

  unfoldable pub group_record : List FieldRef → GroupKey × ℕ → Record p.F32
  unfolding aggregate_node_id group_fields
  group_record group_by (key, count) = record {
    node_id = aggregate_node_id group_by key;
    tenant = 0;
    kind = NodeKind.fact;
    created_at_ms = pos 0;
    updated_at_ms = pos 0;
    score = p.from_i64 (pos count);
    fields =
        BTreeMap.insert str_cmp "count" (Literal.i64 (pos count))
          (group_fields (zip group_by key) []);
  }

  unfoldable pub aggregate_records :
      List (Record p.F32) → List FieldRef → AggregateExpr → List (Record p.F32)
  aggregate_records rows group_by AggregateExpr.count =
      map (group_record group_by) (count_groups group_by rows [])
