-- ===== src/Builder.antt =====
-- crates/mmdb-query/src/builder.rs: the recall builders and the filters that they combine.
pub mod Meaning
pub mod Recall
use mmdb.Common.{ℕ, String, Option, none, some, List, [], ◌∷◌, ◌++◌}
use mmdb.Ir.{
  TableId, ModelId, VectorRef, FieldRef, Literal, Predicate, Predicates, SortKey, LogicalPlan,
  predicate_and,
}

module _ {F : Type 0} where
  abbrev pub to_predicates : List (Predicate F) → Predicates F
  to_predicates [] = Predicates.nil
  to_predicates (q ∷ qs) = Predicates.cons q (to_predicates qs)

  abbrev pub tenant_predicate : Option ℕ → List (Predicate F)
  tenant_predicate none = []
  tenant_predicate (some t) = Predicate.eq FieldRef.tenant (Literal.u32 t) ∷ []

  abbrev pub one_or_and : List (Predicate F) → Option (Predicate F)
  one_or_and [] = none
  one_or_and (q ∷ []) = some q
  one_or_and (q ∷ r ∷ qs) = some (predicate_and (to_predicates (q ∷ r ∷ qs)))

  unfoldable pub combined_recall_filter : Option ℕ → List (Predicate F) → Option (Predicate F)
  combined_recall_filter t filters = one_or_and (tenant_predicate t ++ filters)

  unfoldable pub combine_optional_filter : Option (Predicate F) → Predicate F → Predicate F
  combine_optional_filter none pred = pred
  combine_optional_filter (some existing) pred =
      predicate_and (Predicates.cons existing (Predicates.cons pred Predicates.nil))

pub record RecallBuilder (F : Type 0) : Type 0 where
  pub tenant : Option ℕ
  pub filters : List (Predicate F)
  pub limit : Option ℕ

pub record VectorRecallBuilder (F : Type 0) : Type 0 where
  pub recall : RecallBuilder F
  pub query : VectorRef F
  pub model : ModelId
  pub topk : ℕ

module _ {F : Type 0} where
  -- `Query::recall`.
  abbrev pub new_recall : RecallBuilder F
  new_recall = record { tenant = none; filters = []; limit = none }

  abbrev pub set_tenant : RecallBuilder F → ℕ → RecallBuilder F
  set_tenant b t = record b { tenant = some t }

  abbrev pub add_filter : RecallBuilder F → Predicate F → RecallBuilder F
  add_filter b pred = record b { filters = b.filters ++ pred ∷ [] }

  abbrev pub set_limit : RecallBuilder F → ℕ → RecallBuilder F
  set_limit b n = record b { limit = some n }

  abbrev pub similar_to : RecallBuilder F → List F → VectorRecallBuilder F
  similar_to b vector = record {
    recall = b;
    query = VectorRef.vector vector;
    model = record { name = "default" };
    topk = 10;
  }

  abbrev pub using_model : VectorRecallBuilder F → ModelId → VectorRecallBuilder F
  using_model b model = record b { model = model }

  abbrev pub set_topk : VectorRecallBuilder F → ℕ → VectorRecallBuilder F
  set_topk b k = record b { topk = k }

  abbrev pub limit_vector : VectorRecallBuilder F → ℕ → VectorRecallBuilder F
  limit_vector b n = record b { recall = set_limit b.recall n }

  -- `if let Some(limit) = self.limit { plan = TopK { .. } }`.
  abbrev pub limited : Option ℕ → SortKey → LogicalPlan F → LogicalPlan F
  limited none by plan = plan
  limited (some k) by plan = LogicalPlan.top_k plan k by

  unfoldable pub build : RecallBuilder F → LogicalPlan F
  build b =
      limited b.limit SortKey.created_at_desc
        (LogicalPlan.scan TableId.nodes (combined_recall_filter b.tenant b.filters))

  unfoldable pub build_vector : VectorRecallBuilder F → LogicalPlan F
  build_vector b = limited b.recall.limit SortKey.score_desc (
      LogicalPlan.vector_search b.query b.topk
        (combined_recall_filter b.recall.tenant b.recall.filters) b.model)
