-- ===== src/Builder/Meaning.antt =====
-- What the combined filters of the builder and of the optimizer mean on a row.
use mmdb.Common.{
  ℕ, ◌≡◌, refl, sym, ap, ◌∙◌, ap₂, Option, none, some, List, [], ◌∷◌, ◌++◌, Bool, true, ◌&&◌, arith,
  all, &&_assoc, filter, take, filter_congr,
}
use mmdb.Errors.{ok}
use mmdb.Ir.{
  Predicate, Predicates, Platform, predicate_and, and_children, flatten_and, append_preds, SortKey,
  LogicalPlan, TableId,
}
use mmdb.Eval.{predicate_matches, all_match, sort_rows}
use mmdb.Executor.{Row, passes, Context, execute}
use mmdb.Builder.{
  combine_optional_filter, combined_recall_filter, tenant_predicate, one_or_and, to_predicates,
  RecallBuilder, build, limited,
}

module _ ⦃p : Platform⦄ (r : Row) where
  &&_true : (b : Bool) → (b && true) ≡ b
  &&_true b = ground arith

  all_match-append :
      (ps qs : Predicates p.F32)
      → all_match r (append_preds ps qs) ≡ all_match r ps && all_match r qs
  unfolding all_match
  all_match-append Predicates.nil qs = refl
  all_match-append (Predicates.cons q ps) qs =
      ap (◌&&◌ (predicate_matches r q)) (all_match-append ps qs)
      ∙ sym (&&_assoc (predicate_matches r q) (all_match r ps) (all_match r qs))

  all_match-and_children :
      (q : Predicate p.F32) → all_match r (and_children q) ≡ predicate_matches r q
  unfolding all_match predicate_matches
  all_match-and_children (Predicate.and children) = refl
  all_match-and_children _ = &&_true _

  all_match-flatten_and : (ps : Predicates p.F32) → all_match r (flatten_and ps) ≡ all_match r ps
  unfolding all_match
  all_match-flatten_and Predicates.nil = refl
  all_match-flatten_and (Predicates.cons q ps) =
      all_match-append (and_children q) (flatten_and ps)
      ∙ ap₂ (◌&&◌) (all_match-and_children q) (all_match-flatten_and ps)

  -- `Predicate::and` holds of a row when every predicate of its list does, nested or not.
  pub matches-predicate_and :
      (ps : Predicates p.F32) → predicate_matches r (predicate_and ps) ≡ all_match r ps
  unfolding predicate_and predicate_matches
  matches-predicate_and ps = all_match-flatten_and ps

  -- A filter that is combined with a predicate holds when both do.
  pub matches-combine_optional_filter :
      (f : Option (Predicate p.F32)) (pred : Predicate p.F32)
      → predicate_matches r (combine_optional_filter f pred)
        ≡ passes f r && predicate_matches r pred
  unfolding combine_optional_filter all_match
  matches-combine_optional_filter none pred = refl
  matches-combine_optional_filter (some existing) pred =
      matches-predicate_and _
      ∙ ap (◌&&◌ (predicate_matches r existing)) (&&_true (predicate_matches r pred))

  all_match-to_predicates :
      (qs : List (Predicate p.F32)) → all_match r (to_predicates qs) ≡ all (predicate_matches r) qs
  unfolding all_match
  all_match-to_predicates [] = refl
  all_match-to_predicates (q ∷ qs) = ap (◌&&◌ (predicate_matches r q)) (all_match-to_predicates qs)

  passes-one_or_and :
      (qs : List (Predicate p.F32)) → passes (one_or_and qs) r ≡ all (predicate_matches r) qs
  passes-one_or_and [] = refl
  passes-one_or_and (q ∷ []) = sym (&&_true (predicate_matches r q))
  passes-one_or_and (q ∷ q' ∷ qs) = matches-predicate_and _ ∙ all_match-to_predicates (q ∷ q' ∷ qs)

  -- The filter of a recall passes a row when the tenant and every filter do.
  pub passes-combined_recall_filter :
      (t : Option ℕ) (filters : List (Predicate p.F32))
      → passes (combined_recall_filter t filters) r
        ≡ all (predicate_matches r) (tenant_predicate t ++ filters)
  unfolding combined_recall_filter
  passes-combined_recall_filter t filters = passes-one_or_and (tenant_predicate t ++ filters)

module _ ⦃p : Platform⦄ (ctx : Context) where
  abbrev pub limit_rows : Option ℕ → SortKey → List Row → List Row
  limit_rows none by rows = rows
  limit_rows (some k) by rows = take k (sort_rows by rows)

  pub execute-build_rows :
      (b : RecallBuilder p.F32)
      → execute ctx (build b)
        ≡ ok (
            limit_rows b.limit SortKey.created_at_desc (
              filter
                (λ r. all (predicate_matches r) (tenant_predicate b.tenant ++ b.filters))
                ctx.nodes))
  unfolding build execute
  execute-build_rows b = go b.limit
    where
      kept :
          filter (passes (combined_recall_filter b.tenant b.filters)) ctx.nodes
          ≡ filter
              (λ r. all (predicate_matches r) (tenant_predicate b.tenant ++ b.filters))
              ctx.nodes
      kept = filter_congr _ _ (λ r. passes-combined_recall_filter r b.tenant b.filters) ctx.nodes

      go :
          (limit : Option ℕ)
          → execute ctx (
              limited limit SortKey.created_at_desc
                (LogicalPlan.scan TableId.nodes (combined_recall_filter b.tenant b.filters)))
            ≡ ok (
                limit_rows limit SortKey.created_at_desc (
                  filter
                    (λ r. all (predicate_matches r) (tenant_predicate b.tenant ++ b.filters))
                    ctx.nodes))
      go none = ap ok kept
      go (some k) = ap (λ rows. ok (take k (sort_rows SortKey.created_at_desc rows))) kept
