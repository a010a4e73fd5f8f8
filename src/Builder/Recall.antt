-- ===== src/Builder/Recall.antt =====
-- crates/mmdb-query/src/builder.rs: what a recall answers, written out.
use mmdb.Common.{
  ℕ, Bool, true, ◌&&◌, ◌==◌, List, ◌++◌, Option, none, some, ◌≡◌, refl, ap, ◌∙◌, filter, take, all,
  Perm, take-append-drop, filter_congr,
}
use mathlib.Core.Path.{subst}
use mmdb.Common.Sorted.{Sorted}
use mmdb.Errors.{ok}
use mmdb.Ir.{Platform, cmp_literal, SortKey, Predicate}
use mmdb.Eval.{Record, predicate_matches, sort_rows, field_literal}
use mmdb.Eval.Newest.{NotOlder, take-sort_rows}
use mmdb.Executor.{Context, Row, execute}
use mmdb.Builder.{RecallBuilder, build, tenant_predicate}
use mmdb.Builder.Meaning.{execute-build_rows, limit_rows}

module _ ⦃p : Platform⦄ where
  abbrev pub is_of_tenant : Option ℕ → Record p.F32 → Bool
  is_of_tenant none r = true
  is_of_tenant (some t) r = r.tenant == t

  -- The rows of a recall from those wanted: all of them, in their order, or with a limit so many of
  -- them, from the newest on.
  abbrev pub Recalls : Option ℕ → List (Record p.F32) → List (Record p.F32) → Type 0
  Recalls none wanted rows = rows ≡ wanted
  Recalls (some k) wanted rows =
      (newest : List (Record p.F32)) × Perm newest wanted
      × Sorted NotOlder newest
      × (rows ≡ take k newest)

  abbrev pub is_wanted : RecallBuilder p.F32 → Record p.F32 → Bool
  is_wanted b r = is_of_tenant b.tenant r && all (predicate_matches r) b.filters

  tenant_predicate-wanted :
      (t : Option ℕ) (filters : List (Predicate p.F32)) (r : Record p.F32)
      → all (predicate_matches r) (tenant_predicate t ++ filters)
        ≡ is_of_tenant t r && all (predicate_matches r) filters
  unfolding predicate_matches field_literal cmp_literal
  tenant_predicate-wanted none filters r = refl
  tenant_predicate-wanted (some t) filters r = ap (λ b. b && all (predicate_matches r) filters) refl

  sort_rows-Recalls :
      (k : ℕ) (wanted : List (Record p.F32))
      → Recalls (some k) wanted (take k (sort_rows SortKey.created_at_desc wanted))
  sort_rows-Recalls k wanted =
      let sorted = sort_rows SortKey.created_at_desc wanted in
      let (perm, order, _) = take-sort_rows k wanted in
      let whole = take-append-drop k sorted in
      (sorted, subst (λ l. Perm l wanted) whole perm, subst (Sorted NotOlder) whole order, refl)

module _ ⦃p : Platform⦄ (ctx : Context) where
  -- A recall answers the nodes of its tenant, where one is set, that match every filter: all of
  -- them, in their order, or with a limit that many of them, from the newest on.
  pub execute-build :
      (b : RecallBuilder p.F32)
      → (rows : List Row) × (execute ctx (build b) ≡ ok rows)
        × Recalls b.limit (filter (is_wanted b) ctx.nodes) rows
  execute-build b =
      let old = λ (r : Row). all (predicate_matches r) (tenant_predicate b.tenant ++ b.filters) in
      let wanted = filter (is_wanted b) ctx.nodes in
      let same : filter old ctx.nodes ≡ wanted =
        filter_congr old (is_wanted b) (tenant_predicate-wanted b.tenant b.filters) ctx.nodes in
      (
        limit_rows ctx b.limit SortKey.created_at_desc wanted,
        execute-build_rows ctx b
            ∙ ap (λ l. ok (limit_rows ctx b.limit SortKey.created_at_desc l)) same,
        go b.limit wanted,
      )
    where
      go :
          (limit : Option ℕ) (wanted : List Row)
          → Recalls limit wanted (limit_rows ctx limit SortKey.created_at_desc wanted)
      go none wanted = refl
      go (some k) wanted = sort_rows-Recalls k wanted
