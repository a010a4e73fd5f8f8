-- ===== src/Stats.antt =====
-- crates/mmdb-query/src/ir.rs: `FieldHistogram` and `Stats`.
pub mod Totals
use mmdb.Common.{
  ℕ, zero, suc, Option, none, some, List, [], ◌∷◌, true, false, if◌then◌else◌, any, ◌==◌,
}
use mmdb.Common.BTreeMap
use mmdb.Words.{wrapping_add}
use mmdb.Ir.{FieldRef, Literal, Predicate, Predicates, Platform, cmp_literal, eq_literal, cmp_field}

pub record FieldHistogram (F : Type 0) : Type 0 where
  pub counts : List (Literal F × ℕ)
  pub total_count : ℕ

pub record Stats (F : Type 0) : Type 0 where
  pub node_rows : ℕ
  pub estimated_filter_selectivity : F
  pub histograms : List (FieldRef × FieldHistogram F)

abbrev pub or_zero : Option ℕ → ℕ
or_zero none = 0
or_zero (some n) = n

module _ ⦃p : Platform⦄ where
  abbrev pub Counts : Type 0
  Counts = List (Literal p.F32 × ℕ)

  abbrev pub Histogram : Type 0
  Histogram = FieldHistogram p.F32

  -- `Stats::default`.
  abbrev pub default_stats : Stats p.F32
  default_stats = record {
    node_rows = 0;
    estimated_filter_selectivity = p.one_f32;
    histograms = [];
  }

  -- One round of the loop of `from_counts`: `*merged.entry(literal).or_default() += count`.
  unfoldable pub add_count : Literal p.F32 → ℕ → Histogram → Histogram
  add_count literal zero h = h
  add_count literal (suc n) h = record {
    counts =
        BTreeMap.insert cmp_literal literal
          (wrapping_add (or_zero (BTreeMap.get cmp_literal literal h.counts)) (suc n)) h.counts;
    total_count = wrapping_add h.total_count (suc n);
  }

  unfoldable pub add_counts : Counts → Histogram → Histogram
  add_counts [] h = h
  add_counts ((literal, n) ∷ counts) h = add_counts counts (add_count literal n h)

  unfoldable pub from_counts : Counts → Histogram
  from_counts counts = add_counts counts (record { counts = []; total_count = 0 })

  -- `FieldHistogram::count`.
  unfoldable pub count : Histogram → Literal p.F32 → ℕ
  count h literal = or_zero (BTreeMap.get cmp_literal literal h.counts)

  -- The loop of `selectivity_for_literals`: each literal counts once.
  unfoldable pub matching_count : Histogram → List (Literal p.F32) → List (Literal p.F32) → ℕ → ℕ
  matching_count h [] seen matching = matching
  matching_count h (l ∷ ls) seen matching = elim (any (eq_literal l) seen) [
    | true ↦ matching_count h ls seen matching
    | false ↦ matching_count h ls (l ∷ seen) (wrapping_add matching (count h l))
  ]

  unfoldable pub selectivity_for_literals : Histogram → List (Literal p.F32) → Option p.F32
  selectivity_for_literals h literals =
      if h.total_count == 0
      then none
      else some (
          p.clamp_f32
            (p.div_f32 (p.from_u64 (matching_count h literals [] 0)) (p.from_u64 h.total_count))
            p.zero_f32 p.one_f32)

  abbrev pub clamp_unit : p.F32 → p.F32
  clamp_unit x = p.clamp_f32 x p.zero_f32 p.one_f32

  abbrev pub and_then_selectivity : Option Histogram → List (Literal p.F32) → Option p.F32
  and_then_selectivity none literals = none
  and_then_selectivity (some h) literals = selectivity_for_literals h literals

  abbrev pub or_else_f32 : Option p.F32 → p.F32 → p.F32
  or_else_f32 none fallback = fallback
  or_else_f32 (some x) fallback = x

  -- `Stats::with_histogram`.
  abbrev pub with_histogram : Stats p.F32 → FieldRef → Histogram → Stats p.F32
  with_histogram stats field h = record stats {
    histograms = BTreeMap.insert cmp_field field h stats.histograms;
  }

  abbrev pub fallback : Stats p.F32 → p.F32
  fallback stats = clamp_unit stats.estimated_filter_selectivity

  abbrev pub histogram_selectivity : Stats p.F32 → FieldRef → List (Literal p.F32) → p.F32
  histogram_selectivity stats field literals =
      or_else_f32 (and_then_selectivity (BTreeMap.get cmp_field field stats.histograms) literals)
        (fallback stats)

  unfoldable mutual
    pub estimate_selectivity : Stats p.F32 → Predicate p.F32 → p.F32
    estimate_selectivity stats (Predicate.eq field literal) =
        histogram_selectivity stats field (literal ∷ [])
    estimate_selectivity stats (Predicate.in_list field literals) =
        histogram_selectivity stats field literals
    estimate_selectivity stats (Predicate.and preds) =
        clamp_unit (product_selectivity stats preds p.one_f32)
    estimate_selectivity stats (Predicate.or preds) =
        clamp_unit (p.sub_f32 p.one_f32 (product_misses stats preds p.one_f32))
    estimate_selectivity stats (Predicate.not pred) =
        clamp_unit (p.sub_f32 p.one_f32 (estimate_selectivity stats pred))
    estimate_selectivity stats (Predicate.gt _ _) = fallback stats
    estimate_selectivity stats (Predicate.gte _ _) = fallback stats
    estimate_selectivity stats (Predicate.lt _ _) = fallback stats
    estimate_selectivity stats (Predicate.lte _ _) = fallback stats

    -- `product` multiplies from the left, from one.
    pub product_selectivity : Stats p.F32 → Predicates p.F32 → p.F32 → p.F32
    product_selectivity stats Predicates.nil acc = acc
    product_selectivity stats (Predicates.cons q ps) acc =
        product_selectivity stats ps (p.mul_f32 acc (estimate_selectivity stats q))

    pub product_misses : Stats p.F32 → Predicates p.F32 → p.F32 → p.F32
    product_misses stats Predicates.nil acc = acc
    product_misses stats (Predicates.cons q ps) acc =
        product_misses stats ps (p.mul_f32 acc (p.sub_f32 p.one_f32 (estimate_selectivity stats q)))
