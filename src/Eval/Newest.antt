-- ===== src/Eval/Newest.antt =====
-- `sort_rows` by the time of creation, as the limit of a recall uses it.
use mmdb.Common.{
  ℕ, ◌≡◌, refl, sym, ap, ◌∙◌, List, ◌++◌, true, false, arith, take, drop, take-append-drop, length,
  length-take, min, Perm, is_gt,
}
use mmdb.Common.Int.{ℤ, cmp_ℤ, le_ℤ}
use mmdb.Common.Sort.{sort_by}
use mmdb.Common.Sorted.{Sorted, Sorted-sort_by, Perm-sort_by, length-sort_by}
use mathlib.Core.Path.{subst}
use mmdb.Ir.{Platform, SortKey}
use mmdb.Eval.{Record, sort_rows, row_order}

pub le_ℤ-trans : (a b c : ℤ) → le_ℤ b a ≡ true → le_ℤ c b ≡ true → le_ℤ c a ≡ true
le_ℤ-trans (ℤ.pos a) (ℤ.pos b) (ℤ.pos c) h k = ground (arith, h, k)
le_ℤ-trans (ℤ.pos a) (ℤ.pos b) (ℤ.negsuc c) h k = refl
le_ℤ-trans (ℤ.pos a) (ℤ.negsuc b) (ℤ.pos c) h k = cc
le_ℤ-trans (ℤ.pos a) (ℤ.negsuc b) (ℤ.negsuc c) h k = refl
le_ℤ-trans (ℤ.negsuc a) (ℤ.pos b) c h k = cc
le_ℤ-trans (ℤ.negsuc a) (ℤ.negsuc b) (ℤ.pos c) h k = cc
le_ℤ-trans (ℤ.negsuc a) (ℤ.negsuc b) (ℤ.negsuc c) h k = ground (arith, h, k)

not_gt : (a b : ℤ) → is_gt (cmp_ℤ b a) ≡ false → le_ℤ b a ≡ true
not_gt (ℤ.pos a) (ℤ.pos b) h = ground (arith, h)
not_gt (ℤ.pos a) (ℤ.negsuc b) h = refl
not_gt (ℤ.negsuc a) (ℤ.pos b) h = cc
not_gt (ℤ.negsuc a) (ℤ.negsuc b) h = ground (arith, h)

gt : (a b : ℤ) → is_gt (cmp_ℤ b a) ≡ true → le_ℤ a b ≡ true
gt (ℤ.pos a) (ℤ.pos b) h = ground (arith, h)
gt (ℤ.pos a) (ℤ.negsuc b) h = cc
gt (ℤ.negsuc a) (ℤ.pos b) h = refl
gt (ℤ.negsuc a) (ℤ.negsuc b) h = ground (arith, h)

module _ ⦃p : Platform⦄ where
  -- The first row is no older.
  abbrev pub NotOlder : Record p.F32 → Record p.F32 → Type 0
  NotOlder r s = le_ℤ s.created_at_ms r.created_at_ms ≡ true

  -- The first `k` rows of the order by creation, followed by the others, are a permutation of the rows
  -- in which no row is older than a later one; and they are `k`, or all where there are fewer.
  pub take-sort_rows :
      (k : ℕ) (rows : List (Record p.F32))
      → let sorted = sort_rows SortKey.created_at_desc rows in
        let kept = take k sorted in
        Perm (kept ++ drop k sorted) rows
        × Sorted NotOlder (kept ++ drop k sorted)
        × (length kept ≡ min k (length rows))
  unfolding sort_rows row_order
  take-sort_rows k rows =
      let sorted = sort_by (row_order SortKey.created_at_desc) rows in
      (
        subst (λ l. Perm l rows) (sym (take-append-drop k sorted))
            (Perm-sort_by (row_order SortKey.created_at_desc) rows),
        subst (Sorted NotOlder) (sym (take-append-drop k sorted)) (
            Sorted-sort_by (row_order SortKey.created_at_desc) NotOlder
              (λ x y z. le_ℤ-trans x.created_at_ms y.created_at_ms z.created_at_ms)
              (λ x y. not_gt x.created_at_ms y.created_at_ms)
              (λ x y. gt x.created_at_ms y.created_at_ms) rows),
        length-take k sorted ∙ ap (min k) (length-sort_by (row_order SortKey.created_at_desc) rows),
      )
