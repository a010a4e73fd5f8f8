-- ===== src/Stats/Totals.antt =====
-- `FieldHistogram::from_counts`: the total against the counts.
use mmdb.Common.{ℕ, zero, suc, ◌+◌, ◌≤◌, ◌≡◌, refl, [], ◌∷◌, arith}
use mmdb.Common.BTreeMap
use mmdb.Words.{wrapping_add, usize_max}
use mmdb.Ir.{Platform, Literal, cmp_literal}
use mmdb.Stats.{Histogram, Counts, add_count, add_counts, from_counts, count, or_zero}

wrapping_add_small : (a b : ℕ) → a + b ≤ usize_max → wrapping_add a b ≡ a + b
unfolding wrapping_add
wrapping_add_small a b h = omega (arith, h)

module _ ⦃p : Platform⦄ where
  -- The sum of the counts.
  abbrev pub sum_counts : Counts → ℕ
  sum_counts [] = 0
  sum_counts ((literal, n) ∷ counts) = n + sum_counts counts

  sum-insert :
      (literal : Literal p.F32) (n : ℕ) (counts : Counts)
      → sum_counts (BTreeMap.insert cmp_literal literal n counts)
          + or_zero (BTreeMap.get cmp_literal literal counts)
        ≡ sum_counts counts + n
  unfolding BTreeMap.insert BTreeMap.get
  sum-insert literal n [] = omega arith
  sum-insert literal n ((literal', m) ∷ counts) = ground (arith, sum-insert literal n counts)

  get_le_sum :
      (literal : Literal p.F32) (counts : Counts)
      → or_zero (BTreeMap.get cmp_literal literal counts) ≤ sum_counts counts
  unfolding BTreeMap.get
  get_le_sum literal [] = omega arith
  get_le_sum literal ((literal', m) ∷ counts) = ground (arith, get_le_sum literal counts)

  -- The total is the sum of the counts.
  abbrev IsTotal : Histogram → Type 0
  IsTotal h = h.total_count ≡ sum_counts h.counts

  add_count-IsTotal :
      (literal : Literal p.F32) (n : ℕ) (h : Histogram)
      → IsTotal h
      → h.total_count + n ≤ usize_max
      → IsTotal (add_count literal n h) × ((add_count literal n h).total_count ≡ h.total_count + n)
  unfolding add_count
  add_count-IsTotal literal zero h total le = (total, omega arith)
  add_count-IsTotal literal (suc n) h total le =
      let old = or_zero (BTreeMap.get cmp_literal literal h.counts) in
      let bound = get_le_sum literal h.counts in
      let grown = wrapping_add_small h.total_count (suc n) le in
      let stored = wrapping_add_small old (suc n) (omega (arith, bound, total, le)) in
      (rw (grown, stored) (omega (arith, sum-insert literal (old + suc n) h.counts, total)), grown)

  add_counts-IsTotal :
      (counts : Counts) (h : Histogram)
      → IsTotal h
      → h.total_count + sum_counts counts ≤ usize_max
      → IsTotal (add_counts counts h)
        × ((add_counts counts h).total_count ≡ h.total_count + sum_counts counts)
  unfolding add_counts
  add_counts-IsTotal [] h total le = (total, omega arith)
  add_counts-IsTotal ((literal, n) ∷ counts) h total le =
      let (total', grown) = add_count-IsTotal literal n h total (omega (arith, le)) in
      let (total'', grown') =
        add_counts-IsTotal counts (add_count literal n h) total' (omega (arith, le, grown)) in
      (total'', omega (arith, grown, grown'))

  -- Where the counts given do not exceed `u64::MAX` together, the total of the histogram is their sum,
  -- it is the sum of the counts that the histogram keeps, and the count of no literal exceeds it.
  pub from_counts-IsTotal :
      (counts : Counts) (literal : Literal p.F32)
      → sum_counts counts ≤ usize_max
      → ((from_counts counts).total_count ≡ sum_counts counts)
        × ((from_counts counts).total_count ≡ sum_counts (from_counts counts).counts)
        × (count (from_counts counts) literal ≤ (from_counts counts).total_count)
  unfolding from_counts count
  from_counts-IsTotal counts literal le =
      let empty : Histogram = record { counts = []; total_count = 0 } in
      let (total, grown) = add_counts-IsTotal counts empty refl (omega (arith, le)) in
      (
        omega (arith, grown),
        total,
        omega (arith, total, get_le_sum literal (add_counts counts empty).counts),
      )
