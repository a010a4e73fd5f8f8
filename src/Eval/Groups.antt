-- ===== src/Eval/Groups.antt =====
-- `aggregate_records`: every row with a complete key is counted in one group.
use mmdb.Common.{
  ℕ, ◌+◌, ◌≡◌, refl, ap, ◌∙◌, List, [], ◌∷◌, Option, none, some, arith, length, filter_map,
  Option-cases, inl, inr, Bool, true, false, suc, sym, map, filter, collect,
}
use mmdb.Common.BTreeMap
use mmdb.Ir.{Platform, FieldRef, Literal, cmp_list, cmp_literal}
use mmdb.Eval.{Record, field_literal, GroupKey, aggregate_group_key, count_row, count_groups}

module _ ⦃p : Platform⦄ where
  abbrev pub Groups : Type 0
  Groups = List (GroupKey × ℕ)

  -- The sum of the counts.
  abbrev pub counted : Groups → ℕ
  counted [] = 0
  counted ((key, n) ∷ groups) = n + counted groups

  abbrev found : Option ℕ → ℕ
  found none = 0
  found (some n) = n

  counted-insert :
      (key : GroupKey) (n : ℕ) (groups : Groups)
      → counted (BTreeMap.insert (cmp_list cmp_literal) key n groups)
          + found (BTreeMap.get (cmp_list cmp_literal) key groups)
        ≡ counted groups + n
  unfolding BTreeMap.insert BTreeMap.get
  counted-insert key n [] = omega arith
  counted-insert key n ((key', m) ∷ groups) = ground (arith, counted-insert key n groups)

  -- A row counts once, if its key is complete.
  abbrev one : Option GroupKey → ℕ
  one none = 0
  one (some key) = 1

  counted-count_row :
      (key : Option GroupKey) (groups : Groups)
      → counted (count_row key groups) ≡ counted groups + one key
  counted-count_row none groups = omega arith
  counted-count_row (some key) groups = go (BTreeMap.get (cmp_list cmp_literal) key groups) refl
    where
      go :
          (x : Option ℕ)
          → BTreeMap.get (cmp_list cmp_literal) key groups ≡ x
          → counted (count_row (some key) groups) ≡ counted groups + 1
      go none new = rw (new, count_row) (omega (arith, counted-insert key 1 groups, ap found new))
      go (some n) old =
          rw (old, count_row) (omega (arith, counted-insert key (n + 1) groups, ap found old))

  length-filter_map :
      (group_by : List FieldRef) (r : Record p.F32) (rows : List (Record p.F32))
      → length (filter_map (λ s. aggregate_group_key s group_by) (r ∷ rows))
        ≡ one (aggregate_group_key r group_by)
          + length (filter_map (λ s. aggregate_group_key s group_by) rows)
  length-filter_map group_by r rows = elim (Option-cases (aggregate_group_key r group_by)) [
    | inl none_of ↦ rw (none_of, filter_map) (omega arith)
    | inr (key, e) ↦ rw (e, filter_map) (omega arith)
  ]

  counted-from :
      (group_by : List FieldRef) (rows : List (Record p.F32)) (groups : Groups)
      → counted (count_groups group_by rows groups)
        ≡ counted groups + length (filter_map (λ r. aggregate_group_key r group_by) rows)
  unfolding count_groups
  counted-from group_by [] groups = omega arith
  counted-from group_by (r ∷ rows) groups =
      counted-from group_by rows (count_row (aggregate_group_key r group_by) groups)
      ∙ omega (
        arith,
        counted-count_row (aggregate_group_key r group_by) groups,
        length-filter_map group_by r rows,
      )

  -- The row has every field of the list.
  abbrev pub has_every : List FieldRef → Record p.F32 → Bool
  has_every [] r = true
  has_every (g ∷ group_by) r = elim (field_literal r g) [
    | none ↦ false
    | some _ ↦ has_every group_by r
  ]

  abbrev is_complete : Option GroupKey → Bool
  is_complete none = false
  is_complete (some key) = true

  complete_key :
      (group_by : List FieldRef) (r : Record p.F32)
      → is_complete (aggregate_group_key r group_by) ≡ has_every group_by r
  unfolding aggregate_group_key
  complete_key [] r = refl
  complete_key (g ∷ group_by) r = elim (Option-cases (field_literal r g)) [
    | inl missing ↦ rw (missing, has_every) refl
    | inr (literal, e) ↦
        rw (e, has_every)
          (kept (collect (map (field_literal r) group_by)) literal ∙ complete_key group_by r)
  ]
    where
      kept :
          (o : Option GroupKey) (x : Literal p.F32)
          → is_complete (elim o [ none ↦ none | some key ↦ some (x ∷ key) ]) ≡ is_complete o
      kept none x = refl
      kept (some key) x = refl

  length_complete :
      (group_by : List FieldRef) (rows : List (Record p.F32))
      → length (filter_map (λ r. aggregate_group_key r group_by) rows)
        ≡ length (filter (has_every group_by) rows)
  length_complete group_by [] = refl
  length_complete group_by (r ∷ rows) =
      let rest = length_complete group_by rows in
      let same = complete_key group_by r in
      elim (Option-cases (aggregate_group_key r group_by)) [
        | inl missing ↦
            let lacks : has_every group_by r ≡ false = sym same ∙ ap is_complete missing in
            rw (missing, lacks, filter_map, filter) rest
        | inr (key, e) ↦
            let has : has_every group_by r ≡ true = sym same ∙ ap is_complete e in
            rw (e, has, filter_map, filter) (ap suc rest)
      ]

  -- The counts of the groups add up to the number of the rows that have every field of the key.
  pub counted-count_groups :
      (group_by : List FieldRef) (rows : List (Record p.F32))
      → counted (count_groups group_by rows []) ≡ length (filter (has_every group_by) rows)
  counted-count_groups group_by rows =
      omega (arith, counted-from group_by rows [], length_complete group_by rows)
