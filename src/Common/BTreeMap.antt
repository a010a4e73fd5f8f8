-- ===== src/Common/BTreeMap.antt =====
-- Rust's `BTreeMap`, as the list of its entries in the order of the keys.
use Prim.Native.Nat.{Ordering}
use mathlib.Core.List.{List, [], ◌∷◌}
use mathlib.Core.Option.{Option, none, some}

module _ {ℓ κ} {K : Type ℓ} {V : Type κ} (cmp : K → K → Ordering) where
  -- The search stops at the first key that is not smaller.
  unfoldable pub get : K → List (K × V) → Option V
  get k [] = none
  get k ((j, w) ∷ m) =
      let rest = get k m in
      elim (cmp k j) [ Ordering.lt ↦ none | Ordering.eq ↦ some w | Ordering.gt ↦ rest ]

  -- An insertion at a key that is present replaces the value and keeps the key.
  unfoldable pub insert : K → V → List (K × V) → List (K × V)
  insert k v [] = (k, v) ∷ []
  insert k v ((j, w) ∷ m) =
      let rest = insert k v m in
      elim (cmp k j) [
        | Ordering.lt ↦ (k, v) ∷ (j, w) ∷ m
        | Ordering.eq ↦ (j, v) ∷ m
        | Ordering.gt ↦ (j, w) ∷ rest
      ]
