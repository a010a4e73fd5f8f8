-- ===== src/StateStore/Order.antt =====
-- The keys under a prefix stand together in the order of the keys: a loop that starts at the cursor and
-- stops at the first key outside the prefix reads all of them after the cursor.
use mmdb.Common.{
  true, false, not, ◌&&◌, Option, [], ◌∷◌, ◌≡◌, refl, arith, filter, All, Ordering, if◌then◌else◌,
}
use mmdb.Common.Sorted.{Sorted}
use mmdb.Common.Bytes.{Bytes, starts_with, cmp_bytes}
use mmdb.Engine.Maps.{Entries, Before}
use mmdb.Engine.Laws.{is_below}
use mmdb.StateStore.Scan.{is_past}

-- Where the loop stops, and what it does not skip.
abbrev pub page : Bytes → Option Bytes → Entries → Entries
page under cursor [] = []
page under cursor (e ∷ m) =
    let later = page under cursor m in
    if starts_with e.0 under then if is_past cursor e.0 then e ∷ later else later else []

-- Behind the keys under a prefix none stands under it.
beyond_prefix :
    (p start a b : Bytes)
    → starts_with start p ≡ true
    → is_below a start ≡ false
    → starts_with a p ≡ false
    → cmp_bytes a b ≡ Ordering.lt
    → starts_with b p ≡ false
beyond_prefix [] start a b h n o l = cc
beyond_prefix (c ∷ p) [] a b h n o l = cc
beyond_prefix (c ∷ p) (d ∷ start) [] b h n o l = cc
beyond_prefix (c ∷ p) (d ∷ start) (x ∷ a) [] h n o l = refl
beyond_prefix (c ∷ p) (d ∷ start) (x ∷ a) (y ∷ b) h n o l =
    ground (arith, beyond_prefix p start a b)

pub below-starts_with : (a p : Bytes) → starts_with a p ≡ true → is_below a p ≡ false
below-starts_with [] [] h = refl
below-starts_with [] (c ∷ p) h = cc
below-starts_with (x ∷ a) [] h = refl
below-starts_with (x ∷ a) (c ∷ p) h = ground (arith, below-starts_with a p)

none_beyond :
    (p start : Bytes) (cursor : Option Bytes) (x : Bytes × Bytes) (m : Entries)
    → starts_with start p ≡ true
    → is_below x.0 start ≡ false
    → starts_with x.0 p ≡ false
    → All (Before x) m
    → filter (λ e. starts_with e.0 p && is_past cursor e.0) m ≡ []
none_beyond p start cursor x [] h n o l = refl
none_beyond p start cursor x (e ∷ m) h n o (first, rest) =
    ground
      (arith, beyond_prefix p start x.0 e.0 h n o first, none_beyond p start cursor x m h n o rest)

pub page-filter :
    (p start : Bytes) (cursor : Option Bytes) (m : Entries)
    → starts_with start p ≡ true
    → ((k : Bytes) → starts_with k p && is_past cursor k ≡ true → is_below k start ≡ false)
    → Sorted Before m
    → page p cursor (filter (λ e. not (is_below e.0 start)) m)
      ≡ filter (λ e. starts_with e.0 p && is_past cursor e.0) m
page-filter p start cursor [] h b s = refl
page-filter p start cursor (e ∷ m) h b (first, rest) =
    ground (arith, page-filter p start cursor m h b rest, b e.0, none_beyond p start cursor e m h)
