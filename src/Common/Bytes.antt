-- ===== src/Common/Bytes.antt =====
-- Byte strings as lists of numbers: Rust's big-endian encodings of the unsigned integers, and the
-- lexicographic order by which the storage engine sorts its keys.
use Prim.Native.Nat.{ℕ, zero, suc, ◌+◌, ◌*◌, ◌/◌, ◌%◌, ◌^◌, ◌<◌, compare, Ordering}
use mathlib.Core.Path.{◌≡◌, refl, ap, sym, ◌∙◌}
use mathlib.Core.Logic.{◌↔◌}
use mathlib.Core.Bool.{Bool, true, false, ◌&&◌}
use mathlib.Core.List.{List, [], ◌∷◌, ◌++◌}
use native.Mathlib.Omega.{arith}
use native.Mathlib.Nat.{pow-suc}
use mmdb.Common.Tests.{◌==◌, then_with, is_eq}
use mmdb.Common.Lists.{length}

abbrev pub Bytes : Type 0
Bytes = List ℕ

-- `to_be_bytes` of an integer of `w` bytes, for a number below 256 ^ w.
abbrev pub to_be_bytes : ℕ → ℕ → Bytes
to_be_bytes zero n = []
to_be_bytes (suc w) n = n / 256 ^ w ∷ to_be_bytes w (n % 256 ^ w)

abbrev pub from_be_bytes : Bytes → ℕ
from_be_bytes [] = 0
from_be_bytes (b ∷ bs) = b * 256 ^ length bs + from_be_bytes bs

-- The lexicographic order of byte slices.
abbrev pub cmp_bytes : Bytes → Bytes → Ordering
cmp_bytes [] [] = Ordering.eq
cmp_bytes [] (b ∷ bs) = Ordering.lt
cmp_bytes (a ∷ as') [] = Ordering.gt
cmp_bytes (a ∷ as') (b ∷ bs) = then_with (compare a b) (cmp_bytes as' bs)

abbrev pub bytes_eq : Bytes → Bytes → Bool
bytes_eq a b = is_eq (cmp_bytes a b)

-- `starts_with k p`: the slice `k` begins with `p`.
abbrev pub starts_with : Bytes → Bytes → Bool
starts_with k [] = true
starts_with [] (p ∷ ps) = false
starts_with (b ∷ k) (p ∷ ps) = (b == p) && starts_with k ps

pow-pos : (w : ℕ) → 0 < 256 ^ w
pow-pos zero = omega arith
pow-pos (suc w) = rw pow-suc (omega (arith, pow-pos w))

div_mod : (n p : ℕ) → 0 < p → n / p * p + n % p ≡ n
div_mod n p h = grind arith

mod_lt : (n p : ℕ) → 0 < p → n % p < p
mod_lt n p h = grind arith

pub length-to_be_bytes : (w n : ℕ) → length (to_be_bytes w n) ≡ w
length-to_be_bytes zero n = refl
length-to_be_bytes (suc w) n = ap suc (length-to_be_bytes w (n % 256 ^ w))

pub from_be_bytes-to_be_bytes : (w n : ℕ) → n < 256 ^ w → from_be_bytes (to_be_bytes w n) ≡ n
from_be_bytes-to_be_bytes zero n h = omega arith
from_be_bytes-to_be_bytes (suc w) n h =
    rw
      (
        length-to_be_bytes w (n % 256 ^ w),
        from_be_bytes-to_be_bytes w (n % 256 ^ w) (mod_lt n (256 ^ w) (pow-pos w)),
      )
      (div_mod n (256 ^ w) (pow-pos w))

pub to_be_bytes_inj :
    (w m n : ℕ) → m < 256 ^ w → n < 256 ^ w → to_be_bytes w m ≡ to_be_bytes w n → m ≡ n
to_be_bytes_inj w m n hm hn e =
    sym (from_be_bytes-to_be_bytes w m hm) ∙ ap from_be_bytes e ∙ from_be_bytes-to_be_bytes w n hn

below_digits : (q r q' r' p : ℕ) → r < p → q < q' → q * p + r < q' * p + r'
below_digits q r q' r' p h lt = grind arith

-- Numbers in a base compare by their leading digits, then by the rest.
compare-digits :
    (q r q' r' p : ℕ)
    → r < p
    → r' < p
    → then_with (compare q q') (compare r r') ≡ compare (q * p + r) (q' * p + r')
compare-digits q r q' r' p h h' =
    ground (arith, below_digits q r q' r' p h, below_digits q' r' q r p h')

-- The bytes sort as the numbers do.
pub cmp_bytes-to_be_bytes :
    (w m n : ℕ)
    → m < 256 ^ w
    → n < 256 ^ w
    → cmp_bytes (to_be_bytes w m) (to_be_bytes w n) ≡ compare m n
cmp_bytes-to_be_bytes zero m n hm hn = ground arith
cmp_bytes-to_be_bytes (suc w) m n hm hn =
    let p = 256 ^ w in
    let pos = pow-pos w in
    let low = cmp_bytes-to_be_bytes w (m % p) (n % p) (mod_lt m p pos) (mod_lt n p pos) in
    rw low (
      compare-digits (m / p) (m % p) (n / p) (n % p) p (mod_lt m p pos) (mod_lt n p pos)
      ∙ rw (div_mod m p pos, div_mod n p pos) refl)

pub cmp_bytes_self : (a : Bytes) → cmp_bytes a a ≡ Ordering.eq
cmp_bytes_self [] = refl
cmp_bytes_self (a ∷ as') = ground (arith, cmp_bytes_self as')

pub eq_of_cmp_bytes : (a b : Bytes) → cmp_bytes a b ≡ Ordering.eq → a ≡ b
eq_of_cmp_bytes [] [] h = refl
eq_of_cmp_bytes [] (b ∷ bs) h = cc
eq_of_cmp_bytes (a ∷ as') [] h = cc
eq_of_cmp_bytes (a ∷ as') (b ∷ bs) h = ground (arith, eq_of_cmp_bytes as' bs)

pub bytes_eq_iff : (a b : Bytes) → (bytes_eq a b ≡ true) ↔ (a ≡ b)
bytes_eq_iff a b = ground (arith, eq_of_cmp_bytes a b, cmp_bytes_self a)

pub cmp_bytes_trans :
    (a b c : Bytes)
    → cmp_bytes a b ≡ Ordering.lt
    → cmp_bytes b c ≡ Ordering.lt
    → cmp_bytes a c ≡ Ordering.lt
cmp_bytes_trans [] [] c h k = cc
cmp_bytes_trans [] (b ∷ bs) [] h k = cc
cmp_bytes_trans [] (b ∷ bs) (c ∷ cs) h k = refl
cmp_bytes_trans (a ∷ as') [] c h k = cc
cmp_bytes_trans (a ∷ as') (b ∷ bs) [] h k = cc
cmp_bytes_trans (a ∷ as') (b ∷ bs) (c ∷ cs) h k = ground (arith, cmp_bytes_trans as' bs cs)

pub cmp_bytes_swap : (a b : Bytes) → cmp_bytes a b ≡ Ordering.gt → cmp_bytes b a ≡ Ordering.lt
cmp_bytes_swap [] [] h = cc
cmp_bytes_swap [] (b ∷ bs) h = cc
cmp_bytes_swap (a ∷ as') [] h = refl
cmp_bytes_swap (a ∷ as') (b ∷ bs) h = ground (arith, cmp_bytes_swap as' bs)

pub starts_with-append : (p k q : Bytes) → starts_with (p ++ k) (p ++ q) ≡ starts_with k q
starts_with-append [] k q = refl
starts_with-append (b ∷ p) k q = ground (arith, starts_with-append p k q)

-- Slices of one length that begin two equal byte strings are equal.
pub append_inj : (a b x y : Bytes) → length a ≡ length b → a ++ x ≡ b ++ y → (a ≡ b) × (x ≡ y)
append_inj [] [] x y l e = (refl, e)
append_inj [] (b ∷ bs) x y l e = absurd (omega arith)
append_inj (a ∷ as') [] x y l e = absurd (omega arith)
append_inj (a ∷ as') (b ∷ bs) x y l e =
    let (heads, tails) = append_inj as' bs x y (omega arith) cc in
    let first : a ≡ b = cc in (rw (first, heads) refl, tails)

pub starts_with_split : (k p : Bytes) → starts_with k p ≡ true → (r : Bytes) × (k ≡ p ++ r)
starts_with_split k [] h = (k, refl)
starts_with_split [] (b ∷ p) h = cc
starts_with_split (a ∷ k) (b ∷ p) h =
    let (r, e) = starts_with_split k p (ground arith) in
    (r, let same : a ≡ b = ground arith in rw (same, e) refl)

pub starts_with-prefix : (p r : Bytes) → starts_with (p ++ r) p ≡ true
starts_with-prefix [] r = refl
starts_with-prefix (b ∷ p) r = ground (arith, starts_with-prefix p r)

pub starts_with_self : (p : Bytes) → starts_with p p ≡ true
starts_with_self [] = refl
starts_with_self (b ∷ p) = ground (arith, starts_with_self p)

-- Slices of one length that begin two byte strings are compared first.
pub cmp_bytes-append :
    (a b x y : Bytes)
    → length a ≡ length b
    → cmp_bytes (a ++ x) (b ++ y) ≡ then_with (cmp_bytes a b) (cmp_bytes x y)
cmp_bytes-append [] [] x y h = refl
cmp_bytes-append [] (b ∷ bs) x y h = absurd (omega arith)
cmp_bytes-append (a ∷ as') [] x y h = absurd (omega arith)
cmp_bytes-append (a ∷ as') (b ∷ bs) x y h =
    ground (arith, cmp_bytes-append as' bs x y (omega arith))

-- Two keys that begin with a number of the same width compare by it first.
pub cmp_bytes-field :
    (w m n : ℕ) (x y : Bytes)
    → m < 256 ^ w
    → n < 256 ^ w
    → cmp_bytes (to_be_bytes w m ++ x) (to_be_bytes w n ++ y)
      ≡ then_with (compare m n) (cmp_bytes x y)
cmp_bytes-field w m n x y hm hn =
    cmp_bytes-append (to_be_bytes w m) (to_be_bytes w n) x y
      (length-to_be_bytes w m ∙ sym (length-to_be_bytes w n))
    ∙ ap (λ o. then_with o (cmp_bytes x y)) (cmp_bytes-to_be_bytes w m n hm hn)
