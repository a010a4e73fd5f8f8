-- ===== src/Words.antt =====
-- Rust's `usize` and `u64` on a 64-bit machine: saturating and wrapping arithmetic.
use Prim.Native.String.{◌++◌ as text_append}
use mmdb.Common.{
  ℕ, zero, suc, ◌/◌, ◌==◌, true, false, String, if◌then◌else◌, ◌+◌, ◌-◌, ◌*◌, ◌%◌, ◌^◌, min,
}

abbrev pub usize_max : ℕ
usize_max = 2 ^ 64 - 1

unfoldable pub saturating_add : ℕ → ℕ → ℕ
saturating_add a b = min (a + b) usize_max

unfoldable pub saturating_mul : ℕ → ℕ → ℕ
saturating_mul a b = min (a * b) usize_max

-- `a + b` without the overflow check of a debug build.
unfoldable pub wrapping_add : ℕ → ℕ → ℕ
wrapping_add a b = (a + b) % 2 ^ 64

-- `Display` of an unsigned integer of 64 bits, which has 20 digits at most.
abbrev pub digit : ℕ → String
digit n =
    if n == 0
    then "0"
    else if n == 1
    then "1"
    else if n == 2
    then "2"
    else if n == 3
    then "3"
    else if n == 4
    then "4"
    else if n == 5
    then "5"
    else if n == 6
    then "6"
    else if n == 7
    then "7"
    else if n == 8
    then "8"
    else "9"

unfoldable pub show_digits : ℕ → ℕ → String → String
show_digits zero n text = text
show_digits (suc fuel) n text =
    let longer = text_append (digit (n % 10)) text in
    elim (n / 10 == 0) [ true ↦ longer | false ↦ show_digits fuel (n / 10) longer ]

unfoldable pub show_u64 : ℕ → String
show_u64 n = show_digits 20 n ""
