-- ===== src/Tnet/Reader/Numbers.antt =====
-- `ParseInt` undoes `FormatInt`.
use vespasian.Prelude.{
  ℕ, zero, suc, ◌^◌, ◌<◌, Bool, true, false, Option, none, some, [], ◌∷◌, ◌≡◌, refl, arith, Bytes,
  length, All,
}
use vespasian.Prelude.Decimal.{
  decimal, IsDigit, digits_value, digits_value-decimal, decimal-IsDigit, length-decimal_pos,
}
use vespasian.Prelude.Int.{ℤ, pos, negsuc}
use vespasian.Tnet.Encode.{format_int}
use vespasian.Tnet.Reader.{all_digits, unsigned_value, in_int64, parse_int}

-- The range of int64.
abbrev pub IsInt64 : ℤ → Type 0
IsInt64 (pos n) = n < 2 ^ 63
IsInt64 (negsuc n) = n < 2 ^ 63

all_digits_lem : (s : Bytes) → All IsDigit s → all_digits s ≡ true
all_digits_lem [] h = refl
all_digits_lem (c ∷ s) (hc, h) = ground (arith, all_digits_lem s h)

unsigned_value_lem :
    (s : Bytes) → All IsDigit s → 0 < length s → unsigned_value s ≡ some (digits_value 0 s)
unsigned_value_lem [] h k = absurd (omega arith)
unsigned_value_lem (c ∷ s) h k = rw (all_digits_lem (c ∷ s) h)

unsigned_value-decimal : (n : ℕ) → unsigned_value (decimal n) ≡ some n
unsigned_value-decimal n = ground (
  arith,
  unsigned_value_lem (decimal n) (decimal-IsDigit n) (length-decimal_pos n),
  digits_value-decimal n,
)

parse_int-digits :
    (s : Bytes) → All IsDigit s → 0 < length s → parse_int s ≡ in_int64 false (unsigned_value s)
unfolding parse_int
parse_int-digits [] h k = absurd (omega arith)
parse_int-digits (c ∷ s) h k = ground arith

-- Every int64 is read back from the text that the encoder writes for it.
pub parse_int-format_int : (z : ℤ) → IsInt64 z → parse_int (format_int z) ≡ some z
unfolding format_int
parse_int-format_int (pos n) h = ground (
  arith,
  parse_int-digits (decimal n) (decimal-IsDigit n) (length-decimal_pos n),
  unsigned_value-decimal n,
)
parse_int-format_int (negsuc n) h =
    unfold parse_int in rw (unsigned_value-decimal (suc n)) (ground arith)

in_int64-IsInt64 :
    (negative : Bool) (n : Option ℕ) (z : ℤ) → in_int64 negative n ≡ some z → IsInt64 z
in_int64-IsInt64 negative none z e = cc
in_int64-IsInt64 false (some n) z e = ground arith
in_int64-IsInt64 true (some zero) z e = ground arith
in_int64-IsInt64 true (some (suc n)) z e = ground arith

-- A number that is read is an int64.
pub parse_int-IsInt64 : (s : Bytes) (z : ℤ) → parse_int s ≡ some z → IsInt64 z
unfolding parse_int
parse_int-IsInt64 [] z e = cc
parse_int-IsInt64 (c ∷ s) z e = ground (
  arith,
  in_int64-IsInt64 true (unsigned_value s) z,
  in_int64-IsInt64 false (unsigned_value s) z,
  in_int64-IsInt64 false (unsigned_value (c ∷ s)) z,
)
