-- ===== src/Tnet/Reader.antt =====
-- pkg/importer/tnetstring.go: what the decoder reads before it looks at a value. A reader is the bytes that it has not yet read.
pub mod Prefix
pub mod Numbers
pub mod Returns
use vespasian.Prelude.{
  ℕ, zero, suc, ◌≡◌, refl, arith, ◌+◌, ◌-◌, ◌*◌, ◌^◌, Bool, true, false, ◌&&◌, ◌||◌, Option, none,
  some, List, [], ◌∷◌, ◌++◌, Bytes, codes, length, take, drop, str_eq, ltb, leb, ◌==◌,
  if◌then◌else◌,
}
use vespasian.Prelude.Decimal.{digits_value}
use vespasian.Prelude.Int.{ℤ, pos, negsuc}
use vespasian.Tnet.Value.{
  Value, null, bytes, str, int, float, bool, list, dict, Items, nil, cons, Entries, end, entry,
}

abbrev pub max_tnetstring_depth : ℕ
max_tnetstring_depth = 64

abbrev pub max_length_prefix_digits : ℕ
max_length_prefix_digits = 9

abbrev pub max_tnetstring_element : ℕ
max_tnetstring_element = 64 * 1024 * 1024

abbrev pub max_tnetstring_elements : ℕ
max_tnetstring_elements = 2 ^ 20

-- The errors, with what their messages print; the last four wrap (`%w`) the error of an element.
pub data TnetError : Type 0 where
  depth_exceeded : TnetError
  length_prefix_eof : TnetError
  bad_length_byte : ℕ → TnetError
  length_prefix_too_long empty_length_prefix : TnetError
  bad_length : Bytes → TnetError
  element_too_large : ℕ → TnetError
  exceeds_buffer : ℕ → ℕ → TnetError
  payload_truncated : ℕ → TnetError
  marker_missing : TnetError
  bad_int bad_float bad_bool : Bytes → TnetError
  null_payload : ℕ → TnetError
  unknown_marker : ℕ → TnetError
  list_too_long dict_too_long bad_dict_key : TnetError
  dict_key_without_value : Bytes → TnetError
  list_element dict_key : TnetError → TnetError
  dict_value : Bytes → TnetError → TnetError

-- `(value, error)`. `stuck` is no result of the code: the fuel of a loop ran out.
pub data Decoded {ℓ} (A : Type ℓ) : Type ℓ where
  ok : A → Decoded A
  err : TnetError → Decoded A
  stuck : Decoded A

infixl 5 ◌>>=◌
abbrev pub ◌>>=◌ {ℓ κ} : {A : Type ℓ} {B : Type κ} → Decoded A → (A → Decoded B) → Decoded B
ok a >>= f = f a
err e >>= f = err e
stuck >>= f = stuck

-- A chain that succeeds has a first step that succeeds.
pub chain-ok {ℓ κ} :
    {A : Type ℓ} {B : Type κ} (m : Decoded A) (f : A → Decoded B) {y : B}
    → (m >>= f) ≡ ok y
    → (x : A) × (m ≡ ok x) × (f x ≡ ok y)
chain-ok (ok x) f done = (x, refl, done)
chain-ok (err failed) f done = cc
chain-ok stuck f done = cc

-- `fmt.Errorf("…: %w", err)`.
abbrev pub wrap {ℓ} : {A : Type ℓ} → (TnetError → TnetError) → Decoded A → Decoded A
wrap f (ok a) = ok a
wrap f (err e) = err (f e)
wrap f stuck = stuck

-- The loop of `readLengthPrefix`, with the digits so far.
prefix_loop : Bytes → Bytes → Decoded (Bytes × Bytes)
prefix_loop [] digits = err length_prefix_eof
prefix_loop (c ∷ r) digits =
    let rest = prefix_loop r (digits ++ c ∷ []) in
    if c == b':'
    then ok (digits, r)
    else if ltb c b'0' || ltb b'9' c
    then err (bad_length_byte c)
    else if length digits == max_length_prefix_digits
    then err length_prefix_too_long
    else rest

-- `strconv.Atoi` on digits, with a 64-bit int: its error is a number out of range.
abbrev pub atoi : Bytes → Decoded ℕ
atoi digits =
    let n = digits_value 0 digits in if ltb n (2 ^ 63) then ok n else err (bad_length digits)

-- What stands behind the loop of `readLengthPrefix`.
check_length : ℕ → Bytes → Decoded ℕ
check_length max_len digits = if length digits == 0 then err empty_length_prefix else (do
  n ← atoi digits
  if ltb max_tnetstring_element n
      then err (element_too_large n)
      else if ltb max_len n
      then err (exceeds_buffer n max_len)
      else ok n)

unfoldable pub read_length_prefix : Bytes → ℕ → Decoded (ℕ × Bytes)
unfolding prefix_loop check_length
read_length_prefix r max_len = do
  (digits, rest) ← prefix_loop r []
  n ← check_length max_len digits
  ok (n, rest)

-- `io.ReadFull` and `io.CopyN` of `n` bytes.
unfoldable pub read_payload : ℕ → Bytes → Decoded (Bytes × Bytes)
read_payload n r = if ltb (length r) n then err (payload_truncated n) else ok (take n r, drop n r)

unfoldable pub read_byte : Bytes → Decoded (ℕ × Bytes)
read_byte [] = err marker_missing
read_byte (c ∷ r) = ok (c, r)

-- `strconv.ParseInt(s, 10, 64)`; `none` is its error. `unsigned_value` is the number that one or more
-- digits spell.
abbrev pub is_digit : ℕ → Bool
is_digit c = leb b'0' c && leb c b'9'

abbrev all_digits : Bytes → Bool
all_digits [] = true
all_digits (c ∷ s) = is_digit c && all_digits s

abbrev unsigned_value : Bytes → Option ℕ
unsigned_value [] = none
unsigned_value (c ∷ s) = if all_digits (c ∷ s) then some (digits_value 0 (c ∷ s)) else none

abbrev minus : ℕ → ℤ
minus zero = pos 0
minus (suc n) = negsuc n

abbrev in_int64 : Bool → Option ℕ → Option ℤ
in_int64 negative none = none
in_int64 false (some n) = if ltb n (2 ^ 63) then some (pos n) else none
in_int64 true (some n) = if leb n (2 ^ 63) then some (minus n) else none

unfoldable pub parse_int : Bytes → Option ℤ
parse_int [] = none
parse_int (c ∷ s) =
    if c == b'-'
    then in_int64 true (unsigned_value s)
    else if c == b'+'
    then in_int64 false (unsigned_value s)
    else in_int64 false (unsigned_value (c ∷ s))
