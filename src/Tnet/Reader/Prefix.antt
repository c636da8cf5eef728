-- ===== src/Tnet/Reader/Prefix.antt =====
-- Reading a length prefix, a payload and a marker: what they take, and that they undo the encoder.
use vespasian.Prelude.{
  ℕ, ◌+◌, ◌≤◌, ◌<◌, ◌||◌, [], ◌∷◌, ◌++◌, ◌≡◌, arith, Bytes, length, All, ltb, ◌==◌, if◌then◌else◌,
  append_assoc, append-nil, length-append, length-drop, length-take, take-append_exact,
  drop-append_exact,
}
use vespasian.Prelude.Decimal.{
  decimal, IsDigit, digits_value-decimal, decimal-IsDigit, length-decimal, length-decimal_pos,
}
use vespasian.Tnet.Reader.Returns.{Returns, Returns-bind, Returns-weaken, Returns-if}
use vespasian.Tnet.Reader.{
  bad_length_byte, length_prefix_too_long, max_length_prefix_digits, ok, err, chain-ok,
  max_tnetstring_element, prefix_loop, check_length, read_length_prefix, read_payload, read_byte,
}

-- Digits, no more than the nine that are allowed, are read up to the colon.
prefix_loop-digits :
    (ds digits r : Bytes)
    → All IsDigit ds
    → length digits + length ds ≤ 9
    → prefix_loop (ds ++ b':' ∷ r) digits ≡ ok (digits ++ ds, r)
unfolding prefix_loop
prefix_loop-digits [] digits r h k = rw append-nil
prefix_loop-digits (c ∷ ds) digits r (hc, h) k = ground (
  arith,
  prefix_loop-digits ds (digits ++ c ∷ []) r h,
  length-append digits (c ∷ []),
  append_assoc digits (c ∷ []) ds,
)

-- The prefix that the encoder writes is read back, where the length is within both bounds.
pub read_length_prefix-decimal :
    (n max_len : ℕ) (r : Bytes)
    → n ≤ max_tnetstring_element
    → n ≤ max_len
    → read_length_prefix (decimal n ++ b':' ∷ r) max_len ≡ ok (n, r)
unfolding read_length_prefix check_length
read_length_prefix-decimal n max_len r h k =
    rw (prefix_loop-digits (decimal n) [] r (decimal-IsDigit n) (omega (arith, length-decimal 7 n)))
      (ground (arith, digits_value-decimal n, length-decimal_pos n))

pub read_payload-append : (p r : Bytes) → read_payload (length p) (p ++ r) ≡ ok (p, r)
unfolding read_payload
read_payload-append p r =
    ground (arith, length-append p r, take-append_exact p r, drop-append_exact p r)

prefix_loop_lem : (r digits : Bytes) → Returns (λ d. length d.1 < length r) (prefix_loop r digits)
unfolding prefix_loop
prefix_loop_lem [] digits = tt
prefix_loop_lem (c ∷ r) digits =
    let Q : Bytes × Bytes → Type 0 = λ d. length d.1 < length (c ∷ r) in
    let rest = prefix_loop r (digits ++ c ∷ []) in
    let longer =
      if length digits == max_length_prefix_digits then err length_prefix_too_long else rest in
    Returns-if Q (c == b':') (ok (digits, r)) _ (omega arith) (
      Returns-if Q (ltb c b'0' || ltb b'9' c) (err (bad_length_byte c)) longer tt (
        Returns-if Q (length digits == max_length_prefix_digits) (err length_prefix_too_long) rest
          tt
          (Returns-weaken (λ d. length d.1 < length r) Q rest (prefix_loop_lem r (digits ++ c ∷ []))
            (λ d h. omega arith))))

check_length-bound :
    (m : ℕ) (ds : Bytes) (n : ℕ)
    → check_length m ds ≡ ok n
    → (check_length max_tnetstring_element ds ≡ ok n) × (n ≤ max_tnetstring_element) × (n ≤ m)
unfolding check_length
check_length-bound m ds n e = ground arith

-- A length that is read under any bound is read under the limit for an element too.
pub read_length_prefix-bound :
    (r : Bytes) (m : ℕ) (p : ℕ × Bytes)
    → read_length_prefix r m ≡ ok p
    → read_length_prefix r max_tnetstring_element ≡ ok p
unfolding read_length_prefix
read_length_prefix-bound r m p e =
    let (ds, digits, more) = chain-ok (prefix_loop r []) _ e in
    let (n, length_read, out) = chain-ok (check_length m ds.0) _ more in
    rw (digits, (check_length-bound m ds.0 n length_read).0) out

-- A prefix that is read is within both bounds, and takes a byte at least.
pub read_length_prefix_lem :
    (r : Bytes) (m : ℕ)
    → Returns
        (λ p. (p.0 ≤ max_tnetstring_element) × (p.0 ≤ m) × (length p.1 < length r))
        (read_length_prefix r m)
unfolding read_length_prefix
read_length_prefix_lem r m =
    Returns-bind (λ d. length d.1 < length r) _ (prefix_loop r []) _ (prefix_loop_lem r [])
      (λ d shorter.
        Returns-bind (λ n. (n ≤ max_tnetstring_element) × (n ≤ m)) _ (check_length m d.0) _
          (check_length_lem m d.0) (λ n bounds. (bounds.0, bounds.1, shorter)))
  where
    check_length_lem :
        (m : ℕ) (ds : Bytes)
        → Returns (λ n. (n ≤ max_tnetstring_element) × (n ≤ m)) (check_length m ds)
    check_length_lem m ds = unfold check_length in ground arith

pub read_payload_lem :
    (n : ℕ) (r : Bytes)
    → Returns (λ p. (length p.0 ≡ n) × (length p.1 ≤ length r)) (read_payload n r)
unfolding read_payload
read_payload_lem n r = ground (arith, length-take n r, length-drop n r)

pub read_byte_lem : (r : Bytes) → Returns (λ p. length p.1 < length r) (read_byte r)
unfolding read_byte
read_byte_lem [] = tt
read_byte_lem (c ∷ r) = omega arith
