-- ===== src/Grpcwire/Varint/Bounds.antt =====
-- The bounds of what `ParseVarint` and `ParseTag` return.
use native.Mathlib.Nat.{pow-le-pow_right}
use vespasian.Prelude.Bits.{continuation_bit}
use vespasian.Prelude.{
  ℕ, ◌+◌, ◌*◌, ◌%◌, ◌^◌, ◌≤◌, ◌<◌, [], ◌∷◌, ◌≡◌, ◌⊎◌, inl, inr, refl, ap, arith, Bytes, length, All,
  Result, ok, err,
}
use vespasian.Grpcwire.{
  WireError, Tag, varint_loop, parse_varint, parse_tag, max_proto_field_number,
}
use vespasian.Grpcwire.Varint.{add_group, group_fits}

-- In the rounds that the code makes, the shifted group fits.
group_le : (i s c : ℕ) → s ≡ 7 * i → i ≤ 8 ⊎ (i ≡ 9) × (c ≤ 1) → c % 128 * 2 ^ s ≤ 2 ^ 63
group_le i s c hs (inl hi) = omega (
  arith,
  pow-le-pow_right {n = 2} (omega arith) {i = s} {j = 56} (omega arith),
  times_le (c % 128) (2 ^ s) (omega arith),
)
  where
    times_le : (g p : ℕ) → g < 128 → g * p ≤ 127 * p
    times_le g p h = grind arith
group_le i s c hs (inr (hi, hc)) =
    let e : s ≡ 63 = omega arith in
    let small : c % 128 ≤ 1 = omega arith in omega (arith, ap (λ (t : ℕ). c % 128 * 2 ^ t) e)

-- A round that does not fail adds its group, and stops or goes on.
round_cases :
    (c : ℕ) (b : Bytes) (i v s n w : ℕ)
    → c < 256
    → s ≡ 7 * i
    → v < 2 ^ s
    → varint_loop (c ∷ b) i v s ≡ ok (w, n)
    → (i ≤ 9)
      × (v + c % 128 * 2 ^ s < 2 ^ 64)
      × ((w ≡ v + c % 128 * 2 ^ s) × (n ≡ i + 1)
          ⊎ varint_loop b (i + 1) (v + c % 128 * 2 ^ s) (s + 7) ≡ ok (w, n))
unfolding varint_loop
round_cases c b i v s n w hc hs hv e =
    let reached : i ≤ 8 ⊎ (i ≡ 9) × (c ≤ 1) = ground arith in
    let small = group_le i s c hs reached in
    let sum = add_group v c s hc hv (omega arith) in
    let pow = pow-le-pow_right {n = 2} (omega arith) {i = s} {j = 63} (omega arith) in
    (ground arith, omega arith, ground (arith, continuation_bit c hc))

varint_loop_bounds :
    (b : Bytes) (i v s n w : ℕ)
    → All (λ c. c < 256) b
    → s ≡ 7 * i
    → v < 2 ^ s
    → varint_loop b i v s ≡ ok (w, n)
    → (w < 2 ^ 64) × (i < n) × (n ≤ 10) × (n ≤ i + length b)
varint_loop_bounds [] i v s n w hb hs hv e = unfold varint_loop in cc
varint_loop_bounds (c ∷ b) i v s n w (hc, hb) hs hv e =
    let (hi, fits, next) = round_cases c b i v s n w hc hs hv e in
    let later =
      varint_loop_bounds b (i + 1) (v + c % 128 * 2 ^ s) (s + 7) n w hb (omega arith)
        (group_fits v (c % 128) s hv (omega arith)) in
    ground arith

-- A varint that is read is a uint64 of one to ten bytes, all of them in the input.
pub parse_varint_bounds :
    (b : Bytes) (v n : ℕ)
    → All (λ c. c < 256) b
    → parse_varint b ≡ ok (v, n)
    → (v < 2 ^ 64) × (0 < n) × (n ≤ 10) × (n ≤ length b)
unfolding parse_varint
parse_varint_bounds b v n h e =
    let bounds = varint_loop_bounds b 0 0 0 n v h refl (omega arith) e in ground arith

-- A tag that is read has a field number from 1 to 2^29 - 1 and a wire type below 8, and takes one
-- byte at least of the input.
pub parse_tag_bounds :
    (b : Bytes) (t : Tag) (n : ℕ)
    → All (λ c. c < 256) b
    → parse_tag b ≡ ok (t, n)
    → (1 ≤ t.field_number)
      × (t.field_number ≤ max_proto_field_number)
      × (t.wire_type < 8)
      × (0 < n)
      × (n ≤ length b)
unfolding parse_tag
parse_tag_bounds b t n h e = by_varint (parse_varint b) refl e
  where
    by_varint :
        (r : Result WireError (ℕ × ℕ))
        → parse_varint b ≡ r
        → parse_tag b ≡ ok (t, n)
        → (1 ≤ t.field_number)
          × (t.field_number ≤ max_proto_field_number)
          × (t.wire_type < 8)
          × (0 < n)
          × (n ≤ length b)
    by_varint (err x) eq e = ground arith
    by_varint (ok (v, m)) eq e = ground (arith, parse_varint_bounds b v m h eq)
