-- ===== src/Grpcwire/Varint.antt =====
-- What `ParseVarint` and `ParseTag` return.
pub mod Bounds
use Prim.Native.Nat.{bit_and, bit_or}
use native.Mathlib.Nat.{mod-eq_of_lt, pow-suc, pow-le-pow_right}
use native.Mathlib.Numerals.{towards_suc}
use vespasian.Prelude.Bits.{bit_or_above, low_seven_bits, continuation_bit}
use vespasian.Prelude.{
  ℕ, zero, suc, ◌+◌, ◌*◌, ◌/◌, ◌%◌, ◌^◌, ◌≤◌, ◌<◌, [], ◌∷◌, ◌++◌, ◌≡◌, ◌⊎◌, inl, inr, refl, ap, ◌∙◌,
  Bool-cases, ltb→lt, arith, Bytes, length, All, ltb, if◌then◌else◌, Result, ok, err,
}
use vespasian.Grpcwire.{
  WireError, Tag, varint_loop, parse_varint, parse_tag, max_proto_field_number,
}

-- The reference encoder: groups of seven bits, lowest first, at most `k` of them with a next one.
abbrev pub groups : ℕ → ℕ → Bytes
groups zero w = w ∷ []
groups (suc k) w = if ltb w 128 then w ∷ [] else (w % 128 + 128) ∷ groups k (w / 128)

unfoldable pub varint_bytes : ℕ → Bytes
varint_bytes v = groups 9 v

pow_seven : (s : ℕ) → 2 ^ (s + 7) ≡ 128 * 2 ^ s
pow_seven s = simp towards_suc (
    omega (
      arith,
      pow-suc 2 s,
      pow-suc 2 (suc s),
      pow-suc 2 (suc (suc s)),
      pow-suc 2 (suc (suc (suc s))),
      pow-suc 2 (suc (suc (suc (suc s)))),
      pow-suc 2 (suc (suc (suc (suc (suc s))))),
      pow-suc 2 (suc (suc (suc (suc (suc (suc s)))))),
    ))

-- What a round adds to `v`, where the sum fits 64 bits.
pub add_group :
    (v c s : ℕ)
    → c < 256
    → v < 2 ^ s
    → c % 128 * 2 ^ s < 2 ^ 64
    → bit_or v (bit_and c 0x7f * 2 ^ s % 2 ^ 64) ≡ v + c % 128 * 2 ^ s
add_group v c s hc hv h = ground (arith, low_seven_bits c hc, bit_or_above s v (c % 128) hv)

-- The last byte of a varint, and a byte before it that holds the group `g`.
last_round :
    (i v s w : ℕ) (b : Bytes)
    → i ≤ 8 ⊎ (i ≡ 9) × (w ≤ 1)
    → w < 128
    → v < 2 ^ s
    → w * 2 ^ s < 2 ^ 64
    → varint_loop (w ∷ b) i v s ≡ ok (v + w * 2 ^ s, i + 1)
unfolding varint_loop
last_round i v s w b hi hw hv h = ground (
  arith,
  add_group v w s (omega arith) hv (rw (mod-eq_of_lt hw) h),
  mod-eq_of_lt hw,
  continuation_bit w (omega arith),
)

more_round :
    (i v s g : ℕ) (b : Bytes)
    → i ≤ 8
    → g < 128
    → v < 2 ^ s
    → g * 2 ^ s < 2 ^ 64
    → varint_loop ((g + 128) ∷ b) i v s ≡ varint_loop b (i + 1) (v + g * 2 ^ s) (s + 7)
unfolding varint_loop
more_round i v s g b hi hg hv h =
    let low : (g + 128) % 128 ≡ g = omega arith in
    ground (
      arith,
      add_group v (g + 128) s (omega arith) hv (rw low h),
      low,
      continuation_bit (g + 128) (omega arith),
    )

-- A number over `2 ^ s` is its low group over `2 ^ s` and the other groups over `2 ^ (s + 7)`.
split_groups : (w s : ℕ) → w * 2 ^ s ≡ w % 128 * 2 ^ s + w / 128 * 2 ^ (s + 7)
split_groups w s =
    omega (arith, ap (λ (t : ℕ). t * 2 ^ s) (divided w), ap (λ (t : ℕ). w / 128 * t) (pow_seven s))
  where
    divided : (w : ℕ) → w ≡ w % 128 + w / 128 * 128
    divided w = omega arith

pub group_fits : (v g s : ℕ) → v < 2 ^ s → g < 128 → v + g * 2 ^ s < 2 ^ (s + 7)
group_fits v g s hv hg = omega (arith, pow_seven s, group_le g (2 ^ s) hg)
  where
    group_le : (g p : ℕ) → g < 128 → g * p ≤ 127 * p
    group_le g p h = grind arith

-- The loop at its round `9 - k` reads the groups of `w` on top of `v`.
varint_loop-groups :
    (k i v s w : ℕ) (rest : Bytes)
    → i + k ≡ 9
    → s ≡ 7 * i
    → v < 2 ^ s
    → v + w * 2 ^ s < 2 ^ 64
    → varint_loop (groups k w ++ rest) i v s ≡ ok (v + w * 2 ^ s, i + length (groups k w))
varint_loop-groups zero i v s w rest hi hs hv h =
    let e : s ≡ 63 = omega arith in
    let small : w ≤ 1 = omega (arith, ap (λ (t : ℕ). w * 2 ^ t) e) in
    last_round i v s w rest (inr (omega arith, small)) (omega arith) hv (omega arith)
varint_loop-groups (suc k) i v s w rest hi hs hv h = elim (Bool-cases (ltb w 128)) [
  | inl last ↦
      rw last (last_round i v s w rest (inl (omega arith)) (ltb→lt w 128 last) hv (omega arith))
  | inr more ↦ rw more (
      more_round i v s (w % 128) (groups k (w / 128) ++ rest) (omega arith) (omega arith) hv
        (omega (arith, split_groups w s))
      ∙ varint_loop-groups k (i + 1) (v + w % 128 * 2 ^ s) (s + 7) (w / 128) rest (omega arith)
          (omega arith) (group_fits v (w % 128) s hv (omega arith))
          (omega (arith, split_groups w s))
      ∙ ground (arith, split_groups w s))
]

-- Reading back a uint64 from its reference encoding gives it and the number of its bytes, whatever
-- stands behind it.
pub parse_varint-varint_bytes :
    (v : ℕ) (rest : Bytes)
    → v < 2 ^ 64
    → parse_varint (varint_bytes v ++ rest) ≡ ok (v, length (varint_bytes v))
unfolding parse_varint varint_bytes
parse_varint-varint_bytes v rest h =
    varint_loop-groups 9 0 0 0 v rest refl refl (omega arith) (omega arith) ∙ ground arith

groups_pos : (k w : ℕ) → 0 < length (groups k w)
groups_pos zero w = omega arith
groups_pos (suc k) w = ground arith

pub length-varint_bytes_pos : (v : ℕ) → 0 < length (varint_bytes v)
unfolding varint_bytes
length-varint_bytes_pos v = groups_pos 9 v

-- A tag that the reference encoding of `field number * 8 + wire type` holds is read back.
pub parse_tag-varint_bytes :
    (t : Tag) (rest : Bytes)
    → 1 ≤ t.field_number
    → t.field_number ≤ max_proto_field_number
    → t.wire_type < 8
    → parse_tag (varint_bytes (t.field_number * 8 + t.wire_type) ++ rest)
      ≡ ok (t, length (varint_bytes (t.field_number * 8 + t.wire_type)))
unfolding parse_tag
parse_tag-varint_bytes t rest lo hi hw =
    rw (parse_varint-varint_bytes (t.field_number * 8 + t.wire_type) rest (omega arith))
      (ground arith)
