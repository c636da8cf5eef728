-- ===== src/Grpcwire/Fields.antt =====
-- What `WalkFields` shows its callback.
pub mod Walk
use vespasian.Prelude.{
  ℕ, zero, suc, ◌+◌, ◌-◌, ◌*◌, ◌^◌, ◌≤◌, ◌<◌, Bool, true, false, Option, none, some, List, [], ◌∷◌,
  ◌++◌, ◌≡◌, ◌⊎◌, refl, ◌∙◌, arith, Bytes, length, take, drop, All, ltb, ◌==◌, if◌then◌else◌,
  Result, ok, err, length-append, length-take, length-drop, append_assoc, take-append_exact,
  drop-append_exact,
}
use vespasian.Grpcwire.{
  WireError, Tag, max_proto_field_number, parse_varint, parse_tag, split_fixed, split_value,
  next_field, walk_loop, walk_fields,
}
use vespasian.Grpcwire.Varint.{
  varint_bytes, length-varint_bytes_pos, parse_varint-varint_bytes, parse_tag-varint_bytes,
}

-- A field of a message, with its number.
pub data Field : Type 0 where
  varint_field : ℕ → ℕ → Field
  fixed64_field : ℕ → Bytes → Field
  delimited_field : ℕ → Bytes → Field
  fixed32_field : ℕ → Bytes → Field

abbrev pub tag_of : Field → Tag
tag_of (varint_field n v) = record { field_number = n; wire_type = 0 }
tag_of (fixed64_field n b) = record { field_number = n; wire_type = 1 }
tag_of (delimited_field n b) = record { field_number = n; wire_type = 2 }
tag_of (fixed32_field n b) = record { field_number = n; wire_type = 5 }

-- The raw value of a field, as the comment of `WalkFields` lists it.
abbrev pub value_of : Field → Bytes
value_of (varint_field n v) = varint_bytes v
value_of (fixed64_field n b) = b
value_of (delimited_field n b) = b
value_of (fixed32_field n b) = b

abbrev length_prefix : Field → Bytes
length_prefix (delimited_field n b) = varint_bytes (length b)
length_prefix f = []

abbrev pub tag_bytes : Tag → Bytes
tag_bytes t = varint_bytes (t.field_number * 8 + t.wire_type)

-- The reference encoder of a message.
abbrev pub field_bytes : Field → Bytes
field_bytes f = tag_bytes (tag_of f) ++ (length_prefix f ++ value_of f)

abbrev pub message_bytes : List Field → Bytes
message_bytes [] = []
message_bytes (f ∷ fs) = field_bytes f ++ message_bytes fs

abbrev ValueFits : Field → Type 0
ValueFits (varint_field n v) = v < 2 ^ 64
ValueFits (fixed64_field n b) = length b ≡ 8
ValueFits (delimited_field n b) = length b < 2 ^ 64
ValueFits (fixed32_field n b) = length b ≡ 4

-- The values that the wire format has.
abbrev pub IsField : Field → Type 0
IsField f =
    (1 ≤ (tag_of f).field_number) × ((tag_of f).field_number ≤ max_proto_field_number) × ValueFits f

-- The callback on fields one after the other, until it returns false; then the error `e`.
module _ {ℓ} {S : Type ℓ} (fn : S → Tag → Bytes → S × Bool) where
  abbrev pub visit : List (Tag × Bytes) → Option WireError → S → S × Option WireError
  visit [] e s = (s, e)
  visit ((t, v) ∷ fs) e s =
      let next = visit fs e (fn s t v).0 in if (fn s t v).1 then next else ((fn s t v).0, none)

abbrev pub shown : List Field → List (Tag × Bytes)
shown [] = []
shown (f ∷ fs) = (tag_of f, value_of f) ∷ shown fs

split_fixed-append :
    (n : ℕ) (e : WireError) (b rest : Bytes)
    → length b ≡ n
    → split_fixed n e (b ++ rest) ≡ ok (b, rest)
split_fixed-append n e b rest h =
    rw (← h)
      (ground (arith, length-append b rest, take-append_exact b rest, drop-append_exact b rest))

split_value-append :
    (f : Field) (rest : Bytes)
    → ValueFits f
    → split_value (tag_of f).wire_type (length_prefix f ++ (value_of f ++ rest))
      ≡ ok (value_of f, rest)
unfolding split_value
split_value-append (varint_field n v) rest h =
    rw (parse_varint-varint_bytes v rest h, take-append_exact (varint_bytes v) rest)
      (rw (drop-append_exact (varint_bytes v) rest))
split_value-append (fixed64_field n b) rest h = split_fixed-append 8 _ b rest h
split_value-append (delimited_field n b) rest h =
    rw
      (
        parse_varint-varint_bytes (length b) (b ++ rest) h,
        drop-append_exact (varint_bytes (length b)) (b ++ rest),
      )
      (split_fixed-append (length b) _ b rest refl)
split_value-append (fixed32_field n b) rest h = split_fixed-append 4 _ b rest h

-- One round on an encoded field takes it off.
next_field-append :
    (f : Field) (rest : Bytes)
    → IsField f
    → next_field (field_bytes f ++ rest) ≡ ok (tag_of f, value_of f, rest)
unfolding next_field
next_field-append f rest (lo, hi, fits) =
    rw
      (
        append_assoc (tag_bytes (tag_of f)) (length_prefix f ++ value_of f) rest,
        append_assoc (length_prefix f) (value_of f) rest,
        parse_tag-varint_bytes (tag_of f) (length_prefix f ++ (value_of f ++ rest)) lo hi
            (wire_type-lt f),
      )
      (rw (
        drop-append_exact (tag_bytes (tag_of f)) (length_prefix f ++ (value_of f ++ rest)),
        split_value-append f rest fits,
      ))
  where
    wire_type-lt : (f : Field) → (tag_of f).wire_type < 8
    wire_type-lt (varint_field n v) = omega arith
    wire_type-lt (fixed64_field n b) = omega arith
    wire_type-lt (delimited_field n b) = omega arith
    wire_type-lt (fixed32_field n b) = omega arith

-- An encoded field is not empty.
length-field_bytes : (f : Field) (rest : Bytes) → length rest < length (field_bytes f ++ rest)
length-field_bytes f rest = omega (
  arith,
  length-append (field_bytes f) rest,
  length-append (tag_bytes (tag_of f)) (length_prefix f ++ value_of f),
  length-varint_bytes_pos ((tag_of f).field_number * 8 + (tag_of f).wire_type),
)

module _ {ℓ} {S : Type ℓ} (fn : S → Tag → Bytes → S × Bool) where
  -- A round on bytes that are not empty, which is how the loop sees its input.
  walk_step :
      (fuel : ℕ) (s : S) (b : Bytes) (t : Tag) (v rest : Bytes)
      → 0 < length b
      → next_field b ≡ ok (t, v, rest)
      → walk_loop fn (suc fuel) s b
        ≡ (if (fn s t v).1 then walk_loop fn fuel (fn s t v).0 rest else some ((fn s t v).0, none))
  unfolding walk_loop
  walk_step fuel s [] t v rest h e = absurd (omega arith)
  walk_step fuel s (c ∷ b) t v rest h e = rw (walk_loop, e)

  walk_loop-message_bytes :
      (fs : List Field) (fuel : ℕ) (s : S)
      → All IsField fs
      → length (message_bytes fs) ≤ fuel
      → walk_loop fn fuel s (message_bytes fs) ≡ some (visit fn (shown fs) none s)
  walk_loop-message_bytes [] zero s h k = unfold walk_loop in refl
  walk_loop-message_bytes [] (suc fuel) s h k = unfold walk_loop in refl
  walk_loop-message_bytes (f ∷ fs) zero s h k =
      absurd (omega (arith, length-field_bytes f (message_bytes fs)))
  walk_loop-message_bytes (f ∷ fs) (suc fuel) s (h, hs) k =
      let shorter = length-field_bytes f (message_bytes fs) in
      walk_step fuel s (message_bytes (f ∷ fs)) (tag_of f) (value_of f) (message_bytes fs)
        (omega arith) (next_field-append f (message_bytes fs) h)
      ∙ ground
          (arith, walk_loop-message_bytes fs fuel (fn s (tag_of f) (value_of f)).0 hs (omega arith))

  -- On an encoded message WalkFields calls fn on each field in order, with its tag and raw
  -- value, until fn returns false, and returns no error; for every callback.
  pub walk_fields-message_bytes :
      (fs : List Field) (s : S)
      → All IsField fs
      → walk_fields fn (message_bytes fs) s ≡ some (visit fn (shown fs) none s)
  unfolding walk_fields
  walk_fields-message_bytes fs s h =
      walk_loop-message_bytes fs (length (message_bytes fs)) s h (omega arith)
