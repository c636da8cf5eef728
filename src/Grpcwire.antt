-- ===== src/Grpcwire.antt =====
-- internal/grpcwire/frame.go: gRPC frames, base-128 varints, protobuf tags and the field walk.
-- A byte slice is a list of byte values; a slice that the code returns is the list of its bytes.
pub mod Frames
pub mod Varint
pub mod Fields
mod Tests
use Prim.Native.Nat.{bit_and, bit_or}
use vespasian.Prelude.{
  ℕ, zero, suc, ◌+◌, ◌*◌, ◌-◌, ◌/◌, ◌%◌, ◌^◌, Bool, not, ◌&&◌, Option, none, some, List, [], ◌∷◌,
  ◌++◌, Bytes, length, take, drop, ltb, leb, ◌==◌, if◌then◌else◌, Result, ok, err, ◌>>=◌,
}

-- The error messages, with the numbers that they print.
pub data WireError : Type 0 where
  header_truncated : ℕ → WireError
  body_truncated : ℕ → ℕ → WireError
  varint_too_long varint_overflow varint_truncated : WireError
  field_number_zero field_number_too_large : WireError
  fixed64_truncated delimited_truncated fixed32_truncated : WireError
  unsupported_wire_type : ℕ → WireError

abbrev pub frame_header_len : ℕ
frame_header_len = 5

pub record Frame : Type 0 where
  pub compressed : Bool
  pub message : Bytes

-- `binary.BigEndian.Uint32`.
abbrev pub big_endian : Bytes → ℕ → ℕ
big_endian [] acc = acc
big_endian (c ∷ b) acc = big_endian b (acc * 256 + c)

abbrev pub first_or : ℕ → Bytes → ℕ
first_or d [] = d
first_or d (c ∷ b) = c

-- The sum `end` is at most 5 + 2^32 - 1: it does not wrap in a uint64.
unfoldable pub parse_frame : Bytes → Result WireError (Frame × ℕ)
parse_frame b =
    if ltb (length b) frame_header_len
    then err (header_truncated (length b))
    else (let len = big_endian (take 4 (drop 1 b)) 0 in
        if ltb (length b) (frame_header_len + len)
        then err (body_truncated len (length b - frame_header_len))
        else ok (
          record {
            compressed = not (first_or 0 b == 0);
            message = take len (drop frame_header_len b);
          },
          frame_header_len + len,
        ))

-- The loop of `ParseFrames`; `none` is no result of the code, the fuel ran out.
frames_loop : ℕ → List Frame → Bytes → Option (List Frame × Option WireError)
frames_loop fuel frames [] = some (frames, none)
frames_loop zero frames (c ∷ b) = none
frames_loop (suc fuel) frames (c ∷ b) = elim (parse_frame (c ∷ b)) [
  | err e ↦ some (frames, some e)
  | ok (f, n) ↦ frames_loop fuel (frames ++ f ∷ []) (drop n (c ∷ b))
]

-- Each frame takes five bytes at least, so that `length b` rounds are enough.
pub parse_frames : Bytes → Option (List Frame × Option WireError)
parse_frames b = frames_loop (length b) [] b

abbrev pub wire_varint : ℕ
wire_varint = 0

abbrev pub wire_64bit : ℕ
wire_64bit = 1

abbrev pub wire_length_delim : ℕ
wire_length_delim = 2

abbrev pub wire_32bit : ℕ
wire_32bit = 5

pub record Tag : Type 0 where
  pub field_number : ℕ
  pub wire_type : ℕ

abbrev pub max_varint_bytes : ℕ
max_varint_bytes = 10

-- The loop of `ParseVarint` over what `range b` has not reached, at its `i`, `v` and `shift`.
-- `shift` stays below 64, and `uint64(…) << shift` keeps the low 64 bits.
varint_loop : Bytes → ℕ → ℕ → ℕ → Result WireError (ℕ × ℕ)
varint_loop [] i v shift = err varint_truncated
varint_loop (c ∷ b) i v shift =
    let v' = bit_or v (bit_and c 0x7f * 2 ^ shift % 2 ^ 64) in
    let rest = varint_loop b (i + 1) v' (shift + 7) in
    if leb max_varint_bytes i
    then err varint_too_long
    else if (i == 9) && ltb 1 c
    then err varint_overflow
    else if bit_and c 0x80 == 0
    then ok (v', i + 1)
    else rest

pub parse_varint : Bytes → Result WireError (ℕ × ℕ)
unfolding varint_loop
parse_varint b = varint_loop b 0 0 0

abbrev pub max_proto_field_number : ℕ
max_proto_field_number = 2 ^ 29 - 1

-- `v >> 3` is `v / 8` and `v & 7` is `v % 8`.
pub parse_tag : Bytes → Result WireError (Tag × ℕ)
parse_tag b = do
  (v, n) ← parse_varint b
  if v / 8 == 0
      then err field_number_zero
      else if ltb max_proto_field_number (v / 8)
      then err field_number_too_large
      else ok (record { field_number = v / 8; wire_type = v % 8 }, n)

-- A value of a fixed size: its bytes and what is behind it.
abbrev split_fixed : ℕ → WireError → Bytes → Result WireError (Bytes × Bytes)
split_fixed n e b = if ltb (length b) n then err e else ok (take n b, drop n b)

-- The `switch` of `WalkFields`: the raw value that `fn` gets, and the `b` of the next round.
split_value : ℕ → Bytes → Result WireError (Bytes × Bytes)
split_value wire_type b =
    if wire_type == wire_varint
    then (do (v, m) ← parse_varint b; ok (take m b, drop m b))
    else if wire_type == wire_64bit
    then split_fixed 8 fixed64_truncated b
    else if wire_type == wire_length_delim
    then (do (len, m) ← parse_varint b; split_fixed len delimited_truncated (drop m b))
    else if wire_type == wire_32bit
    then split_fixed 4 fixed32_truncated b
    else err (unsupported_wire_type wire_type)

-- A round of `WalkFields` up to the call of `fn`: the tag, the value and the rest.
pub next_field : Bytes → Result WireError (Tag × Bytes × Bytes)
next_field b = do
  (tag, n) ← parse_tag b
  (value, rest) ← split_value tag.wire_type (drop n b)
  ok (tag, value, rest)

-- `fn` as a step on a state `S`, with its result. The error is `none` where the code returns nil;
-- an outer `none` means that the fuel ran out.
module _ {ℓ} {S : Type ℓ} (fn : S → Tag → Bytes → S × Bool) where
  walk_loop : ℕ → S → Bytes → Option (S × Option WireError)
  walk_loop fuel s [] = some (s, none)
  walk_loop zero s (c ∷ b) = none
  walk_loop (suc fuel) s (c ∷ b) = elim (next_field (c ∷ b)) [
    | err e ↦ some (s, some e)
    | ok (tag, value, rest) ↦
        (let (s', more) = fn s tag value in
          let next = walk_loop fuel s' rest in if more then next else some (s', none))
  ]

  -- Each field takes a byte at least.
  pub walk_fields : Bytes → S → Option (S × Option WireError)
  walk_fields message s = walk_loop (length message) s message
