-- ===== src/Grpcwire/Tests.antt =====
-- Runs of internal/grpcwire/frame.go, and the theorems at concrete inputs.
use vespasian.Prelude.{
  ℕ, Bool, true, false, Option, none, some, List, [], ◌∷◌, ◌++◌, ◌≡◌, refl, arith, Bytes, length,
  ok, err,
}
use vespasian.Grpcwire.{
  WireError, Frame, Tag, parse_frames, parse_varint, parse_tag, walk_fields, varint_overflow,
}
use vespasian.Grpcwire.Frames.{
  Framed, StopsAt, frames_bytes, parse_frames-frames_bytes, parse_frames_sound,
}
use vespasian.Grpcwire.Varint.{varint_bytes, parse_varint-varint_bytes}
use vespasian.Grpcwire.Fields.{
  Field, varint_field, delimited_field, message_bytes, shown, visit, walk_fields-message_bytes,
}
use vespasian.Grpcwire.Fields.Walk.{Walked, walk_fields_lem}

abbrev two_frames : List Frame
two_frames =
    record { compressed = false; message = 7 ∷ 8 ∷ [] }
    ∷ record { compressed = true; message = [] }
    ∷ []

parse_frames-frames_bytes_example : parse_frames (frames_bytes two_frames) ≡ some (two_frames, none)
parse_frames-frames_bytes_example = parse_frames-frames_bytes two_frames (omega arith)

-- One frame and half a header.
abbrev cut_frames : Bytes
cut_frames = 2 ∷ 0 ∷ 0 ∷ 0 ∷ 1 ∷ 9 ∷ 0 ∷ 0 ∷ []

parse_frames_sound_example :
    (fs : List Frame) × (rest : Bytes) × (e : Option WireError) × (parse_frames cut_frames
      ≡ some (fs, e))
    × Framed fs cut_frames rest
    × StopsAt rest e
parse_frames_sound_example = parse_frames_sound cut_frames (omega arith)

three_hundred : parse_varint (0xac ∷ 0x02 ∷ 0xff ∷ []) ≡ ok (300, 2)
unfolding parse_varint
three_hundred = refl

too_large :
    parse_varint (0xff ∷ 0xff ∷ 0xff ∷ 0xff ∷ 0xff ∷ 0xff ∷ 0xff ∷ 0xff ∷ 0xff ∷ 0x02 ∷ [])
    ≡ err varint_overflow
unfolding parse_varint
too_large = refl

parse_varint-varint_bytes_example :
    parse_varint (varint_bytes 300 ++ 1 ∷ []) ≡ ok (300, length (varint_bytes 300))
parse_varint-varint_bytes_example = parse_varint-varint_bytes 300 (1 ∷ []) (omega arith)

abbrev message : List Field
message = varint_field 1 150 ∷ delimited_field 2 (b'h' ∷ b'i' ∷ []) ∷ []

-- A callback that keeps the values and stops behind two of them.
abbrev keep : List Bytes → Tag → Bytes → List Bytes × Bool
keep [] t v = (v ∷ [], true)
keep vs t v = (v ∷ vs, false)

walk_fields-message_bytes_example :
    walk_fields keep (message_bytes message) [] ≡ some (visit keep (shown message) none [])
walk_fields-message_bytes_example = walk_fields-message_bytes keep message [] (omega arith)

walk_fields_lem_example :
    (fs : List (Tag × Bytes)) × (e : Option WireError) × Walked (8 ∷ 1 ∷ 11 ∷ []) fs e
    × ((fn : ℕ → Tag → Bytes → ℕ × Bool) (s : ℕ)
        → walk_fields fn (8 ∷ 1 ∷ 11 ∷ []) s ≡ some (visit fn fs e s))
walk_fields_lem_example = walk_fields_lem ℕ (8 ∷ 1 ∷ 11 ∷ []) (omega arith)

abbrev a_tag : Tag
a_tag = record { field_number = 1; wire_type = 0 }

a_tag_read : parse_tag (8 ∷ []) ≡ ok (a_tag, 1)
unfolding parse_tag parse_varint
a_tag_read = refl
