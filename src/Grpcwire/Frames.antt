-- ===== src/Grpcwire/Frames.antt =====
-- What `ParseFrame` and `ParseFrames` return.
use vespasian.Prelude.{
  ℕ, zero, suc, ◌+◌, ◌/◌, ◌%◌, ◌^◌, ◌≤◌, ◌<◌, Bool, true, false, not, Option, none, some, List, [],
  ◌∷◌, ◌++◌, ◌≡◌, ◌≢◌, refl, ap, arith, Bytes, length, drop, All, All-drop, ◌==◌, Result, ok, err,
  length-append, length-take, length-drop, append_assoc, append-nil, take-append_exact,
  drop-append_exact, take-append-drop, drop-add, ◌∙◌,
}
use vespasian.Grpcwire.{WireError, Frame, big_endian, parse_frame, frames_loop, parse_frames}

-- The reference encoder of a gRPC frame.
abbrev pub word : ℕ → Bytes
word n = (n / 2 ^ 24) ∷ (n / 2 ^ 16 % 256) ∷ (n / 2 ^ 8 % 256) ∷ (n % 256) ∷ []

abbrev pub flag : Bool → ℕ
flag true = 1
flag false = 0

abbrev pub frame_bytes : Frame → Bytes
frame_bytes f = flag f.compressed ∷ word (length f.message) ++ f.message

abbrev pub frames_bytes : List Frame → Bytes
frames_bytes [] = []
frames_bytes (f ∷ fs) = frame_bytes f ++ frames_bytes fs

abbrev pub Fits : Frame → Type 0
Fits f = length f.message < 2 ^ 32

big_endian-word : (n : ℕ) → n < 2 ^ 32 → big_endian (word n) 0 ≡ n
big_endian-word n h = omega arith

parse_frame-append :
    (f : Frame) (rest : Bytes)
    → Fits f
    → parse_frame (frame_bytes f ++ rest) ≡ ok (f, 5 + length f.message)
unfolding parse_frame
parse_frame-append f rest h = ground (
  arith,
  big_endian-word (length f.message) h,
  length-append f.message rest,
  take-append_exact f.message rest,
)

-- What is left of the input behind a frame.
drop-frame_bytes :
    (f : Frame) (rest : Bytes) → drop (5 + length f.message) (frame_bytes f ++ rest) ≡ rest
drop-frame_bytes f rest =
    drop-add 5 (length f.message) (frame_bytes f ++ rest) ∙ drop-append_exact f.message rest

frames_loop-frames_bytes :
    (fs acc : List Frame) (fuel : ℕ)
    → All Fits fs
    → length (frames_bytes fs) ≤ fuel
    → frames_loop fuel acc (frames_bytes fs) ≡ some (acc ++ fs, none)
unfolding frames_loop
frames_loop-frames_bytes [] acc zero h k = rw append-nil
frames_loop-frames_bytes [] acc (suc fuel) h k = rw append-nil
frames_loop-frames_bytes (f ∷ fs) acc zero h k = absurd (omega arith)
frames_loop-frames_bytes (f ∷ fs) acc (suc fuel) (h, hs) k = ground (
  arith,
  parse_frame-append f (frames_bytes fs) h,
  drop-frame_bytes f (frames_bytes fs),
  frames_loop-frames_bytes fs (acc ++ f ∷ []) fuel hs,
  length-append f.message (frames_bytes fs),
  append_assoc acc (f ∷ []) fs,
)

-- Parsing the frames that the reference encoder writes gives the frames back, with no error, if
-- each message is shorter than 2^32 bytes.
pub parse_frames-frames_bytes :
    (fs : List Frame) → All Fits fs → parse_frames (frames_bytes fs) ≡ some (fs, none)
unfolding parse_frames
parse_frames-frames_bytes fs h =
    frames_loop-frames_bytes fs [] (length (frames_bytes fs)) h (omega arith)

-- A frame at the head of `b`, with `rest` behind it.
abbrev pub HeadFrame : Frame → Bytes → Bytes → Type 0
HeadFrame f b rest =
    (c : ℕ) × (b ≡ c ∷ word (length f.message) ++ f.message ++ rest) × (f.compressed ≡ not (c == 0))

-- `b` is the frames of `fs` one behind the other, and then `rest`.
abbrev pub Framed : List Frame → Bytes → Bytes → Type 0
Framed [] b rest = b ≡ rest
Framed (f ∷ fs) b rest = (mid : Bytes) × HeadFrame f b mid × Framed fs mid rest

-- Parsing stops at the end, or before a head that `ParseFrame` refuses.
abbrev pub StopsAt : Bytes → Option WireError → Type 0
StopsAt rest none = rest ≡ []
StopsAt rest (some e) = (rest ≢ []) × (parse_frame rest ≡ err e)

word-big_endian :
    (a b c d : ℕ)
    → b < 256
    → c < 256
    → d < 256
    → word (big_endian (a ∷ b ∷ c ∷ d ∷ []) 0) ≡ a ∷ b ∷ c ∷ d ∷ []
word-big_endian a b c d p q r = ground arith

-- A successful parse takes a frame off the head, and says how long it is.
pub parse_frame_sound :
    (b : Bytes) (f : Frame) (n : ℕ)
    → All (λ c. c < 256) b
    → parse_frame b ≡ ok (f, n)
    → HeadFrame f b (drop n b) × (n ≡ 5 + length f.message) × (n ≤ length b)
unfolding parse_frame
parse_frame_sound (x ∷ a ∷ b ∷ c ∷ d ∷ m) f n (_, (_, (hb, (hc, (hd, _))))) e =
    let len = big_endian (a ∷ b ∷ c ∷ d ∷ []) 0 in
    (
      (
        x,
        ground (
          arith,
          take-append-drop len m,
          length-take len m,
          drop-add 5 len (x ∷ a ∷ b ∷ c ∷ d ∷ m),
          word-big_endian a b c d hb hc hd,
        ),
        ground arith,
      ),
      ground (arith, length-take len m),
      ground (arith, length-take len m),
    )
parse_frame_sound b f n h e = ground arith

-- What the loop adds to the frames it has.
abbrev LoopEnd : List Frame → Bytes → Option (List Frame × Option WireError) → Type 0
LoopEnd acc b out =
    (fs : List Frame) × (rest : Bytes) × (e : Option WireError) × (out ≡ some (acc ++ fs, e))
    × Framed fs b rest
    × StopsAt rest e

-- A round of the loop, from what the later rounds do.
frames_round :
    (fuel : ℕ) (acc : List Frame) (c : ℕ) (b : Bytes) (r : Result WireError (Frame × ℕ))
    → All (λ x. x < 256) (c ∷ b)
    → length (c ∷ b) ≤ suc fuel
    → parse_frame (c ∷ b) ≡ r
    → ((acc' : List Frame) (b' : Bytes)
        → All (λ x. x < 256) b'
        → length b' ≤ fuel
        → LoopEnd acc' b' (frames_loop fuel acc' b'))
    → LoopEnd acc (c ∷ b) (frames_loop (suc fuel) acc (c ∷ b))
unfolding frames_loop
frames_round fuel acc c b (err e) h k eq later =
    ([], c ∷ b, some e, rw (frames_loop, eq) (rw append-nil), refl, ((λ p. cc), eq))
frames_round fuel acc c b (ok (f, n)) h k eq later =
    let (head, size, within) = parse_frame_sound (c ∷ b) f n h eq in
    let (fs, rest, e, out, framed, stop) =
      later (acc ++ f ∷ []) (drop n (c ∷ b)) (All-drop (λ x. x < 256) n (c ∷ b) h)
        (omega (arith, length-drop n (c ∷ b))) in
    (
      f ∷ fs,
      rest,
      e,
      rw (frames_loop, eq) (out ∙ ap (λ x. some (x, e)) (append_assoc acc (f ∷ []) fs)),
      (drop n (c ∷ b), head, framed),
      stop,
    )

frames_loop_sound :
    (fuel : ℕ) (acc : List Frame) (b : Bytes)
    → All (λ c. c < 256) b
    → length b ≤ fuel
    → LoopEnd acc b (frames_loop fuel acc b)
unfolding frames_loop
frames_loop_sound zero acc [] h k = ([], [], none, rw append-nil, refl, refl)
frames_loop_sound (suc fuel) acc [] h k = ([], [], none, rw append-nil, refl, refl)
frames_loop_sound zero acc (c ∷ b) h k = absurd (omega arith)
frames_loop_sound (suc fuel) acc (c ∷ b) h k =
    frames_round fuel acc c b (parse_frame (c ∷ b)) h k refl (frames_loop_sound fuel)

-- ParseFrames always returns. The input is the frames returned, one behind the other, and a
-- rest; the error is nil exactly at an empty rest, else it is that of ParseFrame on the rest.
pub parse_frames_sound :
    (b : Bytes)
    → All (λ c. c < 256) b
    → (fs : List Frame) × (rest : Bytes) × (e : Option WireError) × (parse_frames b ≡ some (fs, e))
      × Framed fs b rest
      × StopsAt rest e
unfolding parse_frames
parse_frames_sound b h = frames_loop_sound (length b) [] b h (omega arith)
