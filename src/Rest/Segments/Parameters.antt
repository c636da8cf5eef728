-- ===== src/Rest/Segments/Parameters.antt =====
-- What `NormalizePath` of pkg/generate/rest/normalize.go replaces.
use vespasian.Prelude.{
  Bool, true, false, not, ◌&&◌, ◌||◌, List, [], ◌∷◌, map, ◌≡◌, ◌≢◌, ◌⊎◌, ◌↔◌, inl, inr, refl, ◌∙◌,
  arith, Bytes, codes, str_eq, str_eq_iff, Bool-cases, if◌then◌else◌,
}
use vespasian.Prelude.Parts.{split, contains}
use vespasian.Rest.Segments.{
  known_literals, classify_param_segment, id_placeholder, normalize_segment, normalize_path,
  uuid_match, object_id_match, numeric_match, is_short_hex_hash, is_base64_token,
}
use vespasian.Rest.Segments.Idempotent.{split-normalize_path, normalize_path_idempotent}
use vespasian.Rest.Segments.Patterns.{
  IsUuid, IsObjectId, IsNumber, IsHash, IsToken, uuid_match-IsUuid, object_id_match-IsObjectId,
  numeric_match-IsNumber, is_short_hex_hash-IsHash, and_iff, or_iff,
}
use vespasian.Rest.Segments.Tokens.{is_base64_token-IsToken}

abbrev pub IsAmong : List Bytes → Bytes → Type 0
IsAmong [] s = ⊥
IsAmong (x ∷ xs) s = (x ≡ s) ⊎ IsAmong xs s

-- The words that are always literals.
abbrev pub IsKnown : Bytes → Type 0
IsKnown =
    IsAmong (
      codes "me"
      ∷ codes "current"
      ∷ codes "self"
      ∷ codes "new"
      ∷ codes "list"
      ∷ codes "search"
      ∷ [])

-- A segment that is taken for the value of a parameter.
abbrev pub IsParameter : Bytes → Type 0
IsParameter s =
    (s ≢ []) × (IsKnown s → ⊥) × (IsUuid s ⊎ IsObjectId s ⊎ IsNumber s ⊎ IsHash s ⊎ IsToken s)

contains-IsAmong : (xs : List Bytes) (s : Bytes) → (contains xs s ≡ true) ↔ IsAmong xs s
unfolding contains
contains-IsAmong [] s = (λ e. cc, λ e. absurd e)
contains-IsAmong (x ∷ xs) s =
    let (f, g) = contains-IsAmong xs s in
    let (here, later) = or_iff (str_eq x s) (contains xs s) in
    (
      (λ e. elim (here e) [ inl y ↦ inl ((str_eq_iff x s).0 y) | inr y ↦ inr (f y) ]),
      (λ e. elim e [ inl y ↦ later (inl ((str_eq_iff x s).1 y)) | inr y ↦ later (inr (g y)) ]),
    )

abbrev is_matched : Bytes → Bool
is_matched s =
    uuid_match s
    || (object_id_match s || (numeric_match s || (is_short_hex_hash s || is_base64_token s)))

matched_iff :
    (s : Bytes)
    → (is_matched s ≡ true) ↔ (IsUuid s ⊎ IsObjectId s ⊎ IsNumber s ⊎ IsHash s ⊎ IsToken s)
matched_iff s = ground (
  arith,
  uuid_match-IsUuid s,
  object_id_match-IsObjectId s,
  numeric_match-IsNumber s,
  is_short_hex_hash-IsHash s,
  is_base64_token-IsToken s,
)

abbrev is_parameter : Bytes → Bool
is_parameter s = not (str_eq s []) && (not (contains known_literals s) && is_matched s)

false_of_not : (b : Bool) → not b ≡ true → b ≡ false
false_of_not b h = ground arith

false_unless : (b : Bool) → (b ≡ true → ⊥) → not b ≡ true
false_unless true h = absurd (h refl)
false_unless false h = refl

is_parameter-IsParameter : (s : Bytes) → (is_parameter s ≡ true) ↔ IsParameter s
is_parameter-IsParameter s =
    let (known, in_known) = contains-IsAmong known_literals s in
    let (empty, nonempty) = str_eq_iff s [] in
    let (parts, whole) =
      and_iff (not (str_eq s [])) (not (contains known_literals s) && is_matched s) in
    let (rest, both) = and_iff (not (contains known_literals s)) (is_matched s) in
    let (matched, matches) = matched_iff s in
    (
      (λ e.
          let (a, b) = parts e in
          let (c, d) = rest b in
          (
            (λ n. cc (nonempty n, false_of_not (str_eq s []) a)),
            (λ k. cc (in_known k, false_of_not (contains known_literals s) c)),
            matched d,
          )),
      (λ (some_byte, other, m). whole (
        false_unless (str_eq s []) (λ e. some_byte (empty e)),
        both (false_unless (contains known_literals s) (λ e. other (known e)), matches m),
      )),
    )

normalize_segment_lem :
    (s : Bytes) → normalize_segment s ≡ (if is_parameter s then id_placeholder else s)
unfolding normalize_segment classify_param_segment
normalize_segment_lem s = ground arith

-- The segments of a path, one by one, and what they become.
abbrev pub Normalized : List Bytes → List Bytes → Type 0
Normalized [] [] = Unit
Normalized (s ∷ ss) (t ∷ ts) =
    (IsParameter s × (t ≡ codes "{id}") ⊎ (IsParameter s → ⊥) × (t ≡ s)) × Normalized ss ts
Normalized _ _ = ⊥

segments_lem : (ss : List Bytes) → Normalized ss (map normalize_segment ss)
segments_lem [] = tt
segments_lem (s ∷ ss) = (
  elim (Bool-cases (is_parameter s)) [
    | inl e ↦ inl ((is_parameter-IsParameter s).0 e, normalize_segment_lem s ∙ rw e refl)
    | inr e ↦
        inr ((λ p. cc (e, (is_parameter-IsParameter s).1 p)), normalize_segment_lem s ∙ rw e refl)
  ],
  segments_lem ss,
)

-- NormalizePath keeps the segments of a path one by one. A segment becomes {id} exactly if it is
-- not empty, is none of the words me, current, self, new, list and search, and is a UUID, 24 hex
-- digits, a number, 6 to 12 hex digits one of which is a decimal digit or a capital, or a base64
-- token: at least 16 letters, digits, underscores, dashes, plus signs and slashes, and at most
-- two equals signs behind them, with a plus, slash or equals sign, or with a capital, a small
-- letter and a digit. Any other segment stays. Doing it twice is doing it once.
pub normalize_path_lem :
    (path : Bytes)
    → Normalized (split b'/' path) (split b'/' (normalize_path path))
      × (normalize_path (normalize_path path) ≡ normalize_path path)
normalize_path_lem path = (
  rw (split-normalize_path path) (segments_lem (split b'/' path)),
  normalize_path_idempotent path,
)
