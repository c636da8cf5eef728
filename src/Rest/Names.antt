-- ===== src/Rest/Names.antt =====
-- The parameter names of pkg/generate/rest/normalize.go, and `NormalizePathWithNames`.
-- The parallel slices `segments` and `kinds` are one list. Bytes stand for runes: the code tests and
-- keeps only ASCII, and every byte of another rune is above that.
pub mod Idents
pub mod Shape
use vespasian.Prelude.{
  ℕ, suc, ◌+◌, ◌-◌, Bool, true, false, not, ◌&&◌, ◌||◌, List, [], ◌∷◌, ◌++◌, map, Bytes, codes,
  length, take, drop, ltb, leb, ◌==◌, str_eq, if◌then◌else◌,
}
use vespasian.Prelude.Decimal.{decimal}
use vespasian.Prelude.Parts.{split, join, has_prefix, has_suffix, trim_suffix}
use vespasian.Rest.Segments.{
  ParamKind, literal, uuid, object_id, numeric, short_hex, base64, slug, is_literal, is_digit,
  is_upper, is_lower, classify_param_segment,
}

pub record Segment : Type 0 where
  pub text : Bytes
  pub kind : ParamKind

abbrev pub classify_segments : List Bytes → List Segment
classify_segments [] = []
classify_segments (s ∷ ss) =
    record { text = s; kind = classify_param_segment s } ∷ classify_segments ss

abbrev pub suffix_for_kind : ParamKind → Bytes
suffix_for_kind base64 = codes "Token"
suffix_for_kind slug = codes "Slug"
suffix_for_kind _ = codes "Id"

unfoldable pub singularize : Bytes → Bytes
singularize word =
    if has_suffix word (codes "ies")
    then trim_suffix word (codes "ies") ++ codes "y"
    else if has_suffix word (codes "sses")
    then trim_suffix word (codes "sses") ++ codes "ss"
    else if has_suffix word (codes "s") && not (has_suffix word (codes "ss"))
    then trim_suffix word (codes "s")
    else word

-- The loop of `sanitizeParamName`, with `upperNext`.
unfoldable pub sanitize_loop : Bool → Bytes → Bytes
sanitize_loop upper_next [] = []
sanitize_loop upper_next (c ∷ name) =
    let after_separator = sanitize_loop true name in
    let after_kept = sanitize_loop false name in
    let after_dropped = sanitize_loop upper_next name in
    if c == 0x2d || c == 0x2e
    then after_separator
    else if is_lower c
    then (if upper_next then c - 32 else c) ∷ after_kept
    else if is_upper c || is_digit c || c == 0x5f
    then c ∷ after_kept
    else after_dropped

abbrev pub id_if_empty : Bytes → Bytes
id_if_empty [] = codes "id"
id_if_empty (c ∷ b) = c ∷ b

unfoldable pub sanitize_param_name : Bytes → Bytes
sanitize_param_name name = id_if_empty (sanitize_loop false name)

-- `strings.ToLower` of a suffix.
abbrev pub lower_suffix : Bytes → Bytes
lower_suffix [] = []
lower_suffix (c ∷ s) = (if is_upper c then c + 32 else c) ∷ lower_suffix s

unfoldable pub param_name_from_kind : Bytes → ParamKind → Bytes
param_name_from_kind prev kind =
    let suffix = suffix_for_kind kind in
    if str_eq prev [] then lower_suffix suffix else sanitize_param_name (singularize prev ++ suffix)

-- The backward walk of `contextualParamName`: the segments before it, the nearest first.
unfoldable pub previous_literal : List Segment → Bytes
previous_literal [] = []
previous_literal (s ∷ before) =
    let further = previous_literal before in
    if str_eq s.text [] then further else if is_literal s.kind then s.text else further

unfoldable pub contextual_param_name : List Segment → ParamKind → Bytes
contextual_param_name before kind = param_name_from_kind (previous_literal before) kind

abbrev pub braced : Bytes → Bytes
braced name = codes "{" ++ (name ++ codes "}")

unfoldable pub apply_kind : List Segment → Segment → Segment
apply_kind before s =
    if is_literal s.kind
    then s
    else record s { text = braced (contextual_param_name before s.kind) }

-- `applyKindsToSegments`: `before` holds the rewritten segments, the nearest first.
unfoldable pub apply_kinds : List Segment → List Segment → List Bytes
apply_kinds before [] = []
apply_kinds before (s ∷ ss) = let t = apply_kind before s in t.text ∷ apply_kinds (t ∷ before) ss

-- The map `seen` of `deduplicateParamNames`.
abbrev pub count_of : Bytes → List (Bytes × ℕ) → ℕ
count_of name [] = 0
count_of name ((n, k) ∷ seen) = let rest = count_of name seen in if str_eq n name then k else rest

abbrev pub in_braces : Bytes → Bool
in_braces s = has_prefix s (codes "{") && has_suffix s (codes "}")

unfoldable pub deduplicate_param_names : List (Bytes × ℕ) → List Bytes → List Bytes
deduplicate_param_names seen [] = []
deduplicate_param_names seen (s ∷ ss) =
    let name = take (length s - 2) (drop 1 s) in
    let count = suc (count_of name seen) in
    let passed = deduplicate_param_names seen ss in
    let counted = deduplicate_param_names ((name, count) ∷ seen) ss in
    if not (in_braces s)
    then s ∷ passed
    else (if ltb 1 count then braced (name ++ decimal count) else s) ∷ counted

unfoldable pub render_segments : List Segment → Bytes
render_segments ss = join 0x2f (deduplicate_param_names [] (apply_kinds [] ss))

unfoldable pub normalize_path_with_names : Bytes → Bytes
normalize_path_with_names path = render_segments (classify_segments (split 0x2f path))
