-- ===== src/Rest/Observed.antt =====
-- The detection of slugs from a population of paths, and `NormalizePathsWithNames` of
-- pkg/generate/rest/normalize.go. A Go map is a list of its keys or entries.
pub mod Promoted
pub mod Unmerged
use vespasian.Prelude.{
  ℕ, zero, suc, ◌+◌, Bool, true, false, not, ◌&&◌, ◌||◌, List, [], ◌∷◌, ◌++◌, map, Bytes, codes,
  length, ltb, leb, ◌==◌, str_eq, if◌then◌else◌,
}
use vespasian.Prelude.Parts.{split, join, contains}
use vespasian.Rest.Segments.{ParamKind, literal, slug, is_literal, known_literals, is_path_prefix}
use vespasian.Rest.Names.{Segment, classify_segments, render_segments}

abbrev pub is_slug : ParamKind → Bool
is_slug slug = true
is_slug _ = false

pub record PosKey : Type 0 where
  pub prefix : Bytes
  pub index : ℕ
  pub suffix : Bytes
  pub length : ℕ

abbrev pub key_eq : PosKey → PosKey → Bool
key_eq k j =
    str_eq k.prefix j.prefix
    && k.index == j.index
    && str_eq k.suffix j.suffix
    && k.length == j.length

pub record NormalizeOptions : Type 0 where
  pub merge_slugs : Bool
  pub slug_threshold : ℕ

abbrev pub shape_part : Segment → Bytes
shape_part s = if is_literal s.kind then s.text else codes "{}"

unfoldable pub shape_key : List Segment → Bytes
shape_key ss = join 0x2f (map shape_part ss)

-- A position of a path: the segments before it, and those behind it.
unfoldable pub position_key : List Segment → List Segment → PosKey
position_key before after = record {
  prefix = shape_key before;
  index = length before;
  suffix = shape_key after;
  length = length before + suc (length after);
}

unfoldable pub has_literal_context : List Segment → Bool
has_literal_context [] = false
has_literal_context (s ∷ ss) =
    let rest = has_literal_context ss in
    if str_eq s.text []
    then rest
    else if not (is_literal s.kind)
    then rest
    else if is_path_prefix s.text
    then rest
    else true

unfoldable pub is_observation_candidate : List Segment → Segment → Bool
is_observation_candidate before s =
    if str_eq s.text [] || not (is_literal s.kind)
    then false
    else if contains known_literals s.text
    then false
    else has_literal_context before

-- `values[key][seg] = struct{}{}`.
unfoldable pub record_value :
    PosKey → Bytes → List (PosKey × List Bytes) → List (PosKey × List Bytes)
record_value key seg [] = (key, seg ∷ []) ∷ []
record_value key seg ((k, set) ∷ values) =
    let rest = record_value key seg values in
    if key_eq k key
    then (k, (if contains set seg then set else seg ∷ set)) ∷ values
    else (k, set) ∷ rest

-- The loop over the positions of a path.
unfoldable pub record_path :
    List Segment → List Segment → List (PosKey × List Bytes) → List (PosKey × List Bytes)
record_path before [] values = values
record_path before (s ∷ after) values = record_path (before ++ s ∷ []) after (
    if is_observation_candidate before s
    then record_value (position_key before after) s.text values
    else values)

unfoldable pub record_paths :
    List (List Segment) → List (PosKey × List Bytes) → List (PosKey × List Bytes)
record_paths [] values = values
record_paths (info ∷ infos) values = record_paths infos (record_path [] info values)

unfoldable pub varying_keys : ℕ → List (PosKey × List Bytes) → List PosKey
varying_keys threshold [] = []
varying_keys threshold ((key, set) ∷ values) =
    let rest = varying_keys threshold values in
    if leb threshold (length set) then key ∷ rest else rest

unfoldable pub find_varying_positions : List (List Segment) → ℕ → List PosKey
find_varying_positions infos threshold = varying_keys threshold (record_paths infos [])

unfoldable pub has_key : PosKey → List PosKey → Bool
has_key key [] = false
has_key key (k ∷ keys) = key_eq k key || has_key key keys

abbrev pub is_promoted : List PosKey → List Segment → Segment → List Segment → Bool
is_promoted varying before s after =
    is_observation_candidate before s
    && has_key (position_key before after) varying
    && not (is_slug s.kind)

abbrev pub slug_if : Bool → Segment → Segment
slug_if b s = if b then record s { kind = slug } else s

-- A path of `promoteVaryingPositions`: `before` holds the kinds of the snapshot.
unfoldable pub promote_path : List PosKey → List Segment → List Segment → List Segment
promote_path varying before [] = []
promote_path varying before (s ∷ after) =
    slug_if (is_promoted varying before s after) s ∷ promote_path varying (before ++ s ∷ []) after

unfoldable pub promotes : List PosKey → List Segment → List Segment → Bool
promotes varying before [] = false
promotes varying before (s ∷ after) =
    is_promoted varying before s after || promotes varying (before ++ s ∷ []) after

abbrev pub any_promotes : List PosKey → List (List Segment) → Bool
any_promotes varying [] = false
any_promotes varying (info ∷ infos) = promotes varying [] info || any_promotes varying infos

-- The paths, and whether a segment was promoted.
unfoldable pub promote_varying_positions :
    List (List Segment) → List PosKey → List (List Segment) × Bool
promote_varying_positions infos varying =
    (map (promote_path varying []) infos, any_promotes varying infos)

abbrev pub is_empty : List PosKey → Bool
is_empty [] = true
is_empty (k ∷ keys) = false

unfoldable pub promotion_rounds : ℕ → ℕ → List (List Segment) → List (List Segment)
promotion_rounds zero threshold infos = infos
promotion_rounds (suc rounds) threshold infos =
    let varying = find_varying_positions infos threshold in
    let (promoted, changed) = promote_varying_positions infos varying in
    let rest = promotion_rounds rounds threshold promoted in
    if is_empty varying then infos else if not changed then promoted else rest

-- The keys of the positions whose kind passes a test: `hasSlug` and `hasOther`.
unfoldable pub path_keys : (ParamKind → Bool) → List Segment → List Segment → List PosKey
path_keys p before [] = []
path_keys p before (s ∷ after) =
    let rest = path_keys p (before ++ s ∷ []) after in
    if p s.kind then position_key before after ∷ rest else rest

abbrev pub paths_keys : (ParamKind → Bool) → List (List Segment) → List PosKey
paths_keys p [] = []
paths_keys p (info ∷ infos) = path_keys p [] info ++ paths_keys p infos

abbrev pub is_other : ParamKind → Bool
is_other k = not (is_literal k) && not (is_slug k)

abbrev pub is_unified : List PosKey → List PosKey → List Segment → Segment → List Segment → Bool
is_unified has_slug has_other before s after =
    not (is_literal s.kind)
    && has_key (position_key before after) has_slug
    && has_key (position_key before after) has_other

unfoldable pub unify_path : List PosKey → List PosKey → List Segment → List Segment → List Segment
unify_path has_slug has_other before [] = []
unify_path has_slug has_other before (s ∷ after) =
    slug_if (is_unified has_slug has_other before s after) s
    ∷ unify_path has_slug has_other (before ++ s ∷ []) after

unfoldable pub unify_mixed_kinds : List (List Segment) → List (List Segment)
unify_mixed_kinds infos =
    map (unify_path (paths_keys is_slug infos) (paths_keys is_other infos) []) infos

abbrev pub classify_paths : List Bytes → List (List Segment)
classify_paths [] = []
classify_paths (path ∷ paths) = classify_segments (split 0x2f path) ∷ classify_paths paths

abbrev pub keys_of : List (Bytes × Bytes) → List Bytes
keys_of [] = []
keys_of ((k, v) ∷ out) = k ∷ keys_of out

-- The loop of `renderNormalizedPaths`, the two slices in step.
unfoldable pub render_loop :
    List (Bytes × Bytes) → List Bytes → List (List Segment) → List (Bytes × Bytes)
render_loop out (path ∷ paths) (info ∷ infos) =
    render_loop
      (if contains (keys_of out) path then out else out ++ (path, render_segments info) ∷ []) paths
      infos
render_loop out _ _ = out

abbrev pub max_promotion_rounds : ℕ
max_promotion_rounds = 8

unfoldable pub normalize_paths_with_names : List Bytes → NormalizeOptions → List (Bytes × Bytes)
normalize_paths_with_names paths opts =
    let threshold = if ltb opts.slug_threshold 2 then 2 else opts.slug_threshold in
    let infos = classify_paths paths in
    let promoted = promotion_rounds max_promotion_rounds threshold infos in
    render_loop [] paths (unify_mixed_kinds (if opts.merge_slugs then promoted else infos))
