-- ===== src/Rest/Segments.antt =====
-- The kinds of path segments of pkg/generate/rest/normalize.go, and `NormalizePath`.
-- A regular expression is the Boolean test that it denotes.
pub mod Idempotent
pub mod Patterns
pub mod Tokens
pub mod Parameters
use vespasian.Prelude.{
  ℕ, suc, ◌-◌, Bool, true, false, not, ◌&&◌, ◌||◌, List, [], ◌∷◌, ◌++◌, map, Bytes, codes, length,
  take, drop, all, any, ltb, leb, ◌==◌, str_eq, if◌then◌else◌,
}
use vespasian.Prelude.Parts.{split, join, contains}

pub data ParamKind : Type 0 where
  literal uuid object_id numeric short_hex base64 slug : ParamKind

abbrev pub is_literal : ParamKind → Bool
is_literal literal = true
is_literal _ = false

abbrev pub between : ℕ → ℕ → ℕ → Bool
between low high c = leb low c && leb c high

abbrev pub is_digit : ℕ → Bool
is_digit c = between 0x30 0x39 c

abbrev pub is_upper : ℕ → Bool
is_upper c = between 0x41 0x5a c

abbrev pub is_lower : ℕ → Bool
is_lower c = between 0x61 0x7a c

-- `[0-9a-fA-F]`.
abbrev pub is_hex : ℕ → Bool
is_hex c = is_digit c || between 0x61 0x66 c || between 0x41 0x46 c

-- Runs of hex digits of the given lengths, with `-` between them.
abbrev pub groups_match : List ℕ → List Bytes → Bool
groups_match [] [] = true
groups_match (n ∷ ns) (p ∷ ps) = length p == n && all is_hex p && groups_match ns ps
groups_match _ _ = false

unfoldable pub uuid_match : Bytes → Bool
uuid_match s = groups_match (8 ∷ 4 ∷ 4 ∷ 4 ∷ 12 ∷ []) (split 0x2d s)

unfoldable pub object_id_match : Bytes → Bool
object_id_match s = length s == 24 && all is_hex s

unfoldable pub numeric_match : Bytes → Bool
numeric_match s = leb 1 (length s) && all is_digit s

-- `[A-Za-z0-9_\-+/]`.
abbrev pub is_base64 : ℕ → Bool
is_base64 c =
    is_upper c || is_lower c || is_digit c || c == 0x5f || c == 0x2d || c == 0x2b || c == 0x2f

-- The run at the front of which every byte passes, measured, and what is behind it.
abbrev pub run_length : (ℕ → Bool) → Bytes → ℕ
run_length p [] = 0
run_length p (c ∷ s) = let n = run_length p s in if p c then suc n else 0

-- `={0,2}$`.
abbrev pub padding_match : Bytes → Bool
padding_match s = leb (length s) 2 && all (λ c. c == 0x3d) s

unfoldable pub base64_match : Bytes → Bool
base64_match s = let n = run_length is_base64 s in leb 16 n && padding_match (drop n s)

unfoldable pub version_match : Bytes → Bool
version_match (v ∷ d ∷ s) = v == 0x76 && between 0x31 0x39 d && all is_digit s
version_match _ = false

abbrev pub known_literals : List Bytes
known_literals =
    codes "me" ∷ codes "current" ∷ codes "self" ∷ codes "new" ∷ codes "list" ∷ codes "search" ∷ []

abbrev pub path_prefixes : List Bytes
path_prefixes = codes "api" ∷ codes "apis" ∷ codes "rest" ∷ []

unfoldable pub is_path_prefix : Bytes → Bool
is_path_prefix segment = contains path_prefixes segment || version_match segment

unfoldable pub is_short_hex_hash : Bytes → Bool
is_short_hex_hash s =
    between 6 12 (length s) && all is_hex s && any (λ c. is_digit c || between 0x41 0x46 c) s

unfoldable pub is_base64_token : Bytes → Bool
is_base64_token s =
    if not (base64_match s)
    then false
    else if any (λ c. c == 0x2b || c == 0x2f || c == 0x3d) s
    then true
    else any is_upper s && any is_lower s && any is_digit s

unfoldable pub classify_param_segment : Bytes → ParamKind
classify_param_segment s =
    if str_eq s []
    then literal
    else if contains known_literals s
    then literal
    else if uuid_match s
    then uuid
    else if object_id_match s
    then object_id
    else if numeric_match s
    then numeric
    else if is_short_hex_hash s
    then short_hex
    else if is_base64_token s
    then base64
    else literal

abbrev pub id_placeholder : Bytes
id_placeholder = codes "{id}"

unfoldable pub normalize_segment : Bytes → Bytes
normalize_segment s =
    if str_eq s [] then s else if is_literal (classify_param_segment s) then s else id_placeholder

unfoldable pub normalize_path : Bytes → Bytes
normalize_path path = join 0x2f (map normalize_segment (split 0x2f path))
