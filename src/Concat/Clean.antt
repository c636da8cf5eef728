-- ===== src/Concat/Clean.antt =====
-- cleanConcatPath of pkg/crawl/jsreplay.go: the form and the bytes of a path.
pub mod Decoded
pub mod Squeezed
pub mod Trimmed
pub mod Paths
use vespasian.Prelude.{
  ℕ, zero, suc, ◌+◌, ◌-◌, ◌*◌, Bool, true, false, not, ◌&&◌, ◌||◌, List, [], ◌∷◌, ◌++◌, Option,
  none, some, Bytes, codes, length, take, drop, leb, str_eq, if◌then◌else◌, ◌==◌,
}
use vespasian.Prelude.Parts.{has_prefix}
use vespasian.Prelude.Search.{includes}

-- The path, and the query and the fragment.
abbrev pub split_suffix : Bytes → Bytes × Bytes
split_suffix [] = ([], [])
split_suffix (c ∷ s) =
    let rest = split_suffix s in
    if c == b'?' || c == b'#' then ([], c ∷ s) else (c ∷ rest.0, rest.1)

abbrev pub onto_scheme : ℕ → Option (Bytes × Bytes) → Option (Bytes × Bytes)
onto_scheme c none = none
onto_scheme c (some (scheme, rest)) = some (c ∷ scheme, rest)

-- `strings.Cut` at the first `://`.
abbrev pub cut_scheme : Bytes → Option (Bytes × Bytes)
cut_scheme [] = none
cut_scheme (c ∷ s) =
    let rest = cut_scheme s in
    if has_prefix (c ∷ s) (codes "://") then some ([], drop 2 s) else onto_scheme c rest

-- `strings.ReplaceAll` of two slashes by one.
unfoldable pub replace_double : Bytes → Bytes
replace_double [] = []
replace_double (c ∷ []) = c ∷ []
replace_double (c ∷ d ∷ s) =
    let replaced = b'/' ∷ replace_double s in
    let next = c ∷ replace_double (d ∷ s) in if c == b'/' && d == b'/' then replaced else next

-- The loop, until there is no double slash; each round takes a byte away.
unfoldable pub collapse_loop : ℕ → Bytes → Bytes
collapse_loop zero s = s
collapse_loop (suc fuel) s =
    let rest = collapse_loop fuel (replace_double s) in if includes s (codes "//") then rest else s

unfoldable pub collapse_slashes : Bytes → Bytes
collapse_slashes s = collapse_loop (length s) s

abbrev pub collapse_behind : Bytes → Option (Bytes × Bytes) → Bytes
collapse_behind path none = collapse_slashes path
collapse_behind path (some (scheme, rest)) = scheme ++ (codes "://" ++ collapse_slashes rest)

-- `strings.TrimRight` of slashes.
unfoldable pub trim_slashes : Bytes → Bytes
trim_slashes [] = []
trim_slashes (c ∷ s) =
    let rest = trim_slashes s in if c == b'/' && str_eq rest [] then [] else c ∷ rest

abbrev pub hex_digit : ℕ → Option ℕ
hex_digit c =
    if leb b'0' c && leb c b'9'
    then some (c - b'0')
    else if leb b'a' c && leb c b'f'
    then some (c - b'a' + 10)
    else if leb b'A' c && leb c b'F'
    then some (c - b'A' + 10)
    else none

abbrev pub decodes_printable : Option ℕ → Option ℕ → Bool
decodes_printable (some high) (some low) = let b = high * 16 + low in leb 0x20 b && leb b 0x7e
decodes_printable _ _ = false

-- What stands behind a percent sign.
abbrev pub valid_percent_escape : Bytes → Bool
valid_percent_escape (a ∷ b ∷ s) = decodes_printable (hex_digit a) (hex_digit b)
valid_percent_escape _ = false

unfoldable pub scan_escaped_bytes : (ℕ → Bool) → Bytes → Bool
scan_escaped_bytes is_literal_byte [] = true
scan_escaped_bytes is_literal_byte (c ∷ []) = not (c == b'%') && is_literal_byte c
scan_escaped_bytes is_literal_byte (c ∷ d ∷ []) =
    not (c == b'%') && is_literal_byte c && (not (d == b'%') && is_literal_byte d)
scan_escaped_bytes is_literal_byte (c ∷ d ∷ e ∷ s) =
    let behind = scan_escaped_bytes is_literal_byte s in
    let next = scan_escaped_bytes is_literal_byte (d ∷ e ∷ s) in
    if c == b'%' then valid_percent_escape (d ∷ e ∷ s) && behind else is_literal_byte c && next

unfoldable pub is_printable_ascii_url : Bytes → Bool
is_printable_ascii_url raw = scan_escaped_bytes (λ c. leb 0x21 c && leb c 0x7e) raw

abbrev pub is_alphanumeric : ℕ → Bool
is_alphanumeric c = leb b'a' c && leb c b'z' || leb b'A' c && leb c b'Z' || leb b'0' c && leb c b'9'

abbrev pub one_of : ℕ → Bytes → Bool
one_of c [] = false
one_of c (d ∷ s) = c == d || one_of c s

abbrev pub is_allowed_concat_byte : Bool → ℕ → Bool
is_allowed_concat_byte in_suffix c =
    if is_alphanumeric c || one_of c (codes "/_-.:{}~@!$'()*+,;[]|")
    then true
    else one_of c (codes "?=&#") && in_suffix

abbrev pub allowed_concat_bytes : Bytes → Bool → Bool
allowed_concat_bytes s in_suffix = scan_escaped_bytes (is_allowed_concat_byte in_suffix) s

abbrev pub clean_path : Bytes → Bytes
clean_path path = trim_slashes (collapse_behind path (cut_scheme path))

-- An empty text stands for a path that is dropped.
unfoldable pub clean_concat_path : (Bytes → Bool) → Bytes → Bytes
clean_concat_path has_api_indicator p =
    let (raw, suffix) = split_suffix p in
    let path = clean_path raw in
    let q = path ++ suffix in
    if str_eq q [] || not (has_api_indicator q)
    then []
    else if not (allowed_concat_bytes path false) || not (allowed_concat_bytes suffix true)
    then []
    else q
