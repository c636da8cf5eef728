-- ===== src/Origins.antt =====
-- The origins of pkg/crawl/jsreplay.go, by which the replay and the probes decide where to send.
pub mod Cuts
pub mod Components
use vespasian.Prelude.{
  ℕ, zero, suc, ◌-◌, Bool, true, false, not, ◌&&◌, ◌||◌, List, [], ◌∷◌, ◌++◌, Option, none, some,
  Bytes, codes, take, any, str_eq, if◌then◌else◌, ◌==◌,
}
use vespasian.Prelude.Parts.{has_prefix, trim_suffix, contains}
use vespasian.Prelude.Search.{includes, before_byte}
use vespasian.Packages.{Packages, ParsedUrl}
use vespasian.Mediatype.{base}
use vespasian.Classify.Requests.{ObservedRequest}

abbrev pub default_port_for_scheme : Packages → Bytes → Bytes
default_port_for_scheme packages scheme =
    let lower = packages.to_lower scheme in
    if str_eq lower (codes "http")
    then codes "80"
    else if str_eq lower (codes "https")
    then codes "443"
    else []

abbrev pub is_bracketed : ParsedUrl → Bool
is_bracketed u = has_prefix u.host (codes "[")

abbrev pub lower_host : Packages → ParsedUrl → Bytes
lower_host packages u = packages.to_lower u.hostname

-- A zone id, or a second port that `url.Parse` leaves in the host.
abbrev pub is_unusable : Bool → Bytes → Bool
is_unusable bracketed host =
    bracketed && includes host (codes "%") || not bracketed && includes host (codes ":")

abbrev with_brackets : Bool → Bytes → Bytes
with_brackets bracketed host = if bracketed then codes "[" ++ (host ++ codes "]") else host

abbrev pub effective_port : Packages → ParsedUrl → Bytes
effective_port packages u =
    if str_eq u.port []
    then default_port_for_scheme packages (packages.to_lower u.scheme)
    else u.port

abbrev with_port : Bytes → Bytes → Bytes
with_port [] origin = origin
with_port (c ∷ port) origin = origin ++ (codes ":" ++ c ∷ port)

abbrev origin_of_url : Packages → Option ParsedUrl → Bytes
origin_of_url packages none = []
origin_of_url packages (some u) =
    if str_eq u.host []
    then []
    else if is_unusable (is_bracketed u) (lower_host packages u)
    then []
    else with_port (effective_port packages u) (
        packages.to_lower u.scheme
        ++ (codes "://" ++ with_brackets (is_bracketed u) (lower_host packages u)))

-- The origin of a URL, empty if there is none to compare.
unfoldable pub origin_of : Packages → Bytes → Bytes
origin_of packages raw = origin_of_url packages (packages.parse_url raw)

unfoldable pub same_origin : Packages → Bytes → Bytes → Bool
same_origin packages a b =
    not (str_eq (origin_of packages a) []) && str_eq (origin_of packages a) (origin_of packages b)

abbrev pub is_http : Bytes → Bool
is_http scheme = str_eq scheme (codes "http") || str_eq scheme (codes "https")

abbrev without_port : Bytes → Bytes → Bytes
without_port [] origin = origin
without_port (c ∷ port) origin = trim_suffix origin (codes ":" ++ c ∷ port)

abbrev canonical_of_url : Packages → Bytes → Option ParsedUrl → Bytes
canonical_of_url packages raw none = []
canonical_of_url packages raw (some u) =
    if not (is_http u.scheme) || str_eq u.host []
    then []
    else without_port (default_port_for_scheme packages (packages.to_lower u.scheme))
        (origin_of packages raw)

unfoldable pub canonical_origin : Packages → Bytes → Bytes
canonical_origin packages raw = canonical_of_url packages raw (packages.parse_url raw)

abbrev pub validated_url : Option ParsedUrl → Option Bytes
validated_url none = none
validated_url (some u) =
    if not (is_http u.scheme) || str_eq u.host [] || u.has_user then none else some u.text

-- The URL as it was parsed, if it is an absolute HTTP URL without credentials.
unfoldable pub validate_full_url : Packages → Bytes → Option Bytes
validate_full_url packages raw = validated_url (packages.parse_url raw)

abbrev html_content_types : List Bytes
html_content_types = codes "text/html" ∷ codes "application/xhtml+xml" ∷ []

unfoldable pub matches_content_type : Packages → Bytes → List Bytes → Bool
matches_content_type packages content_type types = contains types (base packages content_type)

abbrev is_html_response : Packages → Bytes → Bool
is_html_response packages content_type =
    matches_content_type packages content_type html_content_types

-- `bytes.TrimLeft` of white space and of byte order marks: the number of bytes to skip goes along.
abbrev to_skip : Bytes → ℕ
to_skip [] = 0
to_skip (c ∷ s) =
    if c == 0x20 || c == 0x09 || c == 0x0d || c == 0x0a
    then 1
    else if has_prefix (c ∷ s) (0xef ∷ 0xbb ∷ 0xbf ∷ [])
    then 3
    else 0

abbrev next_skip : ℕ → Bytes → ℕ
next_skip zero s = to_skip s
next_skip (suc n) s = suc n

unfoldable pub trim_from : ℕ → Bytes → Bytes
trim_from n [] = []
trim_from n (c ∷ s) =
    let skip = next_skip n (c ∷ s) in
    let rest = trim_from (skip - 1) s in if skip == 0 then c ∷ s else rest

abbrev trim_left : Bytes → Bytes
trim_left = trim_from 0

unfoldable pub looks_like_html : Packages → Bytes → Bool
looks_like_html packages body =
    let lower = packages.to_lower (take 50 (trim_left body)) in
    not (str_eq (trim_left body) [])
    && (has_prefix lower (codes "<!doctype") || has_prefix lower (codes "<html"))

abbrev is_html : Packages → ObservedRequest → Bool
is_html packages req =
    is_html_response packages req.response.content_type
    || looks_like_html packages req.response.body

-- The first origin of the requests that are counted.
abbrev first_origin : Packages → (ObservedRequest → Bool) → List ObservedRequest → Bytes
first_origin packages counts [] = []
first_origin packages counts (req ∷ requests) =
    let origin = origin_of packages req.url in
    let rest = first_origin packages counts requests in
    if str_eq req.url [] || not (counts req)
    then rest
    else if not (str_eq origin [])
    then origin
    else rest

unfoldable pub first_html_origin : Packages → List ObservedRequest → Bytes
first_html_origin packages = first_origin packages (is_html packages)

-- A pinned target is never replaced by an origin of the capture.
unfoldable pub resolve_target_origin : Packages → Bytes → List ObservedRequest → Bytes
resolve_target_origin packages target requests =
    let html = first_html_origin packages requests in
    if not (str_eq target [])
    then origin_of packages target
    else if not (str_eq html [])
    then html
    else first_origin packages (λ req. true) requests
