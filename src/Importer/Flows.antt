-- ===== src/Importer/Flows.antt =====
-- pkg/importer/mitmproxy.go: the checks of a flow, and the request that it becomes.
use vespasian.Prelude.{
  ℕ, ◌+◌, Bool, ◌&&◌, ◌||◌, List, [], ◌∷◌, ◌++◌, Option, none, some, Bytes, codes, length, drop,
  any, ltb, str_eq, if◌then◌else◌, ◌==◌, Result, ok, err,
}
use vespasian.Prelude.Int.{ℤ, pos, ltb_ℤ, eq_ℤ}
use vespasian.Prelude.Search.{before_byte}
use vespasian.Tnet.Reader.{TnetError}
use vespasian.Tnet.Encode.{format_int}

pub record MitmproxyRequest : Type 0 where
  pub method : Bytes
  pub scheme : Bytes
  pub host : Bytes
  pub port : ℤ
  pub path : Bytes
  pub headers : List (List Bytes)
  pub content : Bytes

pub record MitmproxyResponse : Type 0 where
  pub status_code : ℤ
  pub headers : List (List Bytes)
  pub content : Bytes

pub record MitmproxyFlow : Type 0 where
  pub request : MitmproxyRequest
  pub response : MitmproxyResponse

-- The fields of the `url.URL` that `constructURL` writes with `String`.
pub record UrlParts : Type 0 where
  pub scheme : Bytes
  pub host : Bytes
  pub path : Bytes
  pub raw_path : Bytes
  pub raw_query : Bytes

-- `url.PathUnescape`, `String` of a `url.URL`, and `Query` of one, by its text.
pub record UrlFunctions : Type 0 where
  pub path_unescape : Bytes → Option Bytes
  pub url_text : UrlParts → Bytes
  pub query_values : Bytes → List (Bytes × List Bytes)

pub data HostError : Type 0 where
  empty_host host_userinfo host_port host_delimiter host_control : HostError
  host_too_long : ℕ → HostError

-- The errors of an import; `out_of_fuel` is none of the code: the fuel of its loop ran out.
pub data ImportError : Type 0 where
  too_many_flows not_a_dict missing_request request_not_dict : ImportError
  missing_port port_not_integer response_not_dict out_of_fuel : ImportError
  bad_native_flow : TnetError → ImportError
  invalid_port : ℤ → ImportError
  invalid_method unsupported_scheme : Bytes → ImportError
  invalid_host : HostError → ImportError

unfoldable pub validate_port_range : ℤ → Result ImportError (Unit {0})
validate_port_range port =
    if ltb_ℤ port (pos 0) || ltb_ℤ (pos 65535) port then err (invalid_port port) else ok tt

abbrev pub valid_http_methods : List Bytes
valid_http_methods =
    codes "GET"
    ∷ codes "POST"
    ∷ codes "PUT"
    ∷ codes "DELETE"
    ∷ codes "PATCH"
    ∷ codes "HEAD"
    ∷ codes "OPTIONS"
    ∷ codes "TRACE"
    ∷ codes "CONNECT"
    ∷ []

abbrev pub allowed_schemes : List Bytes
allowed_schemes = codes "http" ∷ codes "https" ∷ []

abbrev pub max_host_length : ℕ
max_host_length = 253

abbrev pub holds_byte : ℕ → Bytes → Bool
holds_byte b host = any (λ c. c == b) host

abbrev pub is_delimiter : ℕ → Bool
is_delimiter c = holds_byte c (codes "/?#\\[]")

-- A rune below 0x80 is a byte.
abbrev pub is_control : ℕ → Bool
is_control c = ltb c 0x21 || c == 0x7f

unfoldable pub validate_host : Bytes → Result ImportError (Unit {0})
validate_host host =
    if str_eq host []
    then err (invalid_host empty_host)
    else if ltb max_host_length (length host)
    then err (invalid_host (host_too_long (length host)))
    else if holds_byte 0x40 host
    then err (invalid_host host_userinfo)
    else if holds_byte 0x3a host
    then err (invalid_host host_port)
    else if any is_delimiter host
    then err (invalid_host host_delimiter)
    else if any is_control host
    then err (invalid_host host_control)
    else ok tt

-- `headers[h[0]] = h[1]`.
abbrev set_header : Bytes → Bytes → List (Bytes × Bytes) → List (Bytes × Bytes)
set_header k v [] = (k, v) ∷ []
set_header k v ((j, w) ∷ m) =
    let rest = set_header k v m in if str_eq j k then (j, v) ∷ m else (j, w) ∷ rest

abbrev add_header : List Bytes → List (Bytes × Bytes) → List (Bytes × Bytes)
add_header ((c ∷ k) ∷ v ∷ _) m = set_header (c ∷ k) v m
add_header _ m = m

abbrev headers_loop : List (List Bytes) → List (Bytes × Bytes) → List (Bytes × Bytes)
headers_loop [] m = m
headers_loop (h ∷ hs) m = headers_loop hs (add_header h m)

unfoldable pub convert_mitmproxy_headers : List (List Bytes) → List (Bytes × Bytes)
convert_mitmproxy_headers hs = headers_loop hs []

abbrev pub header_or_empty : Bytes → List (Bytes × Bytes) → Bytes
header_or_empty k [] = []
header_or_empty k ((j, v) ∷ m) = let rest = header_or_empty k m in if str_eq j k then v else rest

abbrev is_usual_port : Bytes → ℤ → Bool
is_usual_port scheme port =
    str_eq scheme (codes "https") && eq_ℤ port (pos 443)
    || str_eq scheme (codes "http") && eq_ℤ port (pos 80)

abbrev host_and_port : Bytes → Bytes → ℤ → Bytes
host_and_port scheme host port =
    if is_usual_port scheme port then host else host ++ (codes ":" ++ format_int port)

abbrev with_path : Bytes → Bytes → Bytes → Bytes → Option Bytes → UrlParts
with_path scheme host path query none = record {
  scheme = scheme;
  host = host;
  path = path;
  raw_path = [];
  raw_query = query;
}
with_path scheme host path query (some decoded) = record {
  scheme = scheme;
  host = host;
  path = decoded;
  raw_path = path;
  raw_query = query;
}

-- `strings.Cut` at the first question mark, and the parts of the URL.
abbrev url_parts : UrlFunctions → Bytes → Bytes → ℤ → Bytes → UrlParts
url_parts urls scheme host port path =
    let path_part = before_byte 0x3f path in
    with_path scheme (host_and_port scheme host port) path_part (drop (length path_part + 1) path)
      (urls.path_unescape path_part)

unfoldable pub construct_url : UrlFunctions → Bytes → Bytes → ℤ → Bytes → Bytes
construct_url urls scheme host port path = urls.url_text (url_parts urls scheme host port path)
