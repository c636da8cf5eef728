-- ===== src/Classify/Rest.antt =====
-- pkg/classify/rest.go: the classifier of REST requests, rule by rule.
pub mod Levels
use vespasian.Prelude.{
  ℕ, Bool, true, false, not, ◌&&◌, ◌||◌, List, [], ◌∷◌, ◌++◌, Option, none, some, Bytes, codes, any,
  leb, ltb, str_eq, if◌then◌else◌, ◌==◌,
}
use vespasian.Prelude.Parts.{has_prefix, split}
use vespasian.Prelude.Search.{includes, before_byte}
use vespasian.Packages.{Packages, ParsedUrl}
use vespasian.Mediatype.{base, header}
use vespasian.Classify.Responses.{ObservedResponse}
use vespasian.Classify.Requests.{
  ObservedRequest, Verdict, rejected, is_js_static_source, is_static_file, double_sum,
  default_confidence_threshold, one, Score, no_score, append_reason, signal, first_non_space,
  verdict_of,
}

abbrev static_path_segments : List Bytes
static_path_segments = codes "/static/" ∷ codes "/assets/" ∷ codes "/dist/" ∷ codes "/bundle/" ∷ []

abbrev api_content_types : List Bytes
api_content_types =
    codes "application/json"
    ∷ codes "application/xml"
    ∷ codes "text/xml"
    ∷ codes "application/problem+json"
    ∷ codes "application/vnd.api+json"
    ∷ codes "application/hal+json"
    ∷ []

abbrev api_path_segments : List Bytes
api_path_segments = codes "/api/" ∷ codes "/rest/" ∷ codes "/rpc/" ∷ codes "/graphql" ∷ []

-- The float64 values nearest to 0.8, 0.15, 0.7, 0.85 and 0.6.
abbrev pub content_type_confidence : ℕ
content_type_confidence = 28823037615171176

abbrev pub path_heuristic_boost : ℕ
path_heuristic_boost = 5404319552844595

abbrev pub http_method_confidence : ℕ
http_method_confidence = 25220157913274776

abbrev pub json_body_confidence : ℕ
json_body_confidence = 30624477466119372

abbrev pub request_signal_confidence : ℕ
request_signal_confidence = 21617278211378380

abbrev pub static_js_confidence : ℕ
static_js_confidence = default_confidence_threshold

-- `/v[1-9][0-9]*/`: after the first digit, and anywhere in the text.
abbrev digits_and_slash : Bytes → Bool
digits_and_slash [] = false
digits_and_slash (c ∷ s) = c == 0x2f || leb 0x30 c && leb c 0x39 && digits_and_slash s

abbrev version_segment_here : Bytes → Bool
version_segment_here (a ∷ v ∷ d ∷ s) =
    a == 0x2f && v == 0x76 && leb 0x31 d && leb d 0x39 && digits_and_slash s
version_segment_here _ = false

unfoldable pub has_version_segment : Bytes → Bool
has_version_segment [] = false
has_version_segment (c ∷ s) = version_segment_here (c ∷ s) || has_version_segment s

unfoldable pub path_is_api : Bytes → Bool
path_is_api lower_path =
    any (includes lower_path) api_path_segments || has_version_segment lower_path

unfoldable pub is_static_asset : Bytes → Bool
is_static_asset lower_path =
    is_static_file lower_path || any (includes lower_path) static_path_segments

-- The first of the media types that is the given one, or the empty text.
abbrev first_equal : List Bytes → Bytes → Bytes
first_equal [] ct = []
first_equal (t ∷ ts) ct = let rest = first_equal ts ct in if str_eq ct t then t else rest

unfoldable pub match_api_content_type : Packages → Bytes → Bytes
match_api_content_type packages ct = first_equal api_content_types (base packages ct)

abbrev is_document : Bytes → Bool
is_document mt = str_eq mt (codes "text/html") || str_eq mt (codes "application/xhtml+xml")

unfoldable pub accept_loop : Packages → List Bytes → Bytes → Bytes
accept_loop packages [] match = match
accept_loop packages (part ∷ parts) match =
    let mt = packages.to_lower (packages.trim_space (before_byte 0x3b part)) in
    let rest =
      accept_loop packages parts
        (if str_eq match [] then match_api_content_type packages mt else match) in
    if is_document mt then [] else rest

unfoldable pub accept_signals_api : Packages → Bytes → Bytes
accept_signals_api packages accept =
    let match = accept_loop packages (split 0x2c accept) [] in
    if str_eq accept [] then [] else match

unfoldable pub response_content_type : Packages → ObservedResponse → Bytes
response_content_type packages response =
    if str_eq response.content_type []
    then header packages.equal_fold response.headers (codes "content-type")
    else response.content_type

abbrev pub content_type_rule : Bytes → Score → Score
content_type_rule [] s = s
content_type_rule (c ∷ ct) s = record {
  confidence = content_type_confidence;
  reason = append_reason s.reason (codes "content-type:" ++ c ∷ ct);
}

abbrev pub boosted : ℕ → ℕ
boosted c = let sum = double_sum c path_heuristic_boost in if ltb one sum then one else sum

abbrev pub path_rule : Bool → Score → Score
path_rule false s = s
path_rule true s = record {
  confidence = boosted s.confidence;
  reason = append_reason s.reason (codes "path-heuristic");
}

unfoldable pub is_method_signal : Bytes → Bool
is_method_signal upper =
    str_eq upper (codes "POST")
    || str_eq upper (codes "PUT")
    || str_eq upper (codes "PATCH")
    || str_eq upper (codes "DELETE")

abbrev pub method_rule : Bytes → Score → Score
method_rule upper s =
    if is_method_signal upper then signal http_method_confidence (codes "method:" ++ upper) s else s

abbrev opens_json : Option ℕ → Bool
opens_json none = false
opens_json (some b) = b == 0x7b || b == 0x5b

-- An empty body has no first byte.
unfoldable pub is_json_body : Bytes → Bool
is_json_body body = opens_json (first_non_space body)

abbrev pub body_rule : Bytes → Score → Score
body_rule body s =
    if is_json_body body then signal json_body_confidence (codes "response-structure:json") s else s

-- The variable `signal` of rule 6.
unfoldable pub request_signal : Packages → ObservedRequest → Bytes → Bytes
request_signal packages req rule2_ct =
    let accept =
      accept_signals_api packages (header packages.equal_fold req.headers (codes "accept")) in
    let ct =
      match_api_content_type packages
        (header packages.equal_fold req.headers (codes "content-type")) in
    if not (str_eq accept [])
    then codes "accept:" ++ accept
    else if not (str_eq ct []) && not (str_eq ct rule2_ct)
    then codes "content-type:" ++ ct
    else []

abbrev pub request_rule : Bool → Bytes → Score → Score
request_rule is_api sig s =
    if is_api && not (str_eq sig [])
    then signal request_signal_confidence (codes "request-signal:" ++ sig) s
    else s

abbrev pub static_js_floor : ObservedRequest → Bool → Score → Score
static_js_floor req is_api s =
    if is_api && ltb s.confidence static_js_confidence && is_js_static_source req.source
    then record {
      confidence = static_js_confidence;
      reason = append_reason s.reason (codes "static-js-candidate");
    }
    else s

-- The rules in order, on the path in lower case.
unfoldable pub rest_score : Packages → ObservedRequest → Bytes → Score
rest_score packages req lower_path =
    let is_api = path_is_api lower_path in
    let rule2_ct = match_api_content_type packages (response_content_type packages req.response) in
    static_js_floor req is_api (
      request_rule is_api (request_signal packages req rule2_ct) (
        body_rule req.response.body (
          method_rule (packages.to_upper req.method)
            (path_rule is_api (content_type_rule rule2_ct no_score)))))

abbrev rest_of_url : Packages → ObservedRequest → Option ParsedUrl → Verdict
rest_of_url packages req none = rejected
rest_of_url packages req (some u) =
    let lower_path = packages.to_lower u.path in
    if is_static_asset lower_path then rejected else verdict_of (rest_score packages req lower_path)

unfoldable pub classify_rest : Packages → ObservedRequest → Verdict
classify_rest packages req = rest_of_url packages req (packages.parse_url req.url)
