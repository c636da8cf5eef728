-- ===== src/Classify/Late.antt =====
-- A response that is captured too late does not raise the verdict of pkg/classify on its request.
use vespasian.Prelude.{
  ℕ, ◌≤◌, Bool, true, false, not, ◌||◌, [], ◌∷◌, Option, none, some, ◌≡◌, refl, arith, Bytes,
  str_eq, if◌then◌else◌,
}
use vespasian.Prelude.Int.{pos}
use vespasian.Packages.{Packages, ParsedUrl}
use vespasian.Mediatype.{header, base, match_loop}
use vespasian.Classify.Responses.{ObservedResponse}
use vespasian.Classify.Requests.{
  ObservedRequest, first_non_space, is_static_file, is_js_static_source,
}
use vespasian.Classify.Running.{Kind, classify_detail}
use vespasian.Classify.Rest.{
  request_signal, match_api_content_type, response_content_type, is_json_body, path_is_api,
  is_method_signal, is_static_asset,
}
use vespasian.Classify.Grpc.{
  has_grpc_content_type, has_grpc_trailer_header, get_content_type, has_grpc_path,
}
use vespasian.Classify.Rest.Levels.{rest_level}
use vespasian.Classify.Graphql.{is_graphql_response, is_graphql_post, is_graphql_path}
use vespasian.Classify.Wsdl.{
  is_soap_content_type, has_soap_action, has_soap_envelope, is_wsdl_url, is_feed,
}
use vespasian.Classify.Levels.{
  level, rest_flags_level, graphql_level, grpc_level, wsdl_level, classify_detail_lem,
}

abbrev pub no_response : ObservedResponse
no_response = record { status_code = pos 0; headers = []; content_type = []; body = [] }

-- The request with its response still missing.
abbrev pub without_response : ObservedRequest → ObservedRequest
without_response req = record {
  method = req.method;
  url = req.url;
  headers = req.headers;
  query_params = req.query_params;
  body = req.body;
  response = no_response;
  source = req.source;
  tag = req.tag;
  attribute = req.attribute;
  page_url = req.page_url;
}

rest_level_le :
    (t a m j x y s : Bool)
    → (x ≡ true → (t || y) ≡ true)
    → rest_level false a m false x s ≤ rest_level t a m j y s
rest_level_le t a m j x y s h = ground arith

graphql_level_le : (a b c : Bool) → graphql_level a b false ≤ graphql_level a b c
graphql_level_le a b c = ground arith

grpc_level_le : (a b t p : Bool) → grpc_level (a || false) false p ≤ grpc_level (a || b) t p
grpc_level_le a b t p = ground arith

wsdl_level_le : (a e u c f g : Bool) → wsdl_level a e u false g ≤ wsdl_level a e u c f
wsdl_level_le a e u c f g = ground arith

asks_still :
    (packages : Packages) (req : ObservedRequest) (ct : Bytes)
    → not (str_eq (request_signal packages req []) []) ≡ true
    → (not (str_eq ct []) || not (str_eq (request_signal packages req ct) [])) ≡ true
unfolding str_eq
asks_still packages req [] h = h
asks_still packages req (c ∷ ct) h = refl

no_api_type :
    (packages : Packages)
    → match_api_content_type packages (response_content_type packages no_response) ≡ []
unfolding match_api_content_type response_content_type base header match_loop str_eq
no_api_type packages = refl

signal_without_response :
    (packages : Packages) (req : ObservedRequest) (ct : Bytes)
    → request_signal packages (without_response req) ct ≡ request_signal packages req ct
unfolding request_signal
signal_without_response packages req ct = refl

rest_flags_le :
    (packages : Packages) (req : ObservedRequest) (path : Bytes)
    → rest_flags_level packages (without_response req) path ≤ rest_flags_level packages req path
unfolding is_json_body first_non_space str_eq
rest_flags_le packages req path =
    let ct = match_api_content_type packages (response_content_type packages req.response) in
    rw (no_api_type packages, signal_without_response packages req [])
      (rest_level_le (not (str_eq ct [])) (path_is_api path)
        (is_method_signal (packages.to_upper req.method)) (is_json_body req.response.body)
        (not (str_eq (request_signal packages req []) []))
        (not (str_eq (request_signal packages req ct) [])) (is_js_static_source req.source)
        (asks_still packages req ct))

graphql_none : (packages : Packages) → is_graphql_response packages no_response ≡ false
unfolding is_graphql_response
graphql_none packages = refl

grpc_none : (packages : Packages) → has_grpc_content_type packages [] ≡ false
unfolding has_grpc_content_type base str_eq
grpc_none packages = refl

soap_none :
    (packages : Packages) → packages.to_lower [] ≡ [] → is_soap_content_type packages [] ≡ false
unfolding is_soap_content_type str_eq
soap_none packages h = rw h refl

post_without_response :
    (packages : Packages) (req : ObservedRequest)
    → is_graphql_post packages (without_response req) ≡ is_graphql_post packages req
unfolding is_graphql_post
post_without_response packages req = refl

action_without_response :
    (packages : Packages) (req : ObservedRequest)
    → has_soap_action packages (without_response req) ≡ has_soap_action packages req
unfolding has_soap_action
action_without_response packages req = refl

path_without_response :
    (packages : Packages) (req : ObservedRequest)
    → has_grpc_path packages (without_response req) ≡ has_grpc_path packages req
unfolding has_grpc_path
path_without_response packages req = refl

unless_le : (b : Bool) (m n : ℕ) → m ≤ n → (if b then 0 else m) ≤ (if b then 0 else n)
unless_le b m n h = ground arith

level_le :
    (packages : Packages) (kind : Kind) (req : ObservedRequest) (o : Option ParsedUrl)
    → packages.to_lower [] ≡ []
    → level packages kind (without_response req) o ≤ level packages kind req o
unfolding has_grpc_trailer_header
level_le packages Kind.rest req none h = omega arith
level_le packages Kind.rest req (some u) h =
    unless_le (is_static_asset (packages.to_lower u.path)) _ _
      (rest_flags_le packages req (packages.to_lower u.path))
level_le packages Kind.graphql req none h = omega arith
level_le packages Kind.graphql req (some u) h =
    rw (graphql_none packages, post_without_response packages req)
      (unless_le (is_static_file (packages.to_lower u.path)) _ _ (
        graphql_level_le (is_graphql_path (packages.to_lower u.path)) (is_graphql_post packages req)
          (is_graphql_response packages req.response)))
level_le packages Kind.grpc req o h =
    rw (grpc_none packages, path_without_response packages req)
      (grpc_level_le (has_grpc_content_type packages (get_content_type packages req.headers))
        (has_grpc_content_type packages req.response.content_type)
        (has_grpc_trailer_header packages req.response.headers) (has_grpc_path packages req))
level_le packages Kind.wsdl req none h = omega arith
level_le packages Kind.wsdl req (some u) h =
    rw (soap_none packages h, action_without_response packages req)
      (unless_le (is_static_file (packages.to_lower u.path)) _ _ (
        wsdl_level_le (has_soap_action packages req) (has_soap_envelope req.body)
          (is_wsdl_url packages u) (is_soap_content_type packages req.response.content_type)
          (is_feed req.response.body) (is_feed [])))

-- No classifier gives a request whose response is still missing more confidence than with any
-- response, and none accepts it that rejects it with the response; if the lower case of the empty
-- text is empty.
pub without_response_lem :
    (packages : Packages) (kind : Kind) (req : ObservedRequest)
    → packages.to_lower [] ≡ []
    → ((classify_detail packages kind (without_response req)).score
        ≤ (classify_detail packages kind req).score)
      × ((classify_detail packages kind (without_response req)).accepted ≡ true
          → (classify_detail packages kind req).accepted ≡ true)
without_response_lem packages kind req h =
    let less = level_le packages kind req (packages.parse_url req.url) h in
    let (s, a) = classify_detail_lem packages kind req in
    let (t, b) = classify_detail_lem packages kind (without_response req) in
    (rw (s, t) less, λ k. ground (arith, a, b, less, k))
