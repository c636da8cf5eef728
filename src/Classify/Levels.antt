-- ===== src/Classify/Levels.antt =====
-- The verdicts of the classifiers of pkg/classify as the greatest level of the signals that fire.
use vespasian.Prelude.{
  ℕ, Bool, true, false, not, ◌&&◌, ◌||◌, Option, none, some, [], ◌≡◌, refl, ap, arith, Bytes, ltb,
  str_eq, codes, Option-cases, if◌then◌else◌, inl, inr,
}
use vespasian.Packages.{Packages, ParsedUrl}
use vespasian.Classify.Requests.{
  ObservedRequest, Verdict, Score, no_score, is_static_file, is_js_static_source, verdict_of,
  rejected,
}
use vespasian.Classify.Running.{Kind, classify_detail}
use vespasian.Classify.Rest.{
  classify_rest, rest_score, is_static_asset, path_is_api, match_api_content_type,
  response_content_type, is_method_signal, is_json_body, request_signal,
}
use vespasian.Classify.Rest.Levels.{greater, if_fired, rest_level, rest_score_level}
use vespasian.Classify.Graphql.{
  classify_graphql, graphql_score, is_graphql_path, is_graphql_post, is_graphql_response,
  graphql_path_confidence, graphql_body_confidence, graphql_response_confidence,
  graphql_full_match_confidence, classify_graphql_body, response_rule,
}
use vespasian.Classify.Grpc.{
  classify_grpc, has_grpc_content_type, get_content_type, has_grpc_trailer_header, has_grpc_path,
  grpc_content_type_confidence, grpc_trailer_confidence, grpc_path_confidence,
  grpc_content_type_trailer_confidence,
}
use vespasian.Classify.Wsdl.{
  classify_wsdl, wsdl_score, has_soap_action, has_soap_envelope, is_wsdl_url, is_soap_content_type,
  is_feed, soap_action_confidence, soap_confidence, soap_content_type_confidence, feed_confidence,
  action_rule, signal_if, feed_rule,
}

abbrev pub graphql_level : Bool → Bool → Bool → ℕ
graphql_level is_path is_post is_response =
    greater
      (greater
        (greater (if_fired is_path graphql_path_confidence)
          (if_fired is_post graphql_body_confidence))
        (if_fired (is_path && is_post) graphql_full_match_confidence))
      (if_fired ((is_path || is_post) && is_response) graphql_response_confidence)

graphql_score_level :
    (packages : Packages) (req : ObservedRequest) (path : Bytes)
    → (graphql_score packages req path).confidence
      ≡ graphql_level
          (is_graphql_path path)
          (is_graphql_post packages req)
          (is_graphql_response packages req.response)
unfolding graphql_score classify_graphql_body response_rule
graphql_score_level packages req path = ground arith

abbrev pub grpc_level : Bool → Bool → Bool → ℕ
grpc_level is_type is_trailer is_path =
    greater
      (greater
        (greater (if_fired is_type grpc_content_type_confidence)
          (if_fired is_trailer grpc_trailer_confidence))
        (if_fired is_path grpc_path_confidence))
      (if_fired (is_type && is_trailer) grpc_content_type_trailer_confidence)

abbrev pub wsdl_level : Bool → Bool → Bool → Bool → Bool → ℕ
wsdl_level is_action is_envelope is_url is_type feed =
    if is_type && feed && not (is_action || is_envelope || is_url)
    then feed_confidence
    else greater
        (greater
          (greater (if_fired is_action soap_action_confidence)
            (if_fired is_envelope soap_confidence))
          (if_fired is_url soap_confidence))
        (if_fired is_type soap_content_type_confidence)

wsdl_rules_level :
    (a e u c f : Bool)
    → (feed_rule f (
        signal_if c soap_content_type_confidence (codes "soap-content-type") (
          signal_if u soap_confidence (codes "wsdl-url") (
            signal_if e soap_confidence
              (codes "soap-envelope")
              (action_rule a no_score))))).confidence
      ≡ wsdl_level a e u c f
unfolding str_eq
wsdl_rules_level a e u c f = ground arith

wsdl_score_level :
    (packages : Packages) (req : ObservedRequest) (u : ParsedUrl)
    → (wsdl_score packages req u).confidence
      ≡ wsdl_level
          (has_soap_action packages req)
          (has_soap_envelope req.body)
          (is_wsdl_url packages u)
          (is_soap_content_type packages req.response.content_type)
          (is_feed req.response.body)
unfolding wsdl_score
wsdl_score_level packages req u =
    wsdl_rules_level (has_soap_action packages req) (has_soap_envelope req.body)
      (is_wsdl_url packages u) (is_soap_content_type packages req.response.content_type)
      (is_feed req.response.body)

abbrev pub rest_flags_level : Packages → ObservedRequest → Bytes → ℕ
rest_flags_level packages req path =
    let ct = match_api_content_type packages (response_content_type packages req.response) in
    rest_level (not (str_eq ct [])) (path_is_api path)
      (is_method_signal (packages.to_upper req.method)) (is_json_body req.response.body)
      (not (str_eq (request_signal packages req ct) [])) (is_js_static_source req.source)

-- The level of a request for a classifier: what its signals add up to, however they are computed
-- rule by rule. The gRPC classifier alone reads a request whose URL does not parse, and one for a
-- static file.
abbrev pub level : Packages → Kind → ObservedRequest → Option ParsedUrl → ℕ
level packages Kind.rest req none = 0
level packages Kind.rest req (some u) =
    if is_static_asset (packages.to_lower u.path)
    then 0
    else rest_flags_level packages req (packages.to_lower u.path)
level packages Kind.graphql req none = 0
level packages Kind.graphql req (some u) =
    if is_static_file (packages.to_lower u.path)
    then 0
    else graphql_level (is_graphql_path (packages.to_lower u.path)) (is_graphql_post packages req)
        (is_graphql_response packages req.response)
level packages Kind.grpc req _ =
    grpc_level
      (has_grpc_content_type packages (get_content_type packages req.headers)
        || has_grpc_content_type packages req.response.content_type)
      (has_grpc_trailer_header packages req.response.headers) (has_grpc_path packages req)
level packages Kind.wsdl req none = 0
level packages Kind.wsdl req (some u) =
    if is_static_file (packages.to_lower u.path)
    then 0
    else wsdl_level (has_soap_action packages req) (has_soap_envelope req.body)
        (is_wsdl_url packages u) (is_soap_content_type packages req.response.content_type)
        (is_feed req.response.body)

HasLevel : Verdict → ℕ → Type 0
HasLevel v l = (v.score ≡ l) × (v.accepted ≡ ltb 0 l)

HasLevel-rejected :
    (b : Bool) (s : Score) (l : ℕ)
    → s.confidence ≡ l
    → HasLevel (if b then rejected else verdict_of s) (if b then 0 else l)
unfolding HasLevel
HasLevel-rejected true s l h = (refl, refl)
HasLevel-rejected false s l h = (h, ap (ltb 0) h)

grpc-HasLevel :
    (packages : Packages) (req : ObservedRequest) (o : Option ParsedUrl)
    → HasLevel (classify_grpc packages req) (level packages Kind.grpc req o)
unfolding classify_grpc HasLevel
grpc-HasLevel packages req o = ground arith

-- The confidence that each of the four classifiers gives to a request is the greatest of the
-- levels of the signals that fire (for SOAP lowered to that of a feed if the content type of a
-- feed is the only signal; for REST 0.8 and 0.15 are added if both fire), and 0 for a URL that
-- does not parse or a static file, which only the gRPC classifier reads all the same; the request
-- is accepted exactly if it is more than 0.
pub classify_detail_lem :
    (packages : Packages) (kind : Kind) (req : ObservedRequest)
    → ((classify_detail packages kind req).score
        ≡ level packages kind req (packages.parse_url req.url))
      × ((classify_detail packages kind req).accepted
          ≡ ltb 0 (level packages kind req (packages.parse_url req.url)))
unfolding classify_rest classify_graphql classify_wsdl HasLevel
classify_detail_lem packages Kind.grpc req = grpc-HasLevel packages req (packages.parse_url req.url)
classify_detail_lem packages Kind.rest req = elim (Option-cases (packages.parse_url req.url)) [
  | inl e ↦ rw e (refl, refl)
  | inr (u, e) ↦
      let path = packages.to_lower u.path in
      rw e (
        HasLevel-rejected (is_static_asset path) (rest_score packages req path) _
          (rest_score_level packages req path))
]
classify_detail_lem packages Kind.graphql req = elim (Option-cases (packages.parse_url req.url)) [
  | inl e ↦ rw e (refl, refl)
  | inr (u, e) ↦
      let path = packages.to_lower u.path in
      rw e (
        HasLevel-rejected (is_static_file path) (graphql_score packages req path) _
          (graphql_score_level packages req path))
]
classify_detail_lem packages Kind.wsdl req = elim (Option-cases (packages.parse_url req.url)) [
  | inl e ↦ rw e (refl, refl)
  | inr (u, e) ↦ rw e (
      HasLevel-rejected (is_static_file (packages.to_lower u.path)) (wsdl_score packages req u) _
        (wsdl_score_level packages req u))
]
