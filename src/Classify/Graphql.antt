-- ===== src/Classify/Graphql.antt =====
-- pkg/classify/graphql.go: the classifier of GraphQL requests.
use vespasian.Prelude.{
  ℕ, Bool, true, false, not, ◌&&◌, ◌||◌, List, [], ◌∷◌, ◌++◌, Option, none, some, Bytes, codes, any,
  ltb, length, str_eq, if◌then◌else◌, ◌==◌,
}
use vespasian.Prelude.Parts.{has_prefix, contains}
use vespasian.Prelude.Search.{includes, before_byte}
use vespasian.Packages.{Packages, ParsedUrl, JsonField, string}
use vespasian.Classify.Responses.{ObservedResponse}
use vespasian.Classify.Requests.{
  ObservedRequest, Verdict, rejected, is_static_file, Score, no_score, at_least, signal,
  first_non_space, verdict_of,
}

-- The float64 values nearest to 0.7, 0.85, 0.8 and 0.95.
abbrev pub graphql_path_confidence : ℕ
graphql_path_confidence = 25220157913274776

abbrev pub graphql_body_confidence : ℕ
graphql_body_confidence = 30624477466119372

abbrev pub graphql_response_confidence : ℕ
graphql_response_confidence = 28823037615171176

abbrev pub graphql_full_match_confidence : ℕ
graphql_full_match_confidence = 34227357168015768

abbrev graphql_response_content_types : List Bytes
graphql_response_content_types =
    codes "application/json"
    ∷ codes "application/graphql+json"
    ∷ codes "application/graphql-response+json"
    ∷ []

abbrev graphql_prefixes : List Bytes
graphql_prefixes =
    codes "{" ∷ codes "query" ∷ codes "mutation" ∷ codes "subscription" ∷ codes "fragment" ∷ []

unfoldable pub looks_like_graphql : Packages → Bytes → Bool
looks_like_graphql packages s =
    let trimmed = packages.trim_space s in
    not (str_eq trimmed []) && any (has_prefix (packages.to_lower trimmed)) graphql_prefixes

abbrev pub field : Bytes → List (Bytes × JsonField) → Option JsonField
field k [] = none
field k ((j, v) ∷ obj) = let rest = field k obj in if str_eq j k then some v else rest

abbrev is_graphql_query : Packages → Option JsonField → Bool
is_graphql_query packages (some (string s)) = looks_like_graphql packages s
is_graphql_query packages _ = false

abbrev is_graphql_object : Packages → Option (List (Bytes × JsonField)) → Bool
is_graphql_object packages none = false
is_graphql_object packages (some obj) = is_graphql_query packages (field (codes "query") obj)

unfoldable pub has_graphql_body : Packages → Bytes → Bool
has_graphql_body packages body = is_graphql_object packages (packages.unmarshal body)

-- The headers are read in an order of iteration, up to the first that has the name.
abbrev header_value : (Bytes → Bool) → List (Bytes × Bytes) → Bytes
header_value is_name [] = []
header_value is_name ((k, v) ∷ headers) =
    let rest = header_value is_name headers in if is_name k then v else rest

abbrev without_parameters : Packages → Bytes → Bytes
without_parameters packages ct =
    if any (λ c. c == 0x3b) ct then packages.trim_space (before_byte 0x3b ct) else ct

unfoldable pub has_graphql_content_type : Packages → ObservedResponse → Bool
has_graphql_content_type packages resp =
    let given = packages.to_lower resp.content_type in
    let stored =
      packages.to_lower
        (header_value (λ k. packages.equal_fold k (codes "content-type")) resp.headers) in
    contains graphql_response_content_types
      (without_parameters packages (if str_eq given [] then stored else given))

abbrev opens_object : Option ℕ → Bool
opens_object none = false
opens_object (some b) = b == 0x7b

abbrev is_present : Option JsonField → Bool
is_present none = false
is_present (some _) = true

abbrev has_data_or_errors : Option (List (Bytes × JsonField)) → Bool
has_data_or_errors none = false
has_data_or_errors (some obj) =
    is_present (field (codes "data") obj) || is_present (field (codes "errors") obj)

unfoldable pub has_graphql_response_structure : Packages → Bytes → Bool
has_graphql_response_structure packages body =
    opens_object (first_non_space body) && has_data_or_errors (packages.unmarshal body)

abbrev pub is_graphql_path : Bytes → Bool
is_graphql_path lower_path = includes lower_path (codes "/graphql")

abbrev graphql_path_rule : Bool → Score → Score
graphql_path_rule false s = s
graphql_path_rule true s = record {
  confidence = graphql_path_confidence;
  reason = codes "graphql-path";
}

-- The condition of rule 3.
unfoldable pub is_graphql_post : Packages → ObservedRequest → Bool
is_graphql_post packages req =
    packages.equal_fold req.method (codes "POST")
    && ltb 0 (length req.body)
    && opens_object (first_non_space req.body)
    && has_graphql_body packages req.body

unfoldable pub classify_graphql_body : Packages → ObservedRequest → Bool → Score → Score
classify_graphql_body packages req path_matched s =
    if not (is_graphql_post packages req)
    then s
    else if path_matched
    then record {
      confidence = graphql_full_match_confidence;
      reason = codes "graphql-path+graphql-body";
    }
    else signal graphql_body_confidence (codes "graphql-body") s

unfoldable pub is_graphql_response : Packages → ObservedResponse → Bool
is_graphql_response packages resp =
    ltb 0 (length resp.body)
    && has_graphql_content_type packages resp
    && has_graphql_response_structure packages resp.body

unfoldable pub response_rule : Packages → ObservedResponse → Score → Score
response_rule packages resp s =
    if ltb 0 s.confidence && is_graphql_response packages resp
    then record {
      confidence = at_least graphql_response_confidence s.confidence;
      reason = s.reason ++ codes "+graphql-response";
    }
    else s

unfoldable pub graphql_score : Packages → ObservedRequest → Bytes → Score
graphql_score packages req lower_path =
    let path_matched = is_graphql_path lower_path in
    response_rule packages req.response
      (classify_graphql_body packages req path_matched (graphql_path_rule path_matched no_score))

abbrev graphql_of_url : Packages → ObservedRequest → Option ParsedUrl → Verdict
graphql_of_url packages req none = rejected
graphql_of_url packages req (some u) =
    let lower_path = packages.to_lower u.path in
    if is_static_file lower_path
    then rejected
    else verdict_of (graphql_score packages req lower_path)

unfoldable pub classify_graphql : Packages → ObservedRequest → Verdict
classify_graphql packages req = graphql_of_url packages req (packages.parse_url req.url)
