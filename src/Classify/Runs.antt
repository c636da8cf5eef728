-- ===== src/Classify/Runs.antt =====
-- Runs of the classifiers, of RunClassifiers and of Deduplicate of pkg/classify, and their theorems
-- at concrete inputs.
use mathlib.Core.List.{Permᴰ}
use vespasian.Prelude.{
  ◌≤◌, true, List, [], ◌∷◌, map, none, some, ◌≡◌, refl, Bytes, codes, ltb, str_eq, str_lt,
}
use vespasian.Prelude.Int.{pos}
use vespasian.Prelude.Parts.{split, contains}
use vespasian.Prelude.Search.{includes, before_byte}
use vespasian.Packages.Samples.{samples}
use vespasian.Mediatype.{base, header, match_loop}
use vespasian.Classify.Responses.{
  ObservedResponse, preferred_response, response_populated, compare_responses,
}
use vespasian.Classify.Requests.{
  ObservedRequest, ClassifiedRequest, is_static_file, first_non_space, double_sum,
}
use vespasian.Classify.Running.{Kind, classify_detail, classifier_of, run_classifiers}
use vespasian.Classify.Rest.{
  classify_rest, rest_score, is_static_asset, path_is_api, has_version_segment,
  match_api_content_type, accept_loop, accept_signals_api, response_content_type, is_method_signal,
  is_json_body, request_signal,
}
use vespasian.Classify.Graphql.{
  classify_graphql, graphql_score, is_graphql_post, has_graphql_body, looks_like_graphql,
  is_graphql_response, has_graphql_content_type, has_graphql_response_structure,
  classify_graphql_body, response_rule,
}
use vespasian.Classify.Levels.{level, classify_detail_lem}
use vespasian.Classify.Late.{without_response, without_response_lem}
use vespasian.Classify.Winners.{Results, run_classifiers-Results}
use vespasian.Classify.Merging.Distinct.{firsts}
use vespasian.Classify.Merging.{merge_unique_ordered, merge_loop, merge_multi_value_keys, set_keys}
use vespasian.Classify.Dedup.{
  dedup_key, deduplicate, dedup_loop, observe, absorb, merge_entry, merge_query_params,
  is_better_entry, get_soap_action,
}
use vespasian.Classify.Dedup.Groups.{collect, deduplicate-groups}
use vespasian.Classify.Dedup.OrderFree.{labelled, deduplicate-Permᴰ}

abbrev no_answer : ObservedResponse
no_answer = record { status_code = pos 0; headers = []; content_type = []; body = [] }

abbrev json_answer : ObservedResponse
json_answer = record {
  status_code = pos 200;
  headers = [];
  content_type = codes "application/json; charset=utf-8";
  body = codes " {}";
}

abbrev request_for : Bytes → Bytes → Bytes → ObservedResponse → ObservedRequest
request_for method url body response = record {
  method = method;
  url = url;
  headers = [];
  query_params = some ((codes "tag", codes "a" ∷ codes "b" ∷ []) ∷ []);
  body = body;
  response = response;
  source = codes "crawl";
  tag = [];
  attribute = [];
  page_url = [];
}

-- A query by POST whose answer is JSON.
abbrev graphql_request : ObservedRequest
graphql_request = request_for (codes "POST") (codes "http://h/graphql") (codes "{}") json_answer

-- By rounding, the REST classifier gives 0.8 + 0.15 more than 0.95, which is all that the GraphQL
-- classifier gives.
rest-beats-graphql :
    ltb
      (classify_detail samples Kind.graphql graphql_request).score
      (classify_detail samples Kind.rest graphql_request).score
    ≡ true
unfolding classify_rest classify_graphql is_static_file is_static_asset before_byte str_eq includes
    graphql_score response_rule classify_graphql_body is_graphql_post has_graphql_body
    looks_like_graphql is_graphql_response has_graphql_content_type has_graphql_response_structure
    contains first_non_space rest_score double_sum path_is_api has_version_segment
    match_api_content_type base header match_loop accept_loop accept_signals_api split
    response_content_type is_method_signal is_json_body request_signal
rest-beats-graphql = refl

classify_detail_lem_example :
    ((classify_detail samples Kind.rest graphql_request).score
      ≡ level samples Kind.rest graphql_request (samples.parse_url graphql_request.url))
    × ((classify_detail samples Kind.rest graphql_request).accepted
        ≡ ltb 0 (level samples Kind.rest graphql_request (samples.parse_url graphql_request.url)))
classify_detail_lem_example = classify_detail_lem samples Kind.rest graphql_request

without_response_lem_example :
    ((classify_detail samples Kind.graphql (without_response graphql_request)).score
      ≤ (classify_detail samples Kind.graphql graphql_request).score)
    × ((classify_detail samples Kind.graphql (without_response graphql_request)).accepted ≡ true
        → (classify_detail samples Kind.graphql graphql_request).accepted ≡ true)
without_response_lem_example = without_response_lem samples Kind.graphql graphql_request refl

run_classifiers-Results_example :
    Results
      (classifier_of samples Kind.graphql ∷ classifier_of samples Kind.rest ∷ [])
      1
      (graphql_request ∷ [])
      (run_classifiers
        (classifier_of samples Kind.graphql ∷ classifier_of samples Kind.rest ∷ [])
        (graphql_request ∷ [])
        1)
run_classifiers-Results_example =
    run_classifiers-Results
      (classifier_of samples Kind.graphql ∷ classifier_of samples Kind.rest ∷ [])
      (graphql_request ∷ []) 1

abbrev classified_request : ObservedRequest → Bytes → ClassifiedRequest
classified_request req why = record {
  request = req;
  is_api = true;
  confidence = 5;
  reason = why;
  api_type = codes "rest";
  multi_value_query_keys = some ((codes "tag", true) ∷ []);
}

-- Two observations of an endpoint and one of another.
abbrev first_seen : ClassifiedRequest
first_seen =
    classified_request (request_for (codes "GET") (codes "http://h/api/a?x=1") [] no_answer)
      (codes "m")

abbrev second_seen : ClassifiedRequest
second_seen =
    classified_request (request_for (codes "GET") (codes "http://h/api/a?x=2") [] json_answer)
      (codes "n")

abbrev other_seen : ClassifiedRequest
other_seen =
    classified_request (request_for (codes "GET") (codes "http://h/api/b") [] json_answer)
      (codes "m")

abbrev reasons : List ClassifiedRequest → List Bytes
reasons [] = []
reasons (c ∷ cs) = c.reason ∷ reasons cs

two_endpoints :
    reasons (deduplicate samples (first_seen ∷ other_seen ∷ second_seen ∷ []))
    ≡ codes "n" ∷ codes "m" ∷ []
unfolding deduplicate dedup_loop observe absorb dedup_key get_soap_action merge_entry
    is_better_entry before_byte str_eq str_lt merge_query_params merge_unique_ordered merge_loop
    contains merge_multi_value_keys set_keys preferred_response response_populated compare_responses
two_endpoints = refl

-- An observation whose URL does not parse is not merged: the first of them stays.
abbrev unparsed_first : ClassifiedRequest
unparsed_first =
    classified_request (request_for (codes "GET") (codes "http://h/ a") [] no_answer) (codes "m")

abbrev unparsed_second : ClassifiedRequest
unparsed_second =
    classified_request (request_for (codes "GET") (codes "http://h/ a") [] json_answer) (codes "n")

unparsed_stay :
    reasons (deduplicate samples (unparsed_first ∷ unparsed_second ∷ [])) ≡ codes "m" ∷ []
unfolding deduplicate dedup_loop observe absorb dedup_key str_eq
unparsed_stay = refl

deduplicate-groups_example :
    map (λ e. some e) (deduplicate samples (first_seen ∷ other_seen ∷ second_seen ∷ []))
    ≡ map
        (λ k. collect samples k (first_seen ∷ other_seen ∷ second_seen ∷ []) none)
        (firsts [] (map (dedup_key samples) (first_seen ∷ other_seen ∷ second_seen ∷ [])))
deduplicate-groups_example = deduplicate-groups samples (first_seen ∷ other_seen ∷ second_seen ∷ [])

deduplicate-Permᴰ_example :
    Permᴰ
      (map (labelled samples (codes "tag")) (deduplicate samples (first_seen ∷ second_seen ∷ [])))
      (map (labelled samples (codes "tag")) (deduplicate samples (second_seen ∷ first_seen ∷ [])))
deduplicate-Permᴰ_example =
    deduplicate-Permᴰ samples (codes "tag") (first_seen ∷ second_seen ∷ [])
      (second_seen ∷ first_seen ∷ []) (Permᴰ.swap refl refl) ((_, refl), ((_, refl), tt))
