-- ===== src/Classify/Running.antt =====
-- The classifiers of pkg/classify as values of the interface APIClassifier, and RunClassifiers.
use vespasian.Prelude.{
  ℕ, Bool, true, false, ◌&&◌, List, [], ◌∷◌, ◌++◌, Option, none, some, Bytes, codes, ltb, leb,
  length, if◌then◌else◌,
}
use vespasian.Packages.{Packages}
use vespasian.Classify.Requests.{ObservedRequest, ClassifiedRequest, Verdict}
use vespasian.Classify.Rest.{classify_rest}
use vespasian.Classify.Graphql.{classify_graphql}
use vespasian.Classify.Grpc.{classify_grpc}
use vespasian.Classify.Wsdl.{classify_wsdl}
use vespasian.Classify.Merging.{set_true}

-- An `APIClassifier`; `detail` is the method of those that are a `DetailedClassifier` too.
pub record ApiClassifier : Type 0 where
  pub name : Bytes
  pub classify : ObservedRequest → Bool × ℕ
  pub detail : Option (ObservedRequest → Verdict)

pub data Kind : Type 0 where
  rest graphql grpc wsdl : Kind

abbrev pub name_of : Kind → Bytes
name_of rest = codes "rest"
name_of graphql = codes "graphql"
name_of grpc = codes "grpc"
name_of wsdl = codes "wsdl"

-- `ClassifyDetail`.
abbrev pub classify_detail : Packages → Kind → ObservedRequest → Verdict
classify_detail packages rest = classify_rest packages
classify_detail packages graphql = classify_graphql packages
classify_detail packages grpc = classify_grpc packages
classify_detail packages wsdl = classify_wsdl packages

abbrev without_reason : Verdict → Bool × ℕ
without_reason v = (v.accepted, v.score)

abbrev pub classifier_of : Packages → Kind → ApiClassifier
classifier_of packages kind = record {
  name = name_of kind;
  classify = λ req. without_reason (classify_detail packages kind req);
  detail = some (classify_detail packages kind);
}

-- Without `ClassifyDetail` the reason names the classifier.
abbrev undetailed : Bytes → Bool × ℕ → Verdict
undetailed name (is_api, confidence) = record {
  accepted = is_api;
  score = confidence;
  why = codes "classified by " ++ name;
}

abbrev verdict_by : ApiClassifier → Option (ObservedRequest → Verdict) → ObservedRequest → Verdict
verdict_by c none req = undetailed c.name (c.classify req)
verdict_by c (some detail) req = detail req

abbrev pub verdict_on : ObservedRequest → ApiClassifier → Verdict
verdict_on req c = verdict_by c c.detail req

-- The keys of a query that hold more than one value.
unfoldable pub multi_value_keys : List (Bytes × List Bytes) → List (Bytes × Bool)
multi_value_keys [] = []
multi_value_keys ((k, vs) ∷ params) =
    let rest = multi_value_keys params in if ltb 1 (length vs) then set_true k rest else rest

abbrev query_keys : Option (List (Bytes × List Bytes)) → List (Bytes × Bool)
query_keys none = []
query_keys (some params) = multi_value_keys params

abbrev pub unclassified : ObservedRequest → ClassifiedRequest
unclassified req = record {
  request = req;
  is_api = false;
  confidence = 0;
  reason = [];
  api_type = [];
  multi_value_query_keys = some (query_keys req.query_params);
}

abbrev pub with_verdict : ApiClassifier → Verdict → ClassifiedRequest → ClassifiedRequest
with_verdict c v best =
    if v.accepted && ltb best.confidence v.score
    then record {
      request = best.request;
      is_api = true;
      confidence = v.score;
      reason = v.why;
      api_type = c.name;
      multi_value_query_keys = best.multi_value_query_keys;
    }
    else best

unfoldable pub best_match :
    List ApiClassifier → ObservedRequest → ClassifiedRequest → ClassifiedRequest
best_match [] req best = best
best_match (c ∷ classifiers) req best =
    best_match classifiers req (with_verdict c (verdict_on req c) best)

-- The threshold, like a confidence, is in units of 2 ^ -55.
unfoldable pub run_classifiers :
    List ApiClassifier → List ObservedRequest → ℕ → List ClassifiedRequest
run_classifiers classifiers [] threshold = []
run_classifiers classifiers (req ∷ requests) threshold =
    let best = best_match classifiers req (unclassified req) in
    let results = run_classifiers classifiers requests threshold in
    if leb threshold best.confidence then best ∷ results else results
