-- ===== src/Classify/Rest/Levels.antt =====
-- The confidence of the REST classifier of pkg/classify/rest.go as the greatest of its rules'.
use vespasian.Prelude.{
  ℕ, Bool, true, false, not, ◌&&◌, [], ◌∷◌, ◌≡◌, refl, ap, ◌∙◌, arith, Bytes, ltb, str_eq,
  if◌then◌else◌,
}
use vespasian.Packages.{Packages}
use vespasian.Classify.Requests.{ObservedRequest, Score, is_js_static_source, no_score, double_sum}
use vespasian.Classify.Rest.{
  content_type_confidence, http_method_confidence, json_body_confidence, request_signal_confidence,
  static_js_confidence, path_is_api, match_api_content_type, response_content_type,
  is_method_signal, is_json_body, request_signal, rest_score, content_type_rule, path_rule,
  method_rule, body_rule, request_rule, static_js_floor,
}

-- `0.15`, and the rounded sum of 0.8 and 0.15.
abbrev pub path_alone : ℕ
path_alone = 5404319552844595

abbrev pub type_and_path : ℕ
type_and_path = 34227357168015772

abbrev from_type_and_path : Bool → Bool → ℕ
from_type_and_path true true = type_and_path
from_type_and_path true false = content_type_confidence
from_type_and_path false true = path_alone
from_type_and_path false false = 0

abbrev pub greater : ℕ → ℕ → ℕ
greater a b = if ltb a b then b else a

abbrev pub if_fired : Bool → ℕ → ℕ
if_fired fired level = if fired then level else 0

abbrev pub rest_level : Bool → Bool → Bool → Bool → Bool → Bool → ℕ
rest_level has_type is_api has_method has_json asks is_js =
    greater
      (greater
        (greater
          (greater (from_type_and_path has_type is_api)
            (if_fired has_method http_method_confidence))
          (if_fired has_json json_body_confidence))
        (if_fired (is_api && asks) request_signal_confidence))
      (if_fired (is_api && is_js) static_js_confidence)

content_type_level :
    (ct : Bytes)
    → (content_type_rule ct no_score).confidence
      ≡ if_fired (not (str_eq ct [])) content_type_confidence
unfolding str_eq
content_type_level [] = refl
content_type_level (c ∷ ct) = refl

path_level :
    (b c : Bool) (s : Score)
    → s.confidence ≡ if_fired c content_type_confidence
    → (path_rule b s).confidence ≡ from_type_and_path c b
unfolding double_sum
path_level true true s h = rw h refl
path_level true false s h = rw h refl
path_level false true s h = h
path_level false false s h = h

method_level :
    (upper : Bytes) (s : Score)
    → (method_rule upper s).confidence
      ≡ greater s.confidence (if_fired (is_method_signal upper) http_method_confidence)
method_level upper s = ground arith

body_level :
    (body : Bytes) (s : Score)
    → (body_rule body s).confidence
      ≡ greater s.confidence (if_fired (is_json_body body) json_body_confidence)
body_level body s = ground arith

request_level :
    (is_api : Bool) (sig : Bytes) (s : Score)
    → (request_rule is_api sig s).confidence
      ≡ greater s.confidence (if_fired (is_api && not (str_eq sig [])) request_signal_confidence)
request_level is_api sig s = ground arith

floor_level :
    (req : ObservedRequest) (is_api : Bool) (s : Score)
    → (static_js_floor req is_api s).confidence
      ≡ greater s.confidence
          (if_fired (is_api && is_js_static_source req.source) static_js_confidence)
floor_level req is_api s = ground arith

pub rest_score_level :
    (packages : Packages) (req : ObservedRequest) (path : Bytes)
    → (rest_score packages req path).confidence
      ≡ rest_level
          (not (
            str_eq
              (match_api_content_type packages (response_content_type packages req.response))
              []))
          (path_is_api path)
          (is_method_signal (packages.to_upper req.method))
          (is_json_body req.response.body)
          (not (
            str_eq
              (request_signal packages req
                (match_api_content_type packages (response_content_type packages req.response)))
              []))
          (is_js_static_source req.source)
unfolding rest_score
rest_score_level packages req path =
    let ct = match_api_content_type packages (response_content_type packages req.response) in
    let sig = request_signal packages req ct in
    let upper = packages.to_upper req.method in
    let is_api = path_is_api path in
    let typed = content_type_rule ct no_score in
    let tried = path_rule is_api typed in
    let sent = method_rule upper tried in
    let answered = body_rule req.response.body sent in
    floor_level req is_api (request_rule is_api sig answered)
    ∙ ap (λ c. greater c (if_fired (is_api && is_js_static_source req.source) static_js_confidence))
        (request_level is_api sig answered
          ∙ ap (λ c. greater c (if_fired (is_api && not (str_eq sig [])) request_signal_confidence))
              (body_level req.response.body sent
                ∙ ap
                    (λ c.
                      greater c (if_fired (is_json_body req.response.body) json_body_confidence))
                    (method_level upper tried
                      ∙ ap
                          (λ c.
                            greater c (if_fired (is_method_signal upper) http_method_confidence))
                          (path_level is_api (not (str_eq ct [])) typed (content_type_level ct)))))
