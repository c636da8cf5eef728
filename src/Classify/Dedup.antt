-- ===== src/Classify/Dedup.antt =====
-- Deduplicate of pkg/classify/classifier.go: its keys, and the merging of the observations of a key.
pub mod Groups
pub mod Outcomes
pub mod OrderFree
use vespasian.Prelude.{
  ℕ, zero, suc, ◌-◌, Bool, true, false, not, ◌&&◌, ◌||◌, List, [], ◌∷◌, ◌++◌, map, Option, none,
  some, Bytes, codes, length, ltb, leb, str_eq, str_lt, if◌then◌else◌, ◌==◌,
}
use vespasian.Prelude.Parts.{has_prefix}
use vespasian.Packages.{Packages, ParsedUrl}
use vespasian.Mediatype.{base}
use vespasian.Classify.Responses.{preferred_response}
use vespasian.Classify.Requests.{ObservedRequest, ClassifiedRequest}
use vespasian.Classify.Grpc.{get_content_type}
use vespasian.Classify.Merging.{merge_unique_ordered, merge_multi_value_keys}

-- `bytes.ReplaceAll` for a text that is not empty; the number is that of the bytes to skip.
unfoldable pub replace_from : Bytes → Bytes → ℕ → Bytes → Bytes
replace_from old new skip [] = []
replace_from old new (suc skip) (c ∷ s) = replace_from old new skip s
replace_from old new zero (c ∷ s) =
    let hit = has_prefix (c ∷ s) old in
    (if hit then new else c ∷ []) ++ replace_from old new (if hit then length old - 1 else 0) s

-- `strings.Trim` of one byte.
abbrev trim_start : ℕ → Bytes → Bytes
trim_start q [] = []
trim_start q (c ∷ s) = let rest = trim_start q s in if c == q then rest else c ∷ s

abbrev unless_last : ℕ → ℕ → Bytes → Bytes
unless_last q c [] = if c == q then [] else c ∷ []
unless_last q c (d ∷ s) = c ∷ d ∷ s

abbrev trim_end : ℕ → Bytes → Bytes
trim_end q [] = []
trim_end q (c ∷ s) = unless_last q c (trim_end q s)

unfoldable pub get_soap_action : Packages → List (Bytes × Bytes) → Bytes
get_soap_action packages [] = []
get_soap_action packages ((k, v) ∷ headers) =
    let rest = get_soap_action packages headers in
    if packages.equal_fold k (codes "soapaction") then trim_end 0x22 (trim_start 0x22 v) else rest

abbrev without_boundary : Option Bytes → Bytes → Bytes
without_boundary none body = body
without_boundary (some boundary) body =
    if leb 4 (length boundary) then replace_from boundary (codes "BOUNDARY") 0 body else body

abbrev fingerprint_body : Packages → Bytes → Bytes → Bytes
fingerprint_body packages ct body =
    if str_eq ct [] then body else without_boundary (packages.form_boundary ct) body

abbrev body_key : Packages → Bytes → Bytes → Bytes
body_key packages ct [] = []
body_key packages ct (c ∷ body) =
    (if str_eq ct [] then [] else codes ":" ++ base packages ct)
    ++ (codes ":" ++ packages.body_hash (fingerprint_body packages ct (c ∷ body)))

abbrev action_key : Bytes → Bytes
action_key [] = []
action_key (c ∷ sa) = codes ":" ++ c ∷ sa

abbrev key_of_url : Packages → ObservedRequest → Option ParsedUrl → Bytes
key_of_url packages req none = req.method ++ (codes ":" ++ req.url)
key_of_url packages req (some u) =
    req.method
    ++ (codes ":"
        ++ (u.path
            ++ (action_key (get_soap_action packages req.headers)
                ++ body_key packages (get_content_type packages req.headers) req.body)))

unfoldable pub dedup_key : Packages → ClassifiedRequest → Bytes
dedup_key packages c = key_of_url packages c.request (packages.parse_url c.request.url)

-- `existing[k] = MergeUniqueOrdered(existing[k], vs)`.
abbrev set_param : Bytes → List Bytes → List (Bytes × List Bytes) → List (Bytes × List Bytes)
set_param k vs [] = (k, merge_unique_ordered [] vs) ∷ []
set_param k vs ((j, ws) ∷ params) =
    let rest = set_param k vs params in
    if str_eq j k then (j, merge_unique_ordered ws vs) ∷ params else (j, ws) ∷ rest

abbrev set_params :
    List (Bytes × List Bytes) → List (Bytes × List Bytes) → List (Bytes × List Bytes)
set_params params [] = params
set_params params ((k, vs) ∷ more) = set_params (set_param k vs params) more

unfoldable pub merge_query_params :
    Option (List (Bytes × List Bytes))
    → Option (List (Bytes × List Bytes))
    → Option (List (Bytes × List Bytes))
merge_query_params params none = params
merge_query_params none (some more) = some (set_params [] more)
merge_query_params (some params) (some more) = some (set_params params more)

unfoldable pub is_better_entry : ClassifiedRequest → ClassifiedRequest → Bool
is_better_entry req existing =
    ltb existing.confidence req.confidence
    || req.confidence == existing.confidence
      && (if not (str_eq req.api_type existing.api_type)
          then str_lt existing.api_type req.api_type
          else str_lt existing.reason req.reason)

abbrev merge_request : ObservedRequest → ObservedRequest → ObservedRequest
merge_request existing req = record {
  method = existing.method;
  url = existing.url;
  headers = existing.headers;
  query_params = merge_query_params existing.query_params req.query_params;
  body = existing.body;
  response = preferred_response existing.response req.response;
  source = existing.source;
  tag = existing.tag;
  attribute = existing.attribute;
  page_url = existing.page_url;
}

unfoldable pub merge_entry : ClassifiedRequest → ClassifiedRequest → ClassifiedRequest
merge_entry existing req =
    let better = is_better_entry req existing in
    record {
      request = merge_request existing.request req.request;
      is_api = existing.is_api;
      confidence = if better then req.confidence else existing.confidence;
      reason = if better then req.reason else existing.reason;
      api_type = if better then req.api_type else existing.api_type;
      multi_value_query_keys =
          merge_multi_value_keys existing.multi_value_query_keys req.multi_value_query_keys;
    }

-- The query parameters are copied: here they are values.
abbrev pub entry_copy : ClassifiedRequest → ClassifiedRequest
entry_copy req = record {
  request = req.request;
  is_api = req.is_api;
  confidence = req.confidence;
  reason = req.reason;
  api_type = req.api_type;
  multi_value_query_keys = merge_multi_value_keys none req.multi_value_query_keys;
}

-- The entry of a key after one more observation, which an unparseable URL does not change.
abbrev absorb_url :
    Option ParsedUrl → Option ClassifiedRequest → ClassifiedRequest → ClassifiedRequest
absorb_url none none req = req
absorb_url none (some existing) req = existing
absorb_url (some u) none req = entry_copy req
absorb_url (some u) (some existing) req = merge_entry existing req

unfoldable pub absorb : Packages → Option ClassifiedRequest → ClassifiedRequest → ClassifiedRequest
absorb packages entry req = absorb_url (packages.parse_url req.request.url) entry req

-- `seen` and `order`: the entries by their keys, in the order of the first observations.
abbrev pub Entries : Type 0
Entries = List (Bytes × ClassifiedRequest)

unfoldable pub observe : Packages → Bytes → ClassifiedRequest → Entries → Entries
observe packages key req [] = (key, absorb packages none req) ∷ []
observe packages key req ((k, e) ∷ seen) =
    let rest = observe packages key req seen in
    if str_eq k key then (k, absorb packages (some e) req) ∷ seen else (k, e) ∷ rest

unfoldable pub dedup_loop : Packages → List ClassifiedRequest → Entries → Entries
dedup_loop packages [] seen = seen
dedup_loop packages (req ∷ classified) seen =
    dedup_loop packages classified (observe packages (dedup_key packages req) req seen)

abbrev pub value : Bytes × ClassifiedRequest → ClassifiedRequest
value (k, e) = e

unfoldable pub deduplicate : Packages → List ClassifiedRequest → List ClassifiedRequest
deduplicate packages classified = map value (dedup_loop packages classified [])
