-- ===== src/Pipeline/Tests.antt =====
-- Runs of internal/pipeline, and the theorems at concrete inputs.
use mathlib.Core.List.{Permᴰ}
use vespasian.Prelude.{
  true, false, not, ◌&&◌, List, [], ◌∷◌, ◌++◌, map, Option, none, some, ◌≡◌, refl, arith, Bytes,
  err, codes, any, str_eq, if◌then◌else◌,
}
use vespasian.Prelude.Int.{pos}
use vespasian.Prelude.Parts.{contains}
use vespasian.Prelude.Search.{includes, before_byte}
use vespasian.Packages.{ParsedUrl}
use vespasian.Packages.Samples.{samples}
use vespasian.Origins.{origin_of, same_origin, validate_full_url, is_http}
use vespasian.Origins.Components.{IsParsed, parts}
use vespasian.Classify.Responses.{ObservedResponse}
use vespasian.Classify.Requests.{ObservedRequest}
use vespasian.Classify.Merging.Distinct.{firsts}
use vespasian.Pipeline.ApiTypes.{detect_api_type, kind_for_type}
use vespasian.Pipeline.ApiTypes.Counts.{count, Wins, detect_api_type-Wins}
use vespasian.Pipeline.Gate.{
  Validator, best_effort_origin, Warning, derived_origin, skipping, warn_derived_probe_origin,
  GateConfig, new_gate, base_or, new_full_url_validator, check_origin, check_all,
}
use vespasian.Pipeline.Gate.Warned.{crosses, crossing, error_on, check_all_lem}
use vespasian.Pipeline.Gate.Passed.{check_origin_lem}
use vespasian.Pipeline.Stage.{
  Options, classify_stage, slug_threshold_too_small, validate_slug_threshold,
}
use vespasian.Pipeline.Stage.Kept.{AfterStage, classify_stage-AfterStage}

abbrev target : Bytes
target = codes "https://h"

abbrev config : GateConfig
config = record { target_origin = target; target_url = []; origin_is_derived = true }

abbrev accepts : Validator
accepts raw = none

abbrev some_urls : List Bytes
some_urls =
    codes "https://H:443/a" ∷ codes "http://h/a" ∷ codes "http://h/b" ∷ codes "https://evil/" ∷ []

abbrev lines : List (Option Bytes) × List Warning → List Warning
lines (errors, warnings) = warnings

-- The default port is the port that is left out; the two rejected origins are named once each.
three_lines :
    lines (check_all samples config accepts some_urls new_gate)
    ≡ derived_origin target ∷ skipping (codes "http://h") ∷ skipping (codes "https://evil") ∷ []
unfolding check_all check_origin same_origin origin_of best_effort_origin contains includes
    before_byte str_eq
three_lines = refl

check_all_lem_example : check_all samples config accepts some_urls new_gate ≡ (
  map (error_on samples config accepts) some_urls,
  (if config.origin_is_derived && any (crosses samples config) some_urls
        then warn_derived_probe_origin config.target_origin (not (str_eq config.target_url [])) ∷ []
        else [])
      ++ map skipping (firsts [] (crossing samples config some_urls)),
)
check_all_lem_example = check_all_lem samples config accepts some_urls

abbrev target_parsed : ParsedUrl
target_parsed = record {
  scheme = codes "https";
  host = codes "h";
  hostname = codes "h";
  port = [];
  has_user = false;
  text = target;
  path = [];
  raw_query = [];
}

abbrev url_parsed : ParsedUrl
url_parsed = record {
  scheme = codes "https";
  host = codes "H:443";
  hostname = codes "H";
  port = codes "443";
  has_user = false;
  text = codes "https://H:443/a";
  path = codes "/a";
  raw_query = [];
}

target_is_parsed : samples.parse_url target ≡ some target_parsed
unfolding before_byte
target_is_parsed = refl

url_is_parsed : samples.parse_url (codes "https://H:443/a") ≡ some url_parsed
unfolding before_byte
url_is_parsed = refl

target-IsParsed : IsParsed samples target_parsed
target-IsParsed = record {
  scheme_colon = ground arith;
  port_colon = tt;
  host_open = ground arith;
  host_close = ground arith;
}

url-IsParsed : IsParsed samples url_parsed
url-IsParsed = record {
  scheme_colon = ground arith;
  port_colon = ground arith;
  host_open = ground arith;
  host_close = ground arith;
}

url_passes :
    (check_origin samples config
      (new_full_url_validator samples accepts none)
      (codes "https://H:443/a")
      new_gate).error
    ≡ none
unfolding check_origin same_origin origin_of includes before_byte str_eq new_full_url_validator
    validate_full_url
url_passes = refl

check_origin_lem_example :
    (parts samples url_parsed ≡ parts samples target_parsed)
    × (is_http url_parsed.scheme ≡ true)
    × (url_parsed.has_user ≡ false)
    × (base_or none accepts (codes "https://H:443/a") ≡ none)
check_origin_lem_example =
    check_origin_lem samples config accepts none (codes "https://H:443/a") new_gate url_parsed
      target_parsed url_is_parsed target_is_parsed url-IsParsed target-IsParsed url_passes

abbrev no_reply : ObservedResponse
no_reply = record { status_code = pos 0; headers = []; content_type = []; body = [] }

abbrev soap_request : ObservedRequest
soap_request = record {
  method = codes "POST";
  url = codes "http://h/service";
  headers = (codes "SOAPAction", codes "a") ∷ [];
  query_params = none;
  body = codes "<soap:Envelope/>";
  response = no_reply;
  source = codes "crawl";
  tag = [];
  attribute = [];
  page_url = [];
}

detect_api_type-Wins_example :
    Wins
      (λ kind. count samples kind 1 (soap_request ∷ []))
      (detect_api_type samples (soap_request ∷ []) 1)
detect_api_type-Wins_example =
    detect_api_type-Wins samples 1 (soap_request ∷ []) (soap_request ∷ [])
      (Permᴰ.cons refl Permᴰ.nil)

abbrev options : Options
options = record {
  api_type = codes "rest";
  confidence = 18014398509481984;
  deduplicated = true;
  merge_slugs = true;
  slug_threshold = pos 1;
}

slugs_refused : classify_stage samples options (soap_request ∷ []) ≡ err slug_threshold_too_small
unfolding classify_stage kind_for_type validate_slug_threshold str_eq
slugs_refused = refl

classify_stage-AfterStage_example :
    AfterStage options (classify_stage samples options (soap_request ∷ []))
classify_stage-AfterStage_example =
    classify_stage-AfterStage samples options (soap_request ∷ []) (omega arith)
