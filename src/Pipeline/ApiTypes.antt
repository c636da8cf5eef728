-- ===== src/Pipeline/ApiTypes.antt =====
-- internal/pipeline/apitype.go and static_asset.go: the choice of the type of API.
pub mod Counts
use vespasian.Prelude.{
  ℕ, suc, Bool, true, false, ◌&&◌, List, [], ◌∷◌, Option, none, some, Bytes, codes, any, ltb, leb,
  str_eq, if◌then◌else◌,
}
use vespasian.Prelude.Parts.{has_suffix}
use vespasian.Packages.{Packages, ParsedUrl}
use vespasian.Classify.Requests.{ObservedRequest}
use vespasian.Classify.Running.{ApiClassifier, Kind, classifier_of}

-- The counts of the requests that the classifiers accept.
pub record Tally : Type 0 where
  pub wsdl_count : ℕ
  pub rest_count : ℕ
  pub graphql_count : ℕ

abbrev pub no_matches : Tally
no_matches = record { wsdl_count = 0; rest_count = 0; graphql_count = 0 }

abbrev is_match : ℕ → Bool × ℕ → Bool
is_match threshold (is_api, confidence) = is_api && leb threshold confidence

abbrev pub matches : Packages → Kind → ℕ → ObservedRequest → Bool
matches packages kind threshold req =
    is_match threshold ((classifier_of packages kind).classify req)

abbrev pub one_more : Bool → ℕ → ℕ
one_more b n = if b then suc n else n

abbrev pub count_request : Packages → ℕ → ObservedRequest → Tally → Tally
count_request packages threshold req t = record {
  wsdl_count = one_more (matches packages Kind.wsdl threshold req) t.wsdl_count;
  rest_count = one_more (matches packages Kind.rest threshold req) t.rest_count;
  graphql_count = one_more (matches packages Kind.graphql threshold req) t.graphql_count;
}

abbrev pub count_loop : Packages → ℕ → List ObservedRequest → Tally → Tally
count_loop packages threshold [] t = t
count_loop packages threshold (req ∷ requests) t =
    count_loop packages threshold requests (count_request packages threshold req t)

abbrev pub winner : Tally → Kind
winner t =
    if ltb 0 t.graphql_count && leb t.wsdl_count t.graphql_count && leb t.rest_count t.graphql_count
    then Kind.graphql
    else if ltb 0 t.wsdl_count && leb t.rest_count t.wsdl_count
    then Kind.wsdl
    else Kind.rest

unfoldable pub detect_api_type : Packages → List ObservedRequest → ℕ → Kind
detect_api_type packages requests threshold =
    winner (count_loop packages threshold requests no_matches)

-- The kind of classifier that an API type names.
unfoldable pub kind_for_type : Bytes → Option Kind
kind_for_type api_type =
    if str_eq api_type (codes "rest")
    then some Kind.rest
    else if str_eq api_type (codes "wsdl")
    then some Kind.wsdl
    else if str_eq api_type (codes "graphql")
    then some Kind.graphql
    else if str_eq api_type (codes "grpc")
    then some Kind.grpc
    else none

abbrev classifiers_of : Packages → Option Kind → Option (List ApiClassifier)
classifiers_of packages none = none
classifiers_of packages (some kind) = some (classifier_of packages kind ∷ [])

abbrev pub classifiers_for_type : Packages → Bytes → Option (List ApiClassifier)
classifiers_for_type packages api_type = classifiers_of packages (kind_for_type api_type)

abbrev static_asset_extensions : List Bytes
static_asset_extensions =
    codes ".css"
    ∷ codes ".js"
    ∷ codes ".map"
    ∷ codes ".png"
    ∷ codes ".jpg"
    ∷ codes ".jpeg"
    ∷ codes ".gif"
    ∷ codes ".svg"
    ∷ codes ".ico"
    ∷ codes ".webp"
    ∷ codes ".avif"
    ∷ codes ".woff"
    ∷ codes ".woff2"
    ∷ codes ".ttf"
    ∷ codes ".eot"
    ∷ codes ".otf"
    ∷ codes ".webmanifest"
    ∷ codes ".mp4"
    ∷ codes ".webm"
    ∷ codes ".mp3"
    ∷ codes ".ogg"
    ∷ []

abbrev static_asset_path : Packages → Option ParsedUrl → Bool
static_asset_path packages none = false
static_asset_path packages (some u) =
    any (has_suffix (packages.to_lower u.path)) static_asset_extensions

unfoldable pub is_static_asset_url : Packages → Bytes → Bool
is_static_asset_url packages raw = static_asset_path packages (packages.parse_url raw)
