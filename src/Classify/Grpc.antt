-- ===== src/Classify/Grpc.antt =====
-- pkg/classify/grpc.go: the classifier of gRPC requests.
use vespasian.Prelude.{
  ℕ, Bool, true, false, ◌&&◌, ◌||◌, List, [], ◌∷◌, ◌++◌, Option, none, some, Bytes, codes, all, leb,
  if◌then◌else◌, ◌==◌,
}
use vespasian.Prelude.Parts.{has_prefix, split, join}
use vespasian.Packages.{Packages, ParsedUrl}
use vespasian.Mediatype.{base, header}
use vespasian.Classify.Requests.{ObservedRequest, Verdict, rejected}

-- The float64 values nearest to 0.95, 0.8, 0.6 and 0.99.
abbrev pub grpc_content_type_confidence : ℕ
grpc_content_type_confidence = 34227357168015768

abbrev pub grpc_trailer_confidence : ℕ
grpc_trailer_confidence = 28823037615171176

abbrev pub grpc_path_confidence : ℕ
grpc_path_confidence = 21617278211378380

abbrev pub grpc_content_type_trailer_confidence : ℕ
grpc_content_type_trailer_confidence = 35668509048774328

abbrev is_capital : ℕ → Bool
is_capital c = leb 0x41 c && leb c 0x5a

abbrev is_letter : ℕ → Bool
is_letter c = is_capital c || leb 0x61 c && leb c 0x7a

-- `\w`.
abbrev is_word_byte : ℕ → Bool
is_word_byte c = is_letter c || leb 0x30 c && leb c 0x39 || c == 0x5f

abbrev is_service : Bytes → Bool
is_service [] = false
is_service (c ∷ s) = is_letter c && all (λ d. is_word_byte d || d == 0x2e) s

abbrev is_method : Bytes → Bool
is_method [] = false
is_method (c ∷ s) = is_capital c && all is_word_byte s

abbrev is_service_and_method : List Bytes → Bool
is_service_and_method ([] ∷ service ∷ method ∷ []) = is_service service && is_method method
is_service_and_method _ = false

-- `^/[A-Za-z][\w.]*/[A-Z]\w*$`: no class of the pattern holds a slash.
unfoldable pub matches_grpc_path : Bytes → Bool
matches_grpc_path path = is_service_and_method (split 0x2f path)

unfoldable pub has_grpc_content_type : Packages → Bytes → Bool
has_grpc_content_type packages ct = has_prefix (base packages ct) (codes "application/grpc")

unfoldable pub has_grpc_trailer_header : Packages → List (Bytes × Bytes) → Bool
has_grpc_trailer_header packages [] = false
has_grpc_trailer_header packages ((k, v) ∷ headers) =
    packages.equal_fold k (codes "grpc-status")
    || packages.equal_fold k (codes "grpc-message")
    || has_grpc_trailer_header packages headers

unfoldable pub get_content_type : Packages → List (Bytes × Bytes) → Bytes
get_content_type packages headers = header packages.equal_fold headers (codes "content-type")

abbrev shape_of_url : Option ParsedUrl → Bool
shape_of_url none = false
shape_of_url (some u) = matches_grpc_path u.path

unfoldable pub has_grpc_path : Packages → ObservedRequest → Bool
has_grpc_path packages req =
    packages.equal_fold req.method (codes "POST") && shape_of_url (packages.parse_url req.url)

-- The signals and the confidence that follow from the tests: the content types of the request and
-- of the response, the trailer and the path.
abbrev content_type_signals : Bool → Bool → List Bytes
content_type_signals true _ = codes "grpc-content-type" ∷ []
content_type_signals false true = codes "grpc-response-content-type" ∷ []
content_type_signals false false = []

abbrev grpc_signals : Bool → Bool → Bool → Bool → List Bytes
grpc_signals asked answered has_trailer has_path =
    content_type_signals asked answered
    ++ ((if has_trailer then codes "grpc-trailer-header" ∷ [] else [])
        ++ (if has_path then codes "grpc-path-shape" ∷ [] else []))

abbrev grpc_confidence : Bool → Bool → Bool → ℕ
grpc_confidence has_content_type has_trailer has_path =
    if has_content_type && has_trailer
    then grpc_content_type_trailer_confidence
    else if has_content_type
    then grpc_content_type_confidence
    else if has_trailer
    then grpc_trailer_confidence
    else if has_path
    then grpc_path_confidence
    else grpc_path_confidence

abbrev verdict_from : List Bytes → ℕ → Verdict
verdict_from [] confidence = rejected
verdict_from (sig ∷ signals) confidence = record {
  accepted = true;
  score = confidence;
  why = join 0x2b (sig ∷ signals);
}

unfoldable pub classify_grpc : Packages → ObservedRequest → Verdict
classify_grpc packages req =
    let asked = has_grpc_content_type packages (get_content_type packages req.headers) in
    let answered = has_grpc_content_type packages req.response.content_type in
    let has_trailer = has_grpc_trailer_header packages req.response.headers in
    let has_path = has_grpc_path packages req in
    verdict_from (grpc_signals asked answered has_trailer has_path)
      (grpc_confidence (asked || answered) has_trailer has_path)
