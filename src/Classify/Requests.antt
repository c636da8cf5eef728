-- ===== src/Classify/Requests.antt =====
-- The requests of pkg/crawl/types.go and pkg/classify/types.go, and what the classifiers share.
-- The fields that the probes fill are left out: classification and Deduplicate copy them.
use vespasian.Prelude.{
  ℕ, suc, ◌+◌, ◌*◌, ◌/◌, ◌%◌, ◌^◌, Bool, false, ◌||◌, List, [], ◌∷◌, ◌++◌, Option, Bytes, codes,
  any, str_eq, ltb, if◌then◌else◌, ◌==◌,
}
use vespasian.Prelude.Parts.{has_suffix}
use vespasian.Classify.Responses.{ObservedResponse}

-- A nil map of query parameters is `none`.
pub record ObservedRequest : Type 0 where
  pub method : Bytes
  pub url : Bytes
  pub headers : List (Bytes × Bytes)
  pub query_params : Option (List (Bytes × List Bytes))
  pub body : Bytes
  pub response : ObservedResponse
  pub source : Bytes
  pub tag : Bytes
  pub attribute : Bytes
  pub page_url : Bytes

-- A confidence is a float64: the number of its units of 2 ^ -55, which its values are multiples of.
pub record ClassifiedRequest : Type 0 where
  pub request : ObservedRequest
  pub is_api : Bool
  pub confidence : ℕ
  pub reason : Bytes
  pub api_type : Bytes
  pub multi_value_query_keys : Option (List (Bytes × Bool))

-- The results of ClassifyDetail.
pub record Verdict : Type 0 where
  pub accepted : Bool
  pub score : ℕ
  pub why : Bytes

abbrev pub rejected : Verdict
rejected = record { accepted = false; score = 0; why = [] }

abbrev pub is_js_static_source : Bytes → Bool
is_js_static_source source =
    str_eq source (codes "static:js")
    || str_eq source (codes "static:js-sourcemap")
    || str_eq source (codes "static:js-concat")

abbrev pub static_extensions : List Bytes
static_extensions =
    codes ".js"
    ∷ codes ".css"
    ∷ codes ".png"
    ∷ codes ".jpg"
    ∷ codes ".jpeg"
    ∷ codes ".gif"
    ∷ codes ".ico"
    ∷ codes ".woff"
    ∷ codes ".woff2"
    ∷ codes ".ttf"
    ∷ codes ".eot"
    ∷ codes ".svg"
    ∷ codes ".map"
    ∷ []

unfoldable pub is_static_file : Bytes → Bool
is_static_file path = any (has_suffix path) static_extensions

-- To the nearest multiple of a unit, the even one of two.
abbrev round_at : ℕ → ℕ → ℕ
round_at unit n =
    let low = n / unit in
    let rest = n % unit in
    if ltb (rest + rest) unit
    then low * unit
    else if ltb unit (rest + rest)
    then suc low * unit
    else (low + low % 2) * unit

-- The sum of two float64 values of less than 1, in units of 2 ^ -55.
unfoldable pub double_sum : ℕ → ℕ → ℕ
double_sum a b =
    let n = a + b in
    if ltb n (2 ^ 53)
    then n
    else if ltb n (2 ^ 54)
    then round_at 2 n
    else if ltb n (2 ^ 55)
    then round_at 4 n
    else round_at 8 n

-- The float64 values nearest to 0.5 and to 1.
abbrev pub default_confidence_threshold : ℕ
default_confidence_threshold = 18014398509481984

abbrev pub one : ℕ
one = 36028797018963968

-- A confidence and the reason for it, as the rules build them up.
pub record Score : Type 0 where
  pub confidence : ℕ
  pub reason : Bytes

abbrev pub no_score : Score
no_score = record { confidence = 0; reason = [] }

abbrev pub at_least : ℕ → ℕ → ℕ
at_least floor c = if ltb c floor then floor else c

abbrev pub append_reason : Bytes → Bytes → Bytes
append_reason [] sig = sig
append_reason (c ∷ existing) sig = (c ∷ existing) ++ (codes "+" ++ sig)

-- A rule that fires raises the confidence to a floor and adds its signal to the reason.
abbrev pub signal : ℕ → Bytes → Score → Score
signal floor sig s = record {
  confidence = at_least floor s.confidence;
  reason = append_reason s.reason sig;
}

-- The first byte that is no ASCII white space.
unfoldable pub first_non_space : Bytes → Option ℕ
first_non_space [] = Option.none
first_non_space (c ∷ b) =
    let rest = first_non_space b in
    if c == 0x20 || c == 0x09 || c == 0x0a || c == 0x0d then rest else Option.some c

abbrev pub verdict_of : Score → Verdict
verdict_of s = record { accepted = ltb 0 s.confidence; score = s.confidence; why = s.reason }
