-- ===== src/Classify/Wsdl.antt =====
-- pkg/classify/wsdl.go: the classifier of SOAP and WSDL requests.
use vespasian.Prelude.{
  ℕ, Bool, true, false, ◌&&◌, ◌||◌, List, [], ◌∷◌, Option, none, some, Bytes, codes, any, str_eq,
  if◌then◌else◌, ◌==◌,
}
use vespasian.Prelude.Parts.{has_suffix}
use vespasian.Prelude.Search.{includes, before_byte}
use vespasian.Packages.{Packages, ParsedUrl}
use vespasian.Classify.Requests.{
  ObservedRequest, Verdict, rejected, is_static_file, Score, no_score, signal, verdict_of,
}

-- The float64 values nearest to 0.95, 0.9, 0.85 and 0.3.
abbrev pub soap_action_confidence : ℕ
soap_action_confidence = 34227357168015768

abbrev pub soap_confidence : ℕ
soap_confidence = 32425917317067572

abbrev pub soap_content_type_confidence : ℕ
soap_content_type_confidence = 30624477466119372

abbrev pub feed_confidence : ℕ
feed_confidence = 10808639105689190

-- The headers are read in an order of iteration, up to the first that has the key.
unfoldable pub get_header_case_insensitive : Packages → List (Bytes × Bytes) → Bytes → Option Bytes
get_header_case_insensitive packages [] key = none
get_header_case_insensitive packages ((k, v) ∷ headers) key =
    let rest = get_header_case_insensitive packages headers key in
    if str_eq (packages.to_lower k) (packages.to_lower key) then some v else rest

unfoldable pub has_soap_envelope : Bytes → Bool
has_soap_envelope body =
    includes body (codes "<soap:Envelope")
    || includes body (codes "<SOAP-ENV:Envelope")
    || includes body (codes "schemas.xmlsoap.org/soap/envelope")

abbrev is_found : Option Bytes → Bool
is_found none = false
is_found (some _) = true

unfoldable pub has_soap_action : Packages → ObservedRequest → Bool
has_soap_action packages req =
    is_found (get_header_case_insensitive packages req.headers (codes "SOAPAction"))

unfoldable pub is_wsdl_url : Packages → ParsedUrl → Bool
is_wsdl_url packages u =
    includes (packages.to_lower u.raw_query) (codes "wsdl")
    || has_suffix (packages.to_lower u.path) (codes "/wsdl")

unfoldable pub is_soap_content_type : Packages → Bytes → Bool
is_soap_content_type packages content_type =
    let lower = packages.to_lower content_type in
    let ct =
      if any (λ c. c == 0x3b) lower then packages.trim_space (before_byte 0x3b lower) else lower in
    str_eq ct (codes "text/xml") || str_eq ct (codes "application/soap+xml")

unfoldable pub is_feed : Bytes → Bool
is_feed body =
    includes body (codes "<rss")
    || includes body (codes "<feed")
    || includes body (codes "<channel")

abbrev pub action_rule : Bool → Score → Score
action_rule false s = s
action_rule true s = record {
  confidence = soap_action_confidence;
  reason = codes "soapaction-header";
}

abbrev pub signal_if : Bool → ℕ → Bytes → Score → Score
signal_if fired floor sig s = if fired then signal floor sig s else s

abbrev pub feed_rule : Bool → Score → Score
feed_rule feed s =
    if s.confidence == soap_content_type_confidence
      && str_eq s.reason (codes "soap-content-type")
      && feed
    then record { confidence = feed_confidence; reason = s.reason }
    else s

unfoldable pub wsdl_score : Packages → ObservedRequest → ParsedUrl → Score
wsdl_score packages req u = feed_rule (is_feed req.response.body) (
    signal_if (is_soap_content_type packages req.response.content_type) soap_content_type_confidence
      (codes "soap-content-type")
      (signal_if (is_wsdl_url packages u) soap_confidence (codes "wsdl-url") (
        signal_if (has_soap_envelope req.body) soap_confidence (codes "soap-envelope")
          (action_rule (has_soap_action packages req) no_score))))

abbrev wsdl_of_url : Packages → ObservedRequest → Option ParsedUrl → Verdict
wsdl_of_url packages req none = rejected
wsdl_of_url packages req (some u) =
    if is_static_file (packages.to_lower u.path)
    then rejected
    else verdict_of (wsdl_score packages req u)

unfoldable pub classify_wsdl : Packages → ObservedRequest → Verdict
classify_wsdl packages req = wsdl_of_url packages req (packages.parse_url req.url)
