-- ===== src/Importer/Safe.antt =====
-- What an import of native flows by pkg/importer/mitmproxy.go may return.
pub mod Fuel
pub mod Checked
pub mod Steps
use vespasian.Prelude.{
  ℕ, zero, suc, ◌+◌, ◌≤◌, ◌<◌, Bool, true, false, not, ◌&&◌, ◌||◌, List, [], ◌∷◌, ◌++◌, Option,
  none, some, ◌≡◌, ◌≢◌, inl, inr, refl, sym, subst, arith, All, All-append, Bytes, codes, length,
  length-append, any, leb, ltb, leb_false→lt, ltb_false→le, str_eq, str_eq_iff, Bool-cases,
  if◌then◌else◌, ◌==◌, Result, ok, err, ◌>>=◌,
}
use vespasian.Prelude.Int.{ℤ, pos, negsuc, ltb_ℤ}
use vespasian.Prelude.Parts.{contains}
use vespasian.Packages.{Packages}
use vespasian.Tnet.Value.{Value, null, bytes, str, int, float, bool, list, dict, Entries}
use vespasian.Tnet.Reader.{Decoded}
use vespasian.Tnet.Reader.Returns.{Returns}
use vespasian.Tnet.Decode.{decode_tnetstring_stream}
use vespasian.Tnet.Decode.Limits.{Fits}
use vespasian.Tnet.Reader.{max_tnetstring_depth}
use vespasian.Tnet.Decode.Safety.{decode_tnetstring_stream_lem}
use vespasian.Classify.Requests.{ObservedRequest}
use vespasian.Importer.Flows.{
  too_many_flows, MitmproxyFlow, UrlFunctions, ImportError, invalid_port, out_of_fuel,
  valid_http_methods, allowed_schemes, max_host_length, holds_byte, is_delimiter, is_control,
  validate_port_range, validate_host, construct_url,
}
use vespasian.Importer.Parse.{check_method, check_scheme, parse_flow, observed_request}
use vespasian.Importer.Native.{
  max_native_flows, request_of_value, field_of, tnet_bytes_or_string, require_port, native_request,
  native_response, flow_from_native_state, from_decoded, native_loop, import_native,
}
use vespasian.Importer.Safe.Fuel.{InFuel, Ends, Ends-bind, Ends-if, Ends-ok}
use vespasian.Importer.Safe.Checked.{IsChecked, checked_lem}
use vespasian.Importer.Safe.Steps.{Ends-port, Ends-method, Ends-scheme, Ends-host, Ends-flow}

module _ (packages : Packages) (urls : UrlFunctions) where
  -- A request that an import gives: that of a flow that passed the checks.
  abbrev pub IsImported : ObservedRequest → Type 0
  IsImported r = (flow : MitmproxyFlow) × IsChecked flow × (r ≡ observed_request packages urls flow)

  Ends-parse_flow : (flow : MitmproxyFlow) → Ends IsImported (parse_flow packages urls flow)
  unfolding parse_flow
  Ends-parse_flow flow =
      Ends-bind (λ u. validate_port_range flow.request.port ≡ ok u) IsImported
        (validate_port_range flow.request.port) _
        (Ends-ok (validate_port_range flow.request.port) (Ends-port flow.request.port))
        (λ _ p.
          Ends-bind (λ u. check_method flow.request.method ≡ ok u) IsImported
            (check_method flow.request.method) _
            (Ends-ok (check_method flow.request.method) (Ends-method flow.request.method))
            (λ _ m.
              Ends-bind (λ u. check_scheme flow.request.scheme ≡ ok u) IsImported
                (check_scheme flow.request.scheme) _
                (Ends-ok (check_scheme flow.request.scheme) (Ends-scheme flow.request.scheme))
                (λ _ s.
                  Ends-bind (λ u. validate_host flow.request.host ≡ ok u) IsImported
                    (validate_host flow.request.host) _
                    (Ends-ok (validate_host flow.request.host) (Ends-host flow.request.host))
                    (λ _ h. (flow, checked_lem flow p m s h, refl)))))

  -- What an import may return.
  abbrev pub Imported : List ObservedRequest → Type 0
  Imported requests = (length requests ≤ max_native_flows) × All IsImported requests

  module _ {F : Type 0} (parse_float : Bytes → Option F) where
    abbrev OneImported : List ObservedRequest → Type 0
    OneImported found = (length found ≤ 1) × All IsImported found

    Ends-request_of_value :
        (v : Value F) → Ends OneImported (request_of_value packages urls parse_float v)
    unfolding request_of_value
    Ends-request_of_value (dict state) =
        Ends-if OneImported
          (str_eq (tnet_bytes_or_string (field_of (codes "type") state)) (codes "http"))
          (flow_from_native_state state >>= parse_flow packages urls >>= λ req. ok (req ∷ []))
          (ok [])
          (λ _.
            Ends-bind IsImported OneImported
              (flow_from_native_state state >>= parse_flow packages urls) (λ req. ok (req ∷ []))
              (Ends-bind (λ _. Unit {0}) IsImported (flow_from_native_state state)
                (parse_flow packages urls) (Ends-flow state) (λ flow _. Ends-parse_flow flow))
              (λ req h. (omega arith, (h, tt))))
          (λ _. (omega arith, tt))
    Ends-request_of_value null = tt
    Ends-request_of_value (bytes _) = tt
    Ends-request_of_value (str _) = tt
    Ends-request_of_value (int _) = tt
    Ends-request_of_value (float _) = tt
    Ends-request_of_value (bool _) = tt
    Ends-request_of_value (list _) = tt

    decoded_lem :
        (r : Bytes) (m : Decoded (Value F × Bytes))
        → Returns (λ p. Fits p.0 (max_tnetstring_depth + 1) × (length p.1 < length r)) m
        → Ends (λ p. length p.1 < length r) (from_decoded m)
    decoded_lem r (Decoded.ok p) h = h.1
    decoded_lem r (Decoded.err e) h = tt
    decoded_lem r Decoded.stuck h = h tt

    Ends-decoded :
        (r : Bytes)
        → Ends
            (λ p. length p.1 < length r)
            (from_decoded (decode_tnetstring_stream parse_float r 0))
    Ends-decoded r =
        decoded_lem r (decode_tnetstring_stream parse_float r 0)
          (decode_tnetstring_stream_lem parse_float r 0)

    native_loop_lem :
        (fuel seen : ℕ) (requests : List ObservedRequest) (r : Bytes)
        → length r ≤ fuel
        → length requests ≤ seen
        → seen ≤ max_native_flows
        → All IsImported requests
        → Ends Imported (native_loop packages urls parse_float fuel seen requests r)
    unfolding native_loop
    native_loop_lem fuel seen requests [] f l m h = (omega arith, h)
    native_loop_lem zero seen requests (c ∷ r) f l m h = omega arith
    native_loop_lem (suc fuel) seen requests (c ∷ r) f l m h =
        Ends-if Imported (leb max_native_flows seen) (err too_many_flows) _ (λ _. tt)
          (λ some_room.
            Ends-bind (λ p. length p.1 < length (c ∷ r)) Imported
              (from_decoded (decode_tnetstring_stream parse_float (c ∷ r) 0)) _
              (Ends-decoded (c ∷ r))
              (λ p shorter.
                Ends-bind OneImported Imported (request_of_value packages urls parse_float p.0)
                  (λ found.
                    native_loop packages urls parse_float fuel (seen + 1) (requests ++ found) p.1)
                  (Ends-request_of_value p.0)
                  (λ found one.
                    let seen_room = leb_false→lt max_native_flows seen some_room in
                    let longer = length-append requests found in
                    let few = one.0 in
                    native_loop_lem fuel (seen + 1) (requests ++ found) p.1 (omega arith)
                      (omega arith) (omega arith) (All-append IsImported requests found h one.1))))

    pub import_native-Imported :
        (r : Bytes) → Ends Imported (import_native packages urls parse_float r)
    unfolding import_native
    import_native-Imported r =
        native_loop_lem (length r) 0 [] r (omega arith) (omega arith) (omega arith) tt
