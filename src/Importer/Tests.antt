-- ===== src/Importer/Tests.antt =====
-- Runs of the import of native flows, and its theorem at a concrete input.
use vespasian.Prelude.{ℕ, true, [], some, ◌≡◌, refl, Bytes, codes, ◌++◌, str_eq, Option}
use vespasian.Prelude.Decimal.{decimal, digits_value}
use vespasian.Prelude.Int.{pos}
use vespasian.Packages.Samples.{samples}
use vespasian.Tnet.Value.{Value, null, bytes, int, dict, end, entry}
use vespasian.Tnet.Encode.{encode}
use vespasian.Prelude.{err}
use vespasian.Importer.Flows.{UrlFunctions, invalid_port, missing_port, validate_port_range}
use vespasian.Importer.Native.{
  field_of, tnet_bytes_or_string, native_content, tnet_int64, native_headers, require_port,
  flow_from_native_state, request_of_value, import_native,
}
use vespasian.Importer.Filters.{ImportOptions, matches_host, import_with_options}
use vespasian.Importer.Scope.{AfterOptions, import_with_options-AfterOptions}
use vespasian.Importer.RoundTrip.{requests_of, IsDumped, dump_of, import_native-dump_of}
use vespasian.Tnet.Decode.Limits.{IsCanonical}
use vespasian.Tnet.Encode.{encode_with_marker, concat_pairs, sort_pairs, insert_pair, format_int}
use vespasian.Prelude.{◌∷◌, str_lt, ap, length, arith}
use vespasian.Prelude.Decimal.{digits_value-decimal}

-- No escapes, and `scheme://host/path?query`.
abbrev sample_urls : UrlFunctions
sample_urls = record {
  path_unescape = λ path. some path;
  url_text =
      λ parts. parts.scheme ++ (codes "://" ++ (parts.host ++ (parts.path ++ parts.raw_query)));
  query_values = λ raw. [];
}

abbrev read_decimal : Bytes → Option ℕ
read_decimal s = some (digits_value 0 s)

abbrev request_at : Value ℕ → Value ℕ
request_at port = dict (
    entry (codes "host") (bytes (codes "api.example.com")) (
      entry (codes "method") (bytes (codes "GET")) (
        entry (codes "path") (bytes (codes "/users"))
          (entry (codes "port") port (entry (codes "scheme") (bytes (codes "https")) end)))))

abbrev flow_at : Value ℕ → Value ℕ
flow_at port = dict (
    entry (codes "request") (request_at port)
      (entry (codes "response") null (entry (codes "type") (bytes (codes "http")) end)))

abbrev first_flow : Value ℕ
first_flow = flow_at (int (pos 443))

abbrev dump : Bytes
dump = encode decimal (flow_at (int (pos 443))) ++ encode decimal (flow_at (int (pos 8443)))

abbrev below_example : ImportOptions
below_example = record { scope = codes "*.example.com"; max_entries = pos 10 }

host_names : Unit {0}
unfolding matches_host str_eq
host_names = tt

scope_root : matches_host (codes "*.example.com") (codes "example.com") ≡ true
unfolding host_names
scope_root = refl

bad_port :
    request_of_value samples sample_urls read_decimal (flow_at (int (pos 65536)))
    ≡ err (invalid_port (pos 65536))
unfolding request_of_value field_of tnet_bytes_or_string native_content tnet_int64 native_headers
    require_port flow_from_native_state validate_port_range str_eq
bad_port = refl

no_port : request_of_value samples sample_urls read_decimal (flow_at null) ≡ err missing_port
unfolding request_of_value field_of tnet_bytes_or_string native_content tnet_int64 native_headers
    require_port flow_from_native_state validate_port_range str_eq
no_port = refl

import_with_options-AfterOptions_example : AfterOptions samples sample_urls below_example (
    import_with_options samples (import_native samples sample_urls read_decimal dump) below_example)
import_with_options-AfterOptions_example =
    import_with_options-AfterOptions samples sample_urls read_decimal below_example dump

-- What a run of the encoder computes with.
encoder : Unit {0}
unfolding encode encode_with_marker decimal concat_pairs sort_pairs insert_pair str_lt format_int
encoder = tt

first_flow_written : length (encode decimal first_flow) ≡ 134
unfolding encoder
first_flow_written = refl

first_flow-IsCanonical : IsCanonical first_flow
unfolding str_lt
first_flow-IsCanonical = (
  (refl, (refl, tt)),
  (
    (refl, (refl, (refl, (refl, tt)))),
    tt,
    ((refl, (refl, (refl, tt))), tt, ((refl, (refl, tt)), tt, ((refl, tt), tt, (tt, tt, tt)))),
  ),
  ((refl, tt), tt, (tt, tt, tt)),
)

first_flow-IsDumped : IsDumped decimal first_flow
first_flow-IsDumped = (first_flow-IsCanonical, ground arith, rw first_flow_written (omega arith))

import_native-dump_of_example :
    import_native samples sample_urls read_decimal (dump_of decimal (first_flow ∷ first_flow ∷ []))
    ≡ requests_of samples sample_urls read_decimal (first_flow ∷ first_flow ∷ [])
import_native-dump_of_example =
    import_native-dump_of samples sample_urls read_decimal decimal
      (λ n. ap some (digits_value-decimal n)) (first_flow ∷ first_flow ∷ [])
      (first_flow-IsDumped, (first_flow-IsDumped, tt)) (omega arith)
