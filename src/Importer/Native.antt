-- ===== src/Importer/Native.antt =====
-- The native flows of pkg/importer/mitmproxy.go: what stands in a tnetstring becomes a flow.
use vespasian.Prelude.{
  ℕ, zero, suc, ◌+◌, List, [], ◌∷◌, ◌++◌, Option, none, some, Bytes, codes, length, leb, str_eq,
  if◌then◌else◌, Result, ok, err, ◌>>=◌,
}
use vespasian.Prelude.Int.{ℤ, pos}
use vespasian.Packages.{Packages}
use vespasian.Tnet.Value.{
  Value, null, bytes, str, int, list, dict, Items, nil, cons, Entries, end, entry,
}
use vespasian.Tnet.Reader.{Decoded}
use vespasian.Tnet.Decode.{decode_tnetstring_stream}
use vespasian.Classify.Requests.{ObservedRequest}
use vespasian.Importer.Flows.{
  MitmproxyRequest, MitmproxyResponse, MitmproxyFlow, UrlFunctions, ImportError, too_many_flows,
  not_a_dict, missing_request, request_not_dict, missing_port, port_not_integer, response_not_dict,
  out_of_fuel, bad_native_flow, validate_port_range,
}
use vespasian.Importer.Parse.{parse_flow}

abbrev pub max_native_flows : ℕ
max_native_flows = 500000

abbrev slash_if_empty : Bytes → Bytes
slash_if_empty [] = codes "/"
slash_if_empty (c ∷ path) = c ∷ path

abbrev absent_response : MitmproxyResponse
absent_response = record { status_code = pos 0; headers = []; content = [] }

module _ {F : Type 0} where
  -- A lookup in a map.
  unfoldable pub field_of : Bytes → Entries F → Option (Value F)
  field_of k end = none
  field_of k (entry j v m) = let rest = field_of k m in if str_eq j k then some v else rest

  unfoldable pub tnet_bytes_or_string : Option (Value F) → Bytes
  tnet_bytes_or_string (some (str s)) = s
  tnet_bytes_or_string (some (bytes b)) = b
  tnet_bytes_or_string _ = []

  -- Empty bytes are nil.
  unfoldable pub native_content : Option (Value F) → Bytes
  native_content (some (bytes b)) = b
  native_content (some (str s)) = s
  native_content _ = []

  unfoldable pub tnet_int64 : Option (Value F) → ℤ
  tnet_int64 (some (int n)) = n
  tnet_int64 _ = pos 0

  abbrev native_header : Value F → List (List Bytes)
  native_header (list (cons k (cons v _))) =
      (tnet_bytes_or_string (some k) ∷ tnet_bytes_or_string (some v) ∷ []) ∷ []
  native_header _ = []

  abbrev headers_of_items : Items F → List (List Bytes)
  headers_of_items nil = []
  headers_of_items (cons v vs) = native_header v ++ headers_of_items vs

  unfoldable pub native_headers : Option (Value F) → List (List Bytes)
  native_headers (some (list vs)) = headers_of_items vs
  native_headers _ = []

  abbrev build_request_path : Entries F → Bytes
  build_request_path m = slash_if_empty (tnet_bytes_or_string (field_of (codes "path") m))

  unfoldable pub require_port : Option (Value F) → Result ImportError ℤ
  require_port none = err missing_port
  require_port (some null) = err missing_port
  require_port (some (int n)) = (validate_port_range n >>= λ u. ok n)
  require_port (some _) = err port_not_integer

  abbrev pub native_request : Option (Value F) → Result ImportError MitmproxyRequest
  native_request none = err missing_request
  native_request (some (dict m)) =
      (require_port (field_of (codes "port") m) >>= λ port. ok (record {
        method = tnet_bytes_or_string (field_of (codes "method") m);
        scheme = tnet_bytes_or_string (field_of (codes "scheme") m);
        host = tnet_bytes_or_string (field_of (codes "host") m);
        port = port;
        path = build_request_path m;
        headers = native_headers (field_of (codes "headers") m);
        content = native_content (field_of (codes "content") m);
      }))
  native_request (some _) = err request_not_dict

  abbrev pub native_response : Option (Value F) → Result ImportError MitmproxyResponse
  native_response none = ok absent_response
  native_response (some null) = ok absent_response
  native_response (some (dict m)) = ok (record {
    status_code = tnet_int64 (field_of (codes "status_code") m);
    headers = native_headers (field_of (codes "headers") m);
    content = native_content (field_of (codes "content") m);
  })
  native_response (some _) = err response_not_dict

  unfoldable pub flow_from_native_state : Entries F → Result ImportError MitmproxyFlow
  flow_from_native_state state = do
    request ← native_request (field_of (codes "request") state)
    response ← native_response (field_of (codes "response") state)
    ok (record { request = request; response = response })

  abbrev pub from_decoded : Decoded (Value F × Bytes) → Result ImportError (Value F × Bytes)
  from_decoded (Decoded.ok p) = ok p
  from_decoded (Decoded.err e) = err (bad_native_flow e)
  from_decoded Decoded.stuck = err out_of_fuel

  module _ (packages : Packages) (urls : UrlFunctions) (parse_float : Bytes → Option F) where
    -- A value of the stream: a flow of another kind is passed over.
    unfoldable pub request_of_value : Value F → Result ImportError (List ObservedRequest)
    request_of_value (dict state) =
        if str_eq (tnet_bytes_or_string (field_of (codes "type") state)) (codes "http")
        then (flow_from_native_state state >>= parse_flow packages urls >>= λ req. ok (req ∷ []))
        else ok []
    request_of_value _ = err not_a_dict

    -- The loop, with `seen` and `requests`. The reader is the bytes not yet read.
    unfoldable pub native_loop :
        ℕ → ℕ → List ObservedRequest → Bytes → Result ImportError (List ObservedRequest)
    native_loop fuel seen requests [] = ok requests
    native_loop zero seen requests (c ∷ r) = err out_of_fuel
    native_loop (suc fuel) seen requests (c ∷ r) =
        if leb max_native_flows seen
        then err too_many_flows
        else (from_decoded (decode_tnetstring_stream parse_float (c ∷ r) 0) >>= λ (v, rest).
            (request_of_value v >>= λ found. native_loop fuel (seen + 1) (requests ++ found) rest))

    unfoldable pub import_native : Bytes → Result ImportError (List ObservedRequest)
    import_native r = native_loop (length r) 0 [] r
