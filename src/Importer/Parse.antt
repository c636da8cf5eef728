-- ===== src/Importer/Parse.antt =====
-- parseFlow of pkg/importer/mitmproxy.go.
use vespasian.Prelude.{[], Bytes, codes, if◌then◌else◌, Result, ok, err, ◌>>=◌}
use vespasian.Prelude.Parts.{contains}
use vespasian.Packages.{Packages}
use vespasian.Classify.Requests.{ObservedRequest}
use vespasian.Importer.Flows.{
  MitmproxyFlow, UrlFunctions, ImportError, invalid_method, unsupported_scheme, validate_port_range,
  valid_http_methods, allowed_schemes, validate_host, convert_mitmproxy_headers, header_or_empty,
  construct_url,
}
use vespasian.Importer.Queries.{extract_query_params}

abbrev pub check_method : Bytes → Result ImportError (Unit {0})
check_method method =
    if contains valid_http_methods method then ok tt else err (invalid_method method)

abbrev pub check_scheme : Bytes → Result ImportError (Unit {0})
check_scheme scheme =
    if contains allowed_schemes scheme then ok tt else err (unsupported_scheme scheme)

module _ (packages : Packages) (urls : UrlFunctions) where
  abbrev pub observed_request : MitmproxyFlow → ObservedRequest
  observed_request flow =
      let url =
        construct_url urls flow.request.scheme flow.request.host flow.request.port
          flow.request.path in
      let resp_headers = convert_mitmproxy_headers flow.response.headers in
      record {
        method = flow.request.method;
        url = url;
        headers = convert_mitmproxy_headers flow.request.headers;
        query_params = extract_query_params packages urls url;
        body = flow.request.content;
        response = record {
          status_code = flow.response.status_code;
          headers = resp_headers;
          content_type = header_or_empty (codes "Content-Type") resp_headers;
          body = flow.response.content;
        };
        source = codes "import:mitmproxy";
        tag = [];
        attribute = [];
        page_url = [];
      }

  unfoldable pub parse_flow : MitmproxyFlow → Result ImportError ObservedRequest
  parse_flow flow = do
    _ ← validate_port_range flow.request.port
    _ ← check_method flow.request.method
    _ ← check_scheme flow.request.scheme
    _ ← validate_host flow.request.host
    ok (observed_request flow)
