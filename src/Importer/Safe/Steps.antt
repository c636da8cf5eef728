-- ===== src/Importer/Safe/Steps.antt =====
-- The checks and the conversion of a flow in pkg/importer/mitmproxy.go end.
use vespasian.Prelude.{Option, none, some, arith, Bytes, codes, ok}
use vespasian.Prelude.Int.{ℤ}
use vespasian.Tnet.Value.{Value, null, bytes, str, int, float, bool, list, dict, Entries}
use vespasian.Importer.Flows.{validate_port_range, validate_host}
use vespasian.Importer.Parse.{check_method, check_scheme}
use vespasian.Importer.Native.{
  field_of, require_port, native_request, native_response, flow_from_native_state,
}
use vespasian.Importer.Safe.Fuel.{Ends, Ends-bind}

pub Ends-port : (port : ℤ) → Ends (λ u. Unit) (validate_port_range port)
unfolding validate_port_range
Ends-port port = ground arith

pub Ends-host : (host : Bytes) → Ends (λ u. Unit) (validate_host host)
unfolding validate_host
Ends-host host = ground arith

pub Ends-method : (method : Bytes) → Ends (λ u. Unit) (check_method method)
Ends-method method = ground arith

pub Ends-scheme : (scheme : Bytes) → Ends (λ u. Unit) (check_scheme scheme)
Ends-scheme scheme = ground arith

module _ {F : Type 0} where
  Ends-require_port : (v : Option (Value F)) → Ends (λ z. Unit) (require_port v)
  unfolding require_port
  Ends-require_port none = tt
  Ends-require_port (some null) = tt
  Ends-require_port (some (int n)) =
      Ends-bind (λ _. Unit {0}) (λ _. Unit {0}) (validate_port_range n) (λ u. ok n) (Ends-port n)
        (λ u _. tt)
  Ends-require_port (some (bytes _)) = tt
  Ends-require_port (some (str _)) = tt
  Ends-require_port (some (float _)) = tt
  Ends-require_port (some (bool _)) = tt
  Ends-require_port (some (list _)) = tt
  Ends-require_port (some (dict _)) = tt

  Ends-request : (v : Option (Value F)) → Ends (λ z. Unit) (native_request v)
  Ends-request none = tt
  Ends-request (some null) = tt
  Ends-request (some (int n)) = tt
  Ends-request (some (bytes _)) = tt
  Ends-request (some (str _)) = tt
  Ends-request (some (float _)) = tt
  Ends-request (some (bool _)) = tt
  Ends-request (some (list _)) = tt
  Ends-request (some (dict m)) =
      Ends-bind (λ _. Unit {0}) (λ _. Unit {0}) (require_port (field_of (codes "port") m)) _
        (Ends-require_port (field_of (codes "port") m)) (λ z _. tt)

  Ends-response : (v : Option (Value F)) → Ends (λ z. Unit) (native_response v)
  Ends-response none = tt
  Ends-response (some null) = tt
  Ends-response (some (int n)) = tt
  Ends-response (some (bytes _)) = tt
  Ends-response (some (str _)) = tt
  Ends-response (some (float _)) = tt
  Ends-response (some (bool _)) = tt
  Ends-response (some (list _)) = tt
  Ends-response (some (dict m)) = tt

  pub Ends-flow : (state : Entries F) → Ends (λ flow. Unit) (flow_from_native_state state)
  unfolding flow_from_native_state
  Ends-flow state =
      Ends-bind (λ _. Unit {0}) (λ _. Unit {0}) (native_request (field_of (codes "request") state))
        _ (Ends-request (field_of (codes "request") state))
        (λ request _.
          Ends-bind (λ _. Unit {0}) (λ _. Unit {0})
            (native_response (field_of (codes "response") state)) _
            (Ends-response (field_of (codes "response") state)) (λ response _. tt))
