-- ===== src/Importer/Safe/Checked.antt =====
-- What the checks of a flow by pkg/importer/mitmproxy.go leave.
use vespasian.Prelude.{
  or_false_lem, guard_lem, ℕ, ◌≤◌, Bool, true, false, not, ◌&&◌, [], ◌∷◌, ◌≡◌, ◌≢◌, refl, arith,
  All, Bytes, length, any, ltb, ltb_false→le, str_eq, str_eq_iff, if◌then◌else◌, ◌==◌, ok, err,
}
use vespasian.Prelude.Int.{ℤ, pos, negsuc}
use vespasian.Prelude.Parts.{contains}
use vespasian.Importer.Flows.{
  MitmproxyFlow, ImportError, valid_http_methods, allowed_schemes, max_host_length, holds_byte,
  is_delimiter, is_control, validate_port_range, validate_host,
}
use vespasian.Importer.Parse.{check_method, check_scheme}

-- A byte that may stand in a host: it ends no authority of a URL, and starts no other part of one.
abbrev is_host_byte : ℕ → Bool
is_host_byte c = not (c == 0x40) && not (c == 0x3a) && not (is_delimiter c) && not (is_control c)

-- A flow that passed the checks.
pub record IsChecked (flow : MitmproxyFlow) : Type 0 where
  pub known_method : contains valid_http_methods flow.request.method ≡ true
  pub known_scheme : contains allowed_schemes flow.request.scheme ≡ true
  pub some_host : flow.request.host ≢ []
  pub short_host : length flow.request.host ≤ max_host_length
  pub host_bytes : All (λ c. is_host_byte c ≡ true) flow.request.host
  pub port_range : (n : ℕ) × (flow.request.port ≡ pos n) × (n ≤ 65535)

host_lem :
    (host : Bytes)
    → validate_host host ≡ ok tt
    → (str_eq host [] ≡ false)
      × (ltb max_host_length (length host) ≡ false)
      × (holds_byte 0x40 host ≡ false)
      × (holds_byte 0x3a host ≡ false)
      × (any is_delimiter host ≡ false)
      × (any is_control host ≡ false)
unfolding validate_host
host_lem host h =
    let (a, h1) = guard_lem _ _ _ _ h in
    let (b, h2) = guard_lem _ _ _ _ h1 in
    let (c, h3) = guard_lem _ _ _ _ h2 in
    let (d, h4) = guard_lem _ _ _ _ h3 in
    let (e, h5) = guard_lem _ _ _ _ h4 in let (f, h6) = guard_lem _ _ _ _ h5 in (a, b, c, d, e, f)

host_byte_lem :
    (a b c d : Bool)
    → a ≡ false
    → b ≡ false
    → c ≡ false
    → d ≡ false
    → not a && not b && not c && not d ≡ true
host_byte_lem a b c d ha hb hc hd = ground arith

no_byte_lem :
    (host : Bytes)
    → holds_byte 0x40 host ≡ false
    → holds_byte 0x3a host ≡ false
    → any is_delimiter host ≡ false
    → any is_control host ≡ false
    → All (λ c. is_host_byte c ≡ true) host
no_byte_lem [] a b c d = tt
no_byte_lem (x ∷ xs) a b c d =
    let (a_first, a_rest) = or_false_lem (x == 0x40) (holds_byte 0x40 xs) a in
    let (b_first, b_rest) = or_false_lem (x == 0x3a) (holds_byte 0x3a xs) b in
    let (c_first, c_rest) = or_false_lem (is_delimiter x) (any is_delimiter xs) c in
    let (d_first, d_rest) = or_false_lem (is_control x) (any is_control xs) d in
    (
      host_byte_lem (x == 0x40) (x == 0x3a) (is_delimiter x) (is_control x) a_first b_first c_first
          d_first,
      no_byte_lem xs a_rest b_rest c_rest d_rest,
    )

port_lem : (port : ℤ) → validate_port_range port ≡ ok tt → (n : ℕ) × (port ≡ pos n) × (n ≤ 65535)
unfolding validate_port_range
port_lem (pos n) h = (n, refl, ground arith)
port_lem (negsuc n) h = ground arith

check_lem : (e : ImportError) (b : Bool) → (if b then ok (tt {0}) else err e) ≡ ok tt → b ≡ true
check_lem e b h = ground arith

nonempty_lem : (host : Bytes) → str_eq host [] ≡ false → host ≢ []
nonempty_lem [] h e = ground (arith, h, str_eq_iff [] [])
nonempty_lem (c ∷ host) h e = cc

pub checked_lem :
    (flow : MitmproxyFlow)
    → validate_port_range flow.request.port ≡ ok tt
    → check_method flow.request.method ≡ ok tt
    → check_scheme flow.request.scheme ≡ ok tt
    → validate_host flow.request.host ≡ ok tt
    → IsChecked flow
checked_lem flow p m s h =
    let (some_host, short, a, b, c, d) = host_lem flow.request.host h in
    record {
      known_method = check_lem _ (contains valid_http_methods flow.request.method) m;
      known_scheme = check_lem _ (contains allowed_schemes flow.request.scheme) s;
      some_host = nonempty_lem flow.request.host some_host;
      short_host = ltb_false→le max_host_length (length flow.request.host) short;
      host_bytes = no_byte_lem flow.request.host a b c d;
      port_range = port_lem flow.request.port p;
    }
