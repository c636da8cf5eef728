-- ===== src/Ssrf/Validate.antt =====
-- ValidateURL and SafeDialContext of pkg/ssrf/ssrf.go. The resolver and the dialer are parameters,
-- with what they answer at the time of the call.
use vespasian.Prelude.{
  Bool, ◌||◌, List, [], ◌∷◌, Option, none, some, Bytes, codes, str_eq, if◌then◌else◌, Result, ok,
  err,
}
use vespasian.Packages.{Packages, ParsedUrl}
use vespasian.Ssrf.{is_private_ip}

-- `net.ParseIP`, `net.SplitHostPort`, and `LookupIPAddr`; `none` stands for an error.
pub record Resolver : Type 0 where
  pub parse_ip : Bytes → Option Bytes
  pub split_host_port : Bytes → Option (Bytes × Bytes)
  pub lookup_ip : Bytes → Option (List Bytes)

pub data UrlError : Type 0 where
  invalid_url : UrlError
  unsupported_scheme lookup_failed : Bytes → UrlError
  blocked_ip : Bytes → UrlError
  resolves_to_blocked : Bytes → Bytes → UrlError

abbrev pub is_http_scheme : Bytes → Bool
is_http_scheme scheme = str_eq scheme (codes "http") || str_eq scheme (codes "https")

abbrev pub check_addrs : Bytes → List Bytes → Result UrlError (Unit {0})
check_addrs host [] = ok tt
check_addrs host (ip ∷ ips) =
    let rest = check_addrs host ips in
    if is_private_ip ip then err (resolves_to_blocked host ip) else rest

abbrev pub check_lookup : Bytes → Option (List Bytes) → Result UrlError (Unit {0})
check_lookup host none = err (lookup_failed host)
check_lookup host (some ips) = check_addrs host ips

abbrev pub check_host : Resolver → Bytes → Option Bytes → Result UrlError (Unit {0})
check_host net host (some ip) = if is_private_ip ip then err (blocked_ip ip) else ok tt
check_host net host none = check_lookup host (net.lookup_ip host)

abbrev pub check_parsed : Resolver → Option ParsedUrl → Result UrlError (Unit {0})
check_parsed net none = err invalid_url
check_parsed net (some u) =
    if is_http_scheme u.scheme
    then check_host net u.hostname (net.parse_ip u.hostname)
    else err (unsupported_scheme u.scheme)

unfoldable pub validate_url : Packages → Resolver → Bytes → Result UrlError (Unit {0})
validate_url packages net raw = check_parsed net (packages.parse_url raw)

pub data DialError (E : Type 0) : Type 0 where
  invalid_address : DialError E
  dial_lookup_failed no_addresses : Bytes → DialError E
  dial_blocked : Bytes → Bytes → DialError E
  not_connected : E → DialError E

-- The addresses that are dialed, in order, and what SafeDialContext returns; the last error of
-- the dialer is nil only before the first call.
pub record Dialed (C E : Type 0) : Type 0 where
  pub attempts : List Bytes
  pub result : Result (DialError E) C

-- The first address that is private.
abbrev pub first_private : List Bytes → Option Bytes
first_private [] = none
first_private (ip ∷ ips) =
    let rest = first_private ips in if is_private_ip ip then some ip else rest

module _ {C E : Type 0} where
  abbrev pub refused : DialError E → Dialed C E
  refused e = record { attempts = []; result = err e }

  module _ (dial : Bytes → Bytes → Result E C) (port : Bytes) where
    -- The loop, behind an address whose dialing gave the result.
    abbrev pub dial_loop : List Bytes → Bytes → Result E C → Dialed C E
    dial_loop ips ip (ok conn) = record { attempts = ip ∷ []; result = ok conn }
    dial_loop [] ip (err e) = record { attempts = ip ∷ []; result = err (not_connected e) }
    dial_loop (next ∷ ips) ip (err e) =
        let rest = dial_loop ips next (dial next port) in
        record rest { attempts = ip ∷ rest.attempts }

    abbrev pub dial_all : Bytes → List Bytes → Dialed C E
    dial_all host [] = refused (no_addresses host)
    dial_all host (ip ∷ ips) = dial_loop ips ip (dial ip port)

    abbrev pub dial_unless : Bytes → List Bytes → Option Bytes → Dialed C E
    dial_unless host ips none = dial_all host ips
    dial_unless host ips (some ip) = refused (dial_blocked host ip)

    abbrev pub dial_lookup : Bytes → Option (List Bytes) → Dialed C E
    dial_lookup host none = refused (dial_lookup_failed host)
    dial_lookup host (some ips) = dial_unless host ips (first_private ips)

  abbrev pub dial_host :
      Resolver → (Bytes → Bytes → Result E C) → Option (Bytes × Bytes) → Dialed C E
  dial_host net dial none = refused invalid_address
  dial_host net dial (some (host, port)) = dial_lookup dial port host (net.lookup_ip host)

  unfoldable pub safe_dial_context : Resolver → (Bytes → Bytes → Result E C) → Bytes → Dialed C E
  safe_dial_context net dial addr = dial_host net dial (net.split_host_port addr)
