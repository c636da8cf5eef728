-- ===== src/Ssrf/Tests.antt =====
-- Runs of the guards of pkg/ssrf/ssrf.go, and their theorems at concrete inputs.
use vespasian.Prelude.{
  ℕ, true, List, [], ◌∷◌, ◌++◌, Option, none, some, Bytes, codes, str_eq, if◌then◌else◌, Result, ok,
  err, inl, ◌≡◌, ◌↔◌, refl, arith,
}
use vespasian.Packages.Samples.{samples}
use vespasian.Ssrf.{ipv4, mapped_prefix, to4, is_private_ip}
use vespasian.Ssrf.Addresses.{is_reserved, is_private_ip-is_reserved}
use vespasian.Ssrf.Validate.{Resolver, validate_url, safe_dial_context}
use vespasian.Ssrf.Guards.{IsAllowed, validate_url_lem}
use vespasian.Ssrf.Dialing.{DialsPublic, safe_dial_context-DialsPublic}

-- One literal address, and two names, of which the second also has a private address.
abbrev sample_ip : Bytes → Option Bytes
sample_ip host = if str_eq host (codes "10.0.0.1") then some (ipv4 10 0 0 1) else none

abbrev sample_lookup : Bytes → Option (List Bytes)
sample_lookup host =
    if str_eq host (codes "api.io")
    then some (ipv4 93 184 216 34 ∷ ipv4 93 184 216 35 ∷ [])
    else if str_eq host (codes "rebind.io")
    then some (ipv4 93 184 216 34 ∷ ipv4 169 254 169 254 ∷ [])
    else none

abbrev resolver : Resolver
resolver = record {
  parse_ip = sample_ip;
  split_host_port = λ addr. some (addr, codes "443");
  lookup_ip = sample_lookup;
}

-- The first address does not answer.
abbrev dialer : Bytes → Bytes → Result ℕ Bytes
dialer ip port = if str_eq ip (ipv4 93 184 216 34) then err 111 else ok ip

guard : Unit {0}
unfolding validate_url safe_dial_context is_private_ip to4 str_eq
guard = tt

metadata_mapped : is_private_ip (mapped_prefix ++ ipv4 169 254 169 254) ≡ true
unfolding guard
metadata_mapped = refl

second_address : safe_dial_context resolver dialer (codes "api.io") ≡ record {
  attempts = ipv4 93 184 216 34 ∷ ipv4 93 184 216 35 ∷ [];
  result = ok (ipv4 93 184 216 35);
}
unfolding guard
second_address = refl

is_private_ip-is_reserved_example :
    is_private_ip (ipv4 172 31 255 255) ≡ is_reserved (ipv4 172 31 255 255)
is_private_ip-is_reserved_example =
    is_private_ip-is_reserved (ipv4 172 31 255 255) (omega arith) (inl refl)

validate_url_lem_example :
    (validate_url samples resolver (codes "https://rebind.io/") ≡ ok tt)
    ↔ IsAllowed samples resolver (codes "https://rebind.io/")
validate_url_lem_example = validate_url_lem samples resolver (codes "https://rebind.io/")

safe_dial_context-DialsPublic_example :
    DialsPublic resolver dialer
      (codes "api.io")
      (safe_dial_context resolver dialer (codes "api.io"))
safe_dial_context-DialsPublic_example =
    safe_dial_context-DialsPublic resolver dialer (codes "api.io")
