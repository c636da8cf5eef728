-- ===== src/Crawl/Scope/Tests.antt =====
-- The theorem on the scope checker of pkg/crawl/scope.go at a concrete input.
use vespasian.Prelude.{
  Bool, true, false, [], ◌∷◌, none, some, Bytes, codes, str_eq, if◌then◌else◌, ok, ◌≡◌, refl,
}
use vespasian.Packages.Samples.{samples}
use vespasian.Ssrf.{ipv4, is_private_ip, to4}
use vespasian.Prelude.Search.{before_byte}
use vespasian.Ssrf.Validate.{Resolver}
use vespasian.Crawl.Scope.{
  ScopeConfig, HostFunctions, scope_checker, parse_http_url, admits, in_origin, is_private_host,
}
use vespasian.Crawl.Scope.Admitted.{Checks, scope_checker-Checks}

abbrev resolver : Resolver
resolver = record {
  parse_ip = λ text. if str_eq text (codes "1.2.3.4") then some (ipv4 1 2 3 4) else none;
  split_host_port = λ addr. none;
  lookup_ip = λ host. none;
}

abbrev hosts : HostFunctions
hosts = record {
  lookup_host = λ host. some (codes "1.2.3.4" ∷ []);
  registered_domain = λ host. none;
}

abbrev config : ScopeConfig
config = record { scope = codes "same-origin"; allow_private = false }

abbrev seed : Bytes
seed = codes "https://api.io/v1"

abbrev checker : Bytes → Bool
checker raw =
    admits samples resolver hosts config (in_origin samples resolver hosts (codes "https://api.io"))
      (parse_http_url samples resolver hosts raw)

checker_returned : scope_checker samples resolver hosts config seed ≡ ok checker
unfolding scope_checker str_eq before_byte
checker_returned = refl

url_in_scope : checker (codes "https://api.io/v2/users") ≡ true
unfolding parse_http_url is_private_host is_private_ip to4 str_eq before_byte
url_in_scope = refl

other_port : checker (codes "https://api.io:8443/v2/users") ≡ false
unfolding parse_http_url is_private_host is_private_ip to4 str_eq before_byte
other_port = refl

scope_checker-Checks_example : Checks samples resolver hosts config seed checker
scope_checker-Checks_example =
    scope_checker-Checks samples resolver hosts config seed checker checker_returned
