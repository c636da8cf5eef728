-- ===== src/Crawl/Scope.antt =====
-- scopeChecker of pkg/crawl/scope.go: the URLs that a crawl may visit. `net.LookupHost` and the
-- registered domain of golang.org/x/net/publicsuffix are parameters, beside those of Ssrf.
pub mod Hosts
pub mod Admitted
mod Tests
use vespasian.Prelude.{
  Bool, true, false, not, ◌&&◌, ◌||◌, List, [], ◌∷◌, ◌++◌, Option, none, some, Bytes, codes, str_eq,
  if◌then◌else◌, Result, ok, err,
}
use vespasian.Packages.{Packages, ParsedUrl}
use vespasian.Ssrf.{is_private_ip}
use vespasian.Ssrf.Validate.{Resolver, is_http_scheme}

pub data ScopeError : Type 0 where
  bad_seed : ScopeError
  seed_without_host seed_without_domain : Bytes → ScopeError

-- The settings of a crawl.
pub record ScopeConfig : Type 0 where
  pub scope : Bytes
  pub allow_private : Bool

-- `net.LookupHost`, which answers texts, and `publicsuffix.EffectiveTLDPlusOne`.
pub record HostFunctions : Type 0 where
  pub lookup_host : Bytes → Option (List Bytes)
  pub registered_domain : Bytes → Option Bytes

abbrev pub is_private_text : Option Bytes → Bool
is_private_text none = false
is_private_text (some ip) = is_private_ip ip

abbrev pub origin_text : ParsedUrl → Bytes
origin_text u = u.scheme ++ (codes "://" ++ u.host)

abbrev pub http_url : Option ParsedUrl → Option ParsedUrl
http_url none = none
http_url (some u) =
    if str_eq u.host [] then none else if is_http_scheme u.scheme then some u else none

module _ (packages : Packages) (net : Resolver) (hosts : HostFunctions) where
  abbrev pub any_private : List Bytes → Bool
  any_private [] = false
  any_private (addr ∷ addrs) =
      let rest = any_private addrs in if is_private_text (net.parse_ip addr) then true else rest

  abbrev pub lookup_private : Option (List Bytes) → Bool
  lookup_private none = true
  lookup_private (some addrs) = any_private addrs

  abbrev pub private_host : Bytes → Option Bytes → Bool
  private_host host (some ip) = is_private_ip ip
  private_host host none = lookup_private (hosts.lookup_host host)

  unfoldable pub is_private_host : Bytes → Bool
  is_private_host host = private_host host (net.parse_ip host)

  abbrev pub ssrf_check : ScopeConfig → ParsedUrl → Bool
  ssrf_check config u = if config.allow_private then true else not (is_private_host u.hostname)

  unfoldable pub parse_http_url : Bytes → Option ParsedUrl
  parse_http_url raw = http_url (packages.parse_url raw)

  abbrev pub same_domain : Bytes → Option Bytes → Bool
  same_domain seed_domain none = false
  same_domain seed_domain (some d) = packages.equal_fold d seed_domain

  -- What the two functions that are returned have in common.
  abbrev pub admits : ScopeConfig → (ParsedUrl → Bool) → Option ParsedUrl → Bool
  admits config test none = false
  admits config test (some u) = test u && ssrf_check config u

  abbrev pub in_domain : Bytes → ParsedUrl → Bool
  in_domain seed_domain u = same_domain seed_domain (hosts.registered_domain u.hostname)

  abbrev pub in_origin : Bytes → ParsedUrl → Bool
  in_origin seed_origin u = str_eq (origin_text u) seed_origin

  abbrev pub domain_checker : ScopeConfig → Bytes → Option Bytes → Result ScopeError (Bytes → Bool)
  domain_checker config host none = err (seed_without_domain host)
  domain_checker config host (some d) = ok (λ raw. admits config (in_domain d) (parse_http_url raw))

  abbrev pub checker_of_seed :
      ScopeConfig → Bytes → Option ParsedUrl → Result ScopeError (Bytes → Bool)
  checker_of_seed config raw_seed none = err bad_seed
  checker_of_seed config raw_seed (some seed) =
      if str_eq seed.host []
      then err (seed_without_host raw_seed)
      else if str_eq config.scope (codes "same-domain")
      then domain_checker config seed.hostname (hosts.registered_domain seed.hostname)
      else ok (λ raw. admits config (in_origin (origin_text seed)) (parse_http_url raw))

  unfoldable pub scope_checker : ScopeConfig → Bytes → Result ScopeError (Bytes → Bool)
  scope_checker config raw_seed = checker_of_seed config raw_seed (packages.parse_url raw_seed)
