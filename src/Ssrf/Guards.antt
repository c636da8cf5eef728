-- ===== src/Ssrf/Guards.antt =====
-- What the guards of pkg/ssrf/ssrf.go let through.
use vespasian.Prelude.{
  or_right_lem, Bool, true, false, ◌||◌, List, [], ◌∷◌, Option, none, some, Bytes, codes, str_eq,
  str_eq_iff, str_eq_refl, subst, guard_lem, if◌then◌else◌, Result, ok, err, All, ◌≡◌, ◌⊎◌, ◌↔◌,
  refl, inl, inr, Bool-cases, arith,
}
use vespasian.Packages.{Packages, ParsedUrl}
use vespasian.Ssrf.{is_private_ip}
use vespasian.Ssrf.Validate.{
  Resolver, UrlError, is_http_scheme, check_addrs, check_host, check_lookup, check_parsed,
  validate_url,
}

abbrev pub IsPublic : Bytes → Type 0
IsPublic ip = is_private_ip ip ≡ false

-- The addresses of a host: itself, if it is one, or else those that it resolves to.
pub data Resolves (net : Resolver) (host : Bytes) (ips : List Bytes) : Type 0 where
  literal : (ip : Bytes) → net.parse_ip host ≡ some ip → ips ≡ ip ∷ [] → Resolves net host ips
  named : net.parse_ip host ≡ none → net.lookup_ip host ≡ some ips → Resolves net host ips

or_true_lem : (x y : Bool) → y ≡ true → x || y ≡ true
or_true_lem x y h = ground arith

pub then_lem :
    (b : Bool) (r : Result UrlError (Unit {0})) (e : UrlError) (x : Unit {0})
    → (if b then r else err e) ≡ ok x
    → (b ≡ true) × (r ≡ ok x)
then_lem true r e x h = (refl, h)
then_lem false r e x h = cc

-- A URL with the scheme http or https whose host has public addresses only.
pub record IsAllowed (packages : Packages) (net : Resolver) (raw : Bytes) : Type 0 where
  pub url : ParsedUrl
  pub parsed : packages.parse_url raw ≡ some url
  pub http : (url.scheme ≡ codes "http") ⊎ (url.scheme ≡ codes "https")
  pub ips : List Bytes
  pub resolved : Resolves net url.hostname ips
  pub public : All IsPublic ips

addrs_lem : (host : Bytes) (ips : List Bytes) → check_addrs host ips ≡ ok tt → All IsPublic ips
addrs_lem host [] h = tt
addrs_lem host (ip ∷ ips) h =
    let (public, rest) = guard_lem _ _ _ _ h in (public, addrs_lem host ips rest)

addrs_ok : (host : Bytes) (ips : List Bytes) → All IsPublic ips → check_addrs host ips ≡ ok tt
addrs_ok host [] h = refl
addrs_ok host (ip ∷ ips) (public, h) = rw public (addrs_ok host ips h)

pub scheme_lem :
    (scheme : Bytes)
    → is_http_scheme scheme ≡ true
    → (scheme ≡ codes "http") ⊎ (scheme ≡ codes "https")
scheme_lem scheme h = elim (Bool-cases (str_eq scheme (codes "http"))) [
  | inl e ↦ inl ((str_eq_iff scheme (codes "http")).0 e)
  | inr e ↦ inr ((str_eq_iff scheme (codes "https")).0 (or_right_lem _ _ e h))
]

pub scheme_ok :
    (scheme : Bytes)
    → (scheme ≡ codes "http") ⊎ (scheme ≡ codes "https")
    → is_http_scheme scheme ≡ true
scheme_ok scheme (inl e) = rw e (rw (str_eq_refl (codes "http")) refl)
scheme_ok scheme (inr e) =
    rw e (or_true_lem (str_eq (codes "https") (codes "http")) _ (str_eq_refl (codes "https")))

module _ (packages : Packages) (net : Resolver) where
  named_lem :
      (host : Bytes) (found : Option (List Bytes))
      → check_lookup host found ≡ ok tt
      → (ips : List Bytes) × (found ≡ some ips) × All IsPublic ips
  named_lem host none h = cc
  named_lem host (some ips) h = (ips, refl, addrs_lem host ips h)

  host_lem :
      (host : Bytes) (literal_ip : Option Bytes)
      → net.parse_ip host ≡ literal_ip
      → check_host net host literal_ip ≡ ok tt
      → (ips : List Bytes) × Resolves net host ips × All IsPublic ips
  host_lem host (some ip) e h = (ip ∷ [], literal ip e refl, ((guard_lem _ _ _ _ h).0, tt))
  host_lem host none e h =
      let (ips, found, public) = named_lem host (net.lookup_ip host) h in
      (ips, named e found, public)

  parsed_lem :
      (raw : Bytes) (u : Option ParsedUrl)
      → packages.parse_url raw ≡ u
      → check_parsed net u ≡ ok tt
      → IsAllowed packages net raw
  parsed_lem raw none e h = cc
  parsed_lem raw (some u) e h =
      let (http, checked) = then_lem (is_http_scheme u.scheme) _ _ _ h in
      let (ips, resolved, public) = host_lem u.hostname (net.parse_ip u.hostname) refl checked in
      record {
        url = u;
        parsed = e;
        http = scheme_lem u.scheme http;
        ips = ips;
        resolved = resolved;
        public = public;
      }

  host_ok :
      (host : Bytes) (ips : List Bytes)
      → Resolves net host ips
      → All IsPublic ips
      → check_host net host (net.parse_ip host) ≡ ok tt
  host_ok host ips (literal ip e same) public = rw e (rw (subst (All IsPublic) same public).0 refl)
  host_ok host ips (named e found) public = rw (e, found) (addrs_ok host ips public)

  -- ValidateURL accepts a URL exactly if it parses, has the scheme http or https, and its host is
  -- a public address or a name that resolves to public addresses only.
  pub validate_url_lem :
      (raw : Bytes) → (validate_url packages net raw ≡ ok tt) ↔ IsAllowed packages net raw
  unfolding validate_url
  validate_url_lem raw = (
    (λ h. parsed_lem raw (packages.parse_url raw) refl h),
    λ a.
        rw (a.parsed, scheme_ok a.url.scheme a.http)
          (host_ok a.url.hostname a.ips a.resolved a.public),
  )
