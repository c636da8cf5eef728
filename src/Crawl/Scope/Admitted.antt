-- ===== src/Crawl/Scope/Admitted.antt =====
-- The URLs that scopeChecker of pkg/crawl/scope.go admits.
use vespasian.Prelude.{
  and_lem, str_eq_of_nonempty, nonempty_of_str_eq, Bool, true, false, not, ◌&&◌, [], Option, none,
  some, Bytes, codes, str_eq, str_eq_iff, guard_lem, if◌then◌else◌, Result, ok, ◌≡◌, ◌≢◌, ◌⊎◌, ◌↔◌,
  refl, ap, subst, inl, inr, Bool-cases, arith,
}
use vespasian.Packages.{Packages, ParsedUrl}
use vespasian.Ssrf.Validate.{Resolver, is_http_scheme}
use vespasian.Crawl.Scope.Hosts.{IsPublicHost, is_private_host_lem}
use vespasian.Ssrf.Guards.{scheme_lem, scheme_ok}
use vespasian.Crawl.Scope.{
  ScopeConfig, HostFunctions, origin_text, http_url, is_private_host, ssrf_check, parse_http_url,
  same_domain, admits, in_domain, in_origin, domain_checker, checker_of_seed, scope_checker,
}

picked_lem :
    {A : Type 0} (b c : Bool) (v u : A)
    → (if b then none else if c then some v else none) ≡ some u
    → (b ≡ false) × (c ≡ true) × (v ≡ u)
picked_lem true c v u h = cc
picked_lem false true v u h = (refl, refl, cc)
picked_lem false false v u h = cc

ok_lem : {E A : Type 0} {x y : A} → ◌≡◌ {A = Result E A} (ok x) (ok y) → x ≡ y
ok_lem h = cc

not_lem : (b : Bool) → not b ≡ true → b ≡ false
not_lem b h = ground arith

and_ok : (a b : Bool) → a ≡ true → b ≡ true → a && b ≡ true
and_ok a b h k = ground arith

module _ (packages : Packages) (net : Resolver) (hosts : HostFunctions) where
  -- An HTTP URL with a host that meets a condition and that, unless private hosts are allowed, is public.
  pub record IsAdmitted (config : ScopeConfig) (Meets : ParsedUrl → Type 0) (raw : Bytes)
      : Type 0 where
    pub url : ParsedUrl
    pub parsed : packages.parse_url raw ≡ some url
    pub some_host : url.host ≢ []
    pub http : (url.scheme ≡ codes "http") ⊎ (url.scheme ≡ codes "https")
    pub meets : Meets url
    pub safe : config.allow_private ≡ false → IsPublicHost packages net hosts url.hostname

  http_url_lem :
      (parsed : Option ParsedUrl) (u : ParsedUrl)
      → http_url parsed ≡ some u
      → (parsed ≡ some u) × (u.host ≢ []) × (is_http_scheme u.scheme ≡ true)
  http_url_lem none u h = cc
  http_url_lem (some v) u h =
      let (some_host, http, same) = picked_lem (str_eq v.host []) (is_http_scheme v.scheme) v u h in
      (
        ap some same,
        subst (λ w. w.host ≢ []) same (nonempty_of_str_eq v.host some_host),
        subst (λ w. is_http_scheme w.scheme ≡ true) same http,
      )

  http_url_ok :
      (u : ParsedUrl) → u.host ≢ [] → is_http_scheme u.scheme ≡ true → http_url (some u) ≡ some u
  http_url_ok u some_host http = rw (str_eq_of_nonempty u.host some_host, http) refl

  ssrf_lem :
      (config : ScopeConfig) (u : ParsedUrl)
      → ssrf_check packages net hosts config u ≡ true
      → config.allow_private ≡ false
      → IsPublicHost packages net hosts u.hostname
  ssrf_lem config u h a =
      (is_private_host_lem packages net hosts u.hostname).0
        (not_lem (is_private_host packages net hosts u.hostname) (rw a at h))

  ssrf_ok :
      (config : ScopeConfig) (u : ParsedUrl)
      → (config.allow_private ≡ false → IsPublicHost packages net hosts u.hostname)
      → ssrf_check packages net hosts config u ≡ true
  ssrf_ok config u h = elim (Bool-cases config.allow_private) [
    | inl a ↦ rw a refl
    | inr a ↦ rw (a, (is_private_host_lem packages net hosts u.hostname).1 (h a)) refl
  ]

  module _ (config : ScopeConfig) (Meets : ParsedUrl → Type 0) (test : ParsedUrl → Bool)
      (test_iff : (u : ParsedUrl) → (test u ≡ true) ↔ Meets u) where
    admits_lem :
        (raw : Bytes) (u : Option ParsedUrl)
        → parse_http_url packages net hosts raw ≡ u
        → admits packages net hosts config test u ≡ true
        → IsAdmitted config Meets raw
    unfolding parse_http_url
    admits_lem raw none e h = cc
    admits_lem raw (some u) e h =
        let (tested, checked) = and_lem (test u) _ h in
        let (parsed, some_host, http) = http_url_lem (packages.parse_url raw) u e in
        record {
          url = u;
          parsed = parsed;
          some_host = some_host;
          http = scheme_lem u.scheme http;
          meets = (test_iff u).0 tested;
          safe = ssrf_lem config u checked;
        }

    admits_iff :
        (raw : Bytes)
        → (admits packages net hosts config test (parse_http_url packages net hosts raw) ≡ true)
          ↔ IsAdmitted config Meets raw
    unfolding parse_http_url
    admits_iff raw = (
      admits_lem raw (parse_http_url packages net hosts raw) refl,
      λ a.
          let is_http = http_url_ok a.url a.some_host (scheme_ok a.url.scheme a.http) in
          rw (a.parsed, is_http)
            (and_ok (test a.url) _ ((test_iff a.url).1 a.meets) (ssrf_ok config a.url a.safe)),
    )

  -- Of the same registered domain as the seed, or of the same scheme and host.
  abbrev pub InScopeOf : Bool → ParsedUrl → ParsedUrl → Type 0
  InScopeOf true seed u =
      (d : Bytes) × (e : Bytes) × (hosts.registered_domain seed.hostname ≡ some d)
      × (hosts.registered_domain u.hostname ≡ some e)
      × (packages.equal_fold e d ≡ true)
  InScopeOf false seed u = origin_text u ≡ origin_text seed

  domain_iff :
      (seed : ParsedUrl) (d : Bytes)
      → hosts.registered_domain seed.hostname ≡ some d
      → (u : ParsedUrl) → (in_domain packages net hosts d u ≡ true) ↔ InScopeOf true seed u
  domain_iff seed d e u = (
    forward (hosts.registered_domain u.hostname) refl,
    λ (d', e', s, t, fold).
        rw t (let same : d' ≡ d = cc in subst (λ x. packages.equal_fold e' x ≡ true) same fold),
  )
    where
      forward :
          (found : Option Bytes)
          → hosts.registered_domain u.hostname ≡ found
          → same_domain packages net hosts d found ≡ true
          → InScopeOf true seed u
      forward none t h = cc
      forward (some e') t h = (d, e', e, t, h)

  -- What a checker admits.
  abbrev pub Checks : ScopeConfig → Bytes → (Bytes → Bool) → Type 0
  Checks config raw_seed f =
      (seed : ParsedUrl) × (packages.parse_url raw_seed ≡ some seed)
      × (seed.host ≢ [])
      × ((raw : Bytes)
          → (f raw ≡ true)
            ↔ IsAdmitted config (InScopeOf (str_eq config.scope (codes "same-domain")) seed) raw)

  returned_lem :
      (config : ScopeConfig) (seed : ParsedUrl) (f : Bytes → Bool) (by_domain : Bool)
      (found : Option Bytes)
      → hosts.registered_domain seed.hostname ≡ found
      → (if by_domain
          then domain_checker packages net hosts config seed.hostname found
          else ok (λ raw.
            admits packages net hosts config
              (in_origin packages net hosts (origin_text seed))
              (parse_http_url packages net hosts raw)))
        ≡ ok f
      → (raw : Bytes) → (f raw ≡ true) ↔ IsAdmitted config (InScopeOf by_domain seed) raw
  returned_lem config seed f true none e h raw = cc
  returned_lem config seed f true (some d) e h raw =
      subst (λ g. (g raw ≡ true) ↔ IsAdmitted config (InScopeOf true seed) raw) (ok_lem h)
        (admits_iff config (InScopeOf true seed) (in_domain packages net hosts d)
          (domain_iff seed d e) raw)
  returned_lem config seed f false found e h raw =
      subst (λ g. (g raw ≡ true) ↔ IsAdmitted config (InScopeOf false seed) raw) (ok_lem h)
        (admits_iff config (InScopeOf false seed) (in_origin packages net hosts (origin_text seed))
          (λ u. origin_iff u) raw)
    where
      origin_iff :
          (u : ParsedUrl)
          → (in_origin packages net hosts (origin_text seed) u ≡ true) ↔ InScopeOf false seed u
      origin_iff u = str_eq_iff (origin_text u) (origin_text seed)

  checker_lem :
      (config : ScopeConfig) (raw_seed : Bytes) (parsed : Option ParsedUrl) (f : Bytes → Bool)
      → packages.parse_url raw_seed ≡ parsed
      → checker_of_seed packages net hosts config raw_seed parsed ≡ ok f
      → Checks config raw_seed f
  checker_lem config raw_seed none f e h = cc
  checker_lem config raw_seed (some seed) f e h =
      let (some_host, made) = guard_lem (str_eq seed.host []) _ _ _ h in
      (
        seed,
        e,
        nonempty_of_str_eq seed.host some_host,
        returned_lem config seed f (str_eq config.scope (codes "same-domain"))
            (hosts.registered_domain seed.hostname) refl made,
      )

  -- A function that scopeChecker returns admits a URL exactly if the URL parses, has a host and
  -- the scheme http or https; is, for the scope same-domain, of the registered domain of the seed
  -- up to case, and for any other scope of the scheme and host of the seed; and, unless private
  -- hosts are allowed, its host is a public address or a name that resolves, to no text that is
  -- read as a private address. The seed then parses and has a host.
  pub scope_checker-Checks :
      (config : ScopeConfig) (raw_seed : Bytes) (f : Bytes → Bool)
      → scope_checker packages net hosts config raw_seed ≡ ok f
      → Checks config raw_seed f
  unfolding scope_checker
  scope_checker-Checks config raw_seed f h =
      checker_lem config raw_seed (packages.parse_url raw_seed) f refl h
