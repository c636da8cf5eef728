-- ===== src/Crawl/Scope/Hosts.antt =====
-- The hosts that isPrivateHost of pkg/crawl/scope.go takes for public.
use vespasian.Prelude.{
  Bool, true, false, List, [], ◌∷◌, Option, none, some, Bytes, if◌then◌else◌, All, ◌≡◌, ◌↔◌, refl,
  subst,
}
use vespasian.Packages.{Packages}
use vespasian.Ssrf.Validate.{Resolver}
use vespasian.Ssrf.Guards.{IsPublic}
use vespasian.Crawl.Scope.{
  HostFunctions, is_private_text, any_private, lookup_private, private_host, is_private_host,
}

module _ (packages : Packages) (net : Resolver) (hosts : HostFunctions) where
  -- An address that is public, or a text that is no address.
  abbrev pub IsNotPrivate : Bytes → Type 0
  IsNotPrivate addr = (ip : Bytes) → net.parse_ip addr ≡ some ip → IsPublic ip

  -- A host that is a public address, or a name that resolves, to no private address.
  pub data IsPublicHost (host : Bytes) : Type 0 where
    literal : (ip : Bytes) → net.parse_ip host ≡ some ip → IsPublic ip → IsPublicHost host
    named :
        (addrs : List Bytes)
        → net.parse_ip host ≡ none
        → hosts.lookup_host host ≡ some addrs
        → All IsNotPrivate addrs
        → IsPublicHost host

  text_lem :
      (addr : Bytes) (ip : Option Bytes)
      → net.parse_ip addr ≡ ip
      → is_private_text ip ≡ false
      → IsNotPrivate addr
  text_lem addr none e h ip found = cc
  text_lem addr (some ip) e h ip' found = let same : ip ≡ ip' = cc in subst (λ x. IsPublic x) same h

  text_ok :
      (addr : Bytes) (ip : Option Bytes)
      → net.parse_ip addr ≡ ip
      → IsNotPrivate addr
      → is_private_text ip ≡ false
  text_ok addr none e h = refl
  text_ok addr (some ip) e h = h ip e

  any_private_lem :
      (addrs : List Bytes) → any_private packages net hosts addrs ≡ false → All IsNotPrivate addrs
  any_private_lem [] h = tt
  any_private_lem (addr ∷ addrs) h =
      let (first, rest) =
        unless_lem (is_private_text (net.parse_ip addr)) (any_private packages net hosts addrs) h in
      (text_lem addr (net.parse_ip addr) refl first, any_private_lem addrs rest)
    where
      unless_lem : (b c : Bool) → (if b then true else c) ≡ false → (b ≡ false) × (c ≡ false)
      unless_lem true c h = cc
      unless_lem false c h = (refl, h)

  any_private_ok :
      (addrs : List Bytes) → All IsNotPrivate addrs → any_private packages net hosts addrs ≡ false
  any_private_ok [] h = refl
  any_private_ok (addr ∷ addrs) (first, h) =
      rw (text_ok addr (net.parse_ip addr) refl first) (any_private_ok addrs h)

  host_lem :
      (host : Bytes) (ip : Option Bytes)
      → net.parse_ip host ≡ ip
      → private_host packages net hosts host ip ≡ false
      → IsPublicHost host
  host_lem host (some ip) e h = literal ip e h
  host_lem host none e h = named_lem (hosts.lookup_host host) refl h
    where
      named_lem :
          (found : Option (List Bytes))
          → hosts.lookup_host host ≡ found
          → lookup_private packages net hosts found ≡ false
          → IsPublicHost host
      named_lem none l h = cc
      named_lem (some addrs) l h = named addrs e l (any_private_lem addrs h)

  pub is_private_host_lem :
      (host : Bytes) → (is_private_host packages net hosts host ≡ false) ↔ IsPublicHost host
  unfolding is_private_host
  is_private_host_lem host = (host_lem host (net.parse_ip host) refl, back)
    where
      back : IsPublicHost host → private_host packages net hosts host (net.parse_ip host) ≡ false
      back (literal ip e h) = rw e h
      back (named addrs e l h) = rw (e, l) (any_private_ok addrs h)
