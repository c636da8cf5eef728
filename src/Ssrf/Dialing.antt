-- ===== src/Ssrf/Dialing.antt =====
-- What SafeDialContext of pkg/ssrf/ssrf.go dials.
use vespasian.Prelude.{
  Bool, true, false, List, [], ◌∷◌, ◌++◌, Option, none, some, Bytes, Result, ok, err, All, ◌≡◌,
  refl, sym, ap, ◌∙◌, inl, inr, Bool-cases, subst, if◌then◌else◌,
}
use vespasian.Ssrf.{is_private_ip}
use vespasian.Ssrf.Validate.{
  Resolver, DialError, Dialed, first_private, refused, dial_loop, dial_host, dial_lookup,
  dial_unless, safe_dial_context, not_connected, no_addresses, dial_blocked, dial_lookup_failed,
  invalid_address,
}
use vespasian.Ssrf.Guards.{IsPublic}

first_private-none : (ips : List Bytes) → first_private ips ≡ none → All IsPublic ips
first_private-none [] h = tt
first_private-none (ip ∷ ips) h =
    let (public, rest) = unless_lem (is_private_ip ip) ip (first_private ips) h in
    (public, first_private-none ips rest)
  where
    unless_lem :
        (b : Bool) (ip : Bytes) (rest : Option Bytes)
        → (if b then some ip else rest) ≡ none
        → (b ≡ false) × (rest ≡ none)
    unless_lem true ip rest h = cc
    unless_lem false ip rest h = (refl, h)

first_private-some :
    (ips : List Bytes) (ip : Bytes)
    → first_private ips ≡ some ip
    → (before : List Bytes) × (after : List Bytes) × (ips ≡ before ++ ip ∷ after)
      × All IsPublic before
      × (is_private_ip ip ≡ true)
first_private-some [] ip h = cc
first_private-some (first ∷ ips) ip h = elim (Bool-cases (is_private_ip first)) [
  | inl private ↦
      let same : first ≡ ip =
        cc (ap (λ b. if b then some first else first_private ips) (sym private) ∙ h) in
      ([], ips, ap (λ s. s ∷ ips) same, tt, subst (λ s. is_private_ip s ≡ true) same private)
  | inr public ↦
      let (before, after, split, publics, private) =
        first_private-some ips ip
          (ap (λ b. if b then some first else first_private ips) (sym public) ∙ h) in
      (first ∷ before, after, ap (λ s. first ∷ s) split, (public, publics), private)
]

module _ {C E : Type 0} (dial : Bytes → Bytes → Result E C) (port : Bytes) where
  abbrev Fails : Bytes → Type 0
  Fails ip = (e : E) × (dial ip port ≡ err e)

  -- The addresses are dialed in their order, up to the first that answers.
  pub data DialsInOrder (ips : List Bytes) (d : Dialed C E) : Type 0 where
    connected :
        (before : List Bytes) (ip : Bytes) (after : List Bytes) (conn : C)
        → ips ≡ before ++ ip ∷ after
        → All Fails before
        → dial ip port ≡ ok conn
        → d ≡ record { attempts = before ++ ip ∷ []; result = ok conn }
        → DialsInOrder ips d
    failed :
        (e : E)
        → All Fails ips
        → d ≡ record { attempts = ips; result = err (not_connected e) }
        → DialsInOrder ips d

  behind_lem :
      (ip : Bytes) (ips : List Bytes) (e : E) (rest : Dialed C E)
      → dial ip port ≡ err e
      → DialsInOrder ips rest
      → DialsInOrder (ip ∷ ips) (record rest { attempts = ip ∷ rest.attempts })
  behind_lem ip ips e rest h (connected before last after conn split fails answer same) =
      connected (ip ∷ before) last after conn (ap (λ s. ip ∷ s) split) ((e, h), fails) answer
        (ap (λ (d : Dialed C E). record d { attempts = ip ∷ d.attempts }) same)
  behind_lem ip ips e rest h (failed last fails same) =
      failed last ((e, h), fails)
        (ap (λ (d : Dialed C E). record d { attempts = ip ∷ d.attempts }) same)

  dial_loop_lem :
      (ips : List Bytes) (ip : Bytes) (r : Result E C)
      → dial ip port ≡ r
      → DialsInOrder (ip ∷ ips) (dial_loop dial port ips ip r)
  dial_loop_lem ips ip (ok conn) h = connected [] ip ips conn refl tt h refl
  dial_loop_lem [] ip (err e) h = failed e ((e, h), tt) refl
  dial_loop_lem (next ∷ ips) ip (err e) h =
      behind_lem ip (next ∷ ips) e (dial_loop dial port ips next (dial next port)) h
        (dial_loop_lem ips next (dial next port) refl)

module _ {C E : Type 0} (net : Resolver) (dial : Bytes → Bytes → Result E C) (addr : Bytes) where
  -- Why nothing is dialed. Of several private addresses the first is named.
  abbrev pub Refuses : DialError E → Type 0
  Refuses invalid_address = net.split_host_port addr ≡ none
  Refuses (dial_lookup_failed host) =
      (port : Bytes) × (net.split_host_port addr ≡ some (host, port)) × (net.lookup_ip host ≡ none)
  Refuses (no_addresses host) =
      (port : Bytes) × (net.split_host_port addr ≡ some (host, port))
      × (net.lookup_ip host ≡ some [])
  Refuses (dial_blocked host ip) =
      (port : Bytes) × (net.split_host_port addr ≡ some (host, port))
      × ((before : List Bytes) × (after : List Bytes) × (net.lookup_ip host
            ≡ some (before ++ ip ∷ after))
          × All IsPublic before
          × (is_private_ip ip ≡ true))
  Refuses (not_connected e) = ⊥

  -- Nothing is dialed, or the addresses of the host, of which all are public.
  pub data DialsPublic (d : Dialed C E) : Type 0 where
    refused_lem : (e : DialError E) → Refuses e → d ≡ refused e → DialsPublic d
    dialed :
        (host port : Bytes) (ips : List Bytes)
        → net.split_host_port addr ≡ some (host, port)
        → net.lookup_ip host ≡ some ips
        → All IsPublic ips
        → DialsInOrder dial port ips d
        → DialsPublic d

  unless_lem :
      (host port : Bytes) (ips : List Bytes) (found : Option Bytes)
      → first_private ips ≡ found
      → net.split_host_port addr ≡ some (host, port)
      → net.lookup_ip host ≡ some ips
      → DialsPublic (dial_unless dial port host ips found)
  unless_lem host port ips (some ip) h s l =
      let (before, after, split, public, private) = first_private-some ips ip h in
      refused_lem (dial_blocked host ip)
        (port, s, (before, after, l ∙ ap some split, public, private)) refl
  unless_lem host port [] none h s l = refused_lem (no_addresses host) (port, s, l) refl
  unless_lem host port (ip ∷ ips) none h s l =
      dialed host port (ip ∷ ips) s l (first_private-none (ip ∷ ips) h)
        (dial_loop_lem dial port ips ip (dial ip port) refl)

  lookup_lem :
      (host port : Bytes) (found : Option (List Bytes))
      → net.split_host_port addr ≡ some (host, port)
      → net.lookup_ip host ≡ found
      → DialsPublic (dial_lookup dial port host found)
  lookup_lem host port none s l = refused_lem (dial_lookup_failed host) (port, s, l) refl
  lookup_lem host port (some ips) s l = unless_lem host port ips (first_private ips) refl s l

  dial_host_lem :
      (split : Option (Bytes × Bytes))
      → net.split_host_port addr ≡ split
      → DialsPublic (dial_host net dial split)
  dial_host_lem none s = refused_lem invalid_address s refl
  dial_host_lem (some (host, port)) s = lookup_lem host port (net.lookup_ip host) s refl

  -- SafeDialContext either dials nothing and names the reason: the address does not split, the
  -- host does not resolve or has no addresses, or one of them is private, and then the first
  -- such; or all addresses of the host are public, and it dials them in their order up to the
  -- first that answers, whose connection it returns, or all of them, and returns the error of the
  -- last.
  pub safe_dial_context-DialsPublic : DialsPublic (safe_dial_context net dial addr)
  unfolding safe_dial_context
  safe_dial_context-DialsPublic = dial_host_lem (net.split_host_port addr) refl
