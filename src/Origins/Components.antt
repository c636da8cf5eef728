-- ===== src/Origins/Components.antt =====
-- The origins of pkg/crawl/jsreplay.go against the components of the URLs.
use vespasian.Prelude.{
  Bool, true, false, not, ◌&&◌, [], ◌∷◌, ◌++◌, some, ◌≡◌, ◌↔◌, refl, sym, ◌∙◌, arith, Bytes, codes,
  str_eq, str_eq_iff, str_eq_refl, append_assoc, if◌then◌else◌,
}
use vespasian.Prelude.Parts.{Lacks}
use vespasian.Packages.{Packages, ParsedUrl}
use vespasian.Origins.{
  is_bracketed, lower_host, is_unusable, effective_port, with_brackets, with_port, origin_of_url,
  origin_of, same_origin,
}
use vespasian.Origins.Cuts.{
  same_tail, cut, port_part, port_part_same, cut_port, not_bracket, includes-Lacks, with_port-part,
}

-- What `url.Parse` says of the parts of a URL, and the lower case keeps: no scheme and no port has a
-- colon, and no host name a bracket.
pub record IsParsed (packages : Packages) (u : ParsedUrl) : Type 0 where
  pub scheme_colon : Lacks 0x3a (packages.to_lower u.scheme)
  pub port_colon : Lacks 0x3a u.port
  pub host_open : Lacks 0x5b (lower_host packages u)
  pub host_close : Lacks 0x5d (lower_host packages u)

-- The scheme, whether the host is a literal address in brackets, the host and the port.
abbrev pub Parts : Type 0
Parts = Bytes × (Bool × (Bytes × Bytes))

abbrev pub parts : Packages → ParsedUrl → Parts
parts packages u = (
  packages.to_lower u.scheme,
  (is_bracketed u, (lower_host packages u, effective_port packages u)),
)

abbrev pub is_usable : Packages → ParsedUrl → Bool
is_usable packages u =
    not (str_eq u.host []) && not (is_unusable (is_bracketed u) (lower_host packages u))

hosts_same :
    (b c : Bool) (g h p q : Bytes)
    → Lacks 0x5b g
    → Lacks 0x5b h
    → Lacks 0x5d g
    → Lacks 0x5d h
    → is_unusable b g ≡ false
    → is_unusable c h ≡ false
    → with_brackets b g ++ port_part p ≡ with_brackets c h ++ port_part q
    → (b ≡ c) × (g ≡ h) × (p ≡ q)
hosts_same true true g h p q og oh cg ch ug uh e =
    let (d, r) = cut 0x5d g h (port_part p) (port_part q) cg ch (
      sym (append_assoc g (codes "]") (port_part p))
      ∙ (same_tail e ∙ append_assoc h (codes "]") (port_part q))) in
    (refl, d, port_part_same p q r)
hosts_same true false g h p q og oh cg ch ug uh e = absurd (not_bracket h _ q oh e)
hosts_same false true g h p q og oh cg ch ug uh e = absurd (not_bracket g _ p og (sym e))
hosts_same false false g h p q og oh cg ch ug uh e =
    let (d, r) = cut_port g h p q (includes-Lacks g ug) (includes-Lacks h uh) e in (refl, d, r)

abbrev render : Parts → Bytes
render (s, (b, (h, p))) = with_port p (s ++ (codes "://" ++ with_brackets b h))

render_split :
    (s h p : Bytes) (b : Bool)
    → render (s, (b, (h, p))) ≡ s ++ 0x3a ∷ (codes "//" ++ (with_brackets b h ++ port_part p))
render_split s h p b =
    with_port-part p (s ++ (codes "://" ++ with_brackets b h))
    ∙ append_assoc s (codes "://" ++ with_brackets b h) (port_part p)

render_same :
    (s t g h p q : Bytes) (b c : Bool)
    → Lacks 0x3a s
    → Lacks 0x3a t
    → Lacks 0x5b g
    → Lacks 0x5b h
    → Lacks 0x5d g
    → Lacks 0x5d h
    → is_unusable b g ≡ false
    → is_unusable c h ≡ false
    → render (s, (b, (g, p))) ≡ render (t, (c, (h, q)))
    → (s ≡ t) × (b ≡ c) × (g ≡ h) × (p ≡ q)
render_same s t g h p q b c ks kt og oh cg ch ug uh e =
    let (d, r) = cut 0x3a s t _ _ ks kt (sym (render_split s g p b) ∙ (e ∙ render_split t h q c)) in
    let (x, y, z) = hosts_same b c g h p q og oh cg ch ug uh (same_tail (same_tail r)) in
    (d, x, y, z)

same_parts :
    {s t g h p q : Bytes} {b c : Bool}
    → s ≡ t
    → b ≡ c
    → g ≡ h
    → p ≡ q
    → ◌≡◌ {A = Parts} (s, (b, (g, p))) (t, (c, (h, q)))
same_parts d e f i = rw (d, e, f, i) refl

render-ne : (o : Parts) → str_eq (render o) [] ≡ false
unfolding str_eq
render-ne ([], (b, (h, []))) = refl
render-ne ([], (b, (h, c ∷ p))) = refl
render-ne (d ∷ s, (b, (h, []))) = refl
render-ne (d ∷ s, (b, (h, c ∷ p))) = refl

origin_of_url_lem :
    (packages : Packages) (u : ParsedUrl)
    → origin_of_url packages (some u)
      ≡ (if is_usable packages u then render (parts packages u) else [])
origin_of_url_lem packages u = ground arith

-- The comparison of two origins by their texts, for parts that were parsed.
abbrev compare_origins : Bool → Parts → Bool → Parts → Bool
compare_origins a o b r =
    let x = if a then render o else [] in
    let y = if b then render r else [] in not (str_eq x []) && str_eq x y

compare_forward :
    (a b : Bool) (o r : Parts)
    → compare_origins a o b r ≡ true
    → (a ≡ true) × (b ≡ true) × (render o ≡ render r)
unfolding str_eq
compare_forward true true o r h =
    (refl, refl, (str_eq_iff (render o) (render r)).0 (ground (arith, h)))
compare_forward true false o r h = ground (arith, h, render-ne o)
compare_forward false b o r h = cc

compare_back : (o r : Parts) → o ≡ r → compare_origins true o true r ≡ true
compare_back o r e = rw (e, render-ne r, str_eq_refl (render r)) refl

parts_back :
    (packages : Packages) (a b : Bool) (o r : Parts)
    → (a ≡ true) × (b ≡ true) × (o ≡ r)
    → compare_origins a o b r ≡ true
parts_back packages a b o r (h, k, e) = rw (h, k) (compare_back o r e)

same_origin_parsed :
    (packages : Packages) (a b : Bytes) (u v : ParsedUrl)
    → packages.parse_url a ≡ some u
    → packages.parse_url b ≡ some v
    → same_origin packages a b
      ≡ compare_origins
          (is_usable packages u)
          (parts packages u)
          (is_usable packages v)
          (parts packages v)
unfolding same_origin origin_of
same_origin_parsed packages a b u v pa pb =
    rw (pa, pb, origin_of_url_lem packages u, origin_of_url_lem packages v) refl

usable_host : (a b : Bool) → (not a && not b) ≡ true → b ≡ false
usable_host a b h = ground arith

parts-render :
    (packages : Packages) (u v : ParsedUrl)
    → IsParsed packages u
    → IsParsed packages v
    → is_usable packages u ≡ true
    → is_usable packages v ≡ true
    → render (parts packages u) ≡ render (parts packages v)
    → parts packages u ≡ parts packages v
parts-render packages u v wu wv x y e =
    let (s, k, g, p) =
      render_same (packages.to_lower u.scheme) (packages.to_lower v.scheme) (lower_host packages u)
        (lower_host packages v) (effective_port packages u) (effective_port packages v)
        (is_bracketed u) (is_bracketed v) wu.scheme_colon wv.scheme_colon wu.host_open wv.host_open
        wu.host_close wv.host_close
        (usable_host (str_eq u.host []) (is_unusable (is_bracketed u) (lower_host packages u)) x)
        (usable_host (str_eq v.host []) (is_unusable (is_bracketed v) (lower_host packages v)) y)
        e in
    same_parts s k g p

-- Two URLs that parse have the same origin exactly if both have a host that is no literal with a
-- zone id and holds no second port, and their schemes, hosts and ports are the same, the case and
-- the default port aside.
pub same_origin_lem :
    (packages : Packages) (a b : Bytes) (u v : ParsedUrl)
    → packages.parse_url a ≡ some u
    → packages.parse_url b ≡ some v
    → IsParsed packages u
    → IsParsed packages v
    → (same_origin packages a b ≡ true) ↔ (
        (is_usable packages u ≡ true)
        × (is_usable packages v ≡ true)
        × (parts packages u ≡ parts packages v))
same_origin_lem packages a b u v pa pb wu wv = rw (same_origin_parsed packages a b u v pa pb) (
  (λ h.
      let (x, y, e) =
        compare_forward (is_usable packages u) (is_usable packages v) (parts packages u)
          (parts packages v) h in
      (x, y, parts-render packages u v wu wv x y e)),
  parts_back packages _ _ _ _,
)
