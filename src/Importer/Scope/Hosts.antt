-- ===== src/Importer/Scope/Hosts.antt =====
-- The hosts that matchesScope of pkg/importer/options.go lets in.
use vespasian.Prelude.{
  ◌-◌, ◌||◌, ◌&&◌, Bool, true, false, ◌++◌, Bytes, codes, length, take, drop, str_eq, str_eq_iff,
  if◌then◌else◌, ◌⊎◌, inl, inr, ◌≡◌, refl, sym, ◌∙◌, ap, arith, Bool-cases, take-append-drop, leb,
}
use vespasian.Prelude.Parts.{has_prefix, has_suffix}
use vespasian.Importer.Filters.{matches_host}

-- A domain, or a domain and all below it.
pub data IsInScope (scope host : Bytes) : Type 0 where
  exact : host ≡ scope → IsInScope scope host
  root : scope ≡ codes "*." ++ host → IsInScope scope host
  below :
      (sub domain : Bytes)
      → scope ≡ codes "*." ++ domain
      → host ≡ sub ++ (codes "." ++ domain)
      → IsInScope scope host

pub str_eq_lem : (s t : Bytes) → str_eq s t ≡ true → s ≡ t
str_eq_lem s t h = (str_eq_iff s t).0 h

and_right_lem : (a b : Bool) → a && b ≡ true → b ≡ true
and_right_lem a b h = ground arith

or_lem : (a b : Bool) → a || b ≡ true → (a ≡ true) ⊎ (b ≡ true)
or_lem true b h = inl refl
or_lem false b h = inr h

prefix_lem : (s p : Bytes) → has_prefix s p ≡ true → s ≡ p ++ drop (length p) s
prefix_lem s p h =
    sym (take-append-drop (length p) s)
    ∙ ap (λ t. t ++ drop (length p) s) (str_eq_lem (take (length p) s) p h)

suffix_lem : (s p : Bytes) → has_suffix s p ≡ true → s ≡ take (length s - length p) s ++ p
suffix_lem s p h =
    let same =
      str_eq_lem (drop (length s - length p) s) p (and_right_lem (leb (length p) (length s)) _ h) in
    sym (take-append-drop (length s - length p) s)
    ∙ ap (λ t. take (length s - length p) s ++ t) same

wild_lem :
    (scope host : Bytes)
    → has_prefix scope (codes "*.") ≡ true
    → has_suffix host (drop 1 scope) || str_eq host (drop 2 scope) ≡ true
    → IsInScope scope host
wild_lem scope host w h =
    let starts = prefix_lem scope (codes "*.") w in
    elim (or_lem (has_suffix host (drop 1 scope)) (str_eq host (drop 2 scope)) h) [
      | inl ends ↦ below (take (length host - length (drop 1 scope)) host) (drop 2 scope) starts (
          suffix_lem host (drop 1 scope) ends
          ∙ ap (λ t. take (length host - length (drop 1 scope)) host ++ drop 1 t) starts)
      | inr same ↦
          root (starts ∙ ap (λ t. codes "*." ++ t) (sym (str_eq_lem host (drop 2 scope) same)))
    ]

then_lem : (b x y : Bool) → b ≡ true → (if b then x else y) ≡ true → x ≡ true
then_lem b x y t h = ground arith

pub else_lem : (b x y : Bool) → b ≡ false → (if b then x else y) ≡ true → y ≡ true
else_lem b x y f h = ground arith

pub host_scope_lem : (scope host : Bytes) → matches_host scope host ≡ true → IsInScope scope host
unfolding matches_host
host_scope_lem scope host h =
    let is_wild = has_prefix scope (codes "*.") in
    let wild = has_suffix host (drop 1 scope) || str_eq host (drop 2 scope) in
    elim (Bool-cases is_wild) [
      | inl w ↦ wild_lem scope host w (then_lem is_wild wild (str_eq host scope) w h)
      | inr e ↦ exact (str_eq_lem host scope (else_lem is_wild wild (str_eq host scope) e h))
    ]
