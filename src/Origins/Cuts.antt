-- ===== src/Origins/Cuts.antt =====
-- The texts of origins, cut where pkg/crawl/jsreplay.go joins them.
use vespasian.Prelude.{
  ℕ, false, [], ◌∷◌, ◌++◌, ◌≡◌, refl, sym, arith, Bytes, codes, str_eq, append-nil,
}
use vespasian.Prelude.Parts.{Lacks}
use vespasian.Prelude.Search.{includes}
use vespasian.Origins.{with_port}

same_head : {a b : ℕ} {p q : Bytes} → a ∷ p ≡ b ∷ q → a ≡ b
same_head e = cc

pub same_tail : {a b : ℕ} {p q : Bytes} → a ∷ p ≡ b ∷ q → p ≡ q
same_tail e = cc

same_cons : {a b : ℕ} {p q : Bytes} → a ≡ b → p ≡ q → a ∷ p ≡ b ∷ q
same_cons d e = cc

-- The text in front of the first of a byte is determined.
pub cut :
    (c : ℕ) (p q x y : Bytes) → Lacks c p → Lacks c q → p ++ c ∷ x ≡ q ++ c ∷ y → (p ≡ q) × (x ≡ y)
cut c [] [] x y h k e = (refl, cc)
cut c [] (b ∷ q) x y h (k, ks) e = ground arith
cut c (a ∷ p) [] x y (h, hs) k e = ground arith
cut c (a ∷ p) (b ∷ q) x y (h, hs) (k, ks) e =
    let (d, r) = cut c p q x y hs ks (same_tail e) in (same_cons (same_head e) d, r)

abbrev pub port_part : Bytes → Bytes
port_part [] = []
port_part (c ∷ port) = 0x3a ∷ c ∷ port

pub port_part_same : (p q : Bytes) → port_part p ≡ port_part q → p ≡ q
port_part_same [] [] e = refl
port_part_same [] (d ∷ q) e = cc
port_part_same (c ∷ p) [] e = cc
port_part_same (c ∷ p) (d ∷ q) e = cc

-- A host without a colon, and the port behind it.
pub cut_port :
    (g h p q : Bytes)
    → Lacks 0x3a g
    → Lacks 0x3a h
    → g ++ port_part p ≡ h ++ port_part q
    → (g ≡ h) × (p ≡ q)
cut_port [] [] p q kg kh e = (refl, port_part_same p q e)
cut_port [] (b ∷ h) [] q kg kh e = cc
cut_port [] (b ∷ h) (c ∷ p) q kg (k, kh) e = ground arith
cut_port (a ∷ g) [] p [] kg kh e = cc
cut_port (a ∷ g) [] p (d ∷ q) (k, kg) kh e = ground arith
cut_port (a ∷ g) (b ∷ h) p q (k, kg) (l, kh) e =
    let (d, r) = cut_port g h p q kg kh (same_tail e) in (same_cons (same_head e) d, r)

pub not_bracket : (h x p : Bytes) → Lacks 0x5b h → 0x5b ∷ x ≡ h ++ port_part p → ⊥
not_bracket [] x [] k e = cc
not_bracket [] x (c ∷ p) k e = ground arith
not_bracket (a ∷ h) x p (k, ks) e = ground arith

pub includes-Lacks : (h : Bytes) → includes h (codes ":") ≡ false → Lacks 0x3a h
unfolding includes str_eq
includes-Lacks [] e = tt
includes-Lacks (c ∷ h) e = (ground arith, includes-Lacks h (ground arith))

pub with_port-part : (p o : Bytes) → with_port p o ≡ o ++ port_part p
with_port-part [] o = sym (append-nil o)
with_port-part (c ∷ p) o = refl
