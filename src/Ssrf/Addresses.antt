-- ===== src/Ssrf/Addresses.antt =====
-- IsPrivateIP of pkg/ssrf/ssrf.go, at every address.
use vespasian.Prelude.{
  All-drop, ℕ, zero, suc, ◌+◌, Bool, true, false, [], ◌∷◌, ◌++◌, Option, none, some, Bytes, length,
  take, drop, str_eq, str_eq_iff, ◌⊎◌, ◌≡◌, refl, sym, subst, ap, ◌∙◌, inl, inr, Bool-cases, arith,
  All, take-append-drop,
}
use vespasian.Ssrf.{mapped_prefix, to4, is_private_ip}
use vespasian.Ssrf.Ipv4.{number_of, is_reserved_number, is_private_ip-ipv4}
use vespasian.Ssrf.Ipv6.{IsByte, is_reserved_ipv6, is_private_ip-ipv6, mapped_lem}

abbrev is_reserved_as : Bytes → Option Bytes → Bool
is_reserved_as ip none = is_reserved_ipv6 ip
is_reserved_as ip (some (a ∷ b ∷ c ∷ d ∷ [])) = is_reserved_number (number_of a b c d)
is_reserved_as ip (some _) = false

-- An address of four bytes, or such a one behind ::ffff:, by its number; any other by its bytes.
abbrev pub is_reserved : Bytes → Bool
is_reserved ip = is_reserved_as ip (to4 ip)

four_lem :
    (ip : Bytes)
    → All IsByte ip
    → length ip ≡ 4
    → (is_private_ip ip ≡ is_reserved_as ip (some ip))
      × (is_private_ip (mapped_prefix ++ ip) ≡ is_reserved_as (mapped_prefix ++ ip) (some ip))
four_lem [] h size = absurd (omega arith)
four_lem (a ∷ []) h size = absurd (omega arith)
four_lem (a ∷ b ∷ []) h size = absurd (omega arith)
four_lem (a ∷ b ∷ c ∷ []) h size = absurd (omega arith)
four_lem (a ∷ b ∷ c ∷ d ∷ []) (ha, (hb, (hc, (hd, _)))) size =
    let number = is_private_ip-ipv4 a b c d ha hb hc hd in (number, mapped_lem a b c d ∙ number)
four_lem (a ∷ b ∷ c ∷ d ∷ e ∷ rest) h size = absurd (omega arith)

to4-four : (ip : Bytes) → length ip ≡ 4 → to4 ip ≡ some ip
unfolding to4
to4-four ip size = rw size refl

to4_mapped :
    (ip : Bytes)
    → length ip ≡ 16
    → str_eq (take 12 ip) mapped_prefix ≡ true
    → to4 ip ≡ some (drop 12 ip)
unfolding to4
to4_mapped ip size h = rw (size, h) refl

to4_other :
    (ip : Bytes) → length ip ≡ 16 → str_eq (take 12 ip) mapped_prefix ≡ false → to4 ip ≡ none
unfolding to4
to4_other ip size h = rw (size, h) refl

length-drop_lem : (n : ℕ) (ip : Bytes) → length ip ≡ n + 4 → length (drop n ip) ≡ 4
length-drop_lem zero ip h = omega arith
length-drop_lem (suc n) [] h = absurd (omega arith)
length-drop_lem (suc n) (b ∷ ip) h = length-drop_lem n ip (omega arith)

sixteen_lem :
    (ip : Bytes)
    → All IsByte ip
    → length ip ≡ 16
    → to4 ip ≡ none
    → is_private_ip ip ≡ is_reserved_ipv6 ip
sixteen_lem [] h size e = absurd (omega arith)
sixteen_lem (a ∷ []) h size e = absurd (omega arith)
sixteen_lem (a ∷ b ∷ rest) (ha, (hb, h)) size e =
    is_private_ip-ipv6 a b rest (omega arith) ha hb h e

-- On an address of four or sixteen bytes IsPrivateIP answers as a table of intervals does: an
-- address of four bytes, or one behind ::ffff:, is private exactly if its 32-bit number lies in
-- one of the fourteen reserved intervals; any other address exactly if it is :: or ::1, or lies
-- in fe80::/10, fc00::/7, 2002::/16 or 64:ff9b::/96.
pub is_private_ip-is_reserved :
    (ip : Bytes)
    → All IsByte ip
    → (length ip ≡ 4) ⊎ (length ip ≡ 16)
    → is_private_ip ip ≡ is_reserved ip
is_private_ip-is_reserved ip h (inl size) = rw (to4-four ip size) ((four_lem ip h size).0)
is_private_ip-is_reserved ip h (inr size) = elim (Bool-cases (str_eq (take 12 ip) mapped_prefix)) [
  | inl e ↦
      let same : mapped_prefix ++ drop 12 ip ≡ ip =
        ap (λ s. s ++ drop 12 ip) (sym ((str_eq_iff (take 12 ip) mapped_prefix).0 e))
        ∙ take-append-drop 12 ip in
      let four = (four_lem (drop 12 ip) (All-drop IsByte 12 ip h) (length-drop_lem 12 ip size)).1 in
      rw (to4_mapped ip size e)
        (subst (λ s. is_private_ip s ≡ is_reserved_as s (some (drop 12 ip))) same four)
  | inr e ↦ rw (to4_other ip size e) (sixteen_lem ip h size (to4_other ip size e))
]
