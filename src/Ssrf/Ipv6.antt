-- ===== src/Ssrf/Ipv6.antt =====
-- The addresses of sixteen bytes that are private, by their first bytes.
use vespasian.Prelude.{
  ℕ, zero, suc, ◌+◌, ◌<◌, Bool, true, false, ◌&&◌, ◌||◌, [], ◌∷◌, ◌++◌, none, Bytes, length, any,
  take, str_eq, str_eq_iff, str_eq_refl, ◌≤◌, if◌then◌else◌, ◌==◌, ◌≡◌, refl, subst, ap, ◌∙◌, arith,
  All, length,
}
use vespasian.Prelude.Bits.{bit_and_none, bit_and_two, bit_and_seven, bit_and_all}
use vespasian.Ssrf.{
  ipv4, masked, zeros, mapped_prefix, contains_ip, to4, is_private_ip, private_networks,
  is_unspecified,
}
use vespasian.Ssrf.Ipv4.{lies_between, or_both}

abbrev pub IsByte : ℕ → Type 0
IsByte b = b < 256

abbrev ones : ℕ → Bytes
ones zero = []
ones (suc n) = 255 ∷ ones n

masked-ones : (ip : Bytes) → All IsByte ip → masked ip (ones (length ip)) ≡ ip
masked-ones [] h = refl
masked-ones (b ∷ ip) (hb, h) = cc (bit_and_all b hb, masked-ones ip h)

masked-zeros : (ip : Bytes) → All IsByte ip → masked ip (zeros (length ip)) ≡ zeros (length ip)
masked-zeros [] h = refl
masked-zeros (b ∷ ip) (hb, h) = cc (bit_and_none b hb, masked-zeros ip h)

-- The unspecified address, loopback, fe80::/10, fc00::/7, 2002::/16 and 64:ff9b::/96.
abbrev pub is_reserved_ipv6 : Bytes → Bool
is_reserved_ipv6 (a ∷ b ∷ rest) =
    str_eq (a ∷ b ∷ rest) (zeros 16)
    || (str_eq (a ∷ b ∷ rest) (zeros 15 ++ 1 ∷ [])
        || ((a == 0xfe && lies_between 0x80 0xbf b)
            || (lies_between 0xfc 0xfd a
                || ((a == 0x20 && b == 0x02)
                    || str_eq (take 12 (a ∷ b ∷ rest)) (0x00 ∷ 0x64 ∷ 0xff ∷ 0x9b ∷ zeros 8)))))
is_reserved_ipv6 _ = false

pub mapped_lem :
    (a b c d : ℕ) → is_private_ip (mapped_prefix ++ ipv4 a b c d) ≡ is_private_ip (ipv4 a b c d)
unfolding is_private_ip to4 str_eq
mapped_lem a b c d = ground arith

-- A mask of ones and then zeros keeps the first bytes.
masked-take :
    (n m : ℕ) (ip : Bytes)
    → length ip ≡ n + m
    → All IsByte ip
    → masked ip (ones n ++ zeros m) ≡ take n ip ++ zeros m
masked-take zero m ip size h = let e : m ≡ length ip = omega arith in rw e (masked-zeros ip h)
masked-take (suc n) m [] size h = absurd (omega arith)
masked-take (suc n) m (b ∷ ip) size (hb, h) =
    cc (bit_and_all b hb, masked-take n m ip (omega arith) h)

str_eq-append :
    (s t rest : Bytes) → length s ≡ length t → str_eq (s ++ rest) (t ++ rest) ≡ str_eq s t
unfolding str_eq
str_eq-append [] [] rest h = ground (arith, str_eq_refl rest)
str_eq-append [] (b ∷ t) rest h = absurd (omega arith)
str_eq-append (a ∷ s) [] rest h = absurd (omega arith)
str_eq-append (a ∷ s) (b ∷ t) rest h =
    ap (λ x. (a == b) && x) (str_eq-append s t rest (omega arith))

length-take_lem : (n : ℕ) (s : Bytes) → n ≤ length s → length (take n s) ≡ n
length-take_lem zero s h = refl
length-take_lem (suc n) [] h = absurd (omega arith)
length-take_lem (suc n) (b ∷ s) h = omega (arith, length-take_lem n s (omega arith))

refuted : (x : Bool) → (x ≡ true → ⊥) → x ≡ false
refuted true h = absurd (h refl)
refuted false h = refl

some_unspecified : to4 (mapped_prefix ++ zeros 4) ≡ none → ⊥
unfolding to4 str_eq
some_unspecified h = cc

or_nothing : (x : Bool) → x || false ≡ x
or_nothing true = refl
or_nothing false = refl

if-or_lem : (x y : Bool) → (if x then true else y) ≡ x || y
if-or_lem true y = refl
if-or_lem false y = refl

-- The networks of sixteen bytes, at an address of sixteen bytes.
module _ (a b : ℕ) (rest : Bytes) (size : length rest ≡ 14) (ha : IsByte a) (hb : IsByte b)
    (bytes : All IsByte rest) where
  rest_lem : masked rest (zeros 14) ≡ zeros 14
  rest_lem = masked-take 0 14 rest size bytes

  loopback_lem :
      str_eq (masked (a ∷ b ∷ rest) (ones 16)) (zeros 15 ++ 1 ∷ [])
      ≡ str_eq (a ∷ b ∷ rest) (zeros 15 ++ 1 ∷ [])
  loopback_lem =
      let kept = subst (λ n. masked rest (ones n) ≡ rest) size (masked-ones rest bytes) in
      rw (bit_and_all a ha, bit_and_all b hb, kept) refl

  link_local_lem :
      str_eq (masked (a ∷ b ∷ rest) (255 ∷ 192 ∷ zeros 14)) (0xfe ∷ 0x80 ∷ zeros 14)
      ≡ (a == 0xfe && lies_between 0x80 0xbf b)
  unfolding str_eq
  link_local_lem = rw rest_lem (ground (arith, bit_and_all a ha, bit_and_two b hb))

  unique_local_lem :
      str_eq (masked (a ∷ b ∷ rest) (254 ∷ zeros 15)) (0xfc ∷ zeros 15) ≡ lies_between 0xfc 0xfd a
  unfolding str_eq
  unique_local_lem = rw rest_lem (ground (arith, bit_and_seven a ha, bit_and_none b hb))

  six_to_four_lem :
      str_eq (masked (a ∷ b ∷ rest) (255 ∷ 255 ∷ zeros 14)) (0x20 ∷ 0x02 ∷ zeros 14)
      ≡ (a == 0x20 && b == 0x02)
  unfolding str_eq
  six_to_four_lem = rw rest_lem (ground (arith, bit_and_all a ha, bit_and_all b hb))

  nat64_lem :
      str_eq (masked (a ∷ b ∷ rest) (ones 12 ++ zeros 4)) (0x00 ∷ 0x64 ∷ 0xff ∷ 0x9b ∷ zeros 12)
      ≡ str_eq (take 12 (a ∷ b ∷ rest)) (0x00 ∷ 0x64 ∷ 0xff ∷ 0x9b ∷ zeros 8)
  nat64_lem =
      let prefix : Bytes = 0x00 ∷ 0x64 ∷ 0xff ∷ 0x9b ∷ zeros 8 in
      ap (λ s. str_eq s (prefix ++ zeros 4))
        (masked-take 12 4 (a ∷ b ∷ rest) (omega arith) (ha, (hb, bytes)))
      ∙ str_eq-append (take 12 (a ∷ b ∷ rest)) prefix (zeros 4)
          (length-take_lem 12 (a ∷ b ∷ rest) (omega arith))

  module _ (unmapped : to4 (a ∷ b ∷ rest) ≡ none) where
    networks_lem : any (λ n. contains_ip n (a ∷ b ∷ rest)) private_networks ≡ (
        str_eq (a ∷ b ∷ rest) (zeros 15 ++ 1 ∷ [])
        || ((a == 0xfe && lies_between 0x80 0xbf b)
            || (lies_between 0xfc 0xfd a
                || ((a == 0x20 && b == 0x02)
                    || str_eq (take 12 (a ∷ b ∷ rest)) (0x00 ∷ 0x64 ∷ 0xff ∷ 0x9b ∷ zeros 8)))))
    networks_lem =
        rw (unmapped, size)
          (or_both loopback_lem (
            or_both link_local_lem
              (or_both unique_local_lem (or_both six_to_four_lem (or_nothing _ ∙ nat64_lem)))))

    not_mapped_lem : str_eq (a ∷ b ∷ rest) (mapped_prefix ++ zeros 4) ≡ false
    not_mapped_lem = refuted (str_eq (a ∷ b ∷ rest) (mapped_prefix ++ zeros 4)) (λ e. absurd (
        some_unspecified (
          subst (λ ip. to4 ip ≡ none) ((str_eq_iff (a ∷ b ∷ rest) (mapped_prefix ++ zeros 4)).0 e)
            unmapped)))

    not_four_lem : str_eq (a ∷ b ∷ rest) (zeros 4) ≡ false
    not_four_lem =
        refuted (str_eq (a ∷ b ∷ rest) (zeros 4))
          (λ e. absurd (omega (arith, ap (length {0}) ((str_eq_iff (a ∷ b ∷ rest) (zeros 4)).0 e))))

    unspecified_lem : is_unspecified (a ∷ b ∷ rest) ≡ str_eq (a ∷ b ∷ rest) (zeros 16)
    unspecified_lem = rw (not_mapped_lem, not_four_lem) refl

    pub is_private_ip-ipv6 : is_private_ip (a ∷ b ∷ rest) ≡ is_reserved_ipv6 (a ∷ b ∷ rest)
    unfolding is_private_ip
    is_private_ip-ipv6 =
        rw (unspecified_lem, networks_lem, size) (if-or_lem (str_eq (a ∷ b ∷ rest) (zeros 16)) _)
