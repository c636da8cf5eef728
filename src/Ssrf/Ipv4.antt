-- ===== src/Ssrf/Ipv4.antt =====
-- The addresses that are private, as intervals of numbers.
use vespasian.Prelude.{
  ℕ, ◌+◌, ◌*◌, ◌<◌, Bool, true, ◌&&◌, ◌||◌, List, [], ◌∷◌, any, leb, str_eq, ◌≡◌, refl, sym, inl,
  inr, Bool-cases, arith,
}
use vespasian.Prelude.Bits.{bit_and_none, bit_and_two, bit_and_four, bit_and_seven, bit_and_all}
use vespasian.Ssrf.{cidr, ipv4, contains_ip, to4, is_private_ip, private_networks, is_unspecified}

-- The number of an address.
abbrev pub number_of : ℕ → ℕ → ℕ → ℕ → ℕ
number_of a b c d = a * 16777216 + b * 65536 + c * 256 + d

abbrev pub lies_between : ℕ → ℕ → ℕ → Bool
lies_between lo hi v = leb lo v && leb v hi

-- The intervals, in hexadecimal: two digits to a byte.
abbrev pub reserved_intervals : List (ℕ × ℕ)
reserved_intervals =
    (0x00000000, 0x00ffffff)
    ∷ (0x0a000000, 0x0affffff)
    ∷ (0x64400000, 0x647fffff)
    ∷ (0x7f000000, 0x7fffffff)
    ∷ (0xa9fe0000, 0xa9feffff)
    ∷ (0xac100000, 0xac1fffff)
    ∷ (0xc0000000, 0xc00000ff)
    ∷ (0xc0000200, 0xc00002ff)
    ∷ (0xc0a80000, 0xc0a8ffff)
    ∷ (0xc6120000, 0xc613ffff)
    ∷ (0xc6336400, 0xc63364ff)
    ∷ (0xcb007100, 0xcb0071ff)
    ∷ (0xe0000000, 0xefffffff)
    ∷ (0xf0000000, 0xffffffff)
    ∷ []

abbrev pub is_reserved_number : ℕ → Bool
is_reserved_number v = any (λ (lo, hi). lies_between lo hi v) reserved_intervals

pub or_both : {x y z w : Bool} → x ≡ y → z ≡ w → x || z ≡ y || w
or_both p q = cc

-- A network of four bytes holds the addresses of an interval.
module _ (a b c d : ℕ) (ha : a < 256) (hb : b < 256) (hc : c < 256) (hd : d < 256) where
  this_network :
      contains_ip (cidr (ipv4 0 0 0 0) 8) (ipv4 a b c d)
      ≡ lies_between (number_of 0 0 0 0) (number_of 0 255 255 255) (number_of a b c d)
  unfolding to4 str_eq
  this_network =
      ground (arith, bit_and_all a ha, bit_and_none b hb, bit_and_none c hc, bit_and_none d hd)

  ten :
      contains_ip (cidr (ipv4 10 0 0 0) 8) (ipv4 a b c d)
      ≡ lies_between (number_of 10 0 0 0) (number_of 10 255 255 255) (number_of a b c d)
  unfolding to4 str_eq
  ten = ground (arith, bit_and_all a ha, bit_and_none b hb, bit_and_none c hc, bit_and_none d hd)

  shared :
      contains_ip (cidr (ipv4 100 64 0 0) 10) (ipv4 a b c d)
      ≡ lies_between (number_of 100 64 0 0) (number_of 100 127 255 255) (number_of a b c d)
  unfolding to4 str_eq
  shared = ground (arith, bit_and_all a ha, bit_and_two b hb, bit_and_none c hc, bit_and_none d hd)

  loopback :
      contains_ip (cidr (ipv4 127 0 0 0) 8) (ipv4 a b c d)
      ≡ lies_between (number_of 127 0 0 0) (number_of 127 255 255 255) (number_of a b c d)
  unfolding to4 str_eq
  loopback =
      ground (arith, bit_and_all a ha, bit_and_none b hb, bit_and_none c hc, bit_and_none d hd)

  link_local :
      contains_ip (cidr (ipv4 169 254 0 0) 16) (ipv4 a b c d)
      ≡ lies_between (number_of 169 254 0 0) (number_of 169 254 255 255) (number_of a b c d)
  unfolding to4 str_eq
  link_local =
      ground (arith, bit_and_all a ha, bit_and_all b hb, bit_and_none c hc, bit_and_none d hd)

  private_172 :
      contains_ip (cidr (ipv4 172 16 0 0) 12) (ipv4 a b c d)
      ≡ lies_between (number_of 172 16 0 0) (number_of 172 31 255 255) (number_of a b c d)
  unfolding to4 str_eq
  private_172 =
      ground (arith, bit_and_all a ha, bit_and_four b hb, bit_and_none c hc, bit_and_none d hd)

  protocol :
      contains_ip (cidr (ipv4 192 0 0 0) 24) (ipv4 a b c d)
      ≡ lies_between (number_of 192 0 0 0) (number_of 192 0 0 255) (number_of a b c d)
  unfolding to4 str_eq
  protocol = ground (arith, bit_and_all a ha, bit_and_all b hb, bit_and_all c hc, bit_and_none d hd)

  test_one :
      contains_ip (cidr (ipv4 192 0 2 0) 24) (ipv4 a b c d)
      ≡ lies_between (number_of 192 0 2 0) (number_of 192 0 2 255) (number_of a b c d)
  unfolding to4 str_eq
  test_one = ground (arith, bit_and_all a ha, bit_and_all b hb, bit_and_all c hc, bit_and_none d hd)

  private_192 :
      contains_ip (cidr (ipv4 192 168 0 0) 16) (ipv4 a b c d)
      ≡ lies_between (number_of 192 168 0 0) (number_of 192 168 255 255) (number_of a b c d)
  unfolding to4 str_eq
  private_192 =
      ground (arith, bit_and_all a ha, bit_and_all b hb, bit_and_none c hc, bit_and_none d hd)

  benchmark :
      contains_ip (cidr (ipv4 198 18 0 0) 15) (ipv4 a b c d)
      ≡ lies_between (number_of 198 18 0 0) (number_of 198 19 255 255) (number_of a b c d)
  unfolding to4 str_eq
  benchmark =
      ground (arith, bit_and_all a ha, bit_and_seven b hb, bit_and_none c hc, bit_and_none d hd)

  test_two :
      contains_ip (cidr (ipv4 198 51 100 0) 24) (ipv4 a b c d)
      ≡ lies_between (number_of 198 51 100 0) (number_of 198 51 100 255) (number_of a b c d)
  unfolding to4 str_eq
  test_two = ground (arith, bit_and_all a ha, bit_and_all b hb, bit_and_all c hc, bit_and_none d hd)

  test_three :
      contains_ip (cidr (ipv4 203 0 113 0) 24) (ipv4 a b c d)
      ≡ lies_between (number_of 203 0 113 0) (number_of 203 0 113 255) (number_of a b c d)
  unfolding to4 str_eq
  test_three =
      ground (arith, bit_and_all a ha, bit_and_all b hb, bit_and_all c hc, bit_and_none d hd)

  multicast :
      contains_ip (cidr (ipv4 224 0 0 0) 4) (ipv4 a b c d)
      ≡ lies_between (number_of 224 0 0 0) (number_of 239 255 255 255) (number_of a b c d)
  unfolding to4 str_eq
  multicast =
      ground (arith, bit_and_four a ha, bit_and_none b hb, bit_and_none c hc, bit_and_none d hd)

  class_e :
      contains_ip (cidr (ipv4 240 0 0 0) 4) (ipv4 a b c d)
      ≡ lies_between (number_of 240 0 0 0) (number_of 255 255 255 255) (number_of a b c d)
  unfolding to4 str_eq
  class_e =
      ground (arith, bit_and_four a ha, bit_and_none b hb, bit_and_none c hc, bit_and_none d hd)

  networks_lem :
      any (λ n. contains_ip n (ipv4 a b c d)) private_networks
      ≡ is_reserved_number (number_of a b c d)
  unfolding to4 str_eq
  networks_lem = or_both this_network (
      or_both ten (
        or_both shared (
          or_both loopback (
            or_both link_local (
              or_both private_172 (
                or_both protocol (
                  or_both test_one (
                    or_both private_192 (
                      or_both benchmark (
                        or_both test_two (
                          or_both test_three (or_both multicast (or_both class_e (refl))))))))))))))

  unspecified_lem :
      is_unspecified (ipv4 a b c d) ≡ true → is_reserved_number (number_of a b c d) ≡ true
  unfolding str_eq
  unspecified_lem h = ground (arith, h)

  pub is_private_ip-ipv4 : is_private_ip (ipv4 a b c d) ≡ is_reserved_number (number_of a b c d)
  unfolding is_private_ip
  is_private_ip-ipv4 = elim (Bool-cases (is_unspecified (ipv4 a b c d))) [
    | inl u ↦ rw u (sym (unspecified_lem u))
    | inr u ↦ rw u networks_lem
  ]
