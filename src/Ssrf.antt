-- ===== src/Ssrf.antt =====
-- pkg/ssrf/ssrf.go: the networks that no request may reach.
pub mod Ipv4
pub mod Ipv6
pub mod Addresses
pub mod Validate
pub mod Guards
pub mod Dialing
mod Tests
use Prim.Native.Nat.{bit_and}
use vespasian.Prelude.{
  ℕ, zero, suc, ◌-◌, ◌^◌, Bool, true, false, ◌&&◌, ◌||◌, List, [], ◌∷◌, ◌++◌, Option, none, some,
  Bytes, length, any, take, drop, leb, ltb, str_eq, if◌then◌else◌, ◌==◌,
}

-- `net.IPNet`, whose address is masked.
pub record IpNet : Type 0 where
  pub ip : Bytes
  pub mask : Bytes

-- `net.CIDRMask`: a mask of so many ones, then zeros, in so many bytes.
abbrev pub cidr_mask : ℕ → ℕ → Bytes
cidr_mask ones zero = []
cidr_mask ones (suc size) =
    (if ltb ones 8 then 256 - 2 ^ (8 - ones) else 255) ∷ cidr_mask (ones - 8) size

abbrev pub masked : Bytes → Bytes → Bytes
masked [] mask = []
masked (b ∷ ip) [] = []
masked (b ∷ ip) (m ∷ mask) = bit_and b m ∷ masked ip mask

-- `net.ParseCIDR`, of an address that is read.
abbrev pub cidr : Bytes → ℕ → IpNet
cidr ip ones = let mask = cidr_mask ones (length ip) in record { ip = masked ip mask; mask = mask }

abbrev pub ipv4 : ℕ → ℕ → ℕ → ℕ → Bytes
ipv4 a b c d = a ∷ b ∷ c ∷ d ∷ []

abbrev pub zeros : ℕ → Bytes
zeros zero = []
zeros (suc n) = 0 ∷ zeros n

abbrev pub ipv4_networks : List IpNet
ipv4_networks =
    cidr (ipv4 0 0 0 0) 8
    ∷ cidr (ipv4 10 0 0 0) 8
    ∷ cidr (ipv4 100 64 0 0) 10
    ∷ cidr (ipv4 127 0 0 0) 8
    ∷ cidr (ipv4 169 254 0 0) 16
    ∷ cidr (ipv4 172 16 0 0) 12
    ∷ cidr (ipv4 192 0 0 0) 24
    ∷ cidr (ipv4 192 0 2 0) 24
    ∷ cidr (ipv4 192 168 0 0) 16
    ∷ cidr (ipv4 198 18 0 0) 15
    ∷ cidr (ipv4 198 51 100 0) 24
    ∷ cidr (ipv4 203 0 113 0) 24
    ∷ cidr (ipv4 224 0 0 0) 4
    ∷ cidr (ipv4 240 0 0 0) 4
    ∷ []

abbrev pub ipv6_networks : List IpNet
ipv6_networks =
    cidr (zeros 15 ++ 1 ∷ []) 128
    ∷ cidr (0xfe ∷ 0x80 ∷ zeros 14) 10
    ∷ cidr (0xfc ∷ zeros 15) 7
    ∷ cidr (0x20 ∷ 0x02 ∷ zeros 14) 16
    ∷ cidr (0x00 ∷ 0x64 ∷ 0xff ∷ 0x9b ∷ zeros 12) 96
    ∷ []

abbrev pub private_networks : List IpNet
private_networks = ipv4_networks ++ ipv6_networks

-- `To4`: an address of four bytes, or of sixteen in the form ::ffff:a.b.c.d.
abbrev pub mapped_prefix : Bytes
mapped_prefix = zeros 10 ++ 0xff ∷ 0xff ∷ []

unfoldable pub to4 : Bytes → Option Bytes
to4 ip =
    if length ip == 4
    then some ip
    else if length ip == 16 && str_eq (take 12 ip) mapped_prefix
    then some (drop 12 ip)
    else none

abbrev pub or_else : Option Bytes → Bytes → Bytes
or_else none ip = ip
or_else (some v4) ip = v4

abbrev pub is_unspecified : Bytes → Bool
is_unspecified ip =
    str_eq ip (mapped_prefix ++ zeros 4) || str_eq ip (zeros 4) || str_eq ip (zeros 16)

abbrev pub same_network : IpNet → Bytes → Bool
same_network n ip = length ip == length n.ip && str_eq (masked ip n.mask) (masked n.ip n.mask)

-- `Contains`.
abbrev pub contains_ip : IpNet → Bytes → Bool
contains_ip n ip = same_network n (or_else (to4 ip) ip)

unfoldable pub is_private_ip : Bytes → Bool
is_private_ip ip =
    if length ip == 0
    then true
    else if is_unspecified ip
    then true
    else any (λ n. contains_ip n ip) private_networks
