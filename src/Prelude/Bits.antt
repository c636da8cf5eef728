-- ===== src/Prelude/Bits.antt =====
-- `|` and `&` as the program uses them: disjoint bits are a sum, masks of a byte are remainders.
use Prim.Native.Nat.{
  ℕ, zero, suc, ◌+◌, ◌*◌, ◌/◌, ◌%◌, ◌^◌, ◌≤◌, ◌<◌, max, digits, bit_and, bit_or, bit_or-bitwise,
}
use mathlib.Core.Bool.{Bool, true, ◌&&◌}
use mathlib.Core.Path.{◌≡◌, refl, ap}
use native.Mathlib.Nat.{pow-suc}
use native.Mathlib.Omega.{arith}
use vespasian.Prelude.Tests.{◌==◌, ltb, ==_iff}

abbrev or_digits : ℕ → ℕ → ℕ → ℕ
or_digits fuel a b = digits (λ c. c) max fuel a b

-- More fuel than digits changes nothing.
or_digits_fuel : (a n m b : ℕ) → a ≤ n → a ≤ m → or_digits n a b ≡ or_digits m a b
or_digits_fuel a n m b p q = by_fuel n m a b p q
  where
    by_fuel : (n m a b : ℕ) → a ≤ n → a ≤ m → or_digits n a b ≡ or_digits m a b
    by_fuel zero zero zero b p q = refl
    by_fuel zero zero (suc a) b p q = refl
    by_fuel zero (suc m) zero b p q = refl
    by_fuel zero (suc m) (suc a) b p q = absurd (omega arith)
    by_fuel (suc n) zero zero b p q = refl
    by_fuel (suc n) zero (suc a) b p q = absurd (omega arith)
    by_fuel (suc n) (suc m) zero b p q = refl
    by_fuel (suc n) (suc m) (suc a) b p q =
        rw (by_fuel n m (suc a / 2) (b / 2) (omega arith) (omega arith))

bit_or_step : (a b : ℕ) → bit_or a b ≡ bit_or (a / 2) (b / 2) * 2 + max (a % 2) (b % 2)
bit_or_step zero b = omega (arith, bit_or-bitwise 0 b, bit_or-bitwise 0 (b / 2))
bit_or_step (suc a) b = omega (
  arith,
  bit_or-bitwise (suc a) b,
  bit_or-bitwise (suc a / 2) (b / 2),
  or_digits_fuel (suc a / 2) a (suc a / 2) (b / 2) (omega arith) (omega arith),
)

-- The bits of `q << k` lie above those of `r`, so that `r | q << k` is a sum.
pub bit_or_above : (k r q : ℕ) → r < 2 ^ k → bit_or r (q * 2 ^ k) ≡ r + q * 2 ^ k
bit_or_above zero zero q h = omega (arith, bit_or-bitwise 0 (q * 2 ^ 0))
bit_or_above zero (suc r) q h = absurd (omega arith)
bit_or_above (suc k) r q h = omega (
  arith,
  pow-suc 2 k,
  ap (λ (t : ℕ). q * t) (pow-suc 2 k),
  bit_or_step r (q * 2 ^ suc k),
  ap (λ (t : ℕ). bit_or (r / 2) t) (halved k q),
  bit_or_above k (r / 2) q (omega (arith, pow-suc 2 k)),
)
  where
    halved : (k q : ℕ) → q * 2 ^ suc k / 2 ≡ q * 2 ^ k
    halved k q = omega (arith, ap (λ (t : ℕ). q * t) (pow-suc 2 k))

all_below : ℕ → (ℕ → Bool) → Bool
all_below zero p = true
all_below (suc n) p = p n && all_below n p

all_below-lt : (n : ℕ) (p : ℕ → Bool) (x : ℕ) → all_below n p ≡ true → x < n → p x ≡ true
unfolding all_below
all_below-lt zero p x h lt = absurd (omega arith)
all_below-lt (suc n) p x h lt = ground (arith, all_below-lt n p x)

pub low_seven_bits : (b : ℕ) → b < 256 → bit_and b 0x7f ≡ b % 128
unfolding all_below
low_seven_bits b h = (==_iff _ _).0 (all_below-lt 256 (λ x. bit_and x 0x7f == x % 128) b refl h)

pub continuation_bit : (b : ℕ) → b < 256 → (bit_and b 0x80 == 0) ≡ ltb b 128
unfolding all_below
continuation_bit b h = ground (arith, from_table b h)
  where
    from_table : (b : ℕ) → b < 256 → bit_and b 0x80 ≡ b / 128 * 128
    from_table b h =
        (==_iff _ _).0 (all_below-lt 256 (λ x. bit_and x 0x80 == x / 128 * 128) b refl h)

-- A mask whose ones stand above its zeros clears what stands below.
module _ (b : ℕ) (h : b < 256) where
  pub bit_and_none : bit_and b 0x00 ≡ 0
  unfolding all_below
  bit_and_none = (==_iff _ _).0 (all_below-lt 256 (λ x. bit_and x 0x00 == 0) b refl h)

  pub bit_and_four : bit_and b 0xf0 ≡ b / 16 * 16
  unfolding all_below
  bit_and_four = (==_iff _ _).0 (all_below-lt 256 (λ x. bit_and x 0xf0 == x / 16 * 16) b refl h)

  pub bit_and_two : bit_and b 0xc0 ≡ b / 64 * 64
  unfolding all_below
  bit_and_two = (==_iff _ _).0 (all_below-lt 256 (λ x. bit_and x 0xc0 == x / 64 * 64) b refl h)

  pub bit_and_seven : bit_and b 0xfe ≡ b / 2 * 2
  unfolding all_below
  bit_and_seven = (==_iff _ _).0 (all_below-lt 256 (λ x. bit_and x 0xfe == x / 2 * 2) b refl h)

  pub bit_and_all : bit_and b 0xff ≡ b
  unfolding all_below
  bit_and_all = (==_iff _ _).0 (all_below-lt 256 (λ x. bit_and x 0xff == x) b refl h)
