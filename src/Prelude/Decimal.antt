-- ===== src/Prelude/Decimal.antt =====
-- Decimal text, as `strconv.Itoa` writes it, and the number that digits spell.
use Prim.Native.Nat.{ℕ, zero, suc, ◌+◌, ◌-◌, ◌*◌, ◌/◌, ◌%◌, ◌^◌, ◌≤◌, ◌<◌}
use mathlib.Core.Path.{◌≡◌, refl}
use mathlib.Core.List.{[], ◌∷◌}
use native.Mathlib.Nat.{pow-suc}
use native.Mathlib.Omega.{arith}
use vespasian.Prelude.Tests.{ltb, if◌then◌else◌}
use vespasian.Prelude.Lists.{length, All}
use vespasian.Prelude.Text.{Bytes}

-- The digits of `n` in front of `out`, with fuel for all of them but the first.
digits_loop : ℕ → ℕ → Bytes → Bytes
digits_loop zero n out = (b'0' + n % 10) ∷ out
digits_loop (suc fuel) n out =
    let more = digits_loop fuel (n / 10) ((b'0' + n % 10) ∷ out) in
    if ltb n 10 then (b'0' + n) ∷ out else more

unfoldable pub decimal : ℕ → Bytes
unfolding digits_loop
decimal n = digits_loop n n []

abbrev pub IsDigit : ℕ → Type 0
IsDigit c = (b'0' ≤ c) × (c ≤ b'9')

-- The number that digits spell behind `n`.
abbrev pub digits_value : ℕ → Bytes → ℕ
digits_value n [] = n
digits_value n (c ∷ s) = digits_value (n * 10 + (c - b'0')) s

digits_value-digits_loop :
    (fuel n : ℕ) (out : Bytes)
    → n ≤ fuel
    → digits_value 0 (digits_loop fuel n out) ≡ digits_value n out
unfolding digits_loop
digits_value-digits_loop zero zero out h = refl
digits_value-digits_loop zero (suc n) out h = absurd (omega arith)
digits_value-digits_loop (suc fuel) n out h =
    ground (arith, digits_value-digits_loop fuel (n / 10) ((b'0' + n % 10) ∷ out))

digits_loop-IsDigit :
    (fuel n : ℕ) (out : Bytes) → All IsDigit out → All IsDigit (digits_loop fuel n out)
unfolding digits_loop
digits_loop-IsDigit zero n out h = (omega arith, h)
digits_loop-IsDigit (suc fuel) n out h =
    ground (arith, digits_loop-IsDigit fuel (n / 10) ((b'0' + n % 10) ∷ out))

length-digits_loop :
    (k fuel n : ℕ) (out : Bytes)
    → n ≤ fuel
    → n < 10 ^ suc k
    → length (digits_loop fuel n out) ≤ suc k + length out
unfolding digits_loop
length-digits_loop k zero n out h lt = omega arith
length-digits_loop zero (suc fuel) n out h lt = ground arith
length-digits_loop (suc k) (suc fuel) n out h lt =
    ground (arith, pow-suc 10 (suc k), length-digits_loop k fuel (n / 10) ((b'0' + n % 10) ∷ out))

digits_loop_pos : (fuel n : ℕ) (out : Bytes) → length out < length (digits_loop fuel n out)
unfolding digits_loop
digits_loop_pos zero n out = omega arith
digits_loop_pos (suc fuel) n out =
    ground (arith, digits_loop_pos fuel (n / 10) ((b'0' + n % 10) ∷ out))

-- The text of a number spells it.
pub digits_value-decimal : (n : ℕ) → digits_value 0 (decimal n) ≡ n
unfolding decimal
digits_value-decimal n = digits_value-digits_loop n n [] (omega arith)

pub decimal-IsDigit : (n : ℕ) → All IsDigit (decimal n)
unfolding decimal
decimal-IsDigit n = digits_loop-IsDigit n n [] tt

pub length-decimal : (k n : ℕ) → n < 10 ^ suc k → length (decimal n) ≤ suc k
unfolding decimal
length-decimal k n h = omega (arith, length-digits_loop k n n [] (omega arith) h)

pub length-decimal_pos : (n : ℕ) → 0 < length (decimal n)
unfolding decimal
length-decimal_pos n = digits_loop_pos n n []
