-- ===== src/Prelude/Text.antt =====
-- Go's strings and byte slices: lists of byte values. Their equality, order and literals.
use Prim.Native.Nat.{ℕ}
use Prim.Native.Char.{code}
use Prim.Native.String.{String}
use mathlib.Core.Bool.{Bool, true, false, ◌&&◌}
use mathlib.Core.Path.{◌≡◌, refl, subst}
use mathlib.Core.Logic.{◌↔◌, ◌≢◌, inl, inr}
use mathlib.Core.List.{List, [], ◌∷◌}
use native.Mathlib.Omega.{arith}
use vespasian.Prelude.Tests.{Bool-cases, ltb, ◌==◌, if◌then◌else◌}

abbrev pub Bytes : Type 0
Bytes = List ℕ

-- The code points of a literal: its bytes, since the literals of the program are ASCII.
abbrev pub codes : String → Bytes
codes String.[] = []
codes (String.◌∷◌ c s) = code c ∷ codes s

-- `==` on strings.
unfoldable pub str_eq : Bytes → Bytes → Bool
str_eq [] [] = true
str_eq (a ∷ s) (b ∷ t) = a == b && str_eq s t
str_eq _ _ = false

-- `<` on strings: bytewise, a proper prefix first.
unfoldable pub str_lt : Bytes → Bytes → Bool
str_lt _ [] = false
str_lt [] (b ∷ t) = true
str_lt (a ∷ s) (b ∷ t) =
    let rest = str_lt s t in if ltb a b then true else if ltb b a then false else rest

pub str_eq_iff : (s t : Bytes) → (str_eq s t ≡ true) ↔ (s ≡ t)
unfolding str_eq
str_eq_iff [] [] = ground arith
str_eq_iff [] (b ∷ t) = ground arith
str_eq_iff (a ∷ s) [] = ground arith
str_eq_iff (a ∷ s) (b ∷ t) = ground (arith, str_eq_iff s t)

pub str_eq_refl : (s : Bytes) → str_eq s s ≡ true
str_eq_refl s = (str_eq_iff s s).1 refl

pub str_eq_comm : (s t : Bytes) → str_eq s t ≡ str_eq t s
unfolding str_eq
str_eq_comm [] [] = refl
str_eq_comm [] (b ∷ t) = refl
str_eq_comm (a ∷ s) [] = refl
str_eq_comm (a ∷ s) (b ∷ t) = ground (arith, str_eq_comm s t)

pub str_lt_asymm : (s t : Bytes) → str_lt s t ≡ true → str_lt t s ≡ false
unfolding str_lt
str_lt_asymm s [] h = cc
str_lt_asymm [] (b ∷ t) h = refl
str_lt_asymm (a ∷ s) (b ∷ t) h = ground (arith, str_lt_asymm s t)

pub str_lt-str_eq : (s t : Bytes) → str_lt s t ≡ true → str_eq s t ≡ false
unfolding str_lt str_eq
str_lt-str_eq s [] h = cc
str_lt-str_eq [] (b ∷ t) h = refl
str_lt-str_eq (a ∷ s) (b ∷ t) h = ground (arith, str_lt-str_eq s t)

pub str_eq_of_nonempty : (s : Bytes) → s ≢ [] → str_eq s [] ≡ false
str_eq_of_nonempty s h = elim (Bool-cases (str_eq s [])) [
  | inl e ↦ absurd (h ((str_eq_iff s []).0 e))
  | inr e ↦ e
]

pub nonempty_of_str_eq : (s : Bytes) → str_eq s [] ≡ false → s ≢ []
nonempty_of_str_eq s h e = cc (subst (λ x. str_eq x [] ≡ false) e h, str_eq_refl [])
