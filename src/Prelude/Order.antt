-- ===== src/Prelude/Order.antt =====
-- Strict total orders as Boolean tests, their lexicographic product, and the lesser of two values.
use mathlib.Core.Bool.{Bool, true, false, not, ◌&&◌}
use mathlib.Core.Path.{◌≡◌, refl}
use mathlib.Core.List.{[], ◌∷◌}
use native.Mathlib.Omega.{arith}
use vespasian.Prelude.Tests.{if◌then◌else◌}
use vespasian.Prelude.Text.{Bytes, str_lt}
use vespasian.Prelude.Int.{ℤ, pos, negsuc, ltb_ℤ}

pub record StrictOrder (A : Type 0) (lt : A → A → Bool) : Type 0 where
  pub asymm : (a b : A) → lt a b ≡ true → lt b a ≡ false
  pub trans : (a b c : A) → lt a b ≡ true → lt b c ≡ true → lt a c ≡ true
  pub connected : (a b : A) → lt a b ≡ false → lt b a ≡ false → a ≡ b

str_lt_trans : (a b c : Bytes) → str_lt a b ≡ true → str_lt b c ≡ true → str_lt a c ≡ true
unfolding str_lt
str_lt_trans a b [] h k = cc
str_lt_trans [] b (z ∷ c) h k = refl
str_lt_trans (x ∷ a) [] (z ∷ c) h k = cc
str_lt_trans (x ∷ a) (y ∷ b) (z ∷ c) h k = ground (arith, str_lt_trans a b c)

str_lt_connected : (a b : Bytes) → str_lt a b ≡ false → str_lt b a ≡ false → a ≡ b
unfolding str_lt
str_lt_connected [] [] h k = refl
str_lt_connected [] (y ∷ b) h k = cc
str_lt_connected (x ∷ a) [] h k = cc
str_lt_connected (x ∷ a) (y ∷ b) h k = ground (arith, str_lt_connected a b)

str_lt_asymmetric : (a b : Bytes) → str_lt a b ≡ true → str_lt b a ≡ false
unfolding str_lt
str_lt_asymmetric a [] h = cc
str_lt_asymmetric [] (y ∷ b) h = refl
str_lt_asymmetric (x ∷ a) (y ∷ b) h = ground (arith, str_lt_asymmetric a b)

pub str_order : StrictOrder Bytes str_lt
str_order = record { asymm = str_lt_asymmetric; trans = str_lt_trans; connected = str_lt_connected }

ltb_ℤ_asymm : (a b : ℤ) → ltb_ℤ a b ≡ true → ltb_ℤ b a ≡ false
ltb_ℤ_asymm (pos m) (pos n) h = ground arith
ltb_ℤ_asymm (pos m) (negsuc n) h = ground arith
ltb_ℤ_asymm (negsuc m) (pos n) h = ground arith
ltb_ℤ_asymm (negsuc m) (negsuc n) h = ground arith

ltb_ℤ_connected : (a b : ℤ) → ltb_ℤ a b ≡ false → ltb_ℤ b a ≡ false → a ≡ b
ltb_ℤ_connected (pos m) (pos n) h k = ground arith
ltb_ℤ_connected (pos m) (negsuc n) h k = ground arith
ltb_ℤ_connected (negsuc m) (pos n) h k = ground arith
ltb_ℤ_connected (negsuc m) (negsuc n) h k = ground arith

ltb_ℤ_trans : (a b c : ℤ) → ltb_ℤ a b ≡ true → ltb_ℤ b c ≡ true → ltb_ℤ a c ≡ true
ltb_ℤ_trans (pos m) (pos n) (pos k) h l = ground arith
ltb_ℤ_trans (pos m) (pos n) (negsuc k) h l = ground arith
ltb_ℤ_trans (pos m) (negsuc n) c h l = ground arith
ltb_ℤ_trans (negsuc m) (pos n) (pos k) h l = ground arith
ltb_ℤ_trans (negsuc m) (pos n) (negsuc k) h l = ground arith
ltb_ℤ_trans (negsuc m) (negsuc n) (pos k) h l = ground arith
ltb_ℤ_trans (negsuc m) (negsuc n) (negsuc k) h l = ground arith

pub int_order : StrictOrder ℤ ltb_ℤ
int_order = record { asymm = ltb_ℤ_asymm; trans = ltb_ℤ_trans; connected = ltb_ℤ_connected }

-- True first.
abbrev pub true_first : Bool → Bool → Bool
true_first a b = a && not b

pub bool_order : StrictOrder Bool true_first
bool_order = record {
  asymm = λ a b h. ground arith;
  trans = λ a b c h k. ground arith;
  connected = λ a b h k. ground arith;
}

module _ {A B : Type 0} (lt : A → A → Bool) (lt' : B → B → Bool) where
  abbrev pub lex : A × B → A × B → Bool
  lex (a, b) (c, d) = if lt a c then true else if lt c a then false else lt' b d

  lex_asymm :
      StrictOrder A lt → StrictOrder B lt' → (p q : A × B) → lex p q ≡ true → lex q p ≡ false
  lex_asymm s t (a, b) (c, d) h = ground (arith, s.asymm a c, t.asymm b d)

  lex_trans :
      StrictOrder A lt
      → StrictOrder B lt'
      → (p q r : A × B) → lex p q ≡ true
      → lex q r ≡ true
      → lex p r ≡ true
  lex_trans s t (a, b) (c, d) (e, f) h k = ground (
    arith,
    s.trans a c e,
    s.trans c e a,
    s.trans e a c,
    s.connected a c,
    s.connected c e,
    t.trans b d f,
    s.asymm a c,
    s.asymm c e,
    s.asymm a e,
    s.asymm e a,
    s.asymm c a,
    s.asymm e c,
  )

  lex_connected :
      StrictOrder A lt
      → StrictOrder B lt'
      → (p q : A × B) → lex p q ≡ false
      → lex q p ≡ false
      → p ≡ q
  lex_connected s t (a, b) (c, d) h k = ground (arith, s.connected a c, t.connected b d)

  pub lex_order : StrictOrder A lt → StrictOrder B lt' → StrictOrder (A × B) lex
  lex_order s t = record {
    asymm = lex_asymm s t;
    trans = lex_trans s t;
    connected = lex_connected s t;
  }

module _ {A : Type 0} (lt : A → A → Bool) where
  -- The lesser of two values, the first if neither is.
  abbrev pub lesser : A → A → A
  lesser a b = if lt b a then b else a

  pub lesser_comm : StrictOrder A lt → (a b : A) → lesser a b ≡ lesser b a
  lesser_comm s a b = ground (arith, s.connected a b, s.asymm a b, s.asymm b a)

  pub lesser_assoc : StrictOrder A lt → (a b c : A) → lesser (lesser a b) c ≡ lesser a (lesser b c)
  lesser_assoc s a b c = ground (
    arith,
    s.trans a b c,
    s.trans b c a,
    s.trans c a b,
    s.trans a c b,
    s.trans b a c,
    s.trans c b a,
    s.asymm a b,
    s.asymm b c,
    s.asymm c a,
    s.asymm b a,
    s.asymm c b,
    s.asymm a c,
    s.connected a b,
    s.connected b c,
    s.connected a c,
  )
