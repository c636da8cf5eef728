-- ===== src/Mediatype/OneMap.antt =====
-- `Header` of pkg/mediatype/mediatype.go depends on the map alone, not on the order of iteration.
use vespasian.Prelude.{
  Bool, true, false, ◌&&◌, List, [], ◌∷◌, Option, none, some, ◌≡◌, ◌⊎◌, inl, inr, refl, sym, ap,
  subst, ◌∙◌, arith, Bytes, str_eq, str_eq_iff, str_eq_refl, str_lt, Bool-cases,
}
use vespasian.Prelude.Order.{str_order}
use vespasian.Mediatype.{
  lookup, is_better, better, match_loop, value_or_empty, matched_value, exact_or, header,
}

abbrev is_some : Option Bytes → Bool
is_some none = false
is_some (some v) = true

matched_same :
    (match : Option Bytes) (hs js : List (Bytes × Bytes))
    → ((k : Bytes) → lookup k hs ≡ lookup k js)
    → matched_value hs match ≡ matched_value js match
matched_same none hs js h = refl
matched_same (some m) hs js h = ap value_or_empty (h m)

module _ (equal_fold : Bytes → Bytes → Bool) (name : Bytes) where
  -- A match that does not come behind a key.
  abbrev NotAfter : Option Bytes → Bytes → Type 0
  NotAfter none k = ⊥
  NotAfter (some m) k = str_lt k m ≡ false

  better-NotAfter :
      (j k : Bytes) (match : Option Bytes)
      → NotAfter match k
      → NotAfter (better equal_fold name j match) k
  better-NotAfter j k none h = absurd h
  better-NotAfter j k (some m) h = ground (arith, str_order.trans k j m)

  better_self :
      (j : Bytes) (match : Option Bytes)
      → equal_fold j name ≡ true
      → NotAfter (better equal_fold name j match) j
  better_self j none h = rw h (ground (arith, str_order.asymm j j))
  better_self j (some m) h = ground (arith, str_order.asymm j j)

  loop-NotAfter :
      (hs : List (Bytes × Bytes)) (match : Option Bytes) (k : Bytes)
      → NotAfter match k
      → NotAfter (match_loop equal_fold name hs match) k
  unfolding match_loop
  loop-NotAfter [] match k h = h
  loop-NotAfter ((j, v) ∷ hs) match k h =
      loop-NotAfter hs (better equal_fold name j match) k (better-NotAfter j k match h)

  loop-covers :
      (hs : List (Bytes × Bytes)) (match : Option Bytes) (k : Bytes)
      → is_some (lookup k hs) ≡ true
      → equal_fold k name ≡ true
      → NotAfter (match_loop equal_fold name hs match) k
  unfolding match_loop
  loop-covers [] match k h e = cc
  loop-covers ((j, v) ∷ hs) match k h e = elim (Bool-cases (str_eq j k)) [
    | inl d ↦ loop-NotAfter hs (better equal_fold name j match) k (
        subst (λ x. NotAfter (better equal_fold name x match) k) (sym ((str_eq_iff j k).0 d))
          (better_self k match e))
    | inr d ↦ loop-covers hs (better equal_fold name j match) k (ground arith) e
  ]

  better-cases :
      (j : Bytes) (match : Option Bytes)
      → (better equal_fold name j match ≡ match)
        ⊎ (better equal_fold name j match ≡ some j) × (equal_fold j name ≡ true)
  better-cases j match = elim (Bool-cases (equal_fold j name && is_better j match)) [
    | inl k ↦ inr (rw k refl, ground arith)
    | inr k ↦ inl (rw k refl)
  ]

  none-covers :
      (hs : List (Bytes × Bytes)) (k : Bytes)
      → match_loop equal_fold name hs none ≡ none
      → NotAfter (match_loop equal_fold name hs none) k
      → ⊥
  none-covers hs k e h = subst (λ r. NotAfter r k) e h

  -- A match is the one before, or a key of the map that fits.
  loop-source :
      (hs : List (Bytes × Bytes)) (match : Option Bytes)
      → (match_loop equal_fold name hs match ≡ match)
        ⊎ ((k : Bytes) × (match_loop equal_fold name hs match ≡ some k)
            × (is_some (lookup k hs) ≡ true)
            × (equal_fold k name ≡ true))
  unfolding match_loop
  loop-source [] match = inl refl
  loop-source ((j, v) ∷ hs) match = elim (loop-source hs (better equal_fold name j match)) [
    | inr (k, e, l, f) ↦ inr (k, e, ground arith, f)
    | inl e ↦ elim (better-cases j match) [
      | inl d ↦ inl (e ∙ d)
      | inr (d, f) ↦ inr (j, e ∙ d, rw (str_eq_refl j) refl, f)
    ]
  ]

  loop-same :
      (hs js : List (Bytes × Bytes))
      → ((k : Bytes) → lookup k hs ≡ lookup k js)
      → match_loop equal_fold name hs none ≡ match_loop equal_fold name js none
  loop-same hs js h = elim (loop-source hs none) [
    | inl e ↦ elim (loop-source js none) [
      | inl d ↦ e ∙ sym d
      | inr (m, d, l, f) ↦ absurd (none-covers hs m e (loop-covers hs none m (rw (h m) l) f))
    ]
    | inr (k, e, l, f) ↦ elim (loop-source js none) [
      | inl d ↦ absurd (none-covers js k d (loop-covers js none k (rw (sym (h k)) l) f))
      | inr (m, d, l', f') ↦
          e
          ∙ (ap some (
                str_order.connected k m
                  (subst (λ r. NotAfter r k) d (loop-covers js none k (rw (sym (h k)) l) f))
                  (subst (λ r. NotAfter r m) e (loop-covers hs none m (rw (h m) l') f')))
              ∙ sym d)
    ]
  ]

-- Header depends on the map alone: two orders of iteration over the same entries give the same
-- value, whatever the test for equality without case.
pub header_lem :
    (equal_fold : Bytes → Bytes → Bool) (hs js : List (Bytes × Bytes)) (name : Bytes)
    → ((k : Bytes) → lookup k hs ≡ lookup k js)
    → header equal_fold hs name ≡ header equal_fold js name
unfolding header
header_lem equal_fold hs js name h =
    rw (h name, loop-same equal_fold name hs js h)
      (ap (exact_or (lookup name js)) (matched_same (match_loop equal_fold name js none) hs js h))
