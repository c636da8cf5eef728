-- ===== src/Concat/Clean/Squeezed.antt =====
-- The collapse of slashes by cleanConcatPath of pkg/crawl/jsreplay.go against one pass.
use vespasian.Prelude.{
  or_false_lem, ℕ, zero, suc, ◌≤◌, ◌<◌, Bool, true, false, ◌&&◌, ◌||◌, [], ◌∷◌, Bytes, codes,
  length, str_eq, if◌then◌else◌, ◌==◌, ◌≡◌, refl, arith, ap, ◌∙◌, sym, subst, All, Bool-cases, inl,
  inr,
}
use vespasian.Prelude.Search.{includes}
use vespasian.Concat.Clean.{replace_double, collapse_loop, collapse_slashes}

-- A slash in front of a text that starts with one is left out.
abbrev onto_slash : ℕ → Bytes → Bytes
onto_slash c [] = c ∷ []
onto_slash c (d ∷ s) = if c == b'/' && d == b'/' then d ∷ s else c ∷ d ∷ s

-- Every run of slashes becomes one.
abbrev pub squeeze : Bytes → Bytes
squeeze [] = []
squeeze (c ∷ s) = onto_slash c (squeeze s)

abbrev pub NoDouble : Bytes → Type 0
NoDouble s = includes s (codes "//") ≡ false

onto_slash_twice : (t : Bytes) → onto_slash b'/' (onto_slash b'/' t) ≡ onto_slash b'/' t
onto_slash_twice [] = refl
onto_slash_twice (d ∷ t) = ground arith

both_lem : (c d : ℕ) → (c == b'/' && d == b'/') ≡ true → (b'/' ≡ c) × (b'/' ≡ d)
both_lem c d h = ground arith

replace_squeeze : (s : Bytes) → squeeze (replace_double s) ≡ squeeze s
unfolding replace_double
replace_squeeze [] = refl
replace_squeeze (c ∷ []) = refl
replace_squeeze (c ∷ d ∷ s) = elim (Bool-cases (c == b'/' && d == b'/')) [
  | inl both ↦
      let (first, second) = both_lem c d both in
      let swap =
        subst (λ x. onto_slash b'/' (squeeze s) ≡ onto_slash x (onto_slash b'/' (squeeze s))) first
          (sym (onto_slash_twice (squeeze s))) in
      rw both (
        ap (onto_slash b'/') (replace_squeeze s)
        ∙ subst (λ x. onto_slash b'/' (squeeze s) ≡ onto_slash c (onto_slash x (squeeze s))) second
            swap)
  | inr other ↦ rw other (ap (onto_slash c) (replace_squeeze (d ∷ s)))
]

squeezed_lem : (s : Bytes) → NoDouble s → squeeze s ≡ s
unfolding includes str_eq
squeezed_lem [] h = refl
squeezed_lem (c ∷ []) h = refl
squeezed_lem (c ∷ d ∷ s) h =
    let (first, rest) =
      or_false_lem (c == b'/' && (d == b'/' && true)) (includes (d ∷ s) (codes "//")) h in
    ap (onto_slash c) (squeezed_lem (d ∷ s) rest) ∙ apart_lem c d s first
  where
    apart_lem :
        (c d : ℕ) (s : Bytes)
        → (c == b'/' && (d == b'/' && true)) ≡ false
        → onto_slash c (d ∷ s) ≡ c ∷ d ∷ s
    apart_lem c d s h = ground arith

length-replace_double : (s : Bytes) → length (replace_double s) ≤ length s
unfolding replace_double
length-replace_double [] = omega arith
length-replace_double (c ∷ []) = omega arith
length-replace_double (c ∷ d ∷ s) =
    ground (arith, length-replace_double s, length-replace_double (d ∷ s))

shorter_lem : (s : Bytes) → includes s (codes "//") ≡ true → length (replace_double s) < length s
unfolding includes str_eq replace_double
shorter_lem [] h = cc
shorter_lem (c ∷ []) h = ground arith
shorter_lem (c ∷ d ∷ s) h = elim (Bool-cases (c == b'/' && d == b'/')) [
  | inl both ↦ rw both (omega (arith, length-replace_double s))
  | inr other ↦
      rw other
        (omega (arith, shorter_lem (d ∷ s) (later_lem c d (includes (d ∷ s) (codes "//")) other h)))
]
  where
    later_lem :
        (c d : ℕ) (b : Bool)
        → (c == b'/' && d == b'/') ≡ false
        → (c == b'/' && (d == b'/' && true)) || b ≡ true
        → b ≡ true
    later_lem c d b e h = ground arith

collapse_loop-squeeze : (fuel : ℕ) (s : Bytes) → length s ≤ fuel → collapse_loop fuel s ≡ squeeze s
unfolding collapse_loop
collapse_loop-squeeze zero [] h = refl
collapse_loop-squeeze zero (c ∷ s) h = absurd (omega arith)
collapse_loop-squeeze (suc fuel) s h = elim (Bool-cases (includes s (codes "//"))) [
  | inl double ↦ rw double (
      collapse_loop-squeeze fuel (replace_double s) (omega (arith, shorter_lem s double))
      ∙ replace_squeeze s)
  | inr single ↦ rw single (sym (squeezed_lem s single))
]

-- The loop of cleanConcatPath that replaces double slashes until there are none ends within the
-- fuel, and gives what one pass gives that leaves one slash of each run.
pub collapse_slashes-squeeze : (s : Bytes) → collapse_slashes s ≡ squeeze s
unfolding collapse_slashes
collapse_slashes-squeeze s = collapse_loop-squeeze (length s) s (omega arith)

onto_slash-NoDouble : (c : ℕ) (t : Bytes) → NoDouble t → NoDouble (onto_slash c t)
unfolding includes str_eq
onto_slash-NoDouble c [] h = ground arith
onto_slash-NoDouble c (d ∷ t) h = elim (Bool-cases (c == b'/' && d == b'/')) [
  | inl both ↦ rw both h
  | inr other ↦ rw other (apart_lem c d (includes (d ∷ t) (codes "//")) other h)
]
  where
    apart_lem :
        (c d : ℕ) (b : Bool)
        → (c == b'/' && d == b'/') ≡ false
        → b ≡ false
        → (c == b'/' && (d == b'/' && true)) || b ≡ false
    apart_lem c d b e h = ground arith

pub squeeze-NoDouble : (s : Bytes) → NoDouble (squeeze s)
unfolding includes str_eq
squeeze-NoDouble [] = refl
squeeze-NoDouble (c ∷ s) = onto_slash-NoDouble c (squeeze s) (squeeze-NoDouble s)

pub squeeze-All : (P : ℕ → Type 0) (s : Bytes) → All P s → All P (squeeze s)
squeeze-All P [] h = tt
squeeze-All P (c ∷ s) (p, h) = onto_lem (squeeze s) (squeeze-All P s h)
  where
    onto_lem : (t : Bytes) → All P t → All P (onto_slash c t)
    onto_lem [] k = (p, tt)
    onto_lem (d ∷ t) (q, k) = elim (Bool-cases (c == b'/' && d == b'/')) [
      | inl both ↦ rw both (q, k)
      | inr other ↦ rw other (p, (q, k))
    ]
