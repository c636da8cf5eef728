-- ===== src/Prelude/Parts.antt =====
-- `strings.Split`, `strings.Join`, `HasPrefix`, `HasSuffix` and `TrimSuffix`.
use Prim.Native.Nat.{ℕ, ◌-◌}
use mathlib.Core.Bool.{Bool, false, ◌&&◌, ◌||◌}
use mathlib.Core.Logic.{◌≢◌, inl, inr}
use mathlib.Core.Path.{◌≡◌, refl, ap, ◌∙◌}
use mathlib.Core.List.{List, [], ◌∷◌, ◌++◌}
use native.Mathlib.Omega.{arith}
use vespasian.Prelude.Tests.{Bool-cases, leb, ◌==◌, if◌then◌else◌}
use vespasian.Prelude.Lists.{length, take, drop, All}
use vespasian.Prelude.Text.{Bytes, str_eq, str_eq_comm}

-- A byte in front of the first part.
abbrev pub onto_first : ℕ → List Bytes → List Bytes
onto_first c [] = (c ∷ []) ∷ []
onto_first c (p ∷ ps) = (c ∷ p) ∷ ps

-- The separator is one byte. There is always a part.
unfoldable pub split : ℕ → Bytes → List Bytes
split sep [] = [] ∷ []
split sep (c ∷ s) = let rest = split sep s in if c == sep then [] ∷ rest else onto_first c rest

unfoldable pub join : ℕ → List Bytes → Bytes
join sep [] = []
join sep (p ∷ []) = p
join sep (p ∷ q ∷ ps) = p ++ sep ∷ join sep (q ∷ ps)

abbrev pub has_prefix : Bytes → Bytes → Bool
has_prefix s p = str_eq (take (length p) s) p

abbrev pub has_suffix : Bytes → Bytes → Bool
has_suffix s p = leb (length p) (length s) && str_eq (drop (length s - length p) s) p

abbrev pub trim_suffix : Bytes → Bytes → Bytes
trim_suffix s p = if has_suffix s p then take (length s - length p) s else s

-- Membership in a Go `map[string]struct{}`.
unfoldable pub contains : List Bytes → Bytes → Bool
contains [] s = false
contains (x ∷ xs) s = str_eq x s || contains xs s

abbrev pub Lacks : ℕ → Bytes → Type 0
Lacks sep = All (λ c. c ≢ sep)

onto_first-All :
    (c : ℕ) (sep : ℕ) (ps : List Bytes)
    → c ≢ sep
    → All (Lacks sep) ps
    → All (Lacks sep) (onto_first c ps)
onto_first-All c sep [] h k = ((h, tt), tt)
onto_first-All c sep (p ∷ ps) h (kp, k) = ((h, kp), k)

-- No part holds the separator.
pub split-Lacks : (sep : ℕ) (s : Bytes) → All (Lacks sep) (split sep s)
unfolding split
split-Lacks sep [] = (tt, tt)
split-Lacks sep (c ∷ s) = ground (arith, split-Lacks sep s, onto_first-All c sep (split sep s))

pub split-ne-nil : (sep : ℕ) (s : Bytes) → split sep s ≢ []
unfolding split
split-ne-nil sep [] = ground arith
split-ne-nil sep (c ∷ s) = ground (arith, split-ne-nil sep s)

-- A part that lacks the separator and stands before one.
split-append : (sep : ℕ) (p s : Bytes) → Lacks sep p → split sep (p ++ sep ∷ s) ≡ p ∷ split sep s
unfolding split
split-append sep [] s h = ground arith
split-append sep (c ∷ p) s (hc, h) = ground (arith, split-append sep p s h)

split_of-Lacks : (sep : ℕ) (p : Bytes) → Lacks sep p → split sep p ≡ p ∷ []
unfolding split
split_of-Lacks sep [] h = refl
split_of-Lacks sep (c ∷ p) (hc, h) = ground (arith, split_of-Lacks sep p h)

-- Splitting a join gives the parts back, if there is one and none holds the separator.
pub split-join :
    (sep : ℕ) (ps : List Bytes) → ps ≢ [] → All (Lacks sep) ps → split sep (join sep ps) ≡ ps
unfolding join
split-join sep [] h k = absurd (h refl)
split-join sep (p ∷ []) h (kp, k) = split_of-Lacks sep p kp
split-join sep (p ∷ q ∷ ps) h (kp, k) =
    rw (split-append sep p (join sep (q ∷ ps)) kp)
      (ap (λ xs. p ∷ xs) (split-join sep (q ∷ ps) (λ e. cc) k))

-- Keys of which none comes twice.
abbrev pub Distinct : List Bytes → Type 0
Distinct [] = Unit
Distinct (k ∷ ks) = (contains ks k ≡ false) × Distinct ks

pub contains_last :
    (ks : List Bytes) (j k : Bytes) → contains (ks ++ j ∷ []) k ≡ contains (j ∷ ks) k
unfolding contains
contains_last [] j k = refl
contains_last (i ∷ ks) j k = ground (arith, contains_last ks j k)

pub Distinct-append :
    (ks : List Bytes) (k : Bytes) → Distinct ks → contains ks k ≡ false → Distinct (ks ++ k ∷ [])
unfolding contains
Distinct-append [] k d h = (refl, tt)
Distinct-append (j ∷ ks) k (n, d) h = (
  ground (arith, contains_last ks k j, str_eq_comm j k, h, n),
  Distinct-append ks k d (ground (arith, h)),
)

join-onto_first :
    (sep c : ℕ) (ps : List Bytes) → ps ≢ [] → join sep (onto_first c ps) ≡ c ∷ join sep ps
unfolding join
join-onto_first sep c [] h = absurd (h refl)
join-onto_first sep c (p ∷ []) h = refl
join-onto_first sep c (p ∷ q ∷ ps) h = refl

join-cons : (sep : ℕ) (ps : List Bytes) → ps ≢ [] → join sep ([] ∷ ps) ≡ sep ∷ join sep ps
unfolding join
join-cons sep [] h = absurd (h refl)
join-cons sep (p ∷ ps) h = refl

pub join-split : (sep : ℕ) (s : Bytes) → join sep (split sep s) ≡ s
unfolding split join
join-split sep [] = refl
join-split sep (c ∷ s) = elim (Bool-cases (c == sep)) [
  | inl e ↦
      let same : sep ≡ c = ground arith in
      rw e (join-cons sep (split sep s) (split-ne-nil sep s) ∙ rw (same, join-split c s) refl)
  | inr e ↦ rw e (
      join-onto_first sep c (split sep s) (split-ne-nil sep s) ∙ ap (λ t. c ∷ t) (join-split sep s))
]
