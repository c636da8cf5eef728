-- ===== src/Rest/Names/Shape.antt =====
-- What `NormalizePathWithNames` of pkg/generate/rest/normalize.go keeps of a path.
use vespasian.Prelude.{
  ℕ, suc, ◌-◌, true, false, List, [], ◌∷◌, ◌++◌, ◌≡◌, ◌≢◌, ◌⊎◌, inl, inr, refl, sym, ap, subst, ◌∙◌,
  arith, Bytes, codes, length, take, drop, ltb, All, All-append, All-drop, All-take,
  take-append_exact, length-append, Bool-cases, if_both,
}
use vespasian.Prelude.Decimal.{decimal, IsDigit, decimal-IsDigit}
use vespasian.Prelude.Parts.{split, Lacks, split-Lacks, split-ne-nil, split-join}
use vespasian.Rest.Segments.{is_literal, classify_param_segment}
use vespasian.Rest.Names.{
  Segment, classify_segments, braced, apply_kind, apply_kinds, contextual_param_name,
  previous_literal, count_of, in_braces, deduplicate_param_names, render_segments,
  normalize_path_with_names,
}
use vespasian.Rest.Names.Idents.{is_word, Ident, param_name_from_kind-Ident}

-- The text between the first and the last byte.
abbrev pub between_braces : Bytes → Bytes
between_braces s = take (length s - 2) (drop 1 s)

-- What becomes of a segment: a literal one is kept, but for a number in one that stands in braces
-- itself; a parameter becomes a name in braces.
abbrev pub Rendered : Bytes → Bytes → Type 0
Rendered s t =
    (is_literal (classify_param_segment s) ≡ true)
      × ((t ≡ s) ⊎ (in_braces s ≡ true) × ((k : ℕ) × (t ≡ braced (between_braces s ++ decimal k))))
    ⊎ (is_literal (classify_param_segment s) ≡ false)
      × ((name : Bytes) × Ident name × (t ≡ braced name))

abbrev pub AllRendered : List Bytes → List Bytes → Type 0
AllRendered [] [] = Unit
AllRendered (s ∷ ss) (t ∷ ts) = Rendered s t × AllRendered ss ts
AllRendered _ _ = ⊥

-- Before the numbers.
abbrev Applied : Bytes → Bytes → Type 0
Applied s t =
    (is_literal (classify_param_segment s) ≡ true) × (t ≡ s)
    ⊎ (is_literal (classify_param_segment s) ≡ false)
      × ((name : Bytes) × Ident name × (t ≡ braced name))

abbrev AllApplied : List Bytes → List Bytes → Type 0
AllApplied [] [] = Unit
AllApplied (s ∷ ss) (t ∷ ts) = Applied s t × AllApplied ss ts
AllApplied _ _ = ⊥

apply_kind-Applied :
    (before : List Segment) (s : Bytes)
    → Applied s (apply_kind before (record { text = s; kind = classify_param_segment s })).text
unfolding apply_kind contextual_param_name
apply_kind-Applied before s = elim (Bool-cases (is_literal (classify_param_segment s))) [
  | inl k ↦ ground arith
  | inr k ↦ inr (
    k,
    (
      _,
      param_name_from_kind-Ident (previous_literal before) (classify_param_segment s),
      rw (apply_kind, k) refl,
    ),
  )
]

apply_kinds-Applied :
    (ss : List Bytes) (before : List Segment)
    → AllApplied ss (apply_kinds before (classify_segments ss))
unfolding apply_kinds
apply_kinds-Applied [] before = tt
apply_kinds-Applied (s ∷ ss) before = (apply_kind-Applied before s, apply_kinds-Applied ss _)

-- A name in braces, with a number.
between_braces-braced : (name : Bytes) → between_braces (braced name) ≡ name
between_braces-braced name =
    let e : length (braced name) - 2 ≡ length name =
      omega (arith, length-append name (codes "}")) in
    rw e (take-append_exact name (codes "}"))

digit-word : (b : Bytes) → All IsDigit b → All (λ c. is_word c ≡ true) b
digit-word [] h = tt
digit-word (c ∷ b) (h, k) = (ground arith, digit-word b k)

Ident-append : (name : Bytes) (k : ℕ) → Ident name → Ident (name ++ decimal k)
Ident-append name k (h, w) = (
  omega (arith, length-append name (decimal k)),
  All-append _ name (decimal k) w (digit-word (decimal k) (decimal-IsDigit k)),
)

abbrev Renumbered : Bytes → Bytes → Type 0
Renumbered t u =
    (u ≡ t) ⊎ (in_braces t ≡ true) × ((k : ℕ) × (u ≡ braced (between_braces t ++ decimal k)))

Rendered-Renumbered : (s t u : Bytes) → Applied s t → Renumbered t u → Rendered s u
Rendered-Renumbered s t u (inl (h, e)) r = inl (h, subst (λ x. Renumbered x u) e r)
Rendered-Renumbered s t u (inr (h, (name, n, e))) (inl d) = inr (h, (name, n, d ∙ e))
Rendered-Renumbered s t u (inr (h, (name, n, e))) (inr (b, (k, d))) = inr (
  h,
  (
    name ++ decimal k,
    Ident-append name k n,
    d ∙ ap (λ x. braced (x ++ decimal k)) (ap between_braces e ∙ between_braces-braced name),
  ),
)

dedup-Rendered :
    (ss ts : List Bytes) (seen : List (Bytes × ℕ))
    → AllApplied ss ts
    → AllRendered ss (deduplicate_param_names seen ts)
unfolding deduplicate_param_names
dedup-Rendered [] [] seen h = tt
dedup-Rendered [] (t ∷ ts) seen h = absurd h
dedup-Rendered (s ∷ ss) [] seen h = absurd h
dedup-Rendered (s ∷ ss) (t ∷ ts) seen (h, k) = elim (Bool-cases (in_braces t)) [
  | inr b ↦ rw b (Rendered-Renumbered s t t h (inl refl), dedup-Rendered ss ts seen k)
  | inl b ↦
      let count = suc (count_of (between_braces t) seen) in
      rw b (
        if_both (Rendered s) (ltb 1 count) _ _
            (Rendered-Renumbered s t _ h (inr (b, (count, refl))))
            (Rendered-Renumbered s t t h (inl refl)),
        dedup-Rendered ss ts _ k,
      )
]

word-Lacks : (b : Bytes) → All (λ c. is_word c ≡ true) b → Lacks 0x2f b
word-Lacks [] h = tt
word-Lacks (c ∷ b) (h, k) = (ground arith, word-Lacks b k)

digit-Lacks : (b : Bytes) → All IsDigit b → Lacks 0x2f b
digit-Lacks b h = word-Lacks b (digit-word b h)

braced-Lacks : (b : Bytes) → Lacks 0x2f b → Lacks 0x2f (braced b)
braced-Lacks b h = (ground arith, All-append _ b (codes "}") h (ground arith))

Rendered-Lacks : (s t : Bytes) → Rendered s t → Lacks 0x2f s → Lacks 0x2f t
Rendered-Lacks s t (inl (h, inl e)) l = subst (Lacks 0x2f) (sym e) l
Rendered-Lacks s t (inl (h, inr (b, (k, e)))) l = subst (Lacks 0x2f) (sym e) (
    braced-Lacks (between_braces s ++ decimal k) (
      All-append _ (between_braces s) (decimal k)
        (All-take _ (length s - 2) (drop 1 s) (All-drop _ 1 s l))
        (digit-Lacks (decimal k) (decimal-IsDigit k))))
Rendered-Lacks s t (inr (h, (name, (n, w), e))) l =
    subst (Lacks 0x2f) (sym e) (braced-Lacks name (word-Lacks name w))

AllRendered-Lacks :
    (ss ts : List Bytes) → AllRendered ss ts → All (Lacks 0x2f) ss → All (Lacks 0x2f) ts
AllRendered-Lacks [] [] h l = tt
AllRendered-Lacks [] (t ∷ ts) h l = absurd h
AllRendered-Lacks (s ∷ ss) [] h l = absurd h
AllRendered-Lacks (s ∷ ss) (t ∷ ts) (h, k) (l, m) =
    (Rendered-Lacks s t h l, AllRendered-Lacks ss ts k m)

AllRendered-ne-nil : (ss ts : List Bytes) → AllRendered ss ts → ss ≢ [] → ts ≢ []
AllRendered-ne-nil [] ts h n = absurd (n refl)
AllRendered-ne-nil (s ∷ ss) [] h n = absurd h
AllRendered-ne-nil (s ∷ ss) (t ∷ ts) h n = λ e. cc

-- NormalizePathWithNames keeps the segments of a path one by one. A literal segment is kept, but
-- one that stands in braces itself may get a number; a parameter becomes a nonempty name of
-- letters, digits and underscores in braces.
pub normalize_path_with_names_lem :
    (path : Bytes) → AllRendered (split 0x2f path) (split 0x2f (normalize_path_with_names path))
unfolding normalize_path_with_names render_segments
normalize_path_with_names_lem path =
    let ss = split 0x2f path in
    let ts = deduplicate_param_names [] (apply_kinds [] (classify_segments ss)) in
    let r =
      dedup-Rendered ss (apply_kinds [] (classify_segments ss)) [] (apply_kinds-Applied ss []) in
    let e =
      split-join 0x2f ts (AllRendered-ne-nil ss ts r (split-ne-nil 0x2f path))
        (AllRendered-Lacks ss ts r (split-Lacks 0x2f path)) in
    subst (AllRendered ss) (sym e) r
