-- ===== src/Rest/Observed/Promoted.antt =====
-- What the slug detection of pkg/generate/rest/normalize.go keeps of the paths.
use vespasian.Prelude.{
  ℕ, zero, suc, Bool, true, false, not, List, [], ◌∷◌, ◌++◌, map, ◌≡◌, ◌⊎◌, inl, inr, refl, ap,
  subst, ◌∙◌, arith, Bytes, if_both, All, str_eq,
}
use vespasian.Prelude.Parts.{split, contains}
use vespasian.Rest.Segments.{slug, is_literal, known_literals, classify_param_segment}
use vespasian.Rest.Names.{Segment, classify_segments}
use vespasian.Rest.Observed.{
  PosKey, is_observation_candidate, is_promoted, slug_if, promote_path, promote_varying_positions,
  find_varying_positions, promotion_rounds, is_unified, unify_path, unify_mixed_kinds,
  classify_paths, is_empty, paths_keys, is_slug, is_other,
}

-- A text that may stand for a parameter.
abbrev pub Free : Bytes → Type 0
Free s = (str_eq s [] ≡ false) × (contains known_literals s ≡ false)

-- The kind is that of the text, or the segment is a slug that is neither empty nor a known literal.
abbrev pub Kept : Segment → Type 0
Kept s = (s.kind ≡ classify_param_segment s.text) ⊎ (s.kind ≡ slug) × Free s.text

abbrev pub texts : List Segment → List Bytes
texts [] = []
texts (s ∷ ss) = s.text ∷ texts ss

abbrev pub paths_texts : List (List Segment) → List (List Bytes)
paths_texts [] = []
paths_texts (info ∷ infos) = texts info ∷ paths_texts infos

classify-Free : (s : Bytes) → is_literal (classify_param_segment s) ≡ false → Free s
unfolding classify_param_segment
classify-Free s h = ground arith

nonliteral-Free : (s : Segment) → Kept s → is_literal s.kind ≡ false → Free s.text
nonliteral-Free s (inl k) h = classify-Free s.text (subst (λ x. is_literal x ≡ false) k h)
nonliteral-Free s (inr (k, f)) h = f

candidate-Free :
    (before : List Segment) (s : Segment) → is_observation_candidate before s ≡ true → Free s.text
unfolding is_observation_candidate
candidate-Free before s h = ground arith

slug_if-Kept : (b : Bool) (s : Segment) → (b ≡ true → Free s.text) → Kept s → Kept (slug_if b s)
slug_if-Kept true s h k = inr (refl, h refl)
slug_if-Kept false s h k = k

slug_if-text : (b : Bool) (s : Segment) → (slug_if b s).text ≡ s.text
slug_if-text true s = refl
slug_if-text false s = refl

promote_path-Kept :
    (varying : List PosKey) (before ss : List Segment)
    → All Kept ss
    → All Kept (promote_path varying before ss)
unfolding promote_path
promote_path-Kept varying before [] h = tt
promote_path-Kept varying before (s ∷ ss) (k, h) = (
  slug_if-Kept (is_promoted varying before s ss) s (λ e. ground (arith, candidate-Free before s)) k,
  promote_path-Kept varying (before ++ s ∷ []) ss h,
)

promote_path-texts :
    (varying : List PosKey) (before ss : List Segment)
    → texts (promote_path varying before ss) ≡ texts ss
unfolding promote_path
promote_path-texts varying before [] = refl
promote_path-texts varying before (s ∷ ss) =
    rw
      (
        slug_if-text (is_promoted varying before s ss) s,
        promote_path-texts varying (before ++ s ∷ []) ss,
      )
      refl

unify_path-Kept :
    (ks js : List PosKey) (before ss : List Segment)
    → All Kept ss
    → All Kept (unify_path ks js before ss)
unfolding unify_path
unify_path-Kept ks js before [] h = tt
unify_path-Kept ks js before (s ∷ ss) (k, h) = (
  slug_if-Kept (is_unified ks js before s ss) s (λ e. nonliteral-Free s k (ground arith)) k,
  unify_path-Kept ks js (before ++ s ∷ []) ss h,
)

unify_path-texts :
    (ks js : List PosKey) (before ss : List Segment) → texts (unify_path ks js before ss) ≡ texts ss
unfolding unify_path
unify_path-texts ks js before [] = refl
unify_path-texts ks js before (s ∷ ss) =
    rw (slug_if-text (is_unified ks js before s ss) s, unify_path-texts ks js (before ++ s ∷ []) ss)
      refl

-- All paths, under a function that keeps one.
module _ (f : List Segment → List Segment) where
  map-Kept :
      ((ss : List Segment) → All Kept ss → All Kept (f ss))
      → (infos : List (List Segment)) → All (All Kept) infos
      → All (All Kept) (map f infos)
  map-Kept h [] k = tt
  map-Kept h (ss ∷ infos) (i, k) = (h ss i, map-Kept h infos k)

  map-texts :
      ((ss : List Segment) → texts (f ss) ≡ texts ss)
      → (infos : List (List Segment)) → paths_texts (map f infos) ≡ paths_texts infos
  map-texts h [] = refl
  map-texts h (ss ∷ infos) = rw (h ss, map-texts h infos) refl

-- Kept segments, with the texts of the paths.
abbrev pub Faithful : List (List Segment) → List (List Segment) → Type 0
Faithful infos next = All (All Kept) next × (paths_texts next ≡ paths_texts infos)

promote-Faithful :
    (varying : List PosKey) (infos : List (List Segment))
    → All (All Kept) infos
    → Faithful infos (promote_varying_positions infos varying).0
unfolding promote_varying_positions
promote-Faithful varying infos k = (
  map-Kept (promote_path varying []) (promote_path-Kept varying []) infos k,
  map-texts (promote_path varying []) (promote_path-texts varying []) infos,
)

promotion_rounds-Faithful :
    (n threshold : ℕ) (infos : List (List Segment))
    → All (All Kept) infos
    → Faithful infos (promotion_rounds n threshold infos)
unfolding promotion_rounds
promotion_rounds-Faithful zero t infos k = (k, refl)
promotion_rounds-Faithful (suc n) t infos k =
    let varying = find_varying_positions infos t in
    let (h, e) = promote-Faithful varying infos k in
    let next = (promote_varying_positions infos varying).0 in
    let (i, d) = promotion_rounds-Faithful n t next h in
    if_both (Faithful infos) (is_empty varying) _ _ (k, refl)
      (if_both (Faithful infos) (not (promote_varying_positions infos varying).1) _ _ (h, e)
        (i, d ∙ e))

unify-Faithful :
    (infos : List (List Segment)) → All (All Kept) infos → Faithful infos (unify_mixed_kinds infos)
unfolding unify_mixed_kinds
unify-Faithful infos k =
    let ks = paths_keys is_slug infos in
    let js = paths_keys is_other infos in
    (
      map-Kept (unify_path ks js []) (unify_path-Kept ks js []) infos k,
      map-texts (unify_path ks js []) (unify_path-texts ks js []) infos,
    )

classify_segments-Kept : (ss : List Bytes) → All Kept (classify_segments ss)
classify_segments-Kept [] = tt
classify_segments-Kept (s ∷ ss) = (inl refl, classify_segments-Kept ss)

texts-classify_segments : (ss : List Bytes) → texts (classify_segments ss) ≡ ss
texts-classify_segments [] = refl
texts-classify_segments (s ∷ ss) = ap (λ ts. s ∷ ts) (texts-classify_segments ss)

classify_paths-Kept : (paths : List Bytes) → All (All Kept) (classify_paths paths)
classify_paths-Kept [] = tt
classify_paths-Kept (p ∷ paths) = (classify_segments-Kept (split 0x2f p), classify_paths-Kept paths)

texts-classify_paths :
    (paths : List Bytes) → paths_texts (classify_paths paths) ≡ map (split 0x2f) paths
texts-classify_paths [] = refl
texts-classify_paths (p ∷ paths) =
    rw (texts-classify_segments (split 0x2f p), texts-classify_paths paths) refl

-- However many rounds run and whatever the threshold, the detection keeps the text of every segment
-- of every path, and its kind, except that it turns segments into slugs that are neither empty nor
-- known literals.
pub promotion_lem :
    (rounds threshold : ℕ) (paths : List Bytes)
    → All (All Kept) (unify_mixed_kinds (promotion_rounds rounds threshold (classify_paths paths)))
      × (paths_texts (unify_mixed_kinds (promotion_rounds rounds threshold (classify_paths paths)))
          ≡ map (split 0x2f) paths)
promotion_lem n t paths =
    let infos = classify_paths paths in
    let (k, d) = promotion_rounds-Faithful n t infos (classify_paths-Kept paths) in
    let (h, e) = unify-Faithful (promotion_rounds n t infos) k in
    (h, e ∙ (d ∙ texts-classify_paths paths))
