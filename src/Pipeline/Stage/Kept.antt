-- ===== src/Pipeline/Stage/Kept.antt =====
-- What the stage of internal/pipeline/pipeline.go that classifies fails on, and what it keeps.
use vespasian.Prelude.{
  ◌<◌, Bool, true, false, ◌&&◌, List, none, some, ◌≡◌, ◌⊎◌, inl, inr, refl, sym, ap, ◌∙◌, arith,
  All, Bytes, Result, ok, err, str_eq, str_eq_iff, codes, Option-cases, if◌then◌else◌,
}
use vespasian.Prelude.Int.{pos, ltb_ℤ}
use vespasian.Packages.{Packages}
use vespasian.Classify.Requests.{ObservedRequest, ClassifiedRequest}
use vespasian.Classify.Running.{Kind, name_of}
use vespasian.Pipeline.ApiTypes.{kind_for_type}
use vespasian.Pipeline.Stage.{
  Options, StageError, unsupported_api_type, slug_threshold_too_small, ignores_slugs,
  classify_stage, validate_slug_threshold,
}
use vespasian.Pipeline.Stage.Accepted.{IsKept, classified_by-IsKept}

-- Whether the slug options are refused, written out.
abbrev pub RefusesSlugs : Options → Type 0
RefusesSlugs opts =
    (ignores_slugs opts.api_type ≡ false)
    × (opts.merge_slugs ≡ true)
    × (ltb_ℤ opts.slug_threshold (pos 2) ≡ true)

-- What the stage may answer.
abbrev pub AfterStage : Options → Result StageError (List ClassifiedRequest) → Type 0
AfterStage opts (err (unsupported_api_type t)) =
    (t ≡ opts.api_type) × ((kind : Kind) → opts.api_type ≡ name_of kind → ⊥)
AfterStage opts (err slug_threshold_too_small) =
    ((kind : Kind) × (opts.api_type ≡ name_of kind)) × RefusesSlugs opts
AfterStage opts (ok results) =
    ((kind : Kind) × (opts.api_type ≡ name_of kind))
    × (RefusesSlugs opts → ⊥)
    × All (IsKept opts.confidence opts.api_type) results

kind_for_type-name_of : (kind : Kind) → kind_for_type (name_of kind) ≡ some kind
unfolding kind_for_type str_eq
kind_for_type-name_of Kind.rest = refl
kind_for_type-name_of Kind.graphql = refl
kind_for_type-name_of Kind.grpc = refl
kind_for_type-name_of Kind.wsdl = refl

kind_for_type-none : (t : Bytes) → kind_for_type t ≡ none → (kind : Kind) → t ≡ name_of kind → ⊥
kind_for_type-none t h kind e =
    cc (sym (kind_for_type-name_of kind) ∙ (sym (ap kind_for_type e) ∙ h))

kind_for_type-some : (t : Bytes) (kind : Kind) → kind_for_type t ≡ some kind → t ≡ name_of kind
unfolding kind_for_type
kind_for_type-some t Kind.rest h = (str_eq_iff t (codes "rest")).0 (ground (arith, h))
kind_for_type-some t Kind.graphql h = (str_eq_iff t (codes "graphql")).0 (ground (arith, h))
kind_for_type-some t Kind.grpc h = (str_eq_iff t (codes "grpc")).0 (ground (arith, h))
kind_for_type-some t Kind.wsdl h = (str_eq_iff t (codes "wsdl")).0 (ground (arith, h))

slug_flags :
    (i m l : Bool)
    → (((if i then none else if m && l then some slug_threshold_too_small else none)
          ≡ some slug_threshold_too_small)
        × ((i ≡ false) × (m ≡ true) × (l ≡ true)))
      ⊎ (((if i then none else if m && l then some slug_threshold_too_small else none) ≡ none)
          × ((i ≡ false) × (m ≡ true) × (l ≡ true) → ⊥))
slug_flags true m l = inr (refl, λ h. let (a, b, c) = h in cc a)
slug_flags false true true = inl (refl, (refl, refl, refl))
slug_flags false true false = inr (refl, λ h. let (a, b, c) = h in cc c)
slug_flags false false l = inr (refl, λ h. let (a, b, c) = h in cc b)

slug_cases :
    (opts : Options)
    → ((validate_slug_threshold opts.api_type opts.merge_slugs opts.slug_threshold
          ≡ some slug_threshold_too_small)
        × RefusesSlugs opts)
      ⊎ ((validate_slug_threshold opts.api_type opts.merge_slugs opts.slug_threshold ≡ none)
          × (RefusesSlugs opts → ⊥))
unfolding validate_slug_threshold
slug_cases opts =
    slug_flags (ignores_slugs opts.api_type) opts.merge_slugs (ltb_ℤ opts.slug_threshold (pos 2))

-- If the threshold is more than 0, the stage that classifies fails on a type of API that names no
-- classifier, then on slug options with a threshold of less than 2 that the type does not ignore,
-- and on nothing else; what it gives otherwise, merged or not, are requests that are accepted,
-- have the type of API that was asked for and reach the threshold.
pub classify_stage-AfterStage :
    (packages : Packages) (opts : Options) (requests : List ObservedRequest)
    → 0 < opts.confidence
    → AfterStage opts (classify_stage packages opts requests)
unfolding classify_stage
classify_stage-AfterStage packages opts requests h =
    elim (Option-cases (kind_for_type opts.api_type)) [
      | inl e ↦ rw e (refl, kind_for_type-none opts.api_type e)
      | inr (kind, e) ↦
          let typed = kind_for_type-some opts.api_type kind e in
          elim (slug_cases opts) [
            | inl (s, r) ↦ rw (e, s) ((kind, typed), r)
            | inr (s, r) ↦
                rw (e, s)
                  ((kind, typed), r, classified_by-IsKept packages opts kind requests h typed)
          ]
    ]
