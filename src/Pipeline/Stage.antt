-- ===== src/Pipeline/Stage.antt =====
-- The stage of ClassifyProbeGenerate in internal/pipeline/pipeline.go that classifies.
pub mod Accepted
pub mod Kept
use vespasian.Prelude.{
  ℕ, Bool, true, false, ◌&&◌, ◌||◌, List, Option, none, some, Bytes, Result, ok, err, ◌>>=◌, codes,
  str_eq, if◌then◌else◌,
}
use vespasian.Prelude.Int.{ℤ, pos, ltb_ℤ}
use vespasian.Packages.{Packages}
use vespasian.Classify.Requests.{ObservedRequest, ClassifiedRequest}
use vespasian.Classify.Running.{ApiClassifier, run_classifiers}
use vespasian.Classify.Dedup.{deduplicate}
use vespasian.Pipeline.ApiTypes.{classifiers_for_type}

-- The fields of `Options` that the stage reads; the confidence is in units of 2 ^ -55.
pub record Options : Type 0 where
  pub api_type : Bytes
  pub confidence : ℕ
  pub deduplicated : Bool
  pub merge_slugs : Bool
  pub slug_threshold : ℤ

pub data StageError : Type 0 where
  unsupported_api_type : Bytes → StageError
  slug_threshold_too_small : StageError

abbrev pub ignores_slugs : Bytes → Bool
ignores_slugs api_type = str_eq api_type (codes "wsdl") || str_eq api_type (codes "graphql")

unfoldable pub validate_slug_threshold : Bytes → Bool → ℤ → Option StageError
validate_slug_threshold api_type merge_slugs slug_threshold =
    if ignores_slugs api_type
    then none
    else if merge_slugs && ltb_ℤ slug_threshold (pos 2)
    then some slug_threshold_too_small
    else none

abbrev pub classified_by :
    Packages → Options → List ObservedRequest → List ApiClassifier → List ClassifiedRequest
classified_by packages opts requests classifiers =
    let classified = run_classifiers classifiers requests opts.confidence in
    if opts.deduplicated then deduplicate packages classified else classified

abbrev supported : Bytes → Option (List ApiClassifier) → Result StageError (List ApiClassifier)
supported api_type none = err (unsupported_api_type api_type)
supported api_type (some classifiers) = ok classifiers

abbrev unless : Option StageError → List ApiClassifier → Result StageError (List ApiClassifier)
unless none classifiers = ok classifiers
unless (some e) classifiers = err e

unfoldable pub classify_stage :
    Packages → Options → List ObservedRequest → Result StageError (List ClassifiedRequest)
classify_stage packages opts requests =
    supported opts.api_type (classifiers_for_type packages opts.api_type)
    >>= unless (validate_slug_threshold opts.api_type opts.merge_slugs opts.slug_threshold)
    >>= (λ classifiers. ok (classified_by packages opts requests classifiers))
