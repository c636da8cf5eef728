-- ===== src/Rest/Tests.antt =====
-- Runs of pkg/generate/rest/normalize.go, and the theorems at concrete inputs.
use vespasian.Prelude.{true, false, List, [], ◌∷◌, map, ◌≡◌, refl, Bytes, codes, All, str_eq}
use vespasian.Prelude.Parts.{split, join, contains}
use vespasian.Prelude.Decimal.{decimal}
use vespasian.Rest.Segments.{
  normalize_segment, normalize_path, classify_param_segment, uuid_match, object_id_match,
  numeric_match, is_short_hex_hash, is_base64_token, base64_match, is_path_prefix, version_match,
}
use vespasian.Rest.Segments.Parameters.{Normalized, normalize_path_lem}
use vespasian.Rest.Names.{
  normalize_path_with_names, render_segments, deduplicate_param_names, apply_kinds, apply_kind,
  contextual_param_name, previous_literal, param_name_from_kind, sanitize_param_name, sanitize_loop,
  singularize,
}
use vespasian.Rest.Names.Shape.{AllRendered, normalize_path_with_names_lem}
use vespasian.Rest.Observed.{
  NormalizeOptions, keys_of, normalize_paths_with_names, unify_mixed_kinds, promotion_rounds,
  classify_paths,
}
use vespasian.Rest.Observed.{
  render_loop, find_varying_positions, promote_varying_positions, promote_path, promotes,
  record_paths, record_path, record_value, varying_keys, has_key, path_keys, unify_path,
  position_key, shape_key, has_literal_context, is_observation_candidate,
}
use vespasian.Rest.Segments.{is_path_prefix, version_match}
use vespasian.Rest.Observed.Promoted.{Kept, paths_texts, promotion_lem}
use vespasian.Rest.Observed.Unmerged.{IsOwn, normalize_paths_with_names_unmerged}

abbrev user_path : Bytes
user_path = codes "/users/42/me"

normalize_path_lem_example :
    Normalized (split b'/' user_path) (split b'/' (normalize_path user_path))
    × (normalize_path (normalize_path user_path) ≡ normalize_path user_path)
normalize_path_lem_example = normalize_path_lem user_path

user_path-id : normalize_path user_path ≡ codes "/users/{id}/me"
unfolding normalize_path normalize_segment split join classify_param_segment str_eq contains
    uuid_match object_id_match numeric_match is_short_hex_hash is_base64_token base64_match
user_path-id = refl

user_path-named : normalize_path_with_names user_path ≡ codes "/users/{userId}/me"
unfolding normalize_path_with_names render_segments deduplicate_param_names apply_kinds apply_kind
    contextual_param_name previous_literal param_name_from_kind sanitize_param_name sanitize_loop
    singularize split join classify_param_segment str_eq contains uuid_match object_id_match
    numeric_match is_short_hex_hash is_base64_token base64_match decimal
user_path-named = refl

-- A segment that stands in braces itself has the name that the second user is given.
braces_path-named :
    normalize_path_with_names (codes "/{userId2}/users/1/users/2")
    ≡ codes "/{userId2}/users/{userId}/users/{userId2}"
unfolding normalize_path_with_names render_segments deduplicate_param_names apply_kinds apply_kind
    contextual_param_name previous_literal param_name_from_kind sanitize_param_name sanitize_loop
    singularize split join classify_param_segment str_eq contains uuid_match object_id_match
    numeric_match is_short_hex_hash is_base64_token base64_match decimal
braces_path-named = refl

normalize_path_with_names_lem_example :
    AllRendered (split 0x2f user_path) (split 0x2f (normalize_path_with_names user_path))
normalize_path_with_names_lem_example = normalize_path_with_names_lem user_path

abbrev article_paths : List Bytes
article_paths =
    codes "/articles/first-post" ∷ codes "/articles/second-post" ∷ codes "/articles/me" ∷ []

promotion_lem_example :
    All (All Kept) (unify_mixed_kinds (promotion_rounds 8 2 (classify_paths article_paths)))
    × (paths_texts (unify_mixed_kinds (promotion_rounds 8 2 (classify_paths article_paths)))
        ≡ map (split 0x2f) article_paths)
promotion_lem_example = promotion_lem 8 2 article_paths

abbrev unmerged : NormalizeOptions
unmerged = record { merge_slugs = false; slug_threshold = 3 }

normalize_paths_with_names_unmerged_example :
    All IsOwn (normalize_paths_with_names article_paths unmerged)
    × ((path : Bytes)
        → contains (keys_of (normalize_paths_with_names article_paths unmerged)) path
          ≡ contains article_paths path)
normalize_paths_with_names_unmerged_example =
    normalize_paths_with_names_unmerged article_paths unmerged refl

abbrev merged : NormalizeOptions
merged = record { merge_slugs = true; slug_threshold = 0 }

-- Two values are enough, since the threshold is clamped to 2; the known literal is kept.
articles-merged :
    normalize_paths_with_names article_paths merged
    ≡ (codes "/articles/first-post", codes "/articles/{articleSlug}")
      ∷ (codes "/articles/second-post", codes "/articles/{articleSlug}")
      ∷ (codes "/articles/me", codes "/articles/me")
      ∷ []
unfolding normalize_paths_with_names unify_mixed_kinds promotion_rounds render_loop
    find_varying_positions promote_varying_positions promote_path promotes record_paths record_path
    record_value varying_keys has_key path_keys unify_path position_key shape_key
    has_literal_context is_observation_candidate is_path_prefix version_match render_segments
    deduplicate_param_names apply_kinds apply_kind contextual_param_name previous_literal
    param_name_from_kind sanitize_param_name sanitize_loop singularize split join
    classify_param_segment str_eq contains uuid_match object_id_match numeric_match
    is_short_hex_hash is_base64_token base64_match decimal
articles-merged = refl
