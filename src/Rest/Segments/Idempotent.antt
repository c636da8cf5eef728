-- ===== src/Rest/Segments/Idempotent.antt =====
-- What `NormalizePath` of pkg/generate/rest/normalize.go keeps of a path.
use vespasian.Prelude.{
  List, [], ◌∷◌, map, ◌≡◌, ◌≢◌, inl, inr, refl, ap, arith, Bytes, All, str_eq, Bool-cases,
  if◌then◌else◌,
}
use vespasian.Prelude.Parts.{split, join, Lacks, split-Lacks, split-ne-nil, split-join, contains}
use vespasian.Rest.Segments.{
  literal, is_literal, id_placeholder, classify_param_segment, normalize_segment, normalize_path,
  uuid_match, object_id_match, numeric_match, is_short_hex_hash, is_base64_token, base64_match,
}

placeholder-Lacks :
    (s : Bytes)
    → Lacks 0x2f s
    → Lacks 0x2f (if is_literal (classify_param_segment s) then s else id_placeholder)
placeholder-Lacks s h = elim (Bool-cases (is_literal (classify_param_segment s))) [
  | inl k ↦ rw k h
  | inr k ↦ rw k (ground arith)
]

normalize_segment-Lacks : (s : Bytes) → Lacks 0x2f s → Lacks 0x2f (normalize_segment s)
unfolding normalize_segment
normalize_segment-Lacks s h = elim (Bool-cases (str_eq s [])) [
  | inl k ↦ rw k h
  | inr k ↦ rw k (placeholder-Lacks s h)
]

normalize_segments-Lacks :
    (ps : List Bytes) → All (Lacks 0x2f) ps → All (Lacks 0x2f) (map normalize_segment ps)
normalize_segments-Lacks [] h = tt
normalize_segments-Lacks (p ∷ ps) (h, k) =
    (normalize_segment-Lacks p h, normalize_segments-Lacks ps k)

placeholder_literal : classify_param_segment id_placeholder ≡ literal
unfolding classify_param_segment str_eq contains uuid_match split object_id_match numeric_match
    is_short_hex_hash is_base64_token base64_match
placeholder_literal = refl

normalize_segment_twice :
    (s : Bytes) → normalize_segment (normalize_segment s) ≡ normalize_segment s
unfolding normalize_segment
normalize_segment_twice s = ground (arith, placeholder_literal)

normalize_segments_twice :
    (ps : List Bytes) → map normalize_segment (map normalize_segment ps) ≡ map normalize_segment ps
normalize_segments_twice [] = refl
normalize_segments_twice (p ∷ ps) = rw (normalize_segment_twice p, normalize_segments_twice ps) refl

map-ne-nil : (ps : List Bytes) → ps ≢ [] → map normalize_segment ps ≢ []
map-ne-nil [] h = h
map-ne-nil (p ∷ ps) h = λ e. cc

-- NormalizePath works segment by segment: the segments of its result are the path's, each one that
-- reads as a parameter replaced by {id}.
pub split-normalize_path :
    (path : Bytes) → split 0x2f (normalize_path path) ≡ map normalize_segment (split 0x2f path)
unfolding normalize_path
split-normalize_path path =
    split-join 0x2f (map normalize_segment (split 0x2f path))
      (map-ne-nil (split 0x2f path) (split-ne-nil 0x2f path))
      (normalize_segments-Lacks (split 0x2f path) (split-Lacks 0x2f path))

-- Normalizing a path twice with NormalizePath is normalizing it once.
pub normalize_path_idempotent :
    (path : Bytes) → normalize_path (normalize_path path) ≡ normalize_path path
unfolding normalize_path
normalize_path_idempotent path =
    ap (join 0x2f) (rw (split-normalize_path path) (normalize_segments_twice (split 0x2f path)))
