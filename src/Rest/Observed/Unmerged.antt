-- ===== src/Rest/Observed/Unmerged.antt =====
-- `NormalizePathsWithNames` of pkg/generate/rest/normalize.go without the detection of slugs.
use vespasian.Prelude.{
  true, false, ◌||◌, List, [], ◌∷◌, ◌++◌, map, ◌≡◌, inl, inr, refl, arith, Bytes, All, All-append,
  str_eq, str_eq_iff, sym, Bool-cases, if◌then◌else◌, if_both,
}
use vespasian.Prelude.Parts.{split, contains}
use vespasian.Rest.Segments.{classify_param_segment}
use vespasian.Rest.Names.{Segment, classify_segments, render_segments, normalize_path_with_names}
use vespasian.Rest.Observed.{
  PosKey, NormalizeOptions, is_slug, has_key, path_keys, paths_keys, unify_path, unify_mixed_kinds,
  classify_paths, keys_of, render_loop, normalize_paths_with_names,
}

classify_no_slug : (s : Bytes) → is_slug (classify_param_segment s) ≡ false
unfolding classify_param_segment
classify_no_slug s = ground arith

path_keys-classify :
    (before : List Segment) (ss : List Bytes) → path_keys is_slug before (classify_segments ss) ≡ []
unfolding path_keys
path_keys-classify before [] = refl
path_keys-classify before (s ∷ ss) =
    rw (classify_no_slug s)
      (path_keys-classify (before ++ record { text = s; kind = classify_param_segment s } ∷ []) ss)

paths_keys-classify : (paths : List Bytes) → paths_keys is_slug (classify_paths paths) ≡ []
paths_keys-classify [] = refl
paths_keys-classify (p ∷ paths) =
    rw (path_keys-classify [] (split 0x2f p), paths_keys-classify paths) refl

-- Without slugs nothing is unified.
unify_path-none : (js : List PosKey) (before ss : List Segment) → unify_path [] js before ss ≡ ss
unfolding unify_path has_key
unify_path-none js before [] = refl
unify_path-none js before (s ∷ ss) = ground (arith, unify_path-none js (before ++ s ∷ []) ss)

unify_paths_none :
    (js : List PosKey) (infos : List (List Segment)) → map (unify_path [] js []) infos ≡ infos
unify_paths_none js [] = refl
unify_paths_none js (info ∷ infos) = rw (unify_path-none js [] info, unify_paths_none js infos) refl

unify-classify :
    (paths : List Bytes) → unify_mixed_kinds (classify_paths paths) ≡ classify_paths paths
unfolding unify_mixed_kinds
unify-classify paths = rw (paths_keys-classify paths) (unify_paths_none _ (classify_paths paths))

abbrev pub IsOwn : Bytes × Bytes → Type 0
IsOwn (path, normalized) = normalized ≡ normalize_path_with_names path

render_loop-IsOwn :
    (paths : List Bytes) (out : List (Bytes × Bytes))
    → All IsOwn out
    → All IsOwn (render_loop out paths (classify_paths paths))
unfolding render_loop normalize_path_with_names
render_loop-IsOwn [] out h = h
render_loop-IsOwn (p ∷ paths) out h =
    render_loop-IsOwn paths _
      (if_both (All IsOwn) (contains (keys_of out) p) _ _ h (All-append IsOwn out _ h (refl, tt)))

keys_of-append :
    (out : List (Bytes × Bytes)) (p v s : Bytes)
    → contains (keys_of (out ++ (p, v) ∷ [])) s ≡ contains (keys_of out) s || str_eq p s
unfolding contains
keys_of-append [] p v s = ground arith
keys_of-append ((k, w) ∷ out) p v s = ground (arith, keys_of-append out p v s)

known_key :
    (ks : List Bytes) (p s : Bytes)
    → contains ks p ≡ true
    → contains ks s ≡ contains ks s || str_eq p s
known_key ks p s h = elim (Bool-cases (str_eq p s)) [
  | inl k ↦ rw (sym ((str_eq_iff p s).0 k), h) refl
  | inr k ↦ rw k (ground arith)
]

-- A key that is there already adds nothing.
insert-keys :
    (out : List (Bytes × Bytes)) (p v s : Bytes)
    → contains (keys_of (if contains (keys_of out) p then out else out ++ (p, v) ∷ [])) s
      ≡ contains (keys_of out) s || str_eq p s
insert-keys out p v s = elim (Bool-cases (contains (keys_of out) p)) [
  | inl k ↦ rw k (known_key (keys_of out) p s k)
  | inr k ↦ rw k (keys_of-append out p v s)
]

render_loop-keys :
    (out : List (Bytes × Bytes)) (paths : List Bytes) (s : Bytes)
    → contains (keys_of (render_loop out paths (classify_paths paths))) s
      ≡ contains (keys_of out) s || contains paths s
unfolding render_loop contains
render_loop-keys out [] s = ground arith
render_loop-keys out (p ∷ paths) s =
    let v = render_segments (classify_segments (split 0x2f p)) in
    let next = if contains (keys_of out) p then out else out ++ (p, v) ∷ [] in
    ground (arith, render_loop-keys next paths s, insert-keys out p v s)

-- Without the merging of slugs, NormalizePathsWithNames gives each of the paths, and no other,
-- what NormalizePathWithNames gives for it alone.
pub normalize_paths_with_names_unmerged :
    (paths : List Bytes) (opts : NormalizeOptions)
    → opts.merge_slugs ≡ false
    → All IsOwn (normalize_paths_with_names paths opts)
      × ((path : Bytes)
          → contains (keys_of (normalize_paths_with_names paths opts)) path ≡ contains paths path)
unfolding normalize_paths_with_names contains
normalize_paths_with_names_unmerged paths opts h =
    rw (h, unify-classify paths)
      (render_loop-IsOwn paths [] tt, λ path. render_loop-keys [] paths path)
