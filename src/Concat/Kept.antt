-- ===== src/Concat/Kept.antt =====
-- What the extractors of pkg/crawl/jsreplay.go give.
use vespasian.Prelude.{
  or_false_lem, nonempty_of_str_eq, ℕ, suc, ◌+◌, ◌≤◌, false, ◌||◌, List, [], ◌∷◌, ◌++◌, Option,
  none, some, Bytes, length, length-append, take, leb, leb_false→lt, str_eq, All, All-append, ◌≡◌,
  ◌≢◌, arith, Bool-cases, inl, inr,
}
use vespasian.Prelude.Parts.{contains, Distinct, Distinct-append}
use vespasian.Concat.Clean.{clean_concat_path}
use vespasian.Concat.Clean.Paths.{IsClean, clean_concat_path-IsClean}
use vespasian.Concat.Chain.{find_concat_arg_list_end, parse_concat_args, parse_plus_chain}
use vespasian.Concat.Extract.{
  Patterns, max_concat_paths_per_bundle, keep_path, emit, emit_call, method_loop, plus_loop,
  extract_concat_paths, service_loop, service_prefix_plus_paths, add_all,
  extract_static_concat_paths,
}

module _ (patterns : Patterns) where
  abbrev pub IsKept : Bytes → Type 0
  IsKept = IsClean patterns.has_api_indicator

  -- Clean paths, of which none comes twice and no more than so many.
  abbrev pub Paths : ℕ → List Bytes → Type 0
  Paths n paths = All IsKept paths × Distinct paths × (length paths ≤ n)

  keep_path-Paths :
      (n : ℕ) (paths : List Bytes) (p : Bytes)
      → (p ≢ [] → IsKept p)
      → Paths n paths
      → Paths (suc n) (keep_path patterns paths p)
  keep_path-Paths n paths p clean (kept, distinct, few) =
      elim (Bool-cases (str_eq p [] || contains paths p)) [
        | inl skip ↦ rw skip (kept, distinct, omega arith)
        | inr new ↦
            let (some_path, unseen) = or_false_lem (str_eq p []) (contains paths p) new in
            let longer = length-append paths (p ∷ []) in
            rw new (
              All-append IsKept paths (p ∷ []) kept (clean (nonempty_of_str_eq p some_path), tt),
              Distinct-append paths p distinct unseen,
              omega arith,
            )
      ]

  limited_lem :
      (paths : List Bytes) (p : Bytes)
      → leb max_concat_paths_per_bundle (length paths) ≡ false
      → Paths max_concat_paths_per_bundle paths
      → Paths max_concat_paths_per_bundle
          (keep_path patterns paths (clean_concat_path patterns.has_api_indicator p))
  limited_lem paths p room (kept, distinct, few) =
      let less = leb_false→lt max_concat_paths_per_bundle (length paths) room in
      keep_path-Paths 255 paths (clean_concat_path patterns.has_api_indicator p)
        (clean_concat_path-IsClean patterns.has_api_indicator p) (kept, distinct, omega arith)

  emit-Paths :
      (paths : List Bytes) (p : Bytes)
      → Paths max_concat_paths_per_bundle paths
      → Paths max_concat_paths_per_bundle (emit patterns paths p)
  unfolding emit
  emit-Paths paths p h = elim (Bool-cases (leb max_concat_paths_per_bundle (length paths))) [
    | inl full ↦ rw full h
    | inr room ↦ rw room (limited_lem paths p room h)
  ]

  emit_call-Paths :
      (paths : List Bytes) (receiver rest : Bytes) (end : Option ℕ)
      → Paths max_concat_paths_per_bundle paths
      → Paths max_concat_paths_per_bundle (emit_call patterns paths receiver rest end)
  emit_call-Paths paths receiver rest none h = h
  emit_call-Paths paths receiver rest (some end) h =
      emit-Paths paths (receiver ++ parse_concat_args patterns.trim_space (take end rest)) h

  method_loop-Paths :
      (paths : List Bytes) (matches : List (Bytes × Bytes))
      → Paths max_concat_paths_per_bundle paths
      → Paths max_concat_paths_per_bundle (method_loop patterns paths matches)
  method_loop-Paths paths [] h = h
  method_loop-Paths paths ((receiver, rest) ∷ matches) h =
      method_loop-Paths (emit_call patterns paths receiver rest (find_concat_arg_list_end rest))
        matches (emit_call-Paths paths receiver rest (find_concat_arg_list_end rest) h)

  plus_loop-Paths :
      (paths : List Bytes) (matches : List (Bytes × Bytes))
      → Paths max_concat_paths_per_bundle paths
      → Paths max_concat_paths_per_bundle (plus_loop patterns paths matches)
  plus_loop-Paths paths [] h = h
  plus_loop-Paths paths ((head, rest) ∷ matches) h =
      plus_loop-Paths (emit patterns paths (head ++ parse_plus_chain rest)) matches
        (emit-Paths paths (head ++ parse_plus_chain rest) h)

  service_loop-Paths :
      (paths : List Bytes) (matches : List (Bytes × Bytes))
      → Paths max_concat_paths_per_bundle paths
      → Paths max_concat_paths_per_bundle (service_loop patterns paths matches)
  service_loop-Paths paths [] h = h
  service_loop-Paths paths ((head, rest) ∷ matches) h =
      let p = head ++ parse_plus_chain rest in
      elim (Bool-cases (leb max_concat_paths_per_bundle (length paths))) [
        | inl full ↦ rw full h
        | inr room ↦ rw room (
            service_loop-Paths
              (keep_path patterns paths (clean_concat_path patterns.has_api_indicator p)) matches
              (limited_lem paths p room h))
      ]

  add_all-Paths :
      (n : ℕ) (out paths : List Bytes)
      → Paths n out
      → All IsKept paths
      → Paths (n + length paths) (add_all patterns out paths)
  add_all-Paths n out [] h k = (h.0, h.1, omega arith)
  add_all-Paths n out (p ∷ paths) h (kp, k) =
      let (kept, distinct, few) =
        add_all-Paths (suc n) (keep_path patterns out p) paths (keep_path-Paths n out p (λ _. kp) h)
          k in
      (kept, distinct, omega arith)

  -- Whatever the source of a script is and whatever the regular expressions match in it,
  -- ExtractStaticConcatPaths gives at most 512 paths and none twice. Each contains an API
  -- indicator; all its bytes are visible ASCII, and it percent-decodes, to printable ASCII; the
  -- part in front of a query and a fragment does not end in a slash, and with some slashes at its
  -- end it has no two slashes in a row, but for those of a scheme.
  pub extract_static_concat_paths-Paths :
      (js : Bytes) → Paths 512 (extract_static_concat_paths patterns js)
  unfolding extract_static_concat_paths extract_concat_paths service_prefix_plus_paths
  extract_static_concat_paths-Paths js =
      let methods = method_loop-Paths [] (patterns.method_matches js) (tt, tt, omega arith) in
      let concat =
        plus_loop-Paths (method_loop patterns [] (patterns.method_matches js))
          (patterns.plus_matches js) methods in
      let service = service_loop-Paths [] (patterns.service_matches js) (tt, tt, omega arith) in
      let first =
        add_all-Paths 0 [] (extract_concat_paths patterns js) (tt, tt, omega arith) concat.0 in
      let (kept, distinct, few) =
        add_all-Paths (0 + length (extract_concat_paths patterns js))
          (add_all patterns [] (extract_concat_paths patterns js))
          (service_prefix_plus_paths patterns js) first service.0 in
      let few_concat = concat.2 in let few_service = service.2 in (kept, distinct, omega arith)
