-- ===== src/Concat/Extract.antt =====
-- The extractors of pkg/crawl/jsreplay.go that build paths from concatenations. What the regular
-- expressions match is a parameter: a captured text, with the source behind the match.
use vespasian.Prelude.{
  ℕ, Bool, ◌||◌, List, [], ◌∷◌, ◌++◌, Option, none, some, Bytes, length, take, leb, str_eq,
  if◌then◌else◌,
}
use vespasian.Prelude.Parts.{contains}
use vespasian.Concat.Chain.{find_concat_arg_list_end, parse_concat_args, parse_plus_chain}
use vespasian.Concat.Clean.{clean_concat_path}

-- concatMethodPattern, concatPlusHeadPattern and servicePrefixPlusHeadPattern,
-- apiIndicatorPattern, and `strings.TrimSpace`.
pub record Patterns : Type 0 where
  pub method_matches : Bytes → List (Bytes × Bytes)
  pub plus_matches : Bytes → List (Bytes × Bytes)
  pub service_matches : Bytes → List (Bytes × Bytes)
  pub has_api_indicator : Bytes → Bool
  pub trim_space : Bytes → Bytes

abbrev pub max_concat_paths_per_bundle : ℕ
max_concat_paths_per_bundle = 256

module _ (patterns : Patterns) where
  -- `emit` behind the limit: the set of seen paths holds those that are kept.
  abbrev pub keep_path : List Bytes → Bytes → List Bytes
  keep_path paths p = if str_eq p [] || contains paths p then paths else paths ++ p ∷ []

  unfoldable pub emit : List Bytes → Bytes → List Bytes
  emit paths p =
      if leb max_concat_paths_per_bundle (length paths)
      then paths
      else keep_path paths (clean_concat_path patterns.has_api_indicator p)

  abbrev pub emit_call : List Bytes → Bytes → Bytes → Option ℕ → List Bytes
  emit_call paths receiver rest none = paths
  emit_call paths receiver rest (some end) =
      emit paths (receiver ++ parse_concat_args patterns.trim_space (take end rest))

  abbrev pub method_loop : List Bytes → List (Bytes × Bytes) → List Bytes
  method_loop paths [] = paths
  method_loop paths ((receiver, rest) ∷ matches) =
      method_loop (emit_call paths receiver rest (find_concat_arg_list_end rest)) matches

  abbrev pub plus_loop : List Bytes → List (Bytes × Bytes) → List Bytes
  plus_loop paths [] = paths
  plus_loop paths ((head, rest) ∷ matches) =
      plus_loop (emit paths (head ++ parse_plus_chain rest)) matches

  unfoldable pub extract_concat_paths : Bytes → List Bytes
  extract_concat_paths js =
      plus_loop (method_loop [] (patterns.method_matches js)) (patterns.plus_matches js)

  -- The loop of servicePrefixPlusPaths, which stops at the limit.
  abbrev pub service_loop : List Bytes → List (Bytes × Bytes) → List Bytes
  service_loop paths [] = paths
  service_loop paths ((head, rest) ∷ matches) =
      let next =
        service_loop
          (keep_path paths
            (clean_concat_path patterns.has_api_indicator (head ++ parse_plus_chain rest)))
          matches in
      if leb max_concat_paths_per_bundle (length paths) then paths else next

  unfoldable pub service_prefix_plus_paths : Bytes → List Bytes
  service_prefix_plus_paths js = service_loop [] (patterns.service_matches js)

  abbrev pub add_all : List Bytes → List Bytes → List Bytes
  add_all out [] = out
  add_all out (p ∷ paths) = add_all (keep_path out p) paths

  unfoldable pub extract_static_concat_paths : Bytes → List Bytes
  extract_static_concat_paths js =
      add_all (add_all [] (extract_concat_paths js)) (service_prefix_plus_paths js)
