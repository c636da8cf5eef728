-- ===== src/Importer/Filters.antt =====
-- pkg/importer/options.go: an import whose requests are counted and filtered by the scope.
use vespasian.Prelude.{
  ℕ, ◌||◌, ◌&&◌, Bool, true, false, List, [], ◌∷◌, Option, none, some, Bytes, codes, length, drop,
  ltb, str_eq, if◌then◌else◌, Result, ok, err,
}
use vespasian.Prelude.Int.{ℤ, pos, negsuc}
use vespasian.Prelude.Parts.{has_prefix, has_suffix}
use vespasian.Packages.{Packages, ParsedUrl}
use vespasian.Classify.Requests.{ObservedRequest}

pub record ImportOptions : Type 0 where
  pub scope : Bytes
  pub max_entries : ℤ

-- The error of the importer, or too many entries, with the two numbers that it names.
pub data OptionsError (E : Type 0) : Type 0 where
  import_failed : E → OptionsError E
  too_many_entries : ℕ → ℤ → OptionsError E

unfoldable pub matches_host : Bytes → Bytes → Bool
matches_host scope host =
    if has_prefix scope (codes "*.")
    then has_suffix host (drop 1 scope) || str_eq host (drop 2 scope)
    else str_eq host scope

abbrev pub matches_parsed : Bytes → Option ParsedUrl → Bool
matches_parsed scope none = false
matches_parsed scope (some url) = matches_host scope url.hostname

abbrev pub exceeds : ℕ → ℤ → Bool
exceeds n (pos max) = ltb 0 max && ltb max n
exceeds n (negsuc max) = false

module _ (packages : Packages) where
  unfoldable pub matches_scope : Bytes → Bytes → Bool
  matches_scope url scope =
      if str_eq scope [] then true else matches_parsed scope (packages.parse_url url)

  abbrev pub filter_loop : Bytes → List ObservedRequest → List ObservedRequest
  filter_loop scope [] = []
  filter_loop scope (req ∷ reqs) =
      let rest = filter_loop scope reqs in if matches_scope req.url scope then req ∷ rest else rest

  unfoldable pub with_options :
      {E : Type 0}
      → ImportOptions
      → List ObservedRequest
      → Result (OptionsError E) (List ObservedRequest)
  with_options opts requests =
      if exceeds (length requests) opts.max_entries
      then err (too_many_entries (length requests) opts.max_entries)
      else if str_eq opts.scope []
      then ok requests
      else ok (filter_loop opts.scope requests)

  -- What `importer.Import` gives is an argument.
  unfoldable pub import_with_options :
      {E : Type 0}
      → Result E (List ObservedRequest)
      → ImportOptions
      → Result (OptionsError E) (List ObservedRequest)
  import_with_options (err e) opts = err (import_failed e)
  import_with_options (ok requests) opts = with_options opts requests
