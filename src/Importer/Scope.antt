-- ===== src/Importer/Scope.antt =====
-- What an import of native flows by pkg/importer/mitmproxy.go with the options of options.go may return.
pub mod Hosts
use vespasian.Prelude.{
  str_eq_of_nonempty, ℕ, ◌-◌, ◌≤◌, ◌<◌, ◌||◌, ◌&&◌, Bool, true, false, List, [], ◌∷◌, ◌++◌, Option,
  none, some, Bytes, codes, length, take, drop, str_eq, str_eq_iff, if◌then◌else◌, Result, ok, err,
  All, ◌⊎◌, inl, inr, ◌≡◌, ◌≢◌, suc, refl, sym, ◌∙◌, ap, arith, Bool-cases, take-append-drop, leb,
}
use vespasian.Prelude.Int.{ℤ, pos, negsuc}
use vespasian.Prelude.Parts.{has_prefix, has_suffix}
use vespasian.Packages.{Packages, ParsedUrl}
use vespasian.Classify.Requests.{ObservedRequest}
use vespasian.Importer.Flows.{UrlFunctions, ImportError}
use vespasian.Importer.Native.{max_native_flows, import_native}
use vespasian.Importer.Filters.{
  ImportOptions, OptionsError, import_failed, too_many_entries, matches_host, matches_parsed,
  matches_scope, exceeds, filter_loop, with_options, import_with_options,
}
use vespasian.Importer.Safe.Fuel.{InFuel, Ends}
use vespasian.Importer.Safe.{IsImported, Imported, import_native-Imported}
use vespasian.Importer.Scope.Hosts.{IsInScope, str_eq_lem, else_lem, host_scope_lem}

exceeds_lem : (n : ℕ) (max : ℤ) → exceeds n max ≡ true → (m : ℕ) × (max ≡ pos m) × (0 < m) × (m < n)
exceeds_lem n (pos m) h = (m, refl, ground arith, ground arith)
exceeds_lem n (negsuc m) h = ground arith

within_lem : (n m : ℕ) → exceeds n (pos m) ≡ false → 0 < m → n ≤ m
within_lem n m h p = ground arith

module _ (packages : Packages) (urls : UrlFunctions) where
  -- The URL of the request parses, and its host name is in the scope.
  abbrev pub IsWanted : Bytes → ObservedRequest → Type 0
  IsWanted scope r =
      scope ≢ []
      → (url : ParsedUrl) × (packages.parse_url r.url ≡ some url) × IsInScope scope url.hostname

  -- What a filtered import may return.
  abbrev pub AfterOptions :
      ImportOptions → Result (OptionsError ImportError) (List ObservedRequest) → Type 0
  AfterOptions opts (err (import_failed e)) = InFuel e
  AfterOptions opts (err (too_many_entries n max)) =
      (m : ℕ) × (opts.max_entries ≡ pos m) × (0 < m) × (m < n)
  AfterOptions opts (ok rs) =
      All (λ r. IsImported packages urls r × IsWanted opts.scope r) rs
      × (length rs ≤ max_native_flows)
      × ((m : ℕ) → opts.max_entries ≡ pos m → 0 < m → length rs ≤ m)

  parsed_lem :
      (scope : Bytes) (parsed : Option ParsedUrl)
      → matches_parsed scope parsed ≡ true
      → (url : ParsedUrl) × (parsed ≡ some url) × IsInScope scope url.hostname
  parsed_lem scope none h = ground arith
  parsed_lem scope (some url) h = (url, refl, host_scope_lem scope url.hostname h)

  scope_lem :
      (scope : Bytes) (r : ObservedRequest)
      → matches_scope packages r.url scope ≡ true
      → IsWanted scope r
  unfolding matches_scope
  scope_lem scope r h some_scope = parsed_lem scope (packages.parse_url r.url) (
      else_lem (str_eq scope []) true (matches_parsed scope (packages.parse_url r.url))
        (str_eq_of_nonempty scope some_scope) h)

  unscoped_lem :
      (scope : Bytes) (rs : List ObservedRequest)
      → scope ≡ []
      → All (IsImported packages urls) rs
      → All (λ r. IsImported packages urls r × IsWanted scope r) rs
  unscoped_lem scope [] e h = tt
  unscoped_lem scope (r ∷ rs) e (i, h) = ((i, λ k. absurd (k e)), unscoped_lem scope rs e h)

  keep_if :
      (b : Bool) (P : ObservedRequest → Type 0) (r : ObservedRequest) (rs : List ObservedRequest)
      → (b ≡ true → P r)
      → All P rs
      → All P (if b then r ∷ rs else rs)
  keep_if true P r rs p h = (p refl, h)
  keep_if false P r rs p h = h

  filter_loop_lem :
      (scope : Bytes) (rs : List ObservedRequest)
      → All (IsImported packages urls) rs
      → All (λ r. IsImported packages urls r × IsWanted scope r) (filter_loop packages scope rs)
  filter_loop_lem scope [] h = tt
  filter_loop_lem scope (r ∷ rs) (i, h) =
      keep_if (matches_scope packages r.url scope) _ r (filter_loop packages scope rs)
        (λ m. (i, scope_lem scope r m)) (filter_loop_lem scope rs h)

  length_if :
      (b : Bool) (n : ℕ) (r : ObservedRequest) (rs : List ObservedRequest)
      → length rs ≤ n
      → length (if b then r ∷ rs else rs) ≤ suc n
  length_if true n r rs h = omega arith
  length_if false n r rs h = omega arith

  length-filter_loop :
      (scope : Bytes) (rs : List ObservedRequest)
      → length (filter_loop packages scope rs) ≤ length rs
  length-filter_loop scope [] = omega arith
  length-filter_loop scope (r ∷ rs) =
      length_if (matches_scope packages r.url scope) (length rs) r (filter_loop packages scope rs)
        (length-filter_loop scope rs)

  -- The filter of the requests, by cases of its tests.
  with_options_lem :
      (opts : ImportOptions) (rs : List ObservedRequest)
      → Imported packages urls rs
      → AfterOptions opts (with_options packages opts rs)
  unfolding with_options
  with_options_lem opts rs (few, imported) =
      elim (Bool-cases (exceeds (length rs) opts.max_entries)) [
        | inl over ↦ rw over (exceeds_lem (length rs) opts.max_entries over)
        | inr within ↦ elim (Bool-cases (str_eq opts.scope [])) [
          | inl e ↦
              rw (within, e)
                (
                  unscoped_lem opts.scope rs (str_eq_lem opts.scope [] e) imported,
                  few,
                  λ m h p. within_lem (length rs) m (ap (exceeds (length rs)) (sym h) ∙ within) p,
                )
          | inr e ↦
              let shorter = length-filter_loop opts.scope rs in
              rw (within, e)
                (
                  filter_loop_lem opts.scope rs imported,
                  omega arith,
                  λ m h p.
                      let bound =
                        within_lem (length rs) m (ap (exceeds (length rs)) (sym h) ∙ within) p in
                      omega arith,
                )
        ]
      ]

  import_with_options_lem :
      (opts : ImportOptions) (m : Result ImportError (List ObservedRequest))
      → Ends (Imported packages urls) m
      → AfterOptions opts (import_with_options packages m opts)
  unfolding import_with_options
  import_with_options_lem opts (err e) h = h
  import_with_options_lem opts (ok rs) h = with_options_lem opts rs h

  -- Importing any bytes as native mitmproxy flows, with any options, comes to an end within the
  -- fuel: with an error of the code; with too many entries, if a positive MaxEntries is less than
  -- their number; or with at most 500,000 requests, no more than a positive MaxEntries. Each of
  -- these comes from a flow with a known method, the scheme http or https, a port of at most
  -- 65535 and a host of 1 to 253 bytes without @, colons, the delimiters of a URL, control bytes
  -- and spaces; and if a scope is given, its URL parses and its host is the scope, or for
  -- *.domain the domain or a name that ends in a dot and the domain.
  pub import_with_options-AfterOptions :
      {F : Type 0} (parse_float : Bytes → Option F) (opts : ImportOptions) (r : Bytes)
      → AfterOptions opts
          (import_with_options packages (import_native packages urls parse_float r) opts)
  import_with_options-AfterOptions parse_float opts r =
      import_with_options_lem opts (import_native packages urls parse_float r)
        (import_native-Imported packages urls parse_float r)
