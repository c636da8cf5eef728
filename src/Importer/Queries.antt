-- ===== src/Importer/Queries.antt =====
-- CapQueryValues of pkg/crawl/capture.go, and extractQueryParams of pkg/importer/helpers.go.
use vespasian.Prelude.{
  ℕ, ◌||◌, List, [], ◌∷◌, Option, none, some, Bytes, length, take, drop, ltb, str_eq, str_lt,
  if◌then◌else◌,
}
use vespasian.Prelude.Parts.{contains}
use vespasian.Packages.{Packages, ParsedUrl}
use vespasian.Classify.Merging.{max_query_param_values}
use vespasian.Importer.Flows.{UrlFunctions}

abbrev pub max_query_param_keys : ℕ
max_query_param_keys = 512

abbrev pub Query : Type 0
Query = List (Bytes × List Bytes)

-- `sort.Strings`.
abbrev insert_key : Bytes → List Bytes → List Bytes
insert_key k [] = k ∷ []
insert_key k (j ∷ ks) = let rest = insert_key k ks in if str_lt j k then j ∷ rest else k ∷ j ∷ ks

unfoldable pub sort_keys : List Bytes → List Bytes
sort_keys [] = []
sort_keys (k ∷ ks) = insert_key k (sort_keys ks)

abbrev keys_in : Query → List Bytes
keys_in [] = []
keys_in ((k, vs) ∷ q) = k ∷ keys_in q

abbrev truncated : Query → Query
truncated [] = []
truncated ((k, vs) ∷ q) =
    (k, if ltb max_query_param_values (length vs) then take max_query_param_values vs else vs)
    ∷ truncated q

-- `delete(q, k)` for each of the keys.
abbrev without_keys : List Bytes → Query → Query
without_keys excess [] = []
without_keys excess ((k, vs) ∷ q) =
    let rest = without_keys excess q in if contains excess k then rest else (k, vs) ∷ rest

unfoldable pub cap_query_values : Query → Query
cap_query_values q =
    if ltb max_query_param_keys (length q)
    then without_keys (drop max_query_param_keys (sort_keys (keys_in q))) (truncated q)
    else truncated q

abbrev unless_empty : Query → Option Query
unless_empty [] = none
unless_empty (p ∷ q) = some (p ∷ q)

abbrev query_of_url : UrlFunctions → Option ParsedUrl → Option Query
query_of_url urls none = none
query_of_url urls (some u) =
    if str_eq u.scheme [] || str_eq u.host []
    then none
    else unless_empty (cap_query_values (urls.query_values u.raw_query))

unfoldable pub extract_query_params : Packages → UrlFunctions → Bytes → Option Query
extract_query_params packages urls url = query_of_url urls (packages.parse_url url)
