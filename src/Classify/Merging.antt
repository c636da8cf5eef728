-- ===== src/Classify/Merging.antt =====
-- The merging of query values and keys in pkg/classify/classifier.go.
pub mod Distinct
pub mod Permuted
pub mod Keys
use vespasian.Prelude.{
  ℕ, suc, Bool, true, false, ◌&&◌, List, [], ◌∷◌, ◌++◌, Option, none, some, Bytes, length, leb,
  str_eq, if◌then◌else◌,
}
use vespasian.Prelude.Parts.{contains}

-- `crawl.MaxQueryParamValues`.
abbrev pub max_query_param_values : ℕ
max_query_param_values = 256

-- The state of the loops: `seen`, `out`, and whether the function has returned `out`.
pub record Merge : Type 0 where
  pub seen : List Bytes
  pub out : List Bytes
  pub returned : Bool

-- A loop over values, from a state that has not returned.
unfoldable pub merge_loop : ℕ → List Bytes → List Bytes → List Bytes → Merge
merge_loop limit [] seen out = record { seen = seen; out = out; returned = false }
merge_loop limit (v ∷ vs) seen out =
    let passed = merge_loop limit vs seen out in
    let added = out ++ v ∷ [] in
    let further = merge_loop limit vs (v ∷ seen) added in
    if contains seen v
    then passed
    else if leb limit (length added)
    then record { seen = v ∷ seen; out = added; returned = true }
    else further

-- A nil slice is empty.
unfoldable pub merge_unique_ordered : List Bytes → List Bytes → List Bytes
merge_unique_ordered a b =
    let first = merge_loop max_query_param_values a [] [] in
    if first.returned
    then first.out
    else (merge_loop max_query_param_values b first.seen first.out).out

-- A map from keys to Booleans, as the list of its entries; `none` is nil.
abbrev pub set_true : Bytes → List (Bytes × Bool) → List (Bytes × Bool)
set_true k [] = (k, true) ∷ []
set_true k ((j, b) ∷ m) = if str_eq j k then (j, true) ∷ m else (j, b) ∷ set_true k m

unfoldable pub set_keys : List (Bytes × Bool) → List (Bytes × Bool) → List (Bytes × Bool)
set_keys dst [] = dst
set_keys dst ((k, v) ∷ src) = set_keys (if v then set_true k dst else dst) src

unfoldable pub merge_multi_value_keys :
    Option (List (Bytes × Bool)) → Option (List (Bytes × Bool)) → Option (List (Bytes × Bool))
merge_multi_value_keys dst none = dst
merge_multi_value_keys none (some src) = some (set_keys [] src)
merge_multi_value_keys (some dst) (some src) = some (set_keys dst src)
