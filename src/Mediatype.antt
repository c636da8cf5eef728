-- ===== src/Mediatype.antt =====
-- pkg/mediatype/mediatype.go: the lookup of a header without regard to case.
pub mod OneMap
mod Tests
use vespasian.Prelude.Search.{before_byte}
use vespasian.Packages.{Packages}
use vespasian.Prelude.{
  Bool, true, false, ◌&&◌, List, [], ◌∷◌, Option, none, some, Bytes, str_eq, str_lt, if◌then◌else◌,
}

-- A Go map as the list of its entries in an order of iteration.
abbrev pub lookup : Bytes → List (Bytes × Bytes) → Option Bytes
lookup k [] = none
lookup k ((j, v) ∷ m) = let rest = lookup k m in if str_eq j k then some v else rest

-- The variables `match` and `found` are one option.
abbrev pub is_better : Bytes → Option Bytes → Bool
is_better k none = true
is_better k (some match) = str_lt k match

abbrev pub value_or_empty : Option Bytes → Bytes
value_or_empty none = []
value_or_empty (some v) = v

abbrev pub matched_value : List (Bytes × Bytes) → Option Bytes → Bytes
matched_value headers none = []
matched_value headers (some match) = value_or_empty (lookup match headers)

abbrev pub exact_or : Option Bytes → Bytes → Bytes
exact_or none v = v
exact_or (some v) _ = v

-- `strings.EqualFold` is a parameter.
module _ (equal_fold : Bytes → Bytes → Bool) where
  abbrev pub better : Bytes → Bytes → Option Bytes → Option Bytes
  better name k match = if equal_fold k name && is_better k match then some k else match

  unfoldable pub match_loop : Bytes → List (Bytes × Bytes) → Option Bytes → Option Bytes
  match_loop name [] match = match
  match_loop name ((k, v) ∷ headers) match = match_loop name headers (better name k match)

  unfoldable pub header : List (Bytes × Bytes) → Bytes → Bytes
  header headers name =
      exact_or (lookup name headers) (matched_value headers (match_loop name headers none))

unfoldable pub base : Packages → Bytes → Bytes
base packages ct =
    if str_eq ct [] then [] else packages.to_lower (packages.trim_space (before_byte 0x3b ct))
