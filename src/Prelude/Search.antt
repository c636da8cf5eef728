-- ===== src/Prelude/Search.antt =====
-- `strings.Contains`, and the text before the first of a byte.
use Prim.Native.Nat.{ℕ}
use mathlib.Core.Bool.{Bool, ◌||◌}
use mathlib.Core.List.{[], ◌∷◌}
use vespasian.Prelude.Tests.{◌==◌, if◌then◌else◌}
use vespasian.Prelude.Text.{Bytes, str_eq}
use vespasian.Prelude.Parts.{has_prefix}

unfoldable pub includes : Bytes → Bytes → Bool
includes [] sub = str_eq sub []
includes (c ∷ s) sub = has_prefix (c ∷ s) sub || includes s sub

-- `s[:i]` for the index `i` of a byte, and the whole text if it is missing.
unfoldable pub before_byte : ℕ → Bytes → Bytes
before_byte sep [] = []
before_byte sep (c ∷ s) = let rest = before_byte sep s in if c == sep then [] else c ∷ rest
