-- ===== src/Concat/Chain.antt =====
-- Chains and calls of concat in pkg/crawl/jsreplay.go: the text that they make.
pub mod Literals
pub mod Operands
pub mod Written
use vespasian.Prelude.{
  unsnoc, ℕ, zero, suc, ◌+◌, ◌-◌, Bool, true, false, not, ◌&&◌, ◌||◌, List, [], ◌∷◌, ◌++◌, Option,
  none, some, Bytes, codes, length, take, drop, ltb, str_eq, if◌then◌else◌, ◌==◌,
}
use vespasian.Prelude.Search.{includes}
use vespasian.Concat.Scan.{
  Depths, no_depth, at_top, bracket, is_quote, scan_string_literal, scan_identifier_operand,
  skip_plus_chain_whitespace, arg_list_end,
}

abbrev pub concat_path_sentinel : Bytes
concat_path_sentinel = codes "0"

abbrev pub max_concat_chain_operands : ℕ
max_concat_chain_operands = 16

abbrev pub max_concat_chain_span : ℕ
max_concat_chain_span = 1024

abbrev pub max_concat_arg_list : ℕ
max_concat_arg_list = 500

abbrev pub unquoted : ℕ → Bytes × ℕ → Option Bytes
unquoted first (inner, last) =
    if first == last
    then (if first == 0x22 || first == 0x27
        then some inner
        else if first == b'`' && not (includes inner (codes "${"))
        then some inner
        else none)
    else none

unfoldable pub string_literal_value : Bytes → Option Bytes
string_literal_value [] = none
string_literal_value (c ∷ []) = none
string_literal_value (c ∷ d ∷ s) = unquoted c (unsnoc d s)

abbrev pub or_sentinel : Option Bytes → Bytes
or_sentinel none = concat_path_sentinel
or_sentinel (some text) = text

abbrev pub literal_operand : Bytes → Option ℕ → Option (Bytes × Bytes)
literal_operand s none = none
literal_operand s (some end) =
    some (or_sentinel (string_literal_value (take (end + 1) s)), drop (end + 1) s)

abbrev pub other_operand : Bytes → ℕ → Option (Bytes × Bytes)
other_operand s zero = none
other_operand s (suc n) = some (concat_path_sentinel, drop (suc n) s)

unfoldable pub read_chain_operand : Bytes → Option (Bytes × Bytes)
read_chain_operand [] = none
read_chain_operand (c ∷ s) =
    if is_quote c
    then literal_operand (c ∷ s) (scan_string_literal (c ∷ s))
    else other_operand (c ∷ s) (scan_identifier_operand (c ∷ s))

-- Behind an operand: a plus and the operands that follow, or the end.
abbrev pub behind_operand : Bytes → (Bytes → Bytes) → Bytes
behind_operand [] f = []
behind_operand (c ∷ s) f = if c == b'+' then f s else []

abbrev pub from_operand : Option (Bytes × Bytes) → (Bytes → Bytes) → Bytes
from_operand none f = []
from_operand (some (text, rest)) f = text ++ behind_operand (skip_plus_chain_whitespace rest) f

-- The loop, which reads so many operands at most.
unfoldable pub chain_loop : ℕ → Bytes → Bytes
chain_loop zero s = []
chain_loop (suc n) s =
    from_operand (read_chain_operand (skip_plus_chain_whitespace s)) (λ rest. chain_loop n rest)

unfoldable pub parse_plus_chain : Bytes → Bytes
parse_plus_chain s = chain_loop max_concat_chain_operands (take max_concat_chain_span s)

unfoldable pub find_concat_arg_list_end : Bytes → Option ℕ
find_concat_arg_list_end s =
    let body = take max_concat_arg_list s in arg_list_end (length body) no_depth body

-- The last argument, if it is not empty.
abbrev pub last_arg : Bytes → List Bytes
last_arg [] = []
last_arg (c ∷ b) = (c ∷ b) ∷ []

-- A literal goes into the argument whole; one that does not end takes the rest with it.
abbrev pub split_behind : Option ℕ → Bytes → Bytes → (Bytes → Bytes → List Bytes) → List Bytes
split_behind none b s f = last_arg (b ++ s)
split_behind (some end) b s f = f (b ++ take (end + 1) s) (drop (end + 1) s)

-- The loop of splitConcatArgs, with the argument that is being read.
unfoldable pub split_loop : ℕ → Depths → Bytes → Bytes → List Bytes
split_loop fuel d b [] = last_arg b
split_loop zero d b (c ∷ s) = last_arg b
split_loop (suc fuel) d b (c ∷ s) =
    let behind =
      split_behind (scan_string_literal (c ∷ s)) b (c ∷ s) (λ b' rest. split_loop fuel d b' rest) in
    let ended = b ∷ split_loop fuel d [] s in
    let next = split_loop fuel (bracket c d) (b ++ c ∷ []) s in
    if is_quote c then behind else if c == b',' && at_top d then ended else next

unfoldable pub split_concat_args : Bytes → List Bytes
split_concat_args args = split_loop (length args) no_depth [] args

abbrev pub arg_text : Bytes → Bytes
arg_text [] = []
arg_text (c ∷ arg) = or_sentinel (string_literal_value (c ∷ arg))

module _ (trim_space : Bytes → Bytes) where
  abbrev pub args_text : List Bytes → Bytes
  args_text [] = []
  args_text (arg ∷ args) = arg_text (trim_space arg) ++ args_text args

  unfoldable pub parse_concat_args : Bytes → Bytes
  parse_concat_args args = args_text (split_concat_args args)
