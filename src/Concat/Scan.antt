-- ===== src/Concat/Scan.antt =====
-- The scanners of pkg/crawl/jsreplay.go over the source of a script. A position is the rest of the
-- source, and an index that a scanner returns counts from there.
use vespasian.Prelude.{
  ℕ, zero, suc, ◌+◌, ◌-◌, Bool, true, false, ◌&&◌, ◌||◌, [], ◌∷◌, Option, none, some, Bytes, length,
  drop, if◌then◌else◌, ◌==◌,
}

-- An index from an earlier position.
abbrev pub shifted : ℕ → Option ℕ → Option ℕ
shifted n none = none
shifted n (some i) = some (n + i)

abbrev pub starts_with : ℕ → Bytes → Bool
starts_with b [] = false
starts_with b (c ∷ s) = c == b

abbrev pub nonempty : Bytes → Bool
nonempty [] = false
nonempty (c ∷ s) = true

-- Behind a nested literal that ends at an index.
abbrev pub behind_nested : Option ℕ → (ℕ → Option ℕ) → Option ℕ
behind_nested none f = none
behind_nested (some i) f = shifted (i + 2) (f i)

-- The loop of findTemplateLiteralEnd, with exprDepth. In an expression the depth is positive, and
-- a closing brace takes one from it, so that it is never negative. A round takes a byte at least.
unfoldable pub template_end : ℕ → ℕ → Bytes → Option ℕ
template_end fuel depth [] = none
template_end zero depth (c ∷ s) = none
template_end (suc fuel) zero (c ∷ s) =
    let next = shifted 1 (template_end fuel 0 s) in
    let expression = shifted 2 (template_end fuel 1 (drop 1 s)) in
    let escaped = shifted 2 (template_end fuel 0 (drop 1 s)) in
    if c == b'`'
    then some 0
    else if c == b'$' && starts_with b'{' s
    then expression
    else if c == b'\\' && nonempty s
    then escaped
    else next
template_end (suc fuel) (suc depth) (c ∷ s) =
    let nested =
      behind_nested (template_end fuel 0 s) (λ i. template_end fuel (suc depth) (drop (i + 1) s)) in
    let opened = shifted 1 (template_end fuel (suc (suc depth)) s) in
    let closed = shifted 1 (template_end fuel depth s) in
    let escaped = shifted 2 (template_end fuel (suc depth) (drop 1 s)) in
    let next = shifted 1 (template_end fuel (suc depth) s) in
    if c == b'`'
    then nested
    else if c == b'{'
    then opened
    else if c == b'}'
    then closed
    else if c == b'\\' && nonempty s
    then escaped
    else next

unfoldable pub find_template_literal_end : Bytes → Option ℕ
find_template_literal_end s = template_end (length s) 0 s

-- The loop of scanStringLiteral behind a quote.
unfoldable pub quoted_end : ℕ → Bytes → Option ℕ
quoted_end quote [] = none
quoted_end quote (c ∷ []) = if c == quote then some 0 else none
quoted_end quote (c ∷ d ∷ s) =
    let escaped = shifted 2 (quoted_end quote s) in
    let next = shifted 1 (quoted_end quote (d ∷ s)) in
    if c == b'\\' then escaped else if c == quote then some 0 else if c == 0x0a then none else next

unfoldable pub scan_string_literal : Bytes → Option ℕ
scan_string_literal [] = none
scan_string_literal (quote ∷ s) =
    shifted 1 (if quote == b'`' then find_template_literal_end s else quoted_end quote s)

abbrev pub is_quote : ℕ → Bool
is_quote c = c == 0x22 || c == 0x27 || c == b'`'

-- The three depths of brackets.
pub record Depths : Type 0 where
  pub round : ℕ
  pub square : ℕ
  pub curly : ℕ

abbrev pub no_depth : Depths
no_depth = record { round = 0; square = 0; curly = 0 }

abbrev pub at_top : Depths → Bool
at_top d = d.round == 0 && d.square == 0 && d.curly == 0

-- A depth is never negative: a closing bracket of depth 0 is passed over.
unfoldable pub bracket : ℕ → Depths → Depths
bracket c d =
    if c == b'('
    then record d { round = d.round + 1 }
    else if c == b')'
    then record d { round = d.round - 1 }
    else if c == b'['
    then record d { square = d.square + 1 }
    else if c == b']'
    then record d { square = d.square - 1 }
    else if c == b'{'
    then record d { curly = d.curly + 1 }
    else if c == b'}'
    then record d { curly = d.curly - 1 }
    else d

abbrev pub ends_operand : ℕ → Bool
ends_operand c =
    c == b'+'
    || c == b';'
    || c == b','
    || c == 0x0a
    || c == 0x0d
    || c == b')'
    || c == b']'
    || c == b'}'

-- Behind a string that ends at an index, or at the string if it does not end.
abbrev pub behind_string : Option ℕ → (ℕ → ℕ) → ℕ
behind_string none f = 0
behind_string (some i) f = i + 1 + f i

-- The loop of scanIdentifierOperand.
unfoldable pub operand_end : ℕ → Depths → Bytes → ℕ
operand_end fuel d [] = 0
operand_end zero d (c ∷ s) = 0
operand_end (suc fuel) d (c ∷ s) =
    let behind = behind_string (scan_string_literal (c ∷ s)) (λ i. operand_end fuel d (drop i s)) in
    let next = suc (operand_end fuel (bracket c d) s) in
    if at_top d && ends_operand c then 0 else if is_quote c then behind else next

unfoldable pub scan_identifier_operand : Bytes → ℕ
scan_identifier_operand s = operand_end (length s) no_depth s

unfoldable pub skip_plus_chain_whitespace : Bytes → Bytes
skip_plus_chain_whitespace [] = []
skip_plus_chain_whitespace (c ∷ s) =
    let rest = skip_plus_chain_whitespace s in
    if c == 0x20 || c == 0x09 || c == 0x0a || c == 0x0d then rest else c ∷ s

-- Behind a literal that ends at an index; one that does not end is malformed.
abbrev pub behind_literal : Option ℕ → (ℕ → Option ℕ) → Option ℕ
behind_literal none f = none
behind_literal (some i) f = shifted (i + 1) (f i)

-- The loop of findConcatArgListEnd.
unfoldable pub arg_list_end : ℕ → Depths → Bytes → Option ℕ
arg_list_end fuel d [] = none
arg_list_end zero d (c ∷ s) = none
arg_list_end (suc fuel) d (c ∷ s) =
    let behind =
      behind_literal (scan_string_literal (c ∷ s)) (λ i. arg_list_end fuel d (drop i s)) in
    let next = shifted 1 (arg_list_end fuel (bracket c d) s) in
    if is_quote c then behind else if c == b')' && at_top d then some 0 else next
