-- ===== src/Concat/Chain/Operands.antt =====
-- The operands of a chain, read by readChainOperand and its scanners of pkg/crawl/jsreplay.go.
use vespasian.Prelude.{
  ℕ, zero, suc, ◌+◌, ◌≤◌, Bool, true, false, ◌||◌, [], ◌∷◌, ◌++◌, some, Bytes, codes, length,
  length-append, take, drop, ◌==◌, All, ◌≡◌, ◌≢◌, refl, arith, ap, ◌∙◌, Bool-cases, inl, inr,
  append_assoc,
}
use vespasian.Concat.Scan.{
  is_quote, no_depth, ends_operand, bracket, operand_end, scan_identifier_operand,
  skip_plus_chain_whitespace,
}
use vespasian.Concat.Chain.{or_sentinel, literal_operand, read_chain_operand}
use vespasian.Concat.Chain.Literals.{IsPlain, scan_string_literal-plain, string_literal_value-plain}

-- A literal in its quotes, or another expression without brackets.
pub data Operand : Type 0 where
  literal : ℕ → Bytes → Operand
  other : Bytes → Operand

abbrev pub is_space : ℕ → Bool
is_space c = c == 0x20 || c == 0x09 || c == 0x0a || c == 0x0d

abbrev is_bracket : ℕ → Bool
is_bracket c = c == b'(' || c == b'[' || c == b'{'

abbrev pub IsSpace : ℕ → Type 0
IsSpace c = is_space c ≡ true

-- A byte of an expression that ends no operand and opens nothing.
abbrev IsName : ℕ → Type 0
IsName c =
    (ends_operand c ≡ false) × (is_quote c ≡ false) × (is_space c ≡ false) × (is_bracket c ≡ false)

abbrev pub IsOperand : Operand → Type 0
IsOperand (literal quote text) = (is_quote quote ≡ true) × All (IsPlain quote) text
IsOperand (other name) = (name ≢ []) × All IsName name

abbrev pub operand_text : Operand → Bytes
operand_text (literal quote text) = quote ∷ text ++ quote ∷ []
operand_text (other name) = name

-- The text of an operand in the path: a literal's own, and a zero for any other.
abbrev pub operand_value : Operand → Bytes
operand_value (literal quote text) = text
operand_value (other name) = codes "0"

-- What may stand behind an operand: nothing, or a byte that ends it.
abbrev pub Stops : Bytes → Type 0
Stops [] = Unit
Stops (c ∷ s) = (ends_operand c ≡ true) × (is_space c ≡ false)

pub skip_spaces :
    (spaces s : Bytes)
    → All IsSpace spaces
    → skip_plus_chain_whitespace (spaces ++ s) ≡ skip_plus_chain_whitespace s
unfolding skip_plus_chain_whitespace
skip_spaces [] s h = refl
skip_spaces (c ∷ spaces) s (p, h) = rw (p, skip_spaces spaces s h) refl

skip-Stops : (s : Bytes) → Stops s → skip_plus_chain_whitespace s ≡ s
unfolding skip_plus_chain_whitespace
skip-Stops [] h = refl
skip-Stops (c ∷ s) h = rw h.1 refl

bracket_none :
    (c : ℕ) → ends_operand c ≡ false → is_bracket c ≡ false → bracket c no_depth ≡ no_depth
unfolding bracket
bracket_none c e b = ground arith

-- A byte of an expression.
operand_step :
    (fuel c : ℕ) (s : Bytes)
    → ends_operand c ≡ false
    → is_quote c ≡ false
    → is_bracket c ≡ false
    → operand_end (suc fuel) no_depth (c ∷ s) ≡ suc (operand_end fuel no_depth s)
unfolding operand_end
operand_step fuel c s e q b = rw (e, q) (ap (λ d. suc (operand_end fuel d s)) (bracket_none c e b))

operand_stop :
    (fuel c : ℕ) (s : Bytes) → ends_operand c ≡ true → operand_end (suc fuel) no_depth (c ∷ s) ≡ 0
unfolding operand_end
operand_stop fuel c s e = rw e refl

operand_nil : (fuel : ℕ) → operand_end fuel no_depth [] ≡ 0
unfolding operand_end
operand_nil fuel = refl

space_lem : (c : ℕ) → is_space c ≡ true → (is_quote c ≡ false) × (is_bracket c ≡ false)
space_lem c h = (ground arith, ground arith)

-- Behind an expression the scanner may take spaces, and leaves what ends the operand.
operand_end-spaces :
    (fuel : ℕ) (spaces s : Bytes)
    → length (spaces ++ s) ≤ fuel
    → All IsSpace spaces
    → Stops s
    → skip_plus_chain_whitespace (drop (operand_end fuel no_depth (spaces ++ s)) (spaces ++ s)) ≡ s
operand_end-spaces zero [] [] f h stops = rw (operand_nil 0) (skip-Stops [] tt)
operand_end-spaces zero [] (c ∷ s) f h stops = absurd (omega arith)
operand_end-spaces zero (c ∷ spaces) s f h stops = absurd (omega arith)
operand_end-spaces (suc fuel) [] [] f h stops = rw (operand_nil (suc fuel)) (skip-Stops [] tt)
operand_end-spaces (suc fuel) [] (c ∷ s) f h stops =
    rw (operand_stop fuel c s stops.0) (skip-Stops (c ∷ s) stops)
operand_end-spaces (suc fuel) (c ∷ spaces) s f (p, h) stops = elim (Bool-cases (ends_operand c)) [
  | inl e ↦
      rw (operand_stop fuel c (spaces ++ s) e)
        (skip_spaces (c ∷ spaces) s (p, h) ∙ skip-Stops s stops)
  | inr e ↦
      let (q, b) = space_lem c p in
      rw (operand_step fuel c (spaces ++ s) e q b)
        (operand_end-spaces fuel spaces s (omega arith) h stops)
]

operand_end-name :
    (fuel : ℕ) (name s : Bytes)
    → All IsName name
    → operand_end (length name + fuel) no_depth (name ++ s)
      ≡ length name + operand_end fuel no_depth s
operand_end-name fuel [] s h = let e : 0 + fuel ≡ fuel = omega arith in rw e (omega arith)
operand_end-name fuel (c ∷ name) s ((e, q, w, b), h) =
    let more : suc (length name) + fuel ≡ suc (length name + fuel) = omega arith in
    rw more (
      operand_step (length name + fuel) c (name ++ s) e q b
      ∙ omega (arith, operand_end-name fuel name s h))

drop-append_lem : (n : ℕ) (s t : Bytes) → drop (length s + n) (s ++ t) ≡ drop n t
drop-append_lem n [] t = let e : 0 + n ≡ n = omega arith in rw e refl
drop-append_lem n (c ∷ s) t =
    let e : suc (length s) + n ≡ suc (length s + n) = omega arith in rw e (drop-append_lem n s t)

pub take-append_lem : (n : ℕ) (s t : Bytes) → take (length s + n) (s ++ t) ≡ s ++ take n t
take-append_lem n [] t = let e : 0 + n ≡ n = omega arith in rw e refl
take-append_lem n (c ∷ s) t =
    let e : suc (length s) + n ≡ suc (length s + n) = omega arith in
    rw e (ap (λ x. c ∷ x) (take-append_lem n s t))

-- An operand is read with its value, and what is left begins with its end.
unfoldable pub Reads : Operand → Bytes → Bytes → Type 0
Reads op spaces s =
    (rest : Bytes) × (read_chain_operand (operand_text op ++ (spaces ++ s))
      ≡ some (operand_value op, rest))
    × (skip_plus_chain_whitespace rest ≡ s)

literal_operand_lem :
    (quote : ℕ) (text rest : Bytes)
    → is_quote quote ≡ true
    → All (IsPlain quote) text
    → literal_operand (quote ∷ text ++ quote ∷ rest) (some (suc (length text))) ≡ some (text, rest)
literal_operand_lem quote text rest q h =
    let e : suc (length text) + 1 ≡ suc (length text + 1) = omega arith in
    let value = ap or_sentinel (string_literal_value-plain quote text q h) in
    rw (e, take-append_lem 1 text (quote ∷ rest), drop-append_lem 1 text (quote ∷ rest), value) refl

read_literal :
    (quote : ℕ) (text spaces s : Bytes)
    → IsOperand (literal quote text)
    → All IsSpace spaces
    → Stops s
    → Reads (literal quote text) spaces s
unfolding Reads read_chain_operand
read_literal quote text spaces s (q, h) sp stops = (
  spaces ++ s,
  rw
      (
        append_assoc text (quote ∷ []) (spaces ++ s),
        q,
        scan_string_literal-plain quote text (spaces ++ s) q h,
      )
      (literal_operand_lem quote text (spaces ++ s) q h),
  skip_spaces spaces s sp ∙ skip-Stops s stops,
)

read_other :
    (name spaces s : Bytes)
    → IsOperand (other name)
    → All IsSpace spaces
    → Stops s
    → Reads (other name) spaces s
unfolding Reads read_chain_operand scan_identifier_operand
read_other [] spaces s (some_name, h) sp stops = absurd (some_name refl)
read_other (c ∷ name) spaces s (some_name, ((e, q, w, b), h)) sp stops =
    let k = length (spaces ++ s) in
    let m = operand_end k no_depth (spaces ++ s) in
    let size : length (c ∷ name ++ (spaces ++ s)) ≡ length (c ∷ name) + k =
      length-append (c ∷ name) (spaces ++ s) in
    let scanned : operand_end (length (c ∷ name ++ (spaces ++ s))) no_depth
          (c ∷ name ++ (spaces ++ s))
        ≡ suc (length name + m) =
      ap (λ f. operand_end f no_depth (c ∷ name ++ (spaces ++ s))) size
      ∙ operand_end-name k (c ∷ name) (spaces ++ s) ((e, q, w, b), h)
      ∙ omega arith in
    (
      drop m (spaces ++ s),
      rw (q, scanned, drop-append_lem m name (spaces ++ s)) refl,
      operand_end-spaces k spaces s (omega arith) sp stops,
    )

pub skip_operand :
    (op : Operand) (s : Bytes)
    → IsOperand op
    → skip_plus_chain_whitespace (operand_text op ++ s) ≡ operand_text op ++ s
unfolding skip_plus_chain_whitespace
skip_operand (literal quote text) s (q, h) = rw (quote_lem quote q) refl
  where
    quote_lem : (c : ℕ) → is_quote c ≡ true → is_space c ≡ false
    quote_lem c h = ground arith
skip_operand (other []) s (some_name, h) = absurd (some_name refl)
skip_operand (other (c ∷ name)) s (some_name, ((e, q, w, b), h)) = rw w refl

pub reads_lem :
    (op : Operand) (spaces s : Bytes)
    → IsOperand op
    → All IsSpace spaces
    → Stops s
    → Reads op spaces s
reads_lem (literal quote text) = read_literal quote text
reads_lem (other name) = read_other name
