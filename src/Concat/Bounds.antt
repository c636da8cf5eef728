-- ===== src/Concat/Bounds.antt =====
-- The indices that the scanners of pkg/crawl/jsreplay.go return, behind which the source is sliced.
use vespasian.Prelude.{
  ℕ, zero, suc, ◌+◌, ◌-◌, ◌≤◌, Bool, true, false, ◌&&◌, [], ◌∷◌, Option, none, some, Bytes, length,
  length-drop, take, drop, drop-add, and_lem, if◌then◌else◌, if_both, ◌==◌, ==_iff, ◌≡◌, refl, ap,
  ◌∙◌, sym, subst, arith, Bool-cases, inl, inr,
}
use vespasian.Concat.Scan.{
  Depths, no_depth, shifted, is_quote, at_top, ends_operand, behind_nested, template_end,
  find_template_literal_end, quoted_end, scan_string_literal, behind_string, bracket, operand_end,
  scan_identifier_operand, behind_literal, arg_list_end,
}
use vespasian.Concat.Chain.{max_concat_arg_list, find_concat_arg_list_end}

-- A byte stands at an index.
abbrev pub StandsAt : ℕ → ℕ → Bytes → Type 0
StandsAt b i s = (rest : Bytes) × (drop i s ≡ b ∷ rest)

-- An index, if one is returned, is that of a byte.
unfoldable pub IsByteAt : ℕ → Bytes → Option ℕ → Type 0
IsByteAt b s none = Unit
IsByteAt b s (some i) = StandsAt b i s

finds_none : (b : ℕ) (s : Bytes) → IsByteAt b s none
unfolding IsByteAt
finds_none b s = tt

finds_shifted :
    (b n : ℕ) (s : Bytes) (o : Option ℕ) → IsByteAt b (drop n s) o → IsByteAt b s (shifted n o)
unfolding IsByteAt
finds_shifted b n s none f = tt
finds_shifted b n s (some j) (rest, e) = (rest, drop-add n j s ∙ e)

-- A test that decides for an index here.
finds_if :
    (b c : ℕ) (s : Bytes) (test : Bool) (o : Option ℕ)
    → (test ≡ true → c ≡ b)
    → IsByteAt b (c ∷ s) o
    → IsByteAt b (c ∷ s) (if test then some 0 else o)
unfolding IsByteAt
finds_if b c s true o e f = (s, ap (λ x. x ∷ s) (e refl))
finds_if b c s false o e f = f

finds_nested :
    (b c : ℕ) (s : Bytes) (o : Option ℕ) (f : ℕ → Option ℕ)
    → ((i : ℕ) → IsByteAt b (drop (i + 1) s) (f i))
    → IsByteAt b (c ∷ s) (behind_nested o f)
unfolding IsByteAt
finds_nested b c s none f h = tt
finds_nested b c s (some i) f h =
    finds_shifted b (i + 2) (c ∷ s) (f i) (let e : i + 2 ≡ suc (i + 1) = omega arith in rw e (h i))

finds_both :
    (b : ℕ) (s : Bytes) (test : Bool) (x y : Option ℕ)
    → IsByteAt b s x
    → IsByteAt b s y
    → IsByteAt b s (if test then x else y)
finds_both b s test x y = if_both (λ o. IsByteAt b s o) test x y

template_end-IsByteAt : (fuel d : ℕ) (s : Bytes) → IsByteAt b'`' s (template_end fuel d s)
unfolding template_end
template_end-IsByteAt zero d [] = finds_none b'`' []
template_end-IsByteAt (suc fuel) d [] = finds_none b'`' []
template_end-IsByteAt zero d (c ∷ s) = finds_none b'`' (c ∷ s)
template_end-IsByteAt (suc fuel) zero (c ∷ s) =
    let q : ℕ = b'`' in
    let expression = finds_shifted q 2 (c ∷ s) _ (template_end-IsByteAt fuel 1 (drop 1 s)) in
    let escaped = finds_shifted q 2 (c ∷ s) _ (template_end-IsByteAt fuel 0 (drop 1 s)) in
    let next = finds_shifted q 1 (c ∷ s) _ (template_end-IsByteAt fuel 0 s) in
    finds_if q c s (c == q) _ (λ e. (==_iff c q).0 e)
      (finds_both q (c ∷ s) _ _ _ expression (finds_both q (c ∷ s) _ _ _ escaped next))
template_end-IsByteAt (suc fuel) (suc d) (c ∷ s) =
    let q : ℕ = b'`' in
    let nested =
      finds_nested q c s (template_end fuel 0 s) (λ i. template_end fuel (suc d) (drop (i + 1) s))
        (λ i. template_end-IsByteAt fuel (suc d) (drop (i + 1) s)) in
    let opened = finds_shifted q 1 (c ∷ s) _ (template_end-IsByteAt fuel (suc (suc d)) s) in
    let closed = finds_shifted q 1 (c ∷ s) _ (template_end-IsByteAt fuel d s) in
    let escaped = finds_shifted q 2 (c ∷ s) _ (template_end-IsByteAt fuel (suc d) (drop 1 s)) in
    let next = finds_shifted q 1 (c ∷ s) _ (template_end-IsByteAt fuel (suc d) s) in
    finds_both q (c ∷ s) _ _ _ nested (
      finds_both q (c ∷ s) _ _ _ opened
        (finds_both q (c ∷ s) _ _ _ closed (finds_both q (c ∷ s) _ _ _ escaped next)))

quoted_end-IsByteAt : (quote : ℕ) (s : Bytes) → IsByteAt quote s (quoted_end quote s)
unfolding quoted_end
quoted_end-IsByteAt quote [] = finds_none quote []
quoted_end-IsByteAt quote (c ∷ []) =
    finds_if quote c [] (c == quote) none (λ e. (==_iff c quote).0 e) (finds_none quote (c ∷ []))
quoted_end-IsByteAt quote (c ∷ d ∷ s) =
    let whole = c ∷ d ∷ s in
    let escaped = finds_shifted quote 2 whole _ (quoted_end-IsByteAt quote s) in
    let next = finds_shifted quote 1 whole _ (quoted_end-IsByteAt quote (d ∷ s)) in
    finds_both quote whole _ _ _ escaped (
      finds_if quote c (d ∷ s) (c == quote) _ (λ e. (==_iff c quote).0 e)
        (finds_both quote whole (c == 0x0a) none _ (finds_none quote whole) next))

scan_string_literal-IsByteAt :
    (quote : ℕ) (s : Bytes) → IsByteAt quote (quote ∷ s) (scan_string_literal (quote ∷ s))
unfolding scan_string_literal find_template_literal_end
scan_string_literal-IsByteAt quote s =
    finds_shifted quote 1 (quote ∷ s) _ (elim (Bool-cases (quote == b'`')) [
      | inl e ↦ rw e (
          subst (λ q. IsByteAt q s (template_end (length s) 0 s)) (sym ((==_iff quote b'`').0 e))
            (template_end-IsByteAt (length s) 0 s))
      | inr e ↦ rw e (quoted_end-IsByteAt quote s)
    ])

-- An index of a byte lies below the length.
byte_bound : (b i : ℕ) (s : Bytes) → StandsAt b i s → suc i ≤ length s
byte_bound b i s (rest, e) = omega (arith, length-drop i s, ap (λ t. length t) e)

behind_bound :
    (n : ℕ) (o : Option ℕ) (f : ℕ → ℕ)
    → ((i : ℕ) → o ≡ some i → i ≤ n)
    → ((i : ℕ) → f i ≤ n - i)
    → behind_string o f ≤ suc n
behind_bound n none f h k = omega arith
behind_bound n (some i) f h k = omega (arith, h i refl, k i)

scan_string_literal_bound :
    (quote i : ℕ) (s : Bytes) → scan_string_literal (quote ∷ s) ≡ some i → i ≤ length s
unfolding IsByteAt
scan_string_literal_bound quote i s e =
    let at = subst (λ o. IsByteAt quote (quote ∷ s) o) e (scan_string_literal-IsByteAt quote s) in
    omega (arith, byte_bound quote i (quote ∷ s) at)

operand_end_bound : (fuel : ℕ) (d : Depths) (s : Bytes) → operand_end fuel d s ≤ length s
unfolding operand_end
operand_end_bound fuel d [] = omega arith
operand_end_bound zero d (c ∷ s) = omega arith
operand_end_bound (suc fuel) d (c ∷ s) =
    let IsBelow : ℕ → Type 0 = λ n. n ≤ suc (length s) in
    let behind =
      behind_bound (length s) (scan_string_literal (c ∷ s)) (λ i. operand_end fuel d (drop i s))
        (λ i e. scan_string_literal_bound c i s e)
        (λ i. omega (arith, length-drop i s, operand_end_bound fuel d (drop i s))) in
    let next : suc (operand_end fuel (bracket c d) s) ≤ suc (length s) =
      omega (arith, operand_end_bound fuel (bracket c d) s) in
    if_both IsBelow (at_top d && ends_operand c) 0 _ (omega arith)
      (if_both IsBelow (is_quote c) _ _ behind next)

finds_behind :
    (b c : ℕ) (s : Bytes) (o : Option ℕ) (f : ℕ → Option ℕ)
    → ((i : ℕ) → IsByteAt b (drop i s) (f i))
    → IsByteAt b (c ∷ s) (behind_literal o f)
unfolding IsByteAt
finds_behind b c s none f h = tt
finds_behind b c s (some i) f h =
    finds_shifted b (i + 1) (c ∷ s) (f i) (let e : i + 1 ≡ suc i = omega arith in rw e (h i))

arg_list_end-IsByteAt :
    (fuel : ℕ) (d : Depths) (s : Bytes) → IsByteAt b')' s (arg_list_end fuel d s)
unfolding arg_list_end
arg_list_end-IsByteAt zero d [] = finds_none b')' []
arg_list_end-IsByteAt (suc fuel) d [] = finds_none b')' []
arg_list_end-IsByteAt zero d (c ∷ s) = finds_none b')' (c ∷ s)
arg_list_end-IsByteAt (suc fuel) d (c ∷ s) =
    let q : ℕ = b')' in
    let behind =
      finds_behind q c s (scan_string_literal (c ∷ s)) (λ i. arg_list_end fuel d (drop i s))
        (λ i. arg_list_end-IsByteAt fuel d (drop i s)) in
    let next = finds_shifted q 1 (c ∷ s) _ (arg_list_end-IsByteAt fuel (bracket c d) s) in
    finds_both q (c ∷ s) _ _ _ behind (
      finds_if q c s (c == q && at_top d) _ (λ e. (==_iff c q).0 (and_lem (c == q) (at_top d) e).0)
        next)

finds_take : (b n : ℕ) (s : Bytes) (o : Option ℕ) → IsByteAt b (take n s) o → IsByteAt b s o
unfolding IsByteAt
finds_take b n s none f = tt
finds_take b n s (some i) f = stands n i s f
  where
    stands : (n i : ℕ) (s : Bytes) → StandsAt b i (take n s) → StandsAt b i s
    stands zero zero s (rest, e) = cc
    stands zero (suc i) s (rest, e) = cc
    stands (suc n) zero [] (rest, e) = cc
    stands (suc n) (suc i) [] (rest, e) = cc
    stands (suc n) zero (c ∷ s) (rest, e) = (s, let same : c ≡ b = cc in ap (λ x. x ∷ s) same)
    stands (suc n) (suc i) (c ∷ s) h = stands n i s h

-- What the scanners return is in range, whatever the source is: scanStringLiteral at a byte
-- returns the index of a byte that is the same, findTemplateLiteralEnd that of a back quote,
-- findConcatArgListEnd that of a closing bracket, or none; and scanIdentifierOperand an index that
-- is at most the length.
pub scanners_bounds :
    (quote : ℕ) (s : Bytes)
    → IsByteAt quote (quote ∷ s) (scan_string_literal (quote ∷ s))
      × IsByteAt b'`' s (find_template_literal_end s)
      × IsByteAt b')' s (find_concat_arg_list_end s)
      × (scan_identifier_operand s ≤ length s)
unfolding find_template_literal_end find_concat_arg_list_end scan_identifier_operand
scanners_bounds quote s =
    let body = take max_concat_arg_list s in
    (
      scan_string_literal-IsByteAt quote s,
      template_end-IsByteAt (length s) 0 s,
      finds_take b')' max_concat_arg_list s _ (arg_list_end-IsByteAt (length body) no_depth body),
      operand_end_bound (length s) no_depth s,
    )
