-- ===== src/Concat/Chain/Literals.antt =====
-- String literals as pkg/crawl/jsreplay.go scans them.
use vespasian.Prelude.{
  unsnoc, ℕ, zero, suc, ◌<◌, true, false, [], ◌∷◌, ◌++◌, some, Bytes, codes, length, length-append,
  str_eq, ◌==◌, ==_iff, All, ◌≡◌, ◌≢◌, refl, arith, ap, ◌∙◌, sym, subst, Bool-cases, inl, inr,
}
use vespasian.Prelude.Search.{includes}
use vespasian.Concat.Scan.{
  shifted, template_end, find_template_literal_end, quoted_end, scan_string_literal, is_quote,
}
use vespasian.Concat.Chain.{unquoted, string_literal_value}

-- A byte of a literal that is no quote, no backslash, no newline and no dollar sign.
abbrev pub IsPlain : ℕ → ℕ → Type 0
IsPlain quote c = (c ≢ quote) × (c ≢ b'\\') × (c ≢ 0x0a) × (c ≢ b'$')

quoted_end-plain :
    (quote : ℕ) (text rest : Bytes)
    → is_quote quote ≡ true
    → All (IsPlain quote) text
    → quoted_end quote (text ++ quote ∷ rest) ≡ some (length text)
unfolding quoted_end
quoted_end-plain quote [] [] q h = ground arith
quoted_end-plain quote [] (d ∷ rest) q h = ground arith
quoted_end-plain quote (c ∷ []) rest q (p, h) = ground (arith, quoted_end-plain quote [] rest q tt)
quoted_end-plain quote (c ∷ d ∷ text) rest q (p, h) =
    ground (arith, quoted_end-plain quote (d ∷ text) rest q h)

template_end-plain :
    (fuel : ℕ) (text rest : Bytes)
    → length text < fuel
    → All (IsPlain b'`') text
    → template_end fuel 0 (text ++ b'`' ∷ rest) ≡ some (length text)
unfolding template_end
template_end-plain zero text rest f h = absurd (omega arith)
template_end-plain (suc fuel) [] rest f h = refl
template_end-plain (suc fuel) (c ∷ text) rest f (p, h) =
    ground (arith, template_end-plain fuel text rest (omega arith) h)

backtick_lem :
    (text rest : Bytes)
    → All (IsPlain b'`') text
    → scan_string_literal (b'`' ∷ text ++ b'`' ∷ rest) ≡ some (suc (length text))
unfolding scan_string_literal find_template_literal_end
backtick_lem text rest h =
    let longer = length-append text (b'`' ∷ rest) in
    ap (shifted 1) (template_end-plain (length (text ++ b'`' ∷ rest)) text rest (omega arith) h)
    ∙ ap some (omega arith)

-- The index of the closing quote.
pub scan_string_literal-plain :
    (quote : ℕ) (text rest : Bytes)
    → is_quote quote ≡ true
    → All (IsPlain quote) text
    → scan_string_literal (quote ∷ text ++ quote ∷ rest) ≡ some (suc (length text))
unfolding scan_string_literal find_template_literal_end
scan_string_literal-plain quote text rest q h = elim (Bool-cases (quote == b'`')) [
  | inl backtick ↦
      subst
        (λ c.
          All (IsPlain c) text
          → scan_string_literal (c ∷ text ++ c ∷ rest) ≡ some (suc (length text)))
        (sym ((==_iff quote b'`').0 backtick)) (backtick_lem text rest) h
  | inr other ↦ rw (other, quoted_end-plain quote text rest q h) (ap some (omega arith))
]

unsnoc_lem : (c : ℕ) (s : Bytes) (last : ℕ) → unsnoc c (s ++ last ∷ []) ≡ (c ∷ s, last)
unsnoc_lem c [] last = refl
unsnoc_lem c (d ∷ s) last = rw (unsnoc_lem d s last) refl

no_expression : (text : Bytes) → All (λ c. c ≢ b'$') text → includes text (codes "${") ≡ false
unfolding includes str_eq
no_expression [] h = refl
no_expression (c ∷ []) (p, h) = ground arith
no_expression (c ∷ d ∷ text) (p, h) = ground (arith, no_expression (d ∷ text) h)

no_dollar : (quote : ℕ) (text : Bytes) → All (IsPlain quote) text → All (λ c. c ≢ b'$') text
no_dollar quote [] h = tt
no_dollar quote (c ∷ text) (p, h) = (p.3, no_dollar quote text h)

unquoted_lem :
    (quote : ℕ) (text : Bytes)
    → is_quote quote ≡ true
    → All (IsPlain quote) text
    → unquoted quote (text, quote) ≡ some text
unquoted_lem quote text q h = ground (arith, no_expression text (no_dollar quote text h))

pub string_literal_value-plain :
    (quote : ℕ) (text : Bytes)
    → is_quote quote ≡ true
    → All (IsPlain quote) text
    → string_literal_value (quote ∷ text ++ quote ∷ []) ≡ some text
unfolding string_literal_value
string_literal_value-plain quote [] q h = unquoted_lem quote [] q tt
string_literal_value-plain quote (c ∷ text) q h =
    ap (unquoted quote) (unsnoc_lem c text quote) ∙ unquoted_lem quote (c ∷ text) q h
