-- ===== src/Concat/Clean/Decoded.antt =====
-- The bytes that cleanConcatPath of pkg/crawl/jsreplay.go admits, and what they decode to.
use vespasian.Prelude.{
  and_lem, or_right_lem, ℕ, ◌+◌, ◌*◌, ◌≤◌, Bool, true, false, not, ◌&&◌, ◌||◌, [], ◌∷◌, ◌++◌,
  Option, none, some, Bytes, codes, if◌then◌else◌, ◌==◌, ==_iff, All, ◌≡◌, refl, arith, ap, ◌∙◌,
  subst, sym, Bool-cases, inl, inr, ◌⊎◌,
}
use vespasian.Concat.Clean.{
  hex_digit, decodes_printable, scan_escaped_bytes, is_allowed_concat_byte, is_alphanumeric, one_of,
}

-- The bytes of a visible text, and those of one with spaces.
abbrev pub IsVisible : ℕ → Type 0
IsVisible c = (0x21 ≤ c) × (c ≤ 0x7e)

abbrev pub IsPrintable : ℕ → Type 0
IsPrintable c = (0x20 ≤ c) × (c ≤ 0x7e)

abbrev onto_decoded : ℕ → Option Bytes → Option Bytes
onto_decoded c none = none
onto_decoded c (some s) = some (c ∷ s)

abbrev decoded_pair : Option ℕ → Option ℕ → Option Bytes → Option Bytes
decoded_pair (some high) (some low) rest = onto_decoded (high * 16 + low) rest
decoded_pair _ _ rest = none

-- Percent-decoding, as the readers of a path do it.
unfoldable pub percent_decode : Bytes → Option Bytes
percent_decode [] = some []
percent_decode (c ∷ []) = if c == b'%' then none else some (c ∷ [])
percent_decode (c ∷ d ∷ []) =
    let rest = percent_decode (d ∷ []) in if c == b'%' then none else onto_decoded c rest
percent_decode (c ∷ d ∷ e ∷ s) =
    let escape = decoded_pair (hex_digit d) (hex_digit e) (percent_decode s) in
    let next = onto_decoded c (percent_decode (d ∷ e ∷ s)) in if c == b'%' then escape else next

-- A text of visible bytes and escapes of printable ones, with what it decodes to.
pub data Decodes : Bytes → Bytes → Type 0 where
  done : Decodes [] []
  literal :
      (c : ℕ) {s d : Bytes}
      → (c == b'%') ≡ false
      → IsVisible c
      → Decodes s d
      → Decodes (c ∷ s) (c ∷ d)
  escape :
      (a b high low : ℕ) {s d : Bytes}
      → hex_digit a ≡ some high
      → hex_digit b ≡ some low
      → IsPrintable (high * 16 + low)
      → Decodes s d
      → Decodes (b'%' ∷ a ∷ b ∷ s) ((high * 16 + low) ∷ d)

pub Decodes-append : {s d t e : Bytes} → Decodes s d → Decodes t e → Decodes (s ++ t) (d ++ e)
Decodes-append done k = k
Decodes-append (literal c n v h) k = literal c n v (Decodes-append h k)
Decodes-append (escape a b high low ha hb p h) k = escape a b high low ha hb p (Decodes-append h k)

pub Decodes-IsPrintable : {s d : Bytes} → Decodes s d → All IsPrintable d
Decodes-IsPrintable done = tt
Decodes-IsPrintable (literal c n v h) = (omega arith, Decodes-IsPrintable h)
Decodes-IsPrintable (escape a b high low ha hb p h) = (p, Decodes-IsPrintable h)

digit-IsVisible : (a x : ℕ) → hex_digit a ≡ some x → IsVisible a
digit-IsVisible a x h = ground arith

pub Decodes-IsVisible : {s d : Bytes} → Decodes s d → All IsVisible s
Decodes-IsVisible done = tt
Decodes-IsVisible (literal c n v h) = (v, Decodes-IsVisible h)
Decodes-IsVisible (escape a b high low ha hb p h) =
    (omega arith, (digit-IsVisible a high ha, (digit-IsVisible b low hb, Decodes-IsVisible h)))

percent_decode_literal :
    (c : ℕ) (s : Bytes)
    → (c == b'%') ≡ false
    → percent_decode (c ∷ s) ≡ onto_decoded c (percent_decode s)
unfolding percent_decode
percent_decode_literal c [] h = rw h refl
percent_decode_literal c (d ∷ []) h = rw h refl
percent_decode_literal c (d ∷ e ∷ s) h = rw h refl

pub percent_decode_lem : {s d : Bytes} → Decodes s d → percent_decode s ≡ some d
unfolding percent_decode
percent_decode_lem done = refl
percent_decode_lem (escape a b high low ha hb p h) = rw (ha, hb, percent_decode_lem h) refl
percent_decode_lem (literal c n v h) =
    percent_decode_literal c _ n ∙ ap (onto_decoded c) (percent_decode_lem h)

plain_lem : (a b : Bool) → not a && b ≡ true → (a ≡ false) × (b ≡ true)
plain_lem a b h = ground arith

escape_branch : (a b c : Bool) → a ≡ true → (if a then b else c) ≡ true → b ≡ true
escape_branch a b c e h = ground arith

literal_branch : (a b c : Bool) → a ≡ false → (if a then b else c) ≡ true → c ≡ true
literal_branch a b c e h = ground arith

-- A scan that succeeds decodes.
module _ (is_literal_byte : ℕ → Bool)
    (visible : (c : ℕ) → is_literal_byte c ≡ true → IsVisible c) where
  literal_lem :
      {s d : Bytes} (c : ℕ)
      → (c == b'%') ≡ false
      → is_literal_byte c ≡ true
      → Decodes s d
      → (e : Bytes) × Decodes (c ∷ s) e
  literal_lem {s} {d} c n h k = (c ∷ d, literal c n (visible c h) k)

  escape_lem :
      (a b : ℕ) (x y : Option ℕ) {s d : Bytes}
      → hex_digit a ≡ x
      → hex_digit b ≡ y
      → decodes_printable x y ≡ true
      → Decodes s d
      → (e : Bytes) × Decodes (b'%' ∷ a ∷ b ∷ s) e
  escape_lem a b none y ha hb h k = cc
  escape_lem a b (some high) none ha hb h k = cc
  escape_lem a b (some high) (some low) {s} {d} ha hb h k =
      ((high * 16 + low) ∷ d, escape a b high low ha hb (ground arith) k)

  pub scan_escaped_bytes-Decodes :
      (s : Bytes) → scan_escaped_bytes is_literal_byte s ≡ true → (d : Bytes) × Decodes s d
  unfolding scan_escaped_bytes
  scan_escaped_bytes-Decodes [] h = ([], done)
  scan_escaped_bytes-Decodes (c ∷ []) h =
      let (n, l) = plain_lem (c == b'%') (is_literal_byte c) h in literal_lem c n l done
  scan_escaped_bytes-Decodes (c ∷ d ∷ []) h =
      let (first, second) = and_lem _ _ h in
      let (n, l) = plain_lem (c == b'%') (is_literal_byte c) first in
      let (m, k) = plain_lem (d == b'%') (is_literal_byte d) second in
      literal_lem c n l (literal_lem d m k done).1
  scan_escaped_bytes-Decodes (c ∷ d ∷ e ∷ s) h = elim (Bool-cases (c == b'%')) [
    | inl percent ↦
        let (valid, rest) =
          and_lem (decodes_printable (hex_digit d) (hex_digit e)) _
            (escape_branch (c == b'%') _ _ percent h) in
        let same : b'%' ≡ c = sym ((==_iff c b'%').0 percent) in
        subst (λ x. (t : Bytes) × Decodes (x ∷ d ∷ e ∷ s) t) same
          (escape_lem d e (hex_digit d) (hex_digit e) refl refl valid
            (scan_escaped_bytes-Decodes s rest).1)
    | inr plain ↦
        let (l, rest) = and_lem (is_literal_byte c) _ (literal_branch (c == b'%') _ _ plain h) in
        literal_lem c plain l (scan_escaped_bytes-Decodes (d ∷ e ∷ s) rest).1
  ]

one_of-All : (P : ℕ → Type 0) (c : ℕ) (s : Bytes) → one_of c s ≡ true → All P s → P c
one_of-All P c [] h k = cc
one_of-All P c (d ∷ s) h (p, k) = elim (Bool-cases (c == d)) [
  | inl e ↦ subst P (sym ((==_iff c d).0 e)) p
  | inr n ↦ one_of-All P c s (or_right_lem (c == d) _ n h) k
]

abbrev punctuation : Bytes
punctuation = codes "/_-.:{}~@!$'()*+,;[]|"

allowed_cases :
    (a b c d : Bool)
    → (if a || b then true else c && d) ≡ true
    → ((a ≡ true) ⊎ (b ≡ true)) ⊎ (c ≡ true)
allowed_cases true b c d h = inl (inl refl)
allowed_cases false true c d h = inl (inr refl)
allowed_cases false false true d h = inr refl
allowed_cases false false false d h = cc

alphanumeric-IsVisible : (c : ℕ) → is_alphanumeric c ≡ true → IsVisible c
alphanumeric-IsVisible c h = ground arith

pub allowed-IsVisible :
    (in_suffix : Bool) (c : ℕ) → is_allowed_concat_byte in_suffix c ≡ true → IsVisible c
allowed-IsVisible in_suffix c h =
    elim (allowed_cases (is_alphanumeric c) (one_of c punctuation) (one_of c (codes "?=&#"))
      in_suffix h) [
        | inl (inl a) ↦ alphanumeric-IsVisible c a
        | inl (inr b) ↦ one_of-All IsVisible c punctuation b (omega arith)
        | inr d ↦ one_of-All IsVisible c (codes "?=&#") d (omega arith)
      ]
