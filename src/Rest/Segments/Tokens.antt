-- ===== src/Rest/Segments/Tokens.antt =====
-- The base64 pattern of pkg/generate/rest/normalize.go, as what it describes.
use vespasian.Prelude.{
  ℕ, suc, ◌≤◌, Bool, true, false, ◌||◌, [], ◌∷◌, ◌++◌, ◌≡◌, ◌⊎◌, ◌↔◌, inl, inr, refl, sym, ap,
  arith, All, Bytes, length, take, drop, drop-append_exact, take-append-drop, length-take, leb,
  ◌==◌, Bool-cases, ==_iff, and_lem,
}
use vespasian.Rest.Segments.{
  is_digit, is_upper, is_lower, is_base64, run_length, padding_match, is_base64_token, base64_match,
}
use vespasian.Rest.Segments.Patterns.{
  IsTokenByte, IsDigit, IsUpper, IsLower, IsBase64, IsToken, all_iff, any_iff,
  is_base64-IsTokenByte, is_digit-IsDigit, is_upper-IsUpper, is_lower-IsLower,
}

run_length_le : (p : ℕ → Bool) (s : Bytes) → run_length p s ≤ length s
run_length_le p [] = omega arith
run_length_le p (c ∷ s) = ground (arith, run_length_le p s)

take-run_length : (s : Bytes) → All IsTokenByte (take (run_length is_base64 s) s)
take-run_length [] = tt
take-run_length (c ∷ s) = elim (Bool-cases (is_base64 c)) [
  | inl e ↦ rw e ((is_base64-IsTokenByte c).0 e, take-run_length s)
  | inr e ↦ rw e tt
]

-- A run in front of equals signs.
run_length-append :
    (body padding : Bytes)
    → All IsTokenByte body
    → All (λ c. c ≡ b'=') padding
    → run_length is_base64 (body ++ padding) ≡ length body
run_length-append [] [] h k = refl
run_length-append [] (c ∷ padding) h (e, k) =
    let stops : is_base64 c ≡ false = ground arith in rw stops refl
run_length-append (c ∷ body) padding (h, hs) k =
    let passes = (is_base64-IsTokenByte c).1 h in
    rw passes (ap suc (run_length-append body padding hs k))

padding_iff : (s : Bytes) → (padding_match s ≡ true) ↔ ((length s ≤ 2) × All (λ c. c ≡ b'=') s)
padding_iff s = ground (arith, all_iff (λ c. c == b'=') (λ c. c ≡ b'=') (λ c. ==_iff c b'=') s)

base64_lem : (s : Bytes) → base64_match s ≡ true → IsBase64 s
unfolding base64_match
base64_lem s e =
    let n = run_length is_base64 s in
    let (long, padded) = and_lem (leb 16 n) (padding_match (drop n s)) e in
    let (short, signs) = (padding_iff (drop n s)).0 padded in
    (
      take n s,
      drop n s,
      sym (take-append-drop n s),
      ground (arith, length-take n s, run_length_le is_base64 s),
      take-run_length s,
      short,
      signs,
    )

base64_ok :
    (body padding : Bytes)
    → 16 ≤ length body
    → All IsTokenByte body
    → length padding ≤ 2
    → All (λ c. c ≡ b'=') padding
    → base64_match (body ++ padding) ≡ true
unfolding base64_match
base64_ok body padding long bytes short signs =
    let padded = (padding_iff padding).1 (short, signs) in
    rw (run_length-append body padding bytes signs, drop-append_exact body padding, padded)
      (ground arith)

base64_match-IsBase64 : (s : Bytes) → (base64_match s ≡ true) ↔ IsBase64 s
base64_match-IsBase64 s = (
  base64_lem s,
  (λ (body, padding, e, long, bytes, short, signs).
      rw e (base64_ok body padding long bytes short signs)),
)

pub is_base64_token-IsToken : (s : Bytes) → (is_base64_token s ≡ true) ↔ IsToken s
unfolding is_base64_token
is_base64_token-IsToken s =
    let base = base64_match-IsBase64 s in
    let special =
      any_iff (λ c. c == 0x2b || c == 0x2f || c == 0x3d) (λ c. (c ≡ b'+') ⊎ (c ≡ b'/') ⊎ (c ≡ b'='))
        (λ c. ground arith) s in
    let upper = any_iff is_upper IsUpper is_upper-IsUpper s in
    let lower = any_iff is_lower IsLower is_lower-IsLower s in
    let digit = any_iff is_digit IsDigit is_digit-IsDigit s in
    ground (arith, base, special, upper, lower, digit)
