-- ===== src/Concat/Clean/Trimmed.antt =====
-- The suffix that cleanConcatPath of pkg/crawl/jsreplay.go splits off, and the slashes that it trims.
use vespasian.Prelude.{
  ℕ, zero, suc, Bool, true, false, ◌&&◌, ◌||◌, [], ◌∷◌, ◌++◌, Bytes, str_eq, str_eq_iff, ◌==◌, All,
  ◌≡◌, inl, inr, refl, arith, ap, Bool-cases,
}
use vespasian.Concat.Clean.{split_suffix, trim_slashes}

-- A byte of a path, that starts neither a query nor a fragment.
abbrev pub IsPathByte : ℕ → Type 0
IsPathByte c = (c == b'?' || c == b'#') ≡ false

pub split_suffix-path : (s : Bytes) → All IsPathByte (split_suffix s).0
split_suffix-path [] = tt
split_suffix-path (c ∷ s) = elim (Bool-cases (c == b'?' || c == b'#')) [
  | inl e ↦ rw e tt
  | inr n ↦ rw n (n, split_suffix-path s)
]

split_suffix_again : (s : Bytes) → split_suffix (split_suffix s).1 ≡ ([], (split_suffix s).1)
split_suffix_again [] = refl
split_suffix_again (c ∷ s) = elim (Bool-cases (c == b'?' || c == b'#')) [
  | inl e ↦ rw e (rw e refl)
  | inr n ↦ rw n (split_suffix_again s)
]

pub split_suffix-append :
    (path s : Bytes)
    → All IsPathByte path
    → split_suffix (path ++ (split_suffix s).1) ≡ (path, (split_suffix s).1)
split_suffix-append [] s h = split_suffix_again s
split_suffix-append (c ∷ path) s (n, h) = rw (n, split_suffix-append path s h) refl

-- Trailing slashes.
abbrev pub slashes : ℕ → Bytes
slashes zero = []
slashes (suc n) = b'/' ∷ slashes n

pub trim_slashes_lem : (s : Bytes) → (n : ℕ) × (s ≡ trim_slashes s ++ slashes n)
unfolding trim_slashes
trim_slashes_lem [] = (0, refl)
trim_slashes_lem (c ∷ s) =
    let (n, same) = trim_slashes_lem s in
    elim (Bool-cases (c == b'/' && str_eq (trim_slashes s) [])) [
      | inl e ↦
          let (slash, empty) = slash_lem c (str_eq (trim_slashes s) []) e in
          let nothing : trim_slashes s ≡ [] = (str_eq_iff (trim_slashes s) []).0 empty in
          (suc n, rw e (cc (slash, same, ap (λ t. t ++ slashes n) nothing)))
      | inr other ↦ (n, rw other (ap (λ t. c ∷ t) same))
    ]
  where
    slash_lem : (c : ℕ) (b : Bool) → (c == b'/' && b) ≡ true → (c ≡ b'/') × (b ≡ true)
    slash_lem c b h = ground arith

pub trim_slashes-All : (P : ℕ → Type 0) (s : Bytes) → All P s → All P (trim_slashes s)
unfolding trim_slashes
trim_slashes-All P [] h = tt
trim_slashes-All P (c ∷ s) (p, h) = elim (Bool-cases (c == b'/' && str_eq (trim_slashes s) [])) [
  | inl e ↦ rw e tt
  | inr n ↦ rw n (p, trim_slashes-All P s h)
]

-- A text that does not end in a slash.
abbrev pub Unslashed : Bytes → Type 0
Unslashed [] = Unit
Unslashed (c ∷ []) = (c == b'/') ≡ false
Unslashed (c ∷ d ∷ s) = Unslashed (d ∷ s)

onto-Unslashed :
    (c : ℕ) (t : Bytes) → (c == b'/' && str_eq t []) ≡ false → Unslashed t → Unslashed (c ∷ t)
unfolding str_eq
onto-Unslashed c [] h k = ground arith
onto-Unslashed c (d ∷ t) h k = k

pub trim_slashes-Unslashed : (s : Bytes) → Unslashed (trim_slashes s)
unfolding trim_slashes
trim_slashes-Unslashed [] = tt
trim_slashes-Unslashed (c ∷ s) = elim (Bool-cases (c == b'/' && str_eq (trim_slashes s) [])) [
  | inl e ↦ rw e tt
  | inr n ↦ rw n (onto-Unslashed c (trim_slashes s) n (trim_slashes-Unslashed s))
]
