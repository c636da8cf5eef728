-- ===== src/Rest/Segments/Patterns.antt =====
-- The patterns of pkg/generate/rest/normalize.go for path segments, as what they describe.
use vespasian.Prelude.{
  ℕ, ◌≤◌, Bool, true, false, ◌&&◌, ◌||◌, List, [], ◌∷◌, ◌++◌, ◌≡◌, ◌≢◌, ◌⊎◌, ◌↔◌, inl, inr, refl,
  sym, arith, All, Bytes, length, all, any, ◌==◌, and_lem, ==_iff,
}
use vespasian.Prelude.Parts.{split, join, Lacks, split-join, join-split}
use vespasian.Rest.Segments.{
  is_digit, is_upper, is_lower, is_hex, between, groups_match, is_base64, uuid_match,
  object_id_match, numeric_match, is_short_hex_hash,
}

abbrev pub IsDigit : ℕ → Type 0
IsDigit c = (b'0' ≤ c) × (c ≤ b'9')

abbrev pub IsUpper : ℕ → Type 0
IsUpper c = (b'A' ≤ c) × (c ≤ b'Z')

abbrev pub IsLower : ℕ → Type 0
IsLower c = (b'a' ≤ c) × (c ≤ b'z')

abbrev pub IsHex : ℕ → Type 0
IsHex c = IsDigit c ⊎ (b'a' ≤ c) × (c ≤ b'f') ⊎ (b'A' ≤ c) × (c ≤ b'F')

abbrev pub IsTokenByte : ℕ → Type 0
IsTokenByte c =
    IsUpper c ⊎ IsLower c ⊎ IsDigit c ⊎ (c ≡ b'_') ⊎ (c ≡ b'-') ⊎ (c ≡ b'+') ⊎ (c ≡ b'/')

abbrev pub Any : (ℕ → Type 0) → Bytes → Type 0
Any P [] = ⊥
Any P (c ∷ s) = P c ⊎ Any P s

-- Runs of hex digits of given lengths.
abbrev pub AreGroups : List ℕ → List Bytes → Type 0
AreGroups [] [] = Unit
AreGroups (n ∷ ns) (p ∷ ps) = (length p ≡ n) × All IsHex p × AreGroups ns ps
AreGroups _ _ = ⊥

abbrev pub IsUuid : Bytes → Type 0
IsUuid s = (ps : List Bytes) × (s ≡ join b'-' ps) × AreGroups (8 ∷ 4 ∷ 4 ∷ 4 ∷ 12 ∷ []) ps

abbrev pub IsObjectId : Bytes → Type 0
IsObjectId s = (length s ≡ 24) × All IsHex s

abbrev pub IsNumber : Bytes → Type 0
IsNumber s = (1 ≤ length s) × All IsDigit s

abbrev pub IsHash : Bytes → Type 0
IsHash s =
    (6 ≤ length s)
    × (length s ≤ 12)
    × All IsHex s
    × Any (λ c. IsDigit c ⊎ (b'A' ≤ c) × (c ≤ b'F')) s

-- At least sixteen bytes and at most two equals signs.
abbrev pub IsBase64 : Bytes → Type 0
IsBase64 s =
    (body : Bytes) × (padding : Bytes) × (s ≡ body ++ padding)
    × (16 ≤ length body)
    × All IsTokenByte body
    × (length padding ≤ 2)
    × All (λ c. c ≡ b'=') padding

abbrev pub IsToken : Bytes → Type 0
IsToken s =
    IsBase64 s
    × (Any (λ c. (c ≡ b'+') ⊎ (c ≡ b'/') ⊎ (c ≡ b'=')) s
        ⊎ Any IsUpper s × Any IsLower s × Any IsDigit s)

pub all_iff :
    (p : ℕ → Bool) (P : ℕ → Type 0)
    → ((c : ℕ) → (p c ≡ true) ↔ P c)
    → (s : Bytes) → (all p s ≡ true) ↔ All P s
all_iff p P h [] = (λ e. tt, λ e. refl)
all_iff p P h (c ∷ s) =
    let (f, g) = all_iff p P h s in
    (
      (λ e. let (a, b) = and_lem (p c) (all p s) e in ((h c).0 a, f b)),
      (λ (a, b). rw ((h c).1 a, g b) refl),
    )

pub or_iff : (a b : Bool) → (a || b ≡ true) ↔ ((a ≡ true) ⊎ (b ≡ true))
or_iff true b = (λ e. inl refl, λ h. refl)
or_iff false b = (λ e. inr e, λ h. elim h [ inl e ↦ cc | inr e ↦ e ])

pub and_iff : (a b : Bool) → (a && b ≡ true) ↔ ((a ≡ true) × (b ≡ true))
and_iff a b = (and_lem a b, λ (e, d). rw (e, d) refl)

pub any_iff :
    (p : ℕ → Bool) (P : ℕ → Type 0)
    → ((c : ℕ) → (p c ≡ true) ↔ P c)
    → (s : Bytes) → (any p s ≡ true) ↔ Any P s
any_iff p P h [] = (λ e. cc, λ e. absurd e)
any_iff p P h (c ∷ s) =
    let (f, g) = any_iff p P h s in
    let (split, merge) = or_iff (p c) (any p s) in
    (
      (λ e. elim (split e) [ inl y ↦ inl ((h c).0 y) | inr y ↦ inr (f y) ]),
      (λ e. elim e [ inl y ↦ merge (inl ((h c).1 y)) | inr y ↦ merge (inr (g y)) ]),
    )

pub is_digit-IsDigit : (c : ℕ) → (is_digit c ≡ true) ↔ IsDigit c
is_digit-IsDigit c = ground arith

pub is_upper-IsUpper : (c : ℕ) → (is_upper c ≡ true) ↔ IsUpper c
is_upper-IsUpper c = ground arith

pub is_lower-IsLower : (c : ℕ) → (is_lower c ≡ true) ↔ IsLower c
is_lower-IsLower c = ground arith

is_hex-IsHex : (c : ℕ) → (is_hex c ≡ true) ↔ IsHex c
is_hex-IsHex c = ground arith

pub is_base64-IsTokenByte : (c : ℕ) → (is_base64 c ≡ true) ↔ IsTokenByte c
is_base64-IsTokenByte c = ground arith

groups_iff : (ns : List ℕ) (ps : List Bytes) → (groups_match ns ps ≡ true) ↔ AreGroups ns ps
groups_iff [] [] = (λ e. tt, λ h. refl)
groups_iff [] (p ∷ ps) = (λ e. cc, λ h. absurd h)
groups_iff (n ∷ ns) [] = (λ e. cc, λ h. absurd h)
groups_iff (n ∷ ns) (p ∷ ps) =
    let (f, g) = groups_iff ns ps in
    let (hex, unhex) = all_iff is_hex IsHex is_hex-IsHex p in
    (
      (λ e.
          let (a, b) = and_lem (length p == n && all is_hex p) (groups_match ns ps) e in
          let (c, d) = and_lem (length p == n) (all is_hex p) a in
          ((==_iff (length p) n).0 c, hex d, f b)),
      (λ (size, digits, rest).
          let same = (==_iff (length p) n).1 size in rw (same, unhex digits, g rest) refl),
    )

hex-Lacks : (p : Bytes) → All IsHex p → All (λ c. c ≢ b'-') p
hex-Lacks [] h = tt
hex-Lacks (c ∷ p) (h, hs) = (ground arith, hex-Lacks p hs)

groups-Lacks : (ns : List ℕ) (ps : List Bytes) → AreGroups ns ps → All (Lacks b'-') ps
groups-Lacks [] [] h = tt
groups-Lacks [] (p ∷ ps) h = absurd h
groups-Lacks (n ∷ ns) [] h = absurd h
groups-Lacks (n ∷ ns) (p ∷ ps) (size, digits, rest) = (hex-Lacks p digits, groups-Lacks ns ps rest)

pub uuid_match-IsUuid : (s : Bytes) → (uuid_match s ≡ true) ↔ IsUuid s
unfolding uuid_match
uuid_match-IsUuid s = (
  (λ e. (
    split b'-' s,
    sym (join-split b'-' s),
    (groups_iff (8 ∷ 4 ∷ 4 ∷ 4 ∷ 12 ∷ []) (split b'-' s)).0 e,
  )),
  (λ (ps, e, h). back ps e h),
)
  where
    back :
        (ps : List Bytes)
        → s ≡ join b'-' ps
        → AreGroups (8 ∷ 4 ∷ 4 ∷ 4 ∷ 12 ∷ []) ps
        → groups_match (8 ∷ 4 ∷ 4 ∷ 4 ∷ 12 ∷ []) (split b'-' s) ≡ true
    back [] e h = absurd h
    back (p ∷ ps) e h =
        let parts =
          split-join b'-' (p ∷ ps) (λ n. cc) (groups-Lacks (8 ∷ 4 ∷ 4 ∷ 4 ∷ 12 ∷ []) (p ∷ ps) h) in
        rw (e, parts) ((groups_iff (8 ∷ 4 ∷ 4 ∷ 4 ∷ 12 ∷ []) (p ∷ ps)).1 h)

pub object_id_match-IsObjectId : (s : Bytes) → (object_id_match s ≡ true) ↔ IsObjectId s
unfolding object_id_match
object_id_match-IsObjectId s = ground (arith, all_iff is_hex IsHex is_hex-IsHex s)

pub numeric_match-IsNumber : (s : Bytes) → (numeric_match s ≡ true) ↔ IsNumber s
unfolding numeric_match
numeric_match-IsNumber s = ground (arith, all_iff is_digit IsDigit is_digit-IsDigit s)

pub is_short_hex_hash-IsHash : (s : Bytes) → (is_short_hex_hash s ≡ true) ↔ IsHash s
unfolding is_short_hex_hash
is_short_hex_hash-IsHash s =
    let digits = all_iff is_hex IsHex is_hex-IsHex s in
    let some_digit =
      any_iff (λ c. is_digit c || between 0x41 0x46 c) (λ c. IsDigit c ⊎ (b'A' ≤ c) × (c ≤ b'F'))
        (λ c. ground arith) s in
    ground (arith, digits, some_digit)
