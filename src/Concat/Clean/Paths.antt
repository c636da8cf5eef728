-- ===== src/Concat/Clean/Paths.antt =====
-- The paths that cleanConcatPath of pkg/crawl/jsreplay.go lets through.
use vespasian.Prelude.{
  All-drop, ℕ, Bool, true, false, not, ◌||◌, [], ◌∷◌, ◌++◌, Option, none, some, Bytes, codes,
  str_eq, if◌then◌else◌, All, All-append, ◌≡◌, ◌≢◌, ◌⊎◌, inl, inr, refl, arith, ap, sym, subst,
  Bool-cases,
}
use vespasian.Prelude.Parts.{has_prefix}
use vespasian.Concat.Clean.{
  split_suffix, cut_scheme, onto_scheme, collapse_behind, clean_path, allowed_concat_bytes,
  is_allowed_concat_byte, clean_concat_path,
}
use vespasian.Concat.Clean.Squeezed.{
  NoDouble, squeeze-NoDouble, squeeze-All, collapse_slashes-squeeze, squeeze,
}
use vespasian.Concat.Clean.Decoded.{
  IsVisible, IsPrintable, percent_decode, percent_decode_lem, Decodes-append, Decodes-IsVisible,
  Decodes-IsPrintable, scan_escaped_bytes-Decodes, allowed-IsVisible,
}
use vespasian.Concat.Clean.Trimmed.{
  IsPathByte, split_suffix-path, split_suffix-append, slashes, trim_slashes_lem, trim_slashes-All,
  Unslashed, trim_slashes-Unslashed,
}

-- Runs of slashes collapse behind a scheme, or in the whole path.
abbrev pub Collapsed : Bytes → Type 0
Collapsed full =
    NoDouble full
    ⊎ ((scheme : Bytes) × (rest : Bytes) × (full ≡ scheme ++ (codes "://" ++ rest)) × NoDouble rest)

collapse-Collapsed :
    (path : Bytes) (cut : Option (Bytes × Bytes)) → Collapsed (collapse_behind path cut)
collapse-Collapsed path none = inl (rw (collapse_slashes-squeeze path) (squeeze-NoDouble path))
collapse-Collapsed path (some (scheme, rest)) = inr (
  scheme,
  squeeze rest,
  ap (λ s. scheme ++ (codes "://" ++ s)) (collapse_slashes-squeeze rest),
  squeeze-NoDouble rest,
)

abbrev AllCut : (ℕ → Type 0) → Option (Bytes × Bytes) → Type 0
AllCut P none = Unit
AllCut P (some (scheme, rest)) = All P scheme × All P rest

cut_scheme-All : (P : ℕ → Type 0) (s : Bytes) → All P s → AllCut P (cut_scheme s)
cut_scheme-All P [] h = tt
cut_scheme-All P (c ∷ s) (p, h) = elim (Bool-cases (has_prefix (c ∷ s) (codes "://"))) [
  | inl e ↦ rw e (tt, All-drop P 2 s h)
  | inr n ↦ rw n (onto_lem (cut_scheme s) (cut_scheme-All P s h))
]
  where
    onto_lem : (cut : Option (Bytes × Bytes)) → AllCut P cut → AllCut P (onto_scheme c cut)
    onto_lem none k = tt
    onto_lem (some (scheme, rest)) k = ((p, k.0), k.1)

collapse-All :
    (P : ℕ → Type 0) (path : Bytes) (cut : Option (Bytes × Bytes))
    → All P (codes "://")
    → All P path
    → AllCut P cut
    → All P (collapse_behind path cut)
collapse-All P path none w h k = rw (collapse_slashes-squeeze path) (squeeze-All P path h)
collapse-All P path (some (scheme, rest)) w h k = rw (collapse_slashes-squeeze rest) (
    All-append P scheme (codes "://" ++ squeeze rest) k.0
      (All-append P (codes "://") (squeeze rest) w (squeeze-All P rest k.1)))

-- What is kept: the path in front of a query and a fragment, and the whole text.
pub record IsClean (has_api_indicator : Bytes → Bool) (p : Bytes) : Type 0 where
  pub path : Bytes
  pub suffix : Bytes
  pub parts : split_suffix p ≡ (path, suffix)
  pub whole : p ≡ path ++ suffix
  pub collapsed : (n : ℕ) × Collapsed (path ++ slashes n)
  pub unslashed : Unslashed path
  pub indicated : has_api_indicator p ≡ true
  pub visible : All IsVisible p
  pub decoded : (d : Bytes) × (percent_decode p ≡ some d) × All IsPrintable d

guards_lem :
    (a b c : Bool) (q : Bytes)
    → (if a || not b then [] else if c then [] else q) ≢ []
    → (a ≡ false) × (b ≡ true) × (c ≡ false)
guards_lem true b c q h = absurd (h refl)
guards_lem false false c q h = absurd (h refl)
guards_lem false true true q h = absurd (h refl)
guards_lem false true false q h = (refl, refl, refl)

picked_lem :
    (a b c : Bool) (q : Bytes)
    → a ≡ false
    → b ≡ true
    → c ≡ false
    → (if a || not b then [] else if c then [] else q) ≡ q
picked_lem a b c q ha hb hc = ground arith

allowed_lem : (a b : Bool) → (not a || not b) ≡ false → (a ≡ true) × (b ≡ true)
allowed_lem a b h = ground arith

module _ (has_api_indicator : Bytes → Bool) (p : Bytes) where
  kept_lem :
      has_api_indicator (clean_path (split_suffix p).0 ++ (split_suffix p).1) ≡ true
      → allowed_concat_bytes (clean_path (split_suffix p).0) false ≡ true
      → allowed_concat_bytes (split_suffix p).1 true ≡ true
      → IsClean has_api_indicator (clean_path (split_suffix p).0 ++ (split_suffix p).1)
  kept_lem indicated in_path in_suffix =
      let raw = (split_suffix p).0 in
      let suffix = (split_suffix p).1 in
      let full = collapse_behind raw (cut_scheme raw) in
      let bytes = split_suffix-path p in
      let path_bytes = trim_slashes-All IsPathByte full (
        collapse-All IsPathByte raw (cut_scheme raw) (refl, (refl, (refl, tt))) bytes
          (cut_scheme-All IsPathByte raw bytes)) in
      let (n, trimmed) = trim_slashes_lem full in
      let (d, decodes) =
        scan_escaped_bytes-Decodes (is_allowed_concat_byte false) (allowed-IsVisible false)
          (clean_path raw) in_path in
      let (e, decodes_suffix) =
        scan_escaped_bytes-Decodes (is_allowed_concat_byte true) (allowed-IsVisible true) suffix
          in_suffix in
      let all = Decodes-append decodes decodes_suffix in
      record {
        path = clean_path raw;
        suffix = suffix;
        parts = split_suffix-append (clean_path raw) p path_bytes;
        whole = refl;
        collapsed = (n, subst Collapsed trimmed (collapse-Collapsed raw (cut_scheme raw)));
        unslashed = trim_slashes-Unslashed full;
        indicated = indicated;
        visible = Decodes-IsVisible all;
        decoded = (d ++ e, percent_decode_lem all, Decodes-IsPrintable all);
      }

  pub clean_concat_path-IsClean :
      clean_concat_path has_api_indicator p ≢ []
      → IsClean has_api_indicator (clean_concat_path has_api_indicator p)
  unfolding clean_concat_path
  clean_concat_path-IsClean h =
      let path = clean_path (split_suffix p).0 in
      let suffix = (split_suffix p).1 in
      let q = path ++ suffix in
      let no_bytes =
        not (allowed_concat_bytes path false) || not (allowed_concat_bytes suffix true) in
      let (empty, indicated, admitted) =
        guards_lem (str_eq q []) (has_api_indicator q) no_bytes q h in
      let (in_path, in_suffix) =
        allowed_lem (allowed_concat_bytes path false) (allowed_concat_bytes suffix true) admitted in
      subst (IsClean has_api_indicator)
        (sym (picked_lem (str_eq q []) (has_api_indicator q) no_bytes q empty indicated admitted))
        (kept_lem indicated in_path in_suffix)
