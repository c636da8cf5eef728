-- ===== src/Mediatype/Tests.antt =====
-- Runs of pkg/mediatype/mediatype.go, and the theorem at a concrete input.
use vespasian.Prelude.{List, [], ◌∷◌, ◌≡◌, refl, Bytes, codes, length, ◌==◌, str_eq, str_lt, arith}
use vespasian.Mediatype.{header, lookup, match_loop}
use vespasian.Mediatype.OneMap.{header_lem}

-- Two names that differ in case, in both orders.
abbrev upper_first : List (Bytes × Bytes)
upper_first = (codes "ETag", codes "1") ∷ (codes "etag", codes "2") ∷ []

abbrev lower_first : List (Bytes × Bytes)
lower_first = (codes "etag", codes "2") ∷ (codes "ETag", codes "1") ∷ []

one_map : (k : Bytes) → lookup k upper_first ≡ lookup k lower_first
unfolding str_eq
one_map k = ground arith

header_lem_example :
    header (λ a b. length a == length b) upper_first (codes "ETAG")
    ≡ header (λ a b. length a == length b) lower_first (codes "ETAG")
header_lem_example =
    header_lem (λ a b. length a == length b) upper_first lower_first (codes "ETAG") one_map

least-name : header (λ a b. length a == length b) lower_first (codes "ETAG") ≡ codes "1"
unfolding header match_loop str_eq str_lt
least-name = refl
