-- ===== src/Pipeline/ApiTypes/Counts.antt =====
-- Which type of API internal/pipeline/apitype.go detects.
use vespasian.Prelude.{
  ℕ, ◌+◌, ◌≤◌, ◌<◌, Bool, List, [], ◌∷◌, ◌≡◌, ◌⊎◌, refl, sym, ◌∙◌, arith, if◌then◌else◌,
}
use native.Mathlib.Nat.{zero-add}
use mathlib.Core.List.{Permᴰ}
use vespasian.Packages.{Packages}
use vespasian.Classify.Requests.{ObservedRequest}
use vespasian.Classify.Running.{Kind}
use vespasian.Pipeline.ApiTypes.{
  Tally, no_matches, matches, one_more, count_request, count_loop, winner, detect_api_type,
}

abbrev one_if : Bool → ℕ
one_if b = if b then 1 else 0

-- How many of the requests a classifier accepts with at least the threshold.
abbrev pub count : Packages → Kind → ℕ → List ObservedRequest → ℕ
count packages kind threshold [] = 0
count packages kind threshold (req ∷ requests) =
    one_if (matches packages kind threshold req) + count packages kind threshold requests

abbrev of_kind : Tally → Kind → ℕ
of_kind t Kind.wsdl = t.wsdl_count
of_kind t Kind.rest = t.rest_count
of_kind t Kind.graphql = t.graphql_count
of_kind t Kind.grpc = 0

-- The winner has the most, and more than those that it is not preferred to, or they have none.
abbrev pub Wins : (Kind → ℕ) → Kind → Type 0
Wins n Kind.graphql =
    (0 < n Kind.graphql) × (n Kind.wsdl ≤ n Kind.graphql) × (n Kind.rest ≤ n Kind.graphql)
Wins n Kind.wsdl = (n Kind.graphql < n Kind.wsdl) × (n Kind.rest ≤ n Kind.wsdl)
Wins n Kind.rest =
    ((n Kind.graphql < n Kind.rest) ⊎ (n Kind.graphql ≡ 0))
    × ((n Kind.wsdl < n Kind.rest) ⊎ (n Kind.wsdl ≡ 0))
Wins n Kind.grpc = ⊥

winner-Wins : (t : Tally) → Wins (of_kind t) (winner t)
winner-Wins t = ground arith

one_more_add : (b : Bool) (n m : ℕ) → n + one_more b m ≡ one_if b + n + m
one_more_add b n m = ground arith

abbrev plus : Packages → ℕ → List ObservedRequest → Tally → Tally
plus packages threshold requests t = record {
  wsdl_count = count packages Kind.wsdl threshold requests + t.wsdl_count;
  rest_count = count packages Kind.rest threshold requests + t.rest_count;
  graphql_count = count packages Kind.graphql threshold requests + t.graphql_count;
}

count_loop-plus :
    (packages : Packages) (threshold : ℕ) (requests : List ObservedRequest) (t : Tally)
    → count_loop packages threshold requests t ≡ plus packages threshold requests t
count_loop-plus packages threshold [] t =
    rw (zero-add t.wsdl_count, zero-add t.rest_count, zero-add t.graphql_count) refl
count_loop-plus packages threshold (req ∷ requests) t =
    count_loop-plus packages threshold requests (count_request packages threshold req t)
    ∙ rw
        (
          one_more_add (matches packages Kind.wsdl threshold req)
              (count packages Kind.wsdl threshold requests) t.wsdl_count,
          one_more_add (matches packages Kind.rest threshold req)
              (count packages Kind.rest threshold requests) t.rest_count,
          one_more_add (matches packages Kind.graphql threshold req)
              (count packages Kind.graphql threshold requests) t.graphql_count,
        )
        refl

count-Permᴰ :
    (packages : Packages) (kind : Kind) (threshold : ℕ) {rs qs : List ObservedRequest}
    → Permᴰ rs qs
    → count packages kind threshold rs ≡ count packages kind threshold qs
count-Permᴰ packages kind threshold Permᴰ.nil = refl
count-Permᴰ packages kind threshold (Permᴰ.cons e p) =
    rw (e, count-Permᴰ packages kind threshold p) refl
count-Permᴰ packages kind threshold (Permᴰ.swap e d) = rw (e, d) (omega arith)
count-Permᴰ packages kind threshold (Permᴰ.trans p q) =
    count-Permᴰ packages kind threshold p ∙ count-Permᴰ packages kind threshold q

same_count :
    (packages : Packages) (threshold : ℕ) {rs qs : List ObservedRequest}
    → Permᴰ rs qs
    → (kind : Kind) → count packages kind threshold qs + 0 ≡ count packages kind threshold rs
same_count packages threshold p kind = omega (arith, count-Permᴰ packages kind threshold p)

Wins-count :
    (t : Tally) (n : Kind → ℕ) (kind : Kind)
    → t.wsdl_count ≡ n Kind.wsdl
    → t.rest_count ≡ n Kind.rest
    → t.graphql_count ≡ n Kind.graphql
    → Wins (of_kind t) kind
    → Wins n kind
Wins-count t n Kind.graphql e d c (h, i, j) =
    (rw (sym c) h, rw (sym e, sym c) i, rw (sym d, sym c) j)
Wins-count t n Kind.wsdl e d c (h, i) = (rw (sym c, sym e) h, rw (sym d, sym e) i)
Wins-count t n Kind.rest e d c h = rw (sym c, sym d, sym e) h
Wins-count t n Kind.grpc e d c h = h

-- In whatever order the requests come, DetectAPIType answers graphql only if it has matches and
-- no other type has more, wsdl only if it has more than graphql and rest has no more, and rest
-- only if each of the two others has less or none; and it never answers grpc.
pub detect_api_type-Wins :
    (packages : Packages) (threshold : ℕ) (rs qs : List ObservedRequest)
    → Permᴰ rs qs
    → Wins (λ kind. count packages kind threshold rs) (detect_api_type packages qs threshold)
unfolding detect_api_type
detect_api_type-Wins packages threshold rs qs p =
    let same = same_count packages threshold p in
    rw (count_loop-plus packages threshold qs no_matches) (
      Wins-count (plus packages threshold qs no_matches) (λ kind. count packages kind threshold rs)
        _ (same Kind.wsdl) (same Kind.rest) (same Kind.graphql)
        (winner-Wins (plus packages threshold qs no_matches)))
