-- ===== src/Classify/Merging/Distinct.antt =====
-- What the merging of query values in pkg/classify/classifier.go keeps.
use vespasian.Prelude.{
  ℕ, zero, suc, ◌+◌, ◌-◌, ◌<◌, true, false, List, [], ◌∷◌, ◌++◌, ◌≡◌, ◌⊎◌, inl, inr, refl, sym, ap,
  ◌∙◌, subst, arith, Bytes, length, take, leb, leb_false→lt, append_assoc, append-nil,
  length-append, Bool-cases, if◌then◌else◌,
}
use native.Mathlib.Nat.{sub-zero}
use vespasian.Prelude.Parts.{contains}
use vespasian.Classify.Merging.{max_query_param_values, Merge, merge_loop, merge_unique_ordered}

-- The first occurrences of values that are not among those seen.
abbrev pub firsts : List Bytes → List Bytes → List Bytes
firsts seen [] = []
firsts seen (v ∷ vs) =
    let rest = firsts seen vs in
    let further = firsts (v ∷ seen) vs in if contains seen v then rest else v ∷ further

-- The values seen behind a list.
abbrev seen_after : List Bytes → List Bytes → List Bytes
seen_after seen [] = seen
seen_after seen (v ∷ vs) =
    let passed = seen_after seen vs in
    let further = seen_after (v ∷ seen) vs in if contains seen v then passed else further

firsts-append :
    (vs ws seen : List Bytes)
    → firsts seen (vs ++ ws) ≡ firsts seen vs ++ firsts (seen_after seen vs) ws
firsts-append [] ws seen = refl
firsts-append (v ∷ vs) ws seen = elim (Bool-cases (contains seen v)) [
  | inl k ↦ rw k (firsts-append vs ws seen)
  | inr k ↦ rw k (ap (λ xs. v ∷ xs) (firsts-append vs ws (v ∷ seen)))
]

-- A loop that has room: either it has taken all the first occurrences, and has room left, or it
-- has returned with as many of them as there was room for.
LoopSays : ℕ → List Bytes → List Bytes → List Bytes → Merge → Type 0
LoopSays limit vs seen out m =
    (m.returned ≡ false)
      × (m.out ≡ out ++ firsts seen vs)
      × (m.seen ≡ seen_after seen vs)
      × (length m.out < limit)
    ⊎ (m.returned ≡ true)
      × (m.out ≡ out ++ take (limit - length out) (firsts seen vs))
      × (length m.out ≡ limit)

room_suc : (limit n : ℕ) → n < limit → limit - n ≡ suc (limit - (n + 1))
room_suc limit n h = omega arith

-- One value more.
more_says :
    (limit : ℕ) (v : Bytes) (vs seen out : List Bytes) (m : Merge)
    → contains seen v ≡ false
    → length out < limit
    → LoopSays limit vs (v ∷ seen) (out ++ v ∷ []) m
    → LoopSays limit (v ∷ vs) seen out m
unfolding LoopSays
more_says limit v vs seen out m k h (inl (r, o, s, l)) =
    rw k (inl (r, o ∙ append_assoc out (v ∷ []) (firsts (v ∷ seen) vs), s, l))
more_says limit v vs seen out m k h (inr (r, o, l)) =
    let e : limit - length out ≡ suc (limit - length (out ++ v ∷ [])) =
      room_suc limit (length out) h
      ∙ ap (λ n. suc (limit - n)) (sym (length-append out (v ∷ []))) in
    rw (k, e)
      (inr (
        r,
        o
            ∙ append_assoc out (v ∷ [])
                (take (limit - length (out ++ v ∷ [])) (firsts (v ∷ seen) vs)),
        l,
      ))

merge_loop-says :
    (limit : ℕ) (vs seen out : List Bytes)
    → length out < limit
    → LoopSays limit vs seen out (merge_loop limit vs seen out)
unfolding merge_loop LoopSays
merge_loop-says limit [] seen out h = inl (refl, sym (append-nil out), refl, h)
merge_loop-says limit (v ∷ vs) seen out h = elim (Bool-cases (contains seen v)) [
  | inl k ↦ rw k (merge_loop-says limit vs seen out h)
  | inr k ↦ elim (Bool-cases (leb limit (length (out ++ v ∷ [])))) [
    | inl l ↦
        let e : limit - length out ≡ 1 = ground (arith, length-append out (v ∷ [])) in
        rw (k, l, e) (inr (refl, refl, ground (arith, length-append out (v ∷ []))))
    | inr l ↦ more_says limit v vs seen out _ k h (
        rw (merge_loop, k, l)
          (merge_loop-says limit vs (v ∷ seen) (out ++ v ∷ [])
            (leb_false→lt limit (length (out ++ v ∷ [])) l)))
  ]
]

take-append_short :
    (n : ℕ) (xs ys : List Bytes) → length xs < n → take n (xs ++ ys) ≡ xs ++ take (n - length xs) ys
take-append_short n [] ys h = rw sub-zero refl
take-append_short zero (x ∷ xs) ys h = absurd (omega (arith, h))
take-append_short (suc n) (x ∷ xs) ys h =
    let e : suc n - suc (length xs) ≡ n - length xs = omega arith in
    rw e (ap (λ zs. x ∷ zs) (take-append_short n xs ys (omega arith)))

take-append_full :
    (n : ℕ) (xs ys : List Bytes) → length (take n xs) ≡ n → take n (xs ++ ys) ≡ take n xs
take-append_full zero xs ys h = refl
take-append_full (suc n) [] ys h = absurd (omega (arith, h))
take-append_full (suc n) (x ∷ xs) ys h =
    ap (λ zs. x ∷ zs) (take-append_full n xs ys (omega (arith, h)))

take_all : (n : ℕ) (xs : List Bytes) → length xs < n → take n xs ≡ xs
take_all zero xs h = absurd (omega (arith, h))
take_all (suc n) [] h = refl
take_all (suc n) (x ∷ xs) h = ap (λ zs. x ∷ zs) (take_all n xs (omega arith))

-- The second loop, behind a first that has not returned.
merged_says :
    (limit : ℕ) (a b : List Bytes) (m n : Merge)
    → m.out ≡ firsts [] a
    → m.seen ≡ seen_after [] a
    → length m.out < limit
    → LoopSays limit b m.seen m.out n
    → n.out ≡ take limit (firsts [] (a ++ b))
unfolding LoopSays
merged_says limit a b m n o s l (inl (r, p, q, k)) =
    rw (firsts-append a b [], sym o, sym s)
      (p ∙ sym (take_all limit (m.out ++ firsts m.seen b) (subst (λ xs. length xs < limit) p k)))
merged_says limit a b m n o s l (inr (r, p, k)) =
    rw (firsts-append a b [], sym o, sym s)
      (p ∙ sym (take-append_short limit m.out (firsts m.seen b) l))

returned_says :
    (limit : ℕ) (a b : List Bytes) (m : Merge)
    → m.out ≡ take limit (firsts [] a)
    → length m.out ≡ limit
    → m.out ≡ take limit (firsts [] (a ++ b))
returned_says limit a b m o l =
    rw (firsts-append a b [])
      (o ∙ sym (take-append_full limit (firsts [] a) _ (ap length (sym o) ∙ l)))

-- The values merged are the first occurrences in a and then b, cut off at the limit.
pub merge_unique_ordered_lem :
    (a b : List Bytes) → merge_unique_ordered a b ≡ take max_query_param_values (firsts [] (a ++ b))
unfolding merge_unique_ordered LoopSays
merge_unique_ordered_lem a b =
    let m = merge_loop max_query_param_values a [] [] in
    elim (merge_loop-says max_query_param_values a [] [] (omega arith)) [
      | inl (r, o, s, l) ↦ rw r (
          merged_says max_query_param_values a b m _ o s l
            (merge_loop-says max_query_param_values b m.seen m.out l))
      | inr (r, o, l) ↦ rw r (returned_says max_query_param_values a b m o l)
    ]
