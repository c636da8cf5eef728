-- ===== src/Classify/Merging/Permuted.antt =====
-- The first occurrences of values, as pkg/classify/classifier.go keeps them, when the values are permuted.
use vespasian.Prelude.{
  Bool, true, ◌||◌, List, [], ◌∷◌, ◌≡◌, inl, inr, refl, ap, ◌∙◌, arith, Bytes, str_eq, str_eq_iff,
  str_eq_comm, Bool-cases,
}
use mathlib.Core.List.{Permᴰ}
use mathlib.Core.List.Permᴰ
use vespasian.Prelude.Parts.{contains}
use vespasian.Classify.Merging.Distinct.{firsts}

pub firsts_same :
    (ks js vs : List Bytes)
    → ((k : Bytes) → contains ks k ≡ contains js k)
    → firsts ks vs ≡ firsts js vs
unfolding contains
firsts_same ks js [] h = refl
firsts_same ks js (v ∷ vs) h =
    let passed = firsts_same ks js vs h in
    let further = firsts_same (v ∷ ks) (v ∷ js) vs (λ k. ap (λ b. str_eq v k || b) (h k)) in
    ground (arith, h v, passed, further)

or_true : (b : Bool) → (b || true) ≡ true
or_true b = ground arith

or_swap : (b c d : Bool) → (b || (c || d)) ≡ (c || (b || d))
or_swap b c d = ground arith

firsts_swap :
    (v w : Bytes) (seen l : List Bytes) → Permᴰ (firsts seen (v ∷ w ∷ l)) (firsts seen (w ∷ v ∷ l))
unfolding contains
firsts_swap v w seen l = elim (Bool-cases (contains seen v)) [
  | inl hv ↦ elim (Bool-cases (contains seen w)) [
    | inl hw ↦ rw (hv, hw) (Permᴰ.refl _)
    | inr hw ↦ rw (hv, hw, or_true (str_eq w v)) (Permᴰ.refl _)
  ]
  | inr hv ↦ elim (Bool-cases (contains seen w)) [
    | inl hw ↦ rw (hv, hw, or_true (str_eq v w)) (Permᴰ.refl _)
    | inr hw ↦ elim (Bool-cases (str_eq v w)) [
      | inl same ↦ rw ((str_eq_iff v w).0 same) (Permᴰ.refl _)
      | inr other ↦
          rw (hv, hw, other, str_eq_comm w v ∙ other)
            (rw
              (firsts_same (w ∷ v ∷ seen) (v ∷ w ∷ seen) l
                (λ k. or_swap (str_eq w k) (str_eq v k) _))
              (Permᴰ.swap refl refl))
    ]
  ]
]

pub firsts-Permᴰ :
    {vs ws : List Bytes} (seen : List Bytes) → Permᴰ vs ws → Permᴰ (firsts seen vs) (firsts seen ws)
firsts-Permᴰ seen Permᴰ.nil = Permᴰ.nil
firsts-Permᴰ seen (Permᴰ.cons {b = w} e p) = elim (Bool-cases (contains seen w)) [
  | inl h ↦ rw (e, h) (firsts-Permᴰ seen p)
  | inr h ↦ rw (e, h) (Permᴰ.cons refl (firsts-Permᴰ (w ∷ seen) p))
]
firsts-Permᴰ seen (Permᴰ.swap {a' = w} {b' = v} {l = l} e d) = rw (e, d) (firsts_swap v w seen l)
firsts-Permᴰ seen (Permᴰ.trans p q) = Permᴰ.trans (firsts-Permᴰ seen p) (firsts-Permᴰ seen q)
