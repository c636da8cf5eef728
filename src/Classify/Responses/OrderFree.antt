-- ===== src/Classify/Responses/OrderFree.antt =====
-- The key by which `preferredResponse` of pkg/classify/classifier.go chooses.
use vespasian.Prelude.{
  Bool, true, false, not, ◌&&◌, [], ◌∷◌, ◌≡◌, refl, ap, ◌∙◌, arith, Bytes, str_eq, str_lt,
  if◌then◌else◌,
}
use vespasian.Prelude.Int.{ℤ, pos, negsuc, ltb_ℤ, eq_ℤ}
use vespasian.Prelude.Order.{
  StrictOrder, str_order, int_order, true_first, bool_order, lex, lex_order, lesser,
}
use vespasian.Classify.Responses.{
  ObservedResponse, response_populated, compare_responses, is_before, preferred_response,
}

-- What of a response the choice looks at: all but the headers.
abbrev pub Key : Type 0
Key = Bool × (ℤ × (Bytes × Bytes))

abbrev pub key : ObservedResponse → Key
key r = (response_populated r, (r.status_code, (r.content_type, r.body)))

abbrev pub key_lt : Key → Key → Bool
key_lt = lex true_first (lex ltb_ℤ (lex str_lt str_lt))

pub key_order : StrictOrder Key key_lt
key_order =
    lex_order true_first (lex ltb_ℤ (lex str_lt str_lt)) bool_order
      (lex_order ltb_ℤ (lex str_lt str_lt) int_order (lex_order str_lt str_lt str_order str_order))

eq_ℤ_lt : (a b : ℤ) → eq_ℤ a b ≡ not (ltb_ℤ a b) && not (ltb_ℤ b a)
eq_ℤ_lt (pos m) (pos n) = ground arith
eq_ℤ_lt (pos m) (negsuc n) = refl
eq_ℤ_lt (negsuc m) (pos n) = refl
eq_ℤ_lt (negsuc m) (negsuc n) = ground arith

pub str_eq_lt : (a b : Bytes) → str_eq a b ≡ not (str_lt a b) && not (str_lt b a)
unfolding str_eq str_lt
str_eq_lt [] [] = refl
str_eq_lt [] (y ∷ b) = refl
str_eq_lt (x ∷ a) [] = refl
str_eq_lt (x ∷ a) (y ∷ b) = ground (arith, str_eq_lt a b)

compare-lex :
    (a b : ObservedResponse)
    → is_before (compare_responses a b)
      ≡ lex ltb_ℤ
          (lex str_lt str_lt)
          (a.status_code, (a.content_type, a.body))
          (b.status_code, (b.content_type, b.body))
unfolding compare_responses
compare-lex a b = ground (
  arith,
  eq_ℤ_lt a.status_code b.status_code,
  str_eq_lt a.content_type b.content_type,
  int_order.asymm a.status_code b.status_code,
  str_order.asymm a.content_type b.content_type,
)

preferred-key :
    (a b : ObservedResponse) → preferred_response a b ≡ (if key_lt (key b) (key a) then b else a)
unfolding preferred_response
preferred-key a b = ground (arith, compare-lex b a)

key_if :
    (b : Bool) (r s : ObservedResponse) → key (if b then r else s) ≡ (if b then key r else key s)
key_if true r s = refl
key_if false r s = refl

pub key-preferred :
    (a b : ObservedResponse) → key (preferred_response a b) ≡ lesser key_lt (key a) (key b)
key-preferred a b = ap key (preferred-key a b) ∙ key_if (key_lt (key b) (key a)) b a
