-- ===== src/Classify/Responses.antt =====
-- The choice of a response in pkg/classify/classifier.go, on `ObservedResponse` of
-- pkg/crawl/types.go.
pub mod OrderFree
use vespasian.Prelude.{
  ℕ, Bool, true, false, not, ◌&&◌, ◌||◌, List, [], ◌∷◌, Bytes, length, ltb, str_eq, str_lt,
  if◌then◌else◌,
}
use vespasian.Prelude.Int.{ℤ, pos, ltb_ℤ, eq_ℤ}

pub record ObservedResponse : Type 0 where
  pub status_code : ℤ
  pub headers : List (Bytes × Bytes)
  pub content_type : Bytes
  pub body : Bytes

unfoldable pub response_populated : ObservedResponse → Bool
response_populated r =
    ltb_ℤ (pos 0) r.status_code || ltb 0 (length r.body) || not (str_eq r.content_type [])

-- -1, 0 and +1.
pub data Comparison : Type 0 where
  before same after : Comparison

-- `bytes.Compare`.
abbrev pub compare_bytes : Bytes → Bytes → Comparison
compare_bytes a b = if str_lt a b then before else if str_lt b a then after else same

unfoldable pub compare_responses : ObservedResponse → ObservedResponse → Comparison
compare_responses a b =
    if not (eq_ℤ a.status_code b.status_code)
    then (if ltb_ℤ a.status_code b.status_code then before else after)
    else if not (str_eq a.content_type b.content_type)
    then (if str_lt a.content_type b.content_type then before else after)
    else compare_bytes a.body b.body

abbrev pub is_before : Comparison → Bool
is_before before = true
is_before _ = false

abbrev pub bool_eq : Bool → Bool → Bool
bool_eq true b = b
bool_eq false b = not b

unfoldable pub preferred_response : ObservedResponse → ObservedResponse → ObservedResponse
preferred_response a b =
    if not (bool_eq (response_populated a) (response_populated b))
    then (if response_populated b then b else a)
    else if is_before (compare_responses b a)
    then b
    else a
