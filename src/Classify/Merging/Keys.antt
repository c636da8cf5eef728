-- ===== src/Classify/Merging/Keys.antt =====
-- The merging of multi-value keys in pkg/classify/classifier.go.
use vespasian.Prelude.{
  Bool, true, false, ◌&&◌, ◌||◌, List, [], ◌∷◌, Option, none, some, ◌≡◌, inl, inr, sym, subst,
  arith, Bytes, str_eq, str_eq_iff, str_eq_refl, ◌∙◌, Bool-cases, if◌then◌else◌,
}
use vespasian.Classify.Merging.{set_true, set_keys, merge_multi_value_keys}

-- `m[s]`, which is false for a key that is missing and in a nil map.
abbrev pub get : Bytes → List (Bytes × Bool) → Bool
get s [] = false
get s ((j, b) ∷ m) = let rest = get s m in if str_eq j s then b else rest

abbrev pub get_from : Bytes → Option (List (Bytes × Bool)) → Bool
get_from s none = false
get_from s (some m) = get s m

-- Whether an entry of a map makes a key true.
abbrev pub any_true : Bytes → Option (List (Bytes × Bool)) → Bool
any_true s none = false
any_true s (some []) = false
any_true s (some ((k, v) ∷ m)) = v && str_eq k s || any_true s (some m)

one_of_two : (j k s : Bytes) → str_eq j k ≡ false → str_eq j s ≡ true → str_eq k s ≡ false
one_of_two j k s h e = elim (Bool-cases (str_eq k s)) [
  | inl d ↦
      let same = (str_eq_iff j s).0 e ∙ sym ((str_eq_iff k s).0 d) in
      cc (sym ((str_eq_iff j k).1 same) ∙ h)
  | inr d ↦ d
]

get-set_true :
    (s k : Bytes) (m : List (Bytes × Bool)) → get s (set_true k m) ≡ str_eq k s || get s m
get-set_true s k [] = ground arith
get-set_true s k ((j, b) ∷ m) = elim (Bool-cases (str_eq j k)) [
  | inl h ↦
      subst (λ i. get s (set_true i ((j, b) ∷ m)) ≡ str_eq i s || get s ((j, b) ∷ m))
        ((str_eq_iff j k).0 h) (ground (arith, str_eq_refl j))
  | inr h ↦ rw h (ground (arith, get-set_true s k m, one_of_two j k s h))
]

get-set_keys :
    (s : Bytes) (src dst : List (Bytes × Bool))
    → get s (set_keys dst src) ≡ get s dst || any_true s (some src)
unfolding set_keys
get-set_keys s [] dst = ground arith
get-set_keys s ((k, true) ∷ src) dst =
    ground (arith, get-set_keys s src (set_true k dst), get-set_true s k dst)
get-set_keys s ((k, false) ∷ src) dst = ground (arith, get-set_keys s src dst)

-- A key is multi-value after the merge exactly if it is in one of the two maps; a key that src
-- stores as false adds nothing, and a nil map is an empty one.
pub merge_multi_value_keys_lem :
    (s : Bytes) (dst src : Option (List (Bytes × Bool)))
    → get_from s (merge_multi_value_keys dst src) ≡ get_from s dst || any_true s src
unfolding merge_multi_value_keys
merge_multi_value_keys_lem s dst none = ground arith
merge_multi_value_keys_lem s none (some src) = ground (arith, get-set_keys s src [])
merge_multi_value_keys_lem s (some dst) (some src) = get-set_keys s src dst
