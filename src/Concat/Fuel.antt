-- ===== src/Concat/Fuel.antt =====
-- The fuel of the scanners of pkg/crawl/jsreplay.go and of splitConcatArgs, whose rounds take a byte
-- at least.
use vespasian.Prelude.{
  ℕ, zero, suc, ◌+◌, ◌≤◌, List, [], ◌∷◌, ◌++◌, Option, none, some, Bytes, length, length-drop, take,
  drop, ◌≡◌, refl, ap, arith,
}
use vespasian.Concat.Scan.{
  Depths, shifted, behind_nested, template_end, find_template_literal_end, scan_string_literal,
  behind_string, bracket, operand_end, behind_literal, arg_list_end,
}
use vespasian.Concat.Chain.{split_behind, split_loop}

drop_le : (n k : ℕ) (s : Bytes) → length s ≤ k → length (drop n s) ≤ k
drop_le n k s h = omega (arith, length-drop n s)

drop_lt : (i k : ℕ) (s : Bytes) → length s ≤ suc k → length (drop (i + 1) s) ≤ k
drop_lt i k s h = omega (arith, length-drop (i + 1) s)

behind_nested_lem :
    (o : Option ℕ) (f g : ℕ → Option ℕ)
    → ((i : ℕ) → f i ≡ g i)
    → behind_nested o f ≡ behind_nested o g
behind_nested_lem none f g h = refl
behind_nested_lem (some i) f g h = ap (shifted (i + 2)) (h i)

-- Two amounts of fuel that are enough give the same index.
template_end_lem :
    (m n d : ℕ) (s : Bytes) → length s ≤ m → length s ≤ n → template_end m d s ≡ template_end n d s
unfolding template_end
template_end_lem zero zero d s h k = refl
template_end_lem zero (suc n) d [] h k = refl
template_end_lem zero (suc n) d (c ∷ s) h k = absurd (omega arith)
template_end_lem (suc m) zero d [] h k = refl
template_end_lem (suc m) zero d (c ∷ s) h k = absurd (omega arith)
template_end_lem (suc m) (suc n) d [] h k = refl
template_end_lem (suc m) (suc n) zero (c ∷ s) h k =
    let rest = template_end_lem m n 0 s (omega arith) (omega arith) in
    let opened =
      template_end_lem m n 1 (drop 1 s) (drop_le 1 m s (omega arith))
        (drop_le 1 n s (omega arith)) in
    let escaped =
      template_end_lem m n 0 (drop 1 s) (drop_le 1 m s (omega arith))
        (drop_le 1 n s (omega arith)) in
    rw (rest, opened, escaped) refl
template_end_lem (suc m) (suc n) (suc d) (c ∷ s) h k =
    let nested =
      behind_nested_lem (template_end n 0 s) (λ i. template_end m (suc d) (drop (i + 1) s))
        (λ i. template_end n (suc d) (drop (i + 1) s))
        (λ i.
          template_end_lem m n (suc d) (drop (i + 1) s) (drop_le (i + 1) m s (omega arith))
            (drop_le (i + 1) n s (omega arith))) in
    let inner = template_end_lem m n 0 s (omega arith) (omega arith) in
    let opened = template_end_lem m n (suc (suc d)) s (omega arith) (omega arith) in
    let closed = template_end_lem m n d s (omega arith) (omega arith) in
    let escaped =
      template_end_lem m n (suc d) (drop 1 s) (drop_le 1 m s (omega arith))
        (drop_le 1 n s (omega arith)) in
    let next = template_end_lem m n (suc d) s (omega arith) (omega arith) in
    rw (inner, nested, opened, closed, escaped, next) refl

behind_string_lem :
    (o : Option ℕ) (f g : ℕ → ℕ) → ((i : ℕ) → f i ≡ g i) → behind_string o f ≡ behind_string o g
behind_string_lem none f g h = refl
behind_string_lem (some i) f g h = ap (λ n. i + 1 + n) (h i)

operand_end_lem :
    (m n : ℕ) (d : Depths) (s : Bytes)
    → length s ≤ m
    → length s ≤ n
    → operand_end m d s ≡ operand_end n d s
unfolding operand_end
operand_end_lem zero zero d s h k = refl
operand_end_lem zero (suc n) d [] h k = refl
operand_end_lem zero (suc n) d (c ∷ s) h k = absurd (omega arith)
operand_end_lem (suc m) zero d [] h k = refl
operand_end_lem (suc m) zero d (c ∷ s) h k = absurd (omega arith)
operand_end_lem (suc m) (suc n) d [] h k = refl
operand_end_lem (suc m) (suc n) d (c ∷ s) h k =
    let behind =
      behind_string_lem (scan_string_literal (c ∷ s)) (λ i. operand_end m d (drop i s))
        (λ i. operand_end n d (drop i s))
        (λ i.
          operand_end_lem m n d (drop i s) (drop_le i m s (omega arith))
            (drop_le i n s (omega arith))) in
    let next = operand_end_lem m n (bracket c d) s (omega arith) (omega arith) in
    rw (behind, next) refl

behind_literal_lem :
    (o : Option ℕ) (f g : ℕ → Option ℕ)
    → ((i : ℕ) → f i ≡ g i)
    → behind_literal o f ≡ behind_literal o g
behind_literal_lem none f g h = refl
behind_literal_lem (some i) f g h = ap (shifted (i + 1)) (h i)

arg_list_end_lem :
    (m n : ℕ) (d : Depths) (s : Bytes)
    → length s ≤ m
    → length s ≤ n
    → arg_list_end m d s ≡ arg_list_end n d s
unfolding arg_list_end
arg_list_end_lem zero zero d s h k = refl
arg_list_end_lem zero (suc n) d [] h k = refl
arg_list_end_lem zero (suc n) d (c ∷ s) h k = absurd (omega arith)
arg_list_end_lem (suc m) zero d [] h k = refl
arg_list_end_lem (suc m) zero d (c ∷ s) h k = absurd (omega arith)
arg_list_end_lem (suc m) (suc n) d [] h k = refl
arg_list_end_lem (suc m) (suc n) d (c ∷ s) h k =
    let behind =
      behind_literal_lem (scan_string_literal (c ∷ s)) (λ i. arg_list_end m d (drop i s))
        (λ i. arg_list_end n d (drop i s))
        (λ i.
          arg_list_end_lem m n d (drop i s) (drop_le i m s (omega arith))
            (drop_le i n s (omega arith))) in
    let next = arg_list_end_lem m n (bracket c d) s (omega arith) (omega arith) in
    rw (behind, next) refl

split_behind_lem :
    (o : Option ℕ) (b s : Bytes) (f g : Bytes → Bytes → List Bytes)
    → ((i : ℕ)
        → f (b ++ take (i + 1) s) (drop (i + 1) s) ≡ g (b ++ take (i + 1) s) (drop (i + 1) s))
    → split_behind o b s f ≡ split_behind o b s g
split_behind_lem none b s f g h = refl
split_behind_lem (some i) b s f g h = h i

split_loop_lem :
    (m n : ℕ) (d : Depths) (b s : Bytes)
    → length s ≤ m
    → length s ≤ n
    → split_loop m d b s ≡ split_loop n d b s
unfolding split_loop
split_loop_lem zero zero d b s h k = refl
split_loop_lem zero (suc n) d b [] h k = refl
split_loop_lem zero (suc n) d b (c ∷ s) h k = absurd (omega arith)
split_loop_lem (suc m) zero d b [] h k = refl
split_loop_lem (suc m) zero d b (c ∷ s) h k = absurd (omega arith)
split_loop_lem (suc m) (suc n) d b [] h k = refl
split_loop_lem (suc m) (suc n) d b (c ∷ s) h k =
    let behind =
      split_behind_lem (scan_string_literal (c ∷ s)) b (c ∷ s) (λ b' rest. split_loop m d b' rest)
        (λ b' rest. split_loop n d b' rest)
        (λ i.
          split_loop_lem m n d (b ++ take (i + 1) (c ∷ s)) (drop (i + 1) (c ∷ s))
            (drop_lt i m (c ∷ s) h) (drop_lt i n (c ∷ s) k)) in
    let ended = split_loop_lem m n d [] s (omega arith) (omega arith) in
    let next = split_loop_lem m n (bracket c d) (b ++ c ∷ []) s (omega arith) (omega arith) in
    rw (behind, ended, next) refl

-- On any fuel that is at least the length of the source, findTemplateLiteralEnd, the scans of an
-- operand and of a list of arguments, at any depth of brackets, and splitConcatArgs give what they
-- give on that length: the fuel cuts no scan short.
pub scanners_lem :
    (fuel : ℕ) (d : Depths) (b s : Bytes)
    → length s ≤ fuel
    → (template_end fuel 0 s ≡ find_template_literal_end s)
      × (operand_end fuel d s ≡ operand_end (length s) d s)
      × (arg_list_end fuel d s ≡ arg_list_end (length s) d s)
      × (split_loop fuel d b s ≡ split_loop (length s) d b s)
unfolding find_template_literal_end
scanners_lem fuel d b s h = (
  template_end_lem fuel (length s) 0 s h (omega arith),
  operand_end_lem fuel (length s) d s h (omega arith),
  arg_list_end_lem fuel (length s) d s h (omega arith),
  split_loop_lem fuel (length s) d b s h (omega arith),
)
