-- ===== src/Grpcwire/Fields/Walk.antt =====
-- `WalkFields` on any bytes, for every callback.
use vespasian.Prelude.{
  ℕ, zero, suc, ◌≤◌, ◌<◌, Bool, Option, none, some, List, [], ◌∷◌, ◌≡◌, ◌≢◌, refl, arith, Bytes,
  length, take, drop, All, All-drop, Result, ok, err, ◌>>=◌, chain-ok, length-take, length-drop,
  ltb, ltb_false→le, guard_lem, ◌∙◌, ap, take-append-drop, length-append, subst, ==_iff, ◌==◌,
  if◌then◌else◌, true, false, ◌++◌, sym,
}
use vespasian.Grpcwire.{
  WireError, fixed64_truncated, delimited_truncated, fixed32_truncated, Tag, parse_varint,
  parse_tag, split_fixed, split_value, next_field, walk_loop, walk_fields,
}
use vespasian.Grpcwire.Varint.Bounds.{parse_varint_bounds, parse_tag_bounds}
use vespasian.Grpcwire.Fields.{visit}

-- The value of a field of a wire type, and what is behind it, in what is behind the tag: a varint,
-- 8 or 4 bytes, or as many bytes as a varint in front of them says; none of them is missing.
pub data Holds (w : ℕ) (b v rest : Bytes) : Type 0 where
  varint_value :
      (x : ℕ) → w ≡ 0 → parse_varint b ≡ ok (x, length v) → b ≡ v ++ rest → Holds w b v rest
  fixed64_value : w ≡ 1 → length v ≡ 8 → b ≡ v ++ rest → Holds w b v rest
  delimited_value :
      (m : ℕ) → w ≡ 2 → parse_varint b ≡ ok (length v, m) → drop m b ≡ v ++ rest → Holds w b v rest
  fixed32_value : w ≡ 5 → length v ≡ 4 → b ≡ v ++ rest → Holds w b v rest

-- A field in front: its tag, of so many bytes, its value, and the rest.
abbrev pub FieldAt : Bytes → Tag → Bytes → Bytes → Type 0
FieldAt b t v rest =
    (n : ℕ) × (0 < n)
    × (n ≤ length b)
    × (parse_tag b ≡ ok (t, n))
    × Holds t.wire_type (drop n b) v rest

cut_lem :
    (n : ℕ) (b v rest : Bytes)
    → n ≤ length b
    → ◌≡◌ {A = Result WireError (Bytes × Bytes)} (ok (take n b, drop n b)) (ok (v, rest))
    → (length v ≡ n) × (b ≡ v ++ rest)
cut_lem n b v rest inside eq =
    let front : take n b ≡ v = cc in
    let back : drop n b ≡ rest = cc in
    (
      ap (λ x. length x) (sym front) ∙ omega (arith, length-take n b),
      sym (take-append-drop n b) ∙ rw (front, back) refl,
    )

split_fixed_lem :
    (n : ℕ) (e : WireError) (b v rest : Bytes)
    → split_fixed n e b ≡ ok (v, rest)
    → (length v ≡ n) × (b ≡ v ++ rest)
split_fixed_lem n e b v rest eq =
    let (long, cut) = guard_lem (ltb (length b) n) e (ok (take n b, drop n b)) (v, rest) eq in
    cut_lem n b v rest (ltb_false→le (length b) n long) cut

abbrev after_varint : Bytes → ℕ × ℕ → Result WireError (Bytes × Bytes)
after_varint b (v, n) = ok (take n b, drop n b)

varint_value_lem :
    (w : ℕ) (b v rest : Bytes)
    → All (λ c. c < 256) b
    → w ≡ 0
    → (parse_varint b >>= after_varint b) ≡ ok (v, rest)
    → Holds w b v rest
varint_value_lem w b v rest h z eq =
    let ((x, n), e, out) = chain-ok (parse_varint b) (after_varint b) eq in
    let (_, _, _, inside) = parse_varint_bounds b x n h e in
    let (size, whole) = cut_lem n b v rest inside out in varint_value x z (rw size e) whole

delimited_value_lem :
    (w : ℕ) (b v rest : Bytes)
    → w ≡ 2
    → (parse_varint b >>= λ p. split_fixed p.0 delimited_truncated (drop p.1 b)) ≡ ok (v, rest)
    → Holds w b v rest
delimited_value_lem w b v rest z eq =
    let (p, e, out) =
      chain-ok (parse_varint b) (λ p. split_fixed p.0 delimited_truncated (drop p.1 b)) eq in
    let (size, whole) = split_fixed_lem p.0 delimited_truncated (drop p.1 b) v rest out in
    delimited_value p.1 z (rw size e) whole

fixed_value_lem :
    (w n : ℕ) (e : WireError) (b v rest : Bytes)
    → (length v ≡ n → b ≡ v ++ rest → Holds w b v rest)
    → split_fixed n e b ≡ ok (v, rest)
    → Holds w b v rest
fixed_value_lem w n e b v rest value eq =
    let (size, whole) = split_fixed_lem n e b v rest eq in value size whole

-- A value that is chosen by the wire type.
if_either :
    {P : Type 0} {w k : ℕ} {x y r : Result WireError (Bytes × Bytes)}
    → (if w == k then x else y) ≡ r
    → (w ≡ k → x ≡ r → P)
    → (y ≡ r → P)
    → P
if_either {P} {w} {k} {x} {y} {r} eq f g = choose (w == k) refl eq
  where
    choose : (b : Bool) → (w == k) ≡ b → (if b then x else y) ≡ r → P
    choose true e eq = f ((==_iff w k).0 e) eq
    choose false e eq = g eq

split_value_lem :
    (w : ℕ) (b v rest : Bytes)
    → All (λ c. c < 256) b
    → split_value w b ≡ ok (v, rest)
    → Holds w b v rest
unfolding split_value
split_value_lem w b v rest h eq = if_either eq (varint_value_lem w b v rest h) (λ eq.
    if_either eq (λ z. fixed_value_lem w 8 fixed64_truncated b v rest (fixed64_value z))
      (λ eq. if_either eq (delimited_value_lem w b v rest) (λ eq.
        if_either eq (λ z. fixed_value_lem w 4 fixed32_truncated b v rest (fixed32_value z))
          (λ eq. cc))))

field_lem :
    (n : ℕ) (b value behind v rest : Bytes) (tag t : Tag)
    → (0 < n) × (n ≤ length b)
    → parse_tag b ≡ ok (tag, n)
    → Holds tag.wire_type (drop n b) value behind
    → ◌≡◌ {A = Result WireError (Tag × Bytes × Bytes)} (ok (tag, value, behind)) (ok (t, v, rest))
    → FieldAt b t v rest
field_lem n b value behind v rest tag t (some_bytes, inside) e held out =
    let same_tag : tag ≡ t = cc in
    let same_value : value ≡ v = cc in
    let same_rest : behind ≡ rest = cc in
    rw (sym same_tag, sym same_value, sym same_rest) (n, some_bytes, inside, e, held)

next_field_lem :
    (b : Bytes) (t : Tag) (v rest : Bytes)
    → All (λ c. c < 256) b
    → next_field b ≡ ok (t, v, rest)
    → FieldAt b t v rest
unfolding next_field
next_field_lem b t v rest h eq =
    let ((tag, n), e, more) = chain-ok (parse_tag b) _ eq in
    let ((value, behind), f, out) = chain-ok (split_value tag.wire_type (drop n b)) _ more in
    let (_, _, _, some_bytes, inside) = parse_tag_bounds b tag n h e in
    let bytes = All-drop (λ c. c < 256) n b h in
    field_lem n b value behind v rest tag t (some_bytes, inside) e
      (split_value_lem tag.wire_type (drop n b) value behind bytes f) out

All-behind : (P : ℕ → Type 0) (v rest : Bytes) → All P (v ++ rest) → All P rest
All-behind P [] rest h = h
All-behind P (c ∷ v) rest (_, h) = All-behind P v rest h

-- What is behind a value ends the bytes that it stands in.
Holds-behind : (w : ℕ) (b v rest : Bytes) → Holds w b v rest → (n : ℕ) × (drop n b ≡ v ++ rest)
Holds-behind w b v rest (varint_value x z e whole) = (0, whole)
Holds-behind w b v rest (fixed64_value z size whole) = (0, whole)
Holds-behind w b v rest (delimited_value m z e whole) = (m, whole)
Holds-behind w b v rest (fixed32_value z size whole) = (0, whole)

FieldAt-rest :
    (b : Bytes) (t : Tag) (v rest : Bytes)
    → All (λ c. c < 256) b
    → FieldAt b t v rest
    → (length rest < length b) × All (λ c. c < 256) rest
FieldAt-rest b t v rest h (n, some_bytes, inside, e, held) =
    let (m, whole) = Holds-behind t.wire_type (drop n b) v rest held in
    let bytes = All-drop (λ c. c < 256) m (drop n b) (All-drop (λ c. c < 256) n b h) in
    (
      omega (
        arith,
        length-append v rest,
        ap (λ x. length x) whole,
        length-drop m (drop n b),
        length-drop n b,
      ),
      All-behind (λ c. c < 256) v rest (subst (All (λ c. c < 256)) whole bytes),
    )

-- The rounds on `b`: the fields read one after the other, and then the end or an error.
abbrev pub Walked : Bytes → List (Tag × Bytes) → Option WireError → Type 0
Walked b [] none = b ≡ []
Walked b [] (some e) = (b ≢ []) × (next_field b ≡ err e)
Walked b ((t, v) ∷ fs) e = (rest : Bytes) × FieldAt b t v rest × Walked rest fs e

module _ {ℓ} (S : Type ℓ) where
  -- What a walk of `b` is: its fields, its error, and the run of every callback on them.
  abbrev WalkRuns : (fuel : ℕ) → Bytes → Type ℓ
  WalkRuns fuel b =
      (fs : List (Tag × Bytes)) × (e : Option WireError) × Walked b fs e
      × ((fn : S → Tag → Bytes → S × Bool) (s : S) → walk_loop fn fuel s b ≡ some (visit fn fs e s))

  walk_loop_round :
      (fuel : ℕ) (c : ℕ) (b : Bytes) (r : Result WireError (Tag × Bytes × Bytes))
      → All (λ x. x < 256) (c ∷ b)
      → length (c ∷ b) ≤ suc fuel
      → next_field (c ∷ b) ≡ r
      → ((b' : Bytes) → All (λ x. x < 256) b' → length b' ≤ fuel → WalkRuns fuel b')
      → WalkRuns (suc fuel) (c ∷ b)
  unfolding walk_loop
  walk_loop_round fuel c b (err e) h k eq later =
      ([], some e, ((λ p. cc), eq), (λ fn s. rw (walk_loop, eq)))
  walk_loop_round fuel c b (ok (t, v, rest)) h k eq later =
      let field = next_field_lem (c ∷ b) t v rest h eq in
      let (shorter, bytes) = FieldAt-rest (c ∷ b) t v rest h field in
      let (fs, e, walked, runs) = later rest bytes (omega arith) in
      (
        (t, v) ∷ fs,
        e,
        (rest, field, walked),
        (λ fn s. rw (walk_loop, eq) (ground (arith, runs fn (fn s t v).0))),
      )

  walk_loop_lem : (fuel : ℕ) (b : Bytes) → All (λ x. x < 256) b → length b ≤ fuel → WalkRuns fuel b
  walk_loop_lem zero [] h k = ([], none, refl, (λ fn s. unfold walk_loop in refl))
  walk_loop_lem (suc fuel) [] h k = ([], none, refl, (λ fn s. unfold walk_loop in refl))
  walk_loop_lem zero (c ∷ b) h k = absurd (omega arith)
  walk_loop_lem (suc fuel) (c ∷ b) h k =
      walk_loop_round fuel c b (next_field (c ∷ b)) h k refl (walk_loop_lem fuel)

  -- On any bytes WalkFields returns. It reads fields one behind the other: each is a tag, and by
  -- its wire type a varint, 8 or 4 bytes, or as many bytes as a varint in front of them says,
  -- none of them missing. It returns nil if they are the whole message, else the error of what is
  -- left. Both depend on the message alone: every callback is called on the fields in order,
  -- until it returns false.
  pub walk_fields_lem :
      (b : Bytes)
      → All (λ x. x < 256) b
      → (fs : List (Tag × Bytes)) × (e : Option WireError) × Walked b fs e
        × ((fn : S → Tag → Bytes → S × Bool) (s : S) → walk_fields fn b s ≡ some (visit fn fs e s))
  unfolding walk_fields
  walk_fields_lem b h = walk_loop_lem (length b) b h (omega arith)
