-- ===== src/Rest/Names/Idents.antt =====
-- The names that pkg/generate/rest/normalize.go gives to parameters are identifiers.
use vespasian.Prelude.{
  ℕ, ◌<◌, Bool, true, false, ◌||◌, [], ◌∷◌, ◌++◌, ◌≡◌, refl, arith, Bytes, length, ◌==◌, All,
}
use vespasian.Rest.Segments.{
  ParamKind, literal, uuid, object_id, numeric, short_hex, base64, slug, is_digit, is_upper,
  is_lower,
}
use vespasian.Rest.Names.{
  sanitize_loop, sanitize_param_name, id_if_empty, param_name_from_kind, suffix_for_kind,
  lower_suffix, singularize,
}

-- `[A-Za-z0-9_]`.
abbrev pub is_word : ℕ → Bool
is_word c = is_lower c || is_upper c || is_digit c || c == 0x5f

abbrev pub Ident : Bytes → Type 0
Ident name = (0 < length name) × All (λ c. is_word c ≡ true) name

sanitize_loop-All :
    (upper_next : Bool) (name : Bytes) → All (λ c. is_word c ≡ true) (sanitize_loop upper_next name)
unfolding sanitize_loop
sanitize_loop-All u [] = tt
sanitize_loop-All u (c ∷ name) =
    ground
      (arith, sanitize_loop-All true name, sanitize_loop-All false name, sanitize_loop-All u name)

id_if_empty-Ident : (b : Bytes) → All (λ c. is_word c ≡ true) b → Ident (id_if_empty b)
id_if_empty-Ident [] h = (omega arith, (refl, (refl, tt)))
id_if_empty-Ident (c ∷ b) h = (omega arith, h)

suffix-Ident : (kind : ParamKind) → Ident (lower_suffix (suffix_for_kind kind))
suffix-Ident literal = ground arith
suffix-Ident uuid = ground arith
suffix-Ident object_id = ground arith
suffix-Ident numeric = ground arith
suffix-Ident short_hex = ground arith
suffix-Ident base64 = ground arith
suffix-Ident slug = ground arith

-- Every name is a nonempty run of letters, digits and underscores.
pub param_name_from_kind-Ident :
    (prev : Bytes) (kind : ParamKind) → Ident (param_name_from_kind prev kind)
unfolding param_name_from_kind sanitize_param_name
param_name_from_kind-Ident prev kind = ground (
  arith,
  suffix-Ident kind,
  id_if_empty-Ident (sanitize_loop false (singularize prev ++ suffix_for_kind kind))
      (sanitize_loop-All false (singularize prev ++ suffix_for_kind kind)),
)
