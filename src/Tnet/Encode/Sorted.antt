-- ===== src/Tnet/Encode/Sorted.antt =====
-- The sort of `Encode`: it leaves a map alone whose entries are in the order of their keys.
use vespasian.Prelude.{◌∷◌, ◌≡◌, refl, Bytes, str_lt_asymm}
use vespasian.Tnet.Value.{Entries, end, entry}
use vespasian.Tnet.Encode.{insert_pair, sort_pairs, encode, encode_entries}
use vespasian.Tnet.Decode.Limits.{Before, IsCanonicalMap}

module _ {F : Type 0} (format_float : F → Bytes) where
  insert_pair-Before :
      (k w : Bytes) (m : Entries F)
      → Before k m
      → insert_pair k w (encode_entries format_float m) ≡ (k, w) ∷ encode_entries format_float m
  unfolding insert_pair encode_entries
  insert_pair-Before k w end h = refl
  insert_pair-Before k w (entry j v m) (lt, h) = rw (str_lt_asymm k j lt)

  pub sort_pairs-canonical :
      (m : Entries F)
      → IsCanonicalMap m
      → sort_pairs (encode_entries format_float m) ≡ encode_entries format_float m
  unfolding sort_pairs encode_entries
  sort_pairs-canonical end h = refl
  sort_pairs-canonical (entry k v m) (first, _, h) =
      rw (sort_pairs-canonical m h) (insert_pair-Before k (encode format_float v) m first)
