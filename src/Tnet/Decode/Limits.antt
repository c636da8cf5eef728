-- ===== src/Tnet/Decode/Limits.antt =====
-- The limits of pkg/importer/tnetstring.go, as a predicate on values.
use vespasian.Prelude.{ℕ, suc, ◌-◌, ◌≤◌, true, ◌≡◌, Bytes, length, str_lt}
use vespasian.Tnet.Value.{
  Value, null, bytes, str, int, float, bool, list, dict, Items, nil, cons, Entries, end, entry,
}
use vespasian.Tnet.Reader.{max_tnetstring_element, max_tnetstring_elements}
use vespasian.Tnet.Reader.Numbers.{IsInt64}

module _ {F : Type 0} where
  abbrev pub count_items : Items F → ℕ
  count_items nil = 0
  count_items (cons v vs) = suc (count_items vs)

  abbrev pub count_entries : Entries F → ℕ
  count_entries end = 0
  count_entries (entry k v m) = suc (count_entries m)

  -- A value that an element has whose containers nest below `room` levels: no payload, list or map
  -- is over its limit, and integers are int64.
  abbrev mutual
    pub Fits : Value F → ℕ → Type 0
    Fits null room = 1 ≤ room
    Fits (bytes b) room = (1 ≤ room) × (length b ≤ max_tnetstring_element)
    Fits (str s) room = (1 ≤ room) × (length s ≤ max_tnetstring_element)
    Fits (int z) room = (1 ≤ room) × IsInt64 z
    Fits (float x) room = 1 ≤ room
    Fits (bool b) room = 1 ≤ room
    Fits (list vs) room =
        (1 ≤ room) × (count_items vs ≤ max_tnetstring_elements) × FitsItems vs (room - 1)
    Fits (dict m) room =
        (1 ≤ room) × (count_entries m ≤ max_tnetstring_elements) × FitsEntries m (room - 1)

    pub FitsItems : Items F → ℕ → Type 0
    FitsItems nil room = Unit
    FitsItems (cons v vs) room = Fits v room × FitsItems vs room

    pub FitsEntries : Entries F → ℕ → Type 0
    FitsEntries end room = Unit
    FitsEntries (entry k v m) room =
        (1 ≤ room) × (length k ≤ max_tnetstring_element) × Fits v room × FitsEntries m room

  -- `k` comes before every key of a map.
  abbrev pub Before : Bytes → Entries F → Type 0
  Before k end = Unit
  Before k (entry j v m) = (str_lt k j ≡ true) × Before k m

  -- The form in which the decoder returns a value: no string (the encoder writes both kinds of text
  -- alike), and the entries of a map in the order of their keys, each key once.
  abbrev mutual
    pub IsCanonical : Value F → Type 0
    IsCanonical null = Unit
    IsCanonical (bytes b) = Unit
    IsCanonical (str s) = ⊥
    IsCanonical (int z) = Unit
    IsCanonical (float x) = Unit
    IsCanonical (bool b) = Unit
    IsCanonical (list vs) = AreCanonical vs
    IsCanonical (dict m) = IsCanonicalMap m

    pub AreCanonical : Items F → Type 0
    AreCanonical nil = Unit
    AreCanonical (cons v vs) = IsCanonical v × AreCanonical vs

    pub IsCanonicalMap : Entries F → Type 0
    IsCanonicalMap end = Unit
    IsCanonicalMap (entry k v m) = Before k m × IsCanonical v × IsCanonicalMap m
