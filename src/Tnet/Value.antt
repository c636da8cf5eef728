-- ===== src/Tnet/Value.antt =====
-- The Go values that a tnetstring holds, and maps with byte keys.
use vespasian.Prelude.{Bool, Bytes}
use vespasian.Prelude.Int.{ℤ}

-- `any`, as far as the encoder takes it and the decoder returns it; `int` and `int64` are one. `F` is
-- float64, which the language of this model does not have.
mutual
  pub data Value (F : Type 0) : Type 0 where
    null : Value F
    bytes : Bytes → Value F
    str : Bytes → Value F
    int : ℤ → Value F
    float : F → Value F
    bool : Bool → Value F
    list : Items F → Value F
    dict : Entries F → Value F

  -- `[]any`
  pub data Items (F : Type 0) : Type 0 where
    nil : Items F
    cons : Value F → Items F → Items F

  -- `map[string]any`, as its entries in some order.
  pub data Entries (F : Type 0) : Type 0 where
    end : Entries F
    entry : Bytes → Value F → Entries F → Entries F
