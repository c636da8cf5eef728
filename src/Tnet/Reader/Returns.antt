-- ===== src/Tnet/Reader/Returns.antt =====
-- Results that are not `stuck`, with what holds of a value returned.
use vespasian.Prelude.{Bool, true, false, if◌then◌else◌}
use vespasian.Tnet.Reader.{TnetError, Decoded, ok, err, stuck, ◌>>=◌, wrap}

abbrev pub Returns {ℓ κ} : {A : Type ℓ} → (A → Type κ) → Decoded A → Type κ
Returns P (ok a) = P a
Returns P (err e) = Unit
Returns P stuck = Unit → ⊥

pub Returns-bind {ℓ κ μ ν} :
    {A : Type ℓ} {B : Type κ} (P : A → Type μ) (Q : B → Type ν) (m : Decoded A) (f : A → Decoded B)
    → Returns P m
    → ((a : A) → P a → Returns Q (f a))
    → Returns Q (m >>= f)
Returns-bind P Q (ok a) f h k = k a h
Returns-bind P Q (err e) f h k = tt
Returns-bind P Q stuck f h k = absurd (h tt)

pub Returns-wrap {ℓ κ} :
    {A : Type ℓ} (P : A → Type κ) (g : TnetError → TnetError) (m : Decoded A)
    → Returns P m
    → Returns P (wrap g m)
Returns-wrap P g (ok a) h = h
Returns-wrap P g (err e) h = tt
Returns-wrap P g stuck h = absurd (h tt)

pub Returns-weaken {ℓ κ μ} :
    {A : Type ℓ} (P : A → Type κ) (Q : A → Type μ) (m : Decoded A)
    → Returns P m
    → ((a : A) → P a → Q a)
    → Returns Q m
Returns-weaken P Q (ok a) h k = k a h
Returns-weaken P Q (err e) h k = tt
Returns-weaken P Q stuck h k = absurd (h tt)

pub Returns-if {ℓ κ} :
    {A : Type ℓ} (P : A → Type κ) (b : Bool) (m n : Decoded A)
    → Returns P m
    → Returns P n
    → Returns P (if b then m else n)
Returns-if P true m n h k = h
Returns-if P false m n h k = k
