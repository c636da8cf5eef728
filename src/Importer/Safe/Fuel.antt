-- ===== src/Importer/Safe/Fuel.antt =====
-- Results of the import of pkg/importer/mitmproxy.go that are not out of fuel.
use vespasian.Prelude.{Bool, true, false, ◌≡◌, refl, if◌then◌else◌, Result, ok, err, ◌>>=◌}
use vespasian.Importer.Flows.{ImportError, out_of_fuel}

-- Results that are not `out_of_fuel`, with what holds of a value returned.
abbrev pub InFuel : ImportError → Type 0
InFuel out_of_fuel = ⊥
InFuel _ = Unit

abbrev pub Ends {ℓ} : {A : Type ℓ} → (A → Type 0) → Result ImportError A → Type 0
Ends P (ok a) = P a
Ends P (err e) = InFuel e

pub Ends-bind {ℓ κ} :
    {A : Type ℓ} {B : Type κ} (P : A → Type 0) (Q : B → Type 0) (m : Result ImportError A)
    (f : A → Result ImportError B)
    → Ends P m
    → ((a : A) → P a → Ends Q (f a))
    → Ends Q (m >>= f)
Ends-bind P Q (ok a) f h k = k a h
Ends-bind P Q (err e) f h k = h

pub Ends-if :
    {A : Type 0} (P : A → Type 0) (b : Bool) (m n : Result ImportError A)
    → (b ≡ true → Ends P m)
    → (b ≡ false → Ends P n)
    → Ends P (if b then m else n)
Ends-if P true m n h k = h refl
Ends-if P false m n h k = k refl

-- A step that ends gives its value.
pub Ends-ok : {A : Type 0} (m : Result ImportError A) → Ends (λ a. Unit) m → Ends (λ a. m ≡ ok a) m
Ends-ok (ok a) h = refl
Ends-ok (err e) h = h
