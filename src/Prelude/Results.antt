-- ===== src/Prelude/Results.antt =====
-- `Result<T, E>` with `?` as bind.
use mathlib.Core.Path.{◌≡◌, refl}
use mathlib.Core.Bool.{Bool, true, false}

pub data Result {ℓ κ} (E : Type κ) (A : Type ℓ) : Type (ℓ ⊔ κ) where
  ok : A → Result E A
  err : E → Result E A

infixl 5 ◌>>=◌ ◌>>◌
-- `?` on the first, then the rest of the function.
abbrev pub ◌>>=◌ {ε α β} :
    {Fault : Type ε} {X : Type α} {Y : Type β}
    → Result Fault X
    → (X → Result Fault Y)
    → Result Fault Y
err fault >>= next = err fault
ok x >>= next = next x

abbrev pub ◌>>◌ {ε β} :
    {Fault : Type ε} {Y : Type β} → Result Fault (Unit {0}) → Result Fault Y → Result Fault Y
check >> next = check >>= (λ done. next)

-- `if !test { return Err(e) }`
abbrev pub guard {ε} : {Fault : Type ε} → Bool → Fault → Result Fault (Unit {0})
guard false fault = err fault
guard true fault = ok tt

abbrev pub map_err {ε ζ α} :
    {E : Type ε} {F : Type ζ} {X : Type α} → (E → F) → Result E X → Result F X
map_err f (err e) = err (f e)
map_err f (ok x) = ok x

-- What a chain that succeeds has passed through.
pub >>=-eq-ok {ε α β} :
    {Fault : Type ε} {X : Type α} {Y : Type β} (first : Result Fault X) (next : X → Result Fault Y)
    {y : Y}
    → (first >>= next) ≡ ok y
    → (x : X) × (first ≡ ok x) × (next x ≡ ok y)
>>=-eq-ok (err fault) next h = cc
>>=-eq-ok (ok x) next h = (x, refl, h)
