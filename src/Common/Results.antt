-- ===== src/Common/Results.antt =====
-- Python code that may raise: a value, or the exception. `do` blocks read as straight-line code.
use mathlib.Core.Path.{◌≡◌, refl, ap}
use mathlib.Core.Bool.{Bool, true, false}
use mathlib.Core.Option.{Option, none, some}
use aicybersec.Common.Tests.{if◌then◌else◌}

-- The exceptions that the modelled code raises or lets through.
pub data Exn : Type 0 where
  value_error key_error assertion_error unbound_local_error : Exn

pub data Result {ℓ} (Raised : Type 0) (Value : Type ℓ) : Type ℓ where
  err : (raised : Raised) → Result Raised Value
  ok : (value : Value) → Result Raised Value

-- `if c: raise e`
abbrev pub raise_if : {Raised : Type 0} → Bool → Raised → Result Raised (Unit {0})
raise_if b e = elim b [ false ↦ ok tt | true ↦ err e ]

infixl 5 ◌>>=◌
abbrev pub ◌>>=◌ {ℓ κ} :
    {Raised : Type 0} {V : Type ℓ} {W : Type κ}
    → Result Raised V
    → (V → Result Raised W)
    → Result Raised W
err raised >>= next = err raised
ok v >>= next = next v

-- A chain that returns a value has passed its first part.
module _ {ℓ κ} {Raised : Type 0} {V : Type ℓ} {W : Type κ} where
  pub >>=-eq-ok :
      (first : Result Raised V) (next : V → Result Raised W) {w : W}
      → (first >>= next) ≡ ok w
      → (v : V) × (first ≡ ok v) × (next v ≡ ok w)
  >>=-eq-ok (err raised) next h = cc
  >>=-eq-ok (ok v) next h = (v, refl, h)

infixl 5 ◌>>◌
abbrev pub ◌>>◌ {ℓ} :
    {Raised : Type 0} {W : Type ℓ} → Result Raised (Unit {0}) → Result Raised W → Result Raised W
done >> rest = done >>= λ _. rest

-- A chain that returns has passed its guard.
pub passed {ℓ} :
    {Raised : Type 0} {W : Type ℓ} (b : Bool) (raised : Raised) (rest : Result Raised W) (w : W)
    → (raise_if b raised >> rest) ≡ ok w
    → (b ≡ false) × (rest ≡ ok w)
passed true raised rest w h = cc
passed false raised rest w h = (refl, h)

-- The branch of a guarded value that returns.
pub else_ok {ℓ} :
    {Raised : Type 0} {W : Type ℓ} (b : Bool) (raised : Raised) (r : Result Raised W) (w : W)
    → (if b then err raised else r) ≡ ok w
    → (b ≡ false) × (r ≡ ok w)
else_ok true raised r w h = cc
else_ok false raised r w h = (refl, h)

pub else_some {ℓ} :
    {W : Type ℓ} (b : Bool) (r : Option W) (w : W)
    → (if b then none else r) ≡ some w
    → (b ≡ false) × (r ≡ some w)
else_some true r w h = cc
else_some false r w h = (refl, h)

pub then_ok {ℓ} :
    {Raised : Type 0} {W : Type ℓ} (b : Bool) (raised : Raised) (r : Result Raised W) (w : W)
    → (if b then r else err raised) ≡ ok w
    → (b ≡ true) × (r ≡ ok w)
then_ok true raised r w h = (refl, h)
then_ok false raised r w h = cc

abbrev value_or {ℓ} : {Raised : Type 0} {W : Type ℓ} → W → Result Raised W → W
value_or w (err raised) = w
value_or w (ok v) = v

pub ok_inv {ℓ} :
    {Raised : Type 0} {W : Type ℓ} (v w : W) → ◌≡◌ {A = Result Raised W} (ok v) (ok w) → v ≡ w
ok_inv v w h = ap (value_or v) h
