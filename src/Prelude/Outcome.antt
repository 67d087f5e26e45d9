-- ===== src/Prelude/Outcome.antt =====
-- What a Go function does: it returns, it panics (an assertion, an index out of range, a nil
-- callback), or, for the loops that recur on fuel, the fuel has run out.
use mathlib.Core.Bool.{Bool, true, false}
use mathlib.Core.Path.{◌≡◌, refl}

pub data Run {ℓ} (A : Type ℓ) : Type ℓ where
  ok : A → Run A
  panic : Run A
  out_of_fuel : Run A

-- `assert` and `assertWithSrc` panic unless the condition holds.
abbrev pub assert : Bool → Run (Unit {0})
assert false = panic
assert true = ok tt

-- What follows runs only behind a step that returns.
infixl 5 ◌>>◌ ◌>>=◌
abbrev pub ◌>>=◌ {a b} : {X : Type a} {Y : Type b} → Run X → (X → Run Y) → Run Y
out_of_fuel >>= next = out_of_fuel
panic >>= next = panic
ok x >>= next = next x

abbrev pub ◌>>◌ {a} : {X : Type a} → Run (Unit {0}) → Run X → Run X
step >> next = step >>= λ _. next

-- What a chain of steps that returns has gone through.
pub >>=-ok {a b} :
    {X : Type a} {Y : Type b} (step : Run X) (next : X → Run Y) {y : Y}
    → (step >>= next) ≡ ok y
    → (x : X) × (step ≡ ok x) × (next x ≡ ok y)
>>=-ok out_of_fuel next h = cc
>>=-ok panic next h = cc
>>=-ok (ok x) next h = (x, refl, h)
