-- ===== src/Prelude/Chains.antt =====
-- What holds of the results of a run, through its tests and its chains of steps.
use mathlib.Core.Path.{◌≡◌, subst}
use mathlib.Core.Bool.{Bool, true, false}
use atomix_db.Prelude.Tests.{if◌then◌else◌}
use atomix_db.Prelude.Outcome.{Run, ok, ◌>>=◌, >>=-ok}

-- What a run returns, if it returns, satisfies `P`.
abbrev pub Returns {a b} : {X : Type a} → (X → Type b) → Run X → Type (a ⊔ b)
Returns P r = (x : _) → r ≡ ok x → P x

module _ {a b} {X : Type a} (P : X → Type b) where
  pub ok-Returns : (x : X) → P x → Returns P (ok x)
  ok-Returns x p y e = subst P same p
    where
      same : x ≡ y
      same = cc

  pub if-Returns :
      (t : Bool) (A B : Run X) → Returns P A → Returns P B → Returns P (if t then A else B)
  if-Returns true A B first second = first
  if-Returns false A B first second = second

  pub bind-Returns {c} :
      {Y : Type c} (r : Run Y) (next : Y → Run X)
      → ((y : Y) → r ≡ ok y → Returns P (next y))
      → Returns P (r >>= next)
  bind-Returns r next h x e = let (y, e₁, e₂) = >>=-ok r next e in h y e₁ x e₂
