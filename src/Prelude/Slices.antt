-- ===== src/Prelude/Slices.antt =====
-- Go slices of any type as lists: an index out of range panics.
use Prim.Native.Nat.{ℕ, zero, suc}
use mathlib.Core.List.{List, [], ◌∷◌}
use atomix_db.Prelude.Outcome.{Run, ok, panic, ◌>>=◌}

-- s[i]
unfoldable pub at {ℓ} : {A : Type ℓ} → List A → ℕ → Run A
at [] i = panic
at (x ∷ xs) zero = ok x
at (x ∷ xs) (suc i) = at xs i

-- s[i] = v
unfoldable pub put_at {ℓ} : {A : Type ℓ} → List A → ℕ → A → Run (List A)
put_at [] i v = panic
put_at (x ∷ xs) zero v = ok (v ∷ xs)
put_at (x ∷ xs) (suc i) v = put_at xs i v >>= λ rest. ok (x ∷ rest)
