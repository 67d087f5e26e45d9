-- ===== src/Bytes/Order.antt =====
-- bytes.Compare and bytes.Equal of the Go library, over byte slices as lists.
pub mod Laws
use atomix_db.Prelude.{ℕ, Bool, true, false, List, [], ◌∷◌, compare, Ordering}

unfoldable pub compare_bytes : List ℕ → List ℕ → Ordering
compare_bytes [] [] = Ordering.eq
compare_bytes [] (y ∷ ys) = Ordering.lt
compare_bytes (x ∷ xs) [] = Ordering.gt
compare_bytes (x ∷ xs) (y ∷ ys) =
    let rest = compare_bytes xs ys in
    elim (compare x y) [
      | Ordering.lt ↦ Ordering.lt
      | Ordering.eq ↦ rest
      | Ordering.gt ↦ Ordering.gt
    ]

unfoldable pub equal_bytes : List ℕ → List ℕ → Bool
equal_bytes xs ys = elim (compare_bytes xs ys) [ Ordering.eq ↦ true | _ ↦ false ]
