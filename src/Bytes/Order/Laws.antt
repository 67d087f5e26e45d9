-- ===== src/Bytes/Order/Laws.antt =====
-- bytes.Compare is a total order.
use atomix_db.Prelude.{ℕ, ◌≡◌, refl, ◌⊎◌, inl, inr, true, List, [], ◌∷◌, Ordering, arith}
use atomix_db.Bytes.Order.{compare_bytes, equal_bytes}

abbrev pub Lt : List ℕ → List ℕ → Type 0
Lt xs ys = compare_bytes xs ys ≡ Ordering.lt

pub compare_bytes_refl : (xs : List ℕ) → compare_bytes xs xs ≡ Ordering.eq
unfolding compare_bytes
compare_bytes_refl [] = refl
compare_bytes_refl (x ∷ xs) = ground (arith, compare_bytes_refl xs)

pub compare_bytes-eq : (xs ys : List ℕ) → compare_bytes xs ys ≡ Ordering.eq → xs ≡ ys
unfolding compare_bytes
compare_bytes-eq [] [] h = refl
compare_bytes-eq [] (y ∷ ys) h = cc
compare_bytes-eq (x ∷ xs) [] h = cc
compare_bytes-eq (x ∷ xs) (y ∷ ys) h = ground (arith, compare_bytes-eq xs ys)

pub compare_bytes-gt : (xs ys : List ℕ) → compare_bytes xs ys ≡ Ordering.gt → Lt ys xs
unfolding compare_bytes
compare_bytes-gt [] [] h = cc
compare_bytes-gt [] (y ∷ ys) h = cc
compare_bytes-gt (x ∷ xs) [] h = refl
compare_bytes-gt (x ∷ xs) (y ∷ ys) h = ground (arith, compare_bytes-gt xs ys)

pub compare_bytes-flip : (xs ys : List ℕ) → Lt xs ys → compare_bytes ys xs ≡ Ordering.gt
unfolding compare_bytes
compare_bytes-flip [] [] h = cc
compare_bytes-flip [] (y ∷ ys) h = refl
compare_bytes-flip (x ∷ xs) [] h = cc
compare_bytes-flip (x ∷ xs) (y ∷ ys) h = ground (arith, compare_bytes-flip xs ys)

pub Lt-trans : (xs ys zs : List ℕ) → Lt xs ys → Lt ys zs → Lt xs zs
unfolding compare_bytes
Lt-trans [] [] zs h k = cc
Lt-trans [] (y ∷ ys) [] h k = cc
Lt-trans [] (y ∷ ys) (z ∷ zs) h k = refl
Lt-trans (x ∷ xs) [] zs h k = cc
Lt-trans (x ∷ xs) (y ∷ ys) [] h k = cc
Lt-trans (x ∷ xs) (y ∷ ys) (z ∷ zs) h k = ground (arith, Lt-trans xs ys zs)

-- Which of the three cases it is, with what it says of the two.
pub compare-cases :
    (xs ys : List ℕ) → Lt xs ys ⊎ ((compare_bytes xs ys ≡ Ordering.eq) × (xs ≡ ys)) ⊎ Lt ys xs
compare-cases xs ys = ordering (compare_bytes xs ys) refl
  where
    ordering :
        (o : Ordering)
        → compare_bytes xs ys ≡ o
        → Lt xs ys ⊎ ((compare_bytes xs ys ≡ Ordering.eq) × (xs ≡ ys)) ⊎ Lt ys xs
    ordering Ordering.lt e = inl e
    ordering Ordering.eq e = inr (inl (e, compare_bytes-eq xs ys e))
    ordering Ordering.gt e = inr (inr (compare_bytes-gt xs ys e))

pub equal_bytes_refl : (xs : List ℕ) → equal_bytes xs xs ≡ true
unfolding equal_bytes
equal_bytes_refl xs = ground (arith, compare_bytes_refl xs)

pub equal_bytes-eq : (xs ys : List ℕ) → equal_bytes xs ys ≡ true → xs ≡ ys
unfolding equal_bytes
equal_bytes-eq xs ys h = ground (arith, compare_bytes-eq xs ys)
