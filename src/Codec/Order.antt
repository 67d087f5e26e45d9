-- ===== src/Codec/Order.antt =====
-- The encoded rows of database/record.go compare like the rows: integers as signed numbers, byte
-- strings in their order, and a row by its first difference.
use atomix_db.Prelude.{
  ℕ, ◌+◌, ◌-◌, ◌<◌, ◌≡◌, refl, sym, ap, ap₂, ◌∙◌, ◌⊎◌, inl, inr, true, false, List, [], ◌∷◌, ◌++◌,
  append-nil, ok, ◌>>=◌, ltb, leb, if◌then◌else◌, append_assoc, All, compare, Ordering, Bool-cases,
  arith,
}
use atomix_db.Bytes.{Bytes, u64}
use atomix_db.Bytes.Order.{compare_bytes}
use atomix_db.Codec.{be, encode_key}
use atomix_db.Codec.BigEndian.{and_then, compare-be, compare-cons}
use atomix_db.Codec.Escape.{escaped, escaped_byte}
use atomix_db.Codec.RoundTrip.{
  Cell, int64, text, IsCell, values_of, cell_bytes, cells_bytes, encode_values_lem,
}

-- `negsuc n` is -(n + 1).
pub data ℤ : Type 0 where
  pos : ℕ → ℤ
  negsuc : ℕ → ℤ

unfoldable pub compare_ℤ : ℤ → ℤ → Ordering
compare_ℤ (pos a) (pos b) = compare a b
compare_ℤ (pos a) (negsuc b) = Ordering.gt
compare_ℤ (negsuc a) (pos b) = Ordering.lt
compare_ℤ (negsuc a) (negsuc b) = compare b a

-- The number that the bit pattern of an int64 stands for.
unfoldable pub signed64 : ℕ → ℤ
signed64 n = if ltb n 9223372036854775808 then pos n else negsuc (18446744073709551616 - n - 1)

unfoldable pub compare_cell : Cell → Cell → Ordering
unfolding compare_ℤ signed64
compare_cell (int64 m) (int64 n) = compare_ℤ (signed64 m) (signed64 n)
compare_cell (text s) (text t) = compare_bytes s t
compare_cell (int64 m) (text t) = Ordering.lt
compare_cell (text s) (int64 n) = Ordering.gt

-- Rows of one table: their cells have the same types.
abbrev pub SameTypes : List Cell → List Cell → Type 0
SameTypes [] [] = Unit
SameTypes (int64 m ∷ cs) (int64 n ∷ ds) = SameTypes cs ds
SameTypes (text s ∷ cs) (text t ∷ ds) = SameTypes cs ds
SameTypes _ _ = ⊥

unfoldable pub compare_cells : List Cell → List Cell → Ordering
compare_cells [] [] = Ordering.eq
compare_cells [] (d ∷ ds) = Ordering.lt
compare_cells (c ∷ cs) [] = Ordering.gt
compare_cells (c ∷ cs) (d ∷ ds) = and_then (compare_cell c d) (compare_cells cs ds)

signed_order :
    (m n : ℕ)
    → m < 18446744073709551616
    → n < 18446744073709551616
    → compare (u64 (m + 9223372036854775808)) (u64 (n + 9223372036854775808))
      ≡ compare_ℤ (signed64 m) (signed64 n)
unfolding compare_ℤ signed64
signed_order m n hm hn = ground arith

and_then_assoc : (a b c : Ordering) → and_then a (and_then b c) ≡ and_then (and_then a b) c
and_then_assoc a b c = ground arith

-- The escaped forms of two bytes.
compare-heads :
    (x y : ℕ) (a b : Bytes)
    → compare_bytes (escaped_byte x ++ a) (escaped_byte y ++ b)
      ≡ and_then (compare x y) (compare_bytes a b)
compare-heads x y a b = elim (Bool-cases (leb x 1)) [
  | inl low ↦ rw low (low_head low (Bool-cases (leb y 1)))
  | inr high ↦ rw high (high_head high (Bool-cases (leb y 1)))
]
  where
    low_head :
        leb x 1 ≡ true
        → (leb y 1 ≡ true) ⊎ (leb y 1 ≡ false)
        → compare_bytes (1 ∷ (x + 1) ∷ a) (escaped_byte y ++ b)
          ≡ and_then (compare x y) (compare_bytes a b)
    low_head low (inl low') =
        rw low' (compare-cons 1 1 _ _ ∙ compare-cons (x + 1) (y + 1) a b ∙ ground arith)
    low_head low (inr high') = rw high' (compare-cons 1 y ((x + 1) ∷ a) b ∙ ground arith)

    high_head :
        leb x 1 ≡ false
        → (leb y 1 ≡ true) ⊎ (leb y 1 ≡ false)
        → compare_bytes (x ∷ a) (escaped_byte y ++ b) ≡ and_then (compare x y) (compare_bytes a b)
    high_head high (inl low') = rw low' (compare-cons x 1 a ((y + 1) ∷ b) ∙ ground arith)
    high_head high (inr high') = rw high' (compare-cons x y a b)

-- The escaped forms of two strings, each behind a terminator, compare like the strings.
compare-escaped :
    (s t r r' : Bytes)
    → compare_bytes (escaped s ++ (0 ∷ r)) (escaped t ++ (0 ∷ r'))
      ≡ and_then (compare_bytes s t) (compare_bytes r r')
unfolding escaped
compare-escaped [] [] r r' = compare-cons 0 0 r r' ∙ unfold compare_bytes in refl
compare-escaped [] (y ∷ t) r r' = elim (Bool-cases (leb y 1)) [
  | inl low ↦ rw low (unfold compare_bytes in refl)
  | inr high ↦ rw high (unfold compare_bytes in ground arith)
]
compare-escaped (x ∷ s) [] r r' = elim (Bool-cases (leb x 1)) [
  | inl low ↦ rw low (unfold compare_bytes in refl)
  | inr high ↦ rw high (unfold compare_bytes in ground arith)
]
compare-escaped (x ∷ s) (y ∷ t) r r' =
    ap₂ compare_bytes (append_assoc (escaped_byte x) (escaped s) (0 ∷ r))
      (append_assoc (escaped_byte y) (escaped t) (0 ∷ r'))
    ∙ compare-heads x y (escaped s ++ (0 ∷ r)) (escaped t ++ (0 ∷ r'))
    ∙ ap (and_then (compare x y)) (compare-escaped s t r r')
    ∙ and_then_assoc (compare x y) (compare_bytes s t) (compare_bytes r r')
    ∙ ap (λ o. and_then o (compare_bytes r r')) (sym (compare-cons x y s t))

compare-cell_bytes :
    (c d : Cell) (r r' : Bytes)
    → IsCell c
    → IsCell d
    → SameTypes (c ∷ []) (d ∷ [])
    → compare_bytes (cell_bytes c ++ r) (cell_bytes d ++ r')
      ≡ and_then (compare_cell c d) (compare_bytes r r')
unfolding cell_bytes compare_cell
compare-cell_bytes (int64 m) (int64 n) r r' hm hn same =
    compare-be 8 (u64 (m + 9223372036854775808)) (u64 (n + 9223372036854775808)) r r' (omega arith)
      (omega arith)
    ∙ ap (λ o. and_then o (compare_bytes r r')) (signed_order m n hm hn)
compare-cell_bytes (text s) (text t) r r' hs ht same =
    ap₂ compare_bytes (append_assoc (escaped s) (0 ∷ []) r) (append_assoc (escaped t) (0 ∷ []) r')
    ∙ compare-escaped s t r r'
compare-cell_bytes (int64 m) (text t) r r' hm ht same = absurd same
compare-cell_bytes (text s) (int64 n) r r' hs hn same = absurd same

SameTypes-head :
    (c d : Cell) (cs ds : List Cell) → SameTypes (c ∷ cs) (d ∷ ds) → SameTypes (c ∷ []) (d ∷ [])
SameTypes-head (int64 m) (int64 n) cs ds h = tt
SameTypes-head (text s) (text t) cs ds h = tt
SameTypes-head (int64 m) (text t) cs ds h = absurd h
SameTypes-head (text s) (int64 n) cs ds h = absurd h

SameTypes-tail : (c d : Cell) (cs ds : List Cell) → SameTypes (c ∷ cs) (d ∷ ds) → SameTypes cs ds
SameTypes-tail (int64 m) (int64 n) cs ds h = h
SameTypes-tail (text s) (text t) cs ds h = h
SameTypes-tail (int64 m) (text t) cs ds h = absurd h
SameTypes-tail (text s) (int64 n) cs ds h = absurd h

-- Encoded rows of one table compare like the rows; behind equal rows what follows decides.
pub compare-cells_bytes :
    (cs ds : List Cell) (r r' : Bytes)
    → All IsCell cs
    → All IsCell ds
    → SameTypes cs ds
    → compare_bytes (cells_bytes cs ++ r) (cells_bytes ds ++ r')
      ≡ and_then (compare_cells cs ds) (compare_bytes r r')
unfolding cells_bytes compare_cells
compare-cells_bytes [] [] r r' hc hd same = refl
compare-cells_bytes [] (d ∷ ds) r r' hc hd same = absurd same
compare-cells_bytes (int64 m ∷ cs) [] r r' hc hd same = absurd same
compare-cells_bytes (text s ∷ cs) [] r r' hc hd same = absurd same
compare-cells_bytes (c ∷ cs) (d ∷ ds) r r' (hc, hcs) (hd, hds) same =
    ap₂ compare_bytes (append_assoc (cell_bytes c) (cells_bytes cs) r)
      (append_assoc (cell_bytes d) (cells_bytes ds) r')
    ∙ compare-cell_bytes c d (cells_bytes cs ++ r) (cells_bytes ds ++ r') hc hd
        (SameTypes-head c d cs ds same)
    ∙ ap (and_then (compare_cell c d))
        (compare-cells_bytes cs ds r r' hcs hds (SameTypes-tail c d cs ds same))
    ∙ and_then_assoc (compare_cell c d) (compare_cells cs ds) (compare_bytes r r')

same_prefix : (n : ℕ) (o : Ordering) → and_then (compare n n) o ≡ o
same_prefix n o = ground arith

and_then_eq : (o : Ordering) → and_then o Ordering.eq ≡ o
and_then_eq o = ground arith

-- The keys that `encodeKey` makes of two rows of one table, under one prefix below 2 ^ 32, compare
-- like the rows. The int64 cells fit 64 bits and no byte string begins with 0xfe or 0xff.
pub encode_key-order :
    (prefix : ℕ) (cs ds : List Cell)
    → prefix < 4294967296
    → All IsCell cs
    → All IsCell ds
    → SameTypes cs ds
    → (encode_key [] prefix (values_of cs) >>= λ a.
        (encode_key [] prefix (values_of ds) >>= λ b. ok (compare_bytes a b)))
      ≡ ok (compare_cells cs ds)
unfolding encode_key
encode_key-order prefix cs ds small hc hd same =
    let head = be 4 prefix in
    let nothing : compare_bytes [] [] ≡ Ordering.eq = unfold compare_bytes in refl in
    let by_head =
      compare-be 4 prefix prefix (cells_bytes cs) (cells_bytes ds) (omega arith) (omega arith) in
    let by_cells =
      ap₂ compare_bytes (sym (append-nil (cells_bytes cs))) (sym (append-nil (cells_bytes ds)))
      ∙ compare-cells_bytes cs ds [] [] hc hd same
      ∙ ap (and_then (compare_cells cs ds)) nothing
      ∙ and_then_eq (compare_cells cs ds) in
    rw (encode_values_lem head cs hc, encode_values_lem head ds hd)
      (ap ok
        (by_head ∙ same_prefix prefix (compare_bytes (cells_bytes cs) (cells_bytes ds)) ∙ by_cells))
