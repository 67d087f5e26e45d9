-- ===== src/Codec/BigEndian.antt =====
-- Numbers in big-endian bytes, as database/record.go writes them with encoding/binary.
use atomix_db.Prelude.{
  ℕ, zero, suc, ◌+◌, ◌*◌, ◌/◌, ◌%◌, ◌^◌, ◌<◌, ◌≡◌, refl, ap, ◌∙◌, subst, [], ◌∷◌, ◌++◌, ok, ◌>>=◌,
  length, length-append, append_assoc, compare, Ordering, arith,
}
use native.Mathlib.Nat.{pow-suc}
use atomix_db.Bytes.{Bytes}
use atomix_db.Bytes.Order.{compare_bytes}
use atomix_db.Codec.{be, read_be}

-- The first order decides; the second where it does not.
abbrev pub and_then : Ordering → Ordering → Ordering
and_then Ordering.lt o = Ordering.lt
and_then Ordering.eq o = o
and_then Ordering.gt o = Ordering.gt

pub length-be : (k u : ℕ) → length (be k u) ≡ k
unfolding be
length-be zero u = refl
length-be (suc k) u =
    omega (arith, length-append (be k (u / 256)) ((u % 256) ∷ []), length-be k (u / 256))

read_be-snoc :
    (xs : Bytes) (acc x : ℕ) (r r' : Bytes)
    → read_be (suc (length xs)) acc (xs ++ (x ∷ r))
      ≡ (read_be (length xs) acc (xs ++ r') >>= λ a. ok (a * 256 + x))
unfolding read_be
read_be-snoc [] acc x r r' = refl
read_be-snoc (y ∷ xs) acc x r r' = read_be-snoc xs (acc * 256 + y) x r r'

div_fits : (k u : ℕ) → u < 256 ^ suc k → u / 256 < 256 ^ k
div_fits k u h = omega (arith, pow-suc 256 k)

-- Reading back the k bytes of a number below 256 ^ k, whatever follows.
pub read_be-be : (k u : ℕ) (r : Bytes) → u < 256 ^ k → read_be k 0 (be k u ++ r) ≡ ok u
unfolding be
read_be-be zero u r h = unfold read_be in ap ok (omega arith)
read_be-be (suc k) u r h =
    let xs = be k (u / 256) in
    let len = length-be k (u / 256) in
    let snoc : read_be (suc k) 0 (xs ++ ((u % 256) ∷ r))
        ≡ (read_be k 0 (xs ++ r) >>= λ a. ok (a * 256 + u % 256)) =
      subst
        (λ n.
          read_be (suc n) 0 (xs ++ ((u % 256) ∷ r))
          ≡ (read_be n 0 (xs ++ r) >>= λ a. ok (a * 256 + u % 256)))
        len (read_be-snoc xs 0 (u % 256) r r) in
    ap (read_be (suc k) 0) (append_assoc xs ((u % 256) ∷ []) r)
    ∙ snoc
    ∙ rw (read_be-be k (u / 256) r (div_fits k u h)) (ap ok (omega arith))

by_digits :
    (u w : ℕ) (o : Ordering)
    → and_then (compare (u / 256) (w / 256)) (and_then (compare (u % 256) (w % 256)) o)
      ≡ and_then (compare u w) o
by_digits u w o = ground arith

pub compare-cons :
    (x y : ℕ) (r r' : Bytes)
    → compare_bytes (x ∷ r) (y ∷ r') ≡ and_then (compare x y) (compare_bytes r r')
unfolding compare_bytes
compare-cons x y r r' = ground arith

-- Big-endian bytes compare like the numbers; behind equal numbers the rest decides.
pub compare-be :
    (k u w : ℕ) (r r' : Bytes)
    → u < 256 ^ k
    → w < 256 ^ k
    → compare_bytes (be k u ++ r) (be k w ++ r') ≡ and_then (compare u w) (compare_bytes r r')
unfolding be
compare-be zero u w r r' hu hw =
    let zero_u : u ≡ 0 = omega arith in let zero_w : w ≡ 0 = omega arith in rw (zero_u, zero_w) refl
compare-be (suc k) u w r r' hu hw =
    let ih =
      compare-be k (u / 256) (w / 256) ((u % 256) ∷ r) ((w % 256) ∷ r') (div_fits k u hu)
        (div_fits k w hw) in
    rw
      (
        append_assoc (be k (u / 256)) ((u % 256) ∷ []) r,
        append_assoc (be k (w / 256)) ((w % 256) ∷ []) r',
      )
      (ih
        ∙ ap (and_then (compare (u / 256) (w / 256))) (compare-cons (u % 256) (w % 256) r r')
        ∙ by_digits u w (compare_bytes r r'))
