-- ===== src/Node/Sorted/Segments.antt =====
-- A sorted list cut into segments: each part is sorted, and a key is found in the one segment that
-- can hold it.
use atomix_db.Prelude.{
  ◌≡◌, refl, ◌∙◌, inl, inr, List, [], ◌∷◌, ◌++◌, All, All-append_left, All-append_right,
}
use atomix_db.Bytes.{Bytes}
use atomix_db.Bytes.Order.Laws.{Lt, compare-cases, compare_bytes-flip}
use atomix_db.Node.Layout.{Entry}
use atomix_db.Node.Sorted.{IsSorted, AtMost, find, Lt-AtMost-trans}
use atomix_db.Node.Sorted.Maps.{find-append, find-greater}

pub IsSorted-append_left : (xs ys : List Entry) → IsSorted (xs ++ ys) → IsSorted xs
IsSorted-append_left [] ys s = tt
IsSorted-append_left (x ∷ xs) ys (h, s) = (All-append_left _ xs ys h, IsSorted-append_left xs ys s)

pub IsSorted-append_right : (xs ys : List Entry) → IsSorted (xs ++ ys) → IsSorted ys
IsSorted-append_right [] ys s = s
IsSorted-append_right (x ∷ xs) ys (h, s) = IsSorted-append_right xs ys s

-- What stands before an entry is smaller.
pub IsSorted-before :
    (xs : List Entry) (f : Entry) (ys : List Entry)
    → IsSorted (xs ++ (f ∷ ys))
    → All (λ e. Lt e.key f.key) xs
IsSorted-before [] f ys s = tt
IsSorted-before (x ∷ xs) f ys (h, s) =
    ((All-append_right _ xs (f ∷ ys) h).0, IsSorted-before xs f ys s)

pub All-Lt-AtMost :
    (k key : Bytes) (es : List Entry)
    → All (λ f. Lt f.key k) es
    → AtMost k key
    → All (λ f. Lt f.key key) es
All-Lt-AtMost k key [] h low = tt
All-Lt-AtMost k key (e ∷ es) (he, hs) low =
    (Lt-AtMost-trans e.key k key he low, All-Lt-AtMost k key es hs low)

-- Greater entries behind a list change no lookup in it.
pub find-append_greater :
    (key : Bytes) (xs ys : List Entry)
    → All (λ f. Lt key f.key) ys
    → find key (xs ++ ys) ≡ find key xs
unfolding find
find-append_greater key [] ys h = find-greater key ys h
find-append_greater key (x ∷ xs) ys h = elim (compare-cases x.key key) [
  | inl lt ↦ rw (lt, find) (find-append_greater key xs ys h)
  | inr (inl (eq, same)) ↦ rw (eq, find) refl
  | inr (inr gt) ↦ rw (compare_bytes-flip key x.key gt, find) (find-append_greater key xs ys h)
]

-- The key is at least the first of the middle segment and smaller than all behind it.
pub find_segment :
    (key : Bytes) (xs : List Entry) (f : Entry) (fs ys : List Entry)
    → IsSorted (xs ++ ((f ∷ fs) ++ ys))
    → AtMost f.key key
    → All (λ e. Lt key e.key) ys
    → find key (xs ++ ((f ∷ fs) ++ ys)) ≡ find key (f ∷ fs)
find_segment key xs f fs ys s low high =
    find-append key xs ((f ∷ fs) ++ ys)
      (All-Lt-AtMost f.key key xs (IsSorted-before xs f (fs ++ ys) s) low)
    ∙ find-append_greater key (f ∷ fs) ys high
