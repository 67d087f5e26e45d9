-- ===== src/Node/Sorted/Maps.antt =====
-- The laws of `find`, `insert` and `delete` on lists of entries.
use atomix_db.Prelude.{
  ℕ, ◌≡◌, refl, sym, ap, ◌∙◌, subst, inl, inr, none, some, List, [], ◌∷◌, ◌++◌, if◌then◌else◌, All,
  arith,
}
use atomix_db.Bytes.{Bytes}
use atomix_db.Bytes.Order.{compare_bytes, equal_bytes}
use atomix_db.Bytes.Order.Laws.{
  Lt, compare-cases, compare_bytes_refl, compare_bytes-flip, compare_bytes-eq, compare_bytes-gt,
}
use atomix_db.Node.Layout.{Entry}
use atomix_db.Node.Sorted.{IsSorted, Place, find, insert, delete, All-Lt-trans}

insert-append :
    (new : Entry) (xs zs : List Entry)
    → All (λ f. Lt f.key new.key) xs
    → insert new (xs ++ zs) ≡ xs ++ insert new zs
unfolding insert
insert-append new [] zs h = refl
insert-append new (x ∷ xs) zs (hx, h) =
    rw (hx, insert) (ap (λ l. x ∷ l) (insert-append new xs zs h))

insert-greater :
    (new : Entry) (ys : List Entry) → All (λ f. Lt new.key f.key) ys → insert new ys ≡ new ∷ ys
unfolding insert
insert-greater new [] h = refl
insert-greater new (y ∷ ys) (hy, h) = rw (compare_bytes-flip new.key y.key hy, insert)

pub find-append :
    (key : Bytes) (xs zs : List Entry)
    → All (λ f. Lt f.key key) xs
    → find key (xs ++ zs) ≡ find key zs
unfolding find
find-append key [] zs h = refl
find-append key (x ∷ xs) zs (hx, h) = rw (hx, find) (find-append key xs zs h)

pub find-greater : (key : Bytes) (ys : List Entry) → All (λ f. Lt key f.key) ys → find key ys ≡ none
unfolding find
find-greater key [] h = refl
find-greater key (y ∷ ys) (hy, h) =
    rw (compare_bytes-flip key y.key hy, find) (find-greater key ys h)

delete-append :
    (key : Bytes) (xs zs : List Entry)
    → All (λ f. Lt f.key key) xs
    → delete key (xs ++ zs) ≡ xs ++ delete key zs
unfolding delete
delete-append key [] zs h = refl
delete-append key (x ∷ xs) zs (hx, h) =
    rw (hx, delete) (ap (λ l. x ∷ l) (delete-append key xs zs h))

delete-greater : (key : Bytes) (ys : List Entry) → All (λ f. Lt key f.key) ys → delete key ys ≡ ys
unfolding delete
delete-greater key [] h = refl
delete-greater key (y ∷ ys) (hy, h) = rw (compare_bytes-flip key y.key hy, delete)

module _ (key : Bytes) (es : List Entry) {n : ℕ} (p : Place key es n) where
  pub find-Place_hit : p.entry.key ≡ key → find key es ≡ some p.entry
  unfolding find
  find-Place_hit same = rw p.split (
      find-append key p.before (p.entry ∷ p.after) p.smaller
      ∙ rw (ap (λ k. compare_bytes k key) same ∙ compare_bytes_refl key, find))

  pub find-Place_miss : Lt p.entry.key key → find key es ≡ none
  unfolding find
  find-Place_miss less = rw p.split (
      find-append key p.before (p.entry ∷ p.after) p.smaller
      ∙ rw (less, find) (find-greater key p.after p.greater))

  pub delete-Place_hit : p.entry.key ≡ key → delete key es ≡ p.before ++ p.after
  unfolding delete
  delete-Place_hit same = rw p.split (
      delete-append key p.before (p.entry ∷ p.after) p.smaller
      ∙ rw (ap (λ k. compare_bytes k key) same ∙ compare_bytes_refl key, delete))

  pub delete-Place_miss : Lt p.entry.key key → delete key es ≡ es
  unfolding delete
  delete-Place_miss less =
      ap (delete key) p.split
      ∙ delete-append key p.before (p.entry ∷ p.after) p.smaller
      ∙ rw (less, delete)
          (ap (λ l. p.before ++ (p.entry ∷ l)) (delete-greater key p.after p.greater))
      ∙ sym p.split

module _ (new : Entry) (es : List Entry) {n : ℕ} (p : Place new.key es n) where
  pub insert-Place_hit : p.entry.key ≡ new.key → insert new es ≡ p.before ++ (new ∷ p.after)
  unfolding insert
  insert-Place_hit same = rw p.split (
      insert-append new p.before (p.entry ∷ p.after) p.smaller
      ∙ rw (ap (λ k. compare_bytes k new.key) same ∙ compare_bytes_refl new.key, insert))

  pub insert-Place_miss :
      Lt p.entry.key new.key → insert new es ≡ p.before ++ (p.entry ∷ new ∷ p.after)
  unfolding insert
  insert-Place_miss less = rw p.split (
      insert-append new p.before (p.entry ∷ p.after) p.smaller
      ∙ rw (less, insert)
          (ap (λ l. p.before ++ (p.entry ∷ l)) (insert-greater new p.after p.greater)))

-- Looking up after an insertion.
pub find-insert :
    (new : Entry) (es : List Entry) (k : Bytes)
    → find k (insert new es) ≡ (if equal_bytes new.key k then some new else find k es)
unfolding find insert equal_bytes
find-insert new [] k = ground arith
find-insert new (e ∷ es) k = ground (
  arith,
  find-insert new es k,
  compare_bytes-eq e.key new.key,
  compare_bytes-eq e.key k,
  compare_bytes-eq new.key k,
  compare_bytes_refl e.key,
  compare_bytes_refl new.key,
)

-- Looking up after a deletion, in a sorted list.
pub find-delete :
    (key : Bytes) (es : List Entry) (k : Bytes)
    → IsSorted es
    → find k (delete key es) ≡ (if equal_bytes key k then none else find k es)
unfolding find delete equal_bytes
find-delete key [] k s = ground arith
find-delete key (e ∷ es) k (below, s) = ground (
  arith,
  find-delete key es k s,
  compare_bytes-eq e.key key,
  compare_bytes-eq e.key k,
  compare_bytes-eq key k,
  compare_bytes_refl e.key,
  compare_bytes_refl key,
  find-greater e.key es below,
  compare_bytes-gt e.key key,
  λ (h : Lt key e.key). find-greater key es (All-Lt-trans key e.key es h below),
)

All-insert {κ} :
    (P : Entry → Type κ) (new : Entry) (es : List Entry) → P new → All P es → All P (insert new es)
unfolding insert
All-insert P new [] hn h = (hn, tt)
All-insert P new (e ∷ es) hn (he, h) = elim (compare-cases e.key new.key) [
  | inl lt ↦ rw (lt, insert) (he, All-insert P new es hn h)
  | inr (inl (eq, same)) ↦ rw (eq, insert) (hn, h)
  | inr (inr gt) ↦ rw (compare_bytes-flip new.key e.key gt, insert) (hn, (he, h))
]

pub IsSorted-insert : (new : Entry) (es : List Entry) → IsSorted es → IsSorted (insert new es)
unfolding insert
IsSorted-insert new [] s = (tt, tt)
IsSorted-insert new (e ∷ es) (below, s) = elim (compare-cases e.key new.key) [
  | inl lt ↦
      rw (lt, insert) (All-insert (λ f. Lt e.key f.key) new es lt below, IsSorted-insert new es s)
  | inr (inl (eq, same)) ↦ rw (eq, insert) (subst (λ k. All (λ f. Lt k f.key) es) same below, s)
  | inr (inr gt) ↦
      rw (compare_bytes-flip new.key e.key gt, insert)
        ((gt, All-Lt-trans new.key e.key es gt below), (below, s))
]

All-delete {κ} :
    (P : Entry → Type κ) (key : Bytes) (es : List Entry) → All P es → All P (delete key es)
unfolding delete
All-delete P key [] h = tt
All-delete P key (e ∷ es) (he, h) = elim (compare-cases e.key key) [
  | inl lt ↦ rw (lt, delete) (he, All-delete P key es h)
  | inr (inl (eq, same)) ↦ rw (eq, delete) h
  | inr (inr gt) ↦ rw (compare_bytes-flip key e.key gt, delete) (he, h)
]

pub IsSorted-delete : (key : Bytes) (es : List Entry) → IsSorted es → IsSorted (delete key es)
unfolding delete
IsSorted-delete key [] s = tt
IsSorted-delete key (e ∷ es) (below, s) = elim (compare-cases e.key key) [
  | inl lt ↦
      rw (lt, delete) (All-delete (λ f. Lt e.key f.key) key es below, IsSorted-delete key es s)
  | inr (inl (eq, same)) ↦ rw (eq, delete) s
  | inr (inr gt) ↦ rw (compare_bytes-flip key e.key gt, delete) (below, s)
]
