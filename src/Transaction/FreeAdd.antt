-- ===== src/Transaction/FreeAdd.antt =====
-- `FreeList.Add` of database/free_list.go, with flPush, where the free list is empty.
use atomix_db.Prelude.{
  ℕ, zero, suc, ◌+◌, ◌*◌, ◌<◌, ◌≤◌, ◌≡◌, refl, ap, ◌∙◌, false, some, List, [], ◌∷◌, ◌++◌, Run, ok,
  le→leb, ltb, if◌then◌else◌, length, take, drop, take_all, length-append, length-take, length-drop,
  ==_iff, ne→==_false, arith,
}
use atomix_db.Bytes.{Bytes, make_bytes, le16, le64, overwrite, put_uint16, put_uint64}
use atomix_db.Node.{BNode, btree_page_size}
use atomix_db.FreeList.{free_list_header, fln_set_ptr, fln_set_header, fln_set_total, total_from}
use atomix_db.Tree.Leaf.{length-make_bytes}
use atomix_db.Transaction.{
  Updates, update_at, put_update, Writer, page_get, page_append, with_updates,
}
use atomix_db.Transaction.Puts.{update_at-put_update}
use atomix_db.Transaction.Commit.{free_list_cap, set_ptrs, fl_push, write_back, free_add}
use atomix_db.Transaction.Outcome.{n_pages, drop_all}

-- A write of an integer inside a page succeeds and keeps its size.
abbrev SameSize : Bytes → Run Bytes → Type 0
SameSize b run = (b' : Bytes) × (run ≡ ok b') × (length b' ≡ length b)

length-overwrite :
    (b src : Bytes) (pos : ℕ)
    → pos + length src ≤ length b
    → length (overwrite b pos src) ≡ length b
unfolding overwrite
length-overwrite b src pos h = omega (
  arith,
  length-append (take pos b) (src ++ drop (pos + length src) b),
  length-append src (drop (pos + length src) b),
  length-take pos b,
  length-drop (pos + length src) b,
)

put_uint16-SameSize : (b : Bytes) (pos v : ℕ) → pos + 2 ≤ length b → SameSize b (put_uint16 b pos v)
unfolding put_uint16
put_uint16-SameSize b pos v h = (
  overwrite b pos (le16 v),
  rw (le→leb (pos + 2) (length b) h) refl,
  length-overwrite b (le16 v) pos h,
)

put_uint64-SameSize : (b : Bytes) (pos v : ℕ) → pos + 8 ≤ length b → SameSize b (put_uint64 b pos v)
unfolding put_uint64
put_uint64-SameSize b pos v h = (
  overwrite b pos (le64 v),
  rw (le→leb (pos + 8) (length b) h) refl,
  length-overwrite b (le64 v) pos h,
)

header-SameSize :
    (b : Bytes) (size following : ℕ)
    → length b ≡ btree_page_size
    → SameSize b (fln_set_header b size following)
unfolding fln_set_header
header-SameSize b size following h =
    let (b₁, e₁, l₁) = put_uint16-SameSize b 2 size (omega (arith, h)) in
    let (b₂, e₂, l₂) = put_uint64-SameSize b₁ 12 following (omega (arith, l₁, h)) in
    (b₂, rw (e₁, e₂) refl, l₂ ∙ l₁)

set_ptrs-SameSize :
    (b : Bytes) (i : ℕ) (ptrs : List ℕ)
    → free_list_header + (i + length ptrs) * 8 ≤ length b
    → SameSize b (set_ptrs b i ptrs)
unfolding set_ptrs fln_set_ptr
set_ptrs-SameSize b i [] h = (b, refl, refl)
set_ptrs-SameSize b i (ptr ∷ ptrs) h =
    let (b₁, e₁, l₁) = put_uint64-SameSize b (free_list_header + i * 8) ptr (omega arith) in
    let (b₂, e₂, l₂) = set_ptrs-SameSize b₁ (i + 1) ptrs (omega (arith, l₁)) in
    (b₂, rw e₁ e₂, l₂ ∙ l₁)

-- A transaction whose free list is empty, with the pages that it freed in one node of the list.
abbrev pub listed : BNode → BNode → Writer → Writer
listed first node w = record w {
  tx = record w.tx {
    free = record w.tx.free { head = n_pages w };
    nappend = w.tx.nappend + 1;
    updates = put_update (n_pages w) (some node) (put_update (n_pages w) (some first) w.tx.updates);
  };
}

total_from_empty : (get : ℕ → Run BNode) (walk : ℕ) → total_from get walk 0 0 ≡ ok 0
unfolding total_from
total_from_empty get zero = refl
total_from_empty get (suc walk) = refl

-- A page that is written over reads as what is written.
page_get_put :
    (ptr : ℕ) (page : BNode) (w : Writer) (updates : Updates)
    → w.tx.updates ≡ put_update ptr (some page) updates
    → (update_at ptr w.tx.updates ≡ some (some page)) × (page_get ptr w ≡ ok page)
unfolding page_get
page_get_put ptr page w updates e =
    let stored : update_at ptr w.tx.updates ≡ some (some page) =
      ap (update_at ptr) e
      ∙ update_at-put_update ptr ptr (some page) updates
      ∙ rw ((==_iff ptr ptr).1 refl) refl in
    (stored, rw (page_get, stored) refl)

-- The same before the total is written to the node.
abbrev pushed : BNode → Writer → Writer
pushed node w = record w {
  tx = record w.tx {
    free = record w.tx.free { head = n_pages w };
    nappend = w.tx.nappend + 1;
    updates = put_update (n_pages w) (some node) w.tx.updates;
  };
}

fl_push_lem :
    (ptr : ℕ) (freed : List ℕ) (w : Writer)
    → length (ptr ∷ freed) ≤ free_list_cap
    → (node : BNode) × (fl_push (length (ptr ∷ freed)) (ptr ∷ freed) w ≡ ok (pushed node w))
      × (length node ≡ btree_page_size)
unfolding fl_push page_append
fl_push_lem ptr freed w fits =
    let size = length (ptr ∷ freed) in
    let (n₁, e₁, l₁) =
      header-SameSize (make_bytes 4096) size w.tx.free.head (length-make_bytes 4096) in
    let (n₂, e₂, l₂) =
      set_ptrs-SameSize n₁ 0 (ptr ∷ freed) (omega (arith, l₁, length-make_bytes 4096)) in
    let all : (if ltb free_list_cap size then free_list_cap else size) ≡ size =
      rw (not_more free_list_cap size fits) refl in
    let whole : length n₂ ≡ btree_page_size = l₂ ∙ l₁ ∙ length-make_bytes 4096 in
    (
      n₂,
      rw
          (
            all,
            e₁,
            take_all (length freed) freed (omega arith),
            e₂,
            le→leb (length n₂) btree_page_size (omega (arith, whole)),
            drop_all (length freed) freed (omega arith),
          )
          refl,
      whole,
    )
  where
    not_more : (a b : ℕ) → b ≤ a → ltb a b ≡ false
    not_more a b h = ground arith

write_back_lem :
    (ptr : ℕ) (old page : BNode) (w : Writer)
    → update_at ptr w.tx.updates ≡ some (some old)
    → write_back ptr page w ≡ ok (with_updates w (put_update ptr (some page) w.tx.updates))
unfolding write_back
write_back_lem ptr old page w e = rw (write_back, e) refl

pub free_add_lem :
    (walk : ℕ) (ptr : ℕ) (freed : List ℕ) (w : Writer)
    → w.tx.free.head ≡ 0
    → 0 < n_pages w
    → length (ptr ∷ freed) ≤ free_list_cap
    → (first : BNode) × (node : BNode) × (free_add walk (ptr ∷ freed) w ≡ ok (listed first node w))
      × (length first ≡ btree_page_size)
      × (length node ≡ btree_page_size)
unfolding free_add fln_set_total
free_add_lem walk ptr freed w none_free used fits =
    let (n, pushes, whole) = fl_push_lem ptr freed w fits in
    let (n', sets, same) =
      put_uint64-SameSize n 4 (0 + length (ptr ∷ freed)) (omega (arith, whole)) in
    let (stored, read) = page_get_put (n_pages w) n (pushed n w) w.tx.updates refl in
    let none_counted : total_from (λ m. page_get m w) walk w.tx.free.head 0 ≡ ok 0 =
      ap (λ head. total_from (λ m. page_get m w) walk head 0) none_free
      ∙ total_from_empty (λ m. page_get m w) walk in
    (
      n,
      n',
      rw
          (
            none_counted,
            pushes,
            ne→==_false (n_pages w) 0 (λ e. absurd (omega (arith, e))),
            read,
            sets,
            write_back_lem (n_pages w) n n' (pushed n w) stored,
          )
          refl,
      whole,
      same ∙ whole,
    )
