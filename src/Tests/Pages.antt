-- ===== src/Tests/Pages.antt =====
-- Trees over a small pager, from the empty tree on, and the pages of their roots.
use atomix_db.Prelude.{
  ℕ, ◌+◌, ◌≤◌, ◌<◌, ◌≡◌, refl, List, [], ◌∷◌, true, false, none, some, Run, ok, panic, ◌>>=◌, ◌==◌,
  if◌then◌else◌, length, Ordering, replicate, arith,
}
use atomix_db.Bytes.{Bytes, make_bytes}
use atomix_db.Bytes.Order.{compare_bytes}
use atomix_db.Pager.{Pager}
use mathlib.Core.Logic.{◌≢◌}
use atomix_db.Node.Sorted.{Place}
use atomix_db.Tree.Iterator
use atomix_db.Tree.Iterator.{seek_le, valid, deref}
use atomix_db.Tree.Iterator.AtLeaf.{at_place, seek_le_leaf, next_leaf}
use atomix_db.Node.{BNode, btree_page_size}
use atomix_db.Node.Layout.{Entry}
use atomix_db.Node.Edit.{node_size, leaf_entry}
use atomix_db.Node.Sorted.{find, insert, delete}
use atomix_db.Tree
use atomix_db.Tree.Leaf.{LeafPage, length-make_bytes}
use atomix_db.Tree.Root.{
  IsPair, LeafRoot, insert_leaf, insert_overflow, delete_leaf, delete_missing, insert_first,
}

-- Pages by their numbers.
abbrev pub Pages : Type 0
Pages = List (ℕ × BNode)

unfoldable pub page_of : ℕ → Pages → Run BNode
page_of ptr [] = panic
page_of ptr ((n, page) ∷ pages) =
    let later = page_of ptr pages in if n == ptr then ok page else later

unfoldable pub without : ℕ → Pages → Pages
without ptr [] = []
without ptr ((n, page) ∷ pages) =
    let rest = without ptr pages in if n == ptr then rest else (n, page) ∷ rest

unfoldable pub next : Pages → ℕ
next [] = 1
next ((n, page) ∷ pages) = n + 1

abbrev pub memory : Pager
memory = record {
  State = Pages;
  get = page_of;
  new = λ page pages. ok (next pages, (next pages, page) ∷ pages);
  del = without;
}

abbrev pub k : Bytes
k = 107 ∷ []

abbrev pub m : Bytes
m = 109 ∷ []

abbrev pub v : Bytes
v = 118 ∷ 119 ∷ []

abbrev pub dummy : Entry
dummy = leaf_entry [] []

abbrev pub kv : Entry
kv = leaf_entry k v

pub k-IsPair : IsPair k v
k-IsPair = record { some_key = omega arith; key_fits = omega arith; val_fits = omega arith }

pub m-IsPair : IsPair m v
m-IsPair = record { some_key = omega arith; key_fits = omega arith; val_fits = omega arith }

first :
    (p : BNode) × LeafPage dummy (kv ∷ []) p
    × (length p ≡ btree_page_size)
    × (Tree.insert memory 1 0 k v [] ≡ (memory.new p [] >>= λ done. ok (none, done.0, done.1)))
first = insert_first memory 1 k v [] k-IsPair

pub root_page : BNode
root_page = first.0

pages : Pages
pages = (1, root_page) ∷ []

got_root : memory.get 1 pages ≡ ok root_page
unfolding pages page_of
got_root = refl

pub root_page-LeafPage : LeafPage dummy (kv ∷ []) root_page
unfolding root_page
root_page-LeafPage = first.1

pub length-root_page : length root_page ≡ btree_page_size
unfolding root_page
length-root_page = first.2

one_pair : LeafRoot memory 1 dummy (kv ∷ []) root_page pages
one_pair = record {
  rooted = omega arith;
  got = got_root;
  leaf = root_page-LeafPage;
  one_page = length-root_page;
}

pub size_two : node_size (dummy ∷ insert (leaf_entry m v) (kv ∷ [])) ≤ btree_page_size
unfolding insert compare_bytes
size_two = omega arith

insert_leaf_example :
    (p : BNode) × LeafPage dummy (insert (leaf_entry m v) (kv ∷ [])) p
    × (length p ≡ btree_page_size)
    × (Tree.insert memory 1 1 m v pages
        ≡ (memory.new p (memory.del 1 pages) >>= λ done. ok (none, done.0, done.1)))
insert_leaf_example =
    insert_leaf memory 1 dummy (kv ∷ []) root_page pages one_pair m 0 v m-IsPair size_two

found_k : find k (dummy ∷ kv ∷ []) ≡ some kv
unfolding find compare_bytes
found_k = refl

missing_m : find m (dummy ∷ kv ∷ []) ≡ none
unfolding find compare_bytes
missing_m = refl

delete_leaf_example :
    (p : BNode) × LeafPage dummy (delete k (kv ∷ [])) p
    × (length p ≡ btree_page_size)
    × (Tree.delete memory 1 1 k pages
        ≡ (memory.new p (memory.del 1 pages) >>= λ done. ok (true, done.0, done.1)))
delete_leaf_example =
    delete_leaf memory 1 dummy (kv ∷ []) root_page pages one_pair k 0 (omega arith) (omega arith)
      found_k

delete_missing_example : Tree.delete memory 1 1 m pages ≡ ok (false, 1, pages)
delete_missing_example =
    delete_missing memory 1 dummy (kv ∷ []) root_page pages one_pair m 0 (omega arith) (omega arith)
      missing_m

insert_first_example :
    (p : BNode) × LeafPage dummy (leaf_entry m v ∷ []) p
    × (length p ≡ btree_page_size)
    × (Tree.insert memory 0 0 m v [] ≡ (memory.new p [] >>= λ done. ok (none, done.0, done.1)))
insert_first_example = insert_first memory 0 m v [] m-IsPair

-- A key and a value that fill more of a page than a second pair of their kind leaves.
long_key : Bytes
long_key = make_bytes 1000

long_val : Bytes
long_val = make_bytes 3000

long-IsPair : IsPair long_key long_val
unfolding long_key long_val
long-IsPair = record {
  some_key = omega (arith, length-make_bytes 1000);
  key_fits = omega (arith, length-make_bytes 1000);
  val_fits = omega (arith, length-make_bytes 3000);
}

long_size : length long_key ≡ 1000
unfolding long_key
long_size = length-make_bytes 1000

long_val_size : length long_val ≡ 3000
unfolding long_val
long_val_size = length-make_bytes 3000

full_tree :
    (p : BNode) × LeafPage dummy (leaf_entry long_key long_val ∷ []) p
    × (length p ≡ btree_page_size)
    × (Tree.insert memory 0 0 long_key long_val []
        ≡ (memory.new p [] >>= λ done. ok (none, done.0, done.1)))
full_tree = insert_first memory 0 long_key long_val [] long-IsPair

full_page : BNode
full_page = full_tree.0

full_pages : Pages
full_pages = (1, full_page) ∷ []

got_full : memory.get 1 full_pages ≡ ok full_page
unfolding full_pages page_of
got_full = refl

full_page-LeafPage : LeafPage dummy (leaf_entry long_key long_val ∷ []) full_page
unfolding full_page
full_page-LeafPage = full_tree.1

length-full_page : length full_page ≡ btree_page_size
unfolding full_page
length-full_page = full_tree.2

full_leaf : LeafRoot memory 1 dummy (leaf_entry long_key long_val ∷ []) full_page full_pages
full_leaf = record {
  rooted = omega arith;
  got = got_full;
  leaf = full_page-LeafPage;
  one_page = length-full_page;
}

wide_val : Bytes
wide_val = make_bytes 100

wide_size : length wide_val ≡ 100
unfolding wide_val
wide_size = length-make_bytes 100

wide-IsPair : IsPair k wide_val
wide-IsPair = record {
  some_key = omega arith;
  key_fits = omega arith;
  val_fits = omega (arith, wide_size);
}

long_above : compare_bytes long_key k ≡ Ordering.lt
unfolding long_key make_bytes replicate compare_bytes
long_above = refl

too_large :
    btree_page_size
    < node_size (dummy ∷ insert (leaf_entry k wide_val) (leaf_entry long_key long_val ∷ []))
unfolding insert
too_large = rw long_above (omega (arith, long_size, long_val_size, wide_size))

insert_overflow_example : Tree.insert memory 1 1 k wide_val full_pages ≡ panic
insert_overflow_example =
    insert_overflow memory 1 dummy (leaf_entry long_key long_val ∷ []) full_page full_pages
      full_leaf k 0 wide_val wide-IsPair too_large

k-some : k ≢ []
k-some = λ h. cc

seek_le_leaf_example :
    (idx : ℕ) × (p : Place k (dummy ∷ kv ∷ []) idx) × (seek_le memory 1 1 k pages
      ≡ ok (at_place root_page idx))
    × (valid (at_place root_page idx) ≡ ok true)
    × (deref (at_place root_page idx) ≡ ok (p.entry.key, p.entry.val))
seek_le_leaf_example = seek_le_leaf memory 1 dummy (kv ∷ []) root_page pages one_pair 0 k k-some

next_leaf_example : Iterator.next memory (at_place root_page 0) pages ≡ ok (at_place root_page 1)
next_leaf_example = next_leaf memory 1 dummy (kv ∷ []) root_page pages one_pair 0
