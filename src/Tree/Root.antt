-- ===== src/Tree/Root.antt =====
-- `Insert`, `Get` and `Delete` of database/b_tree.go on a tree whose root is a leaf.
use atomix_db.Prelude.{
  ℕ, suc, ◌≤◌, ◌<◌, ◌≡◌, refl, subst, inl, inr, true, false, ◌||◌, none, some, List, [], ◌∷◌, ok,
  panic, ◌>>=◌, if◌then◌else◌, ltb, leb, ◌==◌, ne→==_false, length, Bool-cases, arith,
}
use mathlib.Core.Logic.{◌≢◌}
use mathlib.Core.Option
use atomix_db.Bytes.{Bytes, make_bytes}
use atomix_db.Bytes.Order.{equal_bytes}
use atomix_db.Bytes.Order.Laws.{compare-cases, compare_bytes-flip}
use atomix_db.Pager.{Pager}
use atomix_db.Node.{BNode, btree_page_size, btree_max_key_size, btree_max_val_size, bnode_leaf}
use atomix_db.Node.Layout.{Entry}
use atomix_db.Node.Read.{b_node_type_lem, n_keys_lem}
use atomix_db.Node.Append.{Writes, set_header_lem}
use atomix_db.Node.Append.Extend.{append_kv_lem}
use atomix_db.Node.Edit.{node_size, node_size-IsNode, leaf_entry}
use atomix_db.Node.Lookup.{count_le}
use atomix_db.Node.Sorted.{IsSorted, find, insert, delete}
use atomix_db.Node.Sorted.Maps.{IsSorted-insert, IsSorted-delete}
use atomix_db.Node.Split.{node_split3_fits, node_split3_panics}
use atomix_db.Tree
use atomix_db.Tree.{
  TreeError, leaf_put, leaf_remove, first_root, tree_insert, grow_root, insert_root, get_loop,
  get_value, tree_delete, shrink_root,
}
use atomix_db.Tree.Leaf.{
  LeafPage, key-AtMost, length-make_bytes, node_size-insert, lookup_place, leaf_put_lem, leaf_found,
  leaf_remove_hit, leaf_remove_miss,
}

-- The sizes of keys and values that the tree takes.
pub record IsPair (key val : Bytes) : Type 0 where
  pub some_key : 0 < length key
  pub key_fits : length key ≤ btree_max_key_size
  pub val_fits : length val ≤ btree_max_val_size

pub key-ne-nil : (key : Bytes) → 0 < length key → key ≢ []
key-ne-nil [] h = absurd (omega arith)
key-ne-nil (x ∷ key) h = λ e. cc

insert_some : (e : Entry) (es : List Entry) → insert e es ≢ []
unfolding insert
insert_some e [] = λ h. cc
insert_some e (x ∷ es) = elim (compare-cases x.key e.key) [
  | inl lt ↦ rw (lt, insert) (λ h. cc)
  | inr (inl (eq, same)) ↦ rw (eq, insert) (λ h. cc)
  | inr (inr gt) ↦ rw (compare_bytes-flip e.key x.key gt, insert) (λ h. cc)
]

some_entries : (d : Entry) (es : List Entry) → es ≢ [] → 2 ≤ length (d ∷ es)
some_entries d [] h = absurd (h refl)
some_entries d (e ∷ es) h = omega arith

-- The dummy stays in front of what is inserted.
pub insert_dummy :
    (d e : Entry) (es : List Entry) → d.key ≡ [] → e.key ≢ [] → insert e (d ∷ es) ≡ d ∷ insert e es
unfolding insert
insert_dummy d e es dummy some_key = rw (key-AtMost d e.key dummy some_key, insert)

delete_dummy :
    (d : Entry) (key : Bytes) (es : List Entry)
    → d.key ≡ []
    → key ≢ []
    → delete key (d ∷ es) ≡ d ∷ delete key es
unfolding delete
delete_dummy d key es dummy some_key = rw (key-AtMost d key dummy some_key, delete)

pub key_tests :
    (key : Bytes)
    → 0 < length key
    → length key ≤ btree_max_key_size
    → ((length key == 0) || ltb btree_max_key_size (length key)) ≡ false
key_tests key a b = ground arith

val_test :
    (val : Bytes) → length val ≤ btree_max_val_size → ltb btree_max_val_size (length val) ≡ false
val_test val b = ground arith

module _ (pager : Pager) where
  open pager use {State, get, new, del}

  -- A tree whose root is a leaf page in `s`.
  pub record LeafRoot (root : ℕ) (d : Entry) (es : List Entry) (page : BNode) (s : State)
      : Type 0 where
    pub rooted : root ≢ 0
    pub got : get root s ≡ ok page
    pub leaf : LeafPage d es page
    pub one_page : length page ≡ btree_page_size

  module _ (root : ℕ) (d : Entry) (es : List Entry) (page : BNode) (s : State)
      (h : LeafRoot root d es page s) (key : Bytes) where
    leaf_fits : node_size (d ∷ es) ≤ btree_page_size
    leaf_fits = omega (arith, node_size-IsNode bnode_leaf (d ∷ es) page h.leaf.holds, h.one_page)

    inserted :
        (val : Bytes)
        → IsPair key val
        → Writes bnode_leaf
            (length (d ∷ insert (leaf_entry key val) es))
            (d ∷ insert (leaf_entry key val) es)
            8192
            (leaf_put (make_bytes 8192) page (count_le key es) key val)
    inserted val ok_pair =
        let e = leaf_entry key val in
        let some_key = key-ne-nil key ok_pair.some_key in
        subst
          (λ l.
            Writes bnode_leaf (length l) l 8192
              (leaf_put (make_bytes 8192) page (count_le key es) key val))
          (insert_dummy d e es h.leaf.dummy some_key)
          (leaf_put_lem d es page h.leaf key some_key val 8192 (omega arith) (
            omega
              (arith, node_size-insert e (d ∷ es), leaf_fits, ok_pair.key_fits, ok_pair.val_fits)))

    tree_insert_lem :
        (fuel : ℕ) (val : Bytes) (ok_pair : IsPair key val)
        → tree_insert pager (suc fuel) page key val (del root s)
          ≡ ok ((inserted val ok_pair).node, del root s)
    unfolding tree_insert
    tree_insert_lem fuel val ok_pair =
        let some_key = key-ne-nil key ok_pair.some_key in
        rw
          (
            lookup_place d es page h.leaf key some_key,
            b_node_type_lem bnode_leaf _ (d ∷ es) page h.leaf.holds,
            (inserted val ok_pair).returns,
          )
          refl

    -- `Insert` of a pair of allowed sizes into a tree whose root is a leaf, with one unit of fuel at
    -- least, where the map with the pair put in fits a page: it frees the old root and allocates a
    -- page that is the sorted leaf of that map, the new root.
    pub insert_leaf :
        (fuel : ℕ) (val : Bytes)
        → IsPair key val
        → node_size (d ∷ insert (leaf_entry key val) es) ≤ btree_page_size
        → (p : BNode) × LeafPage d (insert (leaf_entry key val) es) p
          × (length p ≡ btree_page_size)
          × (Tree.insert pager (suc fuel) root key val s
              ≡ (new p (del root s) >>= λ done. ok (none, done.0, done.1)))
    unfolding Tree.insert insert_root grow_root
    insert_leaf fuel val ok_pair room =
        let e = leaf_entry key val in
        let w = inserted val ok_pair in
        let (p, splits, holds, size) =
          node_split3_fits bnode_leaf (d ∷ insert e es) w.node w.holds room
            (omega (arith, w.same_size)) in
        let sorted : IsSorted (d ∷ insert e es) =
          subst IsSorted (insert_dummy d e es h.leaf.dummy (key-ne-nil key ok_pair.some_key))
            (IsSorted-insert e (d ∷ es) h.leaf.sorted) in
        (
          p,
          record { holds = holds; sorted = sorted; dummy = h.leaf.dummy },
          size,
          rw
              (
                key_tests key ok_pair.some_key ok_pair.key_fits,
                val_test val ok_pair.val_fits,
                ne→==_false root 0 h.rooted,
                h.got,
                tree_insert_lem fuel val ok_pair,
                splits,
              )
              refl,
        )

    -- `Insert` of a pair of allowed sizes into a tree whose root is a leaf panics where the map with
    -- the pair put in does not fit a page.
    pub insert_overflow :
        (fuel : ℕ) (val : Bytes)
        → IsPair key val
        → btree_page_size < node_size (d ∷ insert (leaf_entry key val) es)
        → Tree.insert pager (suc fuel) root key val s ≡ panic
    unfolding Tree.insert insert_root
    insert_overflow fuel val ok_pair large =
        let e = leaf_entry key val in
        let w = inserted val ok_pair in
        rw
          (
            key_tests key ok_pair.some_key ok_pair.key_fits,
            val_test val ok_pair.val_fits,
            ne→==_false root 0 h.rooted,
            h.got,
            tree_insert_lem fuel val ok_pair,
            node_split3_panics bnode_leaf (d ∷ insert e es) w.node w.holds large
                (some_entries d (insert e es) (insert_some e es)),
          )
          refl

    -- `Get` of a key of allowed size in a tree whose root is a leaf, with one unit of fuel at least,
    -- returns without an error the value that the map of the leaf has for the key, if any.
    pub get_leaf :
        (fuel : ℕ)
        → 0 < length key
        → length key ≤ btree_max_key_size
        → get_value pager (suc fuel) root key s
          ≡ ok (none, Option.map (λ (e : Entry). e.val) (find key (d ∷ es)))
    unfolding get_value get_loop
    get_leaf fuel some_key key_fits =
        let nonempty = key-ne-nil key some_key in
        let (k, got_key, hit, miss) = leaf_found d es page h.leaf key nonempty in
        rw
          (
            key_tests key some_key key_fits,
            ne→==_false root 0 h.rooted,
            h.got,
            b_node_type_lem bnode_leaf _ (d ∷ es) page h.leaf.holds,
            lookup_place d es page h.leaf key nonempty,
            got_key,
          )
          (elim (Bool-cases (equal_bytes k key)) [
            | inl same ↦ let (e, found, value) = hit same in rw (same, found, value) refl
            | inr other ↦ rw (other, miss other) refl
          ])

    delete_tests :
        0 < length key
        → length key ≤ btree_max_key_size
        → ((if length key == 0 then false else true) ≡ true)
          × (leb (length key) btree_max_key_size ≡ true)
    delete_tests a b = (ground arith, ground arith)

    -- `Delete` of a key of allowed size that the leaf at the root holds, with one unit of fuel at
    -- least: it frees the old root, allocates a page that is the sorted leaf of the map without the
    -- key, the new root, and answers that it deleted.
    pub delete_leaf :
        (fuel : ℕ) {e : Entry}
        → 0 < length key
        → length key ≤ btree_max_key_size
        → find key (d ∷ es) ≡ some e
        → (p : BNode) × LeafPage d (delete key es) p
          × (length p ≡ btree_page_size)
          × (Tree.delete pager (suc fuel) root key s
              ≡ (new p (del root s) >>= λ done. ok (true, done.0, done.1)))
    unfolding Tree.delete tree_delete shrink_root
    delete_leaf fuel {e} some_key key_fits found =
        let nonempty = key-ne-nil key some_key in
        let (test₁, test₂) = delete_tests some_key key_fits in
        let w₀ = leaf_remove_hit d es page h.leaf key nonempty {e = e} found leaf_fits in
        let w : Writes bnode_leaf (length (d ∷ delete key es)) (d ∷ delete key es) 4096
            (leaf_remove page (count_le key es) key) =
          subst (λ l. Writes bnode_leaf (length l) l 4096 (leaf_remove page (count_le key es) key))
            (delete_dummy d key es h.leaf.dummy nonempty) w₀ in
        let sorted : IsSorted (d ∷ delete key es) =
          subst IsSorted (delete_dummy d key es h.leaf.dummy nonempty)
            (IsSorted-delete key (d ∷ es) h.leaf.sorted) in
        let long : (length w.node == 0) ≡ false =
          ne→==_false (length w.node) 0 (omega (arith, w.same_size)) in
        (
          w.node,
          record { holds = w.holds; sorted = sorted; dummy = h.leaf.dummy },
          w.same_size,
          rw
              (
                test₁,
                test₂,
                ne→==_false root 0 h.rooted,
                h.got,
                lookup_place d es page h.leaf key nonempty,
                b_node_type_lem bnode_leaf _ (d ∷ es) page h.leaf.holds,
                w.returns,
                long,
                b_node_type_lem bnode_leaf _ (d ∷ delete key es) w.node w.holds,
                n_keys_lem bnode_leaf _ (d ∷ delete key es) w.node w.holds,
              )
              refl,
        )

    -- `Delete` of a key of allowed size that the leaf at the root does not hold, with one unit of
    -- fuel at least, answers that it did not delete and leaves the root and the pages as they are.
    pub delete_missing :
        (fuel : ℕ)
        → 0 < length key
        → length key ≤ btree_max_key_size
        → find key (d ∷ es) ≡ none
        → Tree.delete pager (suc fuel) root key s ≡ ok (false, root, s)
    unfolding Tree.delete tree_delete
    delete_missing fuel some_key key_fits missing =
        let nonempty = key-ne-nil key some_key in
        let (test₁, test₂) = delete_tests some_key key_fits in
        rw
          (
            test₁,
            test₂,
            ne→==_false root 0 h.rooted,
            h.got,
            lookup_place d es page h.leaf key nonempty,
            b_node_type_lem bnode_leaf _ (d ∷ es) page h.leaf.holds,
            leaf_remove_miss d es page h.leaf key nonempty missing,
          )
          refl

  -- `Insert` of a pair of allowed sizes into the empty tree allocates a page that is the leaf with
  -- the dummy and the pair, the new root.
  pub insert_first :
      (fuel : ℕ) (key val : Bytes) (s : State)
      → IsPair key val
      → (p : BNode) × LeafPage (leaf_entry [] []) (leaf_entry key val ∷ []) p
        × (length p ≡ btree_page_size)
        × (Tree.insert pager fuel 0 key val s ≡ (new p s >>= λ done. ok (none, done.0, done.1)))
  unfolding Tree.insert insert_root first_root
  insert_first fuel key val s ok_pair =
      let len = length-make_bytes 4096 in
      let nonempty = key-ne-nil key ok_pair.some_key in
      let w₁ =
        set_header_lem bnode_leaf 2 (make_bytes 4096) (omega arith) (omega (arith, len))
          (omega (arith, len)) in
      let w₂ =
        append_kv_lem bnode_leaf 2 [] (leaf_entry [] []) w₁.node w₁.holds (omega arith)
          (omega arith) (omega (arith, w₁.same_size, len)) in
      let w₃ =
        append_kv_lem bnode_leaf 2 (leaf_entry [] [] ∷ []) (leaf_entry key val) w₂.node w₂.holds
          (omega arith) (omega arith)
          (omega (arith, w₁.same_size, w₂.same_size, len, ok_pair.key_fits, ok_pair.val_fits)) in
      (
        w₃.node,
        record {
          holds = w₃.holds;
          sorted = ((key-AtMost (leaf_entry [] []) key refl nonempty, tt), (tt, tt));
          dummy = refl;
        },
        omega (arith, w₁.same_size, w₂.same_size, w₃.same_size, len),
        rw
            (
              key_tests key ok_pair.some_key ok_pair.key_fits,
              val_test val ok_pair.val_fits,
              w₁.returns,
              w₂.returns,
              w₃.returns,
            )
            refl,
      )
