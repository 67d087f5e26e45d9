-- ===== src/Tree.antt =====
-- BTree of database/b_tree.go: insertion, deletion and lookup over pages that callbacks keep.
-- A descent recurs on fuel, which is the height of the tree at most.

pub mod Leaf
pub mod Root
pub mod Iterator
pub mod Kids
pub mod Search
use atomix_db.Prelude.{
  ℕ, zero, suc, ◌+◌, ◌-◌, ◌/◌, ◌%◌, Bool, true, false, ◌&&◌, ◌||◌, Option, none, some, List, [],
  ◌∷◌, Run, ok, panic, out_of_fuel, assert, ◌>>=◌, ◌>>◌, leb, ltb, ◌==◌, if◌then◌else◌, length,
}
use atomix_db.Bytes.{Bytes, u16, make_bytes}
use atomix_db.Bytes.Order.{equal_bytes}
use atomix_db.Node.{
  BNode, header, btree_page_size, btree_max_key_size, btree_max_val_size, bnode_inode, bnode_leaf,
  b_node_type, n_keys, set_header, get_ptr, get_key, get_val, nbytes, node_lookup_le,
  node_append_range, node_append_kv, leaf_insert, leaf_update, leaf_delete, node_merge,
  node_replace2_kid, node_split3,
}
use atomix_db.Pager.{Pager}

pub data TreeError : Type 0 where
  key_size val_size : TreeError

-- `shouldMerge`: -1, +1 and 0, with the sibling.
pub data MergeDir : Type 0 where
  left right : BNode → MergeDir
  stay : MergeDir

-- The case of `treeInsert` at a leaf.
unfoldable pub leaf_put : BNode → BNode → ℕ → Bytes → Bytes → Run BNode
leaf_put new_node node idx key val = do
  found ← get_key node idx
  if equal_bytes key found
      then leaf_update new_node node idx key val
      else leaf_insert new_node node (u16 (idx + 1)) key val

-- The first root: a leaf with a dummy key, which is below every other.
unfoldable pub first_root : Bytes → Bytes → Run BNode
first_root key val = do
  root₁ ← set_header (make_bytes 4096) bnode_leaf 2
  root₂ ← node_append_kv root₁ 0 0 [] []
  node_append_kv root₂ 1 0 key val

-- The case of `treeDelete` at a leaf; `BNode{}` is `[]`.
unfoldable pub leaf_remove : BNode → ℕ → Bytes → Run BNode
leaf_remove node idx key = do
  found ← get_key node idx
  if equal_bytes key found then leaf_delete (make_bytes 4096) node idx else ok []

module _ (pager : Pager) where
  open pager use {State, get, new, del}

  -- The loop of `nodeReplaceKidN` over the kids, and that of `Insert` over the parts of the root.
  unfoldable pub append_kids : BNode → ℕ → ℕ → List BNode → State → Run (BNode × State)
  append_kids node idx i [] s = ok (node, s)
  append_kids node idx i (kid ∷ kids) s = do
    (ptr, s') ← new kid s
    key ← get_key kid 0
    node' ← node_append_kv node (u16 (idx + i)) ptr key []
    append_kids node' idx (i + 1) kids s'

  unfoldable pub node_replace_kid_n : BNode → BNode → ℕ → List BNode → State → Run (BNode × State)
  node_replace_kid_n new_node old idx kids s = do
    let inc = u16 (length kids)
    n ← n_keys old
    new₁ ← set_header new_node bnode_inode (u16 (n + inc + 65535))
    new₂ ← node_append_range new₁ old 0 0 idx
    (new₃, s') ← append_kids new₂ idx 0 kids s
    new₄ ←
        node_append_range new₃ old (u16 (idx + inc)) (u16 (idx + 1))
          (u16 (n + 65536 - u16 (idx + 1)))
    ok (new₄, s')

  -- `nodeInsert`, with the call of `treeInsert` on the kid as an argument.
  unfoldable pub node_insert :
      (BNode → State → Run (BNode × State)) → BNode → BNode → ℕ → State → Run (BNode × State)
  node_insert insert_below new_node node idx s = do
    kptr ← get_ptr node idx
    knode ← get kptr s
    (knode', s') ← insert_below knode (del kptr s)
    kids ← node_split3 knode'
    node_replace_kid_n new_node node idx kids s'

  unfoldable pub tree_insert : ℕ → BNode → Bytes → Bytes → State → Run (BNode × State)
  tree_insert zero node key val s = out_of_fuel
  tree_insert (suc fuel) node key val s = do
    idx ← node_lookup_le node key
    btype ← b_node_type node
    if btype == bnode_leaf
        then (leaf_put (make_bytes 8192) node idx key val >>= λ page. ok (page, s))
        else if btype == bnode_inode
        then node_insert (λ kid t. tree_insert fuel kid key val t) (make_bytes 8192) node idx s
        else panic

  -- The end of `Insert`: one page is the new root, more get a root above them.
  unfoldable pub grow_root : List BNode → State → Run (ℕ × State)
  grow_root (page ∷ []) s = new page s
  grow_root pages s = do
    root₁ ← set_header (make_bytes 4096) bnode_inode (length pages)
    (root₂, s') ← append_kids root₁ 0 0 pages s
    new root₂ s'

  -- `Insert`, behind the tests of the sizes. The result is the new root.
  unfoldable pub insert_root : ℕ → ℕ → Bytes → Bytes → State → Run (ℕ × State)
  insert_root fuel root key val s =
      if root == 0 then (first_root key val >>= λ page. new page s) else (do
        node ← get root s
        (node', s') ← tree_insert fuel node key val (del root s)
        pages ← node_split3 node'
        grow_root pages s')

  -- `Insert` returns its error, the root that it leaves, and the pages.
  unfoldable pub insert : ℕ → ℕ → Bytes → Bytes → State → Run (Option TreeError × ℕ × State)
  insert fuel root key val s =
      if (length key == 0) || ltb btree_max_key_size (length key)
      then ok (some TreeError.key_size, root, s)
      else if ltb btree_max_val_size (length val)
      then ok (some TreeError.val_size, root, s)
      else (insert_root fuel root key val s >>= λ done. ok (none, done.0, done.1))

  -- `Get`: the value, and whether it was found.
  unfoldable pub get_loop : ℕ → BNode → Bytes → State → Run (Option Bytes)
  get_loop zero node key s = out_of_fuel
  get_loop (suc fuel) node key s = do
    btype ← b_node_type node
    idx ← node_lookup_le node key
    if btype == bnode_leaf
        then (do
          found ← get_key node idx
          if equal_bytes found key then (get_val node idx >>= λ val. ok (some val)) else ok none)
        else if btype == bnode_inode
        then (do ptr ← get_ptr node idx; kid ← get ptr s; get_loop fuel kid key s)
        else panic

  unfoldable pub get_value : ℕ → ℕ → Bytes → State → Run (Option TreeError × Option Bytes)
  get_value fuel root key s =
      if (length key == 0) || ltb btree_max_key_size (length key)
      then ok (some TreeError.key_size, none)
      else if root == 0
      then ok (none, none)
      else (do node ← get root s; val ← get_loop fuel node key s; ok (none, val))

  unfoldable pub try_right : BNode → ℕ → BNode → State → Run MergeDir
  try_right node idx updated s = do
    n ← n_keys node
    if ltb (u16 (idx + 1)) n
        then (do
          ptr ← get_ptr node (u16 (idx + 1))
          sibling ← get ptr s
          size ← nbytes sibling
          updated_size ← nbytes updated
          if leb (u16 (size + updated_size + 65536 - header)) btree_page_size
              then ok (MergeDir.right sibling)
              else ok MergeDir.stay)
        else ok MergeDir.stay

  unfoldable pub try_left : BNode → ℕ → BNode → State → Run MergeDir
  unfolding try_right
  try_left node idx updated s =
      if ltb 0 idx
      then (do
        ptr ← get_ptr node (u16 (idx + 65535))
        sibling ← get ptr s
        size ← nbytes sibling
        updated_size ← nbytes updated
        if leb (u16 (size + updated_size + 65536 - header)) btree_page_size
            then ok (MergeDir.left sibling)
            else try_right node idx updated s)
      else try_right node idx updated s

  unfoldable pub should_merge : BNode → ℕ → BNode → State → Run MergeDir
  unfolding try_left
  should_merge node idx updated s = do
    size ← nbytes updated
    if ltb (btree_page_size / 4) size then ok MergeDir.stay else try_left node idx updated s

  -- What `nodeDelete` does with the updated kid, by the direction to merge in. In both merges the
  -- sibling goes first.
  unfoldable pub merge_kid : MergeDir → BNode → ℕ → BNode → State → Run (BNode × State)
  merge_kid (MergeDir.left sibling) node idx updated s = do
    merged ← node_merge (make_bytes 4096) sibling updated
    gone ← get_ptr node (u16 (idx + 65535))
    (ptr, s') ← new merged (del gone s)
    key ← get_key merged 0
    page ← node_replace2_kid (make_bytes 4096) node (u16 (idx + 65535)) ptr key
    ok (page, s')
  merge_kid (MergeDir.right sibling) node idx updated s = do
    merged ← node_merge (make_bytes 4096) sibling updated
    gone ← get_ptr node (u16 (idx + 1))
    (ptr, s') ← new merged (del gone s)
    key ← get_key merged 0
    page ← node_replace2_kid (make_bytes 4096) node idx ptr key
    ok (page, s')
  merge_kid MergeDir.stay node idx updated s =
      node_replace_kid_n (make_bytes 4096) node idx (updated ∷ []) s

  -- `nodeDelete`, with the call of `treeDelete` on the kid as an argument. `BNode{}` is `[]`.
  unfoldable pub node_delete :
      (BNode → State → Run (BNode × State)) → BNode → ℕ → State → Run (BNode × State)
  node_delete delete_below node idx s = do
    kptr ← get_ptr node idx
    kid ← get kptr s
    (updated, s₁) ← delete_below kid s
    if length updated == 0 then ok ([], s₁) else (do
      dir ← should_merge node idx updated (del kptr s₁)
      merge_kid dir node idx updated (del kptr s₁))

  unfoldable pub tree_delete : ℕ → BNode → Bytes → State → Run (BNode × State)
  tree_delete zero node key s = out_of_fuel
  tree_delete (suc fuel) node key s = do
    idx ← node_lookup_le node key
    btype ← b_node_type node
    if btype == bnode_leaf
        then (leaf_remove node idx key >>= λ page. ok (page, s))
        else if btype == bnode_inode
        then node_delete (λ kid t. tree_delete fuel kid key t) node idx s
        else panic

  -- The end of `Delete`: a root with one kid gives way to the kid.
  unfoldable pub shrink_root : BNode → State → Run (ℕ × State)
  shrink_root updated s = do
    btype ← b_node_type updated
    n ← n_keys updated
    if (btype == bnode_inode) && (n == 1)
        then (get_ptr updated 0 >>= λ ptr. ok (ptr, s))
        else new updated s

  -- `Delete` returns whether it deleted, the root that it leaves, and the pages.
  unfoldable pub delete : ℕ → ℕ → Bytes → State → Run (Bool × ℕ × State)
  delete fuel root key s = do
    assert (if length key == 0 then false else true)
    assert (leb (length key) btree_max_key_size)
    if root == 0 then ok (false, root, s) else (do
      node ← get root s
      (updated, s₁) ← tree_delete fuel node key s
      if length updated == 0
          then ok (false, root, s₁)
          else (shrink_root updated (del root s₁) >>= λ done. ok (true, done.0, done.1)))
