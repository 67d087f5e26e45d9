-- ===== src/Node.antt =====
-- BNode of database/b_tree.go: a page as its bytes, and the functions that read and write it.
-- uint16 arithmetic wraps; an access out of range and a failed assertion are `panic`.
pub mod Layout
pub mod Read
pub mod Page
pub mod Append
pub mod Range
pub mod Edit
pub mod Lookup
pub mod Sorted
pub mod Split
use atomix_db.Prelude.{
  ℕ, zero, suc, ◌+◌, ◌-◌, ◌*◌, ◌/◌, ◌%◌, List, [], ◌∷◌, ◌++◌, Run, ok, panic, assert, ◌>>=◌, ◌>>◌,
  leb, ltb, ◌==◌, if◌then◌else◌, length, Ordering,
}
use atomix_db.Bytes.{
  Bytes, u16, get_uint16, get_uint64, put_uint16, put_uint64, slice, copy, make_bytes,
}
use atomix_db.Bytes.Order.{compare_bytes, equal_bytes}

-- `BNode{}`, whose data is nil, is the empty list.
abbrev pub BNode : Type 0
BNode = Bytes

abbrev pub header : ℕ
header = 4

abbrev pub btree_page_size : ℕ
btree_page_size = 4096

abbrev pub btree_max_key_size : ℕ
btree_max_key_size = 1000

abbrev pub btree_max_val_size : ℕ
btree_max_val_size = 3000

abbrev pub bnode_inode : ℕ
bnode_inode = 1

abbrev pub bnode_leaf : ℕ
bnode_leaf = 2

unfoldable pub b_node_type : BNode → Run ℕ
b_node_type node = get_uint16 node 0

unfoldable pub n_keys : BNode → Run ℕ
n_keys node = get_uint16 node 2

unfoldable pub set_header : BNode → ℕ → ℕ → Run BNode
set_header node btype nkeys = do node' ← put_uint16 node 0 btype; put_uint16 node' 2 nkeys

unfoldable pub get_ptr : BNode → ℕ → Run ℕ
get_ptr node idx = do n ← n_keys node; assert (ltb idx n); get_uint64 node (u16 (header + 8 * idx))

unfoldable pub set_ptr : BNode → ℕ → ℕ → Run BNode
set_ptr node ptr idx = do
  n ← n_keys node
  assert (ltb idx n)
  put_uint64 node (u16 (header + 8 * idx)) ptr

-- `idx - 1` wraps at 0.
unfoldable pub offset_pos : BNode → ℕ → Run ℕ
offset_pos node idx = do n ← n_keys node; ok (u16 (header + 8 * n + 2 * u16 (idx + 65535)))

unfoldable pub get_offset : BNode → ℕ → Run ℕ
unfolding offset_pos
get_offset node idx = if idx == 0 then ok 0 else do pos ← offset_pos node idx; get_uint16 node pos

unfoldable pub set_offset : BNode → ℕ → ℕ → Run BNode
unfolding offset_pos
set_offset node idx offset = do pos ← offset_pos node idx; put_uint16 node pos offset

unfoldable pub kv_pos : BNode → ℕ → Run ℕ
kv_pos node idx = do
  n ← n_keys node
  assert (leb idx n)
  offset ← get_offset node idx
  ok (u16 (header + 8 * n + 2 * n + offset))

unfoldable pub get_key : BNode → ℕ → Run Bytes
get_key node idx = do
  n ← n_keys node
  assert (ltb idx n)
  pos ← kv_pos node idx
  klen ← get_uint16 node pos
  slice node (u16 (pos + 4)) (u16 (pos + 4) + klen)

unfoldable pub get_val : BNode → ℕ → Run Bytes
get_val node idx = do
  n ← n_keys node
  assert (ltb idx n)
  pos ← kv_pos node idx
  klen ← get_uint16 node pos
  vlen ← get_uint16 node (u16 (pos + 2))
  slice node (u16 (pos + 4 + klen)) (u16 (pos + 4 + klen) + vlen)

unfoldable pub nbytes : BNode → Run ℕ
nbytes node = do n ← n_keys node; kv_pos node n

-- The loop of `nodeLookupLE` with the rounds that are left, `i` and `found`.
unfoldable pub lookup_loop : BNode → Bytes → ℕ → ℕ → ℕ → Run ℕ
lookup_loop node key zero i found = ok found
lookup_loop node key (suc rounds) i found = do
  k ← get_key node i
  elim (compare_bytes k key) [ Ordering.gt ↦ ok found | _ ↦ lookup_loop node key rounds (i + 1) i ]

unfoldable pub node_lookup_le : BNode → Bytes → Run ℕ
unfolding lookup_loop
node_lookup_le node key = do keys_len ← n_keys node; lookup_loop node key (keys_len - 1) 1 0

-- The two loops of `nodeAppendRange`, with the rounds that are left and `i`.
unfoldable pub copy_ptrs : BNode → BNode → ℕ → ℕ → ℕ → ℕ → Run BNode
copy_ptrs new old dst src zero i = ok new
copy_ptrs new old dst src (suc rounds) i = do
  ptr ← get_ptr old (u16 (src + i))
  new' ← set_ptr new ptr (u16 (dst + i))
  copy_ptrs new' old dst src rounds (i + 1)

unfoldable pub copy_offsets : BNode → BNode → ℕ → ℕ → ℕ → ℕ → ℕ → ℕ → Run BNode
copy_offsets new old dst src dst_begin src_begin zero i = ok new
copy_offsets new old dst src dst_begin src_begin (suc rounds) i = do
  offset ← get_offset old (u16 (src + i))
  new' ← set_offset new (u16 (dst + i)) (u16 (dst_begin + offset + 65536 - src_begin))
  copy_offsets new' old dst src dst_begin src_begin rounds (i + 1)

-- The part of `nodeAppendRange` behind its early return.
unfoldable pub append_some : BNode → BNode → ℕ → ℕ → ℕ → Run BNode
append_some new old dst src num = do
  new₁ ← copy_ptrs new old dst src num 0
  dst_begin ← get_offset new₁ dst
  src_begin ← get_offset old src
  new₂ ← copy_offsets new₁ old dst src dst_begin src_begin num 1
  begin ← kv_pos old src
  end ← kv_pos old (u16 (src + num))
  pos ← kv_pos new₂ dst
  moved ← slice old begin end
  copy new₂ pos moved

unfoldable pub node_append_range : BNode → BNode → ℕ → ℕ → ℕ → Run BNode
node_append_range new old dst src num = do
  old_keys ← n_keys old
  assert (leb (u16 (src + num)) old_keys)
  new_keys ← n_keys new
  assert (leb (u16 (dst + num)) new_keys)
  if num == 0 then ok new else append_some new old dst src num

unfoldable pub node_append_kv : BNode → ℕ → ℕ → Bytes → Bytes → Run BNode
node_append_kv new idx ptr key val = do
  new₁ ← set_ptr new ptr idx
  pos ← kv_pos new₁ idx
  let key_len = u16 (length key)
  new₂ ← put_uint16 new₁ pos key_len
  new₃ ← put_uint16 new₂ (u16 (pos + 2)) (u16 (length val))
  new₄ ← copy new₃ (u16 (pos + 4)) key
  new₅ ← copy new₄ (u16 (pos + 4 + key_len)) val
  offset ← get_offset new₅ idx
  set_offset new₅ (u16 (idx + 1)) (u16 (offset + 4 + u16 (length key + length val)))

unfoldable pub leaf_insert : BNode → BNode → ℕ → Bytes → Bytes → Run BNode
leaf_insert new old idx key val = do
  n ← n_keys old
  new₁ ← set_header new bnode_leaf (u16 (n + 1))
  new₂ ← node_append_range new₁ old 0 0 idx
  new₃ ← node_append_kv new₂ idx 0 key val
  node_append_range new₃ old (u16 (idx + 1)) idx (u16 (n + 65536 - idx))

unfoldable pub leaf_update : BNode → BNode → ℕ → Bytes → Bytes → Run BNode
leaf_update new old idx key val = do
  n ← n_keys old
  new₁ ← set_header new bnode_leaf n
  new₂ ← node_append_range new₁ old 0 0 idx
  new₃ ← node_append_kv new₂ idx 0 key val
  node_append_range new₃ old (u16 (idx + 1)) (u16 (idx + 1)) (u16 (n + 131072 - idx - 1))

unfoldable pub leaf_delete : BNode → BNode → ℕ → Run BNode
leaf_delete new old idx = do
  btype ← b_node_type old
  n ← n_keys old
  new₁ ← set_header new btype (u16 (n + 65535))
  new₂ ← node_append_range new₁ old 0 0 idx
  node_append_range new₂ old idx (u16 (idx + 1)) (u16 (n + 65536 - u16 (idx + 1)))

unfoldable pub node_merge : BNode → BNode → BNode → Run BNode
node_merge new left right = do
  btype ← b_node_type left
  left_keys ← n_keys left
  right_keys ← n_keys right
  new₁ ← set_header new btype (u16 (left_keys + right_keys))
  new₂ ← node_append_range new₁ left 0 0 left_keys
  node_append_range new₂ right left_keys 0 right_keys

unfoldable pub node_replace2_kid : BNode → BNode → ℕ → ℕ → Bytes → Run BNode
node_replace2_kid new node idx ptr key = do
  btype ← b_node_type node
  n ← n_keys node
  new₁ ← set_header new btype (u16 (n + 65535))
  new₂ ← node_append_range new₁ node 0 0 idx
  new₃ ← node_append_kv new₂ idx ptr key []
  node_append_range new₃ node (u16 (idx + 1)) (u16 (idx + 2)) (u16 (n + 65536 - u16 (idx + 2)))

-- Neither `left` nor `right` gets a header here.
unfoldable pub node_split2 : BNode → BNode → BNode → Run (BNode × BNode)
node_split2 left right old = do
  n ← n_keys old
  let mid_index = n / 2
  left' ← node_append_range left old 0 0 mid_index
  right' ← node_append_range right old 0 mid_index (u16 (n + 65535))
  ok (left', right')

-- What `nodeSplit3` does once `left` has turned out too large, and before that, for a node that
-- does not fit a page. It returns as many nodes as the number that the source returns beside them.
unfoldable pub split_left : BNode → BNode → Run (List BNode)
split_left left right = do
  (left_left, middle) ← node_split2 (make_bytes 4096) (make_bytes 4096) left
  left_left_size ← nbytes left_left
  assert (leb left_left_size btree_page_size)
  ok (left ∷ middle ∷ right ∷ [])

unfoldable pub split_large : BNode → Run (List BNode)
unfolding split_left
split_large old = do
  (left, right) ← node_split2 (make_bytes 8192) (make_bytes 4096) old
  left_size ← nbytes left
  if leb left_size btree_page_size then ok (left ∷ right ∷ []) else split_left left right

unfoldable pub node_split3 : BNode → Run (List BNode)
node_split3 old = do
  size ← nbytes old
  if leb size btree_page_size
      then slice old 0 btree_page_size >>= (λ page. ok (page ∷ []))
      else split_large old
