-- ===== src/FreeList.antt =====
-- Reading the list of free pages: database/free_list.go. Pages are read by the callback `get`, which
-- stands for `FreeList.get`; a list is walked on fuel, one unit for each of its nodes.
pub mod Versions
use atomix_db.Prelude.{
  ℕ, zero, suc, ◌+◌, ◌-◌, ◌*◌, ◌%◌, Bool, true, false, List, [], ◌∷◌, ◌++◌, Run, ok, panic,
  out_of_fuel, assert, ◌>>=◌, ◌>>◌, at, ltb, leb, ◌==◌, if◌then◌else◌, length, drop,
}
use atomix_db.Bytes.{Bytes, u64, get_uint64, put_uint16, put_uint64}
use atomix_db.Node.{BNode, n_keys}

abbrev pub free_list_header : ℕ
free_list_header = 4 + 8 + 8

-- FreeListData, and minReader of FreeList. `nodes` goes from the tail to the head.
pub record FreeList : Type 0 where
  pub head : ℕ
  pub nodes : List ℕ
  pub total : ℕ
  pub offset : ℕ
  pub min_reader : ℕ

-- `versionBefore`: the difference, as an int64, is negative.
unfoldable pub version_before : ℕ → ℕ → Bool
version_before u ver = leb 9223372036854775808 (u64 (u + 18446744073709551616 - ver))

unfoldable pub fln_item : BNode → ℕ → Run (ℕ × ℕ)
fln_item node offset =
    let pos = free_list_header + offset * 16 in
    if ltb (length node) (pos + 16)
    then ok (0, 0)
    else (do ptr ← get_uint64 node pos; ver ← get_uint64 node (pos + 8); ok (ptr, ver))

unfoldable pub fln_size : BNode → Run ℕ
fln_size node = n_keys node

unfoldable pub fln_next : BNode → Run ℕ
fln_next node = get_uint64 node 12

unfoldable pub fln_ptr : BNode → ℕ → Run ℕ
fln_ptr node idx = get_uint64 node (free_list_header + idx * 8)

unfoldable pub fln_set_ptr : BNode → ℕ → ℕ → Run BNode
fln_set_ptr node idx ptr = put_uint64 node (free_list_header + idx * 8) ptr

unfoldable pub fln_set_header : BNode → ℕ → ℕ → Run BNode
fln_set_header node size following = do
  node' ← put_uint16 node 2 size
  put_uint64 node' 12 following

unfoldable pub fln_set_total : BNode → ℕ → Run BNode
fln_set_total node total = put_uint64 node 4 total

module _ (get : ℕ → Run BNode) where
  -- The loop of `loadCache`: the pointers of the nodes from `curr` on, the last one first.
  unfoldable pub node_chain : ℕ → ℕ → Run (List ℕ)
  unfolding fln_next
  node_chain zero curr = if curr == 0 then ok [] else out_of_fuel
  node_chain (suc fuel) curr = if curr == 0 then ok [] else (do
    node ← get curr
    following ← fln_next node
    rest ← node_chain fuel following
    ok (rest ++ (curr ∷ [])))

  unfoldable pub load_cache : ℕ → FreeList → Run FreeList
  unfolding node_chain fln_size
  load_cache fuel fl =
      if ltb 0 (length fl.nodes)
      then ok fl
      else if fl.head == 0
      then ok (record fl { total = 0; offset = 0 })
      else (do
        nodes ← node_chain fuel fl.head
        head_node ← get fl.head
        size ← fln_size head_node
        ok (record fl { nodes = nodes; total = size; offset = 0 }))

  -- `flPop1`: the pointer, which is 0 where there is none to give.
  unfoldable pub fl_pop1 : FreeList → Run (ℕ × FreeList)
  unfolding fln_size fln_item version_before
  fl_pop1 fl = if fl.total == 0 then ok (0, fl) else (do
    tail ← at fl.nodes 0
    node ← get tail
    size ← fln_size node
    assert (ltb fl.offset size)
    (ptr, ver) ← fln_item node fl.offset
    if version_before fl.min_reader ver
        then ok (0, fl)
        else if leb size (fl.offset + 1)
        then ok (ptr, record fl { total = fl.total - 1; nodes = drop 1 fl.nodes; offset = 0 })
        else ok (ptr, record fl { total = fl.total - 1; offset = fl.offset + 1 }))

  unfoldable pub pop : ℕ → FreeList → Run (ℕ × FreeList)
  unfolding load_cache fl_pop1
  pop fuel fl = load_cache fuel fl >>= λ loaded. fl_pop1 loaded

  -- The loop of `Total`.
  unfoldable pub total_from : ℕ → ℕ → ℕ → Run ℕ
  unfolding fln_size fln_next
  total_from zero node_id total = if node_id == 0 then ok total else out_of_fuel
  total_from (suc fuel) node_id total = if node_id == 0 then ok total else (do
    node ← get node_id
    size ← fln_size node
    following ← fln_next node
    total_from fuel following (total + size))
