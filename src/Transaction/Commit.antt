-- ===== src/Transaction/Commit.antt =====
-- `writePages`, `syncPages` and `flushPages` of database/persist.go, `Commit` of
-- database/transactions.go, and the free list that they write.
use atomix_db.Prelude.{
  ℕ, zero, suc, ◌+◌, ◌-◌, ◌*◌, ◌/◌, Bool, true, false, Option, none, some, List, [], ◌∷◌, ◌++◌, Run,
  ok, out_of_fuel, ◌>>=◌, leb, ltb, ◌==◌, if◌then◌else◌, length, take, drop,
}
use atomix_db.Bytes.{Bytes, make_bytes}
use atomix_db.Node.{BNode, btree_page_size}
use atomix_db.FreeList.{free_list_header, fln_set_header, fln_set_ptr, fln_set_total, total_from}
use atomix_db.Store.{master_store, extend_file}
use atomix_db.Store.Memory.{copy_mapped}
use atomix_db.Transaction.{
  Updates, update_at, put_update, Kv, Writer, with_updates, page_get, page_append, rollback_tx,
}

abbrev pub free_list_cap : ℕ
free_list_cap = (btree_page_size - free_list_header) / 8

-- What the system does in one write: whether fallocate and truncate succeed, the chunk that is mapped
-- if one is, and whether the first fsync, the write of the master page and the second fsync succeed.
pub record System : Type 0 where
  pub fallocated : Bool
  pub truncated : Bool
  pub chunk : Option Bytes
  pub synced : Bool
  pub master_written : Bool
  pub master_synced : Bool

-- The loop of `flPush` over the pointers of one node.
unfoldable pub set_ptrs : BNode → ℕ → List ℕ → Run BNode
set_ptrs node i [] = ok node
set_ptrs node i (ptr ∷ ptrs) = fln_set_ptr node i ptr >>= λ node'. set_ptrs node' (i + 1) ptrs

abbrev with_head : Writer → ℕ → Writer
with_head w head = record w { tx = record w.tx { free = record w.tx.free { head = head } } }

-- `flPush` where no page is reused.
unfoldable pub fl_push : ℕ → List ℕ → Writer → Run Writer
unfolding set_ptrs
fl_push fuel [] w = ok w
fl_push zero (ptr ∷ freed) w = out_of_fuel
fl_push (suc fuel) (ptr ∷ freed) w = do
  let size =
      if ltb free_list_cap (length (ptr ∷ freed)) then free_list_cap else length (ptr ∷ freed)
  node₁ ← fln_set_header (make_bytes 4096) size w.tx.free.head
  node₂ ← set_ptrs node₁ 0 (take size (ptr ∷ freed))
  (head, w') ← page_append node₂ w
  fl_push fuel (drop size (ptr ∷ freed)) (with_head w' head)

-- A write through the slice that `pageGet` returns.
unfoldable pub write_back : ℕ → BNode → Writer → Run Writer
write_back ptr page w = elim (update_at ptr w.tx.updates) [
  | some _ ↦ ok (with_updates w (put_update ptr (some page) w.tx.updates))
  | none ↦ (do
    memory ← copy_mapped (take w.tx.n_chunks w.kv.chunks) ptr page
    ok (record w { kv = record w.kv { chunks = memory ++ drop w.tx.n_chunks w.kv.chunks } }))
]

-- `FreeList.Add`, with the fuel of a walk through the list.
unfoldable pub free_add : ℕ → List ℕ → Writer → Run Writer
unfolding fl_push write_back
free_add fuel [] w = ok w
free_add fuel (ptr ∷ freed) w = do
  count ← total_from (λ n. page_get n w) fuel w.tx.free.head 0
  w' ← fl_push (length (ptr ∷ freed)) (ptr ∷ freed) w
  if w'.tx.free.head == 0 then ok w' else (do
    head_node ← page_get w'.tx.free.head w'
    head_node' ← fln_set_total head_node (count + length (ptr ∷ freed))
    write_back w'.tx.free.head head_node' w')

-- The freed pages among the updates. The order of a Go map is not fixed; here it is that of the list.
unfoldable pub freed_of : Updates → List ℕ
freed_of [] = []
freed_of ((ptr, none) ∷ updates) = ptr ∷ freed_of updates
freed_of ((ptr, some page) ∷ updates) = freed_of updates

-- The last loop of `writePages`.
unfoldable pub copy_updates : Updates → List Bytes → Run (List Bytes)
copy_updates [] memory = ok memory
copy_updates ((ptr, none) ∷ updates) memory = copy_updates updates memory
copy_updates ((ptr, some page) ∷ updates) memory =
    copy_mapped memory ptr page >>= λ memory'. copy_updates updates memory'

-- `extendMmap`: its error, and the store.
unfoldable pub extend_mmap : System → Kv → ℕ → Bool × Kv
extend_mmap system kv npages =
    if leb (npages * btree_page_size) kv.total then (false, kv) else elim system.chunk [
      | none ↦ (true, kv)
      | some chunk ↦
          (false, record kv { total = kv.total + kv.total; chunks = kv.chunks ++ (chunk ∷ []) })
    ]

-- `writePages`: whether it fails, and what it leaves.
unfoldable pub write_pages : ℕ → System → Writer → Run (Bool × Writer)
unfolding free_add freed_of copy_updates extend_mmap
write_pages fuel system w₀ = do
  w ← free_add fuel (freed_of w₀.tx.updates) w₀
  let npages = w.tx.nappend + w.kv.flushed
  (file_failed, file) ← extend_file npages system.fallocated system.truncated w.kv.file npages
  let kv = record w.kv { file = file }
  if file_failed then ok (true, record w { kv = kv }) else (do
    let (map_failed, kv') = extend_mmap system kv npages
    if map_failed then ok (true, record w { kv = kv' }) else (do
      memory ← copy_updates w.tx.updates (take w.tx.n_chunks kv'.chunks)
      ok (
        false,
        record w { kv = record kv' { chunks = memory ++ drop w.tx.n_chunks kv'.chunks } },
      )))

-- `masterStore`, by whether the write succeeds.
unfoldable pub store_master : System → Kv → Run (Bool × Kv)
store_master system kv = do
  page ←
      master_store (record { root = kv.tree_root; flushed = kv.flushed; free_head = kv.free.head })
  if system.master_written then ok (false, record kv { master = page }) else ok (true, kv)

-- `syncPages`; nappend keeps its value.
unfoldable pub sync_pages : System → Writer → Run (Bool × Writer)
unfolding store_master
sync_pages system w =
    if system.synced
    then (do
      let kv = record w.kv { flushed = w.kv.flushed + w.tx.nappend }
      (failed, kv') ← store_master system kv
      let w' : Writer = record { kv = kv'; tx = record w.tx { updates = [] } }
      ok ((if failed then true else if system.master_synced then false else true), w'))
    else ok (true, w)

-- `flushPages`
unfoldable pub flush_pages : ℕ → System → Writer → Run (Bool × Writer)
unfolding write_pages sync_pages
flush_pages fuel system w = do
  (failed, w') ← write_pages fuel system w
  if failed then ok (true, w') else sync_pages system w'

abbrev pub unlocked : Writer → Writer
unlocked w = record w { kv = record w.kv { locked = false } }

-- `KV.Commit`: its error, and what it leaves, with the lock open again.
unfoldable pub commit : ℕ → System → Writer → Run (Bool × Writer)
unfolding write_pages store_master
commit fuel system w₀ = if w₀.kv.tree_root == w₀.tx.root then ok (false, unlocked w₀) else (do
  (failed, w) ← write_pages fuel system w₀
  if failed
      then ok (true, unlocked (rollback_tx w))
      else if system.synced
      then (do
        (unwritten, kv) ← store_master system (record w.kv {
          flushed = w.kv.flushed + w.tx.nappend;
          free = w.tx.free;
          tree_root = w.tx.root;
          version = w.kv.version + 1;
        })
        ok (
          (if unwritten then true else if system.master_synced then false else true),
          record { kv = record kv { locked = false }; tx = w.tx },
        ))
      else ok (true, unlocked (rollback_tx w)))
