-- ===== src/Store.antt =====
-- The master page and the file size of database/persist.go. The file and its system calls are not
-- here: a write of the master page is the bytes that are written at the head of the file.
pub mod MasterPage
pub mod Memory
pub mod Growth
use atomix_db.Prelude.{
  ℕ, zero, suc, ◌+◌, ◌*◌, ◌/◌, Bool, true, false, ◌||◌, not, List, [], ◌∷◌, Run, ok, panic,
  out_of_fuel, ◌>>=◌, ltb, leb, ◌==◌, if◌then◌else◌,
}
use atomix_db.Bytes.{Bytes, make_bytes, get_uint64, put_uint64, slice, copy}
use atomix_db.Bytes.Order.{equal_bytes}
use atomix_db.Node.{btree_page_size}

-- "AtomixDB"
abbrev pub db_sig : Bytes
db_sig = 65 ∷ 116 ∷ 111 ∷ 109 ∷ 105 ∷ 120 ∷ 68 ∷ 66 ∷ []

-- What the master page keeps of KV: tree.root, page.flushed and free.head.
pub record Master : Type 0 where
  pub root : ℕ
  pub flushed : ℕ
  pub free_head : ℕ

pub data Loaded : Type 0 where
  loaded : Master → Loaded
  bad_signature bad_master_page : Loaded

-- `file` is mmap.file, `page` the first chunk, and `db` what KV holds before.
unfoldable pub master_load : ℕ → Bytes → Master → Run Loaded
master_load file page db = if file == 0 then ok (loaded (record db { flushed = 1 })) else (do
  root ← get_uint64 page 8
  pages_used ← get_uint64 page 16
  free_list_ptr ← get_uint64 page 24
  sig ← slice page 0 8
  let is_bad = (ltb pages_used 1 || ltb (file / btree_page_size) pages_used) || leb pages_used root
  if not (equal_bytes db_sig sig)
      then ok bad_signature
      else if is_bad
      then ok bad_master_page
      else ok (loaded (record { root = root; flushed = pages_used; free_head = free_list_ptr })))

-- The bytes that `masterStore` writes.
unfoldable pub master_store : Master → Run Bytes
master_store db = do
  data₁ ← copy (make_bytes 32) 0 db_sig
  data₂ ← put_uint64 data₁ 8 db.root
  data₃ ← put_uint64 data₂ 16 db.flushed
  put_uint64 data₃ 24 db.free_head

-- The loop of `extendFile` over the number of pages.
unfoldable pub grow_pages : ℕ → ℕ → ℕ → Run ℕ
grow_pages zero file_pages npages = if ltb file_pages npages then out_of_fuel else ok file_pages
grow_pages (suc fuel) file_pages npages =
    let inc = file_pages / 8 in
    let next = grow_pages fuel (file_pages + (if ltb inc 1 then 1 else inc)) npages in
    if ltb file_pages npages then next else ok file_pages

-- `extendFile`: the error, and mmap.file after it, by whether the call of fallocate, with a length of 0,
-- and the one of truncate that follows its failure succeed.
unfoldable pub extend_file : ℕ → Bool → Bool → ℕ → ℕ → Run (Bool × ℕ)
extend_file fuel fallocated truncated file npages =
    let file_pages = file / btree_page_size in
    if ltb npages file_pages
    then ok (false, file)
    else (grow_pages fuel file_pages npages >>= λ pages.
        if fallocated
        then ok (false, pages * btree_page_size)
        else if truncated
        then ok (false, pages * btree_page_size)
        else ok (true, file))
