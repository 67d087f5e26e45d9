-- ===== src/Store/Memory.antt =====
-- The mapped memory of database/persist.go: chunks of bytes, one behind the other, cut into pages.
pub mod Laws
use atomix_db.Prelude.{
  ℕ, ◌+◌, ◌-◌, ◌*◌, ◌/◌, List, [], ◌∷◌, Run, ok, panic, ◌>>=◌, ltb, if◌then◌else◌, length,
}
use atomix_db.Bytes.{Bytes, slice, copy}
use atomix_db.Node.{BNode, btree_page_size}

-- The loop of `pageGetMapped`; `start` is the number of the chunk's first page.
unfoldable pub mapped_from : ℕ → List Bytes → ℕ → Run BNode
mapped_from start [] ptr = panic
mapped_from start (chunk ∷ chunks) ptr =
    let end = start + length chunk / btree_page_size in
    let later = mapped_from end chunks ptr in
    let offset = btree_page_size * (ptr - start) in
    if ltb ptr end then slice chunk offset (offset + btree_page_size) else later

unfoldable pub page_get_mapped : List Bytes → ℕ → Run BNode
unfolding mapped_from
page_get_mapped chunks ptr = mapped_from 0 chunks ptr

-- `copy(db.pageGetMapped(ptr).data, page)`: the memory that the copy leaves.
unfoldable pub copy_from : ℕ → List Bytes → ℕ → BNode → Run (List Bytes)
copy_from start [] ptr page = panic
copy_from start (chunk ∷ chunks) ptr page =
    let end = start + length chunk / btree_page_size in
    let later = copy_from end chunks ptr page >>= λ rest. ok (chunk ∷ rest) in
    let offset = btree_page_size * (ptr - start) in
    if ltb ptr end
    then (slice chunk offset (offset + btree_page_size) >>= λ old.
        (copy old 0 page >>= λ new. (copy chunk offset new >>= λ chunk'. ok (chunk' ∷ chunks))))
    else later

unfoldable pub copy_mapped : List Bytes → ℕ → BNode → Run (List Bytes)
unfolding copy_from
copy_mapped chunks ptr page = copy_from 0 chunks ptr page
