-- ===== src/Transaction/Freeing.antt =====
-- `Commit` of database/transactions.go where the transaction frees pages.
use atomix_db.Prelude.{◌+◌, ◌*◌, ◌<◌, ◌≤◌, ◌≡◌, ◌≢◌, [], length, take}
use atomix_db.Bytes.{Bytes}
use atomix_db.Node.{btree_page_size}
use atomix_db.FreeList.{FreeList}
use atomix_db.Transaction.{Writer}
use atomix_db.Store.Memory.Laws.{pages_in}
use atomix_db.Transaction.Publish.{AreUpdates}
use atomix_db.Transaction.Commit.{free_list_cap, freed_of}
use atomix_db.Transaction.Outcome.{n_pages}

-- A transaction that frees pages can be written: its free list is empty, one node of the list has room
-- for the freed pages, and the memory has room for the page of the node too.
pub record IsFreeing (w : Writer) : Type 0 where
  pub none_free : w.tx.free.head ≡ 0
  pub some_freed : freed_of w.tx.updates ≢ []
  pub one_node : length (freed_of w.tx.updates) ≤ free_list_cap
  pub master_page : 0 < n_pages w
  pub all_mapped : length w.kv.chunks ≤ w.tx.n_chunks
  pub room : (n_pages w + 1) * btree_page_size ≤ w.kv.total
  pub mapped : n_pages w < pages_in (take w.tx.n_chunks w.kv.chunks)
  pub updates : AreUpdates (pages_in (take w.tx.n_chunks w.kv.chunks)) w.tx.updates
  pub root_used : w.tx.root ≤ n_pages w
  pub pages_fit : n_pages w + 1 < 18446744073709551616
