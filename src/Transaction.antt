-- ===== src/Transaction.antt =====
-- KV, KVTX and their pages: the state of database/persist.go and database/transactions.go, and the
-- page callbacks of a transaction. The mapped memory is shared: a transaction sees its first chunks.
pub mod Commit
pub mod Publish
pub mod Puts
pub mod Kept
pub mod Callbacks
pub mod Outcome
pub mod FreeAdd
pub mod Freeing
use atomix_db.Prelude.{
  ℕ, zero, suc, ◌+◌, ◌-◌, Bool, true, false, Option, none, some, List, [], ◌∷◌, Run, ok, panic,
  assert, ◌>>=◌, ◌>>◌, leb, ◌==◌, if◌then◌else◌, length, take,
}
use atomix_db.Bytes.{Bytes}
use atomix_db.Node.{BNode, btree_page_size}
use atomix_db.Pager.{Pager}
use atomix_db.FreeList
use atomix_db.FreeList.{FreeList}
use atomix_db.Store.Memory.{page_get_mapped}

-- What is written over the pages: a nil slice, which marks a page as freed, is `none`.
abbrev pub Updates : Type 0
Updates = List (ℕ × Option BNode)

unfoldable pub update_at : ℕ → Updates → Option (Option BNode)
update_at ptr [] = none
update_at ptr ((n, page) ∷ updates) =
    let later = update_at ptr updates in if n == ptr then some page else later

-- updates[ptr] = page
unfoldable pub put_update : ℕ → Option BNode → Updates → Updates
put_update ptr page [] = (ptr, page) ∷ []
put_update ptr page ((n, old) ∷ updates) =
    let rest = put_update ptr page updates in
    if n == ptr then (n, page) ∷ updates else (n, old) ∷ rest

-- `tree_root` is tree.root, `free` the FreeListData, `file` and `total` are mmap.file and mmap.total,
-- `master` the bytes last written to the master page. `locked` is the state of the writer mutex.
pub record Kv : Type 0 where
  pub tree_root : ℕ
  pub free : FreeList
  pub file : ℕ
  pub total : ℕ
  pub chunks : List Bytes
  pub flushed : ℕ
  pub version : ℕ
  pub readers : List ℕ
  pub locked : Bool
  pub master : Bytes

-- `n_chunks` says how many chunks the slice mmap.chunks of the transaction has.
pub record Tx : Type 0 where
  pub version : ℕ
  pub root : ℕ
  pub n_chunks : ℕ
  pub free : FreeList
  pub nappend : ℕ
  pub updates : Updates

-- A store with the transaction that writes to it.
pub record Writer : Type 0 where
  pub kv : Kv
  pub tx : Tx

-- `KVTX.pageGet`; a freed page is `BNode{nil}`.
unfoldable pub page_get : ℕ → Writer → Run BNode
unfolding update_at page_get_mapped
page_get ptr w = elim (update_at ptr w.tx.updates) [
  | none ↦ page_get_mapped (take w.tx.n_chunks w.kv.chunks) ptr
  | some none ↦ ok []
  | some (some page) ↦ ok page
]

abbrev pub with_updates : Writer → Updates → Writer
with_updates w updates = record w { tx = record w.tx { updates = updates } }

unfoldable pub page_append : BNode → Writer → Run (ℕ × Writer)
unfolding put_update
page_append node w = do
  assert (leb (length node) btree_page_size)
  let ptr = w.tx.nappend + w.kv.flushed
  ok (
    ptr,
    record w {
      tx = record w.tx {
        nappend = w.tx.nappend + 1;
        updates = put_update ptr (some node) w.tx.updates;
      };
    },
  )

unfoldable pub page_use : ℕ → BNode → Writer → Writer
unfolding put_update
page_use ptr node w = with_updates w (put_update ptr (some node) w.tx.updates)

unfoldable pub page_del : ℕ → Writer → Writer
unfolding put_update
page_del ptr w = with_updates w (put_update ptr none w.tx.updates)

-- `KVTX.pageNew`, with the fuel of a walk through the free list.
unfoldable pub page_new : ℕ → BNode → Writer → Run (ℕ × Writer)
unfolding page_append page_use
page_new fuel node w = do
  assert (leb (length node) btree_page_size)
  (ptr, free) ← FreeList.pop (λ n. page_get n w) fuel w.tx.free
  let popped = record w { tx = record w.tx { free = free } }
  (ptr', w') ← if ptr == 0 then page_append node popped else ok (ptr, popped)
  ok (ptr', page_use ptr' node w')

-- The callbacks that `Begin` gives to the tree.
abbrev pub tx_pager : ℕ → Pager
tx_pager fuel = record { State = Writer; get = page_get; new = page_new fuel; del = page_del }

-- The transaction that `KV.Begin` sets up, with the lock taken, in a KVTX whose count of appended pages
-- is `nappend`: `Begin` leaves it.
unfoldable pub started : ℕ → Kv → Writer
started nappend kv =
    let oldest : ℕ = elim kv.readers [ [] ↦ kv.version | version ∷ _ ↦ version ] in
    record {
      kv = record kv { locked = true };
      tx = record {
        version = kv.version;
        root = kv.tree_root;
        n_chunks = length kv.chunks;
        free = record kv.free { min_reader = oldest };
        nappend = nappend;
        updates = [];
      };
    }

-- `KV.Begin`, which waits where the lock is taken: the model has no transaction then.
unfoldable pub begin : ℕ → Kv → Option Writer
unfolding started
begin nappend kv = if kv.locked then none else some (started nappend kv)

-- `KV.Abort`
unfoldable pub abort : Writer → Kv
abort w = record w.kv { locked = false }

-- `rollbackTX`
unfoldable pub rollback_tx : Writer → Writer
rollback_tx w = record {
  kv = record w.kv { tree_root = w.tx.root; free = w.tx.free };
  tx = record w.tx { nappend = 0; updates = [] };
}
