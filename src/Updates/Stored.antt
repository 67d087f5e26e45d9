-- ===== src/Updates/Stored.antt =====
-- `Get`, `Set` and `Delete` of KVTX in database/persist.go on the tree and the pages of a transaction:
-- `BTree` of database/b_tree.go over the callbacks of the transaction, and `flushPages`.
use atomix_db.Prelude.{ℕ, ok, ◌>>=◌}
use atomix_db.Tree
use atomix_db.Tree.{get_value}
use atomix_db.Transaction.{Writer, tx_pager}
use atomix_db.Transaction.Commit.{System, flush_pages}
use atomix_db.Updates.{Kvtx}

-- A tree with another root.
abbrev rooted : ℕ → Writer → Writer
rooted root w = record w { tx = record w.tx { root = root } }

-- `height` bounds the height of the tree and `walk` the length of the free list; `system` is what the
-- system does in a flush.
abbrev pub tx_kvtx : ℕ → ℕ → System → Kvtx
tx_kvtx height walk system = record {
  State = Writer;
  tree_get = λ key w. get_value (tx_pager walk) height w.tx.root key w;
  tree_insert = λ key val w. do
    (err, root, w') ← Tree.insert (tx_pager walk) height w.tx.root key val w
    ok (rooted root w');
  tree_delete = λ key w. do
    (deleted, root, w') ← Tree.delete (tx_pager walk) height w.tx.root key w
    ok (deleted, rooted root w');
  flush_pages = flush_pages walk system;
}
