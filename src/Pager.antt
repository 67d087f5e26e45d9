-- ===== src/Pager.antt =====
-- What a BTree asks of the pages below it: the callbacks `get`, `new` and `del` of BTree in
-- database/b_tree.go, over a state of their own.
use atomix_db.Prelude.{ℕ, Run}
use atomix_db.Node.{BNode}

pub record Pager : Type 1 where
  pub State : Type 0
  pub get : ℕ → State → Run BNode
  pub new : BNode → State → Run (ℕ × State)
  pub del : ℕ → State → State
