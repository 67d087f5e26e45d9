-- ===== src/Transaction/Callbacks.antt =====
-- What a transaction of database/transactions.go does to the store before its end: the page callbacks
-- of its tree and `flushPages` of database/persist.go, which `Set` and `Del` call after them.
use atomix_db.Prelude.{ℕ, ◌≡◌, Bool, ok}
use atomix_db.Node.{BNode}
use atomix_db.Transaction.{Writer, page_append, page_use, page_new, page_del}
use atomix_db.Transaction.Commit.{System, flush_pages}
use atomix_db.Transaction.Kept.{Kept}

-- One call of a callback, or one of `flushPages` with its error.
pub data Call (w w' : Writer) : Type 0 where
  append : (node : BNode) (ptr : ℕ) → page_append node w ≡ ok (ptr, w') → Call w w'
  new : (walk : ℕ) (node : BNode) (ptr : ℕ) → page_new walk node w ≡ ok (ptr, w') → Call w w'
  del : (ptr : ℕ) → w' ≡ page_del ptr w → Call w w'
  use_ : (ptr : ℕ) (node : BNode) → w' ≡ page_use ptr node w → Call w w'
  flush :
      (fuel : ℕ) (system : System) (failed : Bool)
      → flush_pages fuel system w ≡ ok (failed, w')
      → Call w w'

pub data Calls (w : Writer) : Writer → Type 0 where
  here : Calls w w
  next : {v v' : Writer} → Calls w v → Call v v' → Calls w v'
