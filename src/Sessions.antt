-- ===== src/Sessions.antt =====
-- The commands of database/commands.go that take a transaction, from their reads of the terminal on,
-- and the loop of database/database_impl.go that hands them the current one.
pub mod Release
pub mod Lock
pub mod Loop
use atomix_db.Prelude.{
  ℕ, ◌≡◌, Bool, true, false, Option, none, some, List, [], ◌∷◌, Run, ok, panic, ◌>>=◌,
  if◌then◌else◌,
}
use atomix_db.Transaction.{Kv, Tx, Writer, begin, abort}
use atomix_db.Transaction.Commit.{System, commit}

-- What `Set` or `Delete` of a row does in a transaction: its result, whether it is an error, and what
-- it leaves.
abbrev pub Statement : Type 0
Statement = Writer → Run (Bool × Bool × Writer)

-- A command with what the system does in its commit. `create` has the result of `TableNew` in a
-- transaction that was begun, and in a KVTX that was not.
pub data Command : Type 0 where
  create : System → Statement → Run Bool → Command
  insert : System → Statement → Command
  delete : System → Statement → Command
  update : System → Statement → Command
  begin_tx : Command
  commit_tx : System → Command
  abort_tx : Command
  other : Command

-- The store and the current transaction.
pub record Session : Type 0 where
  pub kv : Kv
  pub current : Option Tx

-- A mutex that is not taken cannot be unlocked: the program ends.
unfoldable pub unlocking : Kv → Kv → Run Kv
unlocking before after = if before.locked then ok after else panic

-- `Commit` and `Abort` of a store with its transaction.
unfoldable pub end_commit : ℕ → System → Writer → Run (Bool × Writer)
unfolding unlocking commit
end_commit fuel system w = do
  (failed, w') ← commit fuel system w
  kv ← unlocking w.kv w'.kv
  ok (failed, record w' { kv = kv })

unfoldable pub end_abort : Writer → Run Kv
unfolding unlocking abort
end_abort w = unlocking w.kv (abort w)

abbrev pub idle : Kv → Option Session
idle kv = some (record { kv = kv; current = none })

abbrev pub within : Writer → Option Session
within w = some (record { kv = w.kv; current = some w.tx })

-- The end of `HandleInsert` or `HandleUpdate` without a current transaction, after `Begin`.
unfoldable pub write_row : ℕ → System → Statement → Writer → Run (Option Session)
unfolding end_commit end_abort
write_row fuel system statement w = do
  (changed, failed, w') ← statement w
  if failed
      then (end_abort w' >>= λ kv. ok (idle kv))
      else if changed
      then (end_commit fuel system w' >>= λ done. ok (idle done.1.kv))
      else (end_abort w' >>= λ kv. ok (idle kv))

-- The same of `HandleDelete`, which does not abort on an error.
unfoldable pub delete_row : ℕ → System → Statement → Writer → Run (Option Session)
unfolding end_commit end_abort
delete_row fuel system statement w = do
  (deleted, failed, w') ← statement w
  if failed
      then ok (idle w'.kv)
      else if deleted
      then (end_commit fuel system w' >>= λ done. ok (idle done.1.kv))
      else (end_abort w' >>= λ kv. ok (idle kv))

-- The same of `HandleCreate`.
unfoldable pub create_table : ℕ → System → Statement → Writer → Run (Option Session)
unfolding end_commit end_abort
create_table fuel system statement w = do
  (_, failed, w') ← statement w
  if failed
      then (end_abort w' >>= λ kv. ok (idle kv))
      else (end_commit fuel system w' >>= λ done. ok (idle done.1.kv))

-- `Begin` of a new transaction for a command, always in a new KVTX; `none` is a wait for the lock that
-- does not end.
unfoldable pub after_begin : Kv → (Writer → Run (Option Session)) → Run (Option Session)
unfolding begin
after_begin kv run = elim (begin 0 kv) [ none ↦ ok none | some w ↦ run w ]

-- A statement in the current transaction.
unfoldable pub within_tx : Statement → Kv → Tx → Run (Option Session)
within_tx statement kv tx = statement (record { kv = kv; tx = tx }) >>= λ done. ok (within done.2)

unfoldable pub handle_begin : Session → Run (Option Session)
unfolding after_begin
handle_begin s = elim s.current [
  | some tx ↦ ok (some s)
  | none ↦ after_begin s.kv (λ w. ok (within w))
]

unfoldable pub handle_commit : ℕ → System → Session → Run (Option Session)
unfolding end_commit
handle_commit fuel system s = elim s.current [
  | none ↦ ok (some s)
  | some tx ↦ (do
    (failed, w) ← end_commit fuel system (record { kv = s.kv; tx = tx })
    ok (if failed then within w else idle w.kv))
]

unfoldable pub handle_abort : Session → Run (Option Session)
unfolding end_abort
handle_abort s = elim s.current [
  | none ↦ ok (some s)
  | some tx ↦ end_abort (record { kv = s.kv; tx = tx }) >>= λ kv. ok (idle kv)
]

-- In a transaction the command works on `writer`, which was not begun and has no store.
unfoldable pub handle_create : ℕ → System → Statement → Run Bool → Session → Run (Option Session)
unfolding after_begin create_table
handle_create fuel system statement unbegun s = elim s.current [
  | some tx ↦ unbegun >>= λ failed. ok (some s)
  | none ↦ after_begin s.kv (create_table fuel system statement)
]

unfoldable pub handle_write : ℕ → System → Statement → Session → Run (Option Session)
unfolding after_begin write_row within_tx
handle_write fuel system statement s = elim s.current [
  | some tx ↦ within_tx statement s.kv tx
  | none ↦ after_begin s.kv (write_row fuel system statement)
]

unfoldable pub handle_delete : ℕ → System → Statement → Session → Run (Option Session)
unfolding after_begin delete_row within_tx
handle_delete fuel system statement s = elim s.current [
  | some tx ↦ within_tx statement s.kv tx
  | none ↦ after_begin s.kv (delete_row fuel system statement)
]

-- One round of the loop of `StartDB`.
unfoldable pub handle : ℕ → Command → Session → Run (Option Session)
unfolding handle_create handle_write handle_delete handle_begin handle_commit handle_abort
handle fuel (create system statement unbegun) s = handle_create fuel system statement unbegun s
handle fuel (insert system statement) s = handle_write fuel system statement s
handle fuel (delete system statement) s = handle_delete fuel system statement s
handle fuel (update system statement) s = handle_write fuel system statement s
handle fuel begin_tx s = handle_begin s
handle fuel (commit_tx system) s = handle_commit fuel system s
handle fuel abort_tx s = handle_abort s
handle fuel other s = ok (some s)

-- The loop of `StartDB` over the commands that are read.
unfoldable pub serve : ℕ → List Command → Session → Run (Option Session)
unfolding handle
serve fuel [] s = ok (some s)
serve fuel (command ∷ commands) s = handle fuel command s >>= λ next. elim next [
  | none ↦ ok none
  | some s' ↦ serve fuel commands s'
]
