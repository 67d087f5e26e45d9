-- ===== src/Sessions/Loop.antt =====
-- The writer lock over the rounds of the loop of database/database_impl.go.
use atomix_db.Prelude.{
  ℕ, ◌≡◌, refl, sym, ap, ◌∙◌, Bool, true, false, Option, none, some, List, [], ◌∷◌, Run, ok, >>=-ok,
  All, Returns, ok-Returns, bind-Returns,
}
use atomix_db.Transaction.{Kv, Tx, Writer, begin, started}
use atomix_db.Transaction.Commit.{System}
use atomix_db.Sessions.{
  Statement, Command, create, insert, delete, update, begin_tx, commit_tx, abort_tx, other, Session,
  delete_row, after_begin, handle_begin, handle_create, handle_write, handle_delete, handle, serve,
}
use atomix_db.Sessions.Lock.{
  Held, KeepsLock, KeepsAll, NoFault, NoFaults, HeldNext, write_row-HeldNext, create_table-HeldNext,
  delete_row-HeldNext, after_begin-HeldNext, within_tx-HeldNext, handle_begin-HeldNext,
  handle_commit-HeldNext, handle_abort-HeldNext,
}

handle-HeldNext :
    (fuel : ℕ) (command : Command) (kv : Kv) (current : Option Tx)
    → KeepsAll command
    → NoFault fuel command (record { kv = kv; current = current })
    → Held (record { kv = kv; current = current })
    → Returns HeldNext (handle fuel command (record { kv = kv; current = current }))
unfolding handle handle_create handle_write handle_delete
handle-HeldNext fuel (create system statement unbegun) kv none keeps sound h =
    after_begin-HeldNext kv _ h (create_table-HeldNext fuel system statement (started 0 kv))
handle-HeldNext fuel (create system statement unbegun) kv (some tx) keeps sound h =
    bind-Returns HeldNext unbegun _
      (λ failed e. ok-Returns HeldNext _ (record { kv = kv; current = some tx }, refl, h))
handle-HeldNext fuel (insert system statement) kv none keeps sound h =
    after_begin-HeldNext kv _ h (write_row-HeldNext fuel system statement (started 0 kv))
handle-HeldNext fuel (insert system statement) kv (some tx) keeps sound h =
    within_tx-HeldNext statement kv tx keeps h
handle-HeldNext fuel (update system statement) kv none keeps sound h =
    after_begin-HeldNext kv _ h (write_row-HeldNext fuel system statement (started 0 kv))
handle-HeldNext fuel (update system statement) kv (some tx) keeps sound h =
    within_tx-HeldNext statement kv tx keeps h
handle-HeldNext fuel (delete system statement) kv none keeps sound h =
    after_begin-HeldNext kv _ h
      (delete_row-HeldNext fuel system statement (started 0 kv) (sound refl))
handle-HeldNext fuel (delete system statement) kv (some tx) keeps sound h =
    within_tx-HeldNext statement kv tx keeps h
handle-HeldNext fuel begin_tx kv current keeps sound h = handle_begin-HeldNext kv current h
handle-HeldNext fuel (commit_tx system) kv current keeps sound h =
    handle_commit-HeldNext fuel system kv current sound h
handle-HeldNext fuel abort_tx kv current keeps sound h = handle_abort-HeldNext kv current h
handle-HeldNext fuel other kv current keeps sound h =
    ok-Returns HeldNext _ (record { kv = kv; current = current }, refl, h)

-- Commands whose statements leave the lock to their transaction, in a run in which no deletion that is
-- given outside a transaction has an error and no commit of the current transaction has one: if the
-- loop returns, no command waits for the lock for ever, and after the last one the lock is taken
-- exactly if there is a current transaction, provided that it was so at first.
pub serve-Held :
    (fuel : ℕ) (commands : List Command) (s : Session) (next : Option Session)
    → All KeepsAll commands
    → NoFaults fuel commands s
    → Held s
    → serve fuel commands s ≡ ok next
    → (s' : Session) × (next ≡ some s') × Held s'
unfolding serve
serve-Held fuel [] s next keeps sound h e = ok-Returns HeldNext (some s) (s, refl, h) next e
serve-Held fuel (command ∷ commands) s next (keeps, keep_all) (sound, sounds) h e =
    let (between, e₁, e₂) = >>=-ok (handle fuel command s) _ e in
    let (s', some_next, h') =
      handle-HeldNext fuel command s.kv s.current keeps sound h between e₁ in
    serve-Held fuel commands s' next keep_all (sounds s' (e₁ ∙ ap ok some_next)) h' (
      sym (
        ap
          (λ n. elim n as (λ x. Run (Option Session)) [
            | none ↦ ok none
            | some s'' ↦ serve fuel commands s''
          ])
          some_next)
      ∙ e₂)

-- A command that waits for the lock for ever.
abbrev pub Waits : ℕ → Command → Session → Type 0
Waits fuel command s = handle fuel command s ≡ ok none

-- A deletion outside a transaction that has an error returns with the lock taken and no transaction:
-- from then on `begin` waits for ever, and so does every other command that writes.
pub delete_fails :
    (fuel : ℕ) (system : System) (statement : Statement) (kv : Kv) (changed : Bool) (w : Writer)
    → kv.locked ≡ false
    → KeepsLock statement
    → statement (started 0 kv) ≡ ok (changed, true, w)
    → (s : Session) × (handle fuel (delete system statement) (record { kv = kv; current = none })
        ≡ ok (some s))
      × (s.kv.locked ≡ true)
      × (s.current ≡ none)
      × Waits fuel begin_tx s
      × ((other_system : System) (next : Statement) (unbegun : Run Bool)
          → Waits fuel (insert other_system next) s
            × Waits fuel (update other_system next) s
            × Waits fuel (delete other_system next) s
            × Waits fuel (create other_system next unbegun) s)
unfolding handle handle_begin handle_write handle_delete handle_create delete_row after_begin begin
    started
delete_fails fuel system statement kv changed w free keeps failing =
    let taken : w.kv.locked ≡ true = keeps (started 0 kv) w changed true failing in
    (
      record { kv = w.kv; current = none },
      rw (free, failing) refl,
      taken,
      refl,
      rw taken refl,
      λ _ _ _. (rw taken refl, rw taken refl, rw taken refl, rw taken refl),
    )
