-- ===== src/Sessions/Lock.antt =====
-- Who holds the writer lock between the commands of database/commands.go.
use atomix_db.Prelude.{
  ℕ, ◌≡◌, ◌≢◌, refl, ap, ◌∙◌, Bool, true, false, Option, none, some, List, [], ◌∷◌, Run, ok, ◌>>=◌,
  >>=-ok, Returns, ok-Returns, if-Returns, bind-Returns, if◌then◌else◌,
}
use atomix_db.Transaction.{Kv, Tx, Writer, begin, started}
use atomix_db.Transaction.Commit.{System, commit}
use atomix_db.Sessions.Release.{Free, end_commit-Opened, end_abort-Free}
use atomix_db.Sessions.{
  Statement, Command, create, insert, delete, update, begin_tx, commit_tx, abort_tx, other, Session,
  unlocking, end_commit, end_abort, idle, within, write_row, delete_row, create_table, after_begin,
  within_tx, handle_begin, handle_commit, handle_abort, handle,
}

-- The lock is taken exactly when there is a current transaction.
abbrev pub held : Option Tx → Bool
held none = false
held (some tx) = true

abbrev pub Held : Session → Type 0
Held s = s.kv.locked ≡ held s.current

-- A statement leaves the lock to its transaction.
abbrev pub KeepsLock : Statement → Type 0
KeepsLock statement =
    (w w' : Writer) (changed failed : Bool)
    → statement w ≡ ok (changed, failed, w')
    → w'.kv.locked ≡ w.kv.locked

-- The statements of a command leave the lock.
abbrev pub KeepsAll : Command → Type 0
KeepsAll (create system statement unbegun) = KeepsLock statement
KeepsAll (insert system statement) = KeepsLock statement
KeepsAll (delete system statement) = KeepsLock statement
KeepsAll (update system statement) = KeepsLock statement
KeepsAll begin_tx = Unit
KeepsAll (commit_tx system) = Unit
KeepsAll abort_tx = Unit
KeepsAll other = Unit

-- Where the command is given, it does not fail in one of the two ways that lose the lock: it is no
-- deletion outside a transaction that has an error, and no commit of the current transaction that has.
abbrev pub NoFault : ℕ → Command → Session → Type 0
NoFault fuel (create system statement unbegun) s = Unit
NoFault fuel (insert system statement) s = Unit
NoFault fuel (delete system statement) s =
    s.current ≡ none
    → (changed : Bool) (w' : Writer) → statement (started 0 s.kv) ≢ ok (changed, true, w')
NoFault fuel (update system statement) s = Unit
NoFault fuel begin_tx s = Unit
NoFault fuel (commit_tx system) s =
    (tx : Tx)
    → s.current ≡ some tx
    → (w' : Writer) → commit fuel system (record { kv = s.kv; tx = tx }) ≢ ok (true, w')
NoFault fuel abort_tx s = Unit
NoFault fuel other s = Unit

-- The same along a run of the loop.
abbrev pub NoFaults : ℕ → List Command → Session → Type 0
NoFaults fuel [] s = Unit
NoFaults fuel (command ∷ commands) s =
    NoFault fuel command s
    × ((s' : Session) → handle fuel command s ≡ ok (some s') → NoFaults fuel commands s')

-- The next session exists, and holds the lock as it should.
abbrev pub HeldNext : Option Session → Type 0
HeldNext next = (s : Session) × (next ≡ some s) × Held s

idle-HeldNext : (kv : Kv) → Free kv → Returns HeldNext (ok (idle kv))
unfolding Free
idle-HeldNext kv free =
    ok-Returns HeldNext (idle kv) (record { kv = kv; current = none }, refl, free)

abort-HeldNext : (w : Writer) → Returns HeldNext (end_abort w >>= λ kv. ok (idle kv))
abort-HeldNext w =
    bind-Returns HeldNext (end_abort w) _ (λ kv e. idle-HeldNext kv (end_abort-Free w kv e))

commit-HeldNext :
    (fuel : ℕ) (system : System) (w : Writer)
    → Returns HeldNext (end_commit fuel system w >>= λ done. ok (idle done.1.kv))
unfolding Free
commit-HeldNext fuel system w =
    bind-Returns HeldNext (end_commit fuel system w) _
      (λ done e. idle-HeldNext done.1.kv (end_commit-Opened fuel system w done e))

pub write_row-HeldNext :
    (fuel : ℕ) (system : System) (statement : Statement) (w : Writer)
    → Returns HeldNext (write_row fuel system statement w)
unfolding write_row
write_row-HeldNext fuel system statement w =
    bind-Returns HeldNext (statement w) _ (λ (changed, failed, w') _.
      if-Returns HeldNext failed _ _ (abort-HeldNext w')
        (if-Returns HeldNext changed _ _ (commit-HeldNext fuel system w') (abort-HeldNext w')))

pub create_table-HeldNext :
    (fuel : ℕ) (system : System) (statement : Statement) (w : Writer)
    → Returns HeldNext (create_table fuel system statement w)
unfolding create_table
create_table-HeldNext fuel system statement w =
    bind-Returns HeldNext (statement w) _ (λ (changed, failed, w') _.
      if-Returns HeldNext failed _ _ (abort-HeldNext w') (commit-HeldNext fuel system w'))

pub delete_row-HeldNext :
    (fuel : ℕ) (system : System) (statement : Statement) (w : Writer)
    → ((changed : Bool) (w' : Writer) → statement w ≢ ok (changed, true, w'))
    → Returns HeldNext (delete_row fuel system statement w)
unfolding delete_row
delete_row-HeldNext fuel system statement w sound =
    bind-Returns HeldNext (statement w) _ (λ (deleted, failed, w') e. by_result deleted failed w' e)
  where
    by_result :
        (deleted failed : Bool) (w' : Writer)
        → statement w ≡ ok (deleted, failed, w')
        → Returns HeldNext (
            if failed
            then ok (idle w'.kv)
            else if deleted
            then (end_commit fuel system w' >>= λ done. ok (idle done.1.kv))
            else (end_abort w' >>= λ kv. ok (idle kv)))
    by_result deleted true w' e = absurd (sound deleted w' e)
    by_result deleted false w' e =
        if-Returns HeldNext deleted _ _ (commit-HeldNext fuel system w') (abort-HeldNext w')

-- `Begin` where the lock is open.
pub after_begin-HeldNext :
    (kv : Kv) (run : Writer → Run (Option Session))
    → kv.locked ≡ false
    → Returns HeldNext (run (started 0 kv))
    → Returns HeldNext (after_begin kv run)
unfolding after_begin begin
after_begin-HeldNext kv run free h = rw free h

pub within_tx-HeldNext :
    (statement : Statement) (kv : Kv) (tx : Tx)
    → KeepsLock statement
    → kv.locked ≡ true
    → Returns HeldNext (within_tx statement kv tx)
unfolding within_tx
within_tx-HeldNext statement kv tx keeps taken =
    let w : Writer = record { kv = kv; tx = tx } in
    bind-Returns HeldNext (statement w) _ (λ (changed, failed, w') e.
      ok-Returns HeldNext (within w')
        (record { kv = w'.kv; current = some w'.tx }, refl, keeps w w' changed failed e ∙ taken))

pub handle_begin-HeldNext :
    (kv : Kv) (current : Option Tx)
    → Held (record { kv = kv; current = current })
    → Returns HeldNext (handle_begin (record { kv = kv; current = current }))
unfolding handle_begin started
handle_begin-HeldNext kv none h = after_begin-HeldNext kv _ h (
    ok-Returns HeldNext (within (started 0 kv))
      (record { kv = (started 0 kv).kv; current = some (started 0 kv).tx }, refl, refl))
handle_begin-HeldNext kv (some tx) h =
    ok-Returns HeldNext _ (record { kv = kv; current = some tx }, refl, h)

end_commit_sound :
    (fuel : ℕ) (system : System) (w w' : Writer)
    → ((w' : Writer) → commit fuel system w ≢ ok (true, w'))
    → end_commit fuel system w ≢ ok (true, w')
unfolding end_commit
end_commit_sound fuel system w w' sound e =
    let ((failed, done), e₁, e₂) = >>=-ok (commit fuel system w) _ e in
    let (kv, _, e₃) = >>=-ok (unlocking w.kv done.kv) _ e₂ in
    let failing : failed ≡ true = cc in sound done (e₁ ∙ ap (λ f. ok (f, done)) failing)

pub handle_commit-HeldNext :
    (fuel : ℕ) (system : System) (kv : Kv) (current : Option Tx)
    → NoFault fuel (commit_tx system) (record { kv = kv; current = current })
    → Held (record { kv = kv; current = current })
    → Returns HeldNext (handle_commit fuel system (record { kv = kv; current = current }))
unfolding handle_commit Free
handle_commit-HeldNext fuel system kv none sound h =
    ok-Returns HeldNext _ (record { kv = kv; current = none }, refl, h)
handle_commit-HeldNext fuel system kv (some tx) sound h =
    let w : Writer = record { kv = kv; tx = tx } in
    bind-Returns HeldNext (end_commit fuel system w) _ (λ (failed, w') e. by_result failed w' e)
  where
    by_result :
        (failed : Bool) (w' : Writer)
        → end_commit fuel system (record { kv = kv; tx = tx }) ≡ ok (failed, w')
        → Returns HeldNext (ok (if failed then within w' else idle w'.kv))
    by_result true w' e =
        absurd (end_commit_sound fuel system (record { kv = kv; tx = tx }) w' (sound tx refl) e)
    by_result false w' e =
        idle-HeldNext w'.kv
          (end_commit-Opened fuel system (record { kv = kv; tx = tx }) (false, w') e)

pub handle_abort-HeldNext :
    (kv : Kv) (current : Option Tx)
    → Held (record { kv = kv; current = current })
    → Returns HeldNext (handle_abort (record { kv = kv; current = current }))
unfolding handle_abort
handle_abort-HeldNext kv none h =
    ok-Returns HeldNext _ (record { kv = kv; current = none }, refl, h)
handle_abort-HeldNext kv (some tx) h = abort-HeldNext (record { kv = kv; tx = tx })
