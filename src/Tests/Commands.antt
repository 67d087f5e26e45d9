-- ===== src/Tests/Commands.antt =====
-- Rounds of the loop with a transaction that is aborted, and a deletion that fails.
use atomix_db.Prelude.{
  ◌≡◌, ◌≢◌, refl, sym, ap, ◌∙◌, subst, Option, Bool, true, false, none, some, List, [], ◌∷◌, Run,
  ok,
}
use atomix_db.Transaction.{Tx, Writer, put_update, page_del, started, begin, abort}
use atomix_db.Transaction.Commit.{System, unlocked, commit}
use atomix_db.Sessions.{
  Statement, Command, create, insert, delete, update, begin_tx, commit_tx, abort_tx, Session,
  unlocking, end_abort, after_begin, within_tx, handle_begin, handle_abort, handle_commit,
  handle_delete, delete_row, end_commit, handle_write, handle, serve,
}
use atomix_db.Sessions.Lock.{Held, KeepsLock, NoFault, NoFaults}
use atomix_db.Sessions.Loop.{Waits, serve-Held, delete_fails}
use atomix_db.Tests.Transactions.{store, writer, sound}

-- A statement that frees a page, and one that has an error.
abbrev frees_page : Statement
frees_page w = ok (true, false, page_del 3 w)

abbrev refuses : Statement
refuses w = ok (false, true, w)

same_lock :
    (v w : Writer) (a b c d : Bool)
    → ◌≡◌ {A = Run (Bool × Bool × Writer)} (ok (a, b, v)) (ok (c, d, w))
    → w.kv.locked ≡ v.kv.locked
same_lock v w a b c d e = ap (λ (u : Writer). u.kv.locked) same
  where
    same : w ≡ v
    same = cc

frees_page-KeepsLock : KeepsLock frees_page
unfolding page_del
frees_page-KeepsLock w w' changed failed e = same_lock (page_del 3 w) w' true false changed failed e

refuses-KeepsLock : KeepsLock refuses
refuses-KeepsLock w w' changed failed e = same_lock w w' false true changed failed e

abbrev at_rest : Session
at_rest = record { kv = store; current = none }

abbrev in_tx : Session
in_tx = record { kv = writer.kv; current = some writer.tx }

abbrev freed : Session
freed = record { kv = writer.kv; current = some (record writer.tx { updates = (3, none) ∷ [] }) }

abbrev deleting : List Command
deleting = delete sound frees_page ∷ begin_tx ∷ commit_tx sound ∷ []

-- A deletion that has an error in a transaction, one that is committed at once, and a commit.
abbrev rounds : List Command
rounds = begin_tx ∷ insert sound frees_page ∷ delete sound refuses ∷ abort_tx ∷ deleting

served : serve 1 rounds at_rest ≡ ok (some at_rest)
unfolding serve handle handle_begin handle_commit handle_abort handle_write handle_delete within_tx
    delete_row after_begin end_abort end_commit unlocking commit begin started abort page_del
    put_update
served = refl

module _ (command : Command) (s t : Session) (goes : handle 1 command s ≡ ok (some t)) where
  only : (s' : Session) → handle 1 command s ≡ ok (some s') → t ≡ s'
  only s' e = same (sym goes ∙ e)
    where
      same : {t s' : Session} → ◌≡◌ {A = Run (Option Session)} (ok (some t)) (ok (some s')) → t ≡ s'
      same e = cc

  goes_on :
      (commands : List Command)
      → NoFaults 1 commands t
      → (s' : Session) → handle 1 command s ≡ ok (some s')
      → NoFaults 1 commands s'
  goes_on commands h s' e = subst (NoFaults 1 commands) (only s' e) h

no_fault : (v w : Writer) → ◌≢◌ {A = Run (Bool × Writer)} (ok (false, v)) (ok (true, w))
no_fault v w e = cc

no_error :
    (v w : Writer) (a b : Bool)
    → ◌≢◌ {A = Run (Bool × Bool × Writer)} (ok (a, false, v)) (ok (b, true, w))
no_error v w a b e = cc

commits : NoFault 1 (commit_tx sound) in_tx
unfolding commit
commits tx same w' e = no_fault (unlocked writer) w' (goes ∙ e)
  where
    same_tx : {t u : Tx} → some t ≡ some u → t ≡ u
    same_tx e = cc

    goes : ok (false, unlocked writer) ≡ commit 1 sound (record { kv = writer.kv; tx = tx })
    goes = ap (λ t. commit 1 sound (record { kv = writer.kv; tx = t })) (same_tx same)

deleting-NoFaults : NoFaults 1 deleting at_rest
unfolding handle handle_begin handle_commit handle_delete delete_row after_begin end_commit
    unlocking commit begin started page_del
deleting-NoFaults = (
  λ _ changed w' e. no_error (page_del 3 (started 0 store)) w' true changed e,
  goes_on (delete sound frees_page) at_rest at_rest refl (begin_tx ∷ commit_tx sound ∷ [])
      (tt, goes_on begin_tx at_rest in_tx refl (commit_tx sound ∷ []) (commits, λ _ _. tt)),
)

rounds-NoFaults : NoFaults 1 rounds at_rest
unfolding handle handle_begin handle_abort handle_write handle_delete within_tx after_begin
    end_abort unlocking begin started abort page_del put_update
rounds-NoFaults = (
  tt,
  goes_on begin_tx at_rest in_tx refl
      (insert sound frees_page ∷ delete sound refuses ∷ abort_tx ∷ deleting)
      (
        tt,
        goes_on (insert sound frees_page) in_tx freed refl
            (delete sound refuses ∷ abort_tx ∷ deleting)
            (
              λ no_tx. cc,
              goes_on (delete sound refuses) freed freed refl (abort_tx ∷ deleting)
                  (tt, goes_on abort_tx freed at_rest refl deleting deleting-NoFaults),
            ),
      ),
)

serve-Held_example : (s' : Session) × (some at_rest ≡ some s') × Held s'
serve-Held_example =
    serve-Held 1 rounds at_rest (some at_rest)
      (
        tt,
        (frees_page-KeepsLock, (refuses-KeepsLock, (tt, (frees_page-KeepsLock, (tt, (tt, tt)))))),
      )
      rounds-NoFaults refl served

delete_fails_example :
    (s : Session) × (handle 1 (delete sound refuses) at_rest ≡ ok (some s))
    × (s.kv.locked ≡ true)
    × (s.current ≡ none)
    × Waits 1 begin_tx s
    × ((other_system : System) (next : Statement) (unbegun : Run Bool)
        → Waits 1 (insert other_system next) s
          × Waits 1 (update other_system next) s
          × Waits 1 (delete other_system next) s
          × Waits 1 (create other_system next unbegun) s)
delete_fails_example =
    delete_fails 1 sound refuses store false (started 0 store) refl refuses-KeepsLock refl
