-- ===== src/Sessions/Release.antt =====
-- `Commit` and `Abort` of database/transactions.go leave the writer lock open.
use atomix_db.Prelude.{
  ℕ, ◌≡◌, ◌==◌, refl, Bool, true, false, Returns, ok-Returns, if-Returns, bind-Returns,
}
use atomix_db.Transaction.{Kv, Writer, rollback_tx, abort}
use atomix_db.Transaction.Commit.{System, write_pages, store_master, unlocked, commit}
use atomix_db.Sessions.{unlocking, end_commit, end_abort}

abbrev pub Opened : Bool × Writer → Type 0
Opened done = done.1.kv.locked ≡ false

-- Every way out of `Commit` leaves the lock open.
commit-Opened : (fuel : ℕ) (system : System) (w : Writer) → Returns Opened (commit fuel system w)
unfolding commit
commit-Opened fuel system w₀ =
    if-Returns Opened (w₀.kv.tree_root == w₀.tx.root) _ _
      (ok-Returns Opened (false, unlocked w₀) refl)
      (bind-Returns Opened (write_pages fuel system w₀) _ (λ (failed, w) _.
        if-Returns Opened failed _ _ (ok-Returns Opened (true, unlocked (rollback_tx w)) refl) (
          if-Returns Opened system.synced _ _
            (bind-Returns Opened (store_master system _) _ (λ (unwritten, kv) _.
              ok-Returns Opened (_, record { kv = record kv { locked = false }; tx = w.tx }) refl))
            (ok-Returns Opened (true, unlocked (rollback_tx w)) refl))))

unfoldable pub Free : Kv → Type 0
Free kv = kv.locked ≡ false

unlocking-Free : (before after : Kv) → Free after → Returns Free (unlocking before after)
unfolding unlocking
unlocking-Free before after free =
    if-Returns Free before.locked _ _ (ok-Returns Free after free) (λ kv e. cc)

pub end_commit-Opened :
    (fuel : ℕ) (system : System) (w : Writer) → Returns Opened (end_commit fuel system w)
unfolding end_commit Free
end_commit-Opened fuel system w = bind-Returns Opened (commit fuel system w) _ (λ (failed, w') e.
    bind-Returns Opened (unlocking w.kv w'.kv) _ (λ kv e'.
      ok-Returns Opened (failed, record w' { kv = kv })
        (unlocking-Free w.kv w'.kv (commit-Opened fuel system w (failed, w') e) kv e')))

pub end_abort-Free : (w : Writer) → Returns Free (end_abort w)
unfolding end_abort abort Free
end_abort-Free w = unlocking-Free w.kv (abort w) refl
