-- ===== src/Transaction/Kept.antt =====
-- What `flushPages` and the page callbacks leave of the store: `writePages` and `syncPages` of
-- database/persist.go, and `FreeList.Add` of database/free_list.go.
use atomix_db.Prelude.{
  ℕ, zero, suc, ◌+◌, ◌*◌, ◌≤◌, ◌≡◌, ◌⊎◌, refl, sym, ap, ◌∙◌, subst, inl, inr, Bool, true, false,
  Option, none, some, List, [], ◌∷◌, ◌++◌, ok, assert, ◌>>=◌, ◌==◌, leb, ltb, if◌then◌else◌, length,
  take, drop, Returns, ok-Returns, if-Returns, bind-Returns, arith,
}
use atomix_db.Bytes.{Bytes, make_bytes}
use atomix_db.Node.{BNode, btree_page_size}
use atomix_db.FreeList
use atomix_db.FreeList.{fln_set_header, fln_set_total, total_from}
use atomix_db.Store.{master_store, extend_file}
use atomix_db.Store.Memory.{copy_mapped}
use atomix_db.Transaction.{
  update_at, put_update, with_updates, Kv, Writer, page_get, page_append, page_use, page_new,
}
use atomix_db.Transaction.Commit.{
  free_list_cap, System, set_ptrs, write_back, fl_push, free_add, freed_of, copy_updates,
  extend_mmap, write_pages, store_master, sync_pages, flush_pages,
}

-- A store has the root, the version, the free list and the readers of another and no fewer pages, and
-- its master page is that of the other or one with its root and free list.
pub record IsUncommitted (k k' : Kv) : Type 0 where
  pub same_root : k'.tree_root ≡ k.tree_root
  pub same_version : k'.version ≡ k.version
  pub same_free : k'.free ≡ k.free
  pub same_readers : k'.readers ≡ k.readers
  pub pages_kept : k.flushed ≤ k'.flushed
  pub master_kept :
      (k'.master ≡ k.master)
      ⊎ ((flushed : ℕ) × (master_store
              (record { root = k.tree_root; flushed = flushed; free_head = k.free.head })
            ≡ ok k'.master))

pub IsUncommitted-same : {j k k' : Kv} → k ≡ k' → IsUncommitted j k → IsUncommitted j k'
IsUncommitted-same {j} e h = subst (IsUncommitted j) e h

abbrev SameKv : Writer → ℕ × Writer → Type 0
SameKv w done = done.1.kv ≡ w.kv

pub append-kv : (node : BNode) (w : Writer) → Returns (SameKv w) (page_append node w)
unfolding page_append
append-kv node w =
    bind-Returns (SameKv w) (assert (leb (length node) btree_page_size)) _
      (λ _ _. ok-Returns (SameKv w) _ refl)

pub new-kv : (walk : ℕ) (node : BNode) (w : Writer) → Returns (SameKv w) (page_new walk node w)
unfolding page_new page_use
new-kv walk node w = bind-Returns (SameKv w) (assert (leb (length node) btree_page_size)) _ (λ _ _.
    bind-Returns (SameKv w) (FreeList.pop (λ n. page_get n w) walk w.tx.free) _ (λ (ptr, free) _.
      let popped : Writer = record w { tx = record w.tx { free = free } } in
      bind-Returns (SameKv w) (if ptr == 0 then page_append node popped else ok (ptr, popped)) _
        (λ (ptr', w') e.
          ok-Returns (SameKv w) (ptr', page_use ptr' node w')
            (if-Returns (SameKv w) (ptr == 0) _ _ (append-kv node popped)
              (ok-Returns (SameKv w) (ptr, popped) refl) (ptr', w') e))))

-- What the writes of `flushPages` keep, for any store that the one at `Begin` is compared with.
module _ (k : Kv) where
  unfoldable pub Kept : Writer → Type 0
  Kept w = IsUncommitted k w.kv

  unfoldable pub KeptNext : Bool × Writer → Type 0
  KeptNext done = IsUncommitted k done.1.kv

  StoredNext : Bool × Kv → Type 0
  StoredNext done = IsUncommitted k done.1

  fl_push-Kept :
      (fuel : ℕ) (freed : List ℕ) (w : Writer) → Kept w → Returns Kept (fl_push fuel freed w)
  unfolding fl_push Kept
  fl_push-Kept fuel [] w h = ok-Returns Kept w h
  fl_push-Kept zero (ptr ∷ freed) w h = λ w' e. cc
  fl_push-Kept (suc fuel) (ptr ∷ freed) w h =
      let size =
        if ltb free_list_cap (length (ptr ∷ freed)) then free_list_cap else length (ptr ∷ freed) in
      bind-Returns Kept (fln_set_header (make_bytes 4096) size w.tx.free.head) _ (λ node _.
        bind-Returns Kept (set_ptrs node 0 (take size (ptr ∷ freed))) _ (λ node' _.
          bind-Returns Kept (page_append node' w) _ (λ (head, w') e.
            fl_push-Kept fuel (drop size (ptr ∷ freed)) _
              (IsUncommitted-same (sym (append-kv node' w (head, w') e)) h))))

  pub memory_changed :
      (kv kv' : Kv)
      → kv'.tree_root ≡ kv.tree_root
      → kv'.version ≡ kv.version
      → kv'.free ≡ kv.free
      → kv'.readers ≡ kv.readers
      → kv'.flushed ≡ kv.flushed
      → kv'.master ≡ kv.master
      → IsUncommitted k kv
      → IsUncommitted k kv'
  memory_changed kv kv' root version free readers flushed master h = record {
    same_root = root ∙ h.same_root;
    same_version = version ∙ h.same_version;
    same_free = free ∙ h.same_free;
    same_readers = readers ∙ h.same_readers;
    pages_kept = omega (arith, flushed, h.pages_kept);
    master_kept = elim h.master_kept [
      | inl same ↦ inl (master ∙ same)
      | inr (n, stored) ↦ inr (n, stored ∙ ap ok (sym master))
    ];
  }

  write_back-Kept :
      (ptr : ℕ) (page : BNode) (w : Writer) → Kept w → Returns Kept (write_back ptr page w)
  unfolding write_back Kept
  write_back-Kept ptr page w h = by_update (update_at ptr w.tx.updates)
    where
      by_update :
          (o : Option (Option BNode))
          → Returns Kept (elim o [
            | some _ ↦ ok (with_updates w (put_update ptr (some page) w.tx.updates))
            | none ↦ (do
              memory ← copy_mapped (take w.tx.n_chunks w.kv.chunks) ptr page
              ok (record w {
                kv = record w.kv { chunks = memory ++ drop w.tx.n_chunks w.kv.chunks };
              }))
          ])
      by_update (some _) = ok-Returns Kept _ h
      by_update none =
          bind-Returns Kept (copy_mapped (take w.tx.n_chunks w.kv.chunks) ptr page) _
            (λ memory _. ok-Returns Kept _ (memory_changed w.kv _ refl refl refl refl refl refl h))

  free_add-Kept :
      (fuel : ℕ) (freed : List ℕ) (w : Writer) → Kept w → Returns Kept (free_add fuel freed w)
  unfolding free_add
  free_add-Kept fuel [] w h = ok-Returns Kept w h
  free_add-Kept fuel (ptr ∷ freed) w h =
      bind-Returns Kept (total_from (λ n. page_get n w) fuel w.tx.free.head 0) _ (λ count _.
        bind-Returns Kept (fl_push (length (ptr ∷ freed)) (ptr ∷ freed) w) _ (λ w' e.
          let h' : Kept w' = fl_push-Kept (length (ptr ∷ freed)) (ptr ∷ freed) w h w' e in
          if-Returns Kept (w'.tx.free.head == 0) _ _ (ok-Returns Kept w' h') (
            bind-Returns Kept (page_get w'.tx.free.head w') _ (λ page _.
              bind-Returns Kept (fln_set_total page (count + length (ptr ∷ freed))) _
                (λ page' _. write_back-Kept w'.tx.free.head page' w' h')))))

  extend_mmap-Kept :
      (system : System) (kv : Kv) (npages : ℕ)
      → IsUncommitted k kv
      → IsUncommitted k (extend_mmap system kv npages).1
  unfolding extend_mmap StoredNext
  extend_mmap-Kept system kv npages h =
      by_size (leb (npages * btree_page_size) kv.total) system.chunk
    where
      by_size :
          (b : Bool) (o : Option Bytes)
          → StoredNext (
              if b then (false, kv) else elim o [
                | none ↦ (true, kv)
                | some chunk ↦ (
                  false,
                  record kv { total = kv.total + kv.total; chunks = kv.chunks ++ (chunk ∷ []) },
                )
              ])
      by_size true o = h
      by_size false none = h
      by_size false (some chunk) = memory_changed kv _ refl refl refl refl refl refl h

  write_pages-Kept :
      (fuel : ℕ) (system : System) (w : Writer)
      → Kept w
      → Returns KeptNext (write_pages fuel system w)
  unfolding write_pages Kept KeptNext
  write_pages-Kept fuel system w₀ h₀ =
      bind-Returns KeptNext (free_add fuel (freed_of w₀.tx.updates) w₀) _ (λ w e.
        let h : IsUncommitted k w.kv = free_add-Kept fuel (freed_of w₀.tx.updates) w₀ h₀ w e in
        let npages = w.tx.nappend + w.kv.flushed in
        bind-Returns KeptNext
          (extend_file npages system.fallocated system.truncated w.kv.file npages) _
          (λ (file_failed, file) _.
            let kv : Kv = record w.kv { file = file } in
            let h' = memory_changed w.kv kv refl refl refl refl refl refl h in
            if-Returns KeptNext file_failed _ _
              (ok-Returns KeptNext (true, record w { kv = kv }) h')
              (mapped w kv npages (extend_mmap system kv npages)
                (extend_mmap-Kept system kv npages h'))))
    where
      mapped :
          (w : Writer) (kv : Kv) (npages : ℕ) (done : Bool × Kv)
          → IsUncommitted k done.1
          → Returns KeptNext (
              if done.0 then ok (true, record w { kv = done.1 }) else (do
                memory ← copy_updates w.tx.updates (take w.tx.n_chunks done.1.chunks)
                ok (
                  false,
                  record w {
                    kv = record done.1 { chunks = memory ++ drop w.tx.n_chunks done.1.chunks };
                  },
                )))
      mapped w kv npages done h =
          if-Returns KeptNext done.0 _ _ (ok-Returns KeptNext (true, record w { kv = done.1 }) h) (
            bind-Returns KeptNext (copy_updates w.tx.updates (take w.tx.n_chunks done.1.chunks)) _
              (λ memory _.
                ok-Returns KeptNext _ (memory_changed done.1 _ refl refl refl refl refl refl h)))

  store_master-Kept :
      (system : System) (kv : Kv) → IsUncommitted k kv → Returns StoredNext (store_master system kv)
  unfolding store_master StoredNext
  store_master-Kept system kv h =
      bind-Returns StoredNext
        (master_store
          (record { root = kv.tree_root; flushed = kv.flushed; free_head = kv.free.head }))
        _
        (λ page e.
          if-Returns StoredNext system.master_written _ _
            (ok-Returns StoredNext (false, record kv { master = page })
              (record {
                same_root = h.same_root;
                same_version = h.same_version;
                same_free = h.same_free;
                same_readers = h.same_readers;
                pages_kept = h.pages_kept;
                master_kept = inr (kv.flushed, same_place kv page h e);
              }))
            (ok-Returns StoredNext (true, kv) h))
    where
      same_place :
          (kv : Kv) (page : Bytes)
          → IsUncommitted k kv
          → master_store
              (record { root = kv.tree_root; flushed = kv.flushed; free_head = kv.free.head })
            ≡ ok page
          → master_store
              (record { root = k.tree_root; flushed = kv.flushed; free_head = k.free.head })
            ≡ ok page
      same_place kv page h e =
          subst
            (λ r.
              master_store (record { root = r; flushed = kv.flushed; free_head = k.free.head })
              ≡ ok page)
            h.same_root
            (subst
              (λ f.
                master_store
                  (record { root = kv.tree_root; flushed = kv.flushed; free_head = f.head })
                ≡ ok page)
              h.same_free e)

  sync_pages-Kept : (system : System) (w : Writer) → Kept w → Returns KeptNext (sync_pages system w)
  unfolding sync_pages Kept KeptNext StoredNext
  sync_pages-Kept system w h =
      let kv₁ : Kv = record w.kv { flushed = w.kv.flushed + w.tx.nappend } in
      let h₁ : IsUncommitted k kv₁ = record {
        same_root = h.same_root;
        same_version = h.same_version;
        same_free = h.same_free;
        same_readers = h.same_readers;
        pages_kept = omega (arith, h.pages_kept);
        master_kept = h.master_kept;
      } in
      if-Returns KeptNext system.synced _ _
        (bind-Returns KeptNext (store_master system kv₁) _ (λ (failed, kv) e.
          ok-Returns KeptNext _ (store_master-Kept system kv₁ h₁ (failed, kv) e)))
        (ok-Returns KeptNext (true, w) h)

  pub flush_pages-Kept :
      (fuel : ℕ) (system : System) (w : Writer)
      → Kept w
      → Returns KeptNext (flush_pages fuel system w)
  unfolding flush_pages Kept KeptNext
  flush_pages-Kept fuel system w h =
      bind-Returns KeptNext (write_pages fuel system w) _ (λ (failed, w') e.
        let h' = write_pages-Kept fuel system w h (failed, w') e in
        if-Returns KeptNext failed _ _ (ok-Returns KeptNext (true, w') h')
          (sync_pages-Kept system w' h'))
