-- ===== src/Transaction/Outcome.antt =====
-- What `Commit` of database/transactions.go publishes: the state that the next transaction and the next
-- start find.
use atomix_db.Prelude.{
  ℕ, zero, suc, ◌+◌, ◌*◌, ◌/◌, ◌<◌, ◌≤◌, ◌≡◌, ◌≢◌, ◌⊎◌, refl, sym, ap, ◌∙◌, true, false, none, some,
  List, [], ◌∷◌, ◌++◌, ok, ◌>>=◌, le→leb, length, take, drop, take_all, append-nil, ne→==_false,
  arith,
}
use atomix_db.Bytes.{Bytes}
use atomix_db.Node.{btree_page_size}
use atomix_db.Store.{Master, loaded, master_load}
use atomix_db.Store.Growth.{extend_file_lem}
use atomix_db.Store.Memory.{page_get_mapped}
use atomix_db.Store.Memory.Laws.{pages_in}
use atomix_db.Store.MasterPage.{IsMaster, master_store_lem, master_bytes, master_load-store}
use atomix_db.Transaction.{update_at, Kv, Writer, page_get, started, begin}
use atomix_db.Transaction.Commit.{
  System, free_add, freed_of, extend_mmap, write_pages, store_master, sync_pages, flush_pages,
  commit,
}
use atomix_db.Transaction.Publish.{AreUpdates, copy_updates_lem, length-copy_updates}

-- The pages of the file that are used after a commit.
abbrev pub n_pages : Writer → ℕ
n_pages w = w.tx.nappend + w.kv.flushed

-- What the master page is to say after a commit.
abbrev pub committed_master : Writer → Master
committed_master w = record {
  root = w.tx.root;
  flushed = w.kv.flushed + w.tx.nappend;
  free_head = w.tx.free.head;
}

-- The system does what a commit asks of it, without mapping more of the file.
pub record IsSound (system : System) : Type 0 where
  pub grows : (system.fallocated ≡ true) ⊎ (system.truncated ≡ true)
  pub syncs : system.synced ≡ true
  pub stores : system.master_written ≡ true
  pub syncs_master : system.master_synced ≡ true

-- A transaction can be written: its memory is that of the store and has room for all its pages, its
-- updates are whole pages of it, its root is a used page, and the numbers of the master page fit.
pub record IsWritable (w : Writer) : Type 0 where
  pub all_mapped : length w.kv.chunks ≤ w.tx.n_chunks
  pub room : n_pages w * btree_page_size ≤ w.kv.total
  pub updates : AreUpdates (pages_in (take w.tx.n_chunks w.kv.chunks)) w.tx.updates
  pub root_used : w.tx.root < n_pages w
  pub pages_fit : n_pages w < 18446744073709551616
  pub head_fits : w.tx.free.head < 18446744073709551616

pub drop_all : {A : Type 0} (n : ℕ) (xs : List A) → length xs ≤ n → drop n xs ≡ []
drop_all zero [] h = refl
drop_all zero (x ∷ xs) h = absurd (omega arith)
drop_all (suc n) [] h = refl
drop_all (suc n) (x ∷ xs) h = drop_all n xs (omega arith)

-- The pages that a transaction has written after `FreeList.Add`, in the mapped memory.
pub record Written (walk : ℕ) (system : System) (w₀ w : Writer) : Type 0 where
  pub memory : List Bytes
  pub file : ℕ
  pub returns :
      write_pages walk system w₀
      ≡ ok (false, record w { kv = record w.kv { file = file; chunks = memory } })
  pub same_length : length memory ≡ length w.kv.chunks
  pub in_file : n_pages w ≤ file / btree_page_size
  pub reads :
      (ptr : ℕ)
      → update_at ptr w.tx.updates ≢ some none
      → page_get_mapped memory ptr ≡ page_get ptr w

pub written :
    (walk : ℕ) (system : System) (w₀ w : Writer)
    → free_add walk (freed_of w₀.tx.updates) w₀ ≡ ok w
    → (system.fallocated ≡ true) ⊎ (system.truncated ≡ true)
    → IsWritable w
    → Written walk system w₀ w
unfolding write_pages extend_mmap
written walk system w₀ w added grows h =
    let (file, extended, enough, _) =
      extend_file_lem (n_pages w) w.kv.file (n_pages w) system.fallocated system.truncated
        (omega arith) grows in
    let (memory, copied, reads, _) = copy_updates_lem w h.updates in
    record {
      memory = memory;
      file = file;
      returns =
          rw
            (
              added,
              extended,
              le→leb (n_pages w * btree_page_size) w.kv.total h.room,
              copied,
              drop_all w.tx.n_chunks w.kv.chunks h.all_mapped,
              append-nil memory,
            )
            refl;
      same_length =
          length-copy_updates w.tx.updates (take w.tx.n_chunks w.kv.chunks) memory h.updates copied
          ∙ ap length (take_all w.tx.n_chunks w.kv.chunks h.all_mapped);
      in_file = omega (arith, enough);
      reads = reads;
    }

-- `flushPages` of a transaction that frees no page, on a system that does not fail: the transaction has
-- no updates left, and reads every page as before.
abbrev pub Flushed : ℕ → System → Writer → Type 0
Flushed walk system w =
    (w' : Writer) × (flush_pages walk system w ≡ ok (false, w'))
    × (w'.tx ≡ record w.tx { updates = [] })
    × (w'.kv.tree_root ≡ w.kv.tree_root)
    × ((ptr : ℕ) → update_at ptr w.tx.updates ≢ some none → page_get ptr w' ≡ page_get ptr w)

pub flush_pages_lem :
    (walk : ℕ) (system : System) (w : Writer)
    → freed_of w.tx.updates ≡ []
    → IsSound system
    → IsWritable w
    → Flushed walk system w
unfolding flush_pages sync_pages store_master free_add page_get update_at
flush_pages_lem walk system w none_freed sound h =
    let wrote = written walk system w w (rw none_freed refl) sound.grows h in
    let db : Master = record {
      root = w.kv.tree_root;
      flushed = w.kv.flushed + w.tx.nappend;
      free_head = w.kv.free.head;
    } in
    (
      record {
        kv = record w.kv {
          file = wrote.file;
          chunks = wrote.memory;
          flushed = w.kv.flushed + w.tx.nappend;
          master = master_bytes db;
        };
        tx = record w.tx { updates = [] };
      },
      rw (wrote.returns, sound.syncs, master_store_lem db, sound.stores, sound.syncs_master) refl,
      refl,
      refl,
      λ ptr kept.
          ap (λ l. page_get_mapped l ptr)
            (take_all w.tx.n_chunks wrote.memory (omega (arith, wrote.same_length, h.all_mapped)))
          ∙ wrote.reads ptr kept,
    )

-- What the next transaction and the next start find after a commit of `w₀`, which frees pages in `w`:
-- `Begin` does not wait, and in its transaction `pageGet` reads each page that is not freed as `w` did;
-- `masterLoad` reads the root, the number of pages and the free list of `w` from the master page.
abbrev pub Publishes : ℕ → System → Writer → Writer → Type 0
Publishes walk system w₀ w =
    (done : Writer) × (commit walk system w₀ ≡ ok (false, done))
    × (done.kv.version ≡ w.kv.version + 1)
    × (done.kv.free ≡ w.tx.free)
    × ((before : Master) (rest : Bytes)
        → master_load done.kv.file (done.kv.master ++ rest) before
          ≡ ok (loaded (committed_master w)))
    × ((nappend : ℕ)
        → (next : Writer) × (begin nappend done.kv ≡ some next)
          × (next.tx.root ≡ w.tx.root)
          × (next.tx.version ≡ w.kv.version + 1)
          × ((ptr : ℕ)
              → update_at ptr w.tx.updates ≢ some none
              → page_get ptr next ≡ page_get ptr w))

page_get_fresh :
    (nappend ptr : ℕ) (kv : Kv) → page_get ptr (started nappend kv) ≡ page_get_mapped kv.chunks ptr
unfolding page_get started update_at
page_get_fresh nappend ptr kv =
    ap (λ l. page_get_mapped l ptr) (take_all (length kv.chunks) kv.chunks (omega arith))

pub publishes :
    (walk : ℕ) (system : System) (w₀ w : Writer)
    → w₀.kv.tree_root ≢ w₀.tx.root
    → free_add walk (freed_of w₀.tx.updates) w₀ ≡ ok w
    → IsSound system
    → IsWritable w
    → Publishes walk system w₀ w
unfolding commit store_master begin
publishes walk system w₀ w changed added sound h =
    let wrote = written walk system w₀ w added sound.grows h in
    let kv : Kv = record w.kv {
      file = wrote.file;
      chunks = wrote.memory;
      flushed = w.kv.flushed + w.tx.nappend;
      free = w.tx.free;
      tree_root = w.tx.root;
      version = w.kv.version + 1;
      locked = false;
      master = master_bytes (committed_master w);
    } in
    let fits : IsMaster wrote.file (committed_master w) = record {
      root_used = omega (arith, h.root_used);
      in_file = omega (arith, wrote.in_file);
      flushed_fits = omega (arith, h.pages_fit);
      head_fits = h.head_fits;
    } in
    (
      record { kv = kv; tx = w.tx },
      rw
          (
            ne→==_false w₀.kv.tree_root w₀.tx.root changed,
            wrote.returns,
            sound.syncs,
            master_store_lem (committed_master w),
            sound.stores,
            sound.syncs_master,
          )
          refl,
      refl,
      refl,
      λ before rest.
          ap (λ m. m >>= λ page. master_load wrote.file (page ++ rest) before)
            (sym (master_store_lem (committed_master w)))
          ∙ master_load-store wrote.file (committed_master w) before rest fits,
      λ nappend. (
        started nappend kv,
        refl,
        refl,
        refl,
        λ ptr kept. page_get_fresh nappend ptr kv ∙ wrote.reads ptr kept,
      ),
    )

-- `Commit` of a transaction that changed the root and can be written, and frees no page, on a system
-- that does not fail: there is no error, and the free list is that of the transaction. `Begin` does not
-- wait then, its version is the next one, and in its transaction the root is that of the committed one
-- and `pageGet` reads every page as the committed one did. `masterLoad` of the next start reads its
-- root, number of pages and free list from the master page, whatever follows it.
pub commit_lem :
    (walk : ℕ) (system : System) (w : Writer)
    → w.kv.tree_root ≢ w.tx.root
    → freed_of w.tx.updates ≡ []
    → IsSound system
    → IsWritable w
    → Publishes walk system w w
unfolding free_add
commit_lem walk system w changed none_freed sound h =
    publishes walk system w w changed (rw none_freed refl) sound h
