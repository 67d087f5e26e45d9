-- ===== src/Tests/Transactions.antt =====
-- Transactions over small stores.
use atomix_db.Prelude.{
  ℕ, ◌<◌, ◌≤◌, ◌≡◌, ◌≢◌, inr, refl, true, false, none, some, List, [], ◌∷◌, ok, if◌then◌else◌,
  length, take, arith,
}
use atomix_db.Bytes.{Bytes, make_bytes}
use atomix_db.Bytes.Order.{equal_bytes}
use atomix_db.Node.{BNode, btree_page_size, btree_max_key_size}
use atomix_db.FreeList.{FreeList}
use atomix_db.Store.{Master}
use atomix_db.Store.MasterPage.{master_bytes}
use atomix_db.Store.Memory.{page_get_mapped, copy_mapped}
use atomix_db.Store.Memory.Laws.{pages_in, copy_mapped_lem}
use atomix_db.Tree
use atomix_db.Tree.{get_value}
use atomix_db.Tree.Leaf.{length-make_bytes}
use atomix_db.Tree.Root.{insert_first}
use atomix_db.Transaction.{Kv, Writer, update_at, put_update, page_get, page_use, tx_pager, started}
use atomix_db.Transaction.Commit.{System, copy_updates, free_add, freed_of}
use atomix_db.Transaction.Publish.{AreUpdates, copy_updates_lem}
use atomix_db.Transaction.Puts.{IsOpen, Put, put_page, insert-get_tx}
use atomix_db.Transaction.Outcome.{IsSound, IsWritable, Publishes, Written, written, commit_lem}
use atomix_db.Tests.Pages.{k, m, v, dummy, kv, k-IsPair, m-IsPair, size_two}

abbrev pub no_list : FreeList
no_list = record { head = 0; nodes = []; total = 0; offset = 0; min_reader = 4 }

abbrev pub store : Kv
store = record {
  tree_root = 0;
  free = no_list;
  file = 16384;
  total = 16384;
  chunks = [];
  flushed = 1;
  version = 4;
  readers = [];
  locked = false;
  master = [];
}

abbrev pub writer : Writer
writer = record {
  kv = record store { locked = true };
  tx = record { version = 4; root = 0; n_chunks = 0; free = no_list; nappend = 0; updates = [] };
}

writer-IsOpen : IsOpen writer
writer-IsOpen = record { no_free = refl; no_nodes = refl; master_page = omega arith }

-- The transaction after its first insertion.
pub first_put : Put 0 0 0 dummy (kv ∷ []) k v writer
first_put =
    let (p, leaf, whole, run) = insert_first (tx_pager 0) 0 k v writer k-IsPair in
    put_page 0 0 0 dummy (kv ∷ []) k v writer writer p leaf whole writer-IsOpen refl run

insert-get_tx_example :
    (ptr : ℕ) × (w' : Writer) × (Tree.insert (tx_pager 0) 1 first_put.0 m v first_put.1
      ≡ ok (none, ptr, w'))
    × ((j : Bytes)
        → 0 < length j
        → length j ≤ btree_max_key_size
        → get_value (tx_pager 0) 1 ptr j w' ≡ (
            if equal_bytes m j
            then ok (none, some v)
            else get_value (tx_pager 0) 1 first_put.0 j first_put.1))
    × (w'.kv ≡ first_put.1.kv)
insert-get_tx_example =
    insert-get_tx 0 0 first_put.0 dummy (kv ∷ []) first_put.2 first_put.1 m v first_put.4
      first_put.5 m-IsPair size_two

abbrev pub sound : System
sound = record {
  fallocated = false;
  truncated = true;
  chunk = none;
  synced = true;
  master_written = true;
  master_synced = true;
}

-- Memory of two pages, and a page to write there.
pub chunk : Bytes
chunk = make_bytes 8192

pub length-chunk : length chunk ≡ 8192
unfolding chunk
length-chunk = length-make_bytes 8192

blank_page : BNode
blank_page = make_bytes 4096

length-blank_page : length blank_page ≡ btree_page_size
unfolding blank_page
length-blank_page = length-make_bytes 4096

writes_one : Writer
writes_one = record {
  kv = record store { chunks = chunk ∷ [] };
  tx = record {
    version = 4;
    root = 2;
    n_chunks = 1;
    free = no_list;
    nappend = 0;
    updates = (1, some blank_page) ∷ (0, none) ∷ [];
  };
}

writes_one-AreUpdates :
    AreUpdates (pages_in (take writes_one.tx.n_chunks writes_one.kv.chunks)) writes_one.tx.updates
unfolding writes_one
writes_one-AreUpdates = (
  (λ e. absurd (omega arith), tt),
  (omega (arith, length-chunk), length-blank_page),
  (tt, tt, tt),
)

copy_updates_lem_example :
    (memory : List Bytes) × (copy_updates writes_one.tx.updates
        (take writes_one.tx.n_chunks writes_one.kv.chunks)
      ≡ ok memory)
    × ((ptr : ℕ)
        → update_at ptr writes_one.tx.updates ≢ some none
        → page_get_mapped memory ptr ≡ page_get ptr writes_one)
    × ((ptr : ℕ)
        → update_at ptr writes_one.tx.updates ≡ some none
        → page_get_mapped memory ptr
          ≡ page_get_mapped (take writes_one.tx.n_chunks writes_one.kv.chunks) ptr)
copy_updates_lem_example = copy_updates_lem writes_one writes_one-AreUpdates

copy_mapped_lem_example :
    (memory : List Bytes) × (copy_mapped (chunk ∷ []) 1 blank_page ≡ ok memory)
    × (length memory ≡ 1)
    × (pages_in memory ≡ pages_in (chunk ∷ []))
    × (page_get_mapped memory 1 ≡ ok blank_page)
    × ((p : ℕ) → p ≢ 1 → page_get_mapped memory p ≡ page_get_mapped (chunk ∷ []) p)
copy_mapped_lem_example =
    copy_mapped_lem (chunk ∷ []) 1 blank_page (omega (arith, length-chunk)) length-blank_page

-- A store whose memory is mapped, and a transaction that writes its first page.
abbrev pub in_memory : Kv
in_memory = record store { file = 8192; total = 8192; chunks = chunk ∷ [] }

writes_root : Writer
writes_root = record {
  kv = record in_memory { locked = true };
  tx = record {
    version = 4;
    root = 1;
    n_chunks = 1;
    free = no_list;
    nappend = 1;
    updates = (1, some blank_page) ∷ [];
  };
}

writes_root-IsWritable : IsWritable writes_root
unfolding writes_root
writes_root-IsWritable = record {
  all_mapped = omega arith;
  room = omega arith;
  updates = (tt, (omega (arith, length-chunk), length-blank_page), tt);
  root_used = omega arith;
  pages_fit = omega arith;
  head_fits = omega arith;
}

moves_root : writes_root.kv.tree_root ≢ writes_root.tx.root
unfolding writes_root
moves_root e = absurd (omega (arith, e))

frees_none : freed_of writes_root.tx.updates ≡ []
unfolding writes_root freed_of
frees_none = refl

pub sound-IsSound : IsSound sound
sound-IsSound = record { grows = inr refl; syncs = refl; stores = refl; syncs_master = refl }

commit_lem_example : Publishes 1 sound writes_root writes_root
commit_lem_example =
    commit_lem 1 sound writes_root moves_root frees_none sound-IsSound writes_root-IsWritable

-- A transaction that uses a page, flushes it and frees another.
using : Writer
using = page_use 1 blank_page (started 0 (record in_memory { flushed = 2 }))

using-IsWritable : IsWritable using
unfolding using page_use started put_update
using-IsWritable = record {
  all_mapped = omega arith;
  room = omega arith;
  updates = (tt, (omega (arith, length-chunk), length-blank_page), tt);
  root_used = omega arith;
  pages_fit = omega arith;
  head_fits = omega arith;
}

using_added : free_add 1 (freed_of using.tx.updates) using ≡ ok using
unfolding using page_use started put_update freed_of free_add
using_added = refl

using-Written : Written 1 sound using using
using-Written = written 1 sound using using using_added (inr refl) using-IsWritable

abbrev using_master : Master
using_master = record { root = 0; flushed = 2; free_head = 0 }

abbrev flushed_kv : Kv
flushed_kv = record using.kv {
  file = using-Written.file;
  chunks = using-Written.memory;
  flushed = 2;
  master = master_bytes using_master;
}

abbrev flushed_using : Writer
flushed_using = record { kv = flushed_kv; tx = record using.tx { updates = [] } }

-- A transaction that writes a new root and frees the old one.
four_pages : Bytes
four_pages = make_bytes 16384

replaces_root : Writer
replaces_root = record {
  kv = record store { tree_root = 1; chunks = four_pages ∷ []; flushed = 2; locked = true };
  tx = record {
    version = 4;
    root = 2;
    n_chunks = 1;
    free = no_list;
    nappend = 1;
    updates = (2, some blank_page) ∷ (1, none) ∷ [];
  };
}
