-- ===== src/Tests/Files.antt =====
-- The master page and the size of a small file.
use atomix_db.Prelude.{
  ℕ, ◌*◌, ◌/◌, ◌≤◌, ◌≡◌, inr, refl, true, false, [], ◌∷◌, ◌++◌, ok, ◌>>=◌, arith,
}
use atomix_db.Node.{btree_page_size}
use atomix_db.Store.{Master, loaded, master_load, master_store, extend_file}
use atomix_db.Store.MasterPage.{IsMaster, master_load-store}
use atomix_db.Store.Growth.{extend_file_lem}

abbrev three_pages : Master
three_pages = record { root = 2; flushed = 3; free_head = 0 }

abbrev nothing : Master
nothing = record { root = 0; flushed = 0; free_head = 0 }

three_pages-IsMaster : IsMaster 16384 three_pages
three_pages-IsMaster = record {
  root_used = omega arith;
  in_file = omega arith;
  flushed_fits = omega arith;
  head_fits = omega arith;
}

master_load-store_example :
    (master_store three_pages >>= λ page. master_load 16384 (page ++ (7 ∷ [])) nothing)
    ≡ ok (loaded three_pages)
master_load-store_example =
    master_load-store 16384 three_pages nothing (7 ∷ []) three_pages-IsMaster

extend_file_lem_example :
    (size : ℕ) × (extend_file 5 false true 8192 5 ≡ ok (false, size))
    × (5 * btree_page_size ≤ size)
    × (8192 / btree_page_size ≤ size / btree_page_size)
extend_file_lem_example = extend_file_lem 5 8192 5 false true (omega arith) (inr refl)
