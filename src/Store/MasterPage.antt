-- ===== src/Store/MasterPage.antt =====
-- `masterLoad` of database/persist.go reads back what `masterStore` wrote.
use atomix_db.Prelude.{
  ℕ, ◌/◌, ◌≤◌, ◌<◌, ◌≡◌, refl, ◌∙◌, ◌||◌, false, [], ◌++◌, ok, ◌>>=◌, ltb, leb, ne→==_false,
  replicate, arith,
}
use mathlib.Core.Logic.{◌≢◌}
use atomix_db.Bytes.{Bytes, le64, make_bytes}
use atomix_db.Bytes.Le.{get_uint64_at, put_uint64_at, slice_at, copy_at}
use atomix_db.Bytes.Order.Laws.{equal_bytes_refl}
use atomix_db.Node.{btree_page_size}
use atomix_db.Store.{Master, loaded, db_sig, master_load, master_store}

-- The fields fit their bytes, and the pages are in the file.
pub record IsMaster (file : ℕ) (db : Master) : Type 0 where
  pub root_used : db.root < db.flushed
  pub in_file : db.flushed ≤ file / btree_page_size
  pub flushed_fits : db.flushed < 18446744073709551616
  pub head_fits : db.free_head < 18446744073709551616

abbrev pub master_bytes : Master → Bytes
master_bytes db = db_sig ++ (le64 db.root ++ (le64 db.flushed ++ le64 db.free_head))

pub master_store_lem : (db : Master) → master_store db ≡ ok (master_bytes db)
unfolding master_store replicate
master_store_lem db =
    let z = make_bytes 8 in
    let s₁ =
      copy_at [] z (z ++ (z ++ z)) db_sig 0 {b = make_bytes 32}
        (unfold make_bytes replicate in refl) refl (unfold make_bytes replicate in refl) in
    let s₂ =
      put_uint64_at db_sig z (z ++ z) 8 db.root refl refl (unfold make_bytes replicate in refl) in
    let s₃ =
      put_uint64_at (db_sig ++ le64 db.root) z z 16 db.flushed refl refl
        (unfold make_bytes replicate in refl) in
    let s₄ =
      put_uint64_at (db_sig ++ (le64 db.root ++ le64 db.flushed)) z [] 24 db.free_head
        {b = db_sig ++ (le64 db.root ++ (le64 db.flushed ++ z))}
        (unfold make_bytes replicate in refl) refl (unfold make_bytes replicate in refl) in
    rw (s₁, s₂, s₃) (s₄ ∙ refl)

-- `masterLoad` on a file whose first bytes are what `masterStore` wrote gives the state that was
-- stored, whatever follows and whatever was there before, where the root is a used page, the used
-- pages are in the file and the numbers fit 64 bits.
pub master_load-store :
    (file : ℕ) (db before : Master) (rest : Bytes)
    → IsMaster file db
    → (master_store db >>= λ page. master_load file (page ++ rest) before) ≡ ok (loaded db)
unfolding master_load
master_load-store file db before rest h =
    let page = master_bytes db ++ rest in
    let some_file : (file ≢ 0) = λ e. absurd (omega (arith, h.root_used, h.in_file)) in
    let g₁ =
      get_uint64_at db_sig (le64 db.flushed ++ (le64 db.free_head ++ rest)) 8 db.root {b = page}
        refl refl (omega (arith, h.root_used, h.flushed_fits)) in
    let g₂ =
      get_uint64_at (db_sig ++ le64 db.root) (le64 db.free_head ++ rest) 16 db.flushed {b = page}
        refl refl h.flushed_fits in
    let g₃ =
      get_uint64_at (db_sig ++ (le64 db.root ++ le64 db.flushed)) rest 24 db.free_head {b = page}
        refl refl h.head_fits in
    let sig =
      slice_at [] db_sig (le64 db.root ++ (le64 db.flushed ++ (le64 db.free_head ++ rest))) 0 8
        {b = page} refl refl refl in
    let good : ((ltb db.flushed 1 || ltb (file / btree_page_size) db.flushed)
          || leb db.flushed db.root)
        ≡ false =
      tests h.root_used h.in_file in
    rw
      (
        master_store_lem db,
        ne→==_false file 0 some_file,
        g₁,
        g₂,
        g₃,
        sig,
        equal_bytes_refl db_sig,
        good,
      )
      refl
  where
    tests : {a b c : ℕ} → a < b → b ≤ c → ((ltb b 1 || ltb c b) || leb b a) ≡ false
    tests h g = ground arith
