-- ===== src/Store/Growth.antt =====
-- `extendFile` of database/persist.go ends, with room for the pages asked for.
use atomix_db.Prelude.{
  ℕ, zero, suc, ◌+◌, ◌*◌, ◌/◌, ◌≤◌, ◌≡◌, refl, ◌⊎◌, inl, inr, Bool, Run, true, false, ok, ltb,
  if◌then◌else◌, le→ltb_false, Bool-cases, arith,
}
use atomix_db.Node.{btree_page_size}
use atomix_db.Store.{grow_pages, extend_file}

growth : (inc : ℕ) → 1 ≤ (if ltb inc 1 then 1 else inc)
growth inc = ground arith

grow_pages_lem :
    (fuel file_pages npages : ℕ)
    → npages ≤ file_pages + fuel
    → (n : ℕ) × (grow_pages fuel file_pages npages ≡ ok n) × (file_pages ≤ n) × (npages ≤ n)
unfolding grow_pages
grow_pages_lem zero file_pages npages h =
    (file_pages, rw (le→ltb_false file_pages npages (omega arith)) refl, omega arith, omega arith)
grow_pages_lem (suc fuel) file_pages npages h =
    let inc = if ltb (file_pages / 8) 1 then 1 else file_pages / 8 in
    let more : 1 ≤ inc = growth (file_pages / 8) in
    let (n, returns, bigger, enough) =
      grow_pages_lem fuel (file_pages + inc) npages (omega arith) in
    elim (Bool-cases (ltb file_pages npages)) [
      | inl less ↦ (n, rw (less, returns), omega arith, enough)
      | inr full ↦ (file_pages, rw full refl, omega arith, ground arith)
    ]

-- `extendFile`, with as many rounds as pages are asked for at most, ends. If one of the calls
-- of fallocate and truncate succeeds there is no error, and mmap.file then has room for the pages; it is
-- not smaller than before, in whole pages.
pub extend_file_lem :
    (fuel file npages : ℕ) (fallocated truncated : Bool)
    → npages ≤ fuel
    → (fallocated ≡ true) ⊎ (truncated ≡ true)
    → (size : ℕ) × (extend_file fuel fallocated truncated file npages ≡ ok (false, size))
      × (npages * btree_page_size ≤ size)
      × (file / btree_page_size ≤ size / btree_page_size)
unfolding extend_file
extend_file_lem fuel file npages fallocated truncated h resized =
    let pages = file / btree_page_size in
    let (n, returns, bigger, enough) = grow_pages_lem fuel pages npages (omega arith) in
    elim (Bool-cases (ltb npages pages)) [
      | inl large ↦ (file, rw large refl, roomy large, omega arith)
      | inr small ↦ (
        n * btree_page_size,
        rw (small, returns) (either fallocated resized (n * btree_page_size)),
        omega arith,
        omega arith,
      )
    ]
  where
    either :
        (b : Bool)
        → (b ≡ true) ⊎ (truncated ≡ true)
        → (size : ℕ)
        → ◌≡◌ {A = Run (Bool × ℕ)}
            (if b
              then ok (false, size)
              else if truncated
              then ok (false, size)
              else ok (true, file))
            (ok (false, size))
    either true h size = refl
    either false (inl h) size = cc
    either false (inr h) size = rw h refl

    below : (a b : ℕ) → ltb a b ≡ true → a ≤ b
    below a b e = ground arith

    roomy : ltb npages (file / btree_page_size) ≡ true → npages * btree_page_size ≤ file
    roomy e = omega (arith, below npages (file / btree_page_size) e)
