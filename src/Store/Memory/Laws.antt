-- ===== src/Store/Memory/Laws.antt =====
-- A page that is copied to the mapped memory of database/persist.go is read back, and the others stay.
use atomix_db.Prelude.{
  ℕ, suc, ◌+◌, ◌-◌, ◌*◌, ◌/◌, ◌≤◌, ◌<◌, ◌≡◌, ◌≢◌, refl, sym, ap, ◌∙◌, inl, inr, true, false, List,
  [], ◌∷◌, ◌++◌, Run, ok, ◌>>=◌, ltb, length, length-append, append_assoc, append-nil, cut,
  Bool-cases, arith,
}
use atomix_db.Bytes.{Bytes, slice, copy}
use atomix_db.Bytes.Le.{slice_at, copy_at}
use atomix_db.Node.{BNode, btree_page_size}
use atomix_db.Store.Memory.{mapped_from, page_get_mapped, copy_from, copy_mapped}

-- A page of a chunk, with what stands before and behind it.
record Cut (chunk : Bytes) (n : ℕ) : Type 0 where
  before : Bytes
  page : Bytes
  after : Bytes
  parts : chunk ≡ before ++ (page ++ after)
  before_size : btree_page_size * n ≡ length before
  page_size : length page ≡ btree_page_size

Cut-page : (chunk : Bytes) (n : ℕ) → n < length chunk / btree_page_size → Cut chunk n
Cut-page chunk n h =
    let (before, rest, e, size) = cut (btree_page_size * n) chunk (omega arith) in
    let (page, after, e', size') =
      cut btree_page_size rest (omega (arith, ap length e, length-append before rest)) in
    record {
      before = before;
      page = page;
      after = after;
      parts = e ∙ ap (λ t. before ++ t) e';
      before_size = size;
      page_size = sym size';
    }

-- The chunk with the page replaced.
module _ {chunk : Bytes} {n : ℕ} (c : Cut chunk n) (page : BNode)
    (whole : length page ≡ btree_page_size) where
  replaced : Bytes
  replaced = c.before ++ (page ++ c.after)

  length-replaced : length replaced ≡ length chunk
  unfolding replaced
  length-replaced = omega (
    arith,
    ap length c.parts,
    length-append c.before (c.page ++ c.after),
    length-append c.page c.after,
    length-append c.before (page ++ c.after),
    length-append page c.after,
    c.page_size,
    whole,
  )

  -- The three steps of the copy.
  copied :
      (slice chunk (btree_page_size * n) (btree_page_size * n + btree_page_size) ≡ ok c.page)
      × (copy c.page 0 page ≡ ok page)
      × (copy chunk (btree_page_size * n) page ≡ ok replaced)
  unfolding replaced
  copied =
      let lo = btree_page_size * n in
      (
        slice_at c.before c.page c.after lo (lo + btree_page_size) c.parts c.before_size
            (omega (arith, c.page_size)),
        copy_at [] c.page [] page 0 (sym (append-nil c.page)) refl
              (omega (arith, whole, c.page_size))
            ∙ ap ok (append-nil page),
        copy_at c.before c.page c.after page lo c.parts c.before_size
            (omega (arith, whole, c.page_size)),
      )

  read_same : slice replaced (btree_page_size * n) (btree_page_size * n + btree_page_size) ≡ ok page
  unfolding replaced
  read_same =
      slice_at c.before page c.after (btree_page_size * n) (btree_page_size * n + btree_page_size)
        refl c.before_size (omega (arith, whole))

-- A page of the middle part of a chunk.
read_inside :
    (pre mid post : Bytes) {k : ℕ} (c : Cut mid k) (m : ℕ) {chunk : Bytes}
    → chunk ≡ pre ++ (mid ++ post)
    → btree_page_size * m ≡ length pre + btree_page_size * k
    → slice chunk (btree_page_size * m) (btree_page_size * m + btree_page_size) ≡ ok c.page
read_inside pre mid post {k} c m {chunk} e size =
    let parts : chunk ≡ (pre ++ c.before) ++ (c.page ++ (c.after ++ post)) =
      e ∙ ap (λ t. pre ++ (t ++ post)) c.parts ∙ simp (append_assoc) in
    slice_at (pre ++ c.before) c.page (c.after ++ post) _ _ parts
      (omega (arith, size, c.before_size, length-append pre c.before)) (omega (arith, c.page_size))

-- The other pages of the chunk.
read_other :
    {chunk : Bytes} {n : ℕ} (c : Cut chunk n) (page : BNode) (whole : length page ≡ btree_page_size)
    (m : ℕ)
    → m < length chunk / btree_page_size
    → m ≢ n
    → slice (replaced c page whole) (btree_page_size * m) (btree_page_size * m + btree_page_size)
      ≡ slice chunk (btree_page_size * m) (btree_page_size * m + btree_page_size)
unfolding replaced
read_other {chunk} {n} c page whole m inside ne = elim (Bool-cases (ltb m n)) [
  | inl less ↦
      let c' = Cut-page c.before m (below less) in
      read_inside [] c.before (page ++ c.after) c' m refl (omega arith)
      ∙ sym (read_inside [] c.before (c.page ++ c.after) c' m c.parts (omega arith))
  | inr more ↦
      let k = m - n - 1 in
      let far : n < m = above more in
      let c' = Cut-page c.after k (omega (arith, sizes, far)) in
      let here : c.after ≡ c.after ++ [] = sym (append-nil c.after) in
      read_inside (c.before ++ page) c.after [] c' m
        (sym (append_assoc c.before page c.after) ∙ ap (λ t. (c.before ++ page) ++ t) here)
        (omega (arith, far, c.before_size, whole, length-append c.before page))
      ∙ sym (
          read_inside (c.before ++ c.page) c.after [] c' m
            (c.parts
              ∙ sym (append_assoc c.before c.page c.after)
              ∙ ap (λ t. (c.before ++ c.page) ++ t) here)
            (omega (arith, far, c.before_size, c.page_size, length-append c.before c.page)))
]
  where
    sizes : length chunk ≡ length c.before + (btree_page_size + length c.after)
    sizes = omega (
      arith,
      ap length c.parts,
      length-append c.before (c.page ++ c.after),
      length-append c.page c.after,
      c.page_size,
    )

    below : ltb m n ≡ true → m < length c.before / btree_page_size
    below less = omega (arith, lt_of m n less, c.before_size)
      where
        lt_of : (a b : ℕ) → ltb a b ≡ true → a < b
        lt_of a b h = ground arith

    above : ltb m n ≡ false → n < m
    above more = ground arith

-- How many pages are mapped.
abbrev pub pages_in : List Bytes → ℕ
pages_in [] = 0
pages_in (chunk ∷ chunks) = length chunk / btree_page_size + pages_in chunks

-- What a copy of a page leaves: as many chunks and pages, the page where it was copied, and the other
-- pages as they were.
pub record Copied (start : ℕ) (chunks : List Bytes) (ptr : ℕ) (page : BNode) (r : Run (List Bytes))
    : Type 0 where
  pub memory : List Bytes
  pub returns : r ≡ ok memory
  pub same_chunks : length memory ≡ length chunks
  pub same_pages : pages_in memory ≡ pages_in chunks
  pub read : mapped_from start memory ptr ≡ ok page
  pub others :
      (p : ℕ) → start ≤ p → p ≢ ptr → mapped_from start memory p ≡ mapped_from start chunks p

lt_of : (a b : ℕ) → ltb a b ≡ true → a < b
lt_of a b h = ground arith

ge_of : (a b : ℕ) → ltb a b ≡ false → b ≤ a
ge_of a b h = ground arith

in_chunk :
    (start : ℕ) (chunk : Bytes) (chunks : List Bytes) (ptr : ℕ) (page : BNode)
    → start ≤ ptr
    → length page ≡ btree_page_size
    → ltb ptr (start + length chunk / btree_page_size) ≡ true
    → Copied start (chunk ∷ chunks) ptr page (copy_from start (chunk ∷ chunks) ptr page)
unfolding copy_from mapped_from
in_chunk start chunk chunks ptr page low whole here =
    let n = ptr - start in
    let c =
      Cut-page chunk n (omega (arith, lt_of ptr (start + length chunk / btree_page_size) here)) in
    let (got, filled, put) = copied c page whole in
    let new = replaced c page whole in
    let size : length new / btree_page_size ≡ length chunk / btree_page_size =
      ap (λ (l : ℕ). l / btree_page_size) (length-replaced c page whole) in
    record {
      memory = new ∷ chunks;
      returns = rw (here, got, filled, put) refl;
      same_chunks = refl;
      same_pages = ap (λ (l : ℕ). l + pages_in chunks) size;
      read = rw (size, here) (read_same c page whole);
      others = λ p low' ne. elim (Bool-cases (ltb p (start + length chunk / btree_page_size))) [
        | inl inside ↦
            rw (size, inside)
              (read_other c page whole (p - start)
                (omega (arith, lt_of p (start + length chunk / btree_page_size) inside, low'))
                (λ e. ne (omega (arith, e, low, low'))))
        | inr outside ↦ rw (size, outside) refl
      ];
    }

behind :
    (start : ℕ) (chunk : Bytes) (chunks : List Bytes) (ptr : ℕ) (page : BNode)
    → ltb ptr (start + length chunk / btree_page_size) ≡ false
    → Copied
        (start + length chunk / btree_page_size)
        chunks
        ptr
        page
        (copy_from (start + length chunk / btree_page_size) chunks ptr page)
    → Copied start (chunk ∷ chunks) ptr page (
        copy_from (start + length chunk / btree_page_size) chunks ptr page >>= λ rest.
        ok (chunk ∷ rest))
unfolding mapped_from
behind start chunk chunks ptr page later c = record {
  memory = chunk ∷ c.memory;
  returns = rw c.returns refl;
  same_chunks = ap suc c.same_chunks;
  same_pages = ap (λ (l : ℕ). length chunk / btree_page_size + l) c.same_pages;
  read = rw later c.read;
  others = λ p low ne. elim (Bool-cases (ltb p (start + length chunk / btree_page_size))) [
    | inl inside ↦ rw inside refl
    | inr outside ↦
        rw outside (c.others p (ge_of p (start + length chunk / btree_page_size) outside) ne)
  ];
}

copy_from_lem :
    (start : ℕ) (chunks : List Bytes) (ptr : ℕ) (page : BNode)
    → start ≤ ptr
    → ptr < start + pages_in chunks
    → length page ≡ btree_page_size
    → Copied start chunks ptr page (copy_from start chunks ptr page)
unfolding copy_from mapped_from
copy_from_lem start [] ptr page low high whole = absurd (omega arith)
copy_from_lem start (chunk ∷ chunks) ptr page low high whole =
    elim (Bool-cases (ltb ptr (start + length chunk / btree_page_size))) [
      | inl here ↦ in_chunk start chunk chunks ptr page low whole here
      | inr later ↦
          let c =
            copy_from_lem (start + length chunk / btree_page_size) chunks ptr page
              (ge_of ptr (start + length chunk / btree_page_size) later) (omega (arith, high))
              whole in
          rw later (behind start chunk chunks ptr page later c)
    ]

-- Copying a page of 4096 bytes to a page of the mapped memory succeeds. The memory then has as many
-- chunks and pages, `pageGetMapped` reads the page where it was copied, and all others as before.
pub copy_mapped_lem :
    (chunks : List Bytes) (ptr : ℕ) (page : BNode)
    → ptr < pages_in chunks
    → length page ≡ btree_page_size
    → (memory : List Bytes) × (copy_mapped chunks ptr page ≡ ok memory)
      × (length memory ≡ length chunks)
      × (pages_in memory ≡ pages_in chunks)
      × (page_get_mapped memory ptr ≡ ok page)
      × ((p : ℕ) → p ≢ ptr → page_get_mapped memory p ≡ page_get_mapped chunks p)
unfolding copy_mapped page_get_mapped
copy_mapped_lem chunks ptr page inside whole =
    let c = copy_from_lem 0 chunks ptr page (omega arith) (omega arith) whole in
    (c.memory, c.returns, c.same_chunks, c.same_pages, c.read, λ p ne. c.others p (omega arith) ne)
