-- ===== src/Transaction/Publish.antt =====
-- What the last loop of `writePages` leaves in the mapped memory: the pages of the transaction.
use atomix_db.Prelude.{
  ℕ, ◌<◌, ◌≡◌, ◌≢◌, refl, sym, ap, ◌∙◌, subst, inl, inr, Option, none, some, List, [], ◌∷◌, Run, ok,
  ◌==◌, length, take, All, Bool-cases, ==_iff, ne→==_false,
}
use atomix_db.Bytes.{Bytes}
use atomix_db.Node.{BNode, btree_page_size}
use atomix_db.Store.Memory.{page_get_mapped}
use atomix_db.Store.Memory.Laws.{pages_in, copy_mapped_lem}
use mathlib.Core.Bool.{false≢true}
use atomix_db.Transaction.{Updates, Writer, update_at, page_get}
use atomix_db.Transaction.Commit.{copy_updates}

abbrev Fits : ℕ → ℕ → Option BNode → Type 0
Fits count ptr none = Unit
Fits count ptr (some page) = (ptr < count) × (length page ≡ btree_page_size)

-- The updates of a map: no pointer twice, and each page is whole and is mapped.
abbrev pub AreUpdates : ℕ → Updates → Type 0
AreUpdates count [] = Unit
AreUpdates count ((ptr, page) ∷ updates) =
    All (λ (u : ℕ × Option BNode). u.0 ≢ ptr) updates
    × Fits count ptr page
    × AreUpdates count updates

update_at-ne :
    (ptr : ℕ) (updates : Updates)
    → All (λ (u : ℕ × Option BNode). u.0 ≢ ptr) updates
    → update_at ptr updates ≡ none
unfolding update_at
update_at-ne ptr [] h = refl
update_at-ne ptr ((n, page) ∷ updates) (hn, h) =
    rw (ne→==_false n ptr hn, update_at-ne ptr updates h) refl

-- What the memory is to hold: the page of an update, and else what it held.
abbrev published : Option (Option BNode) → Run BNode → Run BNode
published (some (some page)) held = ok page
published (some none) held = held
published none held = held

record Published (updates : Updates) (memory : List Bytes) : Type 0 where
  after : List Bytes
  returns : copy_updates updates memory ≡ ok after
  same_length : length after ≡ length memory
  reads :
      (ptr : ℕ)
      → page_get_mapped after ptr ≡ published (update_at ptr updates) (page_get_mapped memory ptr)

copy_updates_page :
    (ptr : ℕ) (page : BNode) (updates : Updates) (memory : List Bytes)
    → update_at ptr updates ≡ none
    → ptr < pages_in memory
    → length page ≡ btree_page_size
    → ((m : List Bytes) → pages_in m ≡ pages_in memory → Published updates m)
    → Published ((ptr, some page) ∷ updates) memory
unfolding copy_updates update_at
copy_updates_page ptr page updates memory once inside whole rest =
    let (m, copied, chunks, pages, read, others) = copy_mapped_lem memory ptr page inside whole in
    let p = rest m pages in
    record {
      after = p.after;
      returns = rw copied p.returns;
      same_length = p.same_length ∙ chunks;
      reads = λ q. elim (Bool-cases (ptr == q)) [
        | inl same ↦
            let e : ptr ≡ q = (==_iff ptr q).0 same in
            rw same (
              subst (λ n. page_get_mapped p.after n ≡ ok page) e
                (p.reads ptr ∙ ap (λ o. published o (page_get_mapped m ptr)) once ∙ read))
        | inr other ↦ rw other (
            p.reads q
            ∙ ap (published (update_at q updates))
                (others q (λ e. absurd (false≢true (sym other ∙ (==_iff ptr q).1 (sym e))))))
      ];
    }

copy_updates-Published :
    (updates : Updates) (memory : List Bytes)
    → AreUpdates (pages_in memory) updates
    → Published updates memory
unfolding copy_updates update_at
copy_updates-Published [] memory h = record {
  after = memory;
  returns = refl;
  same_length = refl;
  reads = λ ptr. refl;
}
copy_updates-Published ((ptr, some page) ∷ updates) memory (once, (inside, whole), h) =
    copy_updates_page ptr page updates memory (update_at-ne ptr updates once) inside whole
      (λ m e. copy_updates-Published updates m (subst (λ n. AreUpdates n updates) (sym e) h))
copy_updates-Published ((ptr, none) ∷ updates) memory (once, fits, h) =
    let p = copy_updates-Published updates memory h in
    record {
      after = p.after;
      returns = p.returns;
      same_length = p.same_length;
      reads = λ q. elim (Bool-cases (ptr == q)) [
        | inl same ↦
            let e : ptr ≡ q = (==_iff ptr q).0 same in
            rw same (
              subst (λ n. page_get_mapped p.after n ≡ page_get_mapped memory n) e
                (p.reads ptr
                  ∙ ap (λ o. published o (page_get_mapped memory ptr))
                      (update_at-ne ptr updates once)))
        | inr other ↦ rw other (p.reads q)
      ];
    }

-- The loop keeps the number of chunks.
pub length-copy_updates :
    (updates : Updates) (memory after : List Bytes)
    → AreUpdates (pages_in memory) updates
    → copy_updates updates memory ≡ ok after
    → length after ≡ length memory
length-copy_updates updates memory after h e =
    let p = copy_updates-Published updates memory h in
    ap length (same (sym e ∙ p.returns)) ∙ p.same_length
  where
    same : {m n : List Bytes} → ◌≡◌ {A = Run (List Bytes)} (ok m) (ok n) → m ≡ n
    same e = cc

-- The last loop of `writePages` on the updates of a transaction, no pointer twice and each page whole
-- and mapped, succeeds. `pageGetMapped` then reads for each page that is not freed what `pageGet` of
-- the transaction reads, and for a freed page what it read before.
pub copy_updates_lem :
    (w : Writer)
    → AreUpdates (pages_in (take w.tx.n_chunks w.kv.chunks)) w.tx.updates
    → (memory : List Bytes) × (copy_updates w.tx.updates (take w.tx.n_chunks w.kv.chunks)
        ≡ ok memory)
      × ((ptr : ℕ)
          → update_at ptr w.tx.updates ≢ some none
          → page_get_mapped memory ptr ≡ page_get ptr w)
      × ((ptr : ℕ)
          → update_at ptr w.tx.updates ≡ some none
          → page_get_mapped memory ptr ≡ page_get_mapped (take w.tx.n_chunks w.kv.chunks) ptr)
unfolding page_get
copy_updates_lem w h =
    let p = copy_updates-Published w.tx.updates (take w.tx.n_chunks w.kv.chunks) h in
    (
      p.after,
      p.returns,
      λ ptr kept. p.reads ptr ∙ same (update_at ptr w.tx.updates) _ kept,
      λ ptr freed.
          p.reads ptr
          ∙ ap (λ o. published o (page_get_mapped (take w.tx.n_chunks w.kv.chunks) ptr)) freed,
    )
  where
    same :
        (o : Option (Option BNode)) (held : Run BNode)
        → o ≢ some none
        → published o held
          ≡ (elim o [ none ↦ held | some none ↦ ok [] | some (some page) ↦ ok page ])
    same none held kept = refl
    same (some none) held kept = absurd (kept refl)
    same (some (some page)) held kept = refl
