-- ===== src/Updates/First.antt =====
-- `SetWithMode` of database/updates.go on the first pair of a tree, with the flush that follows.
use atomix_db.Prelude.{
  ℕ, suc, ◌+◌, ◌*◌, ◌<◌, ◌≤◌, ◌≡◌, ◌≢◌, ◌⊎◌, refl, sym, ap, ◌∙◌, inl, inr, true, false, Option,
  none, some, [], ◌∷◌, ok, le→leb, if◌then◌else◌, length, take, ==_iff, Ordering, arith,
}
use mathlib.Core.Option
use atomix_db.Bytes.{Bytes}
use atomix_db.Bytes.Order.{compare_bytes, equal_bytes}
use atomix_db.Node.{BNode, btree_page_size, btree_max_key_size}
use atomix_db.Node.Edit.{leaf_entry}
use atomix_db.Node.Layout.{Entry}
use atomix_db.Node.Sorted.{find}
use atomix_db.Tree
use atomix_db.Tree.{get_value}
use atomix_db.Tree.Root.{IsPair, LeafRoot, key_tests, get_leaf, insert_first}
use atomix_db.Store.Memory.Laws.{pages_in}
use atomix_db.Transaction.{
  update_at, put_update, Tx, Writer, page_get, page_append, page_use, page_new, tx_pager,
}
use atomix_db.Transaction.Puts.{IsOpen, pop_empty}
use atomix_db.Transaction.Commit.{System, freed_of}
use atomix_db.Transaction.Outcome.{n_pages, IsSound, IsWritable, flush_pages_lem}
use atomix_db.Updates.{Mode, Fault, InsertReq, newest, kvtx_set, set_with_mode}
use atomix_db.Updates.Stored.{tx_kvtx}

-- A transaction without updates, on an empty tree and an empty free list, over a store with its master
-- page, whose memory is mapped and has room for one page more.
pub record IsEmpty (w : Writer) : Type 0 where
  pub no_root : w.tx.root ≡ 0
  pub no_updates : w.tx.updates ≡ []
  pub opened : IsOpen w
  pub all_mapped : length w.kv.chunks ≤ w.tx.n_chunks
  pub room : (n_pages w + 1) * btree_page_size ≤ w.kv.total
  pub mapped : n_pages w < pages_in (take w.tx.n_chunks w.kv.chunks)
  pub pages_fit : n_pages w + 1 < 18446744073709551616

-- The error of a mode on a tree that does not have the key.
abbrev pub refusal : Mode → Option Fault
refusal Mode.upsert = none
refusal Mode.update_only = some Fault.not_found
refusal Mode.insert_only = none
refusal (Mode.other n) = some Fault.invalid_mode

-- The transaction after `pageNew` of its first page, which is the root.
abbrev with_page : BNode → Writer → Writer
with_page node w = record w {
  tx = record w.tx {
    root = n_pages w;
    free = record w.tx.free { total = 0; offset = 0 };
    nappend = w.tx.nappend + 1;
    updates = (n_pages w, some node) ∷ [];
  };
}

abbrev unrooted : BNode → Writer → Writer
unrooted node w = let w' = with_page node w in record w' { tx = record w'.tx { root = w.tx.root } }

module _ (walk : ℕ) (w : Writer) (h : IsEmpty w) (node : BNode)
    (whole : length node ≡ btree_page_size) where
  page_new_first : page_new walk node w ≡ ok (n_pages w, unrooted node w)
  unfolding page_new page_append page_use put_update
  page_new_first =
      rw
        (
          le→leb (length node) btree_page_size (omega (arith, whole)),
          pop_empty (λ n. page_get n w) walk w.tx.free h.opened.no_free h.opened.no_nodes,
          h.no_updates,
          (==_iff (n_pages w) (n_pages w)).1 refl,
        )
        refl

  first-IsWritable : IsWritable (with_page node w)
  first-IsWritable = record {
    all_mapped = h.all_mapped;
    room = omega (arith, h.room);
    updates = (tt, (h.mapped, whole), tt);
    root_used = omega arith;
    pages_fit = omega (arith, h.pages_fit);
    head_fits = omega (arith, h.opened.no_free);
  }

  first_frees_none : freed_of (with_page node w).tx.updates ≡ []
  unfolding freed_of
  first_frees_none = refl

  first_update : update_at (n_pages w) (with_page node w).tx.updates ≡ some (some node)
  unfolding update_at
  first_update = rw ((==_iff (n_pages w) (n_pages w)).1 refl) refl

  first_read : page_get (n_pages w) (with_page node w) ≡ ok node
  unfolding page_get
  first_read = rw (page_get, first_update) refl

by_order :
    (key val : Bytes) (o : Ordering)
    → Option.map
        (λ (e : Entry). e.val)
        (elim o [
          | Ordering.lt ↦ none
          | Ordering.eq ↦ some (leaf_entry key val)
          | Ordering.gt ↦ none
        ])
      ≡ (if (elim o [ Ordering.eq ↦ true | _ ↦ false ]) then some val else none)
by_order key val Ordering.lt = refl
by_order key val Ordering.eq = refl
by_order key val Ordering.gt = refl

find_pair :
    (key val j : Bytes)
    → 0 < length j
    → Option.map (λ (e : Entry). e.val) (find j (leaf_entry [] [] ∷ leaf_entry key val ∷ []))
      ≡ (if equal_bytes key j then some val else none)
unfolding find equal_bytes compare_bytes
find_pair key val [] some_key = absurd (omega arith)
find_pair key val (x ∷ j) some_key = by_order key val (compare_bytes key (x ∷ j))

-- The tree holds the pair and nothing else, and the transaction has no updates.
abbrev pub HoldsPair : ℕ → ℕ → System → Bytes → Bytes → Writer → Type 0
HoldsPair height walk system key val w =
    (w.tx.updates ≡ [])
    × ((j : Bytes)
        → 0 < length j
        → length j ≤ btree_max_key_size
        → get_value (tx_pager walk) (suc height) w.tx.root j w
          ≡ ok (none, if equal_bytes key j then some val else none))

module _ (height walk : ℕ) (system : System) (sound : IsSound system) (w : Writer)
    (h : IsEmpty w) where
  set_first :
      (key val : Bytes)
      → IsPair key val
      → (w' : Writer) × (kvtx_set (tx_kvtx (suc height) walk system) key val w ≡ ok (none, w'))
        × (w'.kv.tree_root ≡ w.kv.tree_root)
        × HoldsPair height walk system key val w'
  unfolding kvtx_set
  set_first key val fits =
      let (p, leaf, whole, run) = insert_first (tx_pager walk) (suc height) key val w fits in
      let inserted : Tree.insert (tx_pager walk) (suc height) w.tx.root key val w
          ≡ ok (none, n_pages w, unrooted p w) =
        ap (λ r. Tree.insert (tx_pager walk) (suc height) r key val w) h.no_root
        ∙ run
        ∙ rw (page_new_first walk w h p whole) refl in
      let (w', flushed, same_tx, same_root, reads) =
        flush_pages_lem walk system (with_page p w) (first_frees_none walk w h p whole) sound
          (first-IsWritable walk w h p whole) in
      let kept : update_at (n_pages w) (with_page p w).tx.updates ≢ some none =
        λ e. not_freed p (sym (first_update walk w h p whole) ∙ e) in
      let root' : w'.tx.root ≡ n_pages w = ap (λ (t : Tx). t.root) same_tx in
      let leaf' : LeafRoot (tx_pager walk) (n_pages w) (leaf_entry [] []) (leaf_entry key val ∷ [])
          p w' =
        record {
          rooted = λ e. absurd (omega (arith, e, h.opened.master_page));
          got = reads (n_pages w) kept ∙ first_read walk w h p whole;
          leaf = leaf;
          one_page = whole;
        } in
      (
        w',
        rw (inserted, flushed) refl,
        same_root,
        (
          ap (λ (t : Tx). t.updates) same_tx,
          λ j some_key small.
              ap (λ r. get_value (tx_pager walk) (suc height) r j w') root'
              ∙ get_leaf (tx_pager walk) (n_pages w) (leaf_entry [] []) (leaf_entry key val ∷ []) p
                  w' leaf' j height some_key small
              ∙ ap (λ v. ok (none, v)) (find_pair key val j some_key),
        ),
      )
    where
      not_freed : (p : BNode) → some (some p) ≢ some none
      not_freed p e = cc

  get_none :
      (key : Bytes)
      → 0 < length key
      → length key ≤ btree_max_key_size
      → get_value (tx_pager walk) (suc height) w.tx.root key w ≡ ok (none, none)
  unfolding get_value
  get_none key some_key small = rw (key_tests key some_key small, h.no_root) refl

  -- `SetWithMode` of a pair of allowed sizes in a transaction on an empty tree, on a system that does
  -- not fail: where the mode is for keys that are there, or no mode at all, the error says so and
  -- nothing changes. Else the pair is inserted and flushed: the transaction has no updates left, `Get`
  -- in it finds the value at the key and nothing at any other key of an allowed size, and the root of
  -- the store is as it was.
  pub set_with_mode_first :
      (req : InsertReq)
      → IsPair req.key req.value
      → ((f : Fault) × (refusal req.mode ≡ some f)
          × (set_with_mode (tx_kvtx (suc height) walk system) req w ≡ ok ((false, some f), req, w)))
        ⊎ ((req' : InsertReq) × (w' : Writer) × (refusal req.mode ≡ none)
            × (set_with_mode (tx_kvtx (suc height) walk system) req w ≡ ok ((true, none), req', w'))
            × (w'.kv.tree_root ≡ w.kv.tree_root)
            × HoldsPair height walk system req.key req.value w')
  unfolding set_with_mode
  set_with_mode_first req fits = by_mode req.mode refl
    where
      by_mode :
          (mode : Mode)
          → req.mode ≡ mode
          → ((f : Fault) × (refusal req.mode ≡ some f)
              × (set_with_mode (tx_kvtx (suc height) walk system) req w
                  ≡ ok ((false, some f), req, w)))
            ⊎ ((req' : InsertReq) × (w' : Writer) × (refusal req.mode ≡ none)
                × (set_with_mode (tx_kvtx (suc height) walk system) req w
                    ≡ ok ((true, none), req', w'))
                × (w'.kv.tree_root ≡ w.kv.tree_root)
                × HoldsPair height walk system req.key req.value w')
      by_mode Mode.upsert e =
          let (w', done, root, holds) = set_first req.key req.value fits in
          inr (
            record req { updated = true; old = newest none req.old },
            w',
            rw e refl,
            rw (e, get_none req.key fits.some_key fits.key_fits, done) refl,
            root,
            holds,
          )
      by_mode Mode.insert_only e =
          let (w', done, root, holds) = set_first req.key req.value fits in
          inr (
            record req { added = true },
            w',
            rw e refl,
            rw (e, get_none req.key fits.some_key fits.key_fits, done) refl,
            root,
            holds,
          )
      by_mode Mode.update_only e =
          inl
            (Fault.not_found, rw e refl, rw (e, get_none req.key fits.some_key fits.key_fits) refl)
      by_mode (Mode.other n) e = inl (Fault.invalid_mode, rw e refl, rw e refl)
