-- ===== src/Transaction/Puts.antt =====
-- `Insert` and `Get` of database/b_tree.go over the pages of a transaction.
use atomix_db.Prelude.{
  ℕ, suc, ◌+◌, ◌<◌, ◌≤◌, ◌≡◌, ◌≢◌, refl, sym, ap, ◌∙◌, inl, inr, true, Option, none, some, List, [],
  ◌∷◌, Run, ok, ◌>>=◌, ◌==◌, leb, le→leb, if◌then◌else◌, length, Bool-cases, ==_iff, arith,
}
use mathlib.Core.Option
use atomix_db.Bytes.{Bytes}
use atomix_db.Bytes.Order.{equal_bytes}
use atomix_db.Node.{BNode, btree_page_size, btree_max_key_size}
use atomix_db.Node.Layout.{Entry}
use atomix_db.Node.Edit.{node_size, leaf_entry}
use atomix_db.Node.Sorted.{find, insert}
use atomix_db.FreeList
use atomix_db.FreeList.{FreeList, load_cache, fl_pop1}
use atomix_db.Tree
use atomix_db.Tree.{TreeError, get_value}
use atomix_db.Tree.Leaf.{LeafPage}
use atomix_db.Tree.Root.{IsPair, LeafRoot, insert_leaf, get_leaf, insert_dummy, key-ne-nil}
use atomix_db.Node.Sorted.Maps.{find-insert}
use atomix_db.Transaction.{
  Updates, update_at, put_update, Writer, page_get, page_append, page_use, page_new, page_del,
  tx_pager,
}

pub update_at-put_update :
    (k j : ℕ) (v : Option BNode) (updates : Updates)
    → update_at j (put_update k v updates) ≡ (if k == j then some v else update_at j updates)
unfolding update_at put_update
update_at-put_update k j v [] = refl
update_at-put_update k j v ((n, old) ∷ updates) = ground (arith, update_at-put_update k j v updates)

-- A transaction whose free list is empty, over a store with its master page.
pub record IsOpen (w : Writer) : Type 0 where
  pub no_free : w.tx.free.head ≡ 0
  pub no_nodes : w.tx.free.nodes ≡ []
  pub master_page : 0 < w.kv.flushed

pub pop_empty :
    (get : ℕ → Run BNode) (fuel : ℕ) (fl : FreeList)
    → fl.head ≡ 0
    → fl.nodes ≡ []
    → FreeList.pop get fuel fl ≡ ok (0, record fl { total = 0; offset = 0 })
unfolding FreeList.pop load_cache fl_pop1
pop_empty get fuel fl none_free no_nodes = rw (no_nodes, none_free) refl

-- `pageNew` appends a page where the free list is empty.
page_new_lem :
    (fuel : ℕ) (node : BNode) (w : Writer)
    → IsOpen w
    → length node ≡ btree_page_size
    → (ptr : ℕ) × (w' : Writer) × (page_new fuel node w ≡ ok (ptr, w'))
      × (ptr ≢ 0)
      × (page_get ptr w' ≡ ok node)
      × IsOpen w'
      × (w'.kv ≡ w.kv)
unfolding page_new page_append page_use page_get
page_new_lem fuel node w h whole =
    let free = record w.tx.free { total = 0; offset = 0 } in
    let ptr = w.tx.nappend + w.kv.flushed in
    let updates = put_update ptr (some node) (put_update ptr (some node) w.tx.updates) in
    let small : leb (length node) btree_page_size ≡ true =
      le→leb (length node) btree_page_size (omega arith) in
    let fresh : ptr ≢ 0 = λ e. absurd (omega (arith, e, h.master_page)) in
    let stored : update_at ptr updates ≡ some (some node) =
      update_at-put_update ptr ptr (some node) (put_update ptr (some node) w.tx.updates)
      ∙ rw ((==_iff ptr ptr).1 refl) refl in
    (
      ptr,
      record {
        kv = w.kv;
        tx = record w.tx { free = free; nappend = w.tx.nappend + 1; updates = updates };
      },
      rw (small, pop_empty (λ n. page_get n w) fuel w.tx.free h.no_free h.no_nodes) refl,
      fresh,
      rw (stored, page_get) refl,
      record { no_free = h.no_free; no_nodes = h.no_nodes; master_page = h.master_page },
      refl,
    )

pub page_del-IsOpen : (ptr : ℕ) (w : Writer) → IsOpen w → IsOpen (page_del ptr w)
unfolding page_del
page_del-IsOpen ptr w h = record {
  no_free = h.no_free;
  no_nodes = h.no_nodes;
  master_page = h.master_page;
}

pub page_del-kv : (ptr : ℕ) (w : Writer) → (page_del ptr w).kv ≡ w.kv
unfolding page_del
page_del-kv ptr w = refl

-- What `Insert` through the pages of a transaction leaves: the new root, a leaf that holds the map with
-- the pair put in, and a store that is as it was.
abbrev pub Put : ℕ → ℕ → ℕ → Entry → List Entry → Bytes → Bytes → Writer → Type 0
Put walk fuel root d es key val w =
    (ptr : ℕ) × (w' : Writer) × (p : BNode) × (Tree.insert (tx_pager walk) fuel root key val w
      ≡ ok (none, ptr, w'))
    × LeafRoot (tx_pager walk) ptr d es p w'
    × IsOpen w'
    × (w'.kv ≡ w.kv)

pub put_page :
    (walk fuel root : ℕ) (d : Entry) (es : List Entry) (key val : Bytes) (w w₀ : Writer) (p : BNode)
    → LeafPage d es p
    → length p ≡ btree_page_size
    → IsOpen w₀
    → w₀.kv ≡ w.kv
    → Tree.insert (tx_pager walk) fuel root key val w
      ≡ (page_new walk p w₀ >>= λ done. ok (none, done.0, done.1))
    → Put walk fuel root d es key val w
put_page walk fuel root d es key val w w₀ p leaf whole opened same run =
    let (ptr, w', made, rooted, got, opened', kept) = page_new_lem walk p w₀ opened whole in
    (
      ptr,
      w',
      p,
      run ∙ rw made refl,
      record { rooted = rooted; got = got; leaf = leaf; one_page = whole },
      opened',
      kept ∙ same,
    )

abbrev pub answered : Option Bytes → Run (Option TreeError × Option Bytes)
answered val = ok (none, val)

-- `Insert` of a pair of allowed sizes in a transaction with an empty free list, whose tree is a leaf
-- with the room: the transaction then has a tree that is a leaf with the pair put in, `Get` of any
-- allowed key finds the new value at the key and the old answer at all others, and the store that
-- other transactions see is unchanged.
pub insert-get_tx :
    (walk fuel root : ℕ) (d : Entry) (es : List Entry) (page : BNode) (w : Writer) (key val : Bytes)
    → LeafRoot (tx_pager walk) root d es page w
    → IsOpen w
    → IsPair key val
    → node_size (d ∷ insert (leaf_entry key val) es) ≤ btree_page_size
    → (ptr : ℕ) × (w' : Writer) × (Tree.insert (tx_pager walk) (suc fuel) root key val w
        ≡ ok (none, ptr, w'))
      × ((j : Bytes)
          → 0 < length j
          → length j ≤ btree_max_key_size
          → get_value (tx_pager walk) (suc fuel) ptr j w' ≡ (
              if equal_bytes key j
              then answered (some val)
              else get_value (tx_pager walk) (suc fuel) root j w))
      × (w'.kv ≡ w.kv)
insert-get_tx walk fuel root d es page w key val h opened fits room =
    let e = leaf_entry key val in
    let (p, leaf, whole, run) =
      insert_leaf (tx_pager walk) root d es page w h key fuel val fits room in
    let (ptr, w', q, done, root', opened', kept) =
      put_page walk (suc fuel) root d (insert e es) key val w (page_del root w) p leaf whole
        (page_del-IsOpen root w opened) (page_del-kv root w) run in
    (
      ptr,
      w',
      done,
      λ j some_key small.
          get_leaf (tx_pager walk) ptr d (insert e es) q w' root' j fuel some_key small
          ∙ found j some_key
          ∙ ap (λ r. if equal_bytes key j then answered (some val) else r)
              (sym (get_leaf (tx_pager walk) root d es page w h j fuel some_key small)),
      kept,
    )
  where
    found :
        (j : Bytes)
        → 0 < length j
        → answered (Option.map (λ (x : Entry). x.val) (find j (d ∷ insert (leaf_entry key val) es)))
          ≡ (if equal_bytes key j
              then answered (some val)
              else answered (Option.map (λ (x : Entry). x.val) (find j (d ∷ es))))
    found j some_key =
        rw
          (
            sym (
                insert_dummy d (leaf_entry key val) es h.leaf.dummy (key-ne-nil key fits.some_key)),
            find-insert (leaf_entry key val) (d ∷ es) j,
          )
          (elim (Bool-cases (equal_bytes key j)) [
            | inl same ↦ rw same refl
            | inr other ↦ rw other refl
          ])
