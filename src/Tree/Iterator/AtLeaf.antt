-- ===== src/Tree/Iterator/AtLeaf.antt =====
-- Iterators of database/range.go on a tree whose root is a leaf.
use atomix_db.Prelude.{
  ℕ, zero, suc, inl, inr, Bool-cases, at, put_at, ◌+◌, ◌<◌, ◌≡◌, ◌≢◌, refl, ap, true, List, [], ◌∷◌,
  ok, ltb, if◌then◌else◌, lt→ltb, ne→==_false, length, length-append, arith,
}
use atomix_db.Bytes.{Bytes, u16}
use atomix_db.Pager.{Pager}
use atomix_db.Node.{BNode, bnode_leaf}
use atomix_db.Node.Layout.{Entry}
use atomix_db.Node.Read.{Holds-length, b_node_type_lem, n_keys_lem}
use atomix_db.Node.Lookup.{count_le}
use atomix_db.Node.Sorted.{Place, count_le-Place}
use atomix_db.Tree.Leaf.{key-AtMost, lookup_place, found_key, found_val}
use atomix_db.Tree.Root.{LeafRoot}
use atomix_db.Tree.Iterator.{
  BIter, deref, valid, enter_kid, move_to, iter_next, next, seek_loop, seek_le,
}

-- The iterator that stands at place `idx` of a single page.
abbrev pub at_place : BNode → ℕ → BIter
at_place page idx = record { path = page ∷ []; pos = idx ∷ [] }

lt-Place :
    (key : Bytes) (es : List Entry) (d : Entry) {n : ℕ} → Place key (d ∷ es) n → n < length (d ∷ es)
lt-Place key es d p =
    omega (arith, p.index_eq, ap length p.split, length-append p.before (p.entry ∷ p.after))

same_test : (idx n : ℕ) → n < 65536 → ltb idx (u16 (suc n + 65535)) ≡ ltb (idx + 1) (suc n)
same_test idx n h = ground arith

module _ (pager : Pager) where
  open pager use {State}

  loop_end :
      (fuel : ℕ) (key : Bytes) (it : BIter) (s : State) → seek_loop pager fuel 0 key it s ≡ ok it
  unfolding seek_loop
  loop_end zero key it s = refl
  loop_end (suc fuel) key it s = refl

  module _ (root : ℕ) (d : Entry) (es : List Entry) (page : BNode) (s : State)
      (h : LeafRoot pager root d es page s) where
    -- `SeekLE` in a tree whose root is a leaf, with one unit of fuel at least, stops at the last entry
    -- whose key is at most the key: the entries before it are smaller and those behind it greater. The
    -- iterator is valid and its pair is that entry.
    pub seek_le_leaf :
        (fuel : ℕ) (key : Bytes)
        → key ≢ []
        → (idx : ℕ) × (p : Place key (d ∷ es) idx) × (seek_le pager (suc fuel) root key s
            ≡ ok (at_place page idx))
          × (valid (at_place page idx) ≡ ok true)
          × (deref (at_place page idx) ≡ ok (p.entry.key, p.entry.val))
    unfolding seek_le seek_loop valid deref at
    seek_le_leaf fuel key some_key =
        let leaf = h.leaf in
        let p = count_le-Place key es d leaf.sorted (inl (key-AtMost d key leaf.dummy some_key)) in
        let n = n_keys_lem bnode_leaf _ (d ∷ es) page leaf.holds in
        let long = ne→==_false (length page) 0 (omega (arith, h.one_page)) in
        let inside = lt→ltb (count_le key es) (length (d ∷ es)) (lt-Place key es d p) in
        (
          count_le key es,
          p,
          rw
              (
                ne→==_false root 0 h.rooted,
                h.got,
                lookup_place d es page leaf key some_key,
                b_node_type_lem bnode_leaf _ (d ∷ es) page leaf.holds,
              )
              (loop_end fuel key (at_place page (count_le key es)) s),
          rw (long, n, inside) refl,
          rw
              (
                found_key bnode_leaf (d ∷ es) page leaf.holds key p,
                found_val bnode_leaf (d ∷ es) page leaf.holds key p,
              )
              refl,
        )

    -- `Next` of an iterator on a leaf at the root moves its index to the next entry, where there is
    -- one, and leaves it otherwise.
    pub next_leaf :
        (idx : ℕ)
        → next pager (at_place page idx) s
          ≡ ok (at_place page (if ltb (idx + 1) (length (d ∷ es)) then idx + 1 else idx))
    unfolding next iter_next move_to enter_kid at put_at
    next_leaf idx =
        let holds = h.leaf.holds in
        let small : length es < 65536 =
          omega
            (arith, holds.fits, Holds-length bnode_leaf (length (d ∷ es)) (d ∷ es) page holds) in
        rw (n_keys_lem bnode_leaf _ (d ∷ es) page holds, same_test idx (length es) small)
          (elim (Bool-cases (ltb (idx + 1) (suc (length es)))) [
            | inl more ↦ rw more refl
            | inr end ↦ rw end refl
          ])
