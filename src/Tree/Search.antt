-- ===== src/Tree/Search.antt =====
-- Trees of any height in the pages of a pager, and `Get` of database/b_tree.go on them.
use atomix_db.Prelude.{
  ℕ, zero, suc, ◌≤◌, ◌<◌, ◌≡◌, ◌≢◌, refl, sym, ap, ◌∙◌, subst, inl, inr, false, none, List, [], ◌∷◌,
  ok, length, Bool-cases, ne→==_false, arith,
}
use mathlib.Core.Option
use mathlib.Core.Bool.{false≢true}
use atomix_db.Bytes.{Bytes}
use atomix_db.Bytes.Order.{equal_bytes}
use atomix_db.Bytes.Order.Laws.{equal_bytes_refl, equal_bytes-eq}
use atomix_db.Pager.{Pager}
use atomix_db.Node.{BNode, bnode_inode, bnode_leaf, btree_max_key_size, get_ptr}
use atomix_db.Node.Layout.{Entry, IsNode}
use atomix_db.Node.Read.{b_node_type_lem, get_ptr_lem}
use atomix_db.Node.Lookup.{count_le, node_lookup_le_lem}
use atomix_db.Node.Sorted.{IsSorted, AtMost, Place, find, count_le-Place}
use atomix_db.Node.Sorted.Maps.{find-Place_hit, find-Place_miss}
use atomix_db.Tree.{get_loop, get_value}
use atomix_db.Tree.Kids.{Begins, Kids, Kids-IsSorted, Kids-first, find-Kids, empty-AtMost}
use atomix_db.Tree.Leaf.{found_key, found_val}
use atomix_db.Tree.Root.{key_tests}

module _ (pager : Pager) where
  open pager use {State, get}

  -- The page holds the entries of a tree with `h` levels of inner nodes above its leaves.
  abbrev pub TreePage : ℕ → State → BNode → List Entry → Type 0
  TreePage zero s page es = IsNode bnode_leaf es page
  TreePage (suc h) s page es =
      (ks : List Entry) × (d : Entry) × IsNode bnode_inode (d ∷ ks) page
      × Kids (λ ptr seg. (kid : BNode) × (get ptr s ≡ ok kid) × TreePage h s kid seg) (d ∷ ks) es

  -- A tree: its entries are sorted and begin with the dummy, whose key is empty.
  pub record IsTree (h root : ℕ) (es : List Entry) (s : State) : Type 0 where
    pub rooted : root ≢ 0
    pub page : BNode
    pub got : get root s ≡ ok page
    pub tree : TreePage h s page es
    pub sorted : IsSorted es
    pub dummy : Begins [] es

  -- At a leaf the loop of `Get` compares the key that the lookup finds.
  get_loop_leaf :
      (fuel : ℕ) (d : Entry) (es : List Entry) (page : BNode) (key : Bytes) (s : State)
      → IsNode bnode_leaf (d ∷ es) page
      → IsSorted (d ∷ es)
      → AtMost d.key key
      → get_loop pager (suc fuel) page key s
        ≡ ok (Option.map (λ (e : Entry). e.val) (find key (d ∷ es)))
  unfolding get_loop
  get_loop_leaf fuel d es page key s h sorted low =
      let p = count_le-Place key es d sorted low in
      rw
        (
          b_node_type_lem bnode_leaf _ (d ∷ es) page h,
          node_lookup_le_lem bnode_leaf page key d es h,
          found_key bnode_leaf (d ∷ es) page h key p,
        )
        (elim (Bool-cases (equal_bytes p.entry.key key)) [
          | inl same ↦
              rw
                (
                  same,
                  found_val bnode_leaf (d ∷ es) page h key p,
                  find-Place_hit key (d ∷ es) p (equal_bytes-eq p.entry.key key same),
                )
                refl
          | inr other ↦ rw (other, missing p p.at_most other) refl
        ])
    where
      missing :
          (p : Place key (d ∷ es) (count_le key es))
          → AtMost p.entry.key key
          → equal_bytes p.entry.key key ≡ false
          → find key (d ∷ es) ≡ none
      missing p (inl less) other = find-Place_miss key (d ∷ es) p less
      missing p (inr same) other =
          absurd (false≢true (sym other ∙ ap (λ k. equal_bytes k key) same ∙ equal_bytes_refl key))

  -- At an inner node it goes on in the kid at the place of the lookup.
  get_loop_node :
      (fuel : ℕ) (d : Entry) (ks : List Entry) (page : BNode) (key : Bytes) (s : State)
      → IsNode bnode_inode (d ∷ ks) page
      → (p : Place key (d ∷ ks) (count_le key ks)) → (kid : BNode) → get p.entry.ptr s ≡ ok kid
      → get_loop pager (suc fuel) page key s ≡ get_loop pager fuel kid key s
  unfolding get_loop
  get_loop_node fuel d ks page key s node p kid got =
      let at : get_ptr page (count_le key ks) ≡ ok p.entry.ptr =
        ap (get_ptr page) p.index_eq
        ∙ get_ptr_lem bnode_inode _ p.before p.entry p.after page
            (subst (λ l. IsNode bnode_inode l page) p.split node) in
      rw
        (
          b_node_type_lem bnode_inode _ (d ∷ ks) page node,
          node_lookup_le_lem bnode_inode page key d ks node,
          at,
          got,
        )
        refl

  get_loop_lem :
      (h fuel : ℕ) (page : BNode) (es : List Entry) (key k : Bytes) (s : State)
      → h ≤ fuel
      → TreePage h s page es
      → IsSorted es
      → Begins k es
      → AtMost k key
      → get_loop pager (suc fuel) page key s ≡ ok (Option.map (λ (e : Entry). e.val) (find key es))
  unfolding get_loop
  get_loop_lem zero fuel page es key k s enough tree sorted b low =
      subst
        (λ l.
          get_loop pager (suc fuel) page key s
          ≡ ok (Option.map (λ (e : Entry). e.val) (find key l)))
        (sym b.entries)
        (get_loop_leaf fuel b.first b.others page key s
          (subst (λ l. IsNode bnode_leaf l page) b.entries tree) (subst IsSorted b.entries sorted)
          (subst (λ j. AtMost j key) (sym b.first_key) low))
  get_loop_lem (suc h) zero page es key k s enough tree sorted b low = absurd (omega arith)
  get_loop_lem (suc h) (suc fuel) page es key k s enough (ks, d, node, kids) sorted b low =
      let P : ℕ → List Entry → Type 0 =
        λ ptr seg. (kid : BNode) × (get ptr s ≡ ok kid) × TreePage h s kid seg in
      let low' : AtMost d.key key =
        subst (λ j. AtMost j key) (sym b.first_key ∙ sym (Kids-first P d ks es kids b)) low in
      let p = count_le-Place key ks d (Kids-IsSorted P (d ∷ ks) es kids sorted) low' in
      let (seg, (kid, got, below), begins, sorted', same) =
        find-Kids P key (d ∷ ks) es kids sorted p in
      get_loop_node (suc fuel) d ks page key s node p kid got
      ∙ get_loop_lem h fuel kid seg key p.entry.key s (omega arith) below sorted' begins p.at_most
      ∙ ap (λ o. ok (Option.map (λ (e : Entry). e.val) o)) (sym same)

  -- `Get` of a key of allowed size in a tree of any height, with a unit of fuel for each of its levels
  -- at least, returns without an error the value that the map of all entries has for the key, if any.
  pub get_tree :
      (h fuel root : ℕ) (es : List Entry) (key : Bytes) (s : State)
      → IsTree h root es s
      → h ≤ fuel
      → 0 < length key
      → length key ≤ btree_max_key_size
      → get_value pager (suc fuel) root key s
        ≡ ok (none, Option.map (λ (e : Entry). e.val) (find key es))
  unfolding get_value
  get_tree h fuel root es key s t enough some_key key_fits =
      rw
        (
          key_tests key some_key key_fits,
          ne→==_false root 0 t.rooted,
          t.got,
          get_loop_lem h fuel t.page es key [] s enough t.tree t.sorted t.dummy (empty-AtMost key),
        )
        refl
