-- ===== src/Scan/Whole/Leaf.antt =====
-- Iterators of database/range.go at the entries of a leaf, and the moves between them.
use atomix_db.Prelude.{
  ℕ, ◌+◌, ◌≡◌, refl, ap, ◌∙◌, subst, true, List, [], ◌∷◌, ◌++◌, ok, at, length, lt→ltb,
  le→ltb_false, ne→==_false, length-append, arith,
}
use atomix_db.Pager.{Pager}
use atomix_db.Node.{BNode, bnode_leaf}
use atomix_db.Node.Layout.{Entry, IsNode}
use atomix_db.Node.Read.{n_keys_lem, get_key_lem, get_val_lem}
use atomix_db.Tree.Root.{LeafRoot}
use atomix_db.Tree.Iterator.{deref, valid, next}
use atomix_db.Tree.Iterator.AtLeaf.{at_place, next_leaf}

module _ (pager : Pager) (root : ℕ) where
  open pager use {State}

  module _ (d : Entry) (es : List Entry) (page : BNode) (s : State)
      (leaf : LeafRoot pager root d es page s) where
    module _ (before : List Entry) (e : Entry) (after : List Entry)
        (split : d ∷ es ≡ before ++ (e ∷ after)) where
      here_holds : IsNode bnode_leaf (before ++ (e ∷ after)) page
      here_holds = subst (λ l. IsNode bnode_leaf l page) split leaf.leaf.holds

      size : length (d ∷ es) ≡ length before + (1 + length after)
      size = omega (arith, ap length split, length-append before (e ∷ after))

      pub is_valid : valid (at_place page (length before)) ≡ ok true
      unfolding valid at
      is_valid =
          rw
            (
              ne→==_false (length page) 0 (omega (arith, leaf.one_page)),
              n_keys_lem bnode_leaf _ (before ++ (e ∷ after)) page here_holds,
              lt→ltb (length before) (length (before ++ (e ∷ after)))
                  (omega (arith, length-append before (e ∷ after))),
            )
            refl

      pub pair : deref (at_place page (length before)) ≡ ok (e.key, e.val)
      unfolding deref at
      pair =
          rw
            (
              get_key_lem bnode_leaf _ before e after page here_holds,
              get_val_lem bnode_leaf _ before e after page here_holds,
            )
            refl

    pub stays :
        (before : List Entry) (e : Entry)
        → d ∷ es ≡ before ++ (e ∷ [])
        → next pager (at_place page (length before)) s ≡ ok (at_place page (length before))
    stays before e split =
        next_leaf pager root d es page s leaf (length before)
        ∙ rw
            (le→ltb_false (length before + 1) (length (d ∷ es))
              (omega (arith, size before e [] split)))
            refl

    pub moves :
        (before : List Entry) (e f : Entry) (after : List Entry)
        → d ∷ es ≡ before ++ (e ∷ f ∷ after)
        → next pager (at_place page (length before)) s ≡ ok (at_place page (length before + 1))
    moves before e f after split =
        next_leaf pager root d es page s leaf (length before)
        ∙ rw
            (lt→ltb (length before + 1) (length (d ∷ es))
              (omega (arith, size before e (f ∷ after) split)))
            refl
