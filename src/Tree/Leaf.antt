-- ===== src/Tree/Leaf.antt =====
-- `treeInsert`, `treeDelete` and the lookup of database/b_tree.go at a leaf, as operations on the
-- finite map that the leaf holds.
use atomix_db.Prelude.{
  ℕ, ◌+◌, ◌≤◌, ◌<◌, ◌≡◌, refl, sym, ap, ◌∙◌, subst, inl, inr, true, false, none, some, List, [],
  ◌∷◌, ◌++◌, ok, length, length-append, append_assoc, length-replicate, arith,
}
use mathlib.Core.Logic.{◌≢◌}
use mathlib.Core.Bool.{false≢true}
use atomix_db.Bytes.{Bytes, u16, make_bytes}
use atomix_db.Bytes.Order.{compare_bytes, equal_bytes}
use atomix_db.Bytes.Order.Laws.{
  Lt, compare-cases, compare_bytes-flip, equal_bytes_refl, equal_bytes-eq,
}
use atomix_db.Node.{BNode, bnode_leaf, get_key, get_val, node_lookup_le, leaf_delete}
use atomix_db.Node.Layout.{Entry, IsNode, pair_size, pairs_size-append}
use atomix_db.Node.Read.{Holds-length, get_key_lem, get_val_lem}
use atomix_db.Node.Append.{Writes}
use atomix_db.Node.Edit.{node_size, leaf_entry, leaf_insert_lem}
use atomix_db.Node.Edit.Update.{leaf_update_lem}
use atomix_db.Node.Edit.Shrink.{leaf_delete_lem}
use atomix_db.Node.Lookup.{count_le, node_lookup_le_lem}
use atomix_db.Node.Sorted.{IsSorted, AtMost, Place, find, insert, delete, count_le-Place}
use atomix_db.Node.Sorted.Maps.{
  find-Place_hit, find-Place_miss, insert-Place_hit, insert-Place_miss, delete-Place_hit,
}
use atomix_db.Tree.{leaf_put, leaf_remove}

pub length-make_bytes : (n : ℕ) → length (make_bytes n) ≡ n
unfolding make_bytes
length-make_bytes n = length-replicate n 0

ne-some : {e : Entry} → none ≡ some e → ⊥
ne-some h = cc

-- Inserting adds one place and one pair at most.
pub node_size-insert :
    (e : Entry) (es : List Entry) → node_size (insert e es) ≤ node_size es + 10 + pair_size e
unfolding insert
node_size-insert e [] = omega arith
node_size-insert e (x ∷ xs) = elim (compare-cases x.key e.key) [
  | inl lt ↦ rw (lt, insert) (omega (arith, node_size-insert e xs))
  | inr (inl (eq, same)) ↦ rw (eq, insert) (omega arith)
  | inr (inr gt) ↦ rw (compare_bytes-flip e.key x.key gt, insert) (omega arith)
]

equal_bytes_lt : (a b : Bytes) → Lt a b → equal_bytes b a ≡ false
unfolding equal_bytes
equal_bytes_lt a b h = rw (compare_bytes-flip a b h, equal_bytes)

equal_bytes_gt : (a b : Bytes) → Lt a b → equal_bytes a b ≡ false
unfolding equal_bytes
equal_bytes_gt a b h = rw (h, equal_bytes)

-- The page holds the sorted entries `es`, of which the place that the lookup gives is `p`.
module _ (btype : ℕ) (es : List Entry) (node : BNode) (h : IsNode btype es node) (key : Bytes)
    {n : ℕ} (p : Place key es n) where
  at_place : IsNode btype (p.before ++ (p.entry ∷ p.after)) node
  at_place = subst (λ l. IsNode btype l node) p.split h

  pub found_key : get_key node n ≡ ok p.entry.key
  found_key =
      ap (get_key node) p.index_eq ∙ get_key_lem btype _ p.before p.entry p.after node at_place

  pub found_val : get_val node n ≡ ok p.entry.val
  found_val =
      ap (get_val node) p.index_eq ∙ get_val_lem btype _ p.before p.entry p.after node at_place

  module _ (val : Bytes) (room : ℕ) (fits : room < 65536) where
    put_hit :
        p.entry.key ≡ key
        → node_size (insert (leaf_entry key val) es) ≤ room
        → Writes bnode_leaf
            (length (insert (leaf_entry key val) es))
            (insert (leaf_entry key val) es)
            room
            (leaf_put (make_bytes room) node n key val)
    unfolding leaf_put
    put_hit same enough =
        let e = leaf_entry key val in
        let result = insert-Place_hit e es p same in
        let len = length-make_bytes room in
        let w =
          leaf_update_lem btype p.before p.after p.entry (make_bytes room) node key val at_place
            (rw (← result, len) enough) (rw len fits) in
        rw (found_key, same, equal_bytes_refl key, p.index_eq, result) (rw len at w)

    put_miss :
        Lt p.entry.key key
        → node_size (insert (leaf_entry key val) es) ≤ room
        → Writes bnode_leaf
            (length (insert (leaf_entry key val) es))
            (insert (leaf_entry key val) es)
            room
            (leaf_put (make_bytes room) node n key val)
    unfolding leaf_put
    put_miss less enough =
        let e = leaf_entry key val in
        let result : insert e es ≡ (p.before ++ (p.entry ∷ [])) ++ (e ∷ p.after) =
          insert-Place_miss e es p less
          ∙ sym (append_assoc p.before (p.entry ∷ []) (e ∷ p.after)) in
        let len = length-make_bytes room in
        let g : IsNode btype ((p.before ++ (p.entry ∷ [])) ++ p.after) node =
          rw append_assoc at_place in
        let w =
          leaf_insert_lem btype (p.before ++ (p.entry ∷ [])) p.after (make_bytes room) node key val
            g (rw (← result, len) enough) (rw len fits) in
        let size = Holds-length btype _ _ node at_place in
        let small = at_place.fits in
        let next : u16 (length p.before + 1) ≡ length (p.before ++ (p.entry ∷ [])) = omega (
          arith,
          length-append p.before (p.entry ∷ []),
          length-append p.before (p.entry ∷ p.after),
        ) in
        rw (found_key, equal_bytes_lt p.entry.key key less, p.index_eq, next, result) (rw len at w)

  module _ (room : ℕ) (fits : room < 65536) where
    remove_hit :
        p.entry.key ≡ key
        → node_size es ≤ room
        → Writes btype
            (length (delete key es))
            (delete key es)
            room
            (leaf_delete (make_bytes room) node n)
    remove_hit same enough =
        let result = delete-Place_hit key es p same in
        let len = length-make_bytes room in
        let before : node_size (p.before ++ (p.entry ∷ p.after)) ≤ room = rw (← p.split) enough in
        let w =
          leaf_delete_lem btype p.before p.after p.entry (make_bytes room) node at_place
            (omega (
              arith,
              len,
              pairs_size-append p.before (p.entry ∷ p.after),
              pairs_size-append p.before p.after,
              length-append p.before p.after,
              length-append p.before (p.entry ∷ p.after),
            ))
            (rw len fits) in
        rw (p.index_eq, result) (rw len at w)

-- A leaf page of a tree: the dummy `d`, whose key is empty, and the entries `es` behind it, sorted.
pub record LeafPage (d : Entry) (es : List Entry) (page : BNode) : Type 0 where
  pub holds : IsNode bnode_leaf (d ∷ es) page
  pub sorted : IsSorted (d ∷ es)
  pub dummy : d.key ≡ []

pub key-AtMost : (d : Entry) (key : Bytes) → d.key ≡ [] → key ≢ [] → Lt d.key key
unfolding compare_bytes
key-AtMost d [] e h = absurd (h refl)
key-AtMost d (x ∷ key) e h = rw (e, compare_bytes)

module _ (d : Entry) (es : List Entry) (page : BNode) (h : LeafPage d es page) (key : Bytes)
    (some_key : key ≢ []) where
  place : Place key (d ∷ es) (count_le key es)
  place = count_le-Place key es d h.sorted (inl (key-AtMost d key h.dummy some_key))

  pub lookup_place : node_lookup_le page key ≡ ok (count_le key es)
  lookup_place = node_lookup_le_lem bnode_leaf page key d es h.holds

  -- `treeInsert` at a leaf makes the page that holds the map with the pair put in.
  pub leaf_put_lem :
      (val : Bytes) (room : ℕ)
      → room < 65536
      → node_size (insert (leaf_entry key val) (d ∷ es)) ≤ room
      → Writes bnode_leaf
          (length (insert (leaf_entry key val) (d ∷ es)))
          (insert (leaf_entry key val) (d ∷ es))
          room
          (leaf_put (make_bytes room) page (count_le key es) key val)
  leaf_put_lem val room fits enough = choose place.at_most
    where
      choose :
          AtMost place.entry.key key
          → Writes bnode_leaf
              (length (insert (leaf_entry key val) (d ∷ es)))
              (insert (leaf_entry key val) (d ∷ es))
              room
              (leaf_put (make_bytes room) page (count_le key es) key val)
      choose (inl less) =
          put_miss bnode_leaf (d ∷ es) page h.holds key place val room fits less enough
      choose (inr same) =
          put_hit bnode_leaf (d ∷ es) page h.holds key place val room fits same enough

  -- What the lookup finds at its place, and that this is the map's answer.
  pub leaf_found :
      (k : Bytes) × (get_key page (count_le key es) ≡ ok k)
      × (equal_bytes k key ≡ true
          → (e : Entry) × (find key (d ∷ es) ≡ some e)
            × (get_val page (count_le key es) ≡ ok e.val))
      × (equal_bytes k key ≡ false → find key (d ∷ es) ≡ none)
  leaf_found = (
    place.entry.key,
    found_key bnode_leaf (d ∷ es) page h.holds key place,
    λ same. (
      place.entry,
      find-Place_hit key (d ∷ es) place (equal_bytes-eq place.entry.key key same),
      found_val bnode_leaf (d ∷ es) page h.holds key place,
    ),
    λ other. missing place.at_most other,
  )
    where
      missing :
          AtMost place.entry.key key
          → equal_bytes place.entry.key key ≡ false
          → find key (d ∷ es) ≡ none
      missing (inl less) other = find-Place_miss key (d ∷ es) place less
      missing (inr same) other =
          absurd (false≢true (sym other ∙ ap (λ k. equal_bytes k key) same ∙ equal_bytes_refl key))

  -- `treeDelete` at a leaf: the page without the key, or no page where the key is missing.
  pub leaf_remove_hit :
      {e : Entry}
      → find key (d ∷ es) ≡ some e
      → node_size (d ∷ es) ≤ 4096
      → Writes bnode_leaf
          (length (delete key (d ∷ es)))
          (delete key (d ∷ es))
          4096
          (leaf_remove page (count_le key es) key)
  unfolding leaf_remove
  leaf_remove_hit {e} found enough = choose place.at_most
    where
      choose :
          AtMost place.entry.key key
          → Writes bnode_leaf
              (length (delete key (d ∷ es)))
              (delete key (d ∷ es))
              4096
              (leaf_remove page (count_le key es) key)
      choose (inl less) = absurd (ne-some (sym (find-Place_miss key (d ∷ es) place less) ∙ found))
      choose (inr same) =
          rw (found_key bnode_leaf (d ∷ es) page h.holds key place, same, equal_bytes_refl key)
            (remove_hit bnode_leaf (d ∷ es) page h.holds key place 4096 (omega arith) same enough)

  pub leaf_remove_miss : find key (d ∷ es) ≡ none → leaf_remove page (count_le key es) key ≡ ok []
  unfolding leaf_remove
  leaf_remove_miss missing = choose place.at_most
    where
      choose : AtMost place.entry.key key → leaf_remove page (count_le key es) key ≡ ok []
      choose (inl less) = rw (
        found_key bnode_leaf (d ∷ es) page h.holds key place,
        equal_bytes_lt place.entry.key key less,
      )
      choose (inr same) = absurd (ne-some (sym missing ∙ find-Place_hit key (d ∷ es) place same))
