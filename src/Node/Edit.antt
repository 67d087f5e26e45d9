-- ===== src/Node/Edit.antt =====
-- The functions of database/b_tree.go that build one page from others, as edits of the lists of
-- entries that the pages hold: `leafInsert`, `leafUpdate`, `leafDelete`, `nodeMerge` and
-- `nodeReplace2Kid`.
pub mod Update
pub mod Shrink
pub mod Kids
use atomix_db.Prelude.{
  ℕ, suc, ◌+◌, ◌-◌, ◌*◌, ◌%◌, ◌≤◌, ◌<◌, ◌≡◌, refl, sym, ap, ◌∙◌, List, [], ◌∷◌, ◌++◌, ok, length,
  length-append, append_assoc, append-nil, arith,
}
use atomix_db.Bytes.{Bytes, u16}
use atomix_db.Node.{
  BNode, bnode_leaf, leaf_insert, leaf_update, leaf_delete, node_merge, node_replace2_kid,
}
use atomix_db.Node.Layout.{Entry, Holds, IsNode, pair_size, pairs_size, pairs_size-append}
use atomix_db.Node.Read.{Holds-length, b_node_type_lem, n_keys_lem}
use atomix_db.Node.Append.{Writes, set_header_lem}
use atomix_db.Node.Append.Extend.{append_kv_lem}
use atomix_db.Node.Range.Whole.{append_range_lem}

-- The bytes that a full page with these entries takes.
abbrev pub node_size : List Entry → ℕ
node_size es = 4 + 10 * length es + pairs_size es

pub node_size-IsNode :
    (btype : ℕ) (es : List Entry) (node : BNode) → IsNode btype es node → node_size es ≤ length node
node_size-IsNode btype es node h = omega (arith, Holds-length btype (length es) es node h)

-- An entry of a leaf: its pointer is 0.
abbrev pub leaf_entry : Bytes → Bytes → Entry
leaf_entry key val = record { ptr = 0; key = key; val = val }

-- An entry of an inner node: its value is empty.
abbrev pub kid_entry : ℕ → Bytes → Entry
kid_entry ptr key = record { ptr = ptr; key = key; val = [] }

-- `leafInsert` at the place behind `xs` writes a leaf with the entries of the old page and the pair
-- between `xs` and `ys`, where the new page, below 65536 bytes, has the room. What the new page held
-- before does not matter.
pub leaf_insert_lem :
    (btype : ℕ) (xs ys : List Entry) (new old : BNode) (key val : Bytes)
    → IsNode btype (xs ++ ys) old
    → node_size (xs ++ (leaf_entry key val ∷ ys)) ≤ length new
    → length new < 65536
    → Writes bnode_leaf
        (length (xs ++ (leaf_entry key val ∷ ys)))
        (xs ++ (leaf_entry key val ∷ ys))
        (length new)
        (leaf_insert new old (length xs) key val)
unfolding leaf_insert
leaf_insert_lem btype xs ys new old key val h enough fits =
    let e = leaf_entry key val in
    let n = length (xs ++ (e ∷ ys)) in
    let count : n ≡ length xs + suc (length ys) = length-append xs (e ∷ ys) in
    let count' : length (xs ++ ys) ≡ length xs + length ys = length-append xs ys in
    let size : pairs_size (xs ++ (e ∷ ys)) ≡ pairs_size xs + pairs_size (e ∷ ys) =
      pairs_size-append xs (e ∷ ys) in
    let w₁ = set_header_lem bnode_leaf n new (omega arith) (omega arith) fits in
    let w₂ =
      append_range_lem bnode_leaf n btype (length (xs ++ ys)) [] [] xs ys w₁.node old w₁.holds h
        (omega arith) (omega (arith, w₁.same_size)) in
    let w₃ =
      append_kv_lem bnode_leaf n xs e w₂.node w₂.holds (omega arith) (omega arith)
        (omega (arith, w₁.same_size, w₂.same_size)) in
    let g : Holds btype (length (xs ++ ys)) (xs ++ (ys ++ [])) old = rw append-nil h in
    let after : length (xs ++ (e ∷ [])) ≡ length xs + 1 = length-append xs (e ∷ []) in
    let w₄ =
      append_range_lem bnode_leaf n btype (length (xs ++ ys)) (xs ++ (e ∷ [])) xs ys [] w₃.node old
        w₃.holds g (omega arith)
        (omega (arith, w₁.same_size, w₂.same_size, w₃.same_size, pairs_size-append xs (e ∷ []))) in
    let header : u16 (length (xs ++ ys) + 1) ≡ n = omega arith in
    let next : u16 (length xs + 1) ≡ length (xs ++ (e ∷ [])) = omega arith in
    let left : u16 (length (xs ++ ys) + 65536 - length xs) ≡ length ys = omega arith in
    record {
      node = w₄.node;
      returns =
          rw
            (
              n_keys_lem btype (length (xs ++ ys)) (xs ++ ys) old h,
              header,
              w₁.returns,
              w₂.returns,
              w₃.returns,
              next,
              left,
            )
            w₄.returns;
      holds = rw append_assoc at w₄.holds;
      same_size = omega (arith, w₁.same_size, w₂.same_size, w₃.same_size, w₄.same_size);
    }
