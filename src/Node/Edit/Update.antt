-- ===== src/Node/Edit/Update.antt =====
-- `leafUpdate` of database/b_tree.go.
use atomix_db.Prelude.{
  ℕ, suc, ◌+◌, ◌-◌, ◌≤◌, ◌<◌, ◌≡◌, ap, ◌∙◌, List, [], ◌∷◌, ◌++◌, ok, length, length-append,
  append_assoc, append-nil, arith,
}
use atomix_db.Bytes.{Bytes, u16}
use atomix_db.Node.{BNode, n_keys, bnode_leaf, leaf_update}
use atomix_db.Node.Layout.{Entry, Holds, IsNode, pairs_size, pairs_size-append}
use atomix_db.Node.Read.{n_keys_lem}
use atomix_db.Node.Append.{Writes, set_header_lem}
use atomix_db.Node.Append.Extend.{append_kv_lem}
use atomix_db.Node.Range.Whole.{append_range_lem}
use atomix_db.Node.Edit.{node_size, leaf_entry}

-- `leafUpdate` at the place behind `xs` writes a leaf with the pair in place of the entry there and
-- the other entries of the old page, where the new page, below 65536 bytes, has the room.
pub leaf_update_lem :
    (btype : ℕ) (xs ys : List Entry) (was : Entry) (new old : BNode) (key val : Bytes)
    → IsNode btype (xs ++ (was ∷ ys)) old
    → node_size (xs ++ (leaf_entry key val ∷ ys)) ≤ length new
    → length new < 65536
    → Writes bnode_leaf
        (length (xs ++ (leaf_entry key val ∷ ys)))
        (xs ++ (leaf_entry key val ∷ ys))
        (length new)
        (leaf_update new old (length xs) key val)
unfolding leaf_update
leaf_update_lem btype xs ys was new old key val h enough fits =
    let e = leaf_entry key val in
    let n = length (xs ++ (e ∷ ys)) in
    let m = length (xs ++ (was ∷ ys)) in
    let count : n ≡ length xs + suc (length ys) = length-append xs (e ∷ ys) in
    let count' : m ≡ length xs + suc (length ys) = length-append xs (was ∷ ys) in
    let size : pairs_size (xs ++ (e ∷ ys)) ≡ pairs_size xs + pairs_size (e ∷ ys) =
      pairs_size-append xs (e ∷ ys) in
    let w₁ = set_header_lem bnode_leaf n new (omega arith) (omega arith) fits in
    let w₂ =
      append_range_lem bnode_leaf n btype m [] [] xs (was ∷ ys) w₁.node old w₁.holds h (omega arith)
        (omega (arith, w₁.same_size)) in
    let w₃ =
      append_kv_lem bnode_leaf n xs e w₂.node w₂.holds (omega arith) (omega arith)
        (omega (arith, w₁.same_size, w₂.same_size)) in
    let g : Holds btype m ((xs ++ (was ∷ [])) ++ (ys ++ [])) old =
      rw (append-nil, append_assoc) h in
    let after : length (xs ++ (e ∷ [])) ≡ length xs + 1 = length-append xs (e ∷ []) in
    let w₄ =
      append_range_lem bnode_leaf n btype m (xs ++ (e ∷ [])) (xs ++ (was ∷ [])) ys [] w₃.node old
        w₃.holds g (omega arith)
        (omega (arith, w₁.same_size, w₂.same_size, w₃.same_size, pairs_size-append xs (e ∷ []))) in
    let keys : n_keys old ≡ ok n =
      n_keys_lem btype m (xs ++ (was ∷ ys)) old h ∙ ap ok (omega arith) in
    let after' : length (xs ++ (was ∷ [])) ≡ length (xs ++ (e ∷ [])) =
      omega (arith, length-append xs (was ∷ [])) in
    let next : u16 (length xs + 1) ≡ length (xs ++ (e ∷ [])) = omega arith in
    let left : u16 (n + 131072 - length xs - 1) ≡ length ys = omega arith in
    record {
      node = w₄.node;
      returns = rw (keys, w₁.returns, w₂.returns, w₃.returns, next, left) (rw after' at w₄.returns);
      holds = rw append_assoc at w₄.holds;
      same_size = omega (arith, w₁.same_size, w₂.same_size, w₃.same_size, w₄.same_size);
    }
