-- ===== src/Node/Edit/Shrink.antt =====
-- `leafDelete` and `nodeMerge` of database/b_tree.go.
use atomix_db.Prelude.{
  ℕ, suc, ◌+◌, ◌-◌, ◌≤◌, ◌<◌, ◌≡◌, List, [], ◌∷◌, ◌++◌, length, length-append, append_assoc,
  append-nil, arith,
}
use atomix_db.Bytes.{u16}
use atomix_db.Node.{BNode, leaf_delete, node_merge}
use atomix_db.Node.Layout.{Entry, Holds, IsNode, pairs_size, pairs_size-append}
use atomix_db.Node.Read.{Holds-length, b_node_type_lem, n_keys_lem}
use atomix_db.Node.Append.{Writes, set_header_lem}
use atomix_db.Node.Range.Whole.{append_range_lem}
use atomix_db.Node.Edit.{node_size}

-- `leafDelete` at the place behind `xs` writes a page of the old one's type with the other entries,
-- where the new page, below 65536 bytes, has the room.
pub leaf_delete_lem :
    (btype : ℕ) (xs ys : List Entry) (was : Entry) (new old : BNode)
    → IsNode btype (xs ++ (was ∷ ys)) old
    → node_size (xs ++ ys) ≤ length new
    → length new < 65536
    → Writes btype (length (xs ++ ys)) (xs ++ ys) (length new) (leaf_delete new old (length xs))
unfolding leaf_delete
leaf_delete_lem btype xs ys was new old h enough fits =
    let n = length (xs ++ ys) in
    let m = length (xs ++ (was ∷ ys)) in
    let count : n ≡ length xs + length ys = length-append xs ys in
    let count' : m ≡ length xs + suc (length ys) = length-append xs (was ∷ ys) in
    let size : pairs_size (xs ++ ys) ≡ pairs_size xs + pairs_size ys = pairs_size-append xs ys in
    let w₁ = set_header_lem btype n new h.btype_fits (omega arith) fits in
    let w₂ =
      append_range_lem btype n btype m [] [] xs (was ∷ ys) w₁.node old w₁.holds h (omega arith)
        (omega (arith, w₁.same_size)) in
    let g : Holds btype m ((xs ++ (was ∷ [])) ++ (ys ++ [])) old =
      rw (append-nil, append_assoc) h in
    let after : length (xs ++ (was ∷ [])) ≡ length xs + 1 = length-append xs (was ∷ []) in
    let w₃ =
      append_range_lem btype n btype m xs (xs ++ (was ∷ [])) ys [] w₂.node old w₂.holds g
        (omega arith) (omega (arith, w₁.same_size, w₂.same_size)) in
    let small = Holds-length btype m (xs ++ (was ∷ ys)) old h in
    let header : u16 (m + 65535) ≡ n = omega arith in
    let next : u16 (length xs + 1) ≡ length (xs ++ (was ∷ [])) = omega arith in
    let left : u16 (m + 65536 - length (xs ++ (was ∷ []))) ≡ length ys = omega arith in
    record {
      node = w₃.node;
      returns =
          rw
            (
              b_node_type_lem btype m (xs ++ (was ∷ ys)) old h,
              n_keys_lem btype m (xs ++ (was ∷ ys)) old h,
              header,
              w₁.returns,
              w₂.returns,
              next,
              left,
            )
            w₃.returns;
      holds = w₃.holds;
      same_size = omega (arith, w₁.same_size, w₂.same_size, w₃.same_size);
    }

-- `nodeMerge` writes a page of the type of `left` with the entries of `left` and behind them those
-- of `right`, where the new page, below 65536 bytes, has the room.
pub node_merge_lem :
    (btype btype' : ℕ) (es fs : List Entry) (new left right : BNode)
    → IsNode btype es left
    → IsNode btype' fs right
    → node_size (es ++ fs) ≤ length new
    → length new < 65536
    → Writes btype (length (es ++ fs)) (es ++ fs) (length new) (node_merge new left right)
unfolding node_merge
node_merge_lem btype btype' es fs new left right h g enough fits =
    let n = length (es ++ fs) in
    let count : n ≡ length es + length fs = length-append es fs in
    let size : pairs_size (es ++ fs) ≡ pairs_size es + pairs_size fs = pairs_size-append es fs in
    let h' : Holds btype (length es) (es ++ []) left = rw append-nil h in
    let g' : Holds btype' (length fs) (fs ++ []) right = rw append-nil g in
    let w₁ = set_header_lem btype n new h.btype_fits (omega arith) fits in
    let w₂ =
      append_range_lem btype n btype (length es) [] [] es [] w₁.node left w₁.holds h' (omega arith)
        (omega (arith, w₁.same_size)) in
    let w₃ =
      append_range_lem btype n btype' (length fs) es [] fs [] w₂.node right w₂.holds g'
        (omega arith) (omega (arith, w₁.same_size, w₂.same_size)) in
    let header : u16 (length es + length fs) ≡ n = omega arith in
    record {
      node = w₃.node;
      returns =
          rw
            (
              b_node_type_lem btype (length es) es left h,
              n_keys_lem btype (length es) es left h,
              n_keys_lem btype' (length fs) fs right g,
              header,
              w₁.returns,
              w₂.returns,
            )
            w₃.returns;
      holds = w₃.holds;
      same_size = omega (arith, w₁.same_size, w₂.same_size, w₃.same_size);
    }
