-- ===== src/Node/Edit/Kids.antt =====
-- `nodeReplace2Kid` of database/b_tree.go.
use atomix_db.Prelude.{
  ℕ, suc, ◌+◌, ◌-◌, ◌≤◌, ◌<◌, ◌≡◌, List, [], ◌∷◌, ◌++◌, length, length-append, append_assoc,
  append-nil, arith,
}
use atomix_db.Bytes.{Bytes, u16}
use atomix_db.Node.{BNode, node_replace2_kid}
use atomix_db.Node.Layout.{Entry, Holds, IsNode, pairs_size, pairs_size-append}
use atomix_db.Node.Read.{Holds-length, b_node_type_lem, n_keys_lem}
use atomix_db.Node.Append.{Writes, set_header_lem}
use atomix_db.Node.Append.Extend.{append_kv_lem}
use atomix_db.Node.Range.Whole.{append_range_lem}
use atomix_db.Node.Edit.{node_size, kid_entry}

-- `nodeReplace2Kid` at the place behind `xs` writes a page of the old one's type with one kid in the
-- places of two neighbours and the other entries, where the pointer fits 64 bits and the new page,
-- below 65536 bytes, has the room.
pub node_replace2_kid_lem :
    (btype : ℕ) (xs ys : List Entry) (a b : Entry) (new node : BNode) (ptr : ℕ) (key : Bytes)
    → IsNode btype (xs ++ (a ∷ b ∷ ys)) node
    → ptr < 18446744073709551616
    → node_size (xs ++ (kid_entry ptr key ∷ ys)) ≤ length new
    → length new < 65536
    → Writes btype
        (length (xs ++ (kid_entry ptr key ∷ ys)))
        (xs ++ (kid_entry ptr key ∷ ys))
        (length new)
        (node_replace2_kid new node (length xs) ptr key)
unfolding node_replace2_kid
node_replace2_kid_lem btype xs ys a b new node ptr key h ptr_fits enough fits =
    let e = kid_entry ptr key in
    let n = length (xs ++ (e ∷ ys)) in
    let m = length (xs ++ (a ∷ b ∷ ys)) in
    let count : n ≡ length xs + suc (length ys) = length-append xs (e ∷ ys) in
    let count' : m ≡ length xs + suc (suc (length ys)) = length-append xs (a ∷ b ∷ ys) in
    let size : pairs_size (xs ++ (e ∷ ys)) ≡ pairs_size xs + pairs_size (e ∷ ys) =
      pairs_size-append xs (e ∷ ys) in
    let w₁ = set_header_lem btype n new h.btype_fits (omega arith) fits in
    let w₂ =
      append_range_lem btype n btype m [] [] xs (a ∷ b ∷ ys) w₁.node node w₁.holds h (omega arith)
        (omega (arith, w₁.same_size)) in
    let w₃ =
      append_kv_lem btype n xs e w₂.node w₂.holds (omega arith) ptr_fits
        (omega (arith, w₁.same_size, w₂.same_size)) in
    let g : Holds btype m ((xs ++ (a ∷ b ∷ [])) ++ (ys ++ [])) node =
      rw (append-nil, append_assoc) h in
    let after : length (xs ++ (e ∷ [])) ≡ length xs + 1 = length-append xs (e ∷ []) in
    let after' : length (xs ++ (a ∷ b ∷ [])) ≡ length xs + 2 = length-append xs (a ∷ b ∷ []) in
    let w₄ =
      append_range_lem btype n btype m (xs ++ (e ∷ [])) (xs ++ (a ∷ b ∷ [])) ys [] w₃.node node
        w₃.holds g (omega arith)
        (omega (arith, w₁.same_size, w₂.same_size, w₃.same_size, pairs_size-append xs (e ∷ []))) in
    let small = Holds-length btype m (xs ++ (a ∷ b ∷ ys)) node h in
    let small' = h.fits in
    let header : u16 (m + 65535) ≡ n = omega arith in
    let next : u16 (length xs + 1) ≡ length (xs ++ (e ∷ [])) = omega arith in
    let next' : u16 (length xs + 2) ≡ length (xs ++ (a ∷ b ∷ [])) = omega arith in
    let left : u16 (m + 65536 - length (xs ++ (a ∷ b ∷ []))) ≡ length ys = omega arith in
    record {
      node = w₄.node;
      returns =
          rw
            (
              b_node_type_lem btype m (xs ++ (a ∷ b ∷ ys)) node h,
              n_keys_lem btype m (xs ++ (a ∷ b ∷ ys)) node h,
              header,
              w₁.returns,
              w₂.returns,
              w₃.returns,
              next,
              next',
              left,
            )
            w₄.returns;
      holds = rw append_assoc at w₄.holds;
      same_size = omega (arith, w₁.same_size, w₂.same_size, w₃.same_size, w₄.same_size);
    }
