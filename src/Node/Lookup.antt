-- ===== src/Node/Lookup.antt =====
-- `nodeLookupLE` of database/b_tree.go against a count over the entries of the page.
use atomix_db.Prelude.{
  ℕ, suc, ◌+◌, ◌-◌, ◌≡◌, sym, ap, ◌∙◌, List, [], ◌∷◌, ◌++◌, ok, length, length-append, append_assoc,
  Ordering, arith,
}
use atomix_db.Bytes.{Bytes}
use atomix_db.Bytes.Order.{compare_bytes}
use atomix_db.Node.{BNode, get_key, lookup_loop, node_lookup_le}
use atomix_db.Node.Layout.{Entry, Holds, IsNode}
use atomix_db.Node.Read.{n_keys_lem, get_key_lem}

-- How many entries stand in front of the first whose key is greater than `key`.
unfoldable pub count_le : Bytes → List Entry → ℕ
count_le key [] = 0
count_le key (e ∷ es) =
    let more = count_le key es in
    elim (compare_bytes e.key key) [
      | Ordering.gt ↦ 0
      | Ordering.eq ↦ suc more
      | Ordering.lt ↦ suc more
    ]

module _ (btype n : ℕ) (node : BNode) (key : Bytes) where
  lookup_loop_lem :
      (todo pre : List Entry) (e : Entry)
      → Holds btype n (pre ++ (e ∷ todo)) node
      → lookup_loop node key (length todo) (length pre + 1) (length pre)
        ≡ ok (length pre + count_le key todo)
  unfolding lookup_loop count_le
  lookup_loop_lem [] pre e h = ap ok (omega arith)
  lookup_loop_lem (t ∷ todo) pre e h =
      let h' : Holds btype n ((pre ++ (e ∷ [])) ++ (t ∷ todo)) node = rw append_assoc h in
      let here : length (pre ++ (e ∷ [])) ≡ length pre + 1 = length-append pre (e ∷ []) in
      let found : get_key node (length pre + 1) ≡ ok t.key =
        sym (ap (get_key node) here) ∙ get_key_lem btype n (pre ++ (e ∷ [])) t todo node h' in
      let more : lookup_loop node key (length todo) (length pre + 1 + 1) (length pre + 1)
          ≡ ok (length pre + 1 + count_le key todo) =
        rw here at (lookup_loop_lem todo (pre ++ (e ∷ [])) t h') in
      rw found (step (compare_bytes t.key key) (more ∙ ap ok (omega arith)))
    where
      step :
          (o : Ordering)
          → lookup_loop node key (length todo) (length pre + 1 + 1) (length pre + 1)
            ≡ ok (length pre + suc (count_le key todo))
          → (elim o [
            | Ordering.gt ↦ ok (length pre)
            | _ ↦ lookup_loop node key (length todo) (length pre + 1 + 1) (length pre + 1)
          ])
            ≡ ok (
                length pre + (elim o [
                  | Ordering.gt ↦ 0
                  | Ordering.eq ↦ suc (count_le key todo)
                  | Ordering.lt ↦ suc (count_le key todo)
                ]))
      step Ordering.lt m = m
      step Ordering.eq m = m
      step Ordering.gt m = ap ok (omega arith)

-- On a page with one entry at least, `nodeLookupLE` returns how many of the keys behind the first
-- come before the first of them that is greater than the key.
pub node_lookup_le_lem :
    (btype : ℕ) (node : BNode) (key : Bytes) (e : Entry) (es : List Entry)
    → IsNode btype (e ∷ es) node
    → node_lookup_le node key ≡ ok (count_le key es)
unfolding node_lookup_le
node_lookup_le_lem btype node key e es h =
    let rounds : suc (length es) - 1 ≡ length es = omega arith in
    rw (n_keys_lem btype (length (e ∷ es)) (e ∷ es) node h, rounds)
      (lookup_loop_lem btype (length (e ∷ es)) node key es [] e h ∙ ap ok (omega arith))
