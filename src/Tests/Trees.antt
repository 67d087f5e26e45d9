-- ===== src/Tests/Trees.antt =====
-- A tree of two levels: an inner page over the root page of Tests/Pages and a second leaf.
use atomix_db.Prelude.{ℕ, ◌+◌, ◌≡◌, ◌<◌, refl, [], ◌∷◌, none, ok, arith}
use mathlib.Core.Option
use atomix_db.Bytes.{make_bytes}
use atomix_db.Bytes.Order.{compare_bytes}
use atomix_db.Node.{BNode, bnode_leaf, bnode_inode}
use atomix_db.Node.Layout.{Entry, IsU64, pair_size, IsNode}
use atomix_db.Node.Append.{set_header_lem}
use atomix_db.Node.Append.Extend.{append_kv_lem}
use atomix_db.Node.Edit.{leaf_entry, kid_entry}
use atomix_db.Node.Sorted.{find}
use atomix_db.Tree
use atomix_db.Tree.Leaf.{length-make_bytes}
use atomix_db.Tree.Search.{IsTree, get_tree}
use atomix_db.Tests.Pages.{Pages, page_of, memory, m, v, dummy, kv, root_page, root_page-LeafPage}

abbrev mv : Entry
mv = leaf_entry m v

-- A page of 5000 bytes with one entry, and one with two.
one_entry :
    (btype : ℕ) (e : Entry)
    → btype < 65536
    → IsU64 e
    → pair_size e < 4000
    → (page : BNode) × IsNode btype (e ∷ []) page
one_entry btype e small wide short =
    let len = length-make_bytes 5000 in
    let w₁ =
      set_header_lem btype 1 (make_bytes 5000) small (omega (arith, len)) (omega (arith, len)) in
    let w₂ =
      append_kv_lem btype 1 [] e w₁.node w₁.holds (omega arith) wide
        (omega (arith, w₁.same_size, len)) in
    (w₂.node, w₂.holds)

two_entries :
    (btype : ℕ) (e f : Entry)
    → btype < 65536
    → IsU64 e
    → IsU64 f
    → pair_size e + pair_size f < 4000
    → (page : BNode) × IsNode btype (e ∷ f ∷ []) page
two_entries btype e f small wide wide' short =
    let len = length-make_bytes 5000 in
    let w₁ =
      set_header_lem btype 2 (make_bytes 5000) small (omega (arith, len)) (omega (arith, len)) in
    let w₂ =
      append_kv_lem btype 2 [] e w₁.node w₁.holds (omega arith) wide
        (omega (arith, w₁.same_size, len)) in
    let w₃ =
      append_kv_lem btype 2 (e ∷ []) f w₂.node w₂.holds (omega arith) wide'
        (omega (arith, w₁.same_size, w₂.same_size, len)) in
    (w₃.node, w₃.holds)

right_leaf : (page : BNode) × IsNode bnode_leaf (mv ∷ []) page
right_leaf = one_entry bnode_leaf mv (omega arith) (omega arith) (omega arith)

inner : (page : BNode) × IsNode bnode_inode (kid_entry 1 [] ∷ kid_entry 2 m ∷ []) page
inner =
    two_entries bnode_inode (kid_entry 1 []) (kid_entry 2 m) (omega arith) (omega arith)
      (omega arith) (omega arith)

two_levels : Pages
two_levels = (1, root_page) ∷ (2, right_leaf.0) ∷ (3, inner.0) ∷ []

got_left : memory.get 1 two_levels ≡ ok root_page
unfolding two_levels page_of
got_left = refl

got_right : memory.get 2 two_levels ≡ ok right_leaf.0
unfolding two_levels page_of
got_right = refl

got_inner : memory.get 3 two_levels ≡ ok inner.0
unfolding two_levels page_of
got_inner = refl

two_levels-IsTree : IsTree memory 1 3 (dummy ∷ kv ∷ mv ∷ []) two_levels
unfolding compare_bytes
two_levels-IsTree = record {
  rooted = omega arith;
  page = inner.0;
  got = got_inner;
  tree = (
    kid_entry 2 m ∷ [],
    kid_entry 1 [],
    inner.1,
    (
      dummy ∷ kv ∷ [],
      mv ∷ [],
      refl,
      (root_page, got_left, root_page-LeafPage.holds),
      record { first = dummy; others = kv ∷ []; entries = refl; first_key = refl },
      (
        mv ∷ [],
        [],
        refl,
        (right_leaf.0, got_right, right_leaf.1),
        record { first = mv; others = []; entries = refl; first_key = refl },
        refl,
      ),
    ),
  );
  sorted = ((refl, (refl, tt)), ((refl, tt), (tt, tt)));
  dummy = record { first = dummy; others = kv ∷ mv ∷ []; entries = refl; first_key = refl };
}

get_tree_example :
    Tree.get_value memory 2 3 m two_levels
    ≡ ok (none, Option.map (λ (e : Entry). e.val) (find m (dummy ∷ kv ∷ mv ∷ [])))
get_tree_example =
    get_tree memory 1 1 3 (dummy ∷ kv ∷ mv ∷ []) m two_levels two_levels-IsTree (omega arith)
      (omega arith) (omega arith)
