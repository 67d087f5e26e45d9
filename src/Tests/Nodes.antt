-- ===== src/Tests/Nodes.antt =====
-- Page operations on the root page that the first insertion makes.
use atomix_db.Prelude.{◌≡◌, [], ◌∷◌, ok, panic, length, arith}
use atomix_db.Bytes.{Bytes, make_bytes}
use atomix_db.Node.{
  BNode, btree_page_size, bnode_leaf, set_header, node_append_range, node_append_kv, leaf_update,
  leaf_delete, node_merge, node_lookup_le, node_split3,
}
use atomix_db.Node.Layout.{IsNode, Holds}
use atomix_db.Node.Append.{Writes, set_header_lem}
use atomix_db.Node.Append.Extend.{append_kv_lem}
use atomix_db.Node.Range.Whole.{append_range_lem}
use atomix_db.Node.Edit.{leaf_entry}
use atomix_db.Node.Edit.Update.{leaf_update_lem}
use atomix_db.Node.Edit.Shrink.{leaf_delete_lem, node_merge_lem}
use atomix_db.Node.Lookup.{count_le, node_lookup_le_lem}
use atomix_db.Node.Split.{node_split3_fits, node_split3_panics}
use atomix_db.Tree.Leaf.{length-make_bytes}
use atomix_db.Tests.Pages.{k, m, v, dummy, kv, root_page, root_page-LeafPage, length-root_page}

blank : BNode
blank = make_bytes 5000

length-blank : length blank ≡ 5000
unfolding blank
length-blank = length-make_bytes 5000

-- A page of three places that is still empty.
blank_header : Writes bnode_leaf 3 [] (length blank) (set_header blank bnode_leaf 3)
blank_header =
    set_header_lem bnode_leaf 3 blank (omega arith) (omega (arith, length-blank))
      (omega (arith, length-blank))

empty_page : BNode
empty_page = blank_header.node

empty_page-Holds : Holds bnode_leaf 3 [] empty_page
unfolding empty_page
empty_page-Holds = blank_header.holds

length-empty_page : length empty_page ≡ 5000
unfolding empty_page
length-empty_page = omega (arith, blank_header.same_size, length-blank)

root_page-IsNode : IsNode bnode_leaf (dummy ∷ kv ∷ []) root_page
root_page-IsNode = root_page-LeafPage.holds

append_kv_lem_example :
    Writes bnode_leaf 3 (kv ∷ []) (length empty_page) (node_append_kv empty_page 0 0 k v)
append_kv_lem_example =
    append_kv_lem bnode_leaf 3 [] kv empty_page empty_page-Holds (omega arith) (omega arith)
      (omega (arith, length-empty_page))

append_range_lem_example :
    Writes bnode_leaf 3 (kv ∷ []) (length empty_page) (node_append_range empty_page root_page 0 1 1)
append_range_lem_example =
    append_range_lem bnode_leaf 3 bnode_leaf 2 [] (dummy ∷ []) (kv ∷ []) [] empty_page root_page
      empty_page-Holds root_page-IsNode (omega arith) (omega (arith, length-empty_page))

leaf_delete_lem_example :
    Writes bnode_leaf 1 (dummy ∷ []) (length blank) (leaf_delete blank root_page 1)
leaf_delete_lem_example =
    leaf_delete_lem bnode_leaf (dummy ∷ []) [] kv blank root_page root_page-IsNode
      (omega (arith, length-blank)) (omega (arith, length-blank))

node_merge_lem_example :
    Writes bnode_leaf 4
      (dummy ∷ kv ∷ dummy ∷ kv ∷ [])
      (length blank)
      (node_merge blank root_page root_page)
node_merge_lem_example =
    node_merge_lem bnode_leaf bnode_leaf (dummy ∷ kv ∷ []) (dummy ∷ kv ∷ []) blank root_page
      root_page root_page-IsNode root_page-IsNode (omega (arith, length-blank))
      (omega (arith, length-blank))

node_lookup_le_lem_example : node_lookup_le root_page m ≡ ok (count_le m (kv ∷ []))
node_lookup_le_lem_example =
    node_lookup_le_lem bnode_leaf root_page m dummy (kv ∷ []) root_page-IsNode

node_split3_fits_example :
    (p : BNode) × (node_split3 root_page ≡ ok (p ∷ []))
    × IsNode bnode_leaf (dummy ∷ kv ∷ []) p
    × (length p ≡ btree_page_size)
node_split3_fits_example =
    node_split3_fits bnode_leaf (dummy ∷ kv ∷ []) root_page root_page-IsNode (omega arith)
      (omega (arith, length-root_page))

-- A page of 8192 bytes with a pair that leaves no room for the dummy on a page of 4096.
wide : Bytes
wide = make_bytes 4080

length-wide : length wide ≡ 4080
unfolding wide
length-wide = length-make_bytes 4080

wide_page :
    Writes bnode_leaf 2
      (dummy ∷ leaf_entry k wide ∷ [])
      (length (make_bytes 8192))
      (leaf_update (make_bytes 8192) root_page 1 k wide)
wide_page =
    leaf_update_lem bnode_leaf (dummy ∷ []) [] kv (make_bytes 8192) root_page k wide
      root_page-IsNode (omega (arith, length-make_bytes 8192, length-wide))
      (omega (arith, length-make_bytes 8192))

wide_node : BNode
wide_node = wide_page.node

wide_node-IsNode : IsNode bnode_leaf (dummy ∷ leaf_entry k wide ∷ []) wide_node
unfolding wide_node
wide_node-IsNode = wide_page.holds

node_split3_panics_example : node_split3 wide_node ≡ panic
node_split3_panics_example =
    node_split3_panics bnode_leaf (dummy ∷ leaf_entry k wide ∷ []) wide_node wide_node-IsNode
      (omega (arith, length-wide)) (omega arith)
