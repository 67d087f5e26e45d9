-- ===== src/Tests/Scans.antt =====
-- A row of a table with one column of bytes as its primary key and an integer.
use atomix_db.Prelude.{
  ℕ, ◌≤◌, ◌≡◌, refl, subst, none, List, [], ◌∷◌, ◌++◌, ok, ◌>>=◌, length, arith,
}
use atomix_db.Bytes.{Bytes}
use atomix_db.Bytes.Order.{compare_bytes}
use atomix_db.Codec.{be, encode_key, encode_values, encode_value, escape_string, count_byte}
use atomix_db.Codec.Escape.{escaped}
use atomix_db.Codec.RoundTrip.{Cell, int64, text, values_of, cells_bytes, cell_bytes}
use atomix_db.Table.{Record, TableDef}
use atomix_db.Node.{BNode, btree_page_size}
use atomix_db.Node.Edit.{node_size, leaf_entry}
use atomix_db.Node.Sorted.{insert}
use atomix_db.Tree
use atomix_db.Tree.Root.{IsPair, LeafRoot, insert_first, insert_leaf}
use atomix_db.Tree.Leaf.{LeafPage}
use atomix_db.Transaction.{Writer, tx_pager}
use atomix_db.Scan.{found, db_get}
use atomix_db.Scan.Row.{Fits, asking}
use atomix_db.Scan.Row
use atomix_db.Scan.Whole.{full_table_scan}
use atomix_db.Scan.Whole.Keys.{Outside}
use atomix_db.Bytes.Order.Laws.{Lt}
use atomix_db.Node.Layout.{Entry}
use atomix_db.Scan.Whole.Rows.{full_table_scan_lem}
use atomix_db.Scan.Stored.{insert-db_get}
use atomix_db.Tests.Pages.{page_of, memory, k, v, dummy, kv, k-IsPair}
use atomix_db.Tests.Transactions.{first_put}

abbrev ages : TableDef
ages = record {
  name = 97 ∷ [];
  types = 2 ∷ 1 ∷ [];
  cols = (110 ∷ []) ∷ (111 ∷ []) ∷ [];
  pkeys = 1;
  indexes = [];
  prefix = 100;
  index_prefix = [];
}

abbrev name : List Cell
name = text (98 ∷ []) ∷ []

abbrev age : List Cell
age = int64 5 ∷ []

abbrev row_key : Bytes
row_key = 0 ∷ 0 ∷ 0 ∷ 100 ∷ 98 ∷ 0 ∷ []

abbrev row_val : Bytes
row_val = 128 ∷ 0 ∷ 0 ∷ 0 ∷ 0 ∷ 0 ∷ 0 ∷ 5 ∷ []

ages-Fits : Fits ages name age
ages-Fits = record {
  keys = refl;
  columns = refl;
  types = refl;
  key_cells = (omega arith, tt);
  val_cells = (omega arith, tt);
}

key_encoded : encode_key [] 100 (values_of name) ≡ ok row_key
unfolding encode_key encode_values encode_value escape_string be count_byte
key_encoded = refl

val_encoded : encode_values [] (values_of age) ≡ ok row_val
unfolding encode_values encode_value be
val_encoded = refl

row-IsPair : IsPair row_key row_val
row-IsPair = record { some_key = omega arith; key_fits = omega arith; val_fits = omega arith }

room : node_size (dummy ∷ insert (leaf_entry row_key row_val) (kv ∷ [])) ≤ btree_page_size
unfolding insert compare_bytes
room = omega arith

insert-db_get_example :
    (ptr : ℕ) × (w' : Writer) × (Tree.insert (tx_pager 0) 1 first_put.0 row_key row_val first_put.1
      ≡ ok (none, ptr, w'))
    × (db_get (tx_pager 0) 1 1 ptr ages (asking ages name) w'
        ≡ ok (found (record { cols = ages.cols; vals = values_of (name ++ age) })))
insert-db_get_example =
    insert-db_get 0 0 0 first_put.0 dummy (kv ∷ []) first_put.2 first_put.1 ages name age row_key
      row_val first_put.4 first_put.5 ages-Fits key_encoded val_encoded row-IsPair room

-- A leaf with an entry of another table before this row and an entry behind it.
abbrev lower_key : Bytes
lower_key = 0 ∷ 0 ∷ 0 ∷ 99 ∷ 97 ∷ 0 ∷ []

lower-IsPair : IsPair lower_key v
lower-IsPair = record { some_key = omega arith; key_fits = omega arith; val_fits = omega arith }

row_alone :
    (p : BNode) × LeafPage dummy (leaf_entry row_key row_val ∷ []) p
    × (length p ≡ btree_page_size)
    × (Tree.insert memory 1 0 row_key row_val []
        ≡ (memory.new p [] >>= λ done. ok (none, done.0, done.1)))
row_alone = insert_first memory 1 row_key row_val [] row-IsPair

got_only : (p : BNode) → memory.get 1 ((1, p) ∷ []) ≡ ok p
unfolding page_of
got_only p = refl

-- A leaf as the root of the first page.
root_of :
    (es : List Entry) (p : BNode)
    → LeafPage dummy es p
    → length p ≡ btree_page_size
    → LeafRoot memory 1 dummy es p ((1, p) ∷ [])
root_of es p leaf size = record {
  rooted = omega arith;
  got = got_only p;
  leaf = leaf;
  one_page = size;
}

abbrev row_entry : Entry
row_entry = leaf_entry row_key row_val

room_kv : node_size (dummy ∷ insert kv (row_entry ∷ [])) ≤ btree_page_size
unfolding insert compare_bytes
room_kv = omega arith

room_lower :
    node_size (dummy ∷ insert (leaf_entry lower_key v) (insert kv (row_entry ∷ [])))
    ≤ btree_page_size
unfolding insert compare_bytes
room_lower = omega arith

with_kv :
    (p : BNode) × LeafPage dummy (insert kv (row_entry ∷ [])) p
    × (length p ≡ btree_page_size)
    × (Tree.insert memory 1 1 k v ((1, row_alone.0) ∷ []) ≡ (
        memory.new p (memory.del 1 ((1, row_alone.0) ∷ [])) >>= λ done. ok (none, done.0, done.1)))
with_kv =
    insert_leaf memory 1 dummy (row_entry ∷ []) row_alone.0 ((1, row_alone.0) ∷ [])
      (root_of (row_entry ∷ []) row_alone.0 row_alone.1 row_alone.2) k 0 v k-IsPair room_kv

three_pairs :
    (p : BNode) × LeafPage dummy (insert (leaf_entry lower_key v) (insert kv (row_entry ∷ []))) p
    × (length p ≡ btree_page_size)
    × (Tree.insert memory 1 1 lower_key v ((1, with_kv.0) ∷ [])
        ≡ (memory.new p (memory.del 1 ((1, with_kv.0) ∷ [])) >>= λ done. ok (none, done.0, done.1)))
three_pairs =
    insert_leaf memory 1 dummy (insert kv (row_entry ∷ [])) with_kv.0 ((1, with_kv.0) ∷ [])
      (root_of (insert kv (row_entry ∷ [])) with_kv.0 with_kv.1 with_kv.2) lower_key 0 v
      lower-IsPair room_lower

abbrev three : List Entry
three = leaf_entry lower_key v ∷ row_entry ∷ kv ∷ []

in_order : insert (leaf_entry lower_key v) (insert kv (row_entry ∷ [])) ≡ three
unfolding insert compare_bytes
in_order = refl

three_page : LeafRoot memory 1 dummy three three_pairs.0 ((1, three_pairs.0) ∷ [])
three_page =
    subst (λ es. LeafRoot memory 1 dummy es three_pairs.0 ((1, three_pairs.0) ∷ [])) in_order
      (root_of (insert (leaf_entry lower_key v) (insert kv (row_entry ∷ []))) three_pairs.0
        three_pairs.1 three_pairs.2)

abbrev rows : List Record
rows = record { cols = ages.cols; vals = values_of (name ++ age) } ∷ []

key_of_row : row_key ≡ Row.row_key ages name
unfolding be cells_bytes cell_bytes escaped
key_of_row = refl

val_of_row : row_val ≡ cells_bytes age
unfolding be cells_bytes cell_bytes
val_of_row = refl

lower_low : Lt lower_key (be 4 100)
unfolding be compare_bytes
lower_low = refl

kv_high : Lt (be 4 100) k
unfolding be compare_bytes
kv_high = refl

kv-Outside : Outside ages k
unfolding be
kv-Outside rest e = cc

full_table_scan_lem_example : full_table_scan memory 1 2 1 ages ((1, three_pairs.0) ∷ []) ≡ ok rows
full_table_scan_lem_example =
    full_table_scan_lem memory 1 dummy three three_pairs.0 ((1, three_pairs.0) ∷ []) three_page ages
      0 1 (leaf_entry lower_key v ∷ []) (row_entry ∷ []) (kv ∷ []) rows (omega arith) refl
      (lower_low, tt) ((name, age, ages-Fits, key_of_row, val_of_row, refl), tt) (kv_high, tt)
      (kv-Outside, tt) (omega arith)
