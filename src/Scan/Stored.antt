-- ===== src/Scan/Stored.antt =====
-- A row that a transaction inserts by its encoded key and value, and `dbGet` of database/record.go.
use atomix_db.Prelude.{ℕ, suc, ◌≤◌, ◌≡◌, refl, sym, ap, ◌∙◌, none, some, List, [], ◌∷◌, ◌++◌, ok}
use atomix_db.Bytes.{Bytes}
use atomix_db.Bytes.Order.{equal_bytes}
use atomix_db.Bytes.Order.Laws.{equal_bytes_refl}
use atomix_db.Codec.{be, encode_key, encode_values}
use atomix_db.Codec.RoundTrip.{Cell, values_of, encode_values_lem}
use atomix_db.Table.{TableDef}
use atomix_db.Node.{BNode, btree_page_size}
use atomix_db.Node.Layout.{Entry}
use atomix_db.Node.Edit.{node_size, leaf_entry}
use atomix_db.Node.Sorted.{find, insert}
use atomix_db.Node.Sorted.Maps.{find-insert}
use atomix_db.Tree
use atomix_db.Tree.Root.{LeafRoot, IsPair, insert_leaf, insert_dummy, key-ne-nil}
use atomix_db.Transaction.{Writer, page_del, tx_pager}
use atomix_db.Transaction.Puts.{IsOpen, put_page, page_del-IsOpen, page_del-kv}
use atomix_db.Scan.{found, db_get}
use atomix_db.Scan.Row.{Fits, row_key, asking, db_get_row}

same_bytes : {a b : Bytes} → ok a ≡ ok b → a ≡ b
same_bytes e = cc

-- In a transaction with an empty free list, whose tree is a leaf with the room: `Insert` of the key
-- that `encodeKey` makes of the primary key of a row and the value that `encodeValues` makes of its
-- other columns, of allowed sizes, returns without an error, and `dbGet` by the primary key then finds
-- the row with all its columns. The int64 cells fit 64 bits and no byte string begins with 0xfe or
-- 0xff.
pub insert-db_get :
    (walk fuel depth root : ℕ) (d : Entry) (es : List Entry) (page : BNode) (w : Writer)
    (tdef : TableDef) (ks vs : List Cell) (key val : Bytes)
    → LeafRoot (tx_pager walk) root d es page w
    → IsOpen w
    → Fits tdef ks vs
    → encode_key [] tdef.prefix (values_of ks) ≡ ok key
    → encode_values [] (values_of vs) ≡ ok val
    → IsPair key val
    → node_size (d ∷ insert (leaf_entry key val) es) ≤ btree_page_size
    → (ptr : ℕ) × (w' : Writer) × (Tree.insert (tx_pager walk) (suc fuel) root key val w
        ≡ ok (none, ptr, w'))
      × (db_get (tx_pager walk) (suc depth) (suc fuel) ptr tdef (asking tdef ks) w'
          ≡ ok (found (record { cols = tdef.cols; vals = values_of (ks ++ vs) })))
unfolding encode_key
insert-db_get walk fuel depth root d es page w tdef ks vs key val h opened row key_is val_is fits
      room =
    let e = leaf_entry key val in
    let (p, leaf, whole, run) =
      insert_leaf (tx_pager walk) root d es page w h key fuel val fits room in
    let (ptr, w', q, done, root', opened', kept) =
      put_page walk (suc fuel) root d (insert e es) key val w (page_del root w) p leaf whole
        (page_del-IsOpen root w opened) (page_del-kv root w) run in
    (
      ptr,
      w',
      done,
      db_get_row (tx_pager walk) ptr d (insert e es) q w' root' tdef ks vs row e
          (same_bytes (sym val_is ∙ encode_values_lem [] vs row.val_cells)) stored depth fuel,
    )
  where
    keyed : key ≡ row_key tdef ks
    keyed = same_bytes (sym key_is ∙ encode_values_lem (be 4 tdef.prefix) ks row.key_cells)

    stored : find (row_key tdef ks) (d ∷ insert (leaf_entry key val) es) ≡ some (leaf_entry key val)
    stored =
        ap (find (row_key tdef ks))
          (sym (insert_dummy d (leaf_entry key val) es h.leaf.dummy (key-ne-nil key fits.some_key)))
        ∙ find-insert (leaf_entry key val) (d ∷ es) (row_key tdef ks)
        ∙ rw (ap (λ b. equal_bytes b (row_key tdef ks)) keyed ∙ equal_bytes_refl (row_key tdef ks))
            refl
