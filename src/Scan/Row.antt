-- ===== src/Scan/Row.antt =====
-- `dbGet` of database/record.go reads back a row of a table whose tree is a leaf.
use atomix_db.Prelude.{
  ℕ, zero, suc, ◌≤◌, ◌≡◌, ◌≢◌, refl, sym, ap, ◌∙◌, inl, inr, true, none, some, List, [], ◌∷◌, ◌++◌,
  ok, length, take, drop, All, leb, le→leb, length-append, append-nil, drop-append_len,
  take-append_len, arith,
}
use atomix_db.Bytes.{Bytes, slice}
use atomix_db.Bytes.Le.{slice_at}
use atomix_db.Codec.BigEndian.{length-be}
use atomix_db.Bytes.Order.Laws.{compare_bytes_refl}
use atomix_db.Pager.{Pager}
use atomix_db.Codec.{Value, be, encode_key, decode_values}
use atomix_db.Codec.RoundTrip.{
  Cell, value_of, values_of, IsCell, HasTypes, cells_bytes, encode_values_lem, decode_values_lem,
}
use atomix_db.Table.{
  Name, Record, TableDef, answer, primary, upto, is_prefix, find_index, zero_value,
}
use atomix_db.Table.Index.{is_prefix-append}
use atomix_db.Node.{BNode}
use atomix_db.Node.Layout.{Entry}
use atomix_db.Node.Sorted.{find}
use atomix_db.Node.Sorted.Maps.{find-Place_hit, find-Place_miss}
use atomix_db.Tree.Root.{LeafRoot}
use atomix_db.Tree.Iterator.{Cmp, cmp_ok, deref, valid, seek, scanner_valid}
use atomix_db.Tree.Iterator.AtLeaf.{at_place, seek_le_leaf}
use atomix_db.Updates.{encode_key_partial, fill_max}
use atomix_db.Scan.{
  found, range_ok, index_of_choice, typed, decode_row, db_scan, get_with, scanner_deref, db_get,
}

-- The types of cells.
abbrev pub types_of : List Cell → List ℕ
types_of [] = []
types_of (c ∷ cs) = (value_of c).type_of ∷ types_of cs

-- The values that `typed` makes for cells.
abbrev blank : Cell → Value
blank c = record zero_value { type_of = (value_of c).type_of }

abbrev blanks : List Cell → List Value
blanks [] = []
blanks (c ∷ cs) = blank c ∷ blanks cs

length-blanks : (cs : List Cell) → length (blanks cs) ≡ length cs
length-blanks [] = refl
length-blanks (c ∷ cs) = omega (arith, length-blanks cs)

blanks-append : (ks vs : List Cell) → blanks (ks ++ vs) ≡ blanks ks ++ blanks vs
blanks-append [] vs = refl
blanks-append (c ∷ ks) vs = ap (λ l. blank c ∷ l) (blanks-append ks vs)

blanks-HasTypes : (cs : List Cell) → HasTypes cs (blanks cs)
blanks-HasTypes [] = tt
blanks-HasTypes (c ∷ cs) = (refl, blanks-HasTypes cs)

typed-types_of :
    (cols : List Name) (cs : List Cell)
    → length cols ≡ length cs
    → typed cols (types_of cs) ≡ ok (blanks cs)
unfolding typed
typed-types_of [] [] h = refl
typed-types_of [] (c ∷ cs) h = absurd (omega arith)
typed-types_of (col ∷ cols) [] h = absurd (omega arith)
typed-types_of (col ∷ cols) (c ∷ cs) h = rw (typed-types_of cols cs (omega arith)) refl

decode-cells :
    (cs : List Cell)
    → All IsCell cs
    → decode_values (cells_bytes cs) (blanks cs) ≡ ok (values_of cs)
decode-cells cs h =
    ap (λ b. decode_values b (blanks cs)) (sym (append-nil (cells_bytes cs)))
    ∙ decode_values_lem cs [] (blanks cs) h (blanks-HasTypes cs)

-- A table whose columns hold the cells `ks` of a primary key and the cells `vs` behind it.
pub record Fits (tdef : TableDef) (ks vs : List Cell) : Type 0 where
  pub keys : tdef.pkeys ≡ length ks
  pub columns : length tdef.cols ≡ length (ks ++ vs)
  pub types : tdef.types ≡ types_of (ks ++ vs)
  pub key_cells : All IsCell ks
  pub val_cells : All IsCell vs

-- The key of the row.
abbrev pub row_key : TableDef → List Cell → Bytes
row_key tdef ks = be 4 tdef.prefix ++ cells_bytes ks

values-append : (ks vs : List Cell) → values_of (ks ++ vs) ≡ values_of ks ++ values_of vs
values-append [] vs = refl
values-append (c ∷ ks) vs = ap (λ l. value_of c ∷ l) (values-append ks vs)

length-values : (cs : List Cell) → length (values_of cs) ≡ length cs
length-values [] = refl
length-values (c ∷ cs) = omega (arith, length-values cs)

row_key_tail :
    (tdef : TableDef) (ks : List Cell)
    → slice (row_key tdef ks) 4 (length (row_key tdef ks)) ≡ ok (cells_bytes ks)
row_key_tail tdef ks =
    slice_at (be 4 tdef.prefix) (cells_bytes ks) [] 4 (length (row_key tdef ks))
      (ap (λ b. be 4 tdef.prefix ++ b) (sym (append-nil (cells_bytes ks))))
      (sym (length-be 4 tdef.prefix))
      (omega (arith, length-append (be 4 tdef.prefix) (cells_bytes ks), length-be 4 tdef.prefix))

pub decode_row_lem :
    (tdef : TableDef) (ks vs : List Cell)
    → Fits tdef ks vs
    → decode_row tdef (row_key tdef ks) (cells_bytes vs) ≡ ok (values_of (ks ++ vs))
unfolding decode_row upto
decode_row_lem tdef ks vs h =
    rw
      (
        h.types,
        typed-types_of tdef.cols (ks ++ vs) h.columns,
        blanks-append ks vs,
        cut_at,
        row_key_tail tdef ks,
        take_keys,
        decode-cells ks h.key_cells,
        drop_keys,
        decode-cells vs h.val_cells,
        values-append ks vs,
      )
      refl
  where
    size : tdef.pkeys ≡ length (blanks ks)
    size = omega (arith, h.keys, length-blanks ks)

    cut_at : leb tdef.pkeys (length (blanks ks ++ blanks vs)) ≡ true
    cut_at = le→leb _ _ (omega (arith, size, length-append (blanks ks) (blanks vs)))

    take_keys : take tdef.pkeys (blanks ks ++ blanks vs) ≡ blanks ks
    take_keys =
        ap (λ n. take n (blanks ks ++ blanks vs)) size ∙ take-append_len (blanks ks) (blanks vs)

    drop_keys : drop tdef.pkeys (blanks ks ++ blanks vs) ≡ blanks vs
    drop_keys =
        ap (λ n. drop n (blanks ks ++ blanks vs)) size ∙ drop-append_len (blanks ks) (blanks vs)

drop-take : (n : ℕ) (xs : List Name) → drop n (take n xs) ≡ []
drop-take zero xs = refl
drop-take (suc n) [] = refl
drop-take (suc n) (x ∷ xs) = drop-take n xs

-- The record that asks for the row with the primary key `ks`.
abbrev pub asking : TableDef → List Cell → Record
asking tdef ks = record { cols = take tdef.pkeys tdef.cols; vals = values_of ks }

-- The keys of both ends of the range of `dbGet`.
encode_lem :
    (tdef : TableDef) (ks vs : List Cell)
    → Fits tdef ks vs
    → (encode_key_partial [] tdef.prefix (values_of ks) tdef (take tdef.pkeys tdef.cols) Cmp.cmp_ge
        ≡ ok (row_key tdef ks))
      × (encode_key_partial [] tdef.prefix
            (values_of ks)
            tdef
            (take tdef.pkeys tdef.cols)
            Cmp.cmp_le
          ≡ ok (row_key tdef ks))
unfolding encode_key_partial encode_key fill_max
encode_lem tdef ks vs h = (
  rw (encode_values_lem (be 4 tdef.prefix) ks h.key_cells) refl,
  rw (encode_values_lem (be 4 tdef.prefix) ks h.key_cells, none_left) refl,
)
  where
    none_left : drop (length (values_of ks)) (take tdef.pkeys tdef.cols) ≡ []
    none_left =
        ap (λ n. drop n (take tdef.pkeys tdef.cols)) (length-values ks ∙ sym h.keys)
        ∙ drop-take tdef.pkeys tdef.cols

chosen :
    (tdef : TableDef) (ks vs : List Cell)
    → Fits tdef ks vs
    → (find_index tdef (take tdef.pkeys tdef.cols) ≡ ok (answer primary))
      × (upto tdef.cols tdef.pkeys ≡ ok (take tdef.pkeys tdef.cols))
unfolding find_index upto
chosen tdef ks vs h =
    let few : tdef.pkeys ≤ length tdef.cols =
      omega (arith, h.keys, h.columns, length-append ks vs) in
    let whole : is_prefix (take tdef.pkeys tdef.cols) (take tdef.pkeys tdef.cols) ≡ true =
      ap (λ l. is_prefix l (take tdef.pkeys tdef.cols))
        (sym (append-nil (take tdef.pkeys tdef.cols)))
      ∙ is_prefix-append (take tdef.pkeys tdef.cols) [] in
    (
      rw (le→leb tdef.pkeys (length tdef.cols) few, whole) refl,
      rw (le→leb tdef.pkeys (length tdef.cols) few) refl,
    )

pub within_ge : (key : Bytes) → cmp_ok key Cmp.cmp_ge key ≡ true
unfolding cmp_ok
within_ge key = rw (cmp_ok, compare_bytes_refl key) refl

within_le : (key : Bytes) → cmp_ok key Cmp.cmp_le key ≡ true
unfolding cmp_ok
within_le key = rw (cmp_ok, compare_bytes_refl key) refl

module _ (pager : Pager) where
  open pager use {State}

  module _ (root : ℕ) (d : Entry) (es : List Entry) (page : BNode) (s : State)
      (leaf : LeafRoot pager root d es page s) (tdef : TableDef) (ks vs : List Cell)
      (h : Fits tdef ks vs) (e : Entry) (val : e.val ≡ cells_bytes vs)
      (stored : find (row_key tdef ks) (d ∷ es) ≡ some e) where
    some_key : row_key tdef ks ≢ []
    some_key none_there = absurd (
        omega (
          arith,
          ap length none_there,
          length-append (be 4 tdef.prefix) (cells_bytes ks),
          length-be 4 tdef.prefix,
        ))

    -- The scanner of `dbGet` stands at the entry.
    at_row :
        (fuel : ℕ)
        → (idx : ℕ) × (seek pager (suc fuel) root (row_key tdef ks) Cmp.cmp_ge s
            ≡ ok (at_place page idx))
          × (valid (at_place page idx) ≡ ok true)
          × (deref (at_place page idx) ≡ ok (row_key tdef ks, cells_bytes vs))
    unfolding seek
    at_row fuel =
        let (idx, p, sought, is_valid, pair) =
          seek_le_leaf pager root d es page s leaf fuel (row_key tdef ks) some_key in
        let same : p.entry.key ≡ row_key tdef ks = elim p.at_most [
          | inl less ↦ absurd (stored_not (find-Place_miss (row_key tdef ks) (d ∷ es) p less))
          | inr same ↦ same
        ] in
        let it : p.entry ≡ e =
          some_same (sym (find-Place_hit (row_key tdef ks) (d ∷ es) p same) ∙ stored) in
        let pair' : deref (at_place page idx) ≡ ok (row_key tdef ks, cells_bytes vs) =
          rw (pair, same, ap (λ (x : Entry). x.val) it, val) refl in
        (idx, rw (sought, is_valid, pair', within_ge (row_key tdef ks)) refl, is_valid, pair')
      where
        stored_not : find (row_key tdef ks) (d ∷ es) ≢ none
        stored_not none_there = cc

        some_same : {x y : Entry} → some x ≡ some y → x ≡ y
        some_same e = cc

    -- `dbGet` of a row by its primary key, in a table whose tree is a leaf that has the encoded row, with
    -- a unit of fuel for the descent and one of depth at least: it finds the row and returns all of its
    -- columns. The int64 cells fit 64 bits and no byte string begins with 0xfe or 0xff.
    pub db_get_row :
        (depth fuel : ℕ)
        → db_get pager (suc depth) (suc fuel) root tdef (asking tdef ks) s
          ≡ ok (found (record { cols = tdef.cols; vals = values_of (ks ++ vs) }))
    unfolding db_get get_with db_scan range_ok index_of_choice scanner_valid scanner_deref
    db_get_row depth fuel =
        let (idx, sought, is_valid, pair) = at_row fuel in
        let (served, primary_cols) = chosen tdef ks vs h in
        let (start, end) = encode_lem tdef ks vs h in
        rw
          (
            served,
            primary_cols,
            start,
            end,
            sought,
            is_valid,
            pair,
            within_le (row_key tdef ks),
            within_ge (row_key tdef ks),
            decode_row_lem tdef ks vs h,
          )
          refl
