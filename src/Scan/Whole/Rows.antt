-- ===== src/Scan/Whole/Rows.antt =====
-- `fullTableScan` of database/table_scanner.go where the tree is a leaf with the entries of many tables.
use atomix_db.Prelude.{
  ℕ, zero, suc, ◌+◌, ◌≤◌, ◌≡◌, ◌≢◌, refl, sym, ap, ◌∙◌, subst, true, false, List, [], ◌∷◌, ◌++◌, ok,
  ◌>>=◌, if◌then◌else◌, length, All, length-append, append_assoc, All-append, arith,
}
use atomix_db.Bytes.{Bytes}
use atomix_db.Bytes.Order.{compare_bytes, equal_bytes}
use atomix_db.Bytes.Order.Laws.{Lt, equal_bytes_refl}
use atomix_db.Pager.{Pager}
use atomix_db.Codec.{be, encode_key, encode_values}
use atomix_db.Codec.BigEndian.{length-be}
use atomix_db.Codec.RoundTrip.{Cell, values_of, cells_bytes}
use atomix_db.Table.{Record, TableDef}
use atomix_db.Node.{BNode}
use atomix_db.Node.Layout.{Entry}
use atomix_db.Node.Sorted.{IsSorted}
use atomix_db.Node.Sorted.Segments.{IsSorted-append_right}
use atomix_db.Tree.Root.{LeafRoot}
use atomix_db.Tree.Iterator.{Cmp, cmp_ok, deref, seek, next}
use atomix_db.Tree.Iterator.AtLeaf.{at_place, seek_le_leaf}
use atomix_db.Scan.{decode_row}
use atomix_db.Scan.Row.{Fits, row_key, decode_row_lem}
use atomix_db.Scan.Whole.{has_prefix, last_row, row, table_next, scan_loop, full_table_scan}
use atomix_db.Scan.Whole.Leaf.{is_valid, pair, stays, moves}
use atomix_db.Scan.Whole.Keys.{
  Rows, Outside, Outside-has_prefix, Lt-Outside, place_between, has_prefix-append, row_key-greater,
  greater-other,
}

module _ (pager : Pager) (root : ℕ) where
  open pager use {State}

  module _ (d : Entry) (es : List Entry) (page : BNode) (s : State)
      (leaf : LeafRoot pager root d es page s) (tdef : TableDef) where
    prefix : Bytes
    prefix = be 4 tdef.prefix

    -- One row: its key has the prefix, and it is decoded.
    module _ (before : List Entry) (e : Entry) (after : List Entry) (r : Record)
        (split : d ∷ es ≡ before ++ (e ∷ after)) (ks vs : List Cell) (h : Fits tdef ks vs)
        (key : e.key ≡ row_key tdef ks) (val : e.val ≡ cells_bytes vs)
        (it : r ≡ record { cols = tdef.cols; vals = values_of (ks ++ vs) }) where
      prefixed : has_prefix e.key prefix ≡ true
      unfolding prefix
      prefixed = ap (λ k. has_prefix k prefix) key ∙ has_prefix-append prefix (cells_bytes ks)

      decoded : decode_row tdef e.key e.val ≡ ok (values_of (ks ++ vs))
      decoded =
          ap (λ k. decode_row tdef k e.val) key
          ∙ ap (decode_row tdef (row_key tdef ks)) val
          ∙ decode_row_lem tdef ks vs h

      table_next_lem :
          (idx : ℕ) (next_key next_val : Bytes)
          → next pager (at_place page (length before)) s ≡ ok (at_place page idx)
          → deref (at_place page idx) ≡ ok (next_key, next_val)
          → table_next pager tdef prefix (at_place page (length before)) s ≡ (
              if equal_bytes e.key next_key
              then ok (last_row r, record { path = []; pos = [] })
              else ok (row r, at_place page idx))
      unfolding table_next
      table_next_lem idx next_key next_val moved at_next =
          rw
            (
              is_valid pager root d es page s leaf before e after split,
              pair pager root d es page s leaf before e after split,
              prefixed,
              decoded,
              moved,
              at_next,
              it,
            )
            refl

    -- The loop ends at an entry whose key does not begin with the prefix.
    ends_at :
        (fuel : ℕ) (before : List Entry) (e : Entry) (after : List Entry)
        → d ∷ es ≡ before ++ (e ∷ after)
        → Outside tdef e.key
        → scan_loop pager (suc fuel) tdef prefix (at_place page (length before)) s ≡ ok []
    unfolding scan_loop table_next prefix
    ends_at fuel before e after split outside =
        rw
          (
            is_valid pager root d es page s leaf before e after split,
            pair pager root d es page s leaf before e after split,
            Outside-has_prefix tdef e.key outside,
          )
          refl

    module _ (before : List Entry) (e f : Entry) (after : List Entry)
        (split : d ∷ es ≡ before ++ (e ∷ f ∷ after)) where
      split_next : d ∷ es ≡ (before ++ (e ∷ [])) ++ (f ∷ after)
      split_next = split ∙ sym (append_assoc before (e ∷ []) (f ∷ after))

      place_next : length (before ++ (e ∷ [])) ≡ length before + 1
      place_next = omega (arith, length-append before (e ∷ []))

      -- What the loop does at the next entry.
      at_next :
          (fuel : ℕ) {rs : List Record}
          → scan_loop pager fuel tdef prefix (at_place page (length (before ++ (e ∷ [])))) s ≡ ok rs
          → scan_loop pager fuel tdef prefix (at_place page (length before + 1)) s ≡ ok rs
      at_next fuel {rs} =
          subst (λ n. scan_loop pager fuel tdef prefix (at_place page n) s ≡ ok rs) place_next

      -- A row with an entry behind it.
      row_behind :
          (fuel : ℕ) (r : Record) (rs : List Record)
          → Rows tdef (e ∷ []) (r ∷ [])
          → scan_loop pager fuel tdef prefix (at_place page (length before + 1)) s ≡ ok rs
          → scan_loop pager (suc fuel) tdef prefix (at_place page (length before)) s ≡ ok (r ∷ rs)
      unfolding scan_loop
      row_behind fuel r rs ((ks, vs, h, key, val, it), _) rest =
          let sorted : Lt e.key f.key =
            (IsSorted-append_right before (e ∷ f ∷ after)
              (subst IsSorted split leaf.leaf.sorted)).0.0 in
          rw
            (
              table_next_lem before e (f ∷ after) r split ks vs h key val it (length before + 1)
                  f.key f.val (moves pager root d es page s leaf before e f after split)
                  (subst (λ n. deref (at_place page n) ≡ ok (f.key, f.val)) place_next
                    (pair pager root d es page s leaf (before ++ (e ∷ [])) f after split_next)),
              greater-other e.key f.key sorted,
              rest,
            )
            refl

    -- The loop over the rows of the table, with entries of other tables behind them.
    scan_loop_lem :
        (fuel : ℕ) (before : List Entry) (e : Entry) (after post : List Entry) (rs : List Record)
        → d ∷ es ≡ before ++ (e ∷ (after ++ post))
        → Rows tdef (e ∷ after) rs
        → All (λ f. Outside tdef f.key) post
        → length (e ∷ after) ≤ fuel
        → scan_loop pager (suc fuel) tdef prefix (at_place page (length before)) s ≡ ok rs
    unfolding scan_loop
    scan_loop_lem zero before e after post rs split rows outside enough = absurd (omega arith)
    scan_loop_lem (suc fuel) before e after post [] split rows outside enough = absurd rows
    scan_loop_lem (suc fuel) before e [] post (r ∷ q ∷ rs) split (_, rows) outside enough =
        absurd rows
    scan_loop_lem (suc fuel) before e [] [] (r ∷ []) split ((ks, vs, h, key, val, it), _) outside
          enough =
        rw
          (
            table_next_lem before e [] r split ks vs h key val it (length before) e.key e.val
                (stays pager root d es page s leaf before e split)
                (pair pager root d es page s leaf before e [] split),
            equal_bytes_refl e.key,
          )
          refl
    scan_loop_lem (suc fuel) before e [] (f ∷ post) (r ∷ []) split (row_e, _) (outside, _) enough =
        row_behind before e f post split (suc fuel) r [] (row_e, tt)
          (at_next before e f post split (suc fuel)
            (ends_at fuel (before ++ (e ∷ [])) f post (split_next before e f post split) outside))
    scan_loop_lem (suc fuel) before e (f ∷ after) post (r ∷ rs) split (row_e, rows) outside enough =
        row_behind before e f (after ++ post) split (suc fuel) r rs (row_e, tt)
          (at_next before e f (after ++ post) split (suc fuel) (
            scan_loop_lem fuel (before ++ (e ∷ [])) f after post rs
              (split_next before e f (after ++ post) split) rows outside (omega arith)))

    -- The scan from the last entry on that is smaller than the prefix.
    behind_lower :
        (fuel : ℕ) (before : List Entry) (e : Entry) (tab post : List Entry) (rs : List Record)
        → d ∷ es ≡ before ++ (e ∷ (tab ++ post))
        → Lt e.key (be 4 tdef.prefix)
        → Rows tdef tab rs
        → All (λ f. Outside tdef f.key) post
        → length tab ≤ fuel
        → (next pager (at_place page (length before)) s >>= λ iter.
            scan_loop pager (suc fuel) tdef prefix iter s)
          ≡ ok rs
    behind_lower fuel before e [] post (r ∷ rs) split low rows outside enough = absurd rows
    behind_lower fuel before e [] [] [] split low rows outside enough =
        rw (stays pager root d es page s leaf before e split)
          (ends_at fuel before e [] split (Lt-Outside tdef e.key low))
    behind_lower fuel before e [] (f ∷ post) [] split low rows (outside, _) enough =
        rw (moves pager root d es page s leaf before e f post split) (
          at_next before e f post split (suc fuel)
            (ends_at fuel (before ++ (e ∷ [])) f post (split_next before e f post split) outside))
    behind_lower fuel before e (f ∷ tab) post rs split low rows outside enough =
        rw (moves pager root d es page s leaf before e f (tab ++ post) split) (
          at_next before e f (tab ++ post) split (suc fuel) (
            scan_loop_lem fuel (before ++ (e ∷ [])) f tab post rs
              (split_next before e f (tab ++ post) split) rows outside enough))

    nil_below : Lt [] prefix
    unfolding compare_bytes prefix be
    nil_below = refl

    below_test : (key : Bytes) → Lt key prefix → cmp_ok key Cmp.cmp_ge prefix ≡ false
    unfolding prefix cmp_ok
    below_test key low = rw (cmp_ok, low) refl

    -- `fullTableScan` where the tree is a leaf with the entries of many tables: those with smaller keys
    -- than the prefix of this table, then those of its rows, then others whose keys are greater and do
    -- not begin with the prefix. The primary key has a column at least, and there is a unit of fuel for
    -- the descent and one more than there are rows: it returns all rows of the table and no other, in
    -- the order of their keys. The int64 cells fit 64 bits and no byte string of the rows begins with
    -- 0xfe or 0xff.
    pub full_table_scan_lem :
        (height fuel : ℕ) (lower tab post : List Entry) (rs : List Record)
        → 1 ≤ tdef.pkeys
        → es ≡ lower ++ (tab ++ post)
        → All (λ f. Lt f.key (be 4 tdef.prefix)) lower
        → Rows tdef tab rs
        → All (λ f. Lt (be 4 tdef.prefix) f.key) post
        → All (λ f. Outside tdef f.key) post
        → length tab ≤ fuel
        → full_table_scan pager (suc height) (suc fuel) root tdef s ≡ ok rs
    unfolding full_table_scan seek encode_key encode_values prefix
    full_table_scan_lem height fuel lower tab post rs some split lows rows highs outside enough =
        let some_prefix : prefix ≢ [] =
          λ none_there. absurd (omega (arith, ap length none_there, length-be 4 tdef.prefix)) in
        let (idx, p, sought, valid_there, pair_there) =
          seek_le_leaf pager root d es page s leaf height prefix some_prefix in
        let dummy_low : Lt d.key prefix =
          subst (λ k. Lt k prefix) (sym leaf.leaf.dummy) nil_below in
        let (behind, low) =
          place_between prefix p.before p.entry p.after (d ∷ lower) (tab ++ post)
            (sym p.split ∙ ap (λ l. d ∷ l) split) p.smaller p.at_most p.greater (dummy_low, lows)
            (All-append (λ f. Lt prefix f.key) tab post (row_key-greater tdef tab rs some rows)
              highs) in
        rw (sought, valid_there, pair_there, below_test p.entry.key low, p.index_eq)
          (behind_lower fuel p.before p.entry tab post rs
            (p.split ∙ ap (λ l. p.before ++ (p.entry ∷ l)) behind) low rows outside enough)
