-- ===== src/Scan/Whole.antt =====
-- Scans of whole tables: TableScanner and `QueryWithFilter` of database/table_scanner.go.
pub mod Leaf
pub mod Keys
pub mod Rows
use atomix_db.Prelude.{
  ℕ, zero, suc, Bool, true, false, Option, none, some, List, [], ◌∷◌, ◌++◌, Run, ok, panic,
  out_of_fuel, ◌>>=◌, at, ◌&&◌, ◌||◌, ◌==◌, if◌then◌else◌,
}
use atomix_db.Bytes.{Bytes}
use atomix_db.Bytes.Order.{equal_bytes}
use atomix_db.Pager.{Pager}
use atomix_db.Codec.{Value, encode_key}
use atomix_db.Table.{Record, TableDef, index_of, compare_values}
use atomix_db.Tree.Iterator.{BIter, Cmp, deref, valid, seek, next}
use atomix_db.Scan.{decode_row}

-- bytes.HasPrefix
unfoldable pub has_prefix : Bytes → Bytes → Bool
has_prefix key [] = true
has_prefix [] (x ∷ prefix) = false
has_prefix (y ∷ key) (x ∷ prefix) = (y == x) && has_prefix key prefix

-- What `TableScanner.Next` returns: no row, the last row, or a row with others behind it.
pub data Fetched : Type 0 where
  no_row : Fetched
  last_row : Record → Fetched
  row : Record → Fetched

-- What `QueryWithFilter` returns.
pub data Matched : Type 0 where
  matching : List Record → Matched
  no_column : Matched
  no_match : Matched

-- Whether one of the values equals that of the row.
unfoldable pub one_matches : Record → ℕ → List Value → Run Bool
one_matches rec idx [] = ok false
one_matches rec idx (v ∷ vals) = do
  w ← at rec.vals idx
  later ← one_matches rec idx vals
  ok (compare_values w v || later)

-- The loops of `QueryWithFilter`.
unfoldable pub matching_records : ℕ → List Value → List Record → Run (List Record)
unfolding one_matches
matching_records idx vals [] = ok []
matching_records idx vals (rec ∷ recs) = do
  hit ← one_matches rec idx vals
  rest ← matching_records idx vals recs
  ok (if hit then rec ∷ rest else rest)

module _ (pager : Pager) where
  open pager use {State}

  unfoldable pub table_next : TableDef → Bytes → BIter → State → Run (Fetched × BIter)
  unfolding has_prefix
  table_next tdef prefix iter s = do
    is_valid ← valid iter
    if is_valid
        then (do
          (key, val) ← deref iter
          if has_prefix key prefix
              then (do
                vals ← decode_row tdef key val
                let rec : Record = record { cols = tdef.cols; vals = vals }
                moved ← next pager iter s
                (next_key, _) ← deref moved
                if equal_bytes key next_key
                    then ok (last_row rec, record { path = []; pos = [] })
                    else ok (row rec, moved))
              else ok (no_row, iter))
        else ok (no_row, iter)

  -- The loop of `fullTableScan`, on fuel.
  unfoldable pub scan_loop : ℕ → TableDef → Bytes → BIter → State → Run (List Record)
  unfolding table_next
  scan_loop zero tdef prefix iter s = out_of_fuel
  scan_loop (suc fuel) tdef prefix iter s = do
    (fetched, moved) ← table_next tdef prefix iter s
    elim fetched [
      | no_row ↦ ok []
      | last_row rec ↦ ok (rec ∷ [])
      | row rec ↦ (scan_loop fuel tdef prefix moved s >>= λ rest. ok (rec ∷ rest))
    ]

  -- `fullTableScan`, with the fuel of a descent and that of the loop.
  unfoldable pub full_table_scan : ℕ → ℕ → ℕ → TableDef → State → Run (List Record)
  unfolding scan_loop
  full_table_scan height rows root tdef s = do
    prefix ← encode_key [] tdef.prefix []
    iter ← seek pager height root prefix Cmp.cmp_ge s
    scan_loop rows tdef prefix iter s

  unfoldable pub query_with_filter : ℕ → ℕ → ℕ → TableDef → Record → State → Run Matched
  unfolding full_table_scan matching_records
  query_with_filter height rows root tdef filter s = do
    results ← full_table_scan height rows root tdef s
    col ← at filter.cols 0
    elim (index_of tdef.cols col) [
      | none ↦ ok no_column
      | some idx ↦ (do
        found ← matching_records idx filter.vals results
        ok (elim found [ [] ↦ no_match | rec ∷ recs ↦ matching (rec ∷ recs) ]))
    ]
