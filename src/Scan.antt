-- ===== src/Scan.antt =====
-- Rows through a scanner: `dbScan` and `Scanner.Deref` of database/range.go, `dbGet` and `dbGetRange`
-- of database/record.go and `GetRange` of database/updates.go.
pub mod Row
pub mod Stored
pub mod Whole
use atomix_db.Prelude.{
  ℕ, zero, suc, Bool, true, false, Option, none, some, List, [], ◌∷◌, ◌++◌, Run, ok, panic,
  out_of_fuel, ◌>>=◌, at, if◌then◌else◌, length, take, drop,
}
use atomix_db.Bytes.{Bytes, slice}
use atomix_db.Pager.{Pager}
use atomix_db.Codec.{Value, decode_values}
use atomix_db.Table.{
  Name, Record, TableDef, Refusal, answer, refuse, IndexChoice, primary, secondary, upto, index_of,
  find_index, zero_value,
}
use atomix_db.Tree.Iterator.{BIter, Cmp, forward, deref, seek, scanner_valid, scanner_next}
use atomix_db.Updates.{encode_key_partial}
use atomix_db.Updates.Rows.{index_values}

pub record Scanner : Type 0 where
  pub tdef : TableDef
  pub index_no : IndexChoice
  pub iter : BIter
  pub key_start : Bytes
  pub key_end : Bytes

-- What `dbScan` answers.
pub data Scanned : Type 0 where
  scanned : Scanner → Scanned
  bad_range : Scanned
  unserved : Refusal → Scanned

-- What `dbGet` answers, with the row where there is one.
pub data Got : Type 0 where
  found : Record → Got
  missing : Got
  failed : Scanned → Got

-- Whether the two ends of a range point at each other.
unfoldable pub range_ok : Cmp → Cmp → Bool
range_ok cmp₁ cmp₂ = if forward cmp₁ then (if forward cmp₂ then false else true) else forward cmp₂

-- The columns of an index, and its prefix.
unfoldable pub index_of_choice : TableDef → IndexChoice → Run (List Name × ℕ)
index_of_choice tdef primary = upto tdef.cols tdef.pkeys >>= λ index. ok (index, tdef.prefix)
index_of_choice tdef (secondary i) = do
  index ← at tdef.indexes i
  prefix ← at tdef.index_prefix i
  ok (index, prefix)

-- A value of each type, to be decoded into.
unfoldable pub typed : List Name → List ℕ → Run (List Value)
typed [] types = ok []
typed (col ∷ cols) [] = panic
typed (col ∷ cols) (t ∷ types) =
    typed cols types >>= λ rest. ok (record zero_value { type_of = t } ∷ rest)

-- The same for the columns of an index.
unfoldable pub index_typed : TableDef → List Name → Run (List Value)
index_typed tdef [] = ok []
index_typed tdef (col ∷ index) = elim (index_of tdef.cols col) [
  | none ↦ panic
  | some i ↦ (do
    t ← at tdef.types i
    rest ← index_typed tdef index
    ok (record zero_value { type_of = t } ∷ rest))
]

-- A pair of the tree decoded to a row: the key behind its prefix, then the value.
unfoldable pub decode_row : TableDef → Bytes → Bytes → Run (List Value)
unfolding typed
decode_row tdef key val = do
  values ← typed tdef.cols tdef.types
  head ← upto values tdef.pkeys
  row_key ← slice key 4 (length key)
  keys ← decode_values row_key head
  vals ← decode_values val (drop tdef.pkeys values)
  ok (keys ++ vals)

module _ (pager : Pager) where
  open pager use {State}

  -- `dbScan`, with the fuel of a descent to a leaf.
  unfoldable pub db_scan : ℕ → ℕ → TableDef → Cmp → Cmp → Record → Record → State → Run Scanned
  unfolding range_ok index_of_choice
  db_scan fuel root tdef cmp₁ cmp₂ key₁ key₂ s =
      if range_ok cmp₁ cmp₂
      then (do
        chosen ← find_index tdef key₁.cols
        elim chosen [
          | refuse r ↦ ok (unserved r)
          | answer index_no ↦ (do
            (index, prefix) ← index_of_choice tdef index_no
            key_start ← encode_key_partial [] prefix key₁.vals tdef index cmp₁
            key_end ← encode_key_partial [] prefix key₂.vals tdef index cmp₂
            iter ← seek pager fuel root key_start cmp₁ s
            ok (
                scanned (record {
                  tdef = tdef;
                  index_no = index_no;
                  iter = iter;
                  key_start = key_start;
                  key_end = key_end;
                })))
        ])
      else ok bad_range

  -- `dbGet`, by what dereferences its scanner.
  unfoldable pub get_with :
      (Scanner → Record → State → Run Record) → ℕ → ℕ → TableDef → Record → State → Run Got
  unfolding db_scan
  get_with deref_row fuel root tdef rec s = do
    scan ← db_scan fuel root tdef Cmp.cmp_ge Cmp.cmp_le rec rec s
    elim scan [
      | bad_range ↦ ok (failed bad_range)
      | unserved r ↦ ok (failed (unserved r))
      | scanned sc ↦ (do
        is_valid ← scanner_valid pager sc.key_start sc.key_end sc.iter
        if is_valid then (deref_row sc rec s >>= λ row. ok (found row)) else ok missing)
    ]

  -- `Scanner.Deref`: the record that it leaves. On an index it gets the row by its primary key, which
  -- takes one unit of `depth` where that is served by the primary key again.
  unfoldable pub scanner_deref : ℕ → ℕ → ℕ → Scanner → Record → State → Run Record
  unfolding decode_row index_typed get_with
  scanner_deref zero fuel root sc rec s = out_of_fuel
  scanner_deref (suc depth) fuel root sc rec s = do
    is_valid ← scanner_valid pager sc.key_start sc.key_end sc.iter
    (key, val) ← if is_valid then deref sc.iter else ok ([], [])
    let by_key =
        (decode_row sc.tdef key val >>= λ vals. ok (record { cols = sc.tdef.cols; vals = vals }))
    let by_index : ℕ → Run Record = λ i. (do
      index ← at sc.tdef.indexes i
      types ← index_typed sc.tdef index
      row_key ← slice key 4 (length key)
      ival ← decode_values row_key types
      cols ← upto sc.tdef.cols sc.tdef.pkeys
      vals ← index_values (record { cols = index; vals = ival }) cols
      let partial : Record = record { cols = cols; vals = vals }
      got ← get_with (scanner_deref depth fuel root) fuel root sc.tdef partial s
      ok (elim got [ found row ↦ row | missing ↦ partial | failed why ↦ partial ]))
    if is_valid then elim sc.index_no [ primary ↦ by_key | secondary i ↦ by_index i ] else ok rec

  unfoldable pub db_get : ℕ → ℕ → ℕ → TableDef → Record → State → Run Got
  unfolding get_with scanner_deref
  db_get depth fuel root tdef rec s = get_with (scanner_deref depth fuel root) fuel root tdef rec s

  -- The loop of `GetRange` for the next `count` rows, and whether the limit is reached.
  unfoldable pub range_loop : ℕ → ℕ → ℕ → ℕ → Scanner → State → Run (List Record × Bool)
  unfolding scanner_deref
  range_loop zero depth fuel root sc s = ok ([], true)
  range_loop (suc count) depth fuel root sc s = do
    is_valid ← scanner_valid pager sc.key_start sc.key_end sc.iter
    if is_valid
        then (do
          rec ← scanner_deref depth fuel root sc (record { cols = sc.tdef.cols; vals = [] }) s
          iter ← scanner_next pager sc.iter s
          (rest, limit) ← range_loop count depth fuel root (record sc { iter = iter }) s
          ok (rec ∷ rest, limit))
        else ok ([], false)

  -- `GetRange` of a table that is found, with its limit of 500 rows.
  unfoldable pub get_range :
      ℕ → ℕ → ℕ → TableDef → Record → Record → State → Run (Scanned × List Record × Bool)
  unfolding db_scan range_loop
  get_range depth fuel root tdef start end s = do
    scan ← db_scan fuel root tdef Cmp.cmp_ge Cmp.cmp_le start end s
    elim scan [
      | bad_range ↦ ok (bad_range, [], false)
      | unserved r ↦ ok (unserved r, [], false)
      | scanned sc ↦ (do
        (rows, limit) ← range_loop 500 depth fuel root sc s
        ok (scanned sc, rows, limit))
    ]
