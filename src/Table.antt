-- ===== src/Table.antt =====
-- Records and table definitions: the types and checks of database/record.go, database/indexes.go,
-- database/updates.go and database/table_scanner.go. Names are byte strings.
pub mod Index
use atomix_db.Prelude.{
  ℕ, zero, suc, ◌+◌, ◌-◌, Bool, true, false, ◌&&◌, ◌||◌, not, Option, none, some, List, [], ◌∷◌,
  ◌++◌, Run, at, ok, panic, ◌>>=◌, ltb, leb, ◌==◌, if◌then◌else◌, length, get_elem?, take, drop,
  replicate,
}
use atomix_db.Bytes.{Bytes}
use atomix_db.Bytes.Order.{equal_bytes}
use atomix_db.Codec.{Value, type_int64, type_bytes, type_error}

abbrev pub Name : Type 0
Name = Bytes

pub record Record : Type 0 where
  pub cols : List Name
  pub vals : List Value

pub record TableDef : Type 0 where
  pub name : Name
  pub types : List ℕ
  pub cols : List Name
  pub pkeys : ℕ
  pub indexes : List (List Name)
  pub prefix : ℕ
  pub index_prefix : List ℕ

-- The errors of the checks.
pub data Refusal : Type 0 where
  empty_name no_columns length_mismatch empty_column invalid_type many_primary_keys : Refusal
  index_too_long no_index : Refusal
  duplicate_column invalid_index_column missing_primary_key missing_column : Name → Refusal

pub data Answer {ℓ} (A : Type ℓ) : Type ℓ where
  answer : A → Answer A
  refuse : Refusal → Answer A

-- s[:n], which panics where n is greater than the length
unfoldable pub upto {ℓ} : {A : Type ℓ} → List A → ℕ → Run (List A)
upto xs n = if leb n (length xs) then ok (take n xs) else panic

-- `contains`, `isValidCol` and a set of names: whether the name is in the list.
unfoldable pub contains : List Name → Name → Bool
contains [] item = false
contains (v ∷ slice) item = equal_bytes v item || contains slice item

-- `indexOf` and `ColIndex`; -1 is `none`.
unfoldable pub index_from : ℕ → List Name → Name → Option ℕ
index_from i [] item = none
index_from i (v ∷ slice) item =
    let later = index_from (i + 1) slice item in if equal_bytes v item then some i else later

unfoldable pub index_of : List Name → Name → Option ℕ
unfolding index_from
index_of slice item = index_from 0 slice item

unfoldable pub add_value : Record → Name → Value → Record
add_value rec key val = record { cols = rec.cols ++ (key ∷ []); vals = rec.vals ++ (val ∷ []) }

-- `AddStr` and `AddInt64`
unfoldable pub add_str : Record → Name → Option Bytes → Record
unfolding add_value
add_str rec key val = add_value rec key (record { type_of = type_bytes; i64 = 0; str = val })

unfoldable pub add_int64 : Record → Name → ℕ → Record
unfolding add_value
add_int64 rec key val = add_value rec key (record { type_of = type_int64; i64 = val; str = none })

-- `Record.Get`: nil is `none`.
unfoldable pub record_get_from : ℕ → List Name → List Value → Name → Run (Option Value)
record_get_from i [] vals key = ok none
record_get_from i (col ∷ cols) vals key =
    let later = record_get_from (i + 1) cols vals key in
    if equal_bytes key col then (at vals i >>= λ v. ok (some v)) else later

unfoldable pub record_get : Record → Name → Run (Option Value)
unfolding record_get_from
record_get rec key = record_get_from 0 rec.cols rec.vals key

abbrev pub zero_value : Value
zero_value = record { type_of = type_error; i64 = 0; str = none }

-- One round of the loops of `checkRecord`; `missing` is the error of the loop.
unfoldable pub column_value : Record → (Name → Refusal) → Name → Run (Answer Value)
column_value rec missing col = elim (index_of rec.cols col) [
  | none ↦ ok (refuse (missing col))
  | some i ↦ (at rec.vals i >>= λ v. ok (answer v))
]

-- The loops: each writes the values of `cols` over the first of `out`.
unfoldable pub fill_columns :
    Record → (Name → Refusal) → List Name → List Value → Run (Answer (List Value))
fill_columns rec missing [] out = ok (answer out)
fill_columns rec missing (col ∷ cols) [] = panic
fill_columns rec missing (col ∷ cols) (o ∷ out) = do
  got ← column_value rec missing col
  elim got [
    | refuse r ↦ ok (refuse r)
    | answer v ↦ (do
      rest ← fill_columns rec missing cols out
      elim rest [ refuse r ↦ ok (refuse r) | answer vs ↦ ok (answer (v ∷ vs)) ])
  ]

-- The second half of `checkRecord`.
unfoldable pub check_all : TableDef → Record → ℕ → List Value → Run (Answer (List Value))
check_all tdef rec n values =
    if n == length tdef.cols
    then fill_columns rec missing_column tdef.cols values
    else ok (answer values)

-- `checkRecord`; it panics where more primary keys are asked for than there are columns.
unfoldable pub check_record : TableDef → Record → ℕ → Run (Answer (List Value))
check_record tdef rec n =
    let values = replicate (length tdef.cols) zero_value in
    if n == tdef.pkeys
    then (do
      first ← fill_columns rec missing_primary_key (take tdef.pkeys tdef.cols) values
      elim first [
        | refuse r ↦ ok (refuse r)
        | answer vs ↦ if leb tdef.pkeys (length tdef.cols) then check_all tdef rec n vs else panic
      ])
    else check_all tdef rec n values

-- `validateTableTypes`
unfoldable pub validate_table_types : List Name → List Value → List ℕ → Run Bool
validate_table_types [] vals types = ok true
validate_table_types (col ∷ cols) (v ∷ vals) (t ∷ types) =
    let later = validate_table_types cols vals types in if v.type_of == t then later else ok false
validate_table_types (col ∷ cols) vals types = panic

-- `compareValues`; a nil `Str` equals an empty one.
unfoldable pub str_bytes : Option Bytes → Bytes
str_bytes none = []
str_bytes (some s) = s

unfoldable pub compare_values : Value → Value → Bool
unfolding str_bytes
compare_values v w =
    if v.type_of == w.type_of
    then (if v.type_of == type_int64
        then v.i64 == w.i64
        else if v.type_of == type_bytes
        then equal_bytes (str_bytes v.str) (str_bytes w.str)
        else false)
    else false

-- `verifyColumns` of database/commands.go
unfoldable pub verify_columns : TableDef → List Name → Option Refusal
verify_columns tdef [] = none
verify_columns tdef (col ∷ cols) =
    let later = verify_columns tdef cols in
    if contains tdef.cols col then later else some (missing_column col)

-- `isPrefix`
unfoldable pub is_prefix : List Name → List Name → Bool
is_prefix long [] = true
is_prefix [] (c ∷ short) = false
is_prefix (l ∷ long) (c ∷ short) = equal_bytes l c && is_prefix long short

-- What `findIndex` chooses: the primary key, which is -1, or an index by its number.
pub data IndexChoice : Type 0 where
  primary : IndexChoice
  secondary : ℕ → IndexChoice

-- Whether an index of `size` columns replaces the winner, whose columns `winner` counts.
unfoldable pub wins : Option (ℕ × ℕ) → ℕ → Bool
wins none size = true
wins (some (i, best)) size = ltb size best

-- The loop of `findIndex`; the winner is its number and how many columns it has.
unfoldable pub find_secondary : ℕ → List (List Name) → List Name → Option (ℕ × ℕ) → Option (ℕ × ℕ)
unfolding wins
find_secondary i [] keys winner = winner
find_secondary i (index ∷ indexes) keys winner =
    find_secondary (i + 1) indexes keys (
      if is_prefix index keys && wins winner (length index) then some (i, length index) else winner)

unfoldable pub find_index : TableDef → List Name → Run (Answer IndexChoice)
find_index tdef keys = do
  pk ← upto tdef.cols tdef.pkeys
  if is_prefix pk keys
      then ok (answer primary)
      else elim (find_secondary 0 tdef.indexes keys none) [
        | none ↦ ok (refuse no_index)
        | some (i, size) ↦ ok (answer (secondary i))
      ]

-- `checkIndexKeys`: the columns of an index, with those of the primary key that it lacks.
unfoldable pub index_columns : TableDef → List Name → Option Refusal
index_columns tdef [] = none
index_columns tdef (c ∷ index) =
    let later = index_columns tdef index in
    if contains tdef.cols c then later else some (invalid_index_column c)

unfoldable pub lacking : List Name → List Name → List Name
lacking index [] = []
lacking index (c ∷ pk) = let rest = lacking index pk in if contains index c then rest else c ∷ rest

unfoldable pub check_index_keys : TableDef → List Name → Run (Answer (List Name))
check_index_keys tdef index = elim (index_columns tdef index) [
  | some r ↦ ok (refuse r)
  | none ↦ (do
    pk ← upto tdef.cols tdef.pkeys
    let whole = index ++ lacking index pk
    if leb (length tdef.cols) (length whole) then ok (refuse index_too_long) else ok (answer whole))
]

-- The loop of `tableDefCheck` over the columns; `seen` are the names before.
unfoldable pub check_columns : List Name → List Name → List ℕ → Option Refusal
check_columns seen [] types = none
check_columns seen (col ∷ cols) [] = none
check_columns seen (col ∷ cols) (t ∷ types) =
    let later = check_columns (col ∷ seen) cols types in
    if length col == 0
    then some empty_column
    else if contains seen col
    then some (duplicate_column col)
    else if (t == type_bytes) || (t == type_int64)
    then later
    else some invalid_type

-- The loop over the indexes, which are completed in place: those before an error stay completed.
unfoldable pub check_indexes : TableDef → List (List Name) → Run (Option Refusal × List (List Name))
check_indexes tdef [] = ok (none, [])
check_indexes tdef (index ∷ indexes) = do
  checked ← check_index_keys tdef index
  elim checked [
    | refuse r ↦ ok (some r, index ∷ indexes)
    | answer whole ↦ (do (err, rest) ← check_indexes tdef indexes; ok (err, whole ∷ rest))
  ]

-- `tableDefCheck`: its error, and the definition that it leaves.
unfoldable pub table_def_check : TableDef → Run (Option Refusal × TableDef)
table_def_check tdef =
    if length tdef.name == 0
    then ok (some empty_name, tdef)
    else if length tdef.cols == 0
    then ok (some no_columns, tdef)
    else if not (length tdef.cols == length tdef.types)
    then ok (some length_mismatch, tdef)
    else elim (check_columns [] tdef.cols tdef.types) [
      | some r ↦ ok (some r, tdef)
      | none ↦
          if ltb 1 tdef.pkeys
          then ok (some many_primary_keys, tdef)
          else (check_indexes tdef tdef.indexes >>= λ done.
              ok (done.0, record tdef { indexes = done.1 }))
    ]
