-- ===== src/Updates/Create.antt =====
-- `TableNew` of database/updates.go: the prefixes of a new table, and the rows that describe it.
pub mod Prefixes
use atomix_db.Prelude.{
  ℕ, ◌+◌, ◌*◌, ◌/◌, ◌%◌, Bool, true, false, not, Option, none, some, List, [], ◌∷◌, ◌++◌, Run, ok,
  panic, at, put_at, ◌>>=◌, ltb, ◌==◌, if◌then◌else◌, length, drop,
}
use atomix_db.Bytes.{Bytes}
use atomix_db.Codec.{Value, type_bytes}
use atomix_db.Table.{
  Name, Record, TableDef, Refusal, table_def_check, add_str, record_get, index_of,
}
use atomix_db.Updates.{Kvtx, Mode, Fault, Result}
use atomix_db.Updates.Rows.{db_update}

abbrev pub u32 : ℕ → ℕ
u32 n = n % 4294967296

abbrev pub table_prefix_min : ℕ
table_prefix_min = 1

-- The internal tables @meta and @table.
abbrev pub tdef_meta : TableDef
tdef_meta = record {
  name = 64 ∷ 109 ∷ 101 ∷ 116 ∷ 97 ∷ [];
  types = type_bytes ∷ type_bytes ∷ [];
  cols = (107 ∷ 101 ∷ 121 ∷ []) ∷ (118 ∷ 97 ∷ 108 ∷ []) ∷ [];
  pkeys = 1;
  indexes = [];
  prefix = 1;
  index_prefix = [];
}

abbrev pub tdef_table : TableDef
tdef_table = record {
  name = 64 ∷ 116 ∷ 97 ∷ 98 ∷ 108 ∷ 101 ∷ [];
  types = type_bytes ∷ type_bytes ∷ [];
  cols = (110 ∷ 97 ∷ 109 ∷ 101 ∷ []) ∷ (100 ∷ 101 ∷ 102 ∷ []) ∷ [];
  pkeys = 1;
  indexes = [];
  prefix = 2;
  index_prefix = [];
}

-- binary.LittleEndian.Uint32 and PutUint32 of a slice of four bytes at least.
unfoldable pub uint32 : Bytes → Run ℕ
uint32 (a ∷ b ∷ c ∷ d ∷ rest) = ok (a + 256 * b + 65536 * c + 16777216 * d)
uint32 _ = panic

unfoldable pub put_uint32 : Bytes → ℕ → Run Bytes
put_uint32 (a ∷ b ∷ c ∷ d ∷ rest) n =
    ok (n % 256 ∷ n / 256 % 256 ∷ n / 65536 % 256 ∷ n / 16777216 % 256 ∷ rest)
put_uint32 _ n = panic

-- The loop over the indexes; `none` is an overflow.
unfoldable pub index_prefixes : ℕ → ℕ → List (List Name) → Option (List ℕ)
index_prefixes prefix i [] = some []
index_prefixes prefix i (index ∷ indexes) =
    let p = u32 (prefix + 1 + i) in
    let rest = index_prefixes prefix (i + 1) indexes in
    if ltb p prefix then none else elim rest [ none ↦ none | some ps ↦ some (p ∷ ps) ]

-- The table with its index prefixes, and the next prefix.
unfoldable pub allocate : TableDef → Option (TableDef × ℕ)
unfolding index_prefixes
allocate tdef =
    let prefixes =
      if length tdef.indexes == 0
      then some tdef.index_prefix
      else index_prefixes tdef.prefix 0 tdef.indexes in
    elim prefixes [
      | none ↦ none
      | some ps ↦
          (let next_prefix = u32 (tdef.prefix + u32 (1 + u32 (length ps))) in
            if ltb next_prefix tdef.prefix
            then none
            else some (record tdef { index_prefix = ps }, next_prefix))
    ]

-- The errors of `TableNew`.
pub data NewFault : Type 0 where
  invalid_definition : Refusal → NewFault
  get_failed table_exists corrupted_meta small_prefix prefix_overflow not_added marshal_failed :
      NewFault
  update_failed : Fault → NewFault

abbrev val_name : Name
val_name = 118 ∷ 97 ∷ 108 ∷ []

-- meta.Get("val").Str, which a nil that is dereferenced makes panic, and a write to its bytes.
unfoldable pub meta_str : Record → Run Bytes
meta_str meta = do
  got ← record_get meta val_name
  elim got [ none ↦ panic | some v ↦ ok (elim v.str [ none ↦ [] | some str ↦ str ]) ]

unfoldable pub set_meta_str : Record → Bytes → Run Record
set_meta_str meta str = elim (index_of meta.cols val_name) [
  | none ↦ panic
  | some i ↦ (do
    v ← at meta.vals i
    vals ← put_at meta.vals i (record v { str = some str })
    ok (record { cols = meta.cols; vals = vals }))
]

-- The prefix that the row of @meta has for the table, or the first one; and the row to be updated.
unfoldable pub first_prefix : Bool → Record → Run (Option NewFault × ℕ × Record)
unfolding meta_str uint32
first_prefix true meta = do
  str ← meta_str meta
  if ltb (length str) 4 then ok (some corrupted_meta, table_prefix_min, meta) else (do
    prefix ← uint32 str
    ok ((if ltb prefix table_prefix_min then some small_prefix else none), prefix, meta))
first_prefix false meta =
    ok (none, table_prefix_min, add_str meta val_name (some (0 ∷ 0 ∷ 0 ∷ 0 ∷ [])))

module _ (tx : Kvtx) (db_get : TableDef → Record → tx.State → Run (Bool × Bool × Record))
    (marshal : TableDef → Option Bytes) where
  open tx use {State}

  abbrev failing : NewFault → State → Run (Option NewFault × State)
  failing fault s = ok (some fault, s)

  -- The upsert of a row of an internal table: its error, if it has one or adds nothing.
  unfoldable pub store_row : TableDef → Record → State → Run (Option NewFault × State)
  unfolding db_update
  store_row tdef rec s = do
    ((added, err), s') ← db_update tx tdef rec Mode.upsert s
    elim err [
      | some fault ↦ ok (some (update_failed fault), s')
      | none ↦ ok ((if added then none else some not_added), s')
    ]

  -- The end of `TableNew`, from the writing of @meta on.
  unfoldable pub describe : TableDef → ℕ → Record → Record → State → Run (Option NewFault × State)
  unfolding put_uint32 meta_str set_meta_str store_row
  describe tdef next_prefix meta table s = do
    str ← meta_str meta
    str' ← put_uint32 str next_prefix
    meta' ← set_meta_str meta str'
    (fault, s₁) ← store_row tdef_meta meta' s
    elim fault [
      | some f ↦ failing f s₁
      | none ↦ elim (marshal tdef) [
        | none ↦ failing marshal_failed s₁
        | some def ↦ store_row tdef_table (add_str table (100 ∷ 101 ∷ 102 ∷ []) (some def)) s₁
      ]
    ]

  -- `TableNew`, by what `dbGet` does: an error, or whether there is a row, and the record it leaves.
  unfoldable pub table_new : TableDef → State → Run (Option NewFault × State)
  unfolding allocate first_prefix describe
  table_new tdef s = do
    (refusal, checked) ← table_def_check tdef
    elim refusal [
      | some r ↦ failing (invalid_definition r) s
      | none ↦ (do
        let asked =
            add_str (record { cols = []; vals = [] }) (110 ∷ 97 ∷ 109 ∷ 101 ∷ [])
              (some checked.name)
        (failed, exists, table) ← db_get tdef_table asked s
        if failed then failing get_failed s else if exists then failing table_exists s else (do
          let key =
              add_str (record { cols = []; vals = [] }) (107 ∷ 101 ∷ 121 ∷ [])
                (some (110 ∷ 101 ∷ 120 ∷ 116 ∷ 95 ∷ 112 ∷ 114 ∷ 101 ∷ 102 ∷ 105 ∷ 120 ∷ []))
          (failed', found, meta) ← db_get tdef_meta key s
          if failed' then failing get_failed s else (do
            (fault, prefix, meta') ← first_prefix found meta
            elim fault [
              | some f ↦ failing f s
              | none ↦ elim (allocate (record checked { prefix = prefix })) [
                | none ↦ failing prefix_overflow s
                | some (whole, next_prefix) ↦ describe whole next_prefix meta' table s
              ]
            ])))
    ]
