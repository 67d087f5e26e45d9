-- ===== src/Updates/Rows.antt =====
-- Rows and their index entries: `dbUpdate` and `dbDelete` of database/updates.go and `indexOp` of
-- database/indexes.go.
use atomix_db.Prelude.{
  ℕ, zero, suc, ◌+◌, ◌-◌, Bool, false, ◌&&◌, ◌||◌, not, none, some, List, [], ◌∷◌, ◌++◌, Run, ok,
  panic, assert, ◌>>=◌, ◌>>◌, at, put_at, leb, ◌==◌, if◌then◌else◌, length, drop, take,
}
use atomix_db.Bytes.{Bytes}
use atomix_db.Codec.{Value, encode_key, encode_values, decode_values}
use atomix_db.Table.{
  Record, TableDef, Name, answer, refuse, upto, record_get, check_record, validate_table_types,
  zero_value,
}
use atomix_db.Updates.{Kvtx, Mode, Fault, InsertReq, Result, kvtx_delete, set_with_mode}

pub data IndexAction : Type 0 where
  index_add index_del : IndexAction

-- The values of the columns of an index; a missing column is a nil that is dereferenced.
unfoldable pub index_values : Record → List Name → Run (List Value)
index_values rec [] = ok []
index_values rec (c ∷ index) = do
  got ← record_get rec c
  elim got [ none ↦ panic | some v ↦ (do rest ← index_values rec index; ok (v ∷ rest)) ]

-- values[n:]
unfoldable pub onward : List Value → ℕ → Run (List Value)
onward values n = if leb n (length values) then ok (drop n values) else panic

-- The loop of `dbDelete` that resets the values behind the primary key.
unfoldable reset_values : TableDef → ℕ → ℕ → List Value → Run (List Value)
reset_values tdef zero i values = ok values
reset_values tdef (suc rounds) i values = do
  t ← at tdef.types i
  values' ← put_at values i (record zero_value { type_of = t })
  reset_values tdef rounds (i + 1) values'

module _ (tx : Kvtx) where
  open tx use {State}

  -- One round of `indexOp` behind the key: whether it is done. The error is not looked at.
  unfoldable pub index_write : IndexAction → Bytes → State → Run (Bool × State)
  index_write IndexAction.index_add key s = do
    (done, _, s') ←
        set_with_mode tx
          (record {
            added = false;
            updated = false;
            old = none;
            key = key;
            value = [];
            mode = Mode.upsert;
          })
          s
    ok (done.0, s')
  index_write IndexAction.index_del key s = do (done, _, s') ← kvtx_delete tx key s; ok (done.0, s')

  -- `indexOp`, by the indexes and their prefixes. The row has no fewer columns than an index.
  unfoldable pub index_op : Record → IndexAction → List (List Name) → List ℕ → State → Run State
  unfolding index_values index_write
  index_op rec op [] prefixes s = ok s
  index_op rec op (index ∷ indexes) [] s = panic
  index_op rec op (index ∷ indexes) (prefix ∷ prefixes) s = do
    assert (leb (length index) (length rec.cols))
    irec ← index_values rec index
    key ← encode_key [] prefix irec
    (done, s') ← index_write op key s
    assert done
    index_op rec op indexes prefixes s'

  -- What `dbUpdate` does with the indexes once the row is written.
  unfoldable pub update_indexes : TableDef → Record → List Value → InsertReq → State → Run State
  unfolding index_op onward
  update_indexes tdef rec values req s = do
    s₁ ←
        if req.updated && not req.added
        then (do
          tail ← onward values tdef.pkeys
          decoded ← decode_values (elim req.old [ none ↦ [] | some old ↦ old ]) tail
          let row : Record = record { cols = tdef.cols; vals = take tdef.pkeys values ++ decoded }
          index_op row IndexAction.index_del tdef.indexes tdef.index_prefix s)
        else ok s
    if req.updated || req.added
        then index_op rec IndexAction.index_add tdef.indexes tdef.index_prefix s₁
        else ok s₁

  unfoldable pub db_update : TableDef → Record → Mode → State → Run (Result × State)
  unfolding update_indexes
  db_update tdef rec mode s = do
    checked ← check_record tdef rec (length tdef.cols)
    elim checked [
      | refuse r ↦ ok ((false, some (Fault.refused r)), s)
      | answer values ↦ (do
        is_table_valid ← validate_table_types rec.cols rec.vals tdef.types
        if not is_table_valid then ok ((false, some Fault.invalid_type), s) else (do
          head ← upto values tdef.pkeys
          key ← encode_key [] tdef.prefix head
          tail ← onward values tdef.pkeys
          vals ← encode_values [] tail
          ((added, err), req, s₁) ←
              set_with_mode tx
                (record {
                  added = false;
                  updated = false;
                  old = none;
                  key = key;
                  value = vals;
                  mode = mode;
                })
                s
          elim err [
            | some e ↦ ok ((added, some e), s₁)
            | none ↦
                if length tdef.indexes == 0
                then ok ((added, none), s₁)
                else (update_indexes tdef rec values req s₁ >>= λ s₂. ok ((added, none), s₂))
          ]))
    ]

  unfoldable db_delete : TableDef → Record → State → Run (Result × State)
  unfolding index_op onward reset_values
  db_delete tdef rec s = do
    checked ← check_record tdef rec tdef.pkeys
    elim checked [
      | refuse r ↦ ok ((false, some (Fault.refused r)), s)
      | answer values ↦ (do
        head ← upto values tdef.pkeys
        key ← encode_key [] tdef.prefix head
        ((deleted, err), old, s₁) ← kvtx_delete tx key s
        elim err [
          | some e ↦ ok ((deleted, some e), s₁)
          | none ↦
              if not deleted || (length tdef.indexes == 0) then ok ((deleted, none), s₁) else (do
                reset ←
                    reset_values tdef (length tdef.cols - tdef.pkeys + 1 - tdef.pkeys) tdef.pkeys
                      values
                tail ← onward reset tdef.pkeys
                decoded ← decode_values (elim old [ none ↦ [] | some val ↦ val ]) tail
                let row : Record = record {
                  cols = tdef.cols;
                  vals = take tdef.pkeys reset ++ decoded;
                }
                s₂ ← index_op row IndexAction.index_del tdef.indexes tdef.index_prefix s₁
                ok ((deleted, none), s₂))
        ])
    ]
