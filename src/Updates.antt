-- ===== src/Updates.antt =====
-- Writes of rows: `Get`, `Set` and `Delete` of KVTX in database/persist.go, `SetWithMode`, `dbUpdate`
-- and `dbDelete` of database/updates.go, and `indexOp` and `encodeKeyPartial` of database/indexes.go.
pub mod Stored
pub mod First
pub mod Rows
pub mod Create
use atomix_db.Prelude.{
  ℕ, zero, suc, ◌+◌, ◌-◌, Bool, true, false, ◌&&◌, ◌||◌, not, Option, none, some, List, [], ◌∷◌,
  ◌++◌, Run, ok, panic, assert, ◌>>=◌, ◌>>◌, at, put_at, ltb, leb, ◌==◌, if◌then◌else◌, length,
  drop, take, replicate,
}
use atomix_db.Bytes.{Bytes}
use atomix_db.Tree.{TreeError}
use atomix_db.Tree.Iterator.{Cmp, cmp_gt, cmp_le}
use atomix_db.Codec.{Value, type_int64, type_bytes, encode_key, encode_values, decode_values}
use atomix_db.Table.{
  Record, TableDef, Name, Refusal, Answer, answer, refuse, upto, index_of, record_get, check_record,
  validate_table_types, zero_value,
}

-- What `Get`, `Set` and `Delete` of KVTX call of the tree and of the pages. `Insert` may fail, and
-- `Set` does not look at that; `flushPages` answers whether it failed.
pub record Kvtx : Type 1 where
  pub State : Type 0
  pub tree_get : Bytes → State → Run (Option TreeError × Option Bytes)
  pub tree_insert : Bytes → Bytes → State → Run State
  pub tree_delete : Bytes → State → Run (Bool × State)
  pub flush_pages : State → Run (Bool × State)

pub data Mode : Type 0 where
  upsert update_only insert_only : Mode
  other : ℕ → Mode

pub data Fault : Type 0 where
  tree_fault : TreeError → Fault
  flush_fault not_found already_exists invalid_mode invalid_type : Fault
  refused : Refusal → Fault

-- A nil `Old` is `none`.
pub record InsertReq : Type 0 where
  pub added : Bool
  pub updated : Bool
  pub old : Option Bytes
  pub key : Bytes
  pub value : Bytes
  pub mode : Mode

-- A result with its error.
abbrev pub Result : Type 0
Result = Bool × Option Fault

abbrev pub flush_error : Bool → Option Fault
flush_error true = some Fault.flush_fault
flush_error false = none

-- What the tree had for the key, or else what the request held.
abbrev pub newest : Option Bytes → Option Bytes → Option Bytes
newest none held = held
newest (some val) held = some val

module _ (tx : Kvtx) where
  open tx use {State, tree_get, tree_insert, tree_delete, flush_pages}

  unfoldable pub kvtx_set : Bytes → Bytes → State → Run (Option Fault × State)
  kvtx_set key val s = do
    s₁ ← tree_insert key val s
    (failed, s₂) ← flush_pages s₁
    ok (flush_error failed, s₂)

  -- `KVTX.Delete`; what it returns beside the result is `req.Old`.
  unfoldable pub kvtx_delete : Bytes → State → Run (Result × Option Bytes × State)
  kvtx_delete key s = do
    (err, val) ← tree_get key s
    elim err [
      | some e ↦ ok ((false, some (Fault.tree_fault e)), none, s)
      | none ↦ elim val [
        | none ↦ ok ((false, some Fault.not_found), none, s)
        | some old ↦ if length old == 0 then ok ((false, some Fault.not_found), none, s) else (do
          (deleted, s₁) ← tree_delete key s
          (failed, s₂) ← flush_pages s₁
          ok ((deleted, flush_error failed), (if deleted then some old else none), s₂))
      ]
    ]

  unfoldable pub set_with_mode : InsertReq → State → Run (Result × InsertReq × State)
  unfolding kvtx_set
  set_with_mode req s = elim req.mode [
    | Mode.update_only ↦ (do
      (err, old) ← tree_get req.key s
      elim err [
        | some e ↦ ok ((false, some (Fault.tree_fault e)), req, s)
        | none ↦ elim old [
          | none ↦ ok ((false, some Fault.not_found), req, s)
          | some val ↦ (do
            (fault, s') ← kvtx_set req.key req.value s
            ok ((true, fault), record req { updated = true; old = some val }, s'))
        ]
      ])
    | Mode.upsert ↦ (do
      (err, old) ← tree_get req.key s
      (fault, s') ← kvtx_set req.key req.value s
      ok ((true, fault), record req { updated = true; old = newest old req.old }, s'))
    | Mode.insert_only ↦ (do
      (err, old) ← tree_get req.key s
      elim err [
        | some e ↦ ok ((false, some (Fault.tree_fault e)), req, s)
        | none ↦ elim old [
          | some val ↦ ok ((false, some Fault.already_exists), req, s)
          | none ↦ (do
            (fault, s') ← kvtx_set req.key req.value s
            ok ((true, fault), record req { added = true }, s'))
        ]
      ])
    | Mode.other n ↦ ok ((false, some Fault.invalid_mode), req, s)
  ]

-- The loop of `encodeKeyPartial` over the columns behind the given values.
unfoldable pub fill_max : TableDef → List Name → Bytes → Run Bytes
fill_max tdef [] out = ok out
fill_max tdef (key ∷ keys) out = elim (index_of tdef.cols key) [
  | none ↦ panic
  | some i ↦ (do
    t ← at tdef.types i
    let rest = fill_max tdef keys (out ++ replicate 8 0xff)
    if t == type_bytes then ok (out ++ (0xff ∷ [])) else if t == type_int64 then rest else panic)
]

unfoldable pub encode_key_partial : Bytes → ℕ → List Value → TableDef → List Name → Cmp → Run Bytes
unfolding fill_max
encode_key_partial out prefix values tdef keys cmp = do
  key ← encode_key out prefix values
  elim cmp [
    | Cmp.cmp_gt ↦ fill_max tdef (drop (length values) keys) key
    | Cmp.cmp_le ↦ fill_max tdef (drop (length values) keys) key
    | _ ↦ ok key
  ]
