-- ===== src/Tests/Rows.antt =====
-- Rows and tables.
use atomix_db.Prelude.{◌+◌, ◌≡◌, refl, some, List, [], ◌∷◌, ◌++◌, ok, panic, ◌>>=◌, arith}
use mathlib.Core.Logic.{◌≢◌}
use atomix_db.Bytes.Order.{compare_bytes}
use atomix_db.Codec.{escape_string, encode_values, encode_key, decode_values, count_byte}
use atomix_db.Codec.Escape.{escape_string_panics}
use atomix_db.Codec.RoundTrip.{Cell, int64, text, values_of, decode-encode}
use atomix_db.Codec.Order.{compare_cells, encode_key-order}
use atomix_db.Table.{TableDef, Name, Answer, IndexChoice, find_index}
use atomix_db.Updates.Create.{allocate}
use atomix_db.Updates.Create.Prefixes.{allocate_lem}
use atomix_db.Table.Index.{Serves, find_index_lem}

-- The integer 5 and the string "a", nul, 1.
abbrev row : List Cell
row = int64 5 ∷ text (97 ∷ 0 ∷ 1 ∷ []) ∷ []

-- The integer -1 and the string "b".
abbrev row_before : List Cell
row_before = int64 18446744073709551615 ∷ text (98 ∷ []) ∷ []

decode-encode_example :
    (encode_values [] (values_of row) >>= λ b. decode_values (b ++ (7 ∷ [])) (values_of row_before))
    ≡ ok (values_of row)
decode-encode_example =
    decode-encode row (7 ∷ []) (values_of row_before) (omega arith, (omega arith, tt))
      (refl, (refl, tt))

encode_key-order_example :
    (encode_key [] 100 (values_of row_before) >>= λ a.
    (encode_key [] 100 (values_of row) >>= λ b. ok (compare_bytes a b)))
    ≡ ok (compare_cells row_before row)
encode_key-order_example =
    encode_key-order 100 row_before row (omega arith) (omega arith, (omega arith, tt))
      (omega arith, (omega arith, tt)) tt

some_low : count_byte 0 (0 ∷ []) + count_byte 1 (0 ∷ []) ≢ 0
unfolding count_byte
some_low = λ h. absurd (omega arith)

escape_string_panics_example : escape_string (0xff ∷ 0 ∷ []) ≡ panic
escape_string_panics_example = escape_string_panics 0xff (0 ∷ []) (omega arith) some_low

abbrev a : Name
a = 97 ∷ []

abbrev b : Name
b = 98 ∷ []

abbrev c : Name
c = 99 ∷ []

abbrev users : TableDef
users = record {
  name = a;
  types = 1 ∷ 2 ∷ 2 ∷ [];
  cols = a ∷ b ∷ c ∷ [];
  pkeys = 1;
  indexes = (b ∷ c ∷ a ∷ []) ∷ (b ∷ a ∷ []) ∷ [];
  prefix = 100;
  index_prefix = 101 ∷ 102 ∷ [];
}

find_index_lem_example :
    (x : Answer IndexChoice) × (find_index users (b ∷ []) ≡ ok x) × Serves users (b ∷ []) x
find_index_lem_example = find_index_lem users (b ∷ []) (omega arith)

allocate_lem_example : allocate users ≡ some (record users { index_prefix = 101 ∷ 102 ∷ [] }, 103)
allocate_lem_example = allocate_lem users (omega arith) (omega arith) (λ e. cc)
