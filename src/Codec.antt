-- ===== src/Codec.antt =====
-- The encoding of rows in database/record.go: values as bytes that compare like the values.
pub mod BigEndian
pub mod Escape
pub mod Unescape
pub mod RoundTrip
pub mod Order
use atomix_db.Prelude.{
  ℕ, zero, suc, ◌+◌, ◌-◌, ◌*◌, ◌/◌, ◌%◌, Bool, true, false, ◌&&◌, not, Option, none, some, List, [],
  ◌∷◌, ◌++◌, Run, ok, panic, ◌>>=◌, ◌>>◌, ltb, leb, ◌==◌, if◌then◌else◌, length, drop,
}
use atomix_db.Bytes.{Bytes, overwrite, make_bytes, u64}

abbrev pub type_error : ℕ
type_error = 0

abbrev pub type_int64 : ℕ
type_int64 = 1

abbrev pub type_bytes : ℕ
type_bytes = 2

-- An int64 is its bit pattern, below 2 ^ 64. A nil `Str` is `none`.
pub record Value : Type 0 where
  pub type_of : ℕ
  pub i64 : ℕ
  pub str : Option Bytes

-- b[pos] = v
unfoldable pub put_byte : Bytes → ℕ → ℕ → Run Bytes
put_byte b pos v = if ltb pos (length b) then ok (overwrite b pos (v ∷ [])) else panic

-- bytes.Count(b, []byte{v})
unfoldable pub count_byte : ℕ → Bytes → ℕ
count_byte v [] = 0
count_byte v (x ∷ b) = (if x == v then 1 else 0) + count_byte v b

-- The loop of `escapeString`.
unfoldable pub escape_loop : Bytes → Bytes → ℕ → Run Bytes
escape_loop [] out pos = ok out
escape_loop (ch ∷ rest) out pos = elim (leb ch 1) [
  | true ↦ (do
    out₁ ← put_byte out pos 1
    out₂ ← put_byte out₁ (pos + 1) (ch + 1)
    escape_loop rest out₂ (pos + 2))
  | false ↦ (do out₁ ← put_byte out pos ch; escape_loop rest out₁ (pos + 1))
]

-- `escapeString` where something is to be escaped; `size` is the length of its result.
unfoldable pub escape_into : Bytes → ℕ → Run Bytes
escape_into [] size = escape_loop [] (make_bytes size) 0
escape_into (ch ∷ rest) size =
    if leb 0xfe ch
    then (do
      out₁ ← put_byte (make_bytes size) 0 0xfe
      out₂ ← put_byte out₁ 1 ch
      escape_loop rest out₂ 2)
    else escape_loop (ch ∷ rest) (make_bytes size) 0

unfoldable pub escape_string : Bytes → Run Bytes
escape_string b =
    let low = count_byte 0 b + count_byte 1 b in
    if low == 0 then ok b else escape_into b (length b + low)

-- The first loop of `unEscapeString`.
unfoldable pub escape_count : Bytes → ℕ
escape_count [] = 0
escape_count (a ∷ []) = 0
escape_count (a ∷ b ∷ rest) = elim (a == 1) [
  | true ↦ suc (escape_count rest)
  | false ↦ escape_count (b ∷ rest)
]

-- The last loop; the list is what `i` has not passed. `in[i+1] - 1` wraps at 0.
unfoldable pub unescape_loop : Bytes → Bytes → ℕ → Run Bytes
unescape_loop [] out pos = ok out
unescape_loop (a ∷ []) out pos = put_byte out pos a
unescape_loop (a ∷ b ∷ rest) out pos = elim (a == 1) [
  | true ↦ (do out₁ ← put_byte out pos ((b + 255) % 256); unescape_loop rest out₁ (pos + 1))
  | false ↦ (do out₁ ← put_byte out pos a; unescape_loop (b ∷ rest) out₁ (pos + 1))
]

-- `unEscapeString` behind its first byte 0xfe.
unfoldable pub unescape_marked : Bytes → ℕ → Run Bytes
unescape_marked (m ∷ b ∷ rest) size = do
  out ← put_byte (make_bytes (size - 1)) 0 b
  unescape_loop rest out 1
unescape_marked short size = ok short

unfoldable pub unescape_string : Bytes → Run Bytes
unescape_string [] = ok []
unescape_string (a ∷ rest) =
    let escapes = escape_count (a ∷ rest) in
    let size = suc (length rest) - escapes in
    if (escapes == 0) && not (a == 0xfe)
    then ok (a ∷ rest)
    else if a == 0xfe
    then unescape_marked (a ∷ rest) size
    else unescape_loop (a ∷ rest) (make_bytes size) 0

-- BigEndian.PutUint64, PutUint32 and Uint64: `be k` writes k bytes, highest first.
unfoldable pub be : ℕ → ℕ → Bytes
be zero u = []
be (suc k) u = be k (u / 256) ++ ((u % 256) ∷ [])

-- The k bytes at the head, as a number behind `acc`.
unfoldable pub read_be : ℕ → ℕ → Bytes → Run ℕ
read_be zero acc b = ok acc
read_be (suc k) acc [] = panic
read_be (suc k) acc (x ∷ b) = read_be k (acc * 256 + x) b

-- One round of `encodeValues`: the bytes that it appends.
unfoldable pub encode_value : Value → Run Bytes
encode_value v =
    if v.type_of == type_int64
    then ok (be 8 (u64 (v.i64 + 9223372036854775808)))
    else if v.type_of == type_bytes
    then elim v.str [
      | none ↦ ok (0 ∷ [])
      | some s ↦ (escape_string s >>= λ escaped. ok (escaped ++ (0 ∷ [])))
    ]
    else panic

unfoldable pub encode_values : Bytes → List Value → Run Bytes
encode_values out [] = ok out
encode_values out (v ∷ vs) = do b ← encode_value v; encode_values (out ++ b) vs

unfoldable pub encode_key : Bytes → ℕ → List Value → Run Bytes
encode_key out prefix vals = encode_values (out ++ be 4 prefix) vals

-- What stands before the first nul byte, and behind it if there is one.
unfoldable pub cut_nul : Bytes → Bytes × Option Bytes
cut_nul [] = ([], none)
cut_nul (x ∷ b) = elim (x == 0) [
  | true ↦ ([], some b)
  | false ↦ (let (before, after) = cut_nul b in (x ∷ before, after))
]

-- The case of a byte string in `decodeValues`, by what stands before and behind the nul byte.
unfoldable pub decode_text : Bytes × Option Bytes → Run (Option (Value × Bytes))
decode_text (before, none) = ok none
decode_text (before, some r) = do
  s ← unescape_string before
  ok (some (record { type_of = type_bytes; i64 = 0; str = some s }, r))

-- One round of `decodeValues` at a value of the type to be read: the value and the bytes that
-- remain, or `none` where the function returns early because the bytes run out.
unfoldable pub decode_value : Value → Bytes → Run (Option (Value × Bytes))
decode_value v b =
    if v.type_of == type_int64
    then (if ltb (length b) 8 then ok none else (do
      u ← read_be 8 0 b
      ok (
          some (
            record { type_of = type_int64; i64 = u64 (u + 9223372036854775808); str = none },
            drop 8 b,
          ))))
    else if v.type_of == type_bytes
    then decode_text (cut_nul b)
    else panic

-- `decodeValues` overwrites the values of `out`.
unfoldable pub decode_values : Bytes → List Value → Run (List Value)
decode_values b [] = ok []
decode_values b (v ∷ vs) = do
  step ← decode_value v b
  elim step [ none ↦ ok (v ∷ vs) | some (w, r) ↦ (do rest ← decode_values r vs; ok (w ∷ rest)) ]
