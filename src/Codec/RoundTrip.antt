-- ===== src/Codec/RoundTrip.antt =====
-- `decodeValues` of database/record.go reads back what `encodeValues` wrote.
use atomix_db.Prelude.{
  ℕ, ◌+◌, ◌<◌, ◌≡◌, refl, sym, ap, ◌∙◌, inl, inr, false, none, some, List, [], ◌∷◌, ◌++◌, ok, ◌>>=◌,
  ltb, leb, length, drop, length-append, append_assoc, append-nil, drop-append_len, All, Bool-cases,
  ne→==_false, le→ltb_false, subst, arith,
}
use mathlib.Core.Logic.{◌≢◌}
use atomix_db.Bytes.{Bytes, u64}
use atomix_db.Codec.{
  Value, type_int64, type_bytes, be, encode_value, encode_values, cut_nul, decode_text,
  decode_value, decode_values,
}
use atomix_db.Codec.BigEndian.{length-be, read_be-be}
use atomix_db.Codec.Escape.{IsPlain, escaped, escape_string_lem}
use atomix_db.Codec.Unescape.{unescape-escaped}

-- A table cell: an int64 by its bit pattern, or a byte string that is not nil.
pub data Cell : Type 0 where
  int64 : ℕ → Cell
  text : Bytes → Cell

abbrev pub value_of : Cell → Value
value_of (int64 n) = record { type_of = type_int64; i64 = n; str = none }
value_of (text s) = record { type_of = type_bytes; i64 = 0; str = some s }

abbrev pub values_of : List Cell → List Value
values_of [] = []
values_of (c ∷ cs) = value_of c ∷ values_of cs

-- An int64 fits its 64 bits, and a string does not begin with 0xfe or 0xff.
abbrev pub IsCell : Cell → Type 0
IsCell (int64 n) = n < 18446744073709551616
IsCell (text s) = IsPlain s

-- The values to be overwritten have the types of the cells.
abbrev pub HasTypes : List Cell → List Value → Type 0
HasTypes [] [] = Unit
HasTypes [] (t ∷ ts) = ⊥
HasTypes (c ∷ cs) [] = ⊥
HasTypes (c ∷ cs) (t ∷ ts) = (t.type_of ≡ (value_of c).type_of) × HasTypes cs ts

-- What `encodeValues` writes.
unfoldable pub cell_bytes : Cell → Bytes
cell_bytes (int64 n) = be 8 (u64 (n + 9223372036854775808))
cell_bytes (text s) = escaped s ++ (0 ∷ [])

unfoldable pub cells_bytes : List Cell → Bytes
cells_bytes [] = []
cells_bytes (c ∷ cs) = cell_bytes c ++ cells_bytes cs

encode_value_lem : (c : Cell) → IsCell c → encode_value (value_of c) ≡ ok (cell_bytes c)
unfolding encode_value cell_bytes
encode_value_lem (int64 n) h = refl
encode_value_lem (text s) h = rw (escape_string_lem s h) refl

pub encode_values_lem :
    (out : Bytes) (cs : List Cell)
    → All IsCell cs
    → encode_values out (values_of cs) ≡ ok (out ++ cells_bytes cs)
unfolding encode_values cells_bytes
encode_values_lem out [] h = ap ok (sym (append-nil out))
encode_values_lem out (c ∷ cs) (hc, h) = rw (encode_value_lem c hc) (
    encode_values_lem (out ++ cell_bytes c) cs h
    ∙ ap ok (append_assoc out (cell_bytes c) (cells_bytes cs)))

cut_nul-cons : (x : ℕ) (b : Bytes) → x ≢ 0 → cut_nul (x ∷ b) ≡ (x ∷ (cut_nul b).0, (cut_nul b).1)
unfolding cut_nul
cut_nul-cons x b h = rw (ne→==_false x 0 h, cut_nul) refl

cut_nul-escaped : (s r : Bytes) → cut_nul (escaped s ++ (0 ∷ r)) ≡ (escaped s, some r)
unfolding escaped
cut_nul-escaped [] r = unfold cut_nul in refl
cut_nul-escaped (c ∷ s) r =
    let ih = cut_nul-escaped s r in
    elim (Bool-cases (leb c 1)) [
      | inl low ↦ rw low (
          cut_nul-cons 1 ((c + 1) ∷ (escaped s ++ (0 ∷ r))) (omega arith)
          ∙ rw (cut_nul-cons (c + 1) (escaped s ++ (0 ∷ r)) (omega arith), ih) refl)
      | inr high ↦ rw high (rw (cut_nul-cons c (escaped s ++ (0 ∷ r)) (ground arith), ih) refl)
    ]

-- One round of `decodeValues` at an encoded cell.
decode_value_lem :
    (c : Cell) (r : Bytes) (t : Value)
    → IsCell c
    → t.type_of ≡ (value_of c).type_of
    → decode_value t (cell_bytes c ++ r) ≡ ok (some (value_of c, r))
unfolding decode_value cell_bytes
decode_value_lem (int64 n) r t h type =
    let u = u64 (n + 9223372036854775808) in
    let eight = length-be 8 u in
    let long : ltb (length (be 8 u ++ r)) 8 ≡ false =
      le→ltb_false (length (be 8 u ++ r)) 8 (omega (arith, length-append (be 8 u) r, eight)) in
    let dropped : drop 8 (be 8 u ++ r) ≡ r =
      subst (λ k. drop k (be 8 u ++ r) ≡ r) eight (drop-append_len (be 8 u) r) in
    let back : u64 (u + 9223372036854775808) ≡ n = omega arith in
    rw (type, long, read_be-be 8 u r (omega arith), dropped, back) refl
decode_value_lem (text s) r t h type =
    rw (type, append_assoc (escaped s) (0 ∷ []) r, cut_nul-escaped s r)
      (unfold decode_text in rw (unescape-escaped s h) refl)

decode_values_step :
    (t w : Value) (b r : Bytes) (ts : List Value)
    → decode_value t b ≡ ok (some (w, r))
    → decode_values b (t ∷ ts) ≡ (decode_values r ts >>= λ rest. ok (w ∷ rest))
unfolding decode_values
decode_values_step t w b r ts e = rw (e, decode_values) refl

-- `decodeValues` reads the cells back, and does not look at what follows them.
pub decode_values_lem :
    (cs : List Cell) (r : Bytes) (ts : List Value)
    → All IsCell cs
    → HasTypes cs ts
    → decode_values (cells_bytes cs ++ r) ts ≡ ok (values_of cs)
unfolding cells_bytes
decode_values_lem [] r [] h types = unfold decode_values in refl
decode_values_lem [] r (t ∷ ts) h types = absurd types
decode_values_lem (c ∷ cs) r [] h types = absurd types
decode_values_lem (c ∷ cs) r (t ∷ ts) (hc, h) (type, types) =
    ap (λ b. decode_values b (t ∷ ts)) (append_assoc (cell_bytes c) (cells_bytes cs) r)
    ∙ decode_values_step t (value_of c) _ (cells_bytes cs ++ r) ts
        (decode_value_lem c (cells_bytes cs ++ r) t hc type)
    ∙ rw (decode_values_lem cs r ts h types) refl

-- `decodeValues` on what `encodeValues` writes for a row, with anything behind it, gives the row, where
-- the values to be overwritten have the types of the cells, the int64 cells fit 64 bits and no byte
-- string begins with 0xfe or 0xff.
pub decode-encode :
    (cs : List Cell) (r : Bytes) (ts : List Value)
    → All IsCell cs
    → HasTypes cs ts
    → (encode_values [] (values_of cs) >>= λ b. decode_values (b ++ r) ts) ≡ ok (values_of cs)
decode-encode cs r ts h types = rw (encode_values_lem [] cs h) (decode_values_lem cs r ts h types)
