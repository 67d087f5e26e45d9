-- ===== src/Bytes.antt =====
-- Byte slices and encoding/binary, as the source uses them: a slice is the list of its bytes, and
-- an access that Go refuses is a panic. A slice's capacity is taken to be its length.
pub mod Le
pub mod Order
use atomix_db.Prelude.{
  ℕ, ◌+◌, ◌-◌, ◌*◌, ◌/◌, ◌%◌, ◌^◌, List, [], ◌∷◌, ◌++◌, Run, ok, panic, leb, if◌then◌else◌, length,
  take, drop, replicate,
}

abbrev pub Bytes : Type 0
Bytes = List ℕ

-- The wrap-around of uint16 and uint64.
abbrev pub u16 : ℕ → ℕ
u16 x = x % 65536

abbrev pub u64 : ℕ → ℕ
u64 x = x % 18446744073709551616

-- make([]byte, n)
unfoldable pub make_bytes : ℕ → Bytes
make_bytes n = replicate n 0

-- The two and the eight bytes of PutUint16 and PutUint64, lowest first.
abbrev pub le16 : ℕ → Bytes
le16 v = (v % 256) ∷ (v / 256 % 256) ∷ []

abbrev pub le64 : ℕ → Bytes
le64 v =
    (v % 256)
    ∷ (v / 256 % 256)
    ∷ (v / 65536 % 256)
    ∷ (v / 16777216 % 256)
    ∷ (v / 4294967296 % 256)
    ∷ (v / 1099511627776 % 256)
    ∷ (v / 281474976710656 % 256)
    ∷ (v / 72057594037927936 % 256)
    ∷ []

-- binary.LittleEndian.Uint16(b), Uint64(b)
unfoldable pub uint16 : Bytes → Run ℕ
uint16 (a ∷ b ∷ r) = ok (a + 256 * b)
uint16 _ = panic

unfoldable pub uint64 : Bytes → Run ℕ
uint64 (a ∷ b ∷ c ∷ d ∷ e ∷ f ∷ g ∷ h ∷ r) = ok (
    a
    + 256 * b
    + 65536 * c
    + 16777216 * d
    + 4294967296 * e
    + 1099511627776 * f
    + 281474976710656 * g
    + 72057594037927936 * h)
uint64 _ = panic

-- binary.LittleEndian.Uint16(b[pos:]), Uint64(b[pos:])
unfoldable pub get_uint16 : Bytes → ℕ → Run ℕ
get_uint16 b pos = uint16 (drop pos b)

unfoldable pub get_uint64 : Bytes → ℕ → Run ℕ
get_uint64 b pos = uint64 (drop pos b)

-- The bytes of `src` over those of `b` from `pos` on.
unfoldable pub overwrite : Bytes → ℕ → Bytes → Bytes
overwrite b pos src = take pos b ++ (src ++ drop (pos + length src) b)

-- binary.LittleEndian.PutUint16(b[pos:], v), PutUint64(b[pos:], v)
unfoldable pub put_uint16 : Bytes → ℕ → ℕ → Run Bytes
put_uint16 b pos v = if leb (pos + 2) (length b) then ok (overwrite b pos (le16 v)) else panic

unfoldable pub put_uint64 : Bytes → ℕ → ℕ → Run Bytes
put_uint64 b pos v = if leb (pos + 8) (length b) then ok (overwrite b pos (le64 v)) else panic

-- b[lo:hi]
unfoldable pub slice : Bytes → ℕ → ℕ → Run Bytes
slice b lo hi =
    if leb lo hi
    then (if leb hi (length b) then ok (take (hi - lo) (drop lo b)) else panic)
    else panic

-- copy(b[pos:], src): as many bytes as there is room for
unfoldable pub copy : Bytes → ℕ → Bytes → Run Bytes
copy b pos src =
    if leb pos (length b) then ok (overwrite b pos (take (length b - pos) src)) else panic
