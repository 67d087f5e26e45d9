-- ===== src/Bytes/Le.antt =====
-- What the little-endian accesses do at a known place of a byte slice.
use atomix_db.Prelude.{
  ℕ, ◌+◌, ◌-◌, ◌≤◌, ◌<◌, ◌≡◌, refl, sym, ap, ◌++◌, ok, arith, length, take, drop, le→leb,
  length-append, drop-append_len, take-append_len, take_all, append_assoc,
}
use atomix_db.Bytes.{
  Bytes, le16, le64, uint16, uint64, get_uint16, get_uint64, overwrite, put_uint16, put_uint64,
  slice, copy,
}

pub uint16-le16 : (v : ℕ) (r : Bytes) → v < 65536 → uint16 (le16 v ++ r) ≡ ok v
unfolding uint16
uint16-le16 v r h = ap ok (omega arith)

pub uint64-le64 : (v : ℕ) (r : Bytes) → v < 18446744073709551616 → uint64 (le64 v ++ r) ≡ ok v
unfolding uint64
uint64-le64 v r h = ap ok (omega arith)

-- Reading what stands behind `pre`.
pub get_uint16_at :
    (pre post : Bytes) (pos v : ℕ) {b : Bytes}
    → b ≡ pre ++ (le16 v ++ post)
    → pos ≡ length pre
    → v < 65536
    → get_uint16 b pos ≡ ok v
unfolding get_uint16
get_uint16_at pre post pos v e p h = rw (e, p, drop-append_len) (uint16-le16 v post h)

pub get_uint64_at :
    (pre post : Bytes) (pos v : ℕ) {b : Bytes}
    → b ≡ pre ++ (le64 v ++ post)
    → pos ≡ length pre
    → v < 18446744073709551616
    → get_uint64 b pos ≡ ok v
unfolding get_uint64
get_uint64_at pre post pos v e p h = rw (e, p, drop-append_len) (uint64-le64 v post h)

drop_add : (pre old post : Bytes) → drop (length pre + length old) (pre ++ (old ++ post)) ≡ post
drop_add pre old post = rw (← length-append, ← append_assoc) (drop-append_len (pre ++ old) post)

fits_at :
    (pre old post : Bytes) (pos n : ℕ) {b : Bytes}
    → b ≡ pre ++ (old ++ post)
    → pos ≡ length pre
    → length old ≡ n
    → pos + n ≤ length b
fits_at pre old post pos n e p h =
    omega (arith, ap length e, length-append pre (old ++ post), length-append old post)

-- Writing over `old`, behind `pre`.
pub overwrite_at :
    (pre old post src : Bytes) (pos : ℕ) {b : Bytes}
    → b ≡ pre ++ (old ++ post)
    → pos ≡ length pre
    → length src ≡ length old
    → overwrite b pos src ≡ pre ++ (src ++ post)
unfolding overwrite
overwrite_at pre old post src pos e p h = rw (e, p, h, take-append_len, drop_add)

pub put_uint16_at :
    (pre old post : Bytes) (pos v : ℕ) {b : Bytes}
    → b ≡ pre ++ (old ++ post)
    → pos ≡ length pre
    → length old ≡ 2
    → put_uint16 b pos v ≡ ok (pre ++ (le16 v ++ post))
unfolding put_uint16
put_uint16_at pre old post pos v {b} e p h =
    rw (le→leb (pos + 2) (length b) (fits_at pre old post pos 2 e p h))
      (ap ok (overwrite_at pre old post (le16 v) pos e p (sym h)))

pub put_uint64_at :
    (pre old post : Bytes) (pos v : ℕ) {b : Bytes}
    → b ≡ pre ++ (old ++ post)
    → pos ≡ length pre
    → length old ≡ 8
    → put_uint64 b pos v ≡ ok (pre ++ (le64 v ++ post))
unfolding put_uint64
put_uint64_at pre old post pos v {b} e p h =
    rw (le→leb (pos + 8) (length b) (fits_at pre old post pos 8 e p h))
      (ap ok (overwrite_at pre old post (le64 v) pos e p (sym h)))

-- The slice of `mid`, between `pre` and `post`.
pub slice_at :
    (pre mid post : Bytes) (lo hi : ℕ) {b : Bytes}
    → b ≡ pre ++ (mid ++ post)
    → lo ≡ length pre
    → hi ≡ lo + length mid
    → slice b lo hi ≡ ok mid
unfolding slice
slice_at pre mid post lo hi {b} e p q =
    rw
      (
        le→leb lo hi (omega arith),
        le→leb hi (length b) (omega (arith, fits_at pre mid post lo (length mid) e p refl)),
      )
      (ap ok (taken (hi - lo) (omega arith)))
  where
    taken : (k : ℕ) → k ≡ length mid → take k (drop lo b) ≡ mid
    taken k h = rw (h, e, p, drop-append_len, take-append_len)

-- copy() where the destination has room: `old` is what is overwritten.
pub copy_at :
    (pre old post src : Bytes) (pos : ℕ) {b : Bytes}
    → b ≡ pre ++ (old ++ post)
    → pos ≡ length pre
    → length src ≡ length old
    → copy b pos src ≡ ok (pre ++ (src ++ post))
unfolding copy
copy_at pre old post src pos {b} e p h =
    let room = fits_at pre old post pos (length old) e p refl in
    rw (le→leb pos (length b) (omega arith), take_all (length b - pos) src (omega arith))
      (ap ok (overwrite_at pre old post src pos e p h))
