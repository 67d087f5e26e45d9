-- ===== src/Node/Read.antt =====
-- What the accessors of a node read off a page.
use atomix_db.Prelude.{
  ℕ, ◌+◌, ◌*◌, ◌≤◌, ◌<◌, ◌≡◌, refl, sym, ap, ◌∙◌, List, [], ◌∷◌, ◌++◌, ok, lt→ltb, le→leb,
  ne→==_false, length, length-append, append_assoc, All-append_right, last-cases, inl, inr,
  append-nil, arith,
}
use atomix_db.Bytes.{Bytes, u16, le16, get_uint16}
use atomix_db.Bytes.Le.{get_uint16_at, get_uint64_at, slice_at}
use atomix_db.Node.{
  BNode, b_node_type, n_keys, get_ptr, offset_pos, get_offset, kv_pos, get_key, get_val, nbytes,
}
use atomix_db.Node.Layout.{
  Entry, Holds, IsNode, IsU64, pair_bytes, pair_size, ptr_bytes, offset_bytes, pairs_bytes,
  pairs_size, length-ptr_bytes, length-offset_bytes, length-pairs_bytes, ptr_bytes-append,
  pairs_bytes-append, pairs_size-append, offset_bytes-split,
}

-- The length of a page, by its parts.
pub Holds-length :
    (btype n : ℕ) (es : List Entry) (node : BNode) (h : Holds btype n es node)
    → length node ≡ 4 + 10 * n + pairs_size es + length h.rest
Holds-length btype n es node h = omega (
  arith,
  ap length h.bytes,
  h.ptrs_room,
  h.offsets_room,
  length-ptr_bytes es,
  length-offset_bytes 0 es,
  length-pairs_bytes es,
  length-append (ptr_bytes es)
      (h.free_ptrs ++ (offset_bytes 0 es ++ (h.free_offsets ++ (pairs_bytes es ++ h.rest)))),
  length-append h.free_ptrs (offset_bytes 0 es ++ (h.free_offsets ++ (pairs_bytes es ++ h.rest))),
  length-append (offset_bytes 0 es) (h.free_offsets ++ (pairs_bytes es ++ h.rest)),
  length-append h.free_offsets (pairs_bytes es ++ h.rest),
  length-append (pairs_bytes es) h.rest,
)

module _ (btype n : ℕ) (es : List Entry) (node : BNode) (h : Holds btype n es node) where
  pub b_node_type_lem : b_node_type node ≡ ok btype
  unfolding b_node_type
  b_node_type_lem = get_uint16_at [] _ 0 btype h.bytes refl h.btype_fits

  pub n_keys_lem : n_keys node ≡ ok n
  unfolding n_keys
  n_keys_lem =
      get_uint16_at (le16 btype) _ 2 n h.bytes refl
        (omega (arith, Holds-length btype n es node h, h.fits))

module _ (btype n : ℕ) (xs : List Entry) (e : Entry) (ys : List Entry) (node : BNode)
    (h : Holds btype n (xs ++ (e ∷ ys)) node) where
  bounds :
      (length xs < n)
      × (4 + 10 * n + pairs_size xs + pair_size e ≤ length node)
      × (length node < 65536)
  bounds =
      let room = h.ptrs_room in
      let size = Holds-length btype n (xs ++ (e ∷ ys)) node h in
      (
        omega (arith, length-append xs (e ∷ ys)),
        omega (arith, pairs_size-append xs (e ∷ ys)),
        h.fits,
      )

  pub get_ptr_lem : get_ptr node (length xs) ≡ ok e.ptr
  unfolding get_ptr
  get_ptr_lem =
      let (inside, size, small) = bounds in
      rw (n_keys_lem btype n _ node h, lt→ltb (length xs) n inside)
        (get_uint64_at (le16 btype ++ (le16 n ++ ptr_bytes xs))
          (ptr_bytes ys
            ++ (h.free_ptrs
                ++ (offset_bytes 0 (xs ++ (e ∷ ys))
                    ++ (h.free_offsets ++ (pairs_bytes (xs ++ (e ∷ ys)) ++ h.rest)))))
          _ e.ptr (h.bytes ∙ simp (ptr_bytes-append, append_assoc))
          (omega (arith, length-ptr_bytes xs)) (All-append_right IsU64 xs (e ∷ ys) h.ptrs_fit).0)

  -- The offset stored for the place behind `e`.
  get_offset_next : get_offset node (length xs + 1) ≡ ok (pairs_size xs + pair_size e)
  unfolding get_offset offset_pos
  get_offset_next =
      let (inside, size, small) = bounds in
      rw (ne→==_false (length xs + 1) 0 (omega arith), n_keys_lem btype n _ node h)
        (get_uint16_at
          (le16 btype
            ++ (le16 n ++ (ptr_bytes (xs ++ (e ∷ ys)) ++ (h.free_ptrs ++ offset_bytes 0 xs))))
          (offset_bytes (pairs_size xs + pair_size e) ys
            ++ (h.free_offsets ++ (pairs_bytes (xs ++ (e ∷ ys)) ++ h.rest)))
          _ (pairs_size xs + pair_size e) (h.bytes ∙ simp (offset_bytes-split, append_assoc))
          (omega (
            arith,
            h.ptrs_room,
            length-ptr_bytes (xs ++ (e ∷ ys)),
            length-offset_bytes 0 xs,
            length-append (ptr_bytes (xs ++ (e ∷ ys))) (h.free_ptrs ++ offset_bytes 0 xs),
            length-append h.free_ptrs (offset_bytes 0 xs),
          ))
          (omega arith))

-- The offset of a place is the size of the pairs before it.
pub get_offset_lem :
    (btype n : ℕ) (xs ys : List Entry) (node : BNode)
    → Holds btype n (xs ++ ys) node
    → get_offset node (length xs) ≡ ok (pairs_size xs)
get_offset_lem btype n xs ys node h = elim (last-cases xs) [
  | inl e ↦ rw e (unfold get_offset in refl)
  | inr (zs, z, e) ↦
      let h' : Holds btype n (zs ++ (z ∷ ys)) node = rw (e, append_assoc) at h in
      rw e (
        rw (length-append zs (z ∷ []), pairs_size-append zs (z ∷ []))
          (get_offset_next btype n zs z ys node h' ∙ ap ok (omega arith)))
]

pub kv_pos_lem :
    (btype n : ℕ) (xs ys : List Entry) (node : BNode)
    → Holds btype n (xs ++ ys) node
    → kv_pos node (length xs) ≡ ok (4 + 10 * n + pairs_size xs)
unfolding kv_pos
kv_pos_lem btype n xs ys node h =
    let size = Holds-length btype n (xs ++ ys) node h in
    let room = h.ptrs_room in
    let small = h.fits in
    rw
      (
        n_keys_lem btype n _ node h,
        le→leb (length xs) n (omega (arith, length-append xs ys)),
        get_offset_lem btype n xs ys node h,
      )
      (ap ok (omega (arith, pairs_size-append xs ys)))

module _ (btype n : ℕ) (xs : List Entry) (e : Entry) (ys : List Entry) (node : BNode)
    (h : Holds btype n (xs ++ (e ∷ ys)) node) where
  -- What stands before the pair of `e`.
  front : Bytes
  front =
      le16 btype
      ++ (le16 n
          ++ (ptr_bytes (xs ++ (e ∷ ys))
              ++ (h.free_ptrs
                  ++ (offset_bytes 0 (xs ++ (e ∷ ys)) ++ (h.free_offsets ++ pairs_bytes xs)))))

  length-front : length front ≡ 4 + 10 * n + pairs_size xs
  unfolding front
  length-front = omega (
    arith,
    h.ptrs_room,
    h.offsets_room,
    length-ptr_bytes (xs ++ (e ∷ ys)),
    length-offset_bytes 0 (xs ++ (e ∷ ys)),
    length-pairs_bytes xs,
    length-append (ptr_bytes (xs ++ (e ∷ ys)))
        (h.free_ptrs ++ (offset_bytes 0 (xs ++ (e ∷ ys)) ++ (h.free_offsets ++ pairs_bytes xs))),
    length-append h.free_ptrs
        (offset_bytes 0 (xs ++ (e ∷ ys)) ++ (h.free_offsets ++ pairs_bytes xs)),
    length-append (offset_bytes 0 (xs ++ (e ∷ ys))) (h.free_offsets ++ pairs_bytes xs),
    length-append h.free_offsets (pairs_bytes xs),
  )

  around : node ≡ front ++ (pair_bytes e ++ (pairs_bytes ys ++ h.rest))
  unfolding front
  around = h.bytes ∙ simp (pairs_bytes-append, append_assoc)

  klen_lem : get_uint16 node (4 + 10 * n + pairs_size xs) ≡ ok (length e.key)
  klen_lem =
      let (inside, size, small) = bounds btype n xs e ys node h in
      get_uint16_at front _ _ (length e.key) around (sym length-front) (omega arith)

  vlen_lem : get_uint16 node (4 + 10 * n + pairs_size xs + 2) ≡ ok (length e.val)
  vlen_lem =
      let (inside, size, small) = bounds btype n xs e ys node h in
      get_uint16_at (front ++ le16 (length e.key)) (e.key ++ (e.val ++ (pairs_bytes ys ++ h.rest)))
        _ (length e.val) (around ∙ simp append_assoc)
        (omega (arith, length-front, length-append front (le16 (length e.key)))) (omega arith)

  -- The key of the place.
  pub get_key_lem : get_key node (length xs) ≡ ok e.key
  unfolding get_key
  get_key_lem =
      let (inside, size, small) = bounds btype n xs e ys node h in
      rw
        (
          n_keys_lem btype n _ node h,
          lt→ltb (length xs) n inside,
          kv_pos_lem btype n xs (e ∷ ys) node h,
          klen_lem,
        )
        (slice_at (front ++ (le16 (length e.key) ++ le16 (length e.val))) e.key
          (e.val ++ (pairs_bytes ys ++ h.rest)) _ _ (around ∙ simp append_assoc)
          (omega
            (arith, length-front, length-append front (le16 (length e.key) ++ le16 (length e.val))))
          refl)

  -- The value of the place.
  pub get_val_lem : get_val node (length xs) ≡ ok e.val
  unfolding get_val
  get_val_lem =
      let (inside, size, small) = bounds btype n xs e ys node h in
      let wrapped : u16 (4 + 10 * n + pairs_size xs + 2) ≡ 4 + 10 * n + pairs_size xs + 2 =
        omega arith in
      rw
        (
          n_keys_lem btype n _ node h,
          lt→ltb (length xs) n inside,
          kv_pos_lem btype n xs (e ∷ ys) node h,
          klen_lem,
          wrapped,
          vlen_lem,
        )
        (slice_at (front ++ (le16 (length e.key) ++ (le16 (length e.val) ++ e.key))) e.val
          (pairs_bytes ys ++ h.rest) _ _ (around ∙ simp append_assoc)
          (omega (
            arith,
            length-front,
            length-append front (le16 (length e.key) ++ (le16 (length e.val) ++ e.key)),
          ))
          refl)

-- The bytes that a full node uses: its header, ten bytes for each place, and its pairs.
pub nbytes_lem :
    (btype : ℕ) (es : List Entry) (node : BNode)
    → IsNode btype es node
    → nbytes node ≡ ok (4 + 10 * length es + pairs_size es)
unfolding nbytes
nbytes_lem btype es node h =
    let h' : Holds btype (length es) (es ++ []) node = rw append-nil h in
    rw (n_keys_lem btype (length es) es node h) (kv_pos_lem btype (length es) es [] node h')
