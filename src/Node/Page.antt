-- ===== src/Node/Page.antt =====
-- The regions of a page while it is written: the places for pointers `ps`, those for offsets `qs`,
-- and what follows, `rs`. Each write changes one region.
use atomix_db.Prelude.{
  ℕ, ◌+◌, ◌*◌, ◌≤◌, ◌<◌, ◌≡◌, refl, ap, ◌∙◌, List, [], ◌∷◌, ◌++◌, ok, lt→ltb, le→leb, ne→==_false,
  length, length-append, append_assoc, last-cases, inl, inr, arith,
}
use atomix_db.Bytes.{Bytes, le16, le64, put_uint16, copy}
use atomix_db.Bytes.Le.{get_uint16_at, put_uint16_at, put_uint64_at, copy_at}
use atomix_db.Node.{n_keys, set_ptr, offset_pos, get_offset, set_offset, kv_pos}
use atomix_db.Node.Layout.{
  Entry, pair_size, offset_bytes, pairs_size, length-offset_bytes, offset_bytes-split,
  pairs_size-append,
}

abbrev pub page : ℕ → ℕ → Bytes → Bytes → Bytes → Bytes
page btype n ps qs rs = le16 btype ++ (le16 n ++ (ps ++ (qs ++ rs)))

pub length-page :
    (btype n : ℕ) (ps qs rs : Bytes)
    → length (page btype n ps qs rs) ≡ 4 + length ps + length qs + length rs
length-page btype n ps qs rs = omega (arith, length-append ps (qs ++ rs), length-append qs rs)

pub page-n_keys :
    (btype n : ℕ) (ps qs rs : Bytes) → n < 65536 → n_keys (page btype n ps qs rs) ≡ ok n
unfolding n_keys
page-n_keys btype n ps qs rs h = get_uint16_at (le16 btype) (ps ++ (qs ++ rs)) 2 n refl refl h

-- What `offsetPos` gives for the place behind place `i`.
offset_pos_at :
    (btype n : ℕ) (ps qs rs : Bytes) (i : ℕ)
    → 4 + 10 * n < 65536
    → i < n
    → offset_pos (page btype n ps qs rs) (i + 1) ≡ ok (4 + 8 * n + 2 * i)
unfolding offset_pos
offset_pos_at btype n ps qs rs i small inside =
    rw (page-n_keys btype n ps qs rs (omega arith)) (ap ok (omega arith))

module _ (btype n i : ℕ) (before old after qs rs : Bytes) where
  pub set_ptr_at :
      (ptr : ℕ)
      → 4 + 10 * n < 65536
      → i < n
      → length before ≡ 8 * i
      → length old ≡ 8
      → set_ptr (page btype n (before ++ (old ++ after)) qs rs) ptr i
        ≡ ok (page btype n (before ++ (le64 ptr ++ after)) qs rs)
  unfolding set_ptr
  set_ptr_at ptr small inside place eight =
      rw (page-n_keys btype n (before ++ (old ++ after)) qs rs (omega arith), lt→ltb i n inside)
        (put_uint64_at (le16 btype ++ (le16 n ++ before)) old (after ++ (qs ++ rs)) _ ptr
            (simp append_assoc) (omega arith) eight
          ∙ ap ok (simp append_assoc))

module _ (btype n i : ℕ) (ps before old after rs : Bytes) where
  pub set_offset_at :
      (offset : ℕ)
      → 4 + 10 * n < 65536
      → i < n
      → length ps ≡ 8 * n
      → length before ≡ 2 * i
      → length old ≡ 2
      → set_offset (page btype n ps (before ++ (old ++ after)) rs) (i + 1) offset
        ≡ ok (page btype n ps (before ++ (le16 offset ++ after)) rs)
  unfolding set_offset
  set_offset_at offset small inside whole place two =
      rw (offset_pos_at btype n ps (before ++ (old ++ after)) rs i small inside) (
        put_uint16_at (le16 btype ++ (le16 n ++ (ps ++ before))) old (after ++ rs) _ offset
          (simp append_assoc) (omega (arith, length-append ps before)) two
        ∙ ap ok (simp append_assoc))

module _ (btype n : ℕ) (ps qs before old after : Bytes) (pos : ℕ) where
  pub put_pair_at :
      (v : ℕ)
      → length ps ≡ 8 * n
      → length qs ≡ 2 * n
      → pos ≡ 4 + 10 * n + length before
      → length old ≡ 2
      → put_uint16 (page btype n ps qs (before ++ (old ++ after))) pos v
        ≡ ok (page btype n ps qs (before ++ (le16 v ++ after)))
  put_pair_at v whole_ps whole_qs place two =
      put_uint16_at (le16 btype ++ (le16 n ++ (ps ++ (qs ++ before)))) old after pos v
        (simp append_assoc)
        (omega (arith, length-append ps (qs ++ before), length-append qs before)) two
      ∙ ap ok (simp append_assoc)

  pub copy_pair_at :
      (src : Bytes)
      → length ps ≡ 8 * n
      → length qs ≡ 2 * n
      → pos ≡ 4 + 10 * n + length before
      → length src ≡ length old
      → copy (page btype n ps qs (before ++ (old ++ after))) pos src
        ≡ ok (page btype n ps qs (before ++ (src ++ after)))
  copy_pair_at src whole_ps whole_qs place same =
      copy_at (le16 btype ++ (le16 n ++ (ps ++ (qs ++ before)))) old after src pos
        (simp append_assoc)
        (omega (arith, length-append ps (qs ++ before), length-append qs before)) same
      ∙ ap ok (simp append_assoc)

-- The offset of a place, where those before it are written.
module _ (btype n : ℕ) (ps free rs : Bytes) where
  offset_next_at :
      (es : List Entry) (e : Entry)
      → 4 + 10 * n < 65536
      → length es < n
      → length ps ≡ 8 * n
      → pairs_size es + pair_size e < 65536
      → get_offset (page btype n ps (offset_bytes 0 (es ++ (e ∷ [])) ++ free) rs) (length es + 1)
        ≡ ok (pairs_size es + pair_size e)
  unfolding get_offset
  offset_next_at es e small inside whole fits =
      rw
        (
          ne→==_false (length es + 1) 0 (omega arith),
          offset_pos_at btype n ps (offset_bytes 0 (es ++ (e ∷ [])) ++ free) rs (length es) small
              inside,
        )
        (get_uint16_at (le16 btype ++ (le16 n ++ (ps ++ offset_bytes 0 es))) (free ++ rs) _
          (pairs_size es + pair_size e) (simp (offset_bytes-split, append_assoc))
          (omega (arith, length-append ps (offset_bytes 0 es), length-offset_bytes 0 es)) fits)

  pub offset_at :
      (es : List Entry)
      → 4 + 10 * n < 65536
      → length es ≤ n
      → length ps ≡ 8 * n
      → pairs_size es < 65536
      → get_offset (page btype n ps (offset_bytes 0 es ++ free) rs) (length es) ≡ ok (pairs_size es)
  offset_at es small inside whole fits = elim (last-cases es) [
    | inl e ↦ rw e (unfold get_offset in refl)
    | inr (zs, z, e) ↦
        let count : length es ≡ length zs + 1 = ap length e ∙ length-append zs (z ∷ []) in
        let size : pairs_size es ≡ pairs_size zs + pair_size z =
          ap pairs_size e ∙ pairs_size-append zs (z ∷ []) ∙ omega arith in
        rw (count, size, e) (offset_next_at zs z small (omega arith) whole (omega arith))
  ]

  pub kv_pos_at :
      (es : List Entry)
      → length es ≤ n
      → length ps ≡ 8 * n
      → 4 + 10 * n + pairs_size es < 65536
      → kv_pos (page btype n ps (offset_bytes 0 es ++ free) rs) (length es)
        ≡ ok (4 + 10 * n + pairs_size es)
  unfolding kv_pos
  kv_pos_at es inside whole fits =
      rw
        (
          page-n_keys btype n ps (offset_bytes 0 es ++ free) rs (omega arith),
          le→leb (length es) n inside,
          offset_at es (omega arith) inside whole (omega arith),
        )
        (ap ok (omega arith))
