-- ===== src/Node/Append/Pair.antt =====
-- The writes of `nodeAppendKV` of database/b_tree.go, one after the other, over the regions of a page.
use atomix_db.Prelude.{
  ℕ, ◌+◌, ◌*◌, ◌<◌, ◌≡◌, sym, ap, ◌∙◌, subst, List, ◌++◌, ok, length, length-append, append_assoc,
  arith,
}
use atomix_db.Bytes.{Bytes, u16, le16, le64, put_uint16, copy}
use atomix_db.Node.{set_ptr, kv_pos, get_offset, set_offset, node_append_kv}
use atomix_db.Node.Layout.{
  Entry, pair_bytes, pair_size, ptr_bytes, offset_bytes, pairs_bytes, pairs_size, length-ptr_bytes,
  length-offset_bytes, length-pairs_bytes,
}
use atomix_db.Node.Page.{
  page, set_ptr_at, set_offset_at, put_pair_at, copy_pair_at, offset_at, kv_pos_at,
}

-- `nodeAppendKV` over a page whose free places are cut where it writes.
module _ (btype n : ℕ) (es : List Entry) (e : Entry) (p₈ fp q₂ fq r₁ r₂ r₃ r₄ rest : Bytes)
    (inside : length es < n) (room : 4 + 10 * n + pairs_size es + pair_size e < 65536)
    (ps_eight : length p₈ ≡ 8) (ps_whole : length (ptr_bytes es ++ (p₈ ++ fp)) ≡ 8 * n)
    (qs_two : length q₂ ≡ 2) (qs_whole : length (offset_bytes 0 es ++ (q₂ ++ fq)) ≡ 2 * n)
    (one : length r₁ ≡ 2) (two : length r₂ ≡ 2) (three : length r₃ ≡ length e.key)
    (four : length r₄ ≡ length e.val) where
  unfoldable pub new_ps : Bytes
  new_ps = ptr_bytes es ++ (le64 e.ptr ++ fp)

  unfoldable pub old_qs : Bytes
  old_qs = offset_bytes 0 es ++ (q₂ ++ fq)

  pos : ℕ
  pos = 4 + 10 * n + pairs_size es

  length-new_ps : length new_ps ≡ 8 * n
  unfolding new_ps
  length-new_ps = omega (
    arith,
    length-append (ptr_bytes es) (p₈ ++ fp),
    length-append p₈ fp,
    length-append (ptr_bytes es) (le64 e.ptr ++ fp),
  )

  write_ptr :
      set_ptr
        (page btype n
          (ptr_bytes es ++ (p₈ ++ fp))
          old_qs
          (pairs_bytes es ++ (r₁ ++ (r₂ ++ (r₃ ++ (r₄ ++ rest))))))
        e.ptr
        (length es)
      ≡ ok (page btype n new_ps old_qs (pairs_bytes es ++ (r₁ ++ (r₂ ++ (r₃ ++ (r₄ ++ rest))))))
  unfolding new_ps
  write_ptr =
      set_ptr_at btype n (length es) (ptr_bytes es) p₈ fp old_qs _ e.ptr (omega arith) inside
        (length-ptr_bytes es) ps_eight

  place :
      kv_pos
        (page btype n new_ps old_qs (pairs_bytes es ++ (r₁ ++ (r₂ ++ (r₃ ++ (r₄ ++ rest))))))
        (length es)
      ≡ ok pos
  unfolding pos old_qs
  place = kv_pos_at btype n new_ps (q₂ ++ fq) _ es (omega arith) length-new_ps (omega arith)

  write_klen :
      put_uint16
        (page btype n new_ps old_qs (pairs_bytes es ++ (r₁ ++ (r₂ ++ (r₃ ++ (r₄ ++ rest))))))
        pos
        (length e.key)
      ≡ ok (
          page btype n new_ps old_qs
            (pairs_bytes es ++ (le16 (length e.key) ++ (r₂ ++ (r₃ ++ (r₄ ++ rest))))))
  unfolding old_qs pos
  write_klen =
      put_pair_at btype n new_ps old_qs (pairs_bytes es) r₁ _ pos (length e.key) length-new_ps
        qs_whole (omega (arith, length-pairs_bytes es)) one

  write_vlen :
      put_uint16
        (page btype n new_ps old_qs
          (pairs_bytes es ++ (le16 (length e.key) ++ (r₂ ++ (r₃ ++ (r₄ ++ rest))))))
        (pos + 2)
        (length e.val)
      ≡ ok (
          page btype n new_ps old_qs (
            pairs_bytes es
            ++ (le16 (length e.key) ++ (le16 (length e.val) ++ (r₃ ++ (r₄ ++ rest))))))
  unfolding old_qs pos
  write_vlen =
      subst
        (λ (t : Bytes → Bytes).
          put_uint16 (page btype n new_ps old_qs (t (r₂ ++ (r₃ ++ (r₄ ++ rest))))) (pos + 2)
            (length e.val)
          ≡ ok (page btype n new_ps old_qs (t (le16 (length e.val) ++ (r₃ ++ (r₄ ++ rest))))))
        (λ i x. append_assoc (pairs_bytes es) (le16 (length e.key)) x i)
        (put_pair_at btype n new_ps old_qs (pairs_bytes es ++ le16 (length e.key)) r₂ _ (pos + 2)
          (length e.val) length-new_ps qs_whole
          (omega
            (arith, length-pairs_bytes es, length-append (pairs_bytes es) (le16 (length e.key))))
          two)

  write_key :
      copy
        (page btype n new_ps old_qs (
          pairs_bytes es ++ (le16 (length e.key) ++ (le16 (length e.val) ++ (r₃ ++ (r₄ ++ rest))))))
        (pos + 4)
        e.key
      ≡ ok (
          page btype n new_ps old_qs (
            pairs_bytes es
            ++ (le16 (length e.key) ++ (le16 (length e.val) ++ (e.key ++ (r₄ ++ rest))))))
  unfolding old_qs pos
  write_key =
      let lens = le16 (length e.key) ++ le16 (length e.val) in
      subst
        (λ (t : Bytes → Bytes).
          copy (page btype n new_ps old_qs (t (r₃ ++ (r₄ ++ rest)))) (pos + 4) e.key
          ≡ ok (page btype n new_ps old_qs (t (e.key ++ (r₄ ++ rest)))))
        (λ i x. append_assoc (pairs_bytes es) lens x i)
        (copy_pair_at btype n new_ps old_qs (pairs_bytes es ++ lens) r₃ _ (pos + 4) e.key
          length-new_ps qs_whole
          (omega (arith, length-pairs_bytes es, length-append (pairs_bytes es) lens)) (sym three))

  unfoldable pub new_rs : Bytes
  new_rs = pairs_bytes es ++ (pair_bytes e ++ rest)

  write_val :
      copy
        (page btype n new_ps old_qs (
          pairs_bytes es
          ++ (le16 (length e.key) ++ (le16 (length e.val) ++ (e.key ++ (r₄ ++ rest))))))
        (pos + 4 + length e.key)
        e.val
      ≡ ok (page btype n new_ps old_qs new_rs)
  unfolding old_qs pos new_rs
  write_val =
      let lens = le16 (length e.key) ++ (le16 (length e.val) ++ e.key) in
      let flat : (x : Bytes)
          → (pairs_bytes es ++ lens) ++ x
            ≡ pairs_bytes es ++ (le16 (length e.key) ++ (le16 (length e.val) ++ (e.key ++ x))) =
        λ x. simp append_assoc in
      subst
        (λ (t : Bytes → Bytes).
          copy (page btype n new_ps old_qs (t (r₄ ++ rest))) (pos + 4 + length e.key) e.val
          ≡ ok (page btype n new_ps old_qs (t (e.val ++ rest))))
        (λ i x. flat x i)
        (copy_pair_at btype n new_ps old_qs (pairs_bytes es ++ lens) r₄ _ (pos + 4 + length e.key)
          e.val length-new_ps qs_whole
          (omega (arith, length-pairs_bytes es, length-append (pairs_bytes es) lens)) (sym four))
      ∙ ap (λ t. ok (page btype n new_ps old_qs (pairs_bytes es ++ t))) (simp append_assoc)

  unfoldable pub new_qs : Bytes
  new_qs = offset_bytes 0 es ++ (le16 (pairs_size es + pair_size e) ++ fq)

  read_offset : get_offset (page btype n new_ps old_qs new_rs) (length es) ≡ ok (pairs_size es)
  unfolding old_qs
  read_offset =
      offset_at btype n new_ps (q₂ ++ fq) new_rs es (omega arith) (omega arith) length-new_ps
        (omega arith)

  write_offset :
      set_offset (page btype n new_ps old_qs new_rs) (length es + 1) (pairs_size es + pair_size e)
      ≡ ok (page btype n new_ps new_qs new_rs)
  unfolding old_qs new_qs
  write_offset =
      set_offset_at btype n (length es) new_ps (offset_bytes 0 es) q₂ fq new_rs
        (pairs_size es + pair_size e) (omega arith) inside length-new_ps (length-offset_bytes 0 es)
        qs_two

  pub append_kv_page :
      node_append_kv
        (page btype n
          (ptr_bytes es ++ (p₈ ++ fp))
          old_qs
          (pairs_bytes es ++ (r₁ ++ (r₂ ++ (r₃ ++ (r₄ ++ rest))))))
        (length es)
        e.ptr
        e.key
        e.val
      ≡ ok (page btype n new_ps new_qs new_rs)
  unfolding node_append_kv pos
  append_kv_page =
      let klen : u16 (length e.key) ≡ length e.key = omega arith in
      let vlen : u16 (length e.val) ≡ length e.val = omega arith in
      let at₂ : u16 (pos + 2) ≡ pos + 2 = omega arith in
      let at₄ : u16 (pos + 4) ≡ pos + 4 = omega arith in
      let at_val : u16 (pos + 4 + length e.key) ≡ pos + 4 + length e.key = omega arith in
      let next : u16 (length es + 1) ≡ length es + 1 = omega arith in
      let size : u16 (pairs_size es + 4 + u16 (length e.key + length e.val))
          ≡ pairs_size es + pair_size e =
        omega arith in
      rw
        (
          write_ptr, place, klen, write_klen, at₂, vlen, write_vlen, at₄, write_key, at_val,
          write_val, read_offset, next, size,
        )
        write_offset
