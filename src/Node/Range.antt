-- ===== src/Node/Range.antt =====
-- The two loops of `nodeAppendRange` of database/b_tree.go; the function is in the module below.
pub mod Whole
use atomix_db.Prelude.{
  ℕ, zero, suc, ◌+◌, ◌-◌, ◌*◌, ◌%◌, ◌≤◌, ◌<◌, ◌≡◌, refl, sym, ap, ◌∙◌, List, [], ◌∷◌, ◌++◌, ok,
  length, length-append, append_assoc, cut, arith,
}
use atomix_db.Bytes.{Bytes, u16, le16, le64}
use atomix_db.Node.{BNode, copy_ptrs, copy_offsets}
use atomix_db.Node.Layout.{
  Entry, Holds, pair_size, ptr_bytes, offset_bytes, pairs_size, pairs_size-append,
}
use atomix_db.Node.Read.{Holds-length, get_ptr_lem, get_offset_lem}
use atomix_db.Node.Page.{page, set_ptr_at, set_offset_at}

module _ (btype n btype' m : ℕ) (old qs rs : Bytes) (dst src : ℕ) (small : 4 + 10 * n < 65536) where
  -- The first loop, with `todo` still to come: `pre` is what stands before that in `old`.
  pub copy_ptrs_lem :
      (todo pre post : List Entry) (i : ℕ) (before free after : Bytes)
      → Holds btype' m (pre ++ (todo ++ post)) old
      → length pre ≡ src + i
      → dst + i + length todo ≤ n
      → length before ≡ 8 * (dst + i)
      → length free ≡ 8 * length todo
      → copy_ptrs (page btype n (before ++ (free ++ after)) qs rs) old dst src (length todo) i
        ≡ ok (page btype n (before ++ (ptr_bytes todo ++ after)) qs rs)
  unfolding copy_ptrs
  copy_ptrs_lem [] pre post i before [] after h at room place none = refl
  copy_ptrs_lem [] pre post i before (x ∷ free) after h at room place some = absurd (omega arith)
  copy_ptrs_lem (e ∷ todo) pre post i before free after h at room place whole =
      let (f₈, free', ef, lf) = cut 8 free (omega arith) in
      let src_at : u16 (src + i) ≡ length pre = omega (
        arith,
        h.fits,
        Holds-length btype' m (pre ++ (e ∷ (todo ++ post))) old h,
        h.ptrs_room,
        length-append pre (e ∷ (todo ++ post)),
      ) in
      let dst_at : u16 (dst + i) ≡ dst + i = omega arith in
      let h' : Holds btype' m ((pre ++ (e ∷ [])) ++ (todo ++ post)) old = rw append_assoc h in
      rw
        (
          src_at,
          get_ptr_lem btype' m pre e (todo ++ post) old h,
          dst_at,
          ef,
          append_assoc f₈ free' after,
          set_ptr_at btype n (dst + i) before f₈ (free' ++ after) qs rs e.ptr small (omega arith)
              place (sym lf),
          sym (append_assoc before (le64 e.ptr) (free' ++ after)),
          copy_ptrs_lem todo (pre ++ (e ∷ [])) post (i + 1) (before ++ le64 e.ptr) free' after h'
              (omega (arith, length-append pre (e ∷ []))) (omega arith)
              (omega (arith, length-append before (le64 e.ptr)))
              (omega (arith, ap length ef, length-append f₈ free')),
        )
        (ap (λ t. ok (page btype n t qs rs))
          (append_assoc before (le64 e.ptr) (ptr_bytes todo ++ after)))

module _ (btype n btype' m : ℕ) (old ps rs : Bytes) (dst src dst_begin src_begin : ℕ)
    (small : 4 + 10 * n < 65536) (whole : length ps ≡ 8 * n) where
  -- The second loop, whose `i` is `j + 1`.
  pub copy_offsets_lem :
      (todo pre post : List Entry) (j base : ℕ) (before free after : Bytes)
      → Holds btype' m (pre ++ (todo ++ post)) old
      → length pre ≡ src + j
      → dst + j + length todo ≤ n
      → base + src_begin ≡ dst_begin + pairs_size pre
      → base + pairs_size todo < 65536
      → length before ≡ 2 * (dst + j)
      → length free ≡ 2 * length todo
      → copy_offsets
          (page btype n ps (before ++ (free ++ after)) rs)
          old
          dst
          src
          dst_begin
          src_begin
          (length todo)
          (j + 1)
        ≡ ok (page btype n ps (before ++ (offset_bytes base todo ++ after)) rs)
  unfolding copy_offsets
  copy_offsets_lem [] pre post j base before [] after h at room eq fits place none = refl
  copy_offsets_lem [] pre post j base before (x ∷ free) after h at room eq fits place some =
      absurd (omega arith)
  copy_offsets_lem (e ∷ todo) pre post j base before free after h at room eq fits place two =
      let (f₂, free', ef, lf) = cut 2 free (omega arith) in
      let count = length-append pre (e ∷ []) in
      let size = pairs_size-append pre (e ∷ []) in
      let src_at : u16 (src + (j + 1)) ≡ length (pre ++ (e ∷ [])) = omega (
        arith,
        h.fits,
        Holds-length btype' m (pre ++ (e ∷ (todo ++ post))) old h,
        h.ptrs_room,
        length-append pre (e ∷ (todo ++ post)),
      ) in
      let dst_at : u16 (dst + (j + 1)) ≡ dst + j + 1 = omega arith in
      let h' : Holds btype' m ((pre ++ (e ∷ [])) ++ (todo ++ post)) old = rw append_assoc h in
      let moved : u16 (dst_begin + pairs_size (pre ++ (e ∷ [])) + 65536 - src_begin)
          ≡ base + pair_size e =
        omega arith in
      rw
        (
          src_at,
          get_offset_lem btype' m (pre ++ (e ∷ [])) (todo ++ post) old h',
          dst_at,
          moved,
          ef,
          append_assoc f₂ free' after,
          set_offset_at btype n (dst + j) ps before f₂ (free' ++ after) rs (base + pair_size e)
              small (omega arith) whole place (sym lf),
          sym (append_assoc before (le16 (base + pair_size e)) (free' ++ after)),
          copy_offsets_lem todo (pre ++ (e ∷ [])) post (j + 1) (base + pair_size e)
              (before ++ le16 (base + pair_size e)) free' after h' (omega arith) (omega arith)
              (omega arith) (omega arith)
              (omega (arith, length-append before (le16 (base + pair_size e))))
              (omega (arith, ap length ef, length-append f₂ free')),
        )
        (ap (λ t. ok (page btype n ps t rs))
          (append_assoc before (le16 (base + pair_size e))
            (offset_bytes (base + pair_size e) todo ++ after)))
