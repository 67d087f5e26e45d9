-- ===== src/Node/Range/Whole.antt =====
-- `nodeAppendRange` of database/b_tree.go copies a run of entries from one page to another.
use atomix_db.Prelude.{
  ℕ, ◌+◌, ◌*◌, ◌≤◌, ◌<◌, ◌≡◌, refl, sym, ap, ◌∙◌, List, [], ◌∷◌, ◌++◌, ok, le→leb, ne→==_false,
  length, length-append, append_assoc, append-nil, All-append, All-append_left, All-append_right,
  cut, arith,
}
use mathlib.Core.Logic.{◌≢◌}
use atomix_db.Bytes.{Bytes, u16, le16, slice, copy}
use atomix_db.Bytes.Le.{slice_at}
use atomix_db.Node.{
  BNode, get_offset, kv_pos, copy_ptrs, copy_offsets, append_some, node_append_range,
}
use atomix_db.Node.Layout.{
  Entry, Holds, IsU64, ptr_bytes, offset_bytes, pairs_bytes, pairs_size, length-ptr_bytes,
  length-offset_bytes, length-pairs_bytes, ptr_bytes-append, pairs_bytes-append, offset_bytes-split,
  pairs_size-append,
}
use atomix_db.Node.Read.{Holds-length, n_keys_lem, get_offset_lem, kv_pos_lem}
use atomix_db.Node.Page.{page, length-page, offset_at, kv_pos_at, copy_pair_at}
use atomix_db.Node.Append.{Writes, Holds-page}
use atomix_db.Node.Range.{copy_ptrs_lem, copy_offsets_lem}

-- The free parts of a page, cut where a run of `k` entries of `size` bytes goes.
record Room (free_ptrs free_offsets tail : Bytes) (k size : ℕ) : Type 0 where
  p : Bytes
  fp : Bytes
  q : Bytes
  fq : Bytes
  r : Bytes
  rest : Bytes
  ptrs_cut : free_ptrs ≡ p ++ fp
  offsets_cut : free_offsets ≡ q ++ fq
  tail_cut : tail ≡ r ++ rest
  p_len : length p ≡ 8 * k
  q_len : length q ≡ 2 * k
  r_len : length r ≡ size

cut-Room :
    (free_ptrs free_offsets tail : Bytes) (k size : ℕ)
    → 8 * k ≤ length free_ptrs
    → 2 * k ≤ length free_offsets
    → size ≤ length tail
    → Room free_ptrs free_offsets tail k size
cut-Room free_ptrs free_offsets tail k size a b c =
    let (p, fp, ep, lp) = cut (8 * k) free_ptrs a in
    let (q, fq, eq, lq) = cut (2 * k) free_offsets b in
    let (r, rest, er, lr) = cut size tail c in
    record {
      p = p;
      fp = fp;
      q = q;
      fq = fq;
      r = r;
      rest = rest;
      ptrs_cut = ep;
      offsets_cut = eq;
      tail_cut = er;
      p_len = sym lp;
      q_len = sym lq;
      r_len = sym lr;
    }

cut_length : (xs ys zs : Bytes) → xs ≡ ys ++ zs → length xs ≡ length ys + length zs
cut_length xs ys zs e = ap length e ∙ length-append ys zs

-- What `slice` takes of a page between two of its places.
pub slice_pairs :
    (btype n : ℕ) (xs ys zs : List Entry) (node : BNode)
    → Holds btype n (xs ++ (ys ++ zs)) node
    → slice node (4 + 10 * n + pairs_size xs) (4 + 10 * n + (pairs_size xs + pairs_size ys))
      ≡ ok (pairs_bytes ys)
slice_pairs btype n xs ys zs node h =
    let es = xs ++ (ys ++ zs) in
    let ps = ptr_bytes es ++ h.free_ptrs in
    let qs = offset_bytes 0 es ++ h.free_offsets in
    slice_at (page btype n ps qs (pairs_bytes xs)) (pairs_bytes ys) (pairs_bytes zs ++ h.rest) _ _
      (Holds-page btype n es node h ∙ simp (pairs_bytes-append, append_assoc))
      (omega (
        arith,
        length-page btype n ps qs (pairs_bytes xs),
        length-append (ptr_bytes es) h.free_ptrs,
        length-append (offset_bytes 0 es) h.free_offsets,
        length-ptr_bytes es,
        length-offset_bytes 0 es,
        length-pairs_bytes xs,
        h.ptrs_room,
        h.offsets_room,
      ))
      (omega (arith, length-pairs_bytes ys))

module _ (btype n btype' m : ℕ) (es xs ys zs : List Entry) (new old : BNode)
    (h : Holds btype n es new) (g : Holds btype' m (xs ++ (ys ++ zs)) old)
    (places : length es + length ys ≤ n)
    (enough : 4 + 10 * n + pairs_size es + pairs_size ys ≤ length new)
    (c : Room h.free_ptrs h.free_offsets h.rest (length ys) (pairs_size ys)) where
  new_ps : Bytes
  new_ps = ptr_bytes es ++ (ptr_bytes ys ++ c.fp)

  old_qs : Bytes
  old_qs = offset_bytes 0 es ++ (c.q ++ c.fq)

  new_qs : Bytes
  new_qs = offset_bytes 0 es ++ (offset_bytes (pairs_size es) ys ++ c.fq)

  old_rs : Bytes
  old_rs = pairs_bytes es ++ (c.r ++ c.rest)

  appended : BNode
  unfolding new_ps new_qs
  appended = page btype n new_ps new_qs (pairs_bytes es ++ (pairs_bytes ys ++ c.rest))

  small : 4 + 10 * n + pairs_size es + pairs_size ys < 65536
  small = omega (arith, h.fits)

  length-new_ps : length new_ps ≡ 8 * n
  unfolding new_ps
  length-new_ps = omega (
    arith,
    length-append (ptr_bytes es) (ptr_bytes ys ++ c.fp),
    length-append (ptr_bytes ys) c.fp,
    length-ptr_bytes es,
    length-ptr_bytes ys,
    h.ptrs_room,
    cut_length h.free_ptrs c.p c.fp c.ptrs_cut,
    c.p_len,
  )

  length-new_qs : length new_qs ≡ 2 * n
  unfolding new_qs
  length-new_qs = omega (
    arith,
    length-append (offset_bytes 0 es) (offset_bytes (pairs_size es) ys ++ c.fq),
    length-append (offset_bytes (pairs_size es) ys) c.fq,
    length-offset_bytes 0 es,
    length-offset_bytes (pairs_size es) ys,
    h.offsets_room,
    cut_length h.free_offsets c.q c.fq c.offsets_cut,
    c.q_len,
  )

  ptrs_copied :
      copy_ptrs new old (length es) (length xs) (length ys) 0
      ≡ ok (page btype n new_ps old_qs old_rs)
  unfolding new_ps old_qs old_rs
  ptrs_copied =
      let start : new
          ≡ page btype n (ptr_bytes es ++ (c.p ++ c.fp)) (offset_bytes 0 es ++ (c.q ++ c.fq))
              (pairs_bytes es ++ (c.r ++ c.rest)) =
        rw (← c.ptrs_cut, ← c.offsets_cut, ← c.tail_cut) (Holds-page btype n es new h) in
      ap (λ t. copy_ptrs t old (length es) (length xs) (length ys) 0) start
      ∙ copy_ptrs_lem btype n btype' m old old_qs old_rs (length es) (length xs)
          (omega (arith, small)) ys xs zs 0 (ptr_bytes es) c.p c.fp g (omega arith) (omega arith)
          (omega (arith, length-ptr_bytes es)) c.p_len

  offsets_copied :
      copy_offsets
        (page btype n new_ps old_qs old_rs)
        old
        (length es)
        (length xs)
        (pairs_size es)
        (pairs_size xs)
        (length ys)
        1
      ≡ ok (page btype n new_ps new_qs old_rs)
  unfolding old_qs new_qs
  offsets_copied =
      copy_offsets_lem btype n btype' m old new_ps old_rs (length es) (length xs) (pairs_size es)
        (pairs_size xs) (omega (arith, small)) length-new_ps ys xs zs 0 (pairs_size es)
        (offset_bytes 0 es) c.q c.fq g (omega arith) (omega arith) refl (omega (arith, small))
        (omega (arith, length-offset_bytes 0 es)) c.q_len

  pairs_copied :
      copy (page btype n new_ps new_qs old_rs) (4 + 10 * n + pairs_size es) (pairs_bytes ys)
      ≡ ok appended
  unfolding old_rs appended
  pairs_copied =
      copy_pair_at btype n new_ps new_qs (pairs_bytes es) c.r c.rest _ (pairs_bytes ys)
        length-new_ps length-new_qs (omega (arith, length-pairs_bytes es))
        (omega (arith, length-pairs_bytes ys, c.r_len))

  dst_offset : get_offset (page btype n new_ps old_qs old_rs) (length es) ≡ ok (pairs_size es)
  unfolding old_qs
  dst_offset =
      offset_at btype n new_ps (c.q ++ c.fq) old_rs es (omega (arith, small)) (omega arith)
        length-new_ps (omega (arith, small))

  dst_pos : kv_pos (page btype n new_ps new_qs old_rs) (length es) ≡ ok (4 + 10 * n + pairs_size es)
  unfolding new_qs
  dst_pos =
      kv_pos_at btype n new_ps (offset_bytes (pairs_size es) ys ++ c.fq) old_rs es (omega arith)
        length-new_ps (omega (arith, small))

  src_end : kv_pos old (length xs + length ys) ≡ ok (4 + 10 * m + (pairs_size xs + pairs_size ys))
  src_end =
      let g' : Holds btype' m ((xs ++ ys) ++ zs) old = rw append_assoc g in
      rw (← length-append xs ys, ← pairs_size-append xs ys)
        (kv_pos_lem btype' m (xs ++ ys) zs old g')

  some_appended : append_some new old (length es) (length xs) (length ys) ≡ ok appended
  unfolding append_some
  some_appended =
      let wrapped : u16 (length xs + length ys) ≡ length xs + length ys = omega (
        arith,
        g.fits,
        g.ptrs_room,
        Holds-length btype' m (xs ++ (ys ++ zs)) old g,
        length-append xs (ys ++ zs),
        length-append ys zs,
      ) in
      rw
        (
          ptrs_copied,
          dst_offset,
          get_offset_lem btype' m xs (ys ++ zs) old g,
          offsets_copied,
          kv_pos_lem btype' m xs (ys ++ zs) old g,
          wrapped,
          src_end,
          dst_pos,
          slice_pairs btype' m xs ys zs old g,
        )
        pairs_copied

  appended_bytes :
      appended
      ≡ le16 btype
        ++ (le16 n
            ++ (ptr_bytes (es ++ ys)
                ++ (c.fp
                    ++ (offset_bytes 0 (es ++ ys)
                        ++ (c.fq ++ (pairs_bytes (es ++ ys) ++ c.rest))))))
  unfolding appended
  appended_bytes = simp (ptr_bytes-append, offset_bytes-split, pairs_bytes-append, append_assoc)

  length-appended : length appended ≡ length new
  unfolding appended
  length-appended =
      length-page btype n new_ps new_qs (pairs_bytes es ++ (pairs_bytes ys ++ c.rest))
      ∙ omega (
        arith,
        length-new_ps,
        length-new_qs,
        Holds-length btype n es new h,
        cut_length h.rest c.r c.rest c.tail_cut,
        c.r_len,
        length-pairs_bytes es,
        length-pairs_bytes ys,
        length-append (pairs_bytes es) (pairs_bytes ys ++ c.rest),
        length-append (pairs_bytes ys) c.rest,
      )

  src_bound : length xs + length ys ≤ m
  src_bound = omega (arith, g.ptrs_room, length-append xs (ys ++ zs), length-append ys zs)

  m_small : 4 + 10 * m < 65536
  m_small = omega (arith, g.fits, Holds-length btype' m (xs ++ (ys ++ zs)) old g)

  -- Past its assertions the function copies, or returns at once where nothing is to be copied.
  range_some :
      length ys ≢ 0 → node_append_range new old (length es) (length xs) (length ys) ≡ ok appended
  unfolding node_append_range
  range_some some =
      let src_at : u16 (length xs + length ys) ≡ length xs + length ys =
        omega (arith, src_bound, m_small) in
      let dst_at : u16 (length es + length ys) ≡ length es + length ys = omega (arith, small) in
      rw
        (
          n_keys_lem btype' m (xs ++ (ys ++ zs)) old g,
          n_keys_lem btype n es new h,
          src_at,
          dst_at,
          le→leb (length xs + length ys) m src_bound,
          le→leb (length es + length ys) n places,
          ne→==_false (length ys) 0 some,
        )
        some_appended

  range_writes :
      length ys ≢ 0
      → Writes btype n
          (es ++ ys)
          (length new)
          (node_append_range new old (length es) (length xs) (length ys))
  range_writes some = record {
    node = appended;
    returns = range_some some;
    holds = record {
      free_ptrs = c.fp;
      free_offsets = c.fq;
      rest = c.rest;
      ptrs_room = omega (
        arith,
        h.ptrs_room,
        cut_length h.free_ptrs c.p c.fp c.ptrs_cut,
        c.p_len,
        length-append es ys,
      );
      offsets_room = omega (
        arith,
        h.offsets_room,
        cut_length h.free_offsets c.q c.fq c.offsets_cut,
        c.q_len,
        length-append es ys,
      );
      fits = omega (arith, length-appended, h.fits);
      btype_fits = h.btype_fits;
      ptrs_fit =
          All-append IsU64 es ys h.ptrs_fit
            (All-append_left IsU64 ys zs (All-append_right IsU64 xs (ys ++ zs) g.ptrs_fit));
      bytes = appended_bytes;
    };
    same_size = length-appended;
  }

-- With nothing to copy the function returns after its assertions.
range_nothing :
    (btype n btype' m : ℕ) (es xs zs : List Entry) (new old : BNode)
    → Holds btype n es new
    → Holds btype' m (xs ++ zs) old
    → length es ≤ n
    → node_append_range new old (length es) (length xs) 0 ≡ ok new
unfolding node_append_range
range_nothing btype n btype' m es xs zs new old h g places =
    let size = Holds-length btype n es new h in
    let size' = Holds-length btype' m (xs ++ zs) old g in
    let src_bound : length xs ≤ m = omega (arith, g.ptrs_room, length-append xs zs) in
    let src_at : u16 (length xs + 0) ≡ length xs = omega (arith, g.fits) in
    let dst_at : u16 (length es + 0) ≡ length es = omega (arith, h.fits) in
    rw
      (
        n_keys_lem btype' m (xs ++ zs) old g,
        n_keys_lem btype n es new h,
        src_at,
        dst_at,
        le→leb (length xs) m src_bound,
        le→leb (length es) n places,
      )
      refl

-- `nodeAppendRange` appends the entries `ys` of `old`, which stand behind `xs` there, to the entries
-- `es` that `new` holds, where `new` has the places and the room for them: it returns a page of the
-- same size that holds `es ++ ys`.
pub append_range_lem :
    (btype n btype' m : ℕ) (es xs ys zs : List Entry) (new old : BNode)
    → Holds btype n es new
    → Holds btype' m (xs ++ (ys ++ zs)) old
    → length es + length ys ≤ n
    → 4 + 10 * n + pairs_size es + pairs_size ys ≤ length new
    → Writes btype n
        (es ++ ys)
        (length new)
        (node_append_range new old (length es) (length xs) (length ys))
append_range_lem btype n btype' m es xs [] zs new old h g places enough = record {
  node = new;
  returns = range_nothing btype n btype' m es xs zs new old h g (omega arith);
  holds = rw append-nil h;
  same_size = refl;
}
append_range_lem btype n btype' m es xs (y ∷ ys) zs new old h g places enough =
    range_writes btype n btype' m es xs (y ∷ ys) zs new old h g places enough
      (cut-Room h.free_ptrs h.free_offsets h.rest (length (y ∷ ys)) (pairs_size (y ∷ ys))
        (omega (arith, h.ptrs_room)) (omega (arith, h.offsets_room))
        (omega (arith, Holds-length btype n es new h)))
      (omega arith)
