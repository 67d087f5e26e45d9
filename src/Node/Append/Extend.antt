-- ===== src/Node/Append/Extend.antt =====
-- `nodeAppendKV` of database/b_tree.go adds one entry to a page.
use atomix_db.Prelude.{
  ℕ, ◌+◌, ◌*◌, ◌≤◌, ◌<◌, ◌≡◌, sym, ap, ◌∙◌, List, [], ◌∷◌, ◌++◌, ok, length, length-append,
  append_assoc, append-nil, All-append, cut, arith,
}
use atomix_db.Bytes.{Bytes, le16, le64}
use atomix_db.Node.{BNode, node_append_kv}
use atomix_db.Node.Layout.{
  Entry, Holds, IsU64, pair_bytes, pair_size, ptr_bytes, offset_bytes, pairs_bytes, pairs_size,
  length-ptr_bytes, length-offset_bytes, length-pairs_bytes, ptr_bytes-append, pairs_bytes-append,
  offset_bytes-split,
}
use atomix_db.Node.Read.{Holds-length}
use atomix_db.Node.Page.{page, length-page}
use atomix_db.Node.Append.{Writes, Holds-page}
use atomix_db.Node.Append.Pair.{old_qs, new_ps, new_qs, new_rs, append_kv_page}

-- Where the next entry goes in a page with room for it.
record Room (free_ptrs free_offsets tail : Bytes) (e : Entry) : Type 0 where
  p₈ : Bytes
  fp : Bytes
  q₂ : Bytes
  fq : Bytes
  r₁ : Bytes
  r₂ : Bytes
  r₃ : Bytes
  r₄ : Bytes
  rest : Bytes
  ptrs_cut : free_ptrs ≡ p₈ ++ fp
  offsets_cut : free_offsets ≡ q₂ ++ fq
  tail_cut : tail ≡ r₁ ++ (r₂ ++ (r₃ ++ (r₄ ++ rest)))
  eight : length p₈ ≡ 8
  two : length q₂ ≡ 2
  klen_two : length r₁ ≡ 2
  vlen_two : length r₂ ≡ 2
  key_len : length r₃ ≡ length e.key
  val_len : length r₄ ≡ length e.val

cut_length : (xs ys zs : Bytes) → xs ≡ ys ++ zs → length xs ≡ length ys + length zs
cut_length xs ys zs e = ap length e ∙ length-append ys zs

cut_tail :
    (tail : Bytes) (k v : ℕ)
    → 4 + k + v ≤ length tail
    → (r₁ : Bytes) × (r₂ : Bytes) × (r₃ : Bytes) × (r₄ : Bytes) × (rest : Bytes) × (tail
        ≡ r₁ ++ (r₂ ++ (r₃ ++ (r₄ ++ rest))))
      × (length r₁ ≡ 2)
      × (length r₂ ≡ 2)
      × (length r₃ ≡ k)
      × (length r₄ ≡ v)
cut_tail tail k v room =
    let (r₁, t₁, e₁, l₁) = cut 2 tail (omega arith) in
    let n₁ = cut_length tail r₁ t₁ e₁ in
    let (r₂, t₂, e₂, l₂) = cut 2 t₁ (omega arith) in
    let n₂ = cut_length t₁ r₂ t₂ e₂ in
    let (r₃, t₃, e₃, l₃) = cut k t₂ (omega arith) in
    let n₃ = cut_length t₂ r₃ t₃ e₃ in
    let (r₄, rest, e₄, l₄) = cut v t₃ (omega arith) in
    (
      r₁,
      r₂,
      r₃,
      r₄,
      rest,
      e₁ ∙ ap (λ t. r₁ ++ t) (e₂ ∙ ap (λ t. r₂ ++ t) (e₃ ∙ ap (λ t. r₃ ++ t) e₄)),
      sym l₁,
      sym l₂,
      sym l₃,
      sym l₄,
    )

cut-Room :
    (free_ptrs free_offsets tail : Bytes) (e : Entry)
    → 8 ≤ length free_ptrs
    → 2 ≤ length free_offsets
    → pair_size e ≤ length tail
    → Room free_ptrs free_offsets tail e
cut-Room free_ptrs free_offsets tail e a b c =
    let (p₈, fp, ep, lp) = cut 8 free_ptrs a in
    let (q₂, fq, eq, lq) = cut 2 free_offsets b in
    let (r₁, r₂, r₃, r₄, rest, et, l₁, l₂, l₃, l₄) =
      cut_tail tail (length e.key) (length e.val) c in
    record {
      p₈ = p₈;
      fp = fp;
      q₂ = q₂;
      fq = fq;
      r₁ = r₁;
      r₂ = r₂;
      r₃ = r₃;
      r₄ = r₄;
      rest = rest;
      ptrs_cut = ep;
      offsets_cut = eq;
      tail_cut = et;
      eight = sym lp;
      two = sym lq;
      klen_two = l₁;
      vlen_two = l₂;
      key_len = l₃;
      val_len = l₄;
    }

module _ (btype n : ℕ) (es : List Entry) (e : Entry) (node : BNode) (h : Holds btype n es node)
    (inside : length es < n) (small : IsU64 e)
    (enough : 4 + 10 * n + pairs_size es + pair_size e ≤ length node)
    (c : Room h.free_ptrs h.free_offsets h.rest e) where
  before_append :
      node
      ≡ page btype n
          (ptr_bytes es ++ (c.p₈ ++ c.fp))
          (offset_bytes 0 es ++ (c.q₂ ++ c.fq))
          (pairs_bytes es ++ (c.r₁ ++ (c.r₂ ++ (c.r₃ ++ (c.r₄ ++ c.rest)))))
  before_append = rw (← c.ptrs_cut, ← c.offsets_cut, ← c.tail_cut) (Holds-page btype n es node h)

  appended : BNode
  appended =
      page btype n (ptr_bytes es ++ (le64 e.ptr ++ c.fp))
        (offset_bytes 0 es ++ (le16 (pairs_size es + pair_size e) ++ c.fq))
        (pairs_bytes es ++ (pair_bytes e ++ c.rest))

  append_returns : node_append_kv node (length es) e.ptr e.key e.val ≡ ok appended
  unfolding appended old_qs new_ps new_qs new_rs
  append_returns =
      let size = Holds-length btype n es node h in
      ap (λ t. node_append_kv t (length es) e.ptr e.key e.val) before_append
      ∙ append_kv_page btype n es e c.p₈ c.fp c.q₂ c.fq c.r₁ c.r₂ c.r₃ c.r₄ c.rest inside
          (omega (arith, h.fits)) c.eight
          (rw (← c.ptrs_cut) (
            omega
              (arith, h.ptrs_room, length-append (ptr_bytes es) h.free_ptrs, length-ptr_bytes es)))
          c.two
          (rw (← c.offsets_cut) (
            omega (
              arith,
              h.offsets_room,
              length-append (offset_bytes 0 es) h.free_offsets,
              length-offset_bytes 0 es,
            )))
          c.klen_two c.vlen_two c.key_len c.val_len

  appended_bytes :
      appended
      ≡ le16 btype
        ++ (le16 n
            ++ (ptr_bytes (es ++ (e ∷ []))
                ++ (c.fp
                    ++ (offset_bytes 0 (es ++ (e ∷ []))
                        ++ (c.fq ++ (pairs_bytes (es ++ (e ∷ [])) ++ c.rest))))))
  unfolding appended
  appended_bytes =
      simp (ptr_bytes-append, offset_bytes-split, pairs_bytes-append, append_assoc, append-nil)

  length-fp : length c.fp + 8 ≡ length h.free_ptrs
  length-fp = omega (arith, cut_length h.free_ptrs c.p₈ c.fp c.ptrs_cut, c.eight)

  length-fq : length c.fq + 2 ≡ length h.free_offsets
  length-fq = omega (arith, cut_length h.free_offsets c.q₂ c.fq c.offsets_cut, c.two)

  length-rest : length c.rest + pair_size e ≡ length h.rest
  length-rest = omega (
    arith,
    cut_length h.rest c.r₁ (c.r₂ ++ (c.r₃ ++ (c.r₄ ++ c.rest))) c.tail_cut,
    length-append c.r₂ (c.r₃ ++ (c.r₄ ++ c.rest)),
    length-append c.r₃ (c.r₄ ++ c.rest),
    length-append c.r₄ c.rest,
    c.klen_two,
    c.vlen_two,
    c.key_len,
    c.val_len,
  )

  length-appended : length appended ≡ length node
  unfolding appended
  length-appended =
      length-page btype n (ptr_bytes es ++ (le64 e.ptr ++ c.fp))
        (offset_bytes 0 es ++ (le16 (pairs_size es + pair_size e) ++ c.fq))
        (pairs_bytes es ++ (pair_bytes e ++ c.rest))
      ∙ omega (
        arith,
        Holds-length btype n es node h,
        h.ptrs_room,
        h.offsets_room,
        length-fp,
        length-fq,
        length-rest,
        length-ptr_bytes es,
        length-offset_bytes 0 es,
        length-pairs_bytes es,
        length-append (ptr_bytes es) (le64 e.ptr ++ c.fp),
        length-append (offset_bytes 0 es) (le16 (pairs_size es + pair_size e) ++ c.fq),
        length-append (pairs_bytes es) (pair_bytes e ++ c.rest),
        length-append (e.key ++ e.val) c.rest,
        length-append e.key e.val,
      )

  append_writes :
      Writes btype n
        (es ++ (e ∷ []))
        (length node)
        (node_append_kv node (length es) e.ptr e.key e.val)
  append_writes =
      let count = length-append es (e ∷ []) in
      record {
        node = appended;
        returns = append_returns;
        holds = record {
          free_ptrs = c.fp;
          free_offsets = c.fq;
          rest = c.rest;
          ptrs_room = omega (arith, length-fp, h.ptrs_room);
          offsets_room = omega (arith, length-fq, h.offsets_room);
          fits = omega (arith, length-appended, h.fits);
          btype_fits = h.btype_fits;
          ptrs_fit = All-append IsU64 es (e ∷ []) h.ptrs_fit (small, tt);
          bytes = appended_bytes;
        };
        same_size = length-appended;
      }

-- `nodeAppendKV` adds an entry behind those that the page holds, where there is a place and room and
-- the pointer fits 64 bits: it returns a page of the same size with the entry at the end.
pub append_kv_lem :
    (btype n : ℕ) (es : List Entry) (e : Entry) (node : BNode)
    → Holds btype n es node
    → length es < n
    → IsU64 e
    → 4 + 10 * n + pairs_size es + pair_size e ≤ length node
    → Writes btype n
        (es ++ (e ∷ []))
        (length node)
        (node_append_kv node (length es) e.ptr e.key e.val)
append_kv_lem btype n es e node h inside small enough =
    append_writes btype n es e node h inside small enough (
      cut-Room h.free_ptrs h.free_offsets h.rest e (omega (arith, h.ptrs_room))
        (omega (arith, h.offsets_room)) (omega (arith, Holds-length btype n es node h)))
