-- ===== src/Node/Split.antt =====
-- `nodeSplit2` and `nodeSplit3` of database/b_tree.go.
use atomix_db.Prelude.{
  ℕ, suc, ◌+◌, ◌-◌, ◌/◌, ◌≤◌, ◌<◌, ◌≡◌, refl, ap, ◌∙◌, List, [], ◌∷◌, ◌++◌, ok, panic, le→leb,
  lt→leb_false, length, length-append, append_assoc, cut, replicate, arith,
}
use atomix_db.Bytes.{Bytes, u16, get_uint16, uint16, slice, make_bytes}
use atomix_db.Bytes.Le.{slice_at}
use atomix_db.Node.{
  BNode, n_keys, node_append_range, node_split2, split_large, node_split3, btree_page_size,
}
use atomix_db.Node.Layout.{
  Entry, IsNode, ptr_bytes, offset_bytes, pairs_bytes, length-ptr_bytes, length-offset_bytes,
  length-pairs_bytes,
}
use atomix_db.Node.Read.{Holds-length, n_keys_lem, nbytes_lem}
use atomix_db.Node.Page.{page, length-page}
use atomix_db.Node.Append.{Writes, Holds-page}
use atomix_db.Node.Edit.{node_size}

-- A page cut behind its pairs is still the page.
module _ (btype : ℕ) (es : List Entry) (node : BNode) (h : IsNode btype es node) (k : ℕ)
    (lo : node_size es ≤ k) (hi : k ≤ length node) where
  front : Bytes
  front =
      page btype (length es) (ptr_bytes es ++ h.free_ptrs) (offset_bytes 0 es ++ h.free_offsets)
        (pairs_bytes es)

  length-front : length front ≡ node_size es
  unfolding front
  length-front =
      length-page btype (length es) (ptr_bytes es ++ h.free_ptrs)
        (offset_bytes 0 es ++ h.free_offsets) (pairs_bytes es)
      ∙ omega (
        arith,
        h.ptrs_room,
        h.offsets_room,
        length-ptr_bytes es,
        length-offset_bytes 0 es,
        length-pairs_bytes es,
        length-append (ptr_bytes es) h.free_ptrs,
        length-append (offset_bytes 0 es) h.free_offsets,
      )

  pub slice-IsNode : Writes btype (length es) es k (slice node 0 k)
  slice-IsNode =
      let size = Holds-length btype (length es) es node h in
      let (r, rest, e, p) = cut (k - node_size es) h.rest (omega arith) in
      let whole : node ≡ (front ++ r) ++ rest =
        unfold front in
        Holds-page btype (length es) es node h
        ∙ ap
            (λ t.
              page btype (length es) (ptr_bytes es ++ h.free_ptrs)
                (offset_bytes 0 es ++ h.free_offsets) (pairs_bytes es ++ t))
            e
        ∙ simp append_assoc in
      let len : length (front ++ r) ≡ k = omega (arith, length-append front r, length-front) in
      record {
        node = front ++ r;
        returns = slice_at [] (front ++ r) rest 0 k whole refl (omega arith);
        holds = record {
          free_ptrs = h.free_ptrs;
          free_offsets = h.free_offsets;
          rest = r;
          ptrs_room = h.ptrs_room;
          offsets_room = h.offsets_room;
          fits = omega (arith, h.fits);
          btype_fits = h.btype_fits;
          ptrs_fit = h.ptrs_fit;
          bytes = unfold front in simp append_assoc;
        };
        same_size = len;
      }

-- A node whose entries fit a page, in a buffer of a page at least, is not split: `nodeSplit3` returns
-- the one page that holds its entries.
pub node_split3_fits :
    (btype : ℕ) (es : List Entry) (node : BNode) (h : IsNode btype es node)
    → node_size es ≤ btree_page_size
    → btree_page_size ≤ length node
    → (p : BNode) × (node_split3 node ≡ ok (p ∷ []))
      × IsNode btype es p
      × (length p ≡ btree_page_size)
unfolding node_split3
node_split3_fits btype es node h small large =
    let w = slice-IsNode btype es node h btree_page_size small large in
    (
      w.node,
      rw (nbytes_lem btype es node h, le→leb (node_size es) btree_page_size small, w.returns),
      w.holds,
      w.same_size,
    )

n_keys-make_bytes : (k : ℕ) → n_keys (make_bytes (suc (suc (suc (suc k))))) ≡ ok 0
unfolding n_keys get_uint16 uint16 make_bytes replicate
n_keys-make_bytes k = refl

-- The halves that `nodeSplit2` fills have no header, so that their number of keys is 0 and the
-- assertion of `nodeAppendRange` on the places of the left one fails.
node_split2-panic :
    (k : ℕ) (btype : ℕ) (es : List Entry) (right node : BNode)
    → IsNode btype es node
    → 2 ≤ length es
    → node_split2 (make_bytes (suc (suc (suc (suc k))))) right node ≡ panic
unfolding node_split2 node_append_range
node_split2-panic k btype es right node h two =
    let n = length es in
    let size = Holds-length btype n es node h in
    let small = h.fits in
    let src : u16 (0 + n / 2) ≡ n / 2 = omega arith in
    rw
      (
        n_keys_lem btype n es node h,
        src,
        le→leb (n / 2) n (omega arith),
        n_keys-make_bytes k,
        lt→leb_false (n / 2) 0 (omega arith),
      )
      refl

-- A node that does not fit a page and holds two entries at least makes `nodeSplit3` panic.
pub node_split3_panics :
    (btype : ℕ) (es : List Entry) (node : BNode)
    → IsNode btype es node
    → btree_page_size < node_size es
    → 2 ≤ length es
    → node_split3 node ≡ panic
unfolding node_split3 split_large
node_split3_panics btype es node h large two =
    rw
      (
        nbytes_lem btype es node h,
        lt→leb_false (node_size es) btree_page_size large,
        node_split2-panic 8188 btype es (make_bytes 4096) node h two,
      )
      refl
