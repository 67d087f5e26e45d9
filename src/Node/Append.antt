-- ===== src/Node/Append.antt =====
-- `setHeader`: an empty page. `nodeAppendKV` is in the modules below.
pub mod Pair
pub mod Extend
use atomix_db.Prelude.{
  ℕ, ◌+◌, ◌-◌, ◌*◌, ◌/◌, ◌%◌, ◌≤◌, ◌<◌, ◌≡◌, refl, sym, ap, ◌∙◌, subst, List, [], ◌∷◌, ◌++◌, Run,
  ok, length, length-append, append_assoc, append-nil, All, All-append, cut, arith,
}
use atomix_db.Bytes.{Bytes, u16, le16, le64, put_uint16, copy}
use atomix_db.Bytes.Le.{put_uint16_at}
use atomix_db.Node.{BNode, set_header, set_ptr, kv_pos, get_offset, set_offset, node_append_kv}
use atomix_db.Node.Layout.{
  Entry, Holds, IsU64, pair_bytes, pair_size, ptr_bytes, offset_bytes, pairs_bytes, pairs_size,
  length-ptr_bytes, length-offset_bytes, length-pairs_bytes, ptr_bytes-append, pairs_bytes-append,
  offset_bytes-split, pairs_size-append,
}
use atomix_db.Node.Read.{Holds-length}
use atomix_db.Node.Page.{
  page, length-page, set_ptr_at, set_offset_at, put_pair_at, copy_pair_at, offset_at, kv_pos_at,
}

-- `r` returns a page of `size` bytes that holds `es`.
pub record Writes (btype n : ℕ) (es : List Entry) (size : ℕ) (r : Run BNode) : Type 0 where
  pub node : BNode
  pub returns : r ≡ ok node
  pub holds : Holds btype n es node
  pub same_size : length node ≡ size

-- A header over any page that has room for the places makes it an empty page.
pub set_header_lem :
    (btype n : ℕ) (new : BNode)
    → btype < 65536
    → 4 + 10 * n ≤ length new
    → length new < 65536
    → Writes btype n [] (length new) (set_header new btype n)
unfolding set_header
set_header_lem btype n new small room fits =
    let (old, tail, e, p) = cut 4 new (omega arith) in
    let (old₁, old₂, e₁, p₁) = cut 2 old (omega arith) in
    let (ps, tail₁, e₂, p₂) =
      cut (8 * n) tail (omega (arith, ap length e, length-append old tail)) in
    let (qs, rs, e₃, p₃) =
      cut (2 * n) tail₁ (
        omega (arith, ap length e, ap length e₂, length-append old tail, length-append ps tail₁)) in
    let start : new ≡ old₁ ++ (old₂ ++ tail) =
      e ∙ ap (λ t. t ++ tail) e₁ ∙ append_assoc old₁ old₂ tail in
    let written : (page btype n ps qs rs ≡ le16 btype ++ (le16 n ++ tail)) =
      ap (λ t. le16 btype ++ (le16 n ++ t)) (sym (e₂ ∙ ap (λ t. ps ++ t) e₃)) in
    let size : length (page btype n ps qs rs) ≡ length new =
      ap length written ∙ omega (arith, ap length e, length-append old tail) in
    record {
      node = page btype n ps qs rs;
      returns = rw (put_uint16_at [] old₁ (old₂ ++ tail) 0 btype start refl (sym p₁)) (
          put_uint16_at (le16 btype) old₂ tail 2 n refl refl
            (omega (arith, ap length e₁, length-append old₁ old₂))
          ∙ ap ok (sym written));
      holds = record {
        free_ptrs = ps;
        free_offsets = qs;
        rest = rs;
        ptrs_room = omega arith;
        offsets_room = omega arith;
        fits = omega arith;
        btype_fits = small;
        ptrs_fit = tt;
        bytes = refl;
      };
      same_size = size;
    }

-- A page that holds `es`, by its regions.
pub Holds-page :
    (btype n : ℕ) (es : List Entry) (node : BNode) (h : Holds btype n es node)
    → node
      ≡ page btype n
          (ptr_bytes es ++ h.free_ptrs)
          (offset_bytes 0 es ++ h.free_offsets)
          (pairs_bytes es ++ h.rest)
Holds-page btype n es node h = h.bytes ∙ simp append_assoc
