-- ===== src/Node/Layout.antt =====
-- The page format that the head of database/b_tree.go draws: what the bytes of a node hold.
use atomix_db.Prelude.{
  ℕ, ◌+◌, ◌*◌, ◌<◌, ◌≡◌, refl, ap, ◌∙◌, List, [], ◌∷◌, ◌++◌, length, All, length-append,
  append_assoc, arith,
}
use atomix_db.Bytes.{Bytes, le16, le64}

pub record Entry : Type 0 where
  pub ptr : ℕ
  pub key : Bytes
  pub val : Bytes

-- | klen | vlen | key | val |
abbrev pub pair_bytes : Entry → Bytes
pair_bytes e = le16 (length e.key) ++ (le16 (length e.val) ++ (e.key ++ e.val))

abbrev pub pair_size : Entry → ℕ
pair_size e = 4 + length e.key + length e.val

abbrev pub ptr_bytes : List Entry → Bytes
ptr_bytes [] = []
ptr_bytes (e ∷ es) = le64 e.ptr ++ ptr_bytes es

-- Where each pair ends, counted from the first; `base` is where the list begins.
abbrev pub offset_bytes : ℕ → List Entry → Bytes
offset_bytes base [] = []
offset_bytes base (e ∷ es) = le16 (base + pair_size e) ++ offset_bytes (base + pair_size e) es

abbrev pub pairs_bytes : List Entry → Bytes
pairs_bytes [] = []
pairs_bytes (e ∷ es) = pair_bytes e ++ pairs_bytes es

abbrev pub pairs_size : List Entry → ℕ
pairs_size [] = 0
pairs_size (e ∷ es) = pair_size e + pairs_size es

abbrev pub IsU64 : Entry → Type 0
IsU64 e = e.ptr < 18446744073709551616

-- `node` is a page of type `btype` with room for `n` entries, of which the first are `es`. What the
-- places of the others hold, and what stands behind the pairs, is free.
pub record Holds (btype n : ℕ) (es : List Entry) (node : Bytes) : Type 0 where
  pub free_ptrs : Bytes
  pub free_offsets : Bytes
  pub rest : Bytes
  pub ptrs_room : 8 * length es + length free_ptrs ≡ 8 * n
  pub offsets_room : 2 * length es + length free_offsets ≡ 2 * n
  pub fits : length node < 65536
  pub btype_fits : btype < 65536
  pub ptrs_fit : All IsU64 es
  pub bytes :
      node
      ≡ le16 btype
        ++ (le16 n
            ++ (ptr_bytes es
                ++ (free_ptrs
                    ++ (offset_bytes 0 es ++ (free_offsets ++ (pairs_bytes es ++ rest))))))

-- A node whose places are all taken.
abbrev pub IsNode : ℕ → List Entry → Bytes → Type 0
IsNode btype es node = Holds btype (length es) es node

pub length-ptr_bytes : (es : List Entry) → length (ptr_bytes es) ≡ 8 * length es
length-ptr_bytes [] = omega arith
length-ptr_bytes (e ∷ es) = omega (arith, length-ptr_bytes es)

pub length-offset_bytes :
    (base : ℕ) (es : List Entry) → length (offset_bytes base es) ≡ 2 * length es
length-offset_bytes base [] = omega arith
length-offset_bytes base (e ∷ es) = omega (arith, length-offset_bytes (base + pair_size e) es)

pub length-pairs_bytes : (es : List Entry) → length (pairs_bytes es) ≡ pairs_size es
length-pairs_bytes [] = omega arith
length-pairs_bytes (e ∷ es) = omega (
  arith,
  length-pairs_bytes es,
  length-append (e.key ++ e.val) (pairs_bytes es),
  length-append e.key e.val,
)

pub ptr_bytes-append : (xs ys : List Entry) → ptr_bytes (xs ++ ys) ≡ ptr_bytes xs ++ ptr_bytes ys
ptr_bytes-append [] ys = refl
ptr_bytes-append (e ∷ xs) ys = ap (λ t. le64 e.ptr ++ t) (ptr_bytes-append xs ys)

pub pairs_bytes-append :
    (xs ys : List Entry) → pairs_bytes (xs ++ ys) ≡ pairs_bytes xs ++ pairs_bytes ys
pairs_bytes-append [] ys = refl
pairs_bytes-append (e ∷ xs) ys = simp (pairs_bytes-append xs ys, append_assoc)

pub pairs_size-append : (xs ys : List Entry) → pairs_size (xs ++ ys) ≡ pairs_size xs + pairs_size ys
pairs_size-append [] ys = omega arith
pairs_size-append (e ∷ xs) ys = omega (arith, pairs_size-append xs ys)

pub offset_bytes-append :
    (base : ℕ) (xs ys : List Entry)
    → offset_bytes base (xs ++ ys) ≡ offset_bytes base xs ++ offset_bytes (base + pairs_size xs) ys
offset_bytes-append base [] ys = ap (λ b. offset_bytes b ys) (omega arith)
offset_bytes-append base (e ∷ xs) ys =
    ap (λ t. le16 (base + pair_size e) ++ t)
      (offset_bytes-append (base + pair_size e) xs ys
        ∙ ap (λ b. offset_bytes (base + pair_size e) xs ++ offset_bytes b ys) (omega arith))

pub offset_bytes-split :
    (xs ys : List Entry)
    → offset_bytes 0 (xs ++ ys) ≡ offset_bytes 0 xs ++ offset_bytes (pairs_size xs) ys
offset_bytes-split xs ys =
    offset_bytes-append 0 xs ys ∙ ap (λ b. offset_bytes 0 xs ++ offset_bytes b ys) (omega arith)
