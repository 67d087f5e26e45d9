-- ===== src/Scan/Whole/Keys.antt =====
-- The keys of the rows of one table: their prefix, and how they compare.
use atomix_db.Prelude.{
  ◌+◌, ◌<◌, ◌≤◌, ◌≡◌, ◌≢◌, refl, sym, ◌∙◌, subst, inl, inr, true, false, List, [], ◌∷◌, ◌++◌,
  length, All, Bool-cases, ==_iff, length-append, Ordering, arith,
}
use atomix_db.Bytes.{Bytes, u64}
use atomix_db.Bytes.Order.{compare_bytes, equal_bytes}
use atomix_db.Bytes.Order.Laws.{Lt, Lt-trans, compare_bytes_refl, equal_bytes-eq}
use atomix_db.Codec.{be}
use atomix_db.Codec.Escape.{escaped}
use atomix_db.Codec.BigEndian.{length-be}
use atomix_db.Codec.RoundTrip.{Cell, int64, text, cell_bytes, values_of, cells_bytes}
use atomix_db.Table.{Record, TableDef}
use atomix_db.Node.Layout.{Entry}
use atomix_db.Node.Sorted.{AtMost}
use atomix_db.Scan.Row.{Fits, row_key}
use atomix_db.Scan.Whole.{has_prefix}

-- The entries are those of the rows of one table, in their order.
abbrev pub Rows : TableDef → List Entry → List Record → Type 0
Rows tdef [] [] = Unit
Rows tdef [] (r ∷ rs) = ⊥
Rows tdef (e ∷ es) [] = ⊥
Rows tdef (e ∷ es) (r ∷ rs) =
    ((ks vs : List Cell) × Fits tdef ks vs
      × (e.key ≡ row_key tdef ks)
      × (e.val ≡ cells_bytes vs)
      × (r ≡ record { cols = tdef.cols; vals = values_of (ks ++ vs) }))
    × Rows tdef es rs

pub has_prefix-append : (prefix rest : Bytes) → has_prefix (prefix ++ rest) prefix ≡ true
unfolding has_prefix
has_prefix-append [] [] = refl
has_prefix-append [] (x ∷ rest) = refl
has_prefix-append (x ∷ prefix) rest = rw ((==_iff x x).1 refl) (has_prefix-append prefix rest)

pub Lt-irrefl : (b : Bytes) → ¬ Lt b b
Lt-irrefl b less = let e : Ordering.lt ≡ Ordering.eq = sym less ∙ compare_bytes_refl b in cc

-- A key is greater than its proper prefixes.
Lt-append : (a b : Bytes) → 0 < length b → Lt a (a ++ b)
unfolding compare_bytes
Lt-append [] [] some = absurd (omega arith)
Lt-append [] (x ∷ b) some = refl
Lt-append (x ∷ a) b some = ground (arith, Lt-append a b some)

some_bytes : (ks : List Cell) → 1 ≤ length ks → 0 < length (cells_bytes ks)
unfolding cells_bytes cell_bytes
some_bytes [] some = absurd (omega arith)
some_bytes (int64 n ∷ ks) some = omega (
  arith,
  length-append (be 8 (u64 (n + 9223372036854775808))) (cells_bytes ks),
  length-be 8 (u64 (n + 9223372036854775808)),
)
some_bytes (text t ∷ ks) some = omega (
  arith,
  length-append (escaped t ++ (0 ∷ [])) (cells_bytes ks),
  length-append (escaped t) (0 ∷ []),
)

pub row_key-greater :
    (tdef : TableDef) (es : List Entry) (rs : List Record)
    → 1 ≤ tdef.pkeys
    → Rows tdef es rs
    → All (λ f. Lt (be 4 tdef.prefix) f.key) es
row_key-greater tdef [] rs some rows = tt
row_key-greater tdef (e ∷ es) [] some rows = absurd rows
row_key-greater tdef (e ∷ es) (r ∷ rs) some ((ks, vs, h, key, val, it), rows) = (
  subst (Lt (be 4 tdef.prefix)) (sym key)
      (Lt-append (be 4 tdef.prefix) (cells_bytes ks) (some_bytes ks (omega (arith, h.keys)))),
  row_key-greater tdef es rs some rows,
)

pub greater-other : (a b : Bytes) → Lt a b → equal_bytes a b ≡ false
greater-other a b less = elim (Bool-cases (equal_bytes a b)) [
  | inr other ↦ other
  | inl same ↦ absurd (Lt-irrefl b (subst (λ k. Lt k b) (equal_bytes-eq a b same) less))
]

has_prefix-split :
    (key prefix : Bytes) → has_prefix key prefix ≡ true → (rest : Bytes) × (key ≡ prefix ++ rest)
unfolding has_prefix
has_prefix-split key [] h = (key, refl)
has_prefix-split [] (x ∷ prefix) h = cc
has_prefix-split (y ∷ key) (x ∷ prefix) h =
    let (rest, e) = has_prefix-split key prefix (ground arith) in (rest, ground (arith, e))

-- A key that does not begin with the prefix of the table.
abbrev pub Outside : TableDef → Bytes → Type 0
Outside tdef key = (rest : Bytes) → key ≢ be 4 tdef.prefix ++ rest

pub Outside-has_prefix :
    (tdef : TableDef) (key : Bytes) → Outside tdef key → has_prefix key (be 4 tdef.prefix) ≡ false
Outside-has_prefix tdef key h = elim (Bool-cases (has_prefix key (be 4 tdef.prefix))) [
  | inr other ↦ other
  | inl under ↦ let (rest, e) = has_prefix-split key (be 4 tdef.prefix) under in absurd (h rest e)
]

not_below : (a b : Bytes) → ¬ Lt (a ++ b) a
unfolding compare_bytes
not_below [] [] h = cc
not_below [] (x ∷ b) h = cc
not_below (x ∷ a) b h = not_below a b (ground arith)

-- Smaller keys do not begin with it.
pub Lt-Outside : (tdef : TableDef) (key : Bytes) → Lt key (be 4 tdef.prefix) → Outside tdef key
Lt-Outside tdef key less rest e =
    not_below (be 4 tdef.prefix) rest (subst (λ k. Lt k (be 4 tdef.prefix)) e less)

not_both : (a b : Bytes) → Lt a b → ¬ AtMost b a
not_both a b less (inl more) = Lt-irrefl a (Lt-trans a b a less more)
not_both a b less (inr same) = Lt-irrefl a (subst (Lt a) same less)

same_cons :
    {a b : Entry} {us vs : List Entry}
    → ◌≡◌ {A = List Entry} (a ∷ us) (b ∷ vs)
    → (a ≡ b) × (us ≡ vs)
same_cons e = (cc, cc)

-- The keys on the two sides of a prefix determine its place.
pub place_between :
    (key : Bytes) (before : List Entry) (e : Entry) (after lo hi : List Entry)
    → before ++ (e ∷ after) ≡ lo ++ hi
    → All (λ f. Lt f.key key) before
    → AtMost e.key key
    → All (λ f. Lt key f.key) after
    → All (λ f. Lt f.key key) lo
    → All (λ f. Lt key f.key) hi
    → (after ≡ hi) × Lt e.key key
place_between key [] e after [] hi split below most above lows highs =
    absurd (not_both key e.key (subst (λ l. All (λ f. Lt key f.key) l) (sym split) highs).0 most)
place_between key [] e after (l ∷ []) hi split below most above (low, _) highs =
    let (same, rest) = same_cons split in (rest, subst (λ (f : Entry). Lt f.key key) (sym same) low)
place_between key [] e after (l ∷ m ∷ lo) hi split below most above (low, (mid, lows)) highs =
    let (same, rest) = same_cons split in
    absurd (not_both key m.key (subst (λ l. All (λ f. Lt key f.key) l) rest above).0 (inl mid))
place_between key (x ∷ before) e after [] hi split (bx, below) most above lows highs =
    absurd
      (not_both key x.key (subst (λ l. All (λ f. Lt key f.key) l) (sym split) highs).0 (inl bx))
place_between key (x ∷ before) e after (l ∷ lo) hi split (bx, below) most above (low, lows) highs =
    place_between key before e after lo hi (same_cons split).1 below most above lows highs
