-- ===== src/Node/Sorted.antt =====
-- Sorted lists of entries as finite maps: what `nodeLookupLE` finds in one, and what inserting and
-- deleting at the place that it finds do.
pub mod Maps
pub mod Segments
use atomix_db.Prelude.{
  ℕ, zero, suc, ◌+◌, ◌≡◌, refl, sym, ap, ◌∙◌, subst, ◌⊎◌, inl, inr, Bool, true, false, Option, none,
  some, List, [], ◌∷◌, ◌++◌, if◌then◌else◌, length, All, Ordering, arith,
}
use atomix_db.Bytes.{Bytes}
use atomix_db.Bytes.Order.{compare_bytes, equal_bytes}
use atomix_db.Bytes.Order.Laws.{
  Lt, Lt-trans, compare-cases, compare_bytes_refl, compare_bytes-flip, compare_bytes-gt,
}
use atomix_db.Node.Layout.{Entry}
use atomix_db.Node.Lookup.{count_le}

-- Keys strictly increase.
abbrev pub IsSorted : List Entry → Type 0
IsSorted [] = Unit
IsSorted (e ∷ es) = All (λ f. Lt e.key f.key) es × IsSorted es

abbrev pub AtMost : Bytes → Bytes → Type 0
AtMost k key = Lt k key ⊎ (k ≡ key)

-- The map that a list of entries stands for.
unfoldable pub find : Bytes → List Entry → Option Entry
find key [] = none
find key (e ∷ es) =
    let rest = find key es in
    elim (compare_bytes e.key key) [
      | Ordering.lt ↦ rest
      | Ordering.eq ↦ some e
      | Ordering.gt ↦ rest
    ]

unfoldable pub insert : Entry → List Entry → List Entry
insert new [] = new ∷ []
insert new (e ∷ es) =
    let rest = insert new es in
    elim (compare_bytes e.key new.key) [
      | Ordering.lt ↦ e ∷ rest
      | Ordering.eq ↦ new ∷ es
      | Ordering.gt ↦ new ∷ e ∷ es
    ]

unfoldable pub delete : Bytes → List Entry → List Entry
delete key [] = []
delete key (e ∷ es) =
    let rest = delete key es in
    elim (compare_bytes e.key key) [
      | Ordering.lt ↦ e ∷ rest
      | Ordering.eq ↦ es
      | Ordering.gt ↦ e ∷ es
    ]

-- Where `nodeLookupLE` stops in a sorted page: behind smaller keys, at one that is at most the key,
-- and in front of greater ones.
pub record Place (key : Bytes) (es : List Entry) (index : ℕ) : Type 0 where
  pub before : List Entry
  pub entry : Entry
  pub after : List Entry
  pub split : es ≡ before ++ (entry ∷ after)
  pub index_eq : index ≡ length before
  pub smaller : All (λ f. Lt f.key key) before
  pub at_most : AtMost entry.key key
  pub greater : All (λ f. Lt key f.key) after

pub All-Lt-trans :
    (k key : Bytes) (es : List Entry)
    → Lt k key
    → All (λ f. Lt key f.key) es
    → All (λ f. Lt k f.key) es
All-Lt-trans k key [] h hs = tt
All-Lt-trans k key (e ∷ es) h (he, hs) = (Lt-trans k key e.key h he, All-Lt-trans k key es h hs)

pub Lt-AtMost-trans : (a b c : Bytes) → Lt a b → AtMost b c → Lt a c
Lt-AtMost-trans a b c h (inl k) = Lt-trans a b c h k
Lt-AtMost-trans a b c h (inr e) = subst (λ x. Lt a x) e h

pub count_le-Place :
    (key : Bytes) (es : List Entry) (d : Entry)
    → IsSorted (d ∷ es)
    → AtMost d.key key
    → Place key (d ∷ es) (count_le key es)
unfolding count_le
count_le-Place key [] d s low = record {
  before = [];
  entry = d;
  after = [];
  split = refl;
  index_eq = refl;
  smaller = tt;
  at_most = low;
  greater = tt;
}
count_le-Place key (t ∷ ts) d (below, s) low = elim (compare-cases t.key key) [
  | inl lt ↦ rw (lt, count_le) (further (inl lt) (count_le-Place key ts t s (inl lt)))
  | inr (inl (eq, same)) ↦
      rw (eq, count_le) (further (inr same) (count_le-Place key ts t s (inr same)))
  | inr (inr gt) ↦
      rw (compare_bytes-flip key t.key gt, count_le)
        (record {
          before = [];
          entry = d;
          after = t ∷ ts;
          split = refl;
          index_eq = refl;
          smaller = tt;
          at_most = low;
          greater = (gt, All-Lt-trans key t.key ts gt s.0);
        })
]
  where
    further : {n : ℕ} → AtMost t.key key → Place key (t ∷ ts) n → Place key (d ∷ t ∷ ts) (suc n)
    further low' p = record {
      before = d ∷ p.before;
      entry = p.entry;
      after = p.after;
      split = ap (λ l. d ∷ l) p.split;
      index_eq = ap suc p.index_eq;
      smaller = (Lt-AtMost-trans d.key t.key key below.0 low', p.smaller);
      at_most = p.at_most;
      greater = p.greater;
    }
