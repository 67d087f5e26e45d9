-- ===== src/Tree/Kids.antt =====
-- The kids of an inner node of database/b_tree.go and the entries below them: where a key can stand.
use atomix_db.Prelude.{
  ℕ, ◌≡◌, refl, sym, ap, ◌∙◌, subst, inl, inr, List, [], ◌∷◌, ◌++◌, All, append_assoc,
  All-append_left, All-append_right,
}
use atomix_db.Bytes.{Bytes}
use atomix_db.Bytes.Order.{compare_bytes}
use atomix_db.Bytes.Order.Laws.{Lt}
use atomix_db.Node.Layout.{Entry}
use atomix_db.Node.Sorted.{IsSorted, AtMost, Place, find, All-Lt-trans}
use atomix_db.Node.Sorted.Segments.{IsSorted-append_left, IsSorted-append_right, find_segment}

-- The entries begin with one whose key is `k`.
pub record Begins (k : Bytes) (es : List Entry) : Type 0 where
  pub first : Entry
  pub others : List Entry
  pub entries : es ≡ first ∷ others
  pub first_key : first.key ≡ k

same_first : (e f : Entry) (es fs : List Entry) → e ∷ es ≡ f ∷ fs → e.key ≡ f.key
same_first e f es fs h = let same : e ≡ f = cc in ap (λ (x : Entry). x.key) same

pub empty-AtMost : (key : Bytes) → AtMost [] key
unfolding compare_bytes
empty-AtMost [] = inr refl
empty-AtMost (x ∷ key) = inl refl

-- The kids of a node: each has a page that satisfies `P` with its part of the entries, and the key of
-- the kid is that of its first entry.
abbrev pub Kids : (ℕ → List Entry → Type 0) → List Entry → List Entry → Type 0
Kids P [] es = es ≡ []
Kids P (k ∷ ks) es =
    (xs ys : List Entry) × (es ≡ xs ++ ys) × P k.ptr xs × Begins k.key xs × Kids P ks ys

module _ (P : ℕ → List Entry → Type 0) where
  -- What holds of the key of each entry holds of the key of each kid.
  Kids-All :
      (Q : Bytes → Type 0) (ks es : List Entry)
      → Kids P ks es
      → All (λ e. Q e.key) es
      → All (λ k. Q k.key) ks
  Kids-All Q [] es h all = tt
  Kids-All Q (k ∷ ks) es (xs, ys, split, page, begins, rest) all =
      let both : All (λ e. Q e.key) (xs ++ ys) = subst (λ l. All (λ e. Q e.key) l) split all in
      let one : All (λ e. Q e.key) (begins.first ∷ begins.others) =
        subst (λ l. All (λ e. Q e.key) l) begins.entries (All-append_left _ xs ys both) in
      (subst Q begins.first_key one.0, Kids-All Q ks ys rest (All-append_right _ xs ys both))

  pub Kids-IsSorted : (ks es : List Entry) → Kids P ks es → IsSorted es → IsSorted ks
  Kids-IsSorted [] es h s = tt
  Kids-IsSorted (k ∷ ks) es (xs, ys, split, page, begins, rest) s =
      let both : IsSorted ((begins.first ∷ begins.others) ++ ys) =
        subst (λ l. IsSorted (l ++ ys)) begins.entries (subst IsSorted split s) in
      (
        Kids-All (λ j. Lt k.key j) ks ys rest
            (subst (λ j. All (λ e. Lt j e.key) ys) begins.first_key
              (All-append_right _ begins.others ys both.0)),
        Kids-IsSorted ks ys rest (IsSorted-append_right (begins.first ∷ begins.others) ys both),
      )

  -- If the keys of all kids are greater, so are all entries.
  Kids-greater :
      (key : Bytes) (ks es : List Entry)
      → Kids P ks es
      → IsSorted es
      → All (λ k. Lt key k.key) ks
      → All (λ e. Lt key e.key) es
  Kids-greater key [] es h s all = rw h tt
  Kids-greater key (k ∷ ks) es (xs, ys, split, page, begins, rest) s (hk, hks) =
      let first : Lt key begins.first.key = subst (λ j. Lt key j) (sym begins.first_key) hk in
      let whole : es ≡ begins.first ∷ (begins.others ++ ys) =
        split ∙ ap (λ l. l ++ ys) begins.entries in
      let sorted : IsSorted (begins.first ∷ (begins.others ++ ys)) = subst IsSorted whole s in
      subst (λ l. All (λ e. Lt key e.key) l) (sym whole)
        (first, All-Lt-trans key begins.first.key (begins.others ++ ys) first sorted.0)

  -- The segment of one kid.
  pub Kids-split :
      (before : List Entry) (k : Entry) (after es : List Entry)
      → Kids P (before ++ (k ∷ after)) es
      → (xs seg ys : List Entry) × (es ≡ xs ++ (seg ++ ys))
        × P k.ptr seg
        × Begins k.key seg
        × Kids P after ys
  Kids-split [] k after es (xs, ys, split, page, begins, rest) =
      ([], xs, ys, split, page, begins, rest)
  Kids-split (b ∷ before) k after es (xs, ys, split, page, begins, rest) =
      let (xs', seg, ys', split', page', begins', rest') = Kids-split before k after ys rest in
      (
        xs ++ xs',
        seg,
        ys',
        split ∙ ap (λ l. xs ++ l) split' ∙ sym (append_assoc xs xs' (seg ++ ys')),
        page',
        begins',
        rest',
      )

  -- The first kid has the first key.
  pub Kids-first :
      {key : Bytes} (k : Entry) (ks es : List Entry)
      → Kids P (k ∷ ks) es
      → (b : Begins key es) → k.key ≡ b.first.key
  Kids-first k ks es (xs, ys, split, page, begins, rest) b =
      sym begins.first_key
      ∙ same_first begins.first b.first (begins.others ++ ys) b.others
          (sym (split ∙ ap (λ l. l ++ ys) begins.entries) ∙ b.entries)

  -- A key is found among the entries exactly where it is found in the kid that the lookup chooses.
  pub find-Kids :
      (key : Bytes) (ks es : List Entry) {n : ℕ}
      → Kids P ks es
      → IsSorted es
      → (p : Place key ks n)
      → (seg : List Entry) × P p.entry.ptr seg
        × Begins p.entry.key seg
        × IsSorted seg
        × (find key es ≡ find key seg)
  find-Kids key ks es kids s p =
      let (xs, seg, ys, split, page, begins, rest) =
        Kids-split p.before p.entry p.after es (subst (λ l. Kids P l es) p.split kids) in
      let whole : es ≡ xs ++ ((begins.first ∷ begins.others) ++ ys) =
        split ∙ ap (λ l. xs ++ (l ++ ys)) begins.entries in
      let sorted : IsSorted (xs ++ ((begins.first ∷ begins.others) ++ ys)) =
        subst IsSorted whole s in
      let tail = IsSorted-append_right xs ((begins.first ∷ begins.others) ++ ys) sorted in
      let one : IsSorted (begins.first ∷ begins.others) =
        IsSorted-append_left (begins.first ∷ begins.others) ys tail in
      (
        seg,
        page,
        begins,
        subst IsSorted (sym begins.entries) one,
        ap (find key) whole
            ∙ find_segment key xs begins.first begins.others ys sorted
                (subst (λ j. AtMost j key) (sym begins.first_key) p.at_most)
                (Kids-greater key p.after ys rest
                  (IsSorted-append_right (begins.first ∷ begins.others) ys tail) p.greater)
            ∙ ap (find key) (sym begins.entries),
      )
