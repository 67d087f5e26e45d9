-- ===== src/Table/Index.antt =====
-- `isPrefix` and `findIndex` of database/indexes.go: which index serves a query.
use atomix_db.Prelude.{
  ℕ, ◌+◌, ◌≤◌, ◌≡◌, refl, ◌⊎◌, inl, inr, true, false, ◌&&◌, Option, none, some, List, [], ◌∷◌, ◌++◌,
  ok, ltb, if◌then◌else◌, length, get_elem?, take, length-append, append_assoc, append-nil,
  get_elem?-append_left, get_elem?-append_len, All, All-append, All-map, Bool-cases, le→leb, arith,
}
use atomix_db.Bytes.Order.Laws.{equal_bytes_refl, equal_bytes-eq}
use atomix_db.Table.{
  Name, TableDef, Answer, answer, refuse, no_index, IndexChoice, primary, secondary, upto,
  is_prefix, wins, find_secondary, find_index,
}

-- `isPrefix` holds exactly of a list and what it begins with.
pub is_prefix-append : (short rest : List Name) → is_prefix (short ++ rest) short ≡ true
unfolding is_prefix
is_prefix-append [] [] = refl
is_prefix-append [] (x ∷ rest) = refl
is_prefix-append (c ∷ short) rest = rw (equal_bytes_refl c) (is_prefix-append short rest)

pub is_prefix-split :
    (long short : List Name)
    → is_prefix long short ≡ true
    → (rest : List Name) × (long ≡ short ++ rest)
unfolding is_prefix
is_prefix-split [] [] h = ([], refl)
is_prefix-split (l ∷ long) [] h = (l ∷ long, refl)
is_prefix-split [] (c ∷ short) h = cc
is_prefix-split (l ∷ long) (c ∷ short) h =
    let (rest, e) = is_prefix-split long short (ground arith) in
    (rest, ground (arith, equal_bytes-eq l c))

-- What the loop knows of its winner after the indexes `done`.
abbrev Best : List Name → List (List Name) → Option (ℕ × ℕ) → Type 0
Best keys done none = All (λ x. is_prefix x keys ≡ false) done
Best keys done (some (w, size)) =
    (index : List Name) × (get_elem? done w ≡ some index)
    × (is_prefix index keys ≡ true)
    × (size ≡ length index)
    × All (λ x. is_prefix x keys ≡ true → size ≤ length x) done

shorter : (x i size : ℕ) → ltb i size ≡ true → size ≤ x → i ≤ x
shorter x i size a b = ground arith

longer : (i size : ℕ) → ltb i size ≡ false → size ≤ i
longer i size a = ground arith

keep-Best :
    (keys : List Name) (done : List (List Name)) (index : List Name) (winner : Option (ℕ × ℕ))
    → Best keys done winner
    → Best keys (done ++ (index ∷ [])) (
        if is_prefix index keys && wins winner (length index)
        then some (length done, length index)
        else winner)
keep-Best keys done index none h = elim (Bool-cases (is_prefix index keys)) [
  | inl suits ↦ rw suits (
      unfold wins in
      (
        index,
        get_elem?-append_len done index [],
        suits,
        refl,
        All-append _ done (index ∷ []) (All-map _ _ done (λ x no hx. absurd (clash x no hx)) h)
            (λ _. omega arith, tt),
      ))
  | inr other ↦ rw other (All-append _ done (index ∷ []) h (other, tt))
]
  where
    clash : (x : List Name) → is_prefix x keys ≡ false → is_prefix x keys ≡ true → ⊥
    clash x a b = cc
keep-Best keys done index (some (w, size)) (best, at_w, suits_w, size_w, least) =
    elim (Bool-cases (is_prefix index keys)) [
      | inl suits ↦ rw suits (by_size suits (Bool-cases (ltb (length index) size)))
      | inr other ↦ rw other (
        best,
        get_elem?-append_left done (index ∷ []) w at_w,
        suits_w,
        size_w,
        All-append _ done (index ∷ []) least (λ hx. absurd (clash other hx), tt),
      )
    ]
  where
    clash : is_prefix index keys ≡ false → is_prefix index keys ≡ true → ⊥
    clash a b = cc

    by_size :
        is_prefix index keys ≡ true
        → (ltb (length index) size ≡ true) ⊎ (ltb (length index) size ≡ false)
        → Best keys (done ++ (index ∷ [])) (
            if wins (some (w, size)) (length index)
            then some (length done, length index)
            else some (w, size))
    by_size suits (inl less) =
        unfold wins in
        rw less (
          index,
          get_elem?-append_len done index [],
          suits,
          refl,
          All-append _ done (index ∷ [])
              (All-map _ _ done (λ x hx s. shorter (length x) (length index) size less (hx s))
                least)
              (λ _. omega arith, tt),
        )
    by_size suits (inr more) =
        unfold wins in
        rw more (
          best,
          get_elem?-append_left done (index ∷ []) w at_w,
          suits_w,
          size_w,
          All-append _ done (index ∷ []) least (λ _. longer (length index) size more, tt),
        )

find_secondary_lem :
    (keys : List Name) (todo done : List (List Name)) (winner : Option (ℕ × ℕ)) (i : ℕ)
    → i ≡ length done
    → Best keys done winner
    → Best keys (done ++ todo) (find_secondary i todo keys winner)
find_secondary_lem keys [] done winner i e h = unfold find_secondary in rw append-nil h
find_secondary_lem keys (index ∷ todo) done winner i e h =
    let winner' =
      if is_prefix index keys && wins winner (length index)
      then some (i, length index)
      else winner in
    let kept : Best keys (done ++ (index ∷ [])) winner' =
      rw e (keep-Best keys done index winner h) in
    let rest : Best keys ((done ++ (index ∷ [])) ++ todo)
        (find_secondary (i + 1) todo keys winner') =
      find_secondary_lem keys todo (done ++ (index ∷ [])) winner' (i + 1)
        (omega (arith, length-append done (index ∷ []))) kept in
    step (rw append_assoc at rest)
  where
    step :
        Best keys (done ++ (index ∷ todo)) (
          find_secondary (i + 1) todo keys (
            if is_prefix index keys && wins winner (length index)
            then some (i, length index)
            else winner))
        → Best keys (done ++ (index ∷ todo)) (find_secondary i (index ∷ todo) keys winner)
    step h = unfold find_secondary in h

-- Which index `findIndex` may answer for a list of columns.
abbrev pub Serves : TableDef → List Name → Answer IndexChoice → Type 0
Serves tdef keys (answer primary) = is_prefix (take tdef.pkeys tdef.cols) keys ≡ true
Serves tdef keys (answer (secondary w)) =
    (is_prefix (take tdef.pkeys tdef.cols) keys ≡ false)
    × (index : List Name) × (get_elem? tdef.indexes w ≡ some index)
    × (is_prefix index keys ≡ true)
    × All (λ x. is_prefix x keys ≡ true → length index ≤ length x) tdef.indexes
Serves tdef keys (refuse r) =
    (r ≡ no_index)
    × (is_prefix (take tdef.pkeys tdef.cols) keys ≡ false)
    × All (λ x. is_prefix x keys ≡ false) tdef.indexes

-- `findIndex` answers on every table whose primary key has no more columns than the table. It takes
-- the primary key where that begins with the columns asked for, else an index that begins with them
-- and is as short as any that does, and refuses only where none does.
pub find_index_lem :
    (tdef : TableDef) (keys : List Name)
    → tdef.pkeys ≤ length tdef.cols
    → (a : Answer IndexChoice) × (find_index tdef keys ≡ ok a) × Serves tdef keys a
unfolding find_index upto
find_index_lem tdef keys h =
    let pk = take tdef.pkeys tdef.cols in
    rw (le→leb tdef.pkeys (length tdef.cols) h) (elim (Bool-cases (is_prefix pk keys)) [
      | inl first ↦ (answer primary, rw first refl, first)
      | inr other ↦ rw other (
          by_winner other (find_secondary 0 tdef.indexes keys none)
            (find_secondary_lem keys tdef.indexes [] none 0 refl tt))
    ])
  where
    by_winner :
        is_prefix (take tdef.pkeys tdef.cols) keys ≡ false
        → (w : Option (ℕ × ℕ)) → Best keys tdef.indexes w
        → (a : Answer IndexChoice) × ((elim w [
          | none ↦ ok (refuse no_index)
          | some (i, size) ↦ ok (answer (secondary i))
        ])
            ≡ ok a)
          × Serves tdef keys a
    by_winner other none best = (refuse no_index, refl, (refl, other, best))
    by_winner other (some (i, size)) (index, here, suits, same, least) = (
      answer (secondary i),
      refl,
      (
        other,
        index,
        here,
        suits,
        All-map _ _ tdef.indexes (λ x hx s. omega (arith, same, hx s)) least,
      ),
    )
