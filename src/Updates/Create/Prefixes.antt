-- ===== src/Updates/Create/Prefixes.antt =====
-- The prefixes that `TableNew` of database/updates.go gives to a table and its indexes.
use atomix_db.Prelude.{
  ℕ, ◌+◌, ◌<◌, ◌≤◌, ◌≡◌, refl, sym, ap, ◌∙◌, inl, inr, true, false, none, some, List, [], ◌∷◌, ltb,
  ◌==◌, if◌then◌else◌, length, arith, lt→ltb, le→ltb_false, ne→==_false, Bool-cases,
}
use mathlib.Core.Bool.{false≢true}
use atomix_db.Table.{Name, TableDef}
use atomix_db.Updates.Create.{u32, index_prefixes, allocate}

-- As many numbers as the list has elements, from `n` on.
abbrev pub count_from : ℕ → List (List Name) → List ℕ
count_from n [] = []
count_from n (x ∷ xs) = n ∷ count_from (n + 1) xs

length-count_from : (n : ℕ) (xs : List (List Name)) → length (count_from n xs) ≡ length xs
length-count_from n [] = refl
length-count_from n (x ∷ xs) = omega (arith, length-count_from (n + 1) xs)

index_prefixes_lem :
    (prefix i : ℕ) (indexes : List (List Name))
    → prefix + 1 + i + length indexes ≤ 4294967296
    → index_prefixes prefix i indexes ≡ some (count_from (prefix + 1 + i) indexes)
unfolding index_prefixes
index_prefixes_lem prefix i [] fits = refl
index_prefixes_lem prefix i (index ∷ indexes) fits =
    let small : u32 (prefix + 1 + i) ≡ prefix + 1 + i = omega arith in
    rw
      (
        small,
        le→ltb_false (prefix + 1 + i) prefix (omega arith),
        index_prefixes_lem prefix (i + 1) indexes (omega arith),
      )
      (ap (λ n. some (u32 (prefix + 1 + i) ∷ count_from n indexes)) (omega arith)
        ∙ ap (λ n. some (n ∷ count_from (prefix + 1 + i + 1) indexes)) small)

-- One of the prefixes is too large.
index_prefixes_overflow :
    (prefix i : ℕ) (indexes : List (List Name))
    → prefix + i < 4294967296
    → i + length indexes < 4294967295
    → 4294967296 < prefix + 1 + i + length indexes
    → index_prefixes prefix i indexes ≡ none
unfolding index_prefixes
index_prefixes_overflow prefix i [] fits few large = absurd (omega arith)
index_prefixes_overflow prefix i (index ∷ indexes) fits few large =
    elim (Bool-cases (ltb (u32 (prefix + 1 + i)) prefix)) [
      | inl wrapped ↦ rw wrapped refl
      | inr other ↦
          let fits' : prefix + (i + 1) < 4294967296 = not_wrapped other in
          rw
            (
              other,
              index_prefixes_overflow prefix (i + 1) indexes fits' (omega arith) (omega arith),
            )
            refl
    ]
  where
    not_wrapped : ltb (u32 (prefix + 1 + i)) prefix ≡ false → prefix + (i + 1) < 4294967296
    not_wrapped h = elim (Bool-cases (ltb (prefix + (i + 1)) 4294967296)) [
      | inl small ↦ ground arith
      | inr large ↦
          absurd (false≢true (sym h ∙ lt→ltb (u32 (prefix + 1 + i)) prefix (wraps (ground arith))))
    ]
      where
        wraps : 4294967296 ≤ prefix + (i + 1) → u32 (prefix + 1 + i) < prefix
        wraps large = omega arith

same_choice :
    (prefix : ℕ) (given : List ℕ) (indexes : List (List Name))
    → (indexes ≡ [] → given ≡ [])
    → (if length indexes == 0 then some given else index_prefixes prefix 0 indexes)
      ≡ index_prefixes prefix 0 indexes
unfolding index_prefixes
same_choice prefix given [] h = ap some (h refl)
same_choice prefix given (index ∷ indexes) h =
    rw (ne→==_false (length (index ∷ indexes)) 0 (omega arith)) refl

size_of : (n : ℕ) (xs : List (List Name)) → u32 (length (count_from n xs)) ≡ u32 (length xs)
size_of n xs = ap u32 (length-count_from n xs)

-- The prefixes of a table whose prefix fits 32 bits, with fewer than 2 ^ 32 - 1 indexes, are those of
-- the table and the numbers behind it, one for each index, and the next prefix is behind them all; where
-- that is not below 2 ^ 32, `TableNew` refuses the table.
pub allocate_lem :
    (tdef : TableDef)
    → tdef.prefix < 4294967296
    → length tdef.indexes < 4294967295
    → (tdef.indexes ≡ [] → tdef.index_prefix ≡ [])
    → allocate tdef ≡ (
        if ltb (tdef.prefix + 1 + length tdef.indexes) 4294967296
        then some (
          record tdef { index_prefix = count_from (tdef.prefix + 1) tdef.indexes },
          tdef.prefix + 1 + length tdef.indexes,
        )
        else none)
unfolding allocate
allocate_lem tdef fits few none_yet =
    let n = length tdef.indexes in
    elim (Bool-cases (ltb (tdef.prefix + 1 + n) 4294967296)) [
      | inl enough ↦
          let below : tdef.prefix + 1 + n < 4294967296 = ground arith in
          rw
            (
              allocate,
              same_choice tdef.prefix tdef.index_prefix tdef.indexes none_yet,
              index_prefixes_lem tdef.prefix 0 tdef.indexes (omega arith),
              size_of (tdef.prefix + 1 + 0) tdef.indexes,
              next_fits below,
              le→ltb_false (tdef.prefix + 1 + n) tdef.prefix (omega arith),
              enough,
            )
            (ap
              (λ m.
                some
                  (record tdef { index_prefix = count_from m tdef.indexes }, tdef.prefix + 1 + n))
              (omega arith))
      | inr over ↦ elim (Bool-cases (ltb 4294967296 (tdef.prefix + 1 + n))) [
        | inl large ↦
            rw
              (
                allocate,
                same_choice tdef.prefix tdef.index_prefix tdef.indexes none_yet,
                index_prefixes_overflow tdef.prefix 0 tdef.indexes (omega arith) (omega arith)
                    (less_of large),
                over,
              )
              refl
        | inr exact ↦
            let all : tdef.prefix + 1 + n ≡ 4294967296 = exactly over exact in
            rw
              (
                allocate,
                same_choice tdef.prefix tdef.index_prefix tdef.indexes none_yet,
                index_prefixes_lem tdef.prefix 0 tdef.indexes (omega arith),
                size_of (tdef.prefix + 1 + 0) tdef.indexes,
                next_wraps all,
                lt→ltb 0 tdef.prefix (omega arith),
                over,
              )
              refl
      ]
    ]
  where
    next_fits :
        tdef.prefix + 1 + length tdef.indexes < 4294967296
        → u32 (tdef.prefix + u32 (1 + u32 (length tdef.indexes)))
          ≡ tdef.prefix + 1 + length tdef.indexes
    next_fits below = omega arith

    next_wraps :
        tdef.prefix + 1 + length tdef.indexes ≡ 4294967296
        → u32 (tdef.prefix + u32 (1 + u32 (length tdef.indexes))) ≡ 0
    next_wraps all = omega arith

    less_of :
        ltb 4294967296 (tdef.prefix + 1 + length tdef.indexes) ≡ true
        → 4294967296 < tdef.prefix + 1 + 0 + length tdef.indexes
    less_of h = ground arith

    exactly :
        ltb (tdef.prefix + 1 + length tdef.indexes) 4294967296 ≡ false
        → ltb 4294967296 (tdef.prefix + 1 + length tdef.indexes) ≡ false
        → tdef.prefix + 1 + length tdef.indexes ≡ 4294967296
    exactly a b = ground arith
