-- ===== src/Tree/Iterator.antt =====
-- BIter of database/range.go, and the range of a Scanner over it.
pub mod AtLeaf
use atomix_db.Prelude.{
  ℕ, zero, suc, ◌+◌, ◌-◌, Bool, true, false, ◌&&◌, not, List, [], ◌∷◌, ◌++◌, Run, ok, panic,
  out_of_fuel, ◌>>=◌, ltb, ◌==◌, if◌then◌else◌, at, put_at, length, Ordering,
}
use atomix_db.Bytes.{Bytes, u16}
use atomix_db.Bytes.Order.{compare_bytes, equal_bytes}
use atomix_db.Pager.{Pager}
use atomix_db.Node.{
  BNode, bnode_inode, b_node_type, n_keys, get_ptr, get_key, get_val, node_lookup_le,
}

-- The constants CMP_GE to CMP_LE.
pub data Cmp : Type 0 where
  cmp_ge cmp_gt cmp_lt cmp_le : Cmp

-- Nodes from the root to the leaf, and an index into each.
pub record BIter : Type 0 where
  pub path : List BNode
  pub pos : List ℕ

unfoldable pub cmp_ok : Bytes → Cmp → Bytes → Bool
cmp_ok key Cmp.cmp_ge ref = elim (compare_bytes key ref) [ Ordering.lt ↦ false | _ ↦ true ]
cmp_ok key Cmp.cmp_gt ref = elim (compare_bytes key ref) [ Ordering.gt ↦ true | _ ↦ false ]
cmp_ok key Cmp.cmp_lt ref = elim (compare_bytes key ref) [ Ordering.lt ↦ true | _ ↦ false ]
cmp_ok key Cmp.cmp_le ref = elim (compare_bytes key ref) [ Ordering.gt ↦ false | _ ↦ true ]

-- Whether cmp > 0, and whether cmp == CMP_LE.
abbrev pub forward : Cmp → Bool
forward Cmp.cmp_ge = true
forward Cmp.cmp_gt = true
forward Cmp.cmp_lt = false
forward Cmp.cmp_le = false

abbrev is_le : Cmp → Bool
is_le Cmp.cmp_le = true
is_le _ = false

-- `BIter.Deref`
unfoldable pub deref : BIter → Run (Bytes × Bytes)
deref iter = do
  current_node ← at iter.path (length iter.path - 1)
  idx ← at iter.pos (length iter.pos - 1)
  key ← get_key current_node idx
  val ← get_val current_node idx
  ok (key, val)

-- `BIter.Valid`
unfoldable pub valid : BIter → Run Bool
valid iter = if length iter.path == 0 then ok false else (do
  last_node ← at iter.path (length iter.path - 1)
  if length last_node == 0
      then ok false
      else (do idx ← at iter.pos (length iter.pos - 1); n ← n_keys last_node; ok (ltb idx n)))

module _ (pager : Pager) where
  open pager use {State, get}

  -- The end of `iterPrev` and `iterNext`: the kid at the level below, and an index into it.
  unfoldable pub enter_kid : (BNode → Run ℕ) → BIter → ℕ → State → Run BIter
  enter_kid first iter level s =
      if ltb (level + 1) (length iter.pos)
      then (do
        node ← at iter.path level
        idx ← at iter.pos level
        ptr ← get_ptr node idx
        kid ← get ptr s
        path ← put_at iter.path (level + 1) kid
        kid_idx ← first kid
        pos ← put_at iter.pos (level + 1) kid_idx
        ok (record { path = path; pos = pos }))
      else ok iter

  -- kid.nKeys() - 1
  unfoldable pub last_idx : BNode → Run ℕ
  last_idx kid = n_keys kid >>= λ n. ok (u16 (n + 65535))

  -- iter.pos[level] = idx
  unfoldable pub move_to : BIter → ℕ → ℕ → Run BIter
  move_to iter level idx =
      put_at iter.pos level idx >>= λ pos. ok (record { path = iter.path; pos = pos })

  unfoldable pub iter_prev : BIter → ℕ → State → Run BIter
  unfolding enter_kid last_idx move_to
  iter_prev iter zero s = do
    idx ← at iter.pos 0
    if ltb 0 idx
        then (move_to iter 0 (idx - 1) >>= λ moved. enter_kid last_idx moved 0 s)
        else ok iter
  iter_prev iter (suc level) s = do
    idx ← at iter.pos (suc level)
    moved ←
        (let above = iter_prev iter level s in
          if ltb 0 idx then move_to iter (suc level) (idx - 1) else above)
    enter_kid last_idx moved (suc level) s

  -- `iterNext` goes down: `below` counts the levels below, `len(iter.path)-1 - level`.
  unfoldable pub iter_next : ℕ → BIter → ℕ → State → Run BIter
  unfolding enter_kid move_to
  iter_next zero iter level s = do
    current_node ← at iter.path level
    idx ← at iter.pos level
    n ← n_keys current_node
    if ltb idx (u16 (n + 65535))
        then (move_to iter level (idx + 1) >>= λ moved. enter_kid (λ kid. ok 0) moved level s)
        else ok iter
  iter_next (suc below) iter level s = do
    current_node ← at iter.path level
    idx ← at iter.pos level
    n ← n_keys current_node
    moved ←
        (let under = iter_next below iter (level + 1) s in
          if ltb idx (u16 (n + 65535)) then move_to iter level (idx + 1) else under)
    enter_kid (λ kid. ok 0) moved level s

  -- `BIter.Prev` and `BIter.Next`; an empty path panics in both, at its first index.
  unfoldable pub prev : BIter → State → Run BIter
  unfolding iter_prev
  prev iter s = if length iter.path == 0 then panic else iter_prev iter (length iter.path - 1) s

  unfoldable pub next : BIter → State → Run BIter
  unfolding iter_next
  next iter s = iter_next (length iter.path - 1) iter 0 s

  -- The loop of `SeekLE`, on fuel.
  unfoldable pub seek_loop : ℕ → ℕ → Bytes → BIter → State → Run BIter
  seek_loop zero ptr key iter s = if ptr == 0 then ok iter else out_of_fuel
  seek_loop (suc fuel) ptr key iter s = if ptr == 0 then ok iter else (do
    node ← get ptr s
    idx ← node_lookup_le node key
    btype ← b_node_type node
    below ← if btype == bnode_inode then get_ptr node idx else ok 0
    seek_loop fuel below key
        (record { path = iter.path ++ (node ∷ []); pos = iter.pos ++ (idx ∷ []) }) s)

  unfoldable pub seek_le : ℕ → ℕ → Bytes → State → Run BIter
  unfolding seek_loop
  seek_le fuel root key s = seek_loop fuel root key (record { path = []; pos = [] }) s

  unfoldable pub seek : ℕ → ℕ → Bytes → Cmp → State → Run BIter
  unfolding seek_le prev next
  seek fuel root key cmp s = do
    iter ← seek_le fuel root key s
    is_valid ← if is_le cmp then ok false else valid iter
    if is_valid
        then (do
          (cur, _) ← deref iter
          if cmp_ok cur cmp key then ok iter else if forward cmp then next iter s else prev iter s)
        else ok iter

  -- `Scanner.Valid` and `Scanner.Next`, by the encoded ends of the range.
  unfoldable pub scanner_valid : Bytes → Bytes → BIter → Run Bool
  scanner_valid key_start key_end iter = do
    is_valid ← valid iter
    if is_valid
        then (do
          (key, _) ← deref iter
          ok (cmp_ok key Cmp.cmp_le key_end && cmp_ok key Cmp.cmp_ge key_start))
        else ok false

  unfoldable pub scanner_next : BIter → State → Run BIter
  unfolding next
  scanner_next iter s = do
    is_valid ← valid iter
    if is_valid
        then (do
          (current_key, _) ← deref iter
          moved ← next iter s
          still_valid ← valid moved
          if still_valid
              then (do
                (next_key, _) ← deref moved
                if equal_bytes current_key next_key
                    then ok (record { path = []; pos = [] })
                    else ok moved)
              else ok moved)
        else ok iter
