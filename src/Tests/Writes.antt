-- ===== src/Tests/Writes.antt =====
-- The first row of a store that is mapped, set in the mode for new keys.
use atomix_db.Prelude.{◌≡◌, ◌⊎◌, refl, true, false, none, some, [], ok, arith}
use atomix_db.Transaction.{Writer}
use atomix_db.Updates.{Mode, Fault, InsertReq, set_with_mode}
use atomix_db.Updates.Stored.{tx_kvtx}
use atomix_db.Updates.First.{IsEmpty, refusal, HoldsPair, set_with_mode_first}
use atomix_db.Tests.Pages.{k, v, k-IsPair}
use atomix_db.Tests.Transactions.{in_memory, no_list, sound, sound-IsSound, length-chunk}

abbrev new_pair : InsertReq
new_pair = record {
  added = false;
  updated = false;
  old = none;
  key = k;
  value = v;
  mode = Mode.insert_only;
}

abbrev empty_tree : Writer
empty_tree = record {
  kv = record in_memory { locked = true };
  tx = record { version = 4; root = 0; n_chunks = 1; free = no_list; nappend = 0; updates = [] };
}

empty_tree-IsEmpty : IsEmpty empty_tree
empty_tree-IsEmpty = record {
  no_root = refl;
  no_updates = refl;
  opened = record { no_free = refl; no_nodes = refl; master_page = omega arith };
  all_mapped = omega arith;
  room = omega arith;
  mapped = omega (arith, length-chunk);
  pages_fit = omega arith;
}

set_with_mode_first_example :
    ((f : Fault) × (refusal new_pair.mode ≡ some f)
      × (set_with_mode (tx_kvtx 1 0 sound) new_pair empty_tree
          ≡ ok ((false, some f), new_pair, empty_tree)))
    ⊎ ((req' : InsertReq) × (w' : Writer) × (refusal new_pair.mode ≡ none)
        × (set_with_mode (tx_kvtx 1 0 sound) new_pair empty_tree ≡ ok ((true, none), req', w'))
        × (w'.kv.tree_root ≡ empty_tree.kv.tree_root)
        × HoldsPair 0 0 sound k v w')
set_with_mode_first_example =
    set_with_mode_first 0 0 sound sound-IsSound empty_tree empty_tree-IsEmpty new_pair k-IsPair
