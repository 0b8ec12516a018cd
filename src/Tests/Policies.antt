-- ===== src/Tests/Policies.antt =====
-- The theorems on visibility, eviction and allocation, at concrete inputs.
use abdb.Base.{◌≡◌, true, false, none, List, [], ◌∷◌, arith, ok, ◌>>=◌}
use abdb.Visibility.{
  Txn, snapshot, is_visible, tuple_of, write_xmax, is_visible-sees, write_xmax-is_visible,
}
use abdb.Evictor.{LruKEvictor, new, find_victim}
use abdb.Evictor.Victim.{Chosen, find_victim-Chosen}
use abdb.Evictor.History.{Call, records, sets, removes, run, run-Chosen}
use abdb.Evictor.Unread.{find_victim_unread}
use abdb.Allocator.{
  SimpleAllocator, register_file, allocated, allocates, deallocates, Consecutive, next,
  allocated-Consecutive,
}
use abdb.Allocator

abbrev reader : Txn
reader = record { id = 7; isolation = snapshot }

is_visible-sees_example : is_visible (tuple_of 3 9 (1 ∷ [])) reader ≡ ok true
is_visible-sees_example = is_visible-sees 3 9 (1 ∷ []) (omega arith) (omega arith) reader

write_xmax-is_visible_example :
    (write_xmax (tuple_of 3 0 (1 ∷ [])) 5 >>= λ t. is_visible t reader) ≡ ok false
write_xmax-is_visible_example =
    write_xmax-is_visible 3 0 5 (1 ∷ []) reader (omega arith) (omega arith) (omega arith)
      (omega arith)

-- Two frames with two accesses each, and one with a single access.
abbrev pool : LruKEvictor
pool = record {
  k = 2;
  current_timestamp = 5;
  state =
      (10, record { history = 0 ∷ 4 ∷ []; evictable = true })
      ∷ (11, record { history = 1 ∷ 2 ∷ []; evictable = false })
      ∷ (12, record { history = 3 ∷ []; evictable = true })
      ∷ [];
}

find_victim-Chosen_example : Chosen pool (find_victim pool)
find_victim-Chosen_example =
    find_victim-Chosen pool
      (
        (omega arith, (omega arith, tt)),
        ((omega arith, (omega arith, tt)), ((omega arith, tt), tt)),
      )
      (omega arith)

abbrev calls : List Call
calls = records 10 ∷ records 11 ∷ sets 10 true ∷ records 10 ∷ records 10 ∷ removes 11 ∷ []

run-Chosen_example : Chosen (run (new 2) calls) (find_victim (run (new 2) calls))
run-Chosen_example = run-Chosen 2 calls (omega arith)

find_victim_unread_example :
    find_victim (run (new 2) (sets 10 true ∷ sets 11 true ∷ removes 11 ∷ [])) ≡ none
find_victim_unread_example = find_victim_unread 2 (sets 10 true ∷ sets 11 true ∷ removes 11 ∷ []) tt

abbrev files : SimpleAllocator
files = register_file Allocator.new 4 6

allocated-Consecutive_example : Consecutive 4 6 (
    allocated files (
      allocates 4
      ∷ allocates 5
      ∷ deallocates (record { file = 4; offset = 24576 })
      ∷ allocates 4
      ∷ []))
unfolding next register_file
allocated-Consecutive_example =
    allocated-Consecutive files 4
      (allocates 4
        ∷ allocates 5
        ∷ deallocates (record { file = 4; offset = 24576 })
        ∷ allocates 4
        ∷ [])
      (omega arith)
