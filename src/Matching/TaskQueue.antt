-- ===== src/Matching/TaskQueue.antt =====
-- matching/internal/adapters/redis/task_queue.go: lists of Redis. LPUSH adds at the head and BRPOP
-- takes from the tail.
use mini_workflow.Prelude.{String, Option, none, some, List, [], ◌∷◌, str_eq, if◌then◌else◌}
use mini_workflow.Result.{Result, ok, err}
use mini_workflow.Codec.{Bytes}

abbrev pub Queues : Type 0
Queues = String → List Bytes

abbrev pub set_list : String → List Bytes → Queues → Queues
set_list key xs q k = if str_eq key k then xs else q k

-- All but the tail, and the tail.
unfoldable pub split_last : List Bytes → Option (List Bytes × Bytes)
split_last [] = none
split_last (x ∷ xs) = elim (split_last xs) [
  | none ↦ some ([], x)
  | some (rest, last) ↦ some (x ∷ rest, last)
]

unfoldable pub push : Option String → String → Bytes → Queues → Result String (Unit {0}) × Queues
push (some e) key payload q = (err e, q)
push none key payload q = (ok tt, set_list key (payload ∷ q key) q)

-- `none` is the end of the waiting time with no task.
abbrev pub popped :
    String → Queues → Option (List Bytes × Bytes) → Result String (Option Bytes) × Queues
popped key q none = (ok none, q)
popped key q (some (rest, last)) = (ok (some last), set_list key rest q)

unfoldable pub block_pop : Option String → String → Queues → Result String (Option Bytes) × Queues
block_pop (some e) key q = (err e, q)
block_pop none key q = popped key q (split_last (q key))
