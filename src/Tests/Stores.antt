-- ===== src/Tests/Stores.antt =====
-- The memory store at concrete calls.
use one_auth.Base.{ℕ, ℤ, Text, ◌≡◌, refl, none, some, List, [], ◌∷◌, str, text_eq, pos, arith}
use one_auth.Model.Payload.{Payload, number}
use one_auth.Store.Memory.{MemoryStore, new_memory_store, get, set, gc, find, put, remove}
use one_auth.Store.Memory.Laws.{memory_ops, Call, sets, incrs, run, get-gc-run}

abbrev calls : List Call
calls = sets 5 (str "a") (number 1) (pos 10) ∷ incrs 7 (str "n") (pos 3) ∷ []

get-gc-run_example :
    get 20 (str "a") (gc 12 (run calls new_memory_store))
    ≡ get 20 (str "a") (run calls new_memory_store)
get-gc-run_example = get-gc-run calls 12 20 (str "a") (omega arith)

read_in_time :
    get 15 (str "a") (set 5 (str "a") (number 1) (pos 10) new_memory_store) ≡ some (number 1)
unfolding get set find put remove text_eq
read_in_time = refl

read_too_late : get 16 (str "a") (set 5 (str "a") (number 1) (pos 10) new_memory_store) ≡ none
unfolding get set find put remove text_eq
read_too_late = refl

-- The memory store takes every write.
pub memory_writes :
    (now : ℕ) (k : Text) (v : Payload) (ttl : ℤ) (s : MemoryStore)
    → (t : MemoryStore) × (memory_ops.set now k v ttl s ≡ some t)
memory_writes now k v ttl s = (_, refl)
