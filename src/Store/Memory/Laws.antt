-- ===== src/Store/Memory/Laws.antt =====
-- MemoryStore keeps the laws of `Store`, and its sweep is invisible to readers.
use one_auth.Base.{
  ℕ, ◌+◌, ◌≤◌, ◌<◌, ◌≡◌, refl, true, ltb, pos_part, List, none, some, [], ◌∷◌, Text, text_eq,
  text_eq_iff, ℤ, is_positive, pos, negsuc, zero, suc, arith, if◌then◌else◌,
}
use one_auth.Model.Payload.{Payload, number}
use one_auth.Store.{StoreOps, IsStore}
use one_auth.Store.Memory.Entries.{
  Unique, find-put, find-remove, find-sweep, Unique-put, Unique-remove, Unique-sweep,
}
use one_auth.Store.Memory.{
  MemoryStore, new_memory_store, find, new_entry, counter, stored_count, is_expired, live_value,
  get, set, del, incr, gc,
}

-- The implementation of the interface: `Set` and `Incr` never fail.
abbrev pub memory_ops : StoreOps MemoryStore
memory_ops = record {
  set = λ now k v ttl s. some (set now k v ttl s);
  get = get;
  del = λ k. del (k ∷ []);
  incr = λ now k ttl s. some (incr now k ttl s);
}

abbrev pub IsMap : MemoryStore → Type 0
IsMap s = Unique s.entries

module _ (now later : ℕ) (k j : Text) (v : Payload) (ttl : ℤ) (s : MemoryStore) where
  get-set :
      get later j (set now k v ttl s)
      ≡ (if text_eq k j then live_value later (some (new_entry now v ttl)) else get later j s)
  unfolding get set
  get-set = ground (arith, find-put k j (new_entry now v ttl) s.entries)

module _ (now later : ℕ) (k j : Text) (ttl : ℤ) (s : MemoryStore) where
  get-incr : get later j (incr now k ttl s).1 ≡ (
      if text_eq k j
      then live_value later (some (counter now (incr now k ttl s).0 ttl))
      else get later j s)
  unfolding get incr
  get-incr =
      ground (arith, find-put k j (counter now (stored_count (find k s.entries) + 1) ttl) s.entries)

get-del :
    (later : ℕ) (k j : Text) (s : MemoryStore)
    → get later j (del (k ∷ []) s) ≡ (if text_eq k j then none else get later j s)
unfolding get del
get-del later k j s = ground (arith, find-remove k j s.entries)

new_entry_live :
    (now later : ℕ) (v : Payload) (ttl : ℤ)
    → is_positive ttl ≡ true
    → live_value later (some (new_entry now v ttl))
      ≡ (if ltb (now + pos_part ttl) later then none else some v)
new_entry_live now later v (pos zero) h = cc
new_entry_live now later v (pos (suc n)) h = refl
new_entry_live now later v (negsuc n) h = cc

counter_live :
    (now later n : ℕ) (ttl : ℤ)
    → later ≤ now + pos_part ttl
    → is_positive ttl ≡ true
    → live_value later (some (counter now n ttl)) ≡ some (number n)
counter_live now later n (pos m) h p = ground arith
counter_live now later n (negsuc m) h p = cc

-- MemoryStore keeps every law of the interface.
pub memory_ops-IsStore : IsStore memory_ops
memory_ops-IsStore = record {
  get-set_live = λ now later k v ttl s t e p h.
      ground
        (arith, get-set now later k k v ttl s, new_entry_live now later v ttl p, text_eq_iff k k);
  get-set_expired = λ now later k v ttl s t e p h.
      ground
        (arith, get-set now later k k v ttl s, new_entry_live now later v ttl p, text_eq_iff k k);
  get-set_ne =
      λ now later k j v ttl s t e h. ground (arith, get-set now later k j v ttl s, text_eq_iff k j);
  get-del_self = λ later k s. ground (arith, get-del later k k s, text_eq_iff k k);
  get-del_ne = λ later k j s h. ground (arith, get-del later k j s, text_eq_iff k j);
  get-incr_self = λ now later k ttl s n t e p h.
      ground
        (arith, get-incr now later k k ttl s, counter_live now later n ttl h p, text_eq_iff k k);
  get-incr_ne =
      λ now later k j ttl s n t e h. ground (arith, get-incr now later k j ttl s, text_eq_iff k j);
  incr_live = λ now k ttl s m n t l e. unfold get incr in ground arith;
}

get-gc :
    (now later : ℕ) (k : Text) (s : MemoryStore)
    → IsMap s
    → now ≤ later
    → get later k (gc now s) ≡ get later k s
unfolding get gc
get-gc now later k s u h = ground (arith, find-sweep (is_expired now) k s.entries u)

-- What other requests and the ticker do to a store.
pub data Call : Type 0 where
  sets : ℕ → Text → Payload → ℤ → Call
  dels : Text → Call
  incrs : ℕ → Text → ℤ → Call
  ticks : ℕ → Call

pub step : Call → MemoryStore → MemoryStore
step (sets now k v ttl) s = set now k v ttl s
step (dels k) s = del (k ∷ []) s
step (incrs now k ttl) s = (incr now k ttl s).1
step (ticks now) s = gc now s

pub run : List Call → MemoryStore → MemoryStore
unfolding step
run [] s = s
run (c ∷ cs) s = run cs (step c s)

step-IsMap : (c : Call) (s : MemoryStore) → IsMap s → IsMap (step c s)
unfolding step set del incr gc
step-IsMap (sets now k v ttl) s u = Unique-put k (new_entry now v ttl) s.entries u
step-IsMap (dels k) s u = Unique-remove k s.entries u
step-IsMap (incrs now k ttl) s u = Unique-put k _ s.entries u
step-IsMap (ticks now) s u = Unique-sweep (is_expired now) s.entries u

run-IsMap : (cs : List Call) (s : MemoryStore) → IsMap s → IsMap (run cs s)
unfolding run
run-IsMap [] s u = u
run-IsMap (c ∷ cs) s u = run-IsMap cs (step c s) (step-IsMap c s u)

-- After any calls on a new store, a collection at `now` changes no read at `now` or later.
pub get-gc-run :
    (cs : List Call) (now later : ℕ) (k : Text)
    → now ≤ later
    → get later k (gc now (run cs new_memory_store)) ≡ get later k (run cs new_memory_store)
get-gc-run cs now later k h =
    get-gc now later k (run cs new_memory_store) (run-IsMap cs new_memory_store tt) h

-- A counter whose time has run out and that no collection has removed reads as absent, and the next
-- `Incr` still counts on from it.
pub incr_expired :
    (now later : ℕ) (k : Text) (ttl : ℤ) (s : MemoryStore)
    → is_positive ttl ≡ true
    → now + pos_part ttl < later
    → (get later k (incr now k ttl s).1 ≡ none)
      × ((incr later k ttl (incr now k ttl s).1).0 ≡ (incr now k ttl s).0 + 1)
unfolding get incr
incr_expired now later k (pos n) s p h = ground (
  arith,
  find-put k k (counter now (stored_count (find k s.entries) + 1) (pos n)) s.entries,
  text_eq_iff k k,
)
incr_expired now later k (negsuc n) s p h = cc
