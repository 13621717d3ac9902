-- ===== src/Store/Memory.antt =====
-- internal/oauth/store.go: MemoryStore. Each method holds the lock from its first read to its last
-- write, so it is one step on the map; the map is an association list with one entry for each key.
-- The counter of `Incr` is unbounded here: an int64 is not reached by counting logins.
mod Entries
pub mod Laws
pub use Entries.{Entry}
unfoldable pub use Entries.{find, put, remove, sweep}
use one_auth.Base.{
  ℕ, ◌+◌, Bool, true, false, ◌&&◌, not, Option, none, some, List, [], ◌∷◌, Text, ℤ, is_positive,
  pos_part, add_duration, if◌then◌else◌, ltb,
}
use one_auth.Model.Payload.{Payload, number, as_number}

pub record MemoryStore : Type 0 where
  pub entries : List (Text × Entry)

abbrev pub new_memory_store : MemoryStore
new_memory_store = record { entries = [] }

-- !v.expiresAt.IsZero() && now.After(v.expiresAt)
abbrev pub is_expired : ℕ → Entry → Bool
is_expired now e = elim e.expires_at [ none ↦ false | some t ↦ ltb t now ]

-- One round of the ticker.
unfoldable pub gc : ℕ → MemoryStore → MemoryStore
gc now s = record { entries = sweep (is_expired now) s.entries }

-- memEntry{value: value, expiresAt: exp}
abbrev pub new_entry : ℕ → Payload → ℤ → Entry
new_entry now v ttl = record {
  value = v;
  expires_at = if is_positive ttl then some (add_duration now ttl) else none;
}

unfoldable pub set : ℕ → Text → Payload → ℤ → MemoryStore → MemoryStore
set now k v ttl s = record { entries = put k (new_entry now v ttl) s.entries }

abbrev pub live_value : ℕ → Option Entry → Option Payload
live_value now none = none
live_value now (some e) = if is_expired now e then none else some e.value

unfoldable pub get : ℕ → Text → MemoryStore → Option Payload
get now k s = live_value now (find k s.entries)

unfoldable pub del : List Text → MemoryStore → MemoryStore
del [] s = s
del (k ∷ ks) s = del ks (record { entries = remove k s.entries })

-- The number that is stored, expired or not; 0 for no entry and for a value that is no number.
abbrev pub stored_count : Option Entry → ℕ
stored_count none = 0
stored_count (some e) = elim (as_number e.value) [ none ↦ 0 | some n ↦ n ]

abbrev pub counter : ℕ → ℕ → ℤ → Entry
counter now n ttl = record { value = number n; expires_at = some (add_duration now ttl) }

unfoldable pub incr : ℕ → Text → ℤ → MemoryStore → ℕ × MemoryStore
incr now k ttl s =
    let n : ℕ = stored_count (find k s.entries) + 1 in
    (n, record { entries = put k (counter now n ttl) s.entries })
