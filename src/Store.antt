-- ===== src/Store.antt =====
-- internal/oauth/store.go: the interface `Store`, with the laws that its clients rely on.
-- A failing `Set` or `Incr` is `none` and leaves the store as it was. `Get` gives `none` for a
-- missing key, an expired key and an error, which no caller tells apart. A deletion is taken to
-- succeed: that of Redis may fail, and its callers drop the error, so that what is said of keys that
-- were deleted holds only where the deletion has succeeded.
pub mod Memory
use one_auth.Base.{
  ℕ, ◌+◌, ◌≤◌, ◌<◌, ◌≡◌, ◌≢◌, true, Option, none, some, Text, ℤ, is_positive, pos_part,
}
use one_auth.Model.Payload.{Payload, number}

pub record StoreOps (S : Type 0) : Type 0 where
  pub set : ℕ → Text → Payload → ℤ → S → Option S
  pub get : ℕ → Text → S → Option Payload
  pub del : Text → S → S
  pub incr : ℕ → Text → ℤ → S → Option (ℕ × S)

pub record IsStore {S : Type 0} (o : StoreOps S) : Type 0 where
  pub get-set_live :
      (now later : ℕ) (k : Text) (v : Payload) (ttl : ℤ) (s t : S)
      → o.set now k v ttl s ≡ some t
      → is_positive ttl ≡ true
      → later ≤ now + pos_part ttl
      → o.get later k t ≡ some v
  pub get-set_expired :
      (now later : ℕ) (k : Text) (v : Payload) (ttl : ℤ) (s t : S)
      → o.set now k v ttl s ≡ some t
      → is_positive ttl ≡ true
      → now + pos_part ttl < later
      → o.get later k t ≡ none
  pub get-set_ne :
      (now later : ℕ) (k j : Text) (v : Payload) (ttl : ℤ) (s t : S)
      → o.set now k v ttl s ≡ some t
      → k ≢ j
      → o.get later j t ≡ o.get later j s
  pub get-del_self : (later : ℕ) (k : Text) (s : S) → o.get later k (o.del k s) ≡ none
  pub get-del_ne :
      (later : ℕ) (k j : Text) (s : S) → k ≢ j → o.get later j (o.del k s) ≡ o.get later j s
  pub get-incr_self :
      (now later : ℕ) (k : Text) (ttl : ℤ) (s : S) (n : ℕ) (t : S)
      → o.incr now k ttl s ≡ some (n, t)
      → is_positive ttl ≡ true
      → later ≤ now + pos_part ttl
      → o.get later k t ≡ some (number n)
  pub get-incr_ne :
      (now later : ℕ) (k j : Text) (ttl : ℤ) (s : S) (n : ℕ) (t : S)
      → o.incr now k ttl s ≡ some (n, t)
      → k ≢ j
      → o.get later j t ≡ o.get later j s
  pub incr_live :
      (now : ℕ) (k : Text) (ttl : ℤ) (s : S) (m n : ℕ) (t : S)
      → o.get now k s ≡ some (number m)
      → o.incr now k ttl s ≡ some (n, t)
      → n ≡ m + 1
