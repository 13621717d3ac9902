-- ===== src/Store/Memory/Entries.antt =====
-- The Go map of MemoryStore: lookup, assignment, delete, and the sweep of one collection.
use one_auth.Base.{
  ℕ, ◌≡◌, refl, Bool, Option, none, some, List, [], ◌∷◌, Text, text_eq, text_eq_iff, if◌then◌else◌,
  arith,
}
use one_auth.Model.Payload.{Payload}

-- memEntry; no `expires_at` is the zero time
pub record Entry : Type 0 where
  pub value : Payload
  pub expires_at : Option ℕ

unfoldable pub find : Text → List (Text × Entry) → Option Entry
find k [] = none
find k ((j, e) ∷ m) = if text_eq j k then some e else find k m

unfoldable pub remove : Text → List (Text × Entry) → List (Text × Entry)
remove k [] = []
remove k ((j, e) ∷ m) = let rest = remove k m in if text_eq j k then rest else (j, e) ∷ rest

unfoldable pub put : Text → Entry → List (Text × Entry) → List (Text × Entry)
unfolding remove
put k e m = (k, e) ∷ remove k m

-- for k, v := range s.data { if expired(v) { delete(s.data, k) } }
unfoldable pub sweep : (Entry → Bool) → List (Text × Entry) → List (Text × Entry)
sweep gone [] = []
sweep gone ((j, e) ∷ m) = let rest = sweep gone m in if gone e then rest else (j, e) ∷ rest

pub find-remove :
    (k j : Text) (m : List (Text × Entry))
    → find j (remove k m) ≡ (if text_eq k j then none else find j m)
unfolding find remove
find-remove k j [] = ground arith
find-remove k j ((i, e) ∷ m) =
    ground (arith, text_eq_iff k j, text_eq_iff i k, text_eq_iff i j, find-remove k j m)

pub find-put :
    (k j : Text) (e : Entry) (m : List (Text × Entry))
    → find j (put k e m) ≡ (if text_eq k j then some e else find j m)
unfolding find put
find-put k j e m = ground (arith, find-remove k j m)

-- One entry for each key, as in a map.
abbrev pub Unique : List (Text × Entry) → Type 0
Unique [] = Unit {0}
Unique ((j, e) ∷ m) = (find j m ≡ none) × Unique m

pub Unique-remove : (k : Text) (m : List (Text × Entry)) → Unique m → Unique (remove k m)
unfolding remove
Unique-remove k [] u = tt
Unique-remove k ((j, e) ∷ m) u = ground (arith, find-remove k j m, Unique-remove k m u.1)

pub Unique-put : (k : Text) (e : Entry) (m : List (Text × Entry)) → Unique m → Unique (put k e m)
unfolding put
Unique-put k e m u = ground (arith, find-remove k k m, text_eq_iff k k, Unique-remove k m u)

pub find-sweep-none :
    (gone : Entry → Bool) (k : Text) (m : List (Text × Entry))
    → find k m ≡ none
    → find k (sweep gone m) ≡ none
unfolding find sweep
find-sweep-none gone k [] h = refl
find-sweep-none gone k ((j, e) ∷ m) h = ground (arith, find-sweep-none gone k m)

abbrev pub kept : (Entry → Bool) → Option Entry → Option Entry
kept gone none = none
kept gone (some e) = if gone e then none else some e

pub find-sweep :
    (gone : Entry → Bool) (k : Text) (m : List (Text × Entry))
    → Unique m
    → find k (sweep gone m) ≡ kept gone (find k m)
unfolding find sweep
find-sweep gone k [] u = refl
find-sweep gone k ((j, e) ∷ m) u =
    ground (arith, text_eq_iff j k, find-sweep-none gone j m, find-sweep gone k m u.1)

pub Unique-sweep :
    (gone : Entry → Bool) (m : List (Text × Entry)) → Unique m → Unique (sweep gone m)
unfolding sweep
Unique-sweep gone [] u = tt
Unique-sweep gone ((j, e) ∷ m) u = ground (arith, find-sweep-none gone j m, Unique-sweep gone m u.1)
