-- ===== src/Base/Replies.antt =====
-- A handler that may answer early: `next` goes on, `reply` is the answer that ends it.
use mathlib.Core.Path.{◌≡◌, refl}
use mathlib.Core.Option.{Option, none, some}
use mathlib.Core.Logic.{◌⊎◌, inl, inr}
use mathlib.Core.Bool.{Bool, true, false}

pub data Flow {ℓ κ} (R : Type ℓ) (A : Type κ) : Type (ℓ ⊔ κ) where
  next : A → Flow R A
  reply : R → Flow R A

infixl 5 ◌>>=◌ ◌>>◌
abbrev pub ◌>>=◌ {ℓ κ μ} :
    {R : Type ℓ} {A : Type κ} {B : Type μ} → Flow R A → (A → Flow R B) → Flow R B
next a >>= f = f a
reply r >>= f = reply r

abbrev pub ◌>>◌ {ℓ κ} : {R : Type ℓ} {B : Type κ} → Flow R (Unit {0}) → Flow R B → Flow R B
m >> k = m >>= λ _. k

-- if !ok { answer r; return }
abbrev pub require {ℓ} : {R : Type ℓ} → Bool → R → Flow R (Unit {0})
require true r = next tt
require false r = reply r

-- if err != nil { answer r; return }
abbrev pub or_reply {ℓ κ} : {R : Type ℓ} {A : Type κ} → Option A → R → Flow R A
or_reply none r = reply r
or_reply (some a) r = next a

pub or_reply-eq-next {ℓ κ} :
    {R : Type ℓ} {A : Type κ} (m : Option A) (r : R) {a : A} → or_reply m r ≡ next a → m ≡ some a
or_reply-eq-next none r h = cc
or_reply-eq-next (some a) r h = cc

pub >>=-eq-next {ℓ κ μ} :
    {R : Type ℓ} {A : Type κ} {B : Type μ} (m : Flow R A) (f : A → Flow R B) {b : B}
    → (m >>= f) ≡ next b
    → (a : A) × (m ≡ next a) × (f a ≡ next b)
>>=-eq-next (next a) f h = (a, refl, h)
>>=-eq-next (reply r) f h = cc

pub require-eq-next {ℓ} :
    {R : Type ℓ} (b : Bool) (r : R) {u : Unit {0}} → require b r ≡ next u → b ≡ true
require-eq-next true r h = refl
require-eq-next false r h = cc

pub Flow-cases {ℓ κ} :
    {R : Type ℓ} {A : Type κ} (m : Flow R A) → ((r : R) × (m ≡ reply r)) ⊎ ((a : A) × (m ≡ next a))
Flow-cases (next a) = inr (a, refl)
Flow-cases (reply r) = inl (r, refl)
