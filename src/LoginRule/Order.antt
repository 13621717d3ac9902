-- ===== src/LoginRule/Order.antt =====
-- The rule that decides a login is the least of those that apply: the order of the query, and the
-- loop of internal/repository/loginrule_repo.go that stops at the first match.
use mathlib.Core.List.{Memᴰ}
use one_auth.Base.{
  ◌≡◌, refl, ap, Bool, true, false, Option, none, some, List, [], ◌∷◌, Text, arith, inl, inr,
  Bool-cases, if_intro, if_elim, sym, subst, str, text_eq,
}
use one_auth.LoginRule.{
  LoginRule, NetOps, Instant, rule_matches, comes_first, insert_rule, enabled_in_order, first_match,
  verdict, evaluate,
}

comes_first_refl : (r : LoginRule) → comes_first r r ≡ true
unfolding comes_first
comes_first_refl r = ground arith

comes_first_total : (r s : LoginRule) → comes_first r s ≡ false → comes_first s r ≡ true
unfolding comes_first
comes_first_total r s h = ground arith

comes_first_trans :
    (r s t : LoginRule) → comes_first r s ≡ true → comes_first s t ≡ true → comes_first r t ≡ true
unfolding comes_first
comes_first_trans r s t h k = ground arith

abbrev Every : (LoginRule → Type 0) → List LoginRule → Type 0
Every P [] = Unit {0}
Every P (r ∷ rs) = P r × Every P rs

Every-map :
    {P Q : LoginRule → Type 0}
    → ((r : LoginRule) → P r → Q r)
    → (rs : List LoginRule) → Every P rs
    → Every Q rs
Every-map f [] e = tt
Every-map f (r ∷ rs) (p, e) = (f r p, Every-map f rs e)

module _ (P : LoginRule → Type 0) where
  Every-insert :
      (r : LoginRule) (rs : List LoginRule) → P r → Every P rs → Every P (insert_rule r rs)
  unfolding insert_rule
  Every-insert r [] p e = (p, tt)
  Every-insert r (s ∷ ss) p (q, e) = elim (Bool-cases (comes_first r s)) [
    | inl h ↦ rw (h) (p, (q, e))
    | inr h ↦ rw (h) (q, Every-insert r ss p e)
  ]

  insert-Every :
      (r : LoginRule) (rs : List LoginRule) → Every P (insert_rule r rs) → P r × Every P rs
  unfolding insert_rule
  insert-Every r [] e = e
  insert-Every r (s ∷ ss) e = elim (if_elim (Every P) (comes_first r s) e) [
    | inl (_, e) ↦ e
    | inr (_, (q, e)) ↦ let (p, e) = insert-Every r ss e in (p, (q, e))
  ]

abbrev Sorted : List LoginRule → Type 0
Sorted [] = Unit {0}
Sorted (r ∷ rs) = Every (λ s. comes_first r s ≡ true) rs × Sorted rs

insert-Sorted : (r : LoginRule) (rs : List LoginRule) → Sorted rs → Sorted (insert_rule r rs)
unfolding insert_rule
insert-Sorted r [] s = (tt, tt)
insert-Sorted r (s ∷ ss) (e, k) = elim (Bool-cases (comes_first r s)) [
  | inl h ↦ rw (h) ((h, Every-map (λ t. comes_first_trans r s t h) ss e), (e, k))
  | inr h ↦ rw (h) (
    Every-insert (λ t. comes_first s t ≡ true) r ss (comes_first_total r s h) e,
    insert-Sorted r ss k,
  )
]

enabled-Sorted : (rs : List LoginRule) → Sorted (enabled_in_order rs)
unfolding enabled_in_order
enabled-Sorted [] = tt
enabled-Sorted (r ∷ rs) =
    if_intro Sorted r.enabled (λ _. insert-Sorted r (enabled_in_order rs) (enabled-Sorted rs))
      (λ _. enabled-Sorted rs)

-- What holds of each rule of the query holds of each enabled rule, and the other way about.
enabled-Every :
    (P : LoginRule → Type 0) (rs : List LoginRule)
    → Every P (enabled_in_order rs)
    → (r : LoginRule) → Memᴰ r rs
    → r.enabled ≡ true
    → P r
unfolding enabled_in_order
enabled-Every P [] e r m on = elim m [ ]
enabled-Every P (s ∷ rs) e r m on = elim (if_elim (Every P) s.enabled e) [
  | inl (_, e) ↦
      let (p, e) = insert-Every P s (enabled_in_order rs) e in
      elim m [ Memᴰ.head q ↦ subst P (sym q) p | Memᴰ.tail m ↦ enabled-Every P rs e r m on ]
  | inr (off, e) ↦ elim m [ Memᴰ.head q ↦ absurd cc | Memᴰ.tail m ↦ enabled-Every P rs e r m on ]
]

Every-enabled :
    (P : LoginRule → Type 0) (rs : List LoginRule)
    → ((r : LoginRule) → Memᴰ r rs → r.enabled ≡ true → P r)
    → Every P (enabled_in_order rs)
unfolding enabled_in_order
Every-enabled P [] f = tt
Every-enabled P (s ∷ rs) f =
    let rest = Every-enabled P rs (λ r m. f r (Memᴰ.tail m)) in
    if_intro (Every P) s.enabled
      (λ on. Every-insert P s (enabled_in_order rs) (f s (Memᴰ.head refl) on) rest) (λ _. rest)

module _ (net : NetOps) (uid ip : Text) (t : Instant) where
  abbrev Matches : LoginRule → Type 0
  Matches r = rule_matches net r uid ip t ≡ true

  abbrev Unmatched : LoginRule → Type 0
  Unmatched r = rule_matches net r uid ip t ≡ false

  -- The loop finds a rule that precedes all that match, or none matches.
  abbrev Found : List LoginRule → Option LoginRule → Type 0
  Found rs none = Every Unmatched rs
  Found rs (some r) = Matches r × (Every (λ s. Matches s → comes_first r s ≡ true) rs × Memᴰ r rs)

  Found-later :
      (r : LoginRule) (rs : List LoginRule) (o : Option LoginRule)
      → Unmatched r
      → Found rs o
      → Found (r ∷ rs) o
  Found-later r rs none h f = (h, f)
  Found-later r rs (some s) h (m, (e, g)) = (m, ((λ k. absurd cc, e), Memᴰ.tail g))

  first_match-Found : (rs : List LoginRule) → Sorted rs → Found rs (first_match net rs uid ip t)
  unfolding first_match
  first_match-Found [] s = tt
  first_match-Found (r ∷ rs) (e, s) =
      if_intro (Found (r ∷ rs)) (rule_matches net r uid ip t)
        (λ h. (h, ((λ _. comes_first_refl r, Every-map (λ s c _. c) rs e), Memᴰ.head refl)))
        (λ h. Found-later r rs (first_match net rs uid ip t) h (first_match-Found rs s))

Every-lookup :
    (P : LoginRule → Type 0) (rs : List LoginRule) → Every P rs → (r : LoginRule) → Memᴰ r rs → P r
Every-lookup P [] e r m = elim m [ ]
Every-lookup P (s ∷ rs) (p, e) r m = elim m [
  | Memᴰ.head q ↦ subst P (sym q) p
  | Memᴰ.tail m ↦ Every-lookup P rs e r m
]

module _ (net : NetOps) (uid ip : Text) (t : Instant) (rules : List LoginRule) where
  abbrev pub Applies : LoginRule → Type 0
  Applies r = Memᴰ r rules × ((r.enabled ≡ true) × (rule_matches net r uid ip t ≡ true))

  -- What Evaluate promises of the verdict and the rule it reports.
  abbrev pub Decided : Bool × Option LoginRule → Type 0
  Decided (allowed, none) =
      (allowed ≡ true)
      × ((r : LoginRule) → Memᴰ r rules → r.enabled ≡ true → rule_matches net r uid ip t ≡ false)
  Decided (allowed, some r) =
      (allowed ≡ text_eq r.action (str "accept"))
      × (Applies r × ((s : LoginRule) → Applies s → comes_first r s ≡ true))

  Found-Decided :
      (hit : Option LoginRule)
      → Found net uid ip t (enabled_in_order rules) hit
      → Decided (verdict hit, hit)
  Found-Decided none f = (refl, λ r m on. enabled-Every (Unmatched net uid ip t) rules f r m on)
  Found-Decided (some r) (h, (e, m)) =
      let (m, on) =
        Every-lookup (λ s. Memᴰ s rules × (s.enabled ≡ true)) (enabled_in_order rules)
          (Every-enabled (λ s. Memᴰ s rules × (s.enabled ≡ true)) rules (λ s m on. (m, on))) r m in
      (
        refl,
        (
          (m, (on, h)),
          λ s (n, (o, k)).
              enabled-Every (λ s. Matches net uid ip t s → comes_first r s ≡ true) rules e s n o k,
        ),
      )

  -- Evaluate finds no rule exactly when no enabled rule applies to the user, the address and the
  -- instant, and lets the login in; a rule that it finds is one of the table that is enabled and
  -- applies, it stands before all others that do by priority and then by age, and the login is let
  -- in if its action is "accept".
  pub evaluate-Decided : Decided (evaluate net rules uid ip t)
  unfolding evaluate
  evaluate-Decided =
      Found-Decided (first_match net (enabled_in_order rules) uid ip t)
        (first_match-Found net uid ip t (enabled_in_order rules) (enabled-Sorted rules))

pub evaluate-none :
    (net : NetOps) (rules : List LoginRule) (uid ip : Text) (t : Instant)
    → (evaluate net rules uid ip t).1 ≡ none
    → (evaluate net rules uid ip t).0 ≡ true
unfolding evaluate
evaluate-none net rules uid ip t h = ap verdict h
