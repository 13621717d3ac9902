-- ===== src/Model/Client/Redirect.antt =====
-- Redirect URIs: what `CheckRedirectURI` accepts, and that trailing '?' and '/' never matter.
use mathlib.Core.List.{reverse-append, reverse-reverse}
use one_auth.Base.{
  ◌≡◌, ◌↔◌, refl, ap, sym, ◌∙◌, ◌⊎◌, inl, inr, true, List, [], ◌∷◌, ◌++◌, reverse, Text, str,
  text_eq, text_eq_iff, drop_while, drop_while_idem, arith, Bool-cases,
}
use one_auth.Model.Client.{
  OAuth2Client, is_trailing, normalize_redirect_uri, has_wildcard, has_normalized,
  check_redirect_uri,
}

pub normalize_idem :
    (uri : Text) → normalize_redirect_uri (normalize_redirect_uri uri) ≡ normalize_redirect_uri uri
unfolding normalize_redirect_uri
normalize_idem uri = rw reverse-reverse (rw drop_while_idem)

-- Nothing but '?' and '/'
abbrev pub Trailing : Text → Type 0
Trailing [] = Unit {0}
Trailing (c ∷ s) = ((c ≡ b'?') ⊎ (c ≡ b'/')) × Trailing s

drop_while-append :
    (s t : Text) → Trailing s → drop_while is_trailing (s ++ t) ≡ drop_while is_trailing t
unfolding drop_while
drop_while-append [] t h = refl
drop_while-append (c ∷ s) t h = ground (arith, drop_while-append s t h.1)

Trailing-append : (s t : Text) → Trailing s → Trailing t → Trailing (s ++ t)
Trailing-append [] t h k = k
Trailing-append (c ∷ s) t h k = (h.0, Trailing-append s t h.1 k)

Trailing-reverse : (s : Text) → Trailing s → Trailing (reverse s)
Trailing-reverse [] h = tt
Trailing-reverse (c ∷ s) h =
    rw (reverse-append (c ∷ []) s)
      (Trailing-append (reverse s) (c ∷ []) (Trailing-reverse s h.1) (h.0, tt))

pub normalize-append :
    (uri junk : Text)
    → Trailing junk
    → normalize_redirect_uri (uri ++ junk) ≡ normalize_redirect_uri uri
unfolding normalize_redirect_uri
normalize-append uri junk h =
    rw (reverse-append uri junk)
      (ap reverse (drop_while-append (reverse junk) (reverse uri) (Trailing-reverse junk h)))

-- Two URIs that differ only in the '?' and '/' at their ends
abbrev pub Agrees : Text → Text → Type 0
Agrees u uri =
    (core t t' : Text) × ((u ≡ core ++ t) × ((uri ≡ core ++ t') × (Trailing t × Trailing t')))

drop_while-split : (s : Text) → (t : Text) × ((s ≡ t ++ drop_while is_trailing s) × Trailing t)
unfolding drop_while
drop_while-split [] = ([], (refl, tt))
drop_while-split (c ∷ s) = elim (Bool-cases (is_trailing c)) [
  | inl e ↦
      let (t, (same, h)) = drop_while-split s in
      (c ∷ t, (rw e (ap (λ (x : Text). c ∷ x) same), (ground arith, h)))
  | inr e ↦ ([], (rw e refl, tt))
]

-- What the loop cuts off is nothing but '?' and '/'.
normalize-split : (uri : Text) → (t : Text) × ((uri ≡ normalize_redirect_uri uri ++ t) × Trailing t)
unfolding normalize_redirect_uri
normalize-split uri =
    let (t, (same, h)) = drop_while-split (reverse uri) in
    (
      reverse t,
      (
        sym (reverse-reverse uri)
            ∙ ap reverse same
            ∙ reverse-append t (drop_while is_trailing (reverse uri)),
        Trailing-reverse t h,
      ),
    )

normalize-eq_iff :
    (u uri : Text) → (normalize_redirect_uri u ≡ normalize_redirect_uri uri) ↔ Agrees u uri
normalize-eq_iff u uri = (
  λ e.
      let (t, (left, h)) = normalize-split u in
      let (t', (right, k)) = normalize-split uri in
      (
        normalize_redirect_uri u,
        t,
        t',
        (left, (right ∙ ap (λ (x : Text). x ++ t') (sym e), (h, k))),
      ),
  λ (core, t, t', (left, (right, (h, k)))).
      ap normalize_redirect_uri left
      ∙ normalize-append core t h
      ∙ sym (normalize-append core t' k)
      ∙ sym (ap normalize_redirect_uri right),
)

-- The URI is registered: by the wildcard, or by a URI that agrees with it.
pub data Registered (uri : Text) : List Text → Type 0 where
  wildcard : {u : Text} {us : List Text} → u ≡ str "*" → Registered uri (u ∷ us)
  listed : {u : Text} {us : List Text} → Agrees u uri → Registered uri (u ∷ us)
  later : {u : Text} {us : List Text} → Registered uri us → Registered uri (u ∷ us)

has_wildcard-Registered : (uri : Text) (us : List Text) → has_wildcard us ≡ true → Registered uri us
unfolding has_wildcard
has_wildcard-Registered uri [] h = cc
has_wildcard-Registered uri (u ∷ us) h = elim (Bool-cases (text_eq u (str "*"))) [
  | inl e ↦ wildcard ((text_eq_iff u (str "*")).0 e)
  | inr e ↦ later (has_wildcard-Registered uri us (rw e at h))
]

has_normalized-Registered :
    (uri : Text) (us : List Text)
    → has_normalized (normalize_redirect_uri uri) us ≡ true
    → Registered uri us
unfolding has_normalized
has_normalized-Registered uri [] h = cc
has_normalized-Registered uri (u ∷ us) h =
    elim (Bool-cases (text_eq (normalize_redirect_uri u) (normalize_redirect_uri uri))) [
      | inl e ↦ listed (
          (normalize-eq_iff u uri).0
            ((text_eq_iff (normalize_redirect_uri u) (normalize_redirect_uri uri)).0 e))
      | inr e ↦ later (has_normalized-Registered uri us (rw e at h))
    ]

Registered-tests :
    {uri : Text} {us : List Text}
    → Registered uri us
    → (has_wildcard us ≡ true) ⊎ (has_normalized (normalize_redirect_uri uri) us ≡ true)
unfolding has_wildcard has_normalized
Registered-tests (wildcard {u = u} e) = inl (ground (arith, text_eq_iff u (str "*")))
Registered-tests {uri} (listed {u = u} a) =
    let e = (normalize-eq_iff u uri).1 a in
    inr (ground (arith, text_eq_iff (normalize_redirect_uri u) (normalize_redirect_uri uri)))
Registered-tests (later r) = ground (arith, Registered-tests r)

pub check_redirect_uri_iff :
    (c : OAuth2Client) (uri : Text)
    → (check_redirect_uri c uri ≡ true) ↔ Registered uri c.redirect_uris
unfolding check_redirect_uri
check_redirect_uri_iff c uri = (
  λ h. elim (Bool-cases (has_wildcard c.redirect_uris)) [
    | inl w ↦ has_wildcard-Registered uri c.redirect_uris w
    | inr w ↦ has_normalized-Registered uri c.redirect_uris (rw w at h)
  ],
  λ r. ground (arith, Registered-tests r),
)

-- Trailing '?' and '/' on the URI change neither the check nor the normal form that the two
-- endpoints compare.
pub check_redirect_uri-append :
    (c : OAuth2Client) (uri junk : Text)
    → Trailing junk
    → (check_redirect_uri c (uri ++ junk) ≡ check_redirect_uri c uri)
      × (normalize_redirect_uri (uri ++ junk) ≡ normalize_redirect_uri uri)
unfolding check_redirect_uri
check_redirect_uri-append c uri junk h =
    (rw (normalize-append uri junk h), normalize-append uri junk h)
