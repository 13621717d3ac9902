-- ===== src/DirectorySync/Users/Listed.antt =====
-- A user who is found has a row with the same key.
use one_auth.Base.{
  ◌≡◌, refl, ap, ◌∙◌, subst, inl, inr, ◌⊎◌, Bool, true, false, Option, none, some, and_then, List,
  [], ◌∷◌, Text, text_eq, text_eq_refl, text_eq_iff, is_empty, arith, Bool-cases, if◌then◌else◌,
}
use one_auth.Model.User.{User, get_by_id}
use one_auth.Account.{get_by_username, get_by_email, has_email}
use one_auth.Account.Ldap.{to_lower}
use one_auth.DirectorySync.State.{Binding, get_binding, put_binding}
use one_auth.DirectorySync.Remote.{
  RemoteUser, get_by_domain_account, first_by_id, text_ltb, or_try, find_existing_user,
}

pub get_binding-put :
    (v : Binding) (bs : List Binding)
    → get_binding v.provider v.external_type v.external_id (put_binding v bs) ≡ some v
unfolding get_binding put_binding
get_binding-put v [] =
    let p = text_eq_refl v.provider in
    let k = text_eq_refl v.external_type in
    let e = text_eq_refl v.external_id in ground (arith, p, k, e)
get_binding-put v (b ∷ bs) =
    let p = text_eq_refl v.provider in
    let k = text_eq_refl v.external_type in
    let e = text_eq_refl v.external_id in ground (arith, p, k, e, get_binding-put v bs)

-- Some row has the key of the user
abbrev pub IsListed : List User → User → Type 0
IsListed us u = (w : User) × (get_by_id u.id us ≡ some w) × (w.id ≡ u.id)

pub get_by_id-key : (id : Text) (us : List User) (u : User) → get_by_id id us ≡ some u → u.id ≡ id
unfolding get_by_id
get_by_id-key id [] u h = cc
get_by_id-key id (w ∷ us) u h = ground (arith, get_by_id-key id us u, text_eq_iff w.id id)

pub IsListed-some : (us : List User) (u w : User) → get_by_id u.id us ≡ some w → IsListed us u
IsListed-some us u w h = (w, h, get_by_id-key u.id us w h)

pub IsListed-cons : (us : List User) (u v : User) → IsListed us u → IsListed (v ∷ us) u
unfolding get_by_id
IsListed-cons us u v (w, h, k) = elim (Bool-cases (text_eq v.id u.id)) [
  | inl e ↦ (v, rw (e) refl, (text_eq_iff v.id u.id).0 e)
  | inr e ↦ (w, rw (e) h, k)
]

pub IsListed-head : (us : List User) (u : User) → IsListed (u ∷ us) u
unfolding get_by_id
IsListed-head us u = (u, rw (text_eq_refl u.id) refl, refl)

pub IsListed-same : (us : List User) (w u : User) → w ≡ u → IsListed (w ∷ us) u
IsListed-same us w u same = subst (IsListed (w ∷ us)) same (IsListed-head us w)

pub get_by_username-IsListed :
    (n : Text) (us : List User) (u : User) → get_by_username n us ≡ some u → IsListed us u
unfolding get_by_username
get_by_username-IsListed n [] u h = cc
get_by_username-IsListed n (w ∷ us) u h = elim (Bool-cases (text_eq w.username n)) [
  | inl e ↦ IsListed-same us w u (ground arith)
  | inr e ↦ IsListed-cons us u w (get_by_username-IsListed n us u (ground arith))
]

pub get_by_email-IsListed :
    (e : Text) (us : List User) (u : User) → get_by_email e us ≡ some u → IsListed us u
unfolding get_by_email
get_by_email-IsListed e [] u h = cc
get_by_email-IsListed e (w ∷ us) u h = elim (Bool-cases (has_email w.email e)) [
  | inl k ↦ IsListed-same us w u (ground arith)
  | inr k ↦ IsListed-cons us u w (get_by_email-IsListed e us u (ground arith))
]

pub first_by_id-cases :
    (w : User) (rest : Option User) (matches : Bool) (u : User)
    → (if matches then some (first_by_id w rest) else rest) ≡ some u
    → (w ≡ u) ⊎ (rest ≡ some u)
first_by_id-cases w rest false u h = inr h
first_by_id-cases w none true u h = inl (ground arith)
first_by_id-cases w (some v) true u h = elim (Bool-cases (text_ltb v.id w.id)) [
  | inl e ↦ inr (ground arith)
  | inr e ↦ inl (ground arith)
]

pub get_by_domain_account-IsListed :
    (a : Text) (us : List User) (u : User) → get_by_domain_account a us ≡ some u → IsListed us u
unfolding get_by_domain_account
get_by_domain_account-IsListed a [] u h = cc
get_by_domain_account-IsListed a (w ∷ us) u h =
    elim (first_by_id-cases w (get_by_domain_account a us) (text_eq w.domain_account a) u h) [
      | inl e ↦ IsListed-same us w u e
      | inr e ↦ IsListed-cons us u w (get_by_domain_account-IsListed a us u e)
    ]

pub or_try-cases :
    (a b : Option User) (u : User) → or_try a b ≡ some u → (a ≡ some u) ⊎ (b ≡ some u)
or_try-cases none b u h = inr h
or_try-cases (some v) b u h = inl h

pub bound-IsListed :
    (b : Option Binding) (us : List User) (u : User)
    → and_then b (λ b. get_by_id b.local_id us) ≡ some u
    → IsListed us u
bound-IsListed none us u h = cc
bound-IsListed (some b) us u h =
    IsListed-some us u u (ap (λ id. get_by_id id us) (get_by_id-key b.local_id us u h) ∙ h)

pub mail-IsListed :
    (e : Text) (us : List User) (u : User)
    → (if is_empty e then none else get_by_email e us) ≡ some u
    → IsListed us u
mail-IsListed e us u h = get_by_email-IsListed e us u (ground arith)

pub find_existing_user-IsListed :
    (provider : Text) (r : RemoteUser) (bs : List Binding) (us : List User) (u : User)
    → find_existing_user provider r bs us ≡ some u
    → IsListed us u
unfolding find_existing_user
find_existing_user-IsListed provider r bs us u h = elim (or_try-cases _ _ u h) [
  | inl e ↦ bound-IsListed _ us u e
  | inr k ↦ elim (or_try-cases _ _ u k) [
    | inl e ↦ get_by_domain_account-IsListed r.external_id us u e
    | inr l ↦ elim (or_try-cases _ _ u l) [
      | inl e ↦ mail-IsListed r.email us u e
      | inr e ↦ get_by_username-IsListed (to_lower r.source_username) us u e
    ]
  ]
]
