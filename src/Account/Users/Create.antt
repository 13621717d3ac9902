-- ===== src/Account/Users/Create.antt =====
-- A user who is created signs in.
use one_auth.Base.{
  ℕ, ◌≡◌, refl, ap, sym, ◌∙◌, subst, inl, inr, Bool, true, false, none, some, List, [], ◌∷◌, ◌++◌,
  Text, text_eq_refl, arith, Option-cases, next,
}
use one_auth.Model.User.{User, get_by_id}
use one_auth.Account.{get_by_username, by_login_name, authenticate, check_password}
use one_auth.Account.Lock.{get_by_id-update}
use one_auth.Account.Password.{Unicode, PasswordOps, IsPassword}
use one_auth.Handler.Settings.{Config}
use one_auth.Account.Users.{CreateUserInput, created, Roles, inserted, taken_column, create_user}

get_by_username-snoc :
    (us : List User) (u : User)
    → get_by_username u.username us ≡ none
    → get_by_username u.username (us ++ (u ∷ [])) ≡ some u
unfolding get_by_username
get_by_username-snoc [] u h = rw (text_eq_refl u.username) refl
get_by_username-snoc (w ∷ us) u h = ground (arith, get_by_username-snoc us u)

get_by_id-snoc :
    (us : List User) (u : User)
    → get_by_id u.id us ≡ none
    → get_by_id u.id (us ++ (u ∷ [])) ≡ some u
unfolding get_by_id
get_by_id-snoc [] u h = rw (text_eq_refl u.id) refl
get_by_id-snoc (w ∷ us) u h = ground (arith, get_by_id-snoc us u)

free_username :
    (x : CreateUserInput) (us : List User)
    → taken_column x us ≡ none
    → get_by_username x.username us ≡ none
unfolding taken_column
free_username x us h = elim (Option-cases (get_by_username x.username us)) [
  | inl n ↦ n
  | inr (u, k) ↦ absurd (ground arith)
]

by_username :
    (v : User) (us : List User)
    → get_by_username v.username us ≡ some v
    → by_login_name v.username us ≡ some v
unfolding by_login_name
by_username v us h = rw (by_login_name, h) refl

-- An active user without a lock, whose row is found by name and by key, signs in.
active_signs_in :
    (verify : Text → Text → Bool) (now : ℕ) (name plain : Text) (v : User) (us : List User)
    → by_login_name name us ≡ some v
    → get_by_id v.id us ≡ some v
    → v.is_active ≡ true
    → v.is_locked ≡ false
    → verify v.password_hash plain ≡ true
    → (authenticate verify now name plain us).0 ≡ next (record v { last_login = some now })
unfolding authenticate check_password
active_signs_in verify now name plain v us n i a l p =
    let row = get_by_id-update v (record v { last_login = some now }) us refl i in
    ground (arith, row)

module _ (u : Unicode) (ops : PasswordOps) (passwords : IsPassword ops) (cfg : Config)
    (roles : Roles) where
  created-inserted :
      (id : Text) (x : CreateUserInput) (v : User) (us us' : List User)
      → create_user u ops cfg roles id x us ≡ created v us'
      → (hash : Text) × (ops.hash x.password ≡ some hash)
        × (v ≡ inserted roles id hash x)
        × (us' ≡ us ++ (v ∷ []))
        × (taken_column x us ≡ none)
  unfolding create_user
  created-inserted id x v us us' h = elim (Option-cases (ops.hash x.password)) [
    | inl n ↦ absurd (ground arith)
    | inr (hash, k) ↦ (hash, k, ground arith, ground arith, ground arith)
  ]

  -- A user whom Create has made, under a key that no row had, signs in at once with the login name
  -- and the password of the input, even if the input says that the user is not active.
  pub create_user-authenticate :
      (id : Text) (x : CreateUserInput) (v : User) (us us' : List User)
      → create_user u ops cfg roles id x us ≡ created v us'
      → get_by_id id us ≡ none
      → (now : ℕ)
      → (authenticate ops.verify now x.username x.password us').0
        ≡ next (record v { last_login = some now })
  unfolding inserted
  create_user-authenticate id x v us us' h unused now =
      let (hash, k, made, rows, free) = created-inserted id x v us us' h in
      let w = inserted roles id hash x in
      let name =
        by_username w (us ++ (w ∷ [])) (get_by_username-snoc us w (free_username x us free)) in
      let in_table =
        active_signs_in ops.verify now x.username x.password w (us ++ (w ∷ [])) name
          (get_by_id-snoc us w unused) refl refl (passwords.verify-hash x.password hash k) in
      let of_v =
        subst
          (λ (t : User).
            (authenticate ops.verify now x.username x.password (us ++ (t ∷ []))).0
            ≡ next (record t { last_login = some now }))
          (sym made) in_table in
      ap (λ t. (authenticate ops.verify now x.username x.password t).0) rows ∙ of_v
