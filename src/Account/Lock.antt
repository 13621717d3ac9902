-- ===== src/Account/Lock.antt =====
-- A lock keeps an account shut, whatever the password, until its end: LockUntil, FindLoginUser and
-- Authenticate together.
use one_auth.Base.{
  ℕ, ◌≡◌, refl, Bool, true, false, Option, none, some, List, [], ◌∷◌, Text, text_eq, text_eq_refl,
  arith, if◌then◌else◌, inl, inr, Option-cases, reply,
}
use one_auth.Model.User.{User, get_by_id}
use one_auth.Account.{
  get_by_username, get_by_email, by_login_name, update, lapsed, unlock, find_login_user, locked,
  disabled, bad_credentials, check_password, authenticate, lock_account, lock_until,
}

pub get_by_id-update :
    (u v : User) (us : List User)
    → v.id ≡ u.id
    → get_by_id u.id us ≡ some u
    → get_by_id u.id (update v us) ≡ some v
unfolding get_by_id update
get_by_id-update u v [] i h = cc
get_by_id-update u v (w ∷ us) i h = ground (arith, get_by_id-update u v us i, text_eq_refl v.id)

-- A row that is written under its own key, with its names, is found by them in place of the old.
module _ (name : Text) (u v : User) (same : v.id ≡ u.id) where
  username-update :
      (us : List User)
      → v.username ≡ u.username
      → get_by_username name us ≡ some u
      → get_by_username name (update v us) ≡ some v
  unfolding get_by_username update
  username-update [] n h = cc
  username-update (w ∷ us) n h = ground (arith, username-update us n, text_eq_refl v.id)

  username-update-none :
      (us : List User)
      → text_eq v.username name ≡ false
      → get_by_username name us ≡ none
      → get_by_username name (update v us) ≡ none
  unfolding get_by_username update
  username-update-none [] n h = refl
  username-update-none (w ∷ us) n h = ground (arith, username-update-none us n)

  email-update :
      (us : List User)
      → v.email ≡ u.email
      → get_by_email name us ≡ some u
      → get_by_email name (update v us) ≡ some v
  unfolding get_by_email update
  email-update [] n h = cc
  email-update (w ∷ us) n h = ground (arith, email-update us n, text_eq_refl v.id)

-- A user found by the e-mail address has not got the name as a user name.
email-username :
    (name : Text) (u : User) (us : List User)
    → get_by_username name us ≡ none
    → get_by_email name us ≡ some u
    → text_eq u.username name ≡ false
unfolding get_by_username get_by_email
email-username name u [] h k = cc
email-username name u (w ∷ us) h k = ground (arith, email-username name u us)

pub by_login_name-update :
    (name : Text) (u v : User) (us : List User)
    → v.id ≡ u.id
    → v.username ≡ u.username
    → v.email ≡ u.email
    → by_login_name name us ≡ some u
    → by_login_name name (update v us) ≡ some v
unfolding by_login_name
by_login_name-update name u v us i n e h = elim (Option-cases (get_by_username name us)) [
  | inl k ↦ ground (
    arith,
    username-update-none name u v i us,
    email-update name u v i us e,
    email-username name u us,
  )
  | inr (w, k) ↦ ground (arith, username-update name u v i us n)
]

module _ (name : Text) (u : User) (us us' : List User) (until : Option ℕ) (reason : Text) where
  -- After LockUntil of the user of a login name, whose row is the one of its key, and until the lock
  -- ends, the login name finds the user locked and nothing changes, and Authenticate refuses every
  -- password: as locked, or as disabled if the account is not active.
  pub locked_out :
      by_login_name name us ≡ some u
      → get_by_id u.id us ≡ some u
      → lock_until u.id until reason us ≡ some us'
      → (later : ℕ) → lapsed later until ≡ false
      → (verify : Text → Text → Bool) (plain : Text)
      → (find_login_user later name us' ≡ (some (lock_account until reason u), us'))
        × (authenticate verify later name plain us'
            ≡ (reply (if u.is_active then locked else disabled), us'))
  unfolding lock_until find_login_user authenticate
  locked_out h k l later shut verify plain =
      let found = by_login_name-update name u (lock_account until reason u) us refl refl refl h in
      (ground (arith, found), ground (arith, found))

  -- After LockUntil of the user of a login name, whose row is the one of its key and who is active,
  -- and after the end of the lock, the login name finds the user unlocked, and Authenticate refuses a
  -- wrong password as such and not as a lock.
  pub lock_ends :
      by_login_name name us ≡ some u
      → get_by_id u.id us ≡ some u
      → lock_until u.id until reason us ≡ some us'
      → u.is_active ≡ true
      → (later : ℕ) → lapsed later until ≡ true
      → (verify : Text → Text → Bool) (plain : Text) → verify u.password_hash plain ≡ false
      → ((find_login_user later name us').0 ≡ some (unlock u))
        × ((authenticate verify later name plain us').0 ≡ reply bad_credentials)
  unfolding lock_until find_login_user authenticate check_password
  lock_ends h k l active later over verify plain wrong =
      let found = by_login_name-update name u (lock_account until reason u) us refl refl refl h in
      (ground (arith, found), ground (arith, found))
