-- ===== src/Account.antt =====
-- internal/service/user_service.go and internal/repository/user_repo.go: who signs in, the lock of
-- an account, and the rows of users that they change.
pub mod Lock
pub mod Ldap
pub mod Password
pub mod Users
use one_auth.Base.{
  ℕ, Bool, true, false, ◌&&◌, Option, none, some, List, [], ◌∷◌, Text, str, text_eq, if◌then◌else◌,
  ltb, Flow, next, reply,
}
use one_auth.Model.User.{User, get_by_id}

-- UserRepository.GetByUsername, GetByEmail: the first row
unfoldable pub get_by_username : Text → List User → Option User
get_by_username name [] = none
get_by_username name (u ∷ us) =
    let rest = get_by_username name us in if text_eq u.username name then some u else rest

abbrev pub has_email : Option Text → Text → Bool
has_email none name = false
has_email (some e) name = text_eq e name

unfoldable pub get_by_email : Text → List User → Option User
get_by_email name [] = none
get_by_email name (u ∷ us) =
    let rest = get_by_email name us in if has_email u.email name then some u else rest

-- The two lookups that FindLoginUser and Authenticate start with
unfoldable pub by_login_name : Text → List User → Option User
by_login_name name us = elim (get_by_username name us) [
  | some u ↦ some u
  | none ↦ get_by_email name us
]

-- UserRepository.Update: the row of the user's key
unfoldable pub update : User → List User → List User
update v [] = []
update v (u ∷ us) = let rest = update v us in if text_eq u.id v.id then v ∷ rest else u ∷ rest

-- time.Now().After(*u.LockUntil), for a lock with an end
unfoldable pub lapsed : ℕ → Option ℕ → Bool
lapsed now none = false
lapsed now (some until) = ltb until now

abbrev pub unlock : User → User
unlock u = record u { is_locked = false; lock_until = none; lock_reason = [] }

-- UserService.FindLoginUser: nobody, or the user, whose lock is taken off when it has lapsed
unfoldable pub find_login_user : ℕ → Text → List User → Option User × List User
find_login_user now name us = elim (by_login_name name us) [
  | none ↦ (none, us)
  | some u ↦
      if u.is_locked && lapsed now u.lock_until
      then (some (unlock u), update (unlock u) us)
      else (some u, us)
]

-- The errors of Authenticate that Login tells apart, by their texts
pub data AuthError : Type 0 where
  bad_credentials : AuthError
  disabled : AuthError
  locked : AuthError
  not_found : AuthError

-- The end of Authenticate: the password, the time of the login, and the row read again
unfoldable pub check_password :
    (Text → Text → Bool) → ℕ → Text → User → List User → Flow AuthError User × List User
check_password verify now plain u us =
    if verify u.password_hash plain
    then (let us' = update (record u { last_login = some now }) us in
        elim (get_by_id u.id us') [ none ↦ (reply not_found, us') | some v ↦ (next v, us') ])
    else (reply bad_credentials, us)

-- UserService.Authenticate
unfoldable pub authenticate :
    (Text → Text → Bool) → ℕ → Text → Text → List User → Flow AuthError User × List User
authenticate verify now name plain us = elim (by_login_name name us) [
  | none ↦ (reply bad_credentials, us)
  | some u ↦
      if u.is_active
      then (if u.is_locked
          then (if lapsed now u.lock_until
              then check_password verify now plain (unlock u) (update (unlock u) us)
              else (reply locked, us))
          else check_password verify now plain u us)
      else (reply disabled, us)
]

abbrev pub lock_account : Option ℕ → Text → User → User
lock_account until reason u = record u {
  is_locked = true;
  lock_until = until;
  lock_reason = reason;
}

-- UserService.LockUntil; an unknown key is an error, `none`.
unfoldable pub lock_until : Text → Option ℕ → Text → List User → Option (List User)
lock_until id until reason us = elim (get_by_id id us) [
  | none ↦ none
  | some u ↦ some (update (lock_account until reason u) us)
]
