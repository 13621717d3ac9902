-- ===== src/Account/Password/Reset.antt =====
-- What a new password changes, and what it opens.
use one_auth.Base.{
  ℕ, ◌≡◌, inl, inr, refl, true, false, none, some, List, Text, arith, Option-cases, next,
}
use one_auth.Model.User.{User, get_by_id}
use one_auth.Handler.Settings.{Config}
use one_auth.Account.{by_login_name, update, authenticate, check_password}
use one_auth.Account.Lock.{by_login_name-update, get_by_id-update}
use one_auth.Account.Password.{
  Unicode, PasswordOps, IsPassword, done, validate_password_policy, store_hash, reset_password,
}

module _ (n : Unicode) (ops : PasswordOps) (laws : IsPassword ops) (cfg : Config) where
  -- A password that was set has passed the policy, and its hash is all that changes, in one row.
  pub reset_password-done :
      (id plain : Text) (us us' : List User)
      → reset_password n ops cfg id plain us ≡ done us'
      → (u : User) × (hashed : Text) × (get_by_id id us ≡ some u)
        × (ops.hash plain ≡ some hashed)
        × (validate_password_policy n cfg plain ≡ none)
        × (us' ≡ update (record u { password_hash = hashed }) us)
  unfolding reset_password store_hash
  reset_password-done id plain us us' e =
      elim (Option-cases (validate_password_policy n cfg plain)) [
        | inr (x, v) ↦ absurd (ground arith)
        | inl v ↦ elim (Option-cases (ops.hash plain)) [
          | inl k ↦ absurd (ground arith)
          | inr (hashed, k) ↦ elim (Option-cases (get_by_id id us)) [
            | inl i ↦ absurd (ground arith)
            | inr (u, i) ↦ (u, hashed, i, k, v, ground arith)
          ]
        ]
      ]

  -- The user of a login name, active and not locked, whose password was set, gets in with the new
  -- password at once, and no other column than the time of the login and the hash has changed.
  pub reset_password-authenticate :
      (name plain : Text) (u : User) (us us' : List User) (now : ℕ)
      → by_login_name name us ≡ some u
      → get_by_id u.id us ≡ some u
      → u.is_active ≡ true
      → u.is_locked ≡ false
      → reset_password n ops cfg u.id plain us ≡ done us'
      → (hashed : Text) × ((authenticate ops.verify now name plain us').0
          ≡ next (record u { password_hash = hashed; last_login = some now }))
  unfolding authenticate check_password
  reset_password-authenticate name plain u us us' now h i a l e =
      let (x, hashed, i', k, v, eq) = reset_password-done u.id plain us us' e in
      let y : User = record u { password_hash = hashed } in
      let found = by_login_name-update name u y us refl refl refl h in
      let row = get_by_id-update u y us refl i in
      let row' = get_by_id-update y (record y { last_login = some now }) (update y us) refl row in
      (hashed, ground (arith, found, row', laws.verify-hash plain hashed k))
