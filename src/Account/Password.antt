-- ===== src/Account/Password.antt =====
-- internal/service/user_service.go: the password policy, and how a password is set. Package unicode
-- with the decoding of a text into runes, and bcrypt of pkg/password, are parameters.
pub mod Rules
pub mod Reset
use one_auth.Base.{
  ℕ, ◌≡◌, Bool, true, false, not, ◌&&◌, Option, none, some, List, [], ◌∷◌, ◌++◌, Text, str, text_eq,
  is_empty, length, if◌then◌else◌, ltz, ℤ, pos, is_positive,
}
use one_auth.Model.User.{User, get_by_id}
use one_auth.Account.{update}
use one_auth.Handler.Settings.{Config, atoi, setting_or}

pub record Unicode : Type 0 where
  pub runes : Text → List ℕ
  pub is_upper : ℕ → Bool
  pub is_lower : ℕ → Bool
  pub is_digit : ℕ → Bool
  -- IsPunct or IsSymbol
  pub is_special : ℕ → Bool

-- bcrypt: a hash with the salt that is drawn, or an error, and the comparison
pub record PasswordOps : Type 0 where
  pub hash : Text → Option Text
  pub verify : Text → Text → Bool

pub record IsPassword (p : PasswordOps) : Type 0 where
  pub verify-hash :
      (plain hashed : Text) → p.hash plain ≡ some hashed → p.verify hashed plain ≡ true

pub record Policy : Type 0 where
  pub min_len : ℤ
  pub require_upper : Bool
  pub require_lower : Bool
  pub require_digit : Bool
  pub require_special : Bool

-- getBool(key, true)
abbrev pub bool_or_true : Text → Bool
bool_or_true v = if is_empty v then true else text_eq v (str "true")

unfoldable pub password_policy : Config → Policy
password_policy cfg = record {
  min_len = setting_or is_positive (pos 8) (atoi (cfg (str "password_min_length")));
  require_upper = bool_or_true (cfg (str "password_require_uppercase"));
  require_lower = bool_or_true (cfg (str "password_require_lowercase"));
  require_digit = bool_or_true (cfg (str "password_require_digit"));
  require_special = bool_or_true (cfg (str "password_require_special"));
}

pub record Seen : Type 0 where
  pub has_upper : Bool
  pub has_lower : Bool
  pub has_digit : Bool
  pub has_special : Bool

abbrev pub nothing_seen : Seen
nothing_seen = record {
  has_upper = false;
  has_lower = false;
  has_digit = false;
  has_special = false;
}

module _ (u : Unicode) where
  -- One round of the loop over the runes: the first case that fits
  unfoldable pub see : ℕ → Seen → Seen
  see r s =
      if u.is_upper r
      then record s { has_upper = true }
      else if u.is_lower r
      then record s { has_lower = true }
      else if u.is_digit r
      then record s { has_digit = true }
      else if u.is_special r
      then record s { has_special = true }
      else s

  unfoldable pub see_all : List ℕ → Seen → Seen
  see_all [] s = s
  see_all (r ∷ rs) s = see_all rs (see r s)

pub data CharKind : Type 0 where
  upper lower digit special : CharKind

-- if require && !has { missing = append(missing, kind) }
abbrev pub missing_if : Bool → Bool → CharKind → List CharKind
missing_if require has kind = if require && not has then kind ∷ [] else []

unfoldable pub missing : Policy → Seen → List CharKind
missing p s =
    missing_if p.require_upper s.has_upper upper
    ++ (missing_if p.require_lower s.has_lower lower
        ++ (missing_if p.require_digit s.has_digit digit
            ++ missing_if p.require_special s.has_special special))

pub data PolicyError : Type 0 where
  too_short : ℤ → PolicyError
  lacks : List CharKind → PolicyError

abbrev pub lacks_any : List CharKind → Option PolicyError
lacks_any [] = none
lacks_any (k ∷ ks) = some (lacks (k ∷ ks))

-- validatePasswordPolicy; none is no error.
unfoldable pub validate_password_policy : Unicode → Config → Text → Option PolicyError
validate_password_policy u cfg p =
    let policy = password_policy cfg in
    if ltz (pos (length p)) policy.min_len
    then some (too_short policy.min_len)
    else lacks_any (missing policy (see_all u (u.runes p) nothing_seen))

pub data PasswordError : Type 0 where
  policy : PolicyError → PasswordError
  hash_failed : PasswordError
  no_such_user : PasswordError
  wrong_password : PasswordError

-- What setting a password gives: an error, or the rows of users
pub data PasswordResult : Type 0 where
  refused : PasswordError → PasswordResult
  done : List User → PasswordResult

module _ (u : Unicode) (ops : PasswordOps) (cfg : Config) where
  unfoldable pub store_hash : Text → Option Text → List User → PasswordResult
  store_hash id none us = refused hash_failed
  store_hash id (some hashed) us = elim (get_by_id id us) [
    | none ↦ refused no_such_user
    | some x ↦ done (update (record x { password_hash = hashed }) us)
  ]

  -- UserService.ResetPassword
  unfoldable pub reset_password : Text → Text → List User → PasswordResult
  reset_password id plain us = elim (validate_password_policy u cfg plain) [
    | some e ↦ refused (policy e)
    | none ↦ store_hash id (ops.hash plain) us
  ]

  -- UserService.ChangePassword
  unfoldable pub change_password : Text → Text → Text → List User → PasswordResult
  change_password id old plain us = elim (get_by_id id us) [
    | none ↦ refused no_such_user
    | some x ↦
        if ops.verify x.password_hash old
        then elim (validate_password_policy u cfg plain) [
          | some e ↦ refused (policy e)
          | none ↦ reset_password id plain us
        ]
        else refused wrong_password
  ]
