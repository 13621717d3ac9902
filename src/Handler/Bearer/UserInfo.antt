-- ===== src/Handler/Bearer/UserInfo.antt =====
-- internal/handler/oauth_handler.go, UserInfo: which claims about the user a bearer token gives. A
-- claim that is left out is `none`; the JSON web token of a signed answer is not modelled.
use one_auth.Base.{
  ℕ, ◌++◌, Bool, not, ◌||◌, Option, none, some, List, [], ◌∷◌, Text, str, text_eq, is_empty,
  if◌then◌else◌,
}
use one_auth.Model.User.{User}
use one_auth.Model.Client.{OAuth2Client, get_by_client_id}
use one_auth.Store.{StoreOps}
use one_auth.Oauth.Jwt.{AccessTokenClaims}
use one_auth.Oauth.Token.{pick, text_or}
use one_auth.LoginRule.{is_space}
use one_auth.Handler.Env.{Env, World, Request, resolve_subject}
use one_auth.Handler.Bearer.{bearer_user}

pub record UserClaims : Type 0 where
  pub sub : Text
  pub preferred_username : Option Text
  pub name : Option Text
  pub email : Option Text
  pub picture : Option Text
  pub department : Option Text
  pub groups : Option (List Text)
  pub phone_number : Option Text
  pub roles : Option (List Text)
  pub is_staff : Option Bool

pub data UserInfoReply : Type 0 where
  invalid_token : UserInfoReply
  json : UserClaims → UserInfoReply
  -- issuer, audience, algorithm, and whether the answer warns that it is not encrypted
  signed : Text → Text → Text → Bool → UserClaims → UserInfoReply

-- strings.Fields, on ASCII: the word that is being read, then the rest
unfoldable pub fields_from : Option Text → Text → List Text
fields_from none [] = []
fields_from (some word) [] = word ∷ []
fields_from none (c ∷ s) =
    let skip = fields_from none s in
    let start = fields_from (some (c ∷ [])) s in if is_space c then skip else start
fields_from (some word) (c ∷ s) =
    let stop = fields_from none s in
    let more = fields_from (some (word ++ (c ∷ []))) s in if is_space c then word ∷ stop else more

abbrev pub when {ℓ} : {A : Type ℓ} → Bool → Option A → Option A
when b o = if b then o else none

abbrev pub non_empty : Option Text → Option Text
non_empty none = none
non_empty (some s) = if is_empty s then none else some s

-- The claims before the scopes are looked at, with addBaseOIDCClaims; email_verified goes with email.
unfoldable pub base_claims : (Text → Bool) → Text → User → UserClaims
base_claims allow subject_type u = record {
  sub = resolve_subject u subject_type;
  preferred_username = when (allow (str "preferred_username")) (some u.username);
  name = when (allow (str "name")) (some (text_or u.nickname u.username));
  email = when (allow (str "email")) (non_empty u.email);
  picture = none;
  department = none;
  groups = none;
  phone_number = none;
  roles = none;
  is_staff = none;
}

-- A value that is set where it is there, and left as it was otherwise
abbrev pub or_keep {ℓ} : {A : Type ℓ} → Option A → Option A → Option A
or_keep none old = old
or_keep (some a) old = some a

-- One round of the loop over the scopes
unfoldable pub add_scope : (Text → Bool) → User → Text → UserClaims → UserClaims
add_scope allow u s x =
    if text_eq s (str "profile")
    then record x {
      picture = or_keep (if is_empty u.avatar then none else some u.avatar) x.picture;
      department = or_keep (when (allow (str "department")) u.department) x.department;
      groups = or_keep (when (allow (str "groups")) (some u.groups)) x.groups;
    }
    else if text_eq s (str "phone")
    then record x { phone_number = or_keep (when (allow (str "phone")) u.phone) x.phone_number }
    else if text_eq s (str "roles")
    then record x {
      roles = or_keep (when (allow (str "roles")) (some u.roles)) x.roles;
      is_staff = or_keep (when (allow (str "is_staff")) (some u.is_staff)) x.is_staff;
    }
    else x

unfoldable pub add_scopes : (Text → Bool) → User → List Text → UserClaims → UserClaims
add_scopes allow u [] x = x
add_scopes allow u (s ∷ ss) x = add_scopes allow u ss (add_scope allow u s x)

-- The client of the token, if it is known, its list of claims and its subject type
abbrev pub token_client : Env → AccessTokenClaims → Option OAuth2Client
token_client env c = if is_empty c.client_id then none else get_by_client_id c.client_id env.clients

abbrev pub claims_of : Option OAuth2Client → List Text
claims_of none = []
claims_of (some c) = c.oidc_claims

abbrev pub subject_type_of : Option OAuth2Client → Text
subject_type_of none = []
subject_type_of (some c) = c.subject_type

unfoldable pub user_claims : Env → AccessTokenClaims → User → UserClaims
user_claims env c u =
    let client = token_client env c in
    add_scopes (pick (claims_of client)) u (fields_from none c.scope)
      (base_claims (pick (claims_of client)) (subject_type_of client) u)

-- client.OIDCUserInfoResponse, "NORMAL" for none
abbrev pub format_of : Option OAuth2Client → Text
format_of none = str "NORMAL"
format_of (some c) = text_or c.oidc_userinfo_response (str "NORMAL")

abbrev pub is_signed : Text → Bool
is_signed f =
    text_eq f (str "SIGNING")
    || text_eq f (str "ENCRYPTION")
    || text_eq f (str "SIGNING_ENCRYPTION")

-- The issuer, audience and algorithm that IssueUserInfoJWT is given
abbrev pub sign_for : Text → Text → Option OAuth2Client → Bool → UserClaims → UserInfoReply
sign_for issuer client_id none warned x = signed issuer client_id [] warned x
sign_for issuer client_id (some c) warned x =
    signed (text_or c.oidc_issuer issuer) (text_or c.oidc_audience client_id)
      c.oidc_id_token_signing_alg warned x

module _ {S : Type 0} (o : StoreOps S) where
  -- OAuthHandler.UserInfo; `issuer` is that of the site.
  unfoldable pub user_info : Env → Text → ℕ → Request → World S → UserInfoReply
  user_info env issuer now r w = elim (bearer_user o env now r w) [
    | none ↦ invalid_token
    | some p ↦
        let client = token_client env p.0 in
        let x = user_claims env p.0 p.1 in
        if is_signed (format_of client)
        then sign_for issuer p.0.client_id client (not (text_eq (format_of client) (str "SIGNING")))
            x
        else json x
  ]
