-- ===== src/Model/Client.antt =====
-- internal/model/oauth2_client.go: the columns of a client that the modelled handlers read, and the
-- match of a redirect URI. Go's int is ℤ.
pub mod Redirect
use one_auth.Base.{
  ℕ, ◌≡◌, arith, text_eq_iff, Bool, true, false, ◌||◌, Option, none, some, List, [], ◌∷◌, reverse,
  ℤ, Text, str, text_eq, ◌==◌, drop_while, if◌then◌else◌,
}

pub record OAuth2Client : Type 0 where
  pub client_id : Text
  pub client_secret_hash : Text
  pub client_name : Text
  pub client_type : Text
  pub protocol : Text
  pub is_active : Bool
  pub is_builtin : Bool
  pub access_policy : Text
  pub allow_sp_initiated : Bool
  pub redirect_uris : List Text
  pub subject_type : Text
  pub require_pkce : Bool
  pub require_consent : Bool
  pub access_token_ttl : ℤ
  pub refresh_token_ttl : ℤ
  pub id_token_ttl : ℤ
  pub issue_refresh_token : Bool
  pub oidc_issuer : Text
  pub oidc_audience : Text
  pub oidc_id_token_signing_alg : Text
  pub oidc_userinfo_response : Text
  pub oidc_claims : List Text
  pub cas_service : Text
  pub cas_callback_url : Text
  pub cas_user_attribute : Text
  pub cas_expires_seconds : ℤ
  pub cas_return_attributes : Bool

-- s[len(s)-1] == '?' || s[len(s)-1] == '/'
abbrev pub is_trailing : ℕ → Bool
is_trailing c = c == b'?' || c == b'/'

-- The loop that cuts the last byte off while it is '?' or '/': on the reversed text it is a loop on
-- the first byte.
unfoldable pub normalize_redirect_uri : Text → Text
normalize_redirect_uri uri = reverse (drop_while is_trailing (reverse uri))

-- for _, u := range c.RedirectURIs { if u == "*" … }
unfoldable pub has_wildcard : List Text → Bool
has_wildcard [] = false
has_wildcard (u ∷ us) = text_eq u (str "*") || has_wildcard us

-- for _, u := range c.RedirectURIs { if normalize(u) == normURI … }
unfoldable pub has_normalized : Text → List Text → Bool
has_normalized norm_uri [] = false
has_normalized norm_uri (u ∷ us) =
    text_eq (normalize_redirect_uri u) norm_uri || has_normalized norm_uri us

unfoldable pub check_redirect_uri : OAuth2Client → Text → Bool
check_redirect_uri c uri =
    has_wildcard c.redirect_uris || has_normalized (normalize_redirect_uri uri) c.redirect_uris

abbrev pub is_public : OAuth2Client → Bool
is_public c = text_eq c.client_type (str "public")

-- internal/repository/client_repo.go GetByClientID: the first row with the key
unfoldable pub get_by_client_id : Text → List OAuth2Client → Option OAuth2Client
get_by_client_id id [] = none
get_by_client_id id (c ∷ cs) = if text_eq c.client_id id then some c else get_by_client_id id cs

pub get_by_client_id-eq :
    (id : Text) (cs : List OAuth2Client) (c : OAuth2Client)
    → get_by_client_id id cs ≡ some c
    → c.client_id ≡ id
unfolding get_by_client_id
get_by_client_id-eq id [] c h = cc
get_by_client_id-eq id (x ∷ cs) c h =
    ground (arith, text_eq_iff x.client_id id, get_by_client_id-eq id cs c)

-- model.AuthorizationGrant
pub record AuthorizationGrant : Type 0 where
  pub user_id : Text
  pub client_id : Text
  pub scope : Text
