-- ===== src/Tests/Info.antt =====
-- UserInfo for a token with the scopes "openid" and "profile".
use one_auth.Base.{◌≡◌, refl, none, [], ◌∷◌, str, pos, if◌then◌else◌}
use one_auth.Model.User.{User}
use one_auth.Oauth.Jwt.{AccessTokenClaims}
use one_auth.Handler.Bearer.UserInfo.{fields_from}
use one_auth.Tests.Data.{alice}
use one_auth.Tests.Tokens.{claims_for}

abbrev pictured : User
pictured = record alice { avatar = str "a.png" }

abbrev token : AccessTokenClaims
token = record (claims_for (pos 3_600_000_000_000)) { scope = str "openid profile" }

two_scopes : fields_from none (str "openid profile") ≡ str "openid" ∷ (str "profile" ∷ [])
unfolding fields_from
two_scopes = refl
