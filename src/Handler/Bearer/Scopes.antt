-- ===== src/Handler/Bearer/Scopes.antt =====
-- The claims of UserInfo, by the scopes of the token and the client's list alone.
use one_auth.Base.{◌≡◌, Bool, Option, Text, text_eq, if◌then◌else◌}
use one_auth.Model.User.{User}
use one_auth.Handler.Env.{Env}
use one_auth.Handler.Bearer.UserInfo.{UserClaims, or_keep, add_scope}

module _ (allow : Text → Bool) (u : User) where
  -- A claim that each round sets under one scope is set by the loop if that scope is there.
  module _ {ℓ} {A : Type ℓ} (claim : UserClaims → Option A) (scope : Text) (v : Option A) where
    abbrev Step : Type ℓ
    Step =
        (s : Text) (x : UserClaims)
        → claim (add_scope allow u s x) ≡ (if text_eq s scope then or_keep v (claim x) else claim x)
